-- ===== src/Identity/Examples.antt =====
-- Identifiers, heights and indices of node/src/types at concrete inputs.
use ackinacki.Identity.Laws.{new_thread_identifier-distinct}
use ackinacki.Identity.{
  is_spawning_block, new_thread_identifier, BlockIndex, BlockHeight, spawning_block_id,
}
use ackinacki.Common.{nat_beq, ◌↔◌, arith, ◌≡◌, ℕ, nat_eq}

abbrev seven : ℕ
seven = 7

abbrev first_index : ℕ
first_index = 258

new_thread_identifier-distinct_example :
    (spawning_block_id (new_thread_identifier 7 258) ≡ 7)
    × (is_spawning_block (new_thread_identifier 7 258) 8 ≡ nat_beq 7 8)
    × ((new_thread_identifier 7 258 ≡ new_thread_identifier 8 1)
        ↔ ((seven ≡ 8) × (first_index ≡ 1)))
new_thread_identifier-distinct_example =
    new_thread_identifier-distinct 7 8 258 1 (omega arith) (omega arith) (omega arith) (omega arith)

abbrev tenth : BlockHeight
tenth = record { thread_identifier = 1; height = 10 }

abbrev index : ℕ → ℕ → BlockIndex
index n b = record { block_seq_no = n; block_identifier = b }
