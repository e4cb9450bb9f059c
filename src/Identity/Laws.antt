-- ===== src/Identity/Laws.antt =====
use ackinacki.Types.{BlockIdentifier, ThreadIdentifier}
use ackinacki.Identity.{
  equal, BlockIndex, less, is_spawning_block, compare_numbers, greater, spawning_block_id, cmp,
  Ordering, next, BlockHeight, new_thread_identifier,
}
use ackinacki.Common.{
  some, ◌/◌, ap, ◌%◌, ◌*◌, nat_eq, ◌↔◌, if◌then◌else◌, ◌==◌, ◌^◌, ◌<◌, ◌+◌, arith, ◌≡◌, ℕ,
}

-- Identifiers of threads are unique, heights count the blocks of a thread, and indices are ordered:
-- node/src/types/thread_identifier.rs, block_height.rs and block_index.rs.

thread_number :
    (b : BlockIdentifier) (i : ℕ) → i < 2 ^ 16 → new_thread_identifier b i ≡ i * 2 ^ 256 + b
unfolding new_thread_identifier
thread_number b i h =
    let index : i / 256 % 256 * 256 + i % 256 ≡ i = omega arith in ap (λ n. n * 2 ^ 256 + b) index

-- The identifier of a thread tells the block that spawned it and the local index, so two threads that
-- are spawned by different blocks, or at different indices, have different identifiers.
pub new_thread_identifier-distinct :
    (b c : BlockIdentifier) (i j : ℕ)
    → b < 2 ^ 256
    → c < 2 ^ 256
    → i < 2 ^ 16
    → j < 2 ^ 16
    → (spawning_block_id (new_thread_identifier b i) ≡ b)
      × (is_spawning_block (new_thread_identifier b i) c ≡ (b == c))
      × ((new_thread_identifier b i ≡ new_thread_identifier c j) ↔ ((b ≡ c) × (i ≡ j)))
unfolding spawning_block_id is_spawning_block
new_thread_identifier-distinct b c i j hb hc hi hj =
    ground (arith, thread_number b i hi, thread_number c j hj)

-- The block after one of height `h` in a thread has the next height there, and the height 0 if the thread
-- is another; only a height at the end of its type has no next one.
pub next-height :
    (h : BlockHeight) (t : ThreadIdentifier)
    → h.height + 1 < 2 ^ 64
    → next h t
      ≡ some (record {
        thread_identifier = t;
        height = if h.thread_identifier == t then h.height + 1 else 0;
      })
unfolding next
next-height h t lt = ground arith

abbrev pub flip : Ordering → Ordering
flip less = greater
flip equal = equal
flip greater = less

-- Block indices are in a total order: equal only when they are the same, opposite when exchanged, and
-- transitive.
pub cmp-order :
    (a b c : BlockIndex)
    → ((cmp a b ≡ equal) ↔ (a ≡ b))
      × (cmp b a ≡ flip (cmp a b))
      × (cmp a b ≡ less → cmp b c ≡ less → cmp a c ≡ less)
unfolding cmp compare_numbers
cmp-order a b c = ground arith
