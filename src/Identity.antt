-- ===== src/Identity.antt =====
use ackinacki.Types.{BlockSeqNo, ThreadIdentifier, BlockIdentifier}
use ackinacki.Common.{
  inr, inl, Bool-cases, Option-cases, ◌∙◌, ap, sym, refl, suc, zero, ◌≡◌, Option, List, false, true,
  some, none, ◌∷◌, nat_eq, ◌^◌, ◌*◌, ltb, ◌-◌, ◌+◌, ◌==◌, ◌%◌, ◌/◌, if◌then◌else◌, arith, ℕ, Bool,
  [],
}
-- node/src/types/thread_identifier.rs, block_height.rs, block_index.rs and block_seq_no.rs: names and
-- numbers of threads and blocks.
pub mod Laws
mod Examples

-- The first two bytes are the local index, the other 32 the block.
unfoldable pub new_thread_identifier : BlockIdentifier → ℕ → ThreadIdentifier
new_thread_identifier block_id id = (id / 256 % 256 * 256 + id % 256) * 2 ^ 256 + block_id

pub spawning_block_id : ThreadIdentifier → BlockIdentifier
spawning_block_id thread = thread % 2 ^ 256

unfoldable pub is_spawning_block : ThreadIdentifier → BlockIdentifier → Bool
is_spawning_block thread block_id = thread % 2 ^ 256 == block_id

pub record BlockHeight : Type 0 where
  pub thread_identifier : ThreadIdentifier
  pub height : ℕ

-- The height is a u64, whose overflow panics: `none`.
pub next : BlockHeight → ThreadIdentifier → Option BlockHeight
next h thread =
    if h.thread_identifier == thread
    then if ltb (h.height + 1) (2 ^ 64)
      then some (record { thread_identifier = thread; height = h.height + 1 })
      else none
    else some (record { thread_identifier = thread; height = 0 })

-- A u32, whose overflow panics.
pub next_seq_no : BlockSeqNo → Option BlockSeqNo
next_seq_no seq_no = if ltb (seq_no + 1) (2 ^ 32) then some (seq_no + 1) else none

pub saturating_sub : BlockSeqNo → ℕ → BlockSeqNo
saturating_sub seq_no other = seq_no - other

pub record BlockIndex : Type 0 where
  pub block_seq_no : BlockSeqNo
  pub block_identifier : BlockIdentifier

pub data Ordering : Type 0 where
  less equal greater : Ordering

pub compare_numbers : ℕ → ℕ → Ordering
compare_numbers a b = if ltb a b then less else if a == b then equal else greater

-- `impl Ord`
pub cmp : BlockIndex → BlockIndex → Ordering
unfolding compare_numbers
cmp a b = elim (compare_numbers a.block_seq_no b.block_seq_no) [
  | equal ↦ compare_numbers a.block_identifier b.block_identifier
  | less ↦ less
  | greater ↦ greater
]
