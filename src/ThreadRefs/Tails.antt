-- ===== src/ThreadRefs/Tails.antt =====
-- The tails of node/src/multithreading/cross_thread_messaging/thread_references_state.rs.
use ackinacki.Types.{ThreadIdentifier}
use ackinacki.Common.Assoc.{get-insert, get}
use ackinacki.ThreadRefs.{keep_all_tails, ReferencedBlock, keep_tail, ThreadRefs}
use ackinacki.Common.{
  inr, Option-cases, All, inl, ◌==◌, ltb, ==_cases, if◌then◌else◌, ◌≤◌, arith, ◌≡◌, Option, List,
  some, none, ◌∷◌, [], nat_eq,
}

-- The table has a block of the thread, with a number that is no smaller.
abbrev pub HasTail : ThreadRefs → ReferencedBlock → Type 0
HasTail tails b =
    (e : ReferencedBlock) × (get b.block_thread_identifier tails ≡ some e)
    × (b.block_seq_no ≤ e.block_seq_no)

-- The later of a block and the one that the table has.
abbrev pub newer : ReferencedBlock → Option ReferencedBlock → ReferencedBlock
newer c none = c
newer c (some e) = if ltb e.block_seq_no c.block_seq_no then c else e

pub get-keep_tail :
    (c : ReferencedBlock) (t : ThreadIdentifier) (tails : ThreadRefs)
    → get t (keep_tail c tails) ≡ (
        if c.block_thread_identifier == t
        then some (newer c (get c.block_thread_identifier tails))
        else get t tails)
unfolding keep_tail
get-keep_tail c t tails = elim (Option-cases (get c.block_thread_identifier tails)) [
  | inl e ↦ ground (arith, get-insert c.block_thread_identifier t c tails)
  | inr (b, e) ↦ ground (arith, get-insert c.block_thread_identifier t c tails)
]

keep_tail-HasTail :
    (b c : ReferencedBlock) (tails : ThreadRefs) → HasTail tails b → HasTail (keep_tail c tails) b
keep_tail-HasTail b c tails (e, found, le) =
    elim (==_cases c.block_thread_identifier b.block_thread_identifier) [
      | inl (same, t) ↦ (
        newer c (some e),
        ground (arith, get-keep_tail c b.block_thread_identifier tails),
        ground arith,
      )
      | inr (other, f) ↦ (e, ground (arith, get-keep_tail c b.block_thread_identifier tails), le)
    ]

pub keep_tail_self : (b : ReferencedBlock) (tails : ThreadRefs) → HasTail (keep_tail b tails) b
keep_tail_self b tails = (
  newer b (get b.block_thread_identifier tails),
  ground (arith, get-keep_tail b b.block_thread_identifier tails),
  ground arith,
)

keep_all_tails-HasTail :
    (bs : List ReferencedBlock) (b : ReferencedBlock) (tails : ThreadRefs)
    → HasTail tails b
    → HasTail (keep_all_tails bs tails) b
unfolding keep_all_tails
keep_all_tails-HasTail [] b tails h = h
keep_all_tails-HasTail (c ∷ bs) b tails h =
    keep_all_tails-HasTail bs b (keep_tail c tails) (keep_tail-HasTail b c tails h)

-- Of the blocks that are given, each has a tail in its thread whose number is no smaller.
pub keep_all_tails-All :
    (bs : List ReferencedBlock) (tails : ThreadRefs) → All (HasTail (keep_all_tails bs tails)) bs
unfolding keep_all_tails
keep_all_tails-All [] tails = tt
keep_all_tails-All (b ∷ bs) tails = (
  keep_all_tails-HasTail bs b (keep_tail b tails) (keep_tail_self b tails),
  keep_all_tails-All bs (keep_tail b tails),
)
