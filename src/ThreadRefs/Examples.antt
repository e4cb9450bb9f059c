-- ===== src/ThreadRefs/Examples.antt =====
use ackinacki.ThreadRefs.{at_cutoff}
use ackinacki.ThreadRefs.{keep_tail}
use ackinacki.ThreadsTracking.{list_threads}
-- Walks of node/src/multithreading/cross_thread_messaging/thread_references_state.rs at concrete inputs.
use ackinacki.ThreadRefs.References.Moved.{move_refs-HasTail, IsAmong}
use ackinacki.ThreadRefs.Tails.{HasTail}
use ackinacki.ThreadRefs.References.{can_reference, move_refs}
use ackinacki.ThreadRefs.References.Ends.{can_reference-ends, AreKnown}
use ackinacki.Common.Assoc.{get, insert, is_some}
use mathlib.Core.Option.{some-injective}
use ackinacki.ThreadRefs.Walk.{walk_back_into_history-IsTrail, IsTrail, ParentsAreOlder}
use ackinacki.Types.{ThreadIdentifier, BlockIdentifier}
use ackinacki.ThreadRefs.{
  ReferencedBlock, as_reference_state_data, out_of_rounds, walk_back_into_history, ThreadRefs,
  CrossThreadRefData,
}
use ackinacki.Common.{
  ◌≤◌, ◌⊎◌, ◌==◌, map, All, inr, inl, Bool-cases, true, ok, err, ltb, ◌≢◌, ◌<◌, if◌then◌else◌, ◌-◌,
  arith, ◌≡◌, ℕ, Option, List, some, none, ◌∷◌, [], nat_eq, refl,
}

-- Block `n` of thread 1 follows block `n - 1`, up to block 5.
abbrev block : ℕ → CrossThreadRefData
block n = record {
  block_identifier = n;
  block_seq_no = n;
  block_thread_identifier = 1;
  parent_block_identifier = n - 1;
  block_refs = [];
  threads_table = record { masks = [] };
}

abbrev read : BlockIdentifier → Option CrossThreadRefData
read b = if ltb 0 b then (if ltb b 6 then some (block b) else none) else none

abbrev cutoff : ThreadRefs
cutoff = (1, record { block_thread_identifier = 1; block_identifier = 2; block_seq_no = 2 }) ∷ []

read-some :
    (b : BlockIdentifier) (r : CrossThreadRefData) → read b ≡ some r → (0 < b) × (r ≡ block b)
read-some b r h = ground arith

read-ParentsAreOlder : ParentsAreOlder read cutoff
read-ParentsAreOlder id child parent h g =
    let (positive, is_block) = read-some id child h in
    let (above, is_parent) = read-some child.parent_block_identifier parent g in ground arith

walk_back_into_history-IsTrail_example :
    (walk_back_into_history read cutoff 6 5 ≢ err out_of_rounds)
    × ((trail : List CrossThreadRefData)
        → walk_back_into_history read cutoff 6 5 ≡ ok trail
        → IsTrail read cutoff (block 5) trail)
walk_back_into_history-IsTrail_example =
    walk_back_into_history-IsTrail read cutoff 6 5 (block 5) read-ParentsAreOlder refl (omega arith)

-- Three blocks of the thread can be read.
abbrev few : BlockIdentifier → Option CrossThreadRefData
few b =
    if b == 2
    then some (block 2)
    else if b == 3
    then some (block 3)
    else if b == 4
    then some (block 4)
    else none

few_cases :
    (b : BlockIdentifier) (r : CrossThreadRefData)
    → few b ≡ some r
    → (block 2 ≡ r) ⊎ (block 3 ≡ r) ⊎ (block 4 ≡ r)
few_cases b r h = elim (Bool-cases (b == 2)) [
  | inl e ↦ inl (some-injective (block 2) r (rw e at h))
  | inr e ↦ elim (Bool-cases (b == 3)) [
    | inl f ↦ inr (inl (some-injective (block 3) r (rw (e, f) at h)))
    | inr f ↦ elim (Bool-cases (b == 4)) [
      | inl g ↦ inr (inr (some-injective (block 4) r (rw (e, f, g) at h)))
      | inr g ↦ cc (rw (e, f, g) at h)
    ]
  ]
]

abbrev few_blocks : List CrossThreadRefData
few_blocks = block 2 ∷ (block 3 ∷ (block 4 ∷ []))

few-AreKnown : AreKnown few 9 few_blocks
few-AreKnown id b h = elim (few_cases id b h) [
  | inl e ↦ (inl e, ground (arith, e))
  | inr (inl e) ↦ (inr (inl e), ground (arith, e))
  | inr (inr e) ↦ (inr (inr (inl e)), ground (arith, e))
]

few-some : (b : BlockIdentifier) (r : CrossThreadRefData) → few b ≡ some r → (0 < b) × (r ≡ block b)
few-some b r h = ground arith

few-ParentsAreOlder : ParentsAreOlder few []
few-ParentsAreOlder id child parent h g =
    let (positive, is_block) = few-some id child h in
    let (higher, is_parent) = few-some child.parent_block_identifier parent g in ground arith

can_reference-ends_example :
    (enough : ℕ) × ((rounds : ℕ)
      → enough ≤ rounds
      → can_reference few 9 rounds cutoff (4 ∷ []) ≢ err out_of_rounds)
can_reference-ends_example =
    can_reference-ends few 9 few_blocks cutoff (4 ∷ []) few-AreKnown few-ParentsAreOlder

abbrev moved : ThreadRefs
moved = (1, record { block_thread_identifier = 1; block_identifier = 4; block_seq_no = 4 }) ∷ []

abbrev moved_blocks : List CrossThreadRefData
moved_blocks = block 3 ∷ (block 4 ∷ [])

moves : move_refs few 9 4 cutoff (4 ∷ []) ≡ ok (moved, moved_blocks)
unfolding move_refs get insert list_threads keep_tail at_cutoff
moves = refl

move_refs-HasTail_example :
    All (HasTail moved) (map as_reference_state_data moved_blocks)
    × ((t : ThreadIdentifier) (e : ReferencedBlock)
        → get t moved ≡ some e
        → IsAmong e (map as_reference_state_data moved_blocks) ⊎ (get t cutoff ≡ some e))
    × ((t : ThreadIdentifier) → is_some (get t cutoff) ≡ true → is_some (get t moved) ≡ true)
move_refs-HasTail_example = move_refs-HasTail few 9 4 cutoff moved (4 ∷ []) moved_blocks moves
