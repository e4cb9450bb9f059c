-- ===== src/Finalization/Kept.antt =====
use ackinacki.Common.Assoc.{insert}
use ackinacki.Finalization.{mark_finalized, mark_children}
use ackinacki.Types.{BlockIdentifier}
use ackinacki.Branches.{state_of, BlockStateRepository}
use ackinacki.Common.{
  nat_eq, ◌||◌, if◌then◌else◌, ==_cases, ◌==◌, inr, inl, Bool-cases, ◌∙◌, ap, sym, refl, ◌≡◌, List,
  none, ◌∷◌, [],
}
use ackinacki.Branches.Closure.{state_of-insert, final}
use ackinacki.BlockState.{
  AckiNackiBlockState, is_set, set_finalized, set_has_parent_finalized, notify_changed,
}

-- What the finalization of a block in node/src/node/services/finalization/mod.rs keeps of the states of
-- all blocks.

-- All of a state but what finalization sets.
abbrev pub core : AckiNackiBlockState → AckiNackiBlockState
core s = record s { finalized = none; has_parent_finalized = none; object_state_version = 0 }

abbrev pub IsKept : BlockStateRepository → BlockStateRepository → Type 0
IsKept from to = (b : BlockIdentifier) → core (state_of to b) ≡ core (state_of from b)

pub IsKept-trans : (a b c : BlockStateRepository) → IsKept a b → IsKept b c → IsKept a c
IsKept-trans a b c first rest = λ x. rest x ∙ first x

pub insert-IsKept :
    (b : BlockIdentifier) (s : AckiNackiBlockState) (states : BlockStateRepository)
    → core s ≡ core (state_of states b)
    → IsKept states (insert b s states)
insert-IsKept b s states h = λ c. elim (==_cases b c) [
  | inl (same, e) ↦
      rw (state_of-insert b c s states, e) (h ∙ ap (λ x. core (state_of states x)) same)
  | inr (other, e) ↦ rw (state_of-insert b c s states, e) refl
]

core-set_has_parent_finalized :
    (s : AckiNackiBlockState) → core (set_has_parent_finalized s) ≡ core s
unfolding set_has_parent_finalized notify_changed
core-set_has_parent_finalized s = elim (Bool-cases (is_set s.has_parent_finalized)) [
  | inl e ↦ rw e refl
  | inr e ↦ rw e refl
]

final_set_has_parent_finalized :
    (s : AckiNackiBlockState) → is_set (set_has_parent_finalized s).finalized ≡ is_set s.finalized
unfolding set_has_parent_finalized notify_changed
final_set_has_parent_finalized s = elim (Bool-cases (is_set s.has_parent_finalized)) [
  | inl e ↦ rw e refl
  | inr e ↦ rw e refl
]

final-insert :
    (b c : BlockIdentifier) (s : AckiNackiBlockState) (states : BlockStateRepository)
    → final (insert b s states) c ≡ (if b == c then is_set s.finalized else final states c)
final-insert b c s states = elim (Bool-cases (b == c)) [
  | inl e ↦ rw (e, state_of-insert b c s states, e) refl
  | inr e ↦ rw (e, state_of-insert b c s states, e) refl
]

pub mark_children-IsKept :
    (cs : List BlockIdentifier) (states : BlockStateRepository)
    → IsKept states (mark_children cs states)
unfolding mark_children
mark_children-IsKept [] states = λ b. refl
mark_children-IsKept (c ∷ cs) states =
    let next = insert c (set_has_parent_finalized (state_of states c)) states in
    IsKept-trans states next (mark_children cs next)
      (insert-IsKept c (set_has_parent_finalized (state_of states c)) states
        (core-set_has_parent_finalized (state_of states c)))
      (mark_children-IsKept cs next)

pub final-mark_children :
    (cs : List BlockIdentifier) (states : BlockStateRepository) (b : BlockIdentifier)
    → final (mark_children cs states) b ≡ final states b
unfolding mark_children
final-mark_children [] states b = refl
final-mark_children (c ∷ cs) states b =
    let s = set_has_parent_finalized (state_of states c) in
    final-mark_children cs (insert c s states) b ∙ final-insert c b s states ∙ elim (==_cases c b) [
      | inl (same, e) ↦
          rw e (final_set_has_parent_finalized (state_of states c) ∙ ap (final states) same)
      | inr (other, e) ↦ rw e refl
    ]

core_final : (s : AckiNackiBlockState) → core (set_finalized s) ≡ core s
unfolding set_finalized notify_changed
core_final s = refl

pub mark_finalized-IsKept :
    (b : BlockIdentifier) (states : BlockStateRepository) → IsKept states (mark_finalized b states)
unfolding mark_finalized
mark_finalized-IsKept b states = elim (Bool-cases (final states b)) [
  | inl e ↦ rw e (λ c. refl)
  | inr e ↦
      rw e (
        insert-IsKept b (set_finalized (state_of states b)) states (core_final (state_of states b)))
]

pub final-mark_finalized :
    (b c : BlockIdentifier) (states : BlockStateRepository)
    → final (mark_finalized b states) c ≡ (b == c || final states c)
unfolding mark_finalized set_finalized notify_changed
final-mark_finalized b c states = elim (Bool-cases (final states b)) [
  | inl e ↦ elim (==_cases b c) [
    | inl (same, f) ↦ rw (e, f) (ap (final states) (sym same) ∙ e)
    | inr (other, f) ↦ rw (e, f) refl
  ]
  | inr e ↦ elim (Bool-cases (b == c)) [
    | inl f ↦ rw (e, f) (final-insert b c (set_finalized (state_of states b)) states ∙ rw f refl)
    | inr f ↦ rw (e, f) (final-insert b c (set_finalized (state_of states b)) states ∙ rw f refl)
  ]
]
