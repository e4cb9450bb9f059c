-- ===== src/Branches/Closure.antt =====
use ackinacki.Common.Assoc.{get-insert, insert}
use ackinacki.Types.{BlockIdentifier}
use ackinacki.BlockState.{
  AckiNackiBlockState, set_invalidated, notify_changed, is_set, AckiNackiBlockState,
  set_invalidated,
}
use ackinacki.Branches.{all_children, state_of, BlockStateRepository}
use ackinacki.Common.{
  ==_cases, nat_eq, ◌==◌, ◌||◌, if◌then◌else◌, contains, inr, inl, Bool-cases, ◌∙◌, ap, sym, refl,
  ◌≡◌, List, Bool, true,
}

-- Which blocks invalidate_branch of node/src/node/block_state/tools/invalidate_branch.rs reaches.
abbrev pub children : BlockStateRepository → BlockIdentifier → List BlockIdentifier
children states b = all_children (state_of states b).known_children

abbrev pub invalid : BlockStateRepository → BlockIdentifier → Bool
invalid states b = is_set (state_of states b).invalidated

abbrev pub final : BlockStateRepository → BlockIdentifier → Bool
final states b = is_set (state_of states b).finalized

-- The block is the root, or a child of a block that descends from it.
pub data Descends (states : BlockStateRepository) (root : BlockIdentifier)
    : BlockIdentifier → Type 0 where
  self : Descends states root root
  child :
      (b c : BlockIdentifier)
      → Descends states root b
      → contains c (children states b) ≡ true
      → Descends states root c

pub Descends-trans :
    (states : BlockStateRepository) (a b c : BlockIdentifier)
    → Descends states a b
    → Descends states b c
    → Descends states a c
Descends-trans states a b _ first self = first
Descends-trans states a b _ first (child d c rest here) =
    child d c (Descends-trans states a b d first rest) here

-- What every call leaves as it is.
pub record Grows (from to : BlockStateRepository) : Type 0 where
  pub same_children : (b : BlockIdentifier) → children to b ≡ children from b
  pub same_final : (b : BlockIdentifier) → final to b ≡ final from b
  pub stays : (b : BlockIdentifier) → invalid from b ≡ true → invalid to b ≡ true

pub Grows-refl : (s : BlockStateRepository) → Grows s s
Grows-refl s = record { same_children = λ b. refl; same_final = λ b. refl; stays = λ b h. h }

pub Grows-trans : (a b c : BlockStateRepository) → Grows a b → Grows b c → Grows a c
Grows-trans a b c first rest = record {
  same_children = λ x. rest.same_children x ∙ first.same_children x;
  same_final = λ x. rest.same_final x ∙ first.same_final x;
  stays = λ x h. rest.stays x (first.stays x h);
}

pub Descends-back :
    (from to : BlockStateRepository) (a b : BlockIdentifier)
    → Grows from to
    → Descends to a b
    → Descends from a b
Descends-back from to a _ grows self = self
Descends-back from to a _ grows (child c b rest here) =
    child c b (Descends-back from to a c grows rest)
      (ap (contains b) (sym (grows.same_children c)) ∙ here)

-- The children of an invalidated block are invalidated, or wait to be.
abbrev pub IsCovered : List BlockIdentifier → BlockStateRepository → Type 0
IsCovered to_process states =
    (b c : BlockIdentifier)
    → invalid states b ≡ true
    → contains c (children states b) ≡ true
    → (invalid states c || contains c to_process) ≡ true

pub state_of-insert :
    (b c : BlockIdentifier) (s : AckiNackiBlockState) (states : BlockStateRepository)
    → state_of (insert b s states) c ≡ (if b == c then s else state_of states c)
unfolding state_of
state_of-insert b c s states = elim (Bool-cases (b == c)) [
  | inl e ↦ rw (e, get-insert b c s states, e) refl
  | inr e ↦ rw (e, get-insert b c s states, e) refl
]

-- The repository once a block is marked.
unfoldable pub marked : BlockStateRepository → BlockIdentifier → BlockStateRepository
marked states b = insert b (set_invalidated (state_of states b)) states

state_of-marked :
    (states : BlockStateRepository) (b c : BlockIdentifier)
    → state_of (marked states b) c
      ≡ (if b == c then set_invalidated (state_of states b) else state_of states c)
unfolding marked
state_of-marked states b c = state_of-insert b c (set_invalidated (state_of states b)) states

pub marked-Grows :
    (states : BlockStateRepository) (b : BlockIdentifier) → Grows states (marked states b)
unfolding set_invalidated notify_changed
marked-Grows states b = record {
  same_children = λ c. elim (==_cases b c) [
    | inl (same, e) ↦ rw (state_of-marked states b c, e, same) refl
    | inr (other, e) ↦ rw (state_of-marked states b c, e) refl
  ];
  same_final = λ c. elim (==_cases b c) [
    | inl (same, e) ↦ rw (state_of-marked states b c, e, same) refl
    | inr (other, e) ↦ rw (state_of-marked states b c, e) refl
  ];
  stays = λ c h. elim (==_cases b c) [
    | inl (same, e) ↦ rw (state_of-marked states b c, e) refl
    | inr (other, e) ↦ rw (state_of-marked states b c, e) h
  ];
}

pub invalid-marked :
    (states : BlockStateRepository) (b c : BlockIdentifier)
    → invalid (marked states b) c ≡ (b == c || invalid states c)
unfolding set_invalidated notify_changed
invalid-marked states b c = elim (==_cases b c) [
  | inl (same, e) ↦ rw (state_of-marked states b c, e) refl
  | inr (other, e) ↦ rw (state_of-marked states b c, e) refl
]
