-- ===== src/Finalization/Sorted.antt =====
use ackinacki.Branches.{BlockStateRepository, state_of}
use ackinacki.Finalization.Trying.{sort_by_seq_no, insert_by_seq_no, place}
use ackinacki.Types.{BlockSeqNo, BlockIdentifier}
use ackinacki.Common.{
  leb, contains, nat_eq, ◌||◌, ◌==◌, inr, inl, Bool-cases, Option-cases, ◌∙◌, ap, sym, arith, ◌≡◌,
  Option, List, some, none, ◌∷◌, [],
}
use mathlib.Core.Option.{some-injective}

-- The order in which node/src/node/services/finalization/mod.rs visits the blocks.
contains-place :
    (x b c : BlockIdentifier) (cs sorted : List BlockIdentifier)
    (rest : Option (List BlockIdentifier)) (n m : Option BlockSeqNo)
    → ((l : List BlockIdentifier) → rest ≡ some l → contains x l ≡ (b == x || contains x cs))
    → place b c cs rest n m ≡ some sorted
    → contains x sorted ≡ (b == x || contains x (c ∷ cs))
unfolding place
contains-place x b c cs sorted rest none m held h = cc
contains-place x b c cs sorted rest (some n) none held h = cc
contains-place x b c cs sorted rest (some n) (some m) held h = elim (Bool-cases (leb n m)) [
  | inl e ↦ ap (contains x) (sym (some-injective (b ∷ (c ∷ cs)) sorted (rw (e, place) at h)))
  | inr e ↦ elim (Option-cases rest) [
    | inl f ↦ cc (rw (e, f, place) at h)
    | inr (l, f) ↦
        ap (contains x) (sym (some-injective (c ∷ l) sorted (rw (e, f, place) at h)))
        ∙ ground (arith, held l f)
  ]
]

contains-insert_by_seq_no :
    (states : BlockStateRepository) (x b : BlockIdentifier) (cs sorted : List BlockIdentifier)
    → insert_by_seq_no states b cs ≡ some sorted
    → contains x sorted ≡ (b == x || contains x cs)
unfolding insert_by_seq_no
contains-insert_by_seq_no states x b [] sorted h =
    ap (contains x) (sym (some-injective (b ∷ []) sorted h))
contains-insert_by_seq_no states x b (c ∷ cs) sorted h =
    contains-place x b c cs sorted (insert_by_seq_no states b cs) (state_of states b).block_seq_no
      (state_of states c).block_seq_no (λ l e. contains-insert_by_seq_no states x b cs l e) h

pub contains-sort_by_seq_no :
    (states : BlockStateRepository) (x : BlockIdentifier) (bs sorted : List BlockIdentifier)
    → sort_by_seq_no states bs ≡ some sorted
    → contains x sorted ≡ contains x bs
unfolding sort_by_seq_no
contains-sort_by_seq_no states x [] sorted h = ap (contains x) (sym (some-injective [] sorted h))
contains-sort_by_seq_no states x (b ∷ bs) sorted h =
    elim (Option-cases (sort_by_seq_no states bs)) [
      | inl e ↦ cc (rw (e, sort_by_seq_no) at h)
      | inr (l, e) ↦
          contains-insert_by_seq_no states x b l sorted (rw (e, sort_by_seq_no) at h)
          ∙ ap (λ y. b == x || y) (contains-sort_by_seq_no states x bs l e)
    ]
