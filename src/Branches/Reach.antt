-- ===== src/Branches/Reach.antt =====
-- What the loop of node/src/node/block_state/tools/invalidate_branch.rs leaves when it ends.
use ackinacki.Branches.{
  state_of, mark, skip, InvalidateError, assert_fails, process, visit, BlockStateRepository,
}
use ackinacki.Types.{BlockIdentifier}
use ackinacki.Common.{
  contains-append, nat_eq, subst, ok, ==_cases, ◌⊎◌, contains, ◌++◌, Result, inr, inl, Bool-cases,
  ◌∙◌, ap, sym, refl, suc, zero, arith, ◌≡◌, ℕ, List, false, true, ◌∷◌, [],
}
use ackinacki.BlockState.{AckiNackiBlockState, is_set}
use ackinacki.Branches.Closure.{
  Descends-trans, Descends-back, Grows-refl, invalid-marked, Grows-trans, marked-Grows, Descends,
  children, marked, IsCovered, invalid, Grows, child, self,
}

-- The loop, from a queue: it keeps what `Grows` says, covers every child, invalidates the blocks of the
-- queue, and no block that does not descend from one of them.
pub record Reaches (to_process : List BlockIdentifier) (from to : BlockStateRepository)
    : Type 0 where
  pub grows : Grows from to
  pub covered : IsCovered [] to
  pub queued : (b : BlockIdentifier) → contains b to_process ≡ true → invalid to b ≡ true
  pub only :
      (b : BlockIdentifier)
      → invalid to b ≡ true
      → (invalid from b ≡ true)
        ⊎ ((r : BlockIdentifier) × (contains r to_process ≡ true) × Descends from r b)

abbrev pub result_of : BlockStateRepository → Result InvalidateError BlockStateRepository
result_of s = ok s

ok_same : (a b : BlockStateRepository) → result_of a ≡ result_of b → a ≡ b
ok_same a b h = ground arith

pub visit_cases :
    (s : AckiNackiBlockState)
    → ((visit s ≡ assert_fails) × (is_set s.finalized ≡ true))
      ⊎ ((visit s ≡ skip) × (is_set s.invalidated ≡ true))
      ⊎ ((visit s ≡ mark) × (is_set s.invalidated ≡ false))
unfolding visit
visit_cases s = elim (Bool-cases (is_set s.finalized)) [
  | inl e ↦ inl (rw e refl, e)
  | inr e ↦ elim (Bool-cases (is_set s.invalidated)) [
    | inl f ↦ inr (inl (rw (e, f) refl, f))
    | inr f ↦ inr (inr (rw (e, f) refl, f))
  ]
]

IsCovered-skip :
    (next : BlockIdentifier) (q : List BlockIdentifier) (s : BlockStateRepository)
    → invalid s next ≡ true
    → IsCovered (next ∷ q) s
    → IsCovered q s
IsCovered-skip next q s h covered b c is_invalid here = elim (==_cases next c) [
  | inl (same, e) ↦ rw (ap (invalid s) (sym same) ∙ h) refl
  | inr (other, e) ↦ ground (arith, covered b c is_invalid here)
]

IsCovered-mark :
    (next : BlockIdentifier) (q : List BlockIdentifier) (s : BlockStateRepository)
    → IsCovered (next ∷ q) s
    → IsCovered (q ++ children s next) (marked s next)
IsCovered-mark next q s covered b c is_invalid here =
    let kept : contains c (children s b) ≡ true =
      ap (contains c) (sym ((marked-Grows s next).same_children b)) ∙ here in
    elim (==_cases next b) [
      | inl (same, e) ↦
          let waits : contains c (children s next) ≡ true = rw same kept in
          ground (arith, contains-append c q (children s next))
      | inr (other, e) ↦
          let was : invalid s b ≡ true = ground (arith, invalid-marked s next b) in
          ground (
            arith,
            covered b c was kept,
            invalid-marked s next c,
            contains-append c q (children s next),
          )
    ]

Reaches-skip :
    (next : BlockIdentifier) (q : List BlockIdentifier) (s t : BlockStateRepository)
    → invalid s next ≡ true
    → Reaches q s t
    → Reaches (next ∷ q) s t
Reaches-skip next q s t h r = record {
  grows = r.grows;
  covered = r.covered;
  queued = λ b here. elim (==_cases next b) [
    | inl (same, e) ↦ r.grows.stays b (ap (invalid s) (sym same) ∙ h)
    | inr (other, e) ↦ r.queued b (ground (arith, here))
  ];
  only = λ b is_invalid. elim (r.only b is_invalid) [
    | inl was ↦ inl was
    | inr (root, here, descends) ↦ inr (root, ground (arith, here), descends)
  ];
}

Reaches-mark :
    (next : BlockIdentifier) (q : List BlockIdentifier) (s t : BlockStateRepository)
    → Reaches (q ++ children s next) (marked s next) t
    → Reaches (next ∷ q) s t
Reaches-mark next q s t r = record {
  grows = Grows-trans s (marked s next) t (marked-Grows s next) r.grows;
  covered = r.covered;
  queued = λ b here. elim (==_cases next b) [
    | inl (same, e) ↦ r.grows.stays b (ground (arith, invalid-marked s next b))
    | inr (other, e) ↦ r.queued b (ground (arith, contains-append b q (children s next)))
  ];
  only = λ b is_invalid. elim (r.only b is_invalid) [
    | inl was ↦ elim (==_cases next b) [
      | inl (same, e) ↦ inr (next, ground arith, subst (Descends s next) same self)
      | inr (other, e) ↦ inl (ground (arith, invalid-marked s next b))
    ]
    | inr (root, here, descends) ↦
        let from = Descends-back s (marked s next) root b (marked-Grows s next) descends in
        elim (Bool-cases (contains root q)) [
          | inl e ↦ inr (root, ground (arith, e), from)
          | inr e ↦ inr (
            next,
            ground arith,
            Descends-trans s next root b
                (child next root self (ground (arith, e, contains-append root q (children s next))))
                from,
          )
        ]
  ];
}

pub process-Reaches :
    (rounds : ℕ) (q : List BlockIdentifier) (s t : BlockStateRepository)
    → process rounds q s ≡ ok t
    → IsCovered q s
    → Reaches q s t
unfolding process marked
process-Reaches rounds [] s t h covered = subst (Reaches [] s) (ok_same s t h) (record {
  grows = Grows-refl s;
  covered = covered;
  queued = λ b here. absurd (ground (arith, here));
  only = λ b is_invalid. inl is_invalid;
})
process-Reaches zero (next ∷ q) s t h covered = cc
process-Reaches (suc rounds) (next ∷ q) s t h covered = elim (visit_cases (state_of s next)) [
  | inl (e, final) ↦ cc (rw (e, process) at h)
  | inr (inl (e, is_invalid)) ↦ Reaches-skip next q s t is_invalid (
      process-Reaches rounds q s t (rw (e, process) at h)
        (IsCovered-skip next q s is_invalid covered))
  | inr (inr (e, valid)) ↦ Reaches-mark next q s t (
      process-Reaches rounds (q ++ children s next) (marked s next) t (rw (e, process) at h)
        (IsCovered-mark next q s covered))
]
