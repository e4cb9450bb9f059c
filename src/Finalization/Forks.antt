-- ===== src/Finalization/Forks.antt =====
use ackinacki.Branches.Rounds.{invalidate_branch-Grows}
use ackinacki.Finalization.Kept.{IsKept}
use ackinacki.Branches.Closure.{Grows-trans, final, Grows-refl, children, Grows, invalid, IsCovered}
use ackinacki.Finalization.Trying.{invalidate_forks}
use ackinacki.Branches.{all_children, state_of, BlockStateRepository, invalidate_branch}
use ackinacki.Types.{BlockSeqNo, BlockIdentifier}
use ackinacki.Common.{
  nat_eq, Result-cases, ◌||◌, leb, ◌<◌, subst, contains, inr, inl, Bool-cases, Option-cases, ◌∙◌,
  ap, sym, refl, arith, ◌≡◌, ℕ, List, false, true, some, ◌∷◌, [],
}
use mathlib.Core.Option.{some-injective}
use ackinacki.BlockState.{is_set}

-- What the loop of try_finalize over the queue, in node/src/node/services/finalization/mod.rs, does to
-- the states of the blocks.
pub IsKept-IsCovered : (s t : BlockStateRepository) → IsKept s t → IsCovered [] s → IsCovered [] t
IsKept-IsCovered s t kept covered = λ b c is_invalid here.
    let was : invalid s b ≡ true = ap (λ x. is_set x.invalidated) (sym (kept b)) ∙ is_invalid in
    let held : contains c (children s b) ≡ true =
      ap (λ x. contains c (all_children x.known_children)) (sym (kept b)) ∙ here in
    ap (λ x. is_set x.invalidated || false) (kept c) ∙ covered b c was held

pub invalidate_forks-Grows :
    (rounds : ℕ) (tried : BlockIdentifier) (max : BlockSeqNo) (queue : List BlockIdentifier)
    (s t : BlockStateRepository)
    → IsCovered [] s
    → invalidate_forks rounds tried max queue s ≡ some t
    → Grows s t × IsCovered [] t
unfolding invalidate_forks
invalidate_forks-Grows rounds tried max [] s t covered h =
    subst (λ x. Grows s x × IsCovered [] x) (some-injective s t h) (Grows-refl s, covered)
invalidate_forks-Grows rounds tried max (b ∷ queue) s t covered h = elim (Bool-cases (final s b)) [
  | inl e ↦
      invalidate_forks-Grows rounds tried max queue s t covered (rw (e, invalidate_forks) at h)
  | inr e ↦ elim (Option-cases (state_of s tried).block_seq_no) [
    | inl f ↦
        invalidate_forks-Grows rounds tried max queue s t covered (rw (e, f, invalidate_forks) at h)
    | inr (n, f) ↦ elim (Bool-cases (leb n max)) [
      | inl g ↦ elim (Result-cases (invalidate_branch rounds b s)) [
        | inl (error, r) ↦ cc (rw (e, f, g, r, invalidate_forks) at h)
        | inr (next, r) ↦
            let (grows, still) = invalidate_branch-Grows rounds b s next covered r in
            let (rest, end) =
              invalidate_forks-Grows rounds tried max queue next t still
                (rw (e, f, g, r, invalidate_forks) at h) in
            (Grows-trans s next t grows rest, end)
      ]
      | inr g ↦
          subst (λ x. Grows s x × IsCovered [] x)
            (some-injective s t (rw (e, f, g, invalidate_forks) at h)) (Grows-refl s, covered)
    ]
  ]
]

pub invalidate_forks_idle :
    (rounds : ℕ) (tried : BlockIdentifier) (max : BlockSeqNo) (queue : List BlockIdentifier)
    (s : BlockStateRepository)
    → ((n : BlockSeqNo) → (state_of s tried).block_seq_no ≡ some n → max < n)
    → invalidate_forks rounds tried max queue s ≡ some s
unfolding invalidate_forks
invalidate_forks_idle rounds tried max [] s above = refl
invalidate_forks_idle rounds tried max (b ∷ queue) s above = elim (Bool-cases (final s b)) [
  | inl e ↦ rw (e, invalidate_forks) (invalidate_forks_idle rounds tried max queue s above)
  | inr e ↦ elim (Option-cases (state_of s tried).block_seq_no) [
    | inl f ↦ rw (e, f, invalidate_forks) (invalidate_forks_idle rounds tried max queue s above)
    | inr (n, f) ↦
        let g : leb n max ≡ false = ground (arith, above n f) in rw (e, f, g, invalidate_forks) refl
  ]
]
