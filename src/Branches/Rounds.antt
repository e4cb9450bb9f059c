-- ===== src/Branches/Rounds.antt =====
-- The rounds of the loop of node/src/node/block_state/tools/invalidate_branch.rs, and what the whole call
-- does.
use ackinacki.BlockState.Changes.{cannot_be_finalized}
use ackinacki.Branches.Reach.{process-Reaches, visit_cases}
use ackinacki.Types.{BlockIdentifier}
use ackinacki.Common.Assoc.{get, insert}
use ackinacki.Branches.{
  invalidate_branch, InvalidateError, process, is_finalized, out_of_rounds, state_of, all_children,
  BlockStateRepository,
}
use ackinacki.Common.{
  subst, Result-cases, contains-append, ok, length-append, ◌<◌, ◌≢◌, ◌⊎◌, err, ◌≤◌, ◌++◌, contains,
  nat_eq, ==_cases, ◌+◌, length, if◌then◌else◌, inr, inl, Bool-cases, ◌∙◌, ap, sym, refl, suc, zero,
  arith, ◌≡◌, ℕ, List, false, true, ◌∷◌, [],
}
use ackinacki.BlockState.{
  can_be_finalized, set_invalidated, notify_changed, AckiNackiBlockState, is_set, new,
}
use ackinacki.Branches.Closure.{
  Descends-trans, marked-Grows, Descends-back, final, IsCovered, children, Descends, invalid, Grows,
  marked, child, self,
}

-- The children that a block has yet to put into the queue.
abbrev weight : AckiNackiBlockState → ℕ
weight s = if is_set s.invalidated then 0 else length (all_children s.known_children)

unfoldable pub pending : BlockStateRepository → ℕ
pending [] = 0
pending ((b, s) ∷ states) = weight s + pending states

weight-new : (b : BlockIdentifier) → weight (new b) ≡ 0
unfolding new all_children
weight-new b = refl

pending-insert :
    (b : BlockIdentifier) (next : AckiNackiBlockState) (states : BlockStateRepository)
    → pending (insert b next states) + weight (state_of states b) ≡ pending states + weight next
unfolding pending insert get state_of
pending-insert b next [] = ground (arith, weight-new b)
pending-insert b next ((c, s) ∷ states) = elim (==_cases c b) [
  | inl (same, e) ↦ rw e (ground arith)
  | inr (other, e) ↦ rw e (ground (arith, pending-insert b next states))
]

-- The rounds that are left after a mark, together with the blocks of the queue.
pending-marked :
    (next : BlockIdentifier) (states : BlockStateRepository)
    → invalid states next ≡ false
    → pending (marked states next) + length (children states next) ≡ pending states
unfolding marked set_invalidated notify_changed
pending-marked next states valid =
    let own : weight (state_of states next) ≡ length (children states next) = rw valid refl in
    ground (arith, own, pending-insert next (set_invalidated (state_of states next)) states)

process-ends :
    (rounds : ℕ) (q : List BlockIdentifier) (s : BlockStateRepository)
    → length q + pending s ≤ rounds
    → process rounds q s ≢ err out_of_rounds
unfolding process marked
process-ends rounds [] s enough h = cc
process-ends zero (next ∷ q) s enough h = absurd (omega (arith, enough))
process-ends (suc rounds) (next ∷ q) s enough h = elim (visit_cases (state_of s next)) [
  | inl (e, final) ↦ cc (rw (e, process) at h)
  | inr (inl (e, is_invalid)) ↦
      process-ends rounds q s (omega (arith, enough)) (rw (e, process) at h)
  | inr (inr (e, valid)) ↦
      process-ends rounds (q ++ children s next) (marked s next)
        (omega (arith, enough, pending-marked next s valid, length-append q (children s next)))
        (rw (e, process) at h)
]

-- A block of the queue, or one that descends from it, is final.
abbrev HasFinal : List BlockIdentifier → BlockStateRepository → Type 0
HasFinal q s = (r b : BlockIdentifier) × (contains r q ≡ true) × Descends s r b × (final s b ≡ true)

HasFinal-mark :
    (next : BlockIdentifier) (q : List BlockIdentifier) (s : BlockStateRepository)
    → HasFinal (q ++ children s next) (marked s next)
    → HasFinal (next ∷ q) s
HasFinal-mark next q s (r, b, here, descends, is_final) =
    let from = Descends-back s (marked s next) r b (marked-Grows s next) descends in
    let was = sym ((marked-Grows s next).same_final b) ∙ is_final in
    elim (Bool-cases (contains r q)) [
      | inl e ↦ (r, b, ground (arith, e), from, was)
      | inr e ↦ (
        next,
        b,
        ground arith,
        Descends-trans s next r b
            (child next r self (ground (arith, e, contains-append r q (children s next)))) from,
        was,
      )
    ]

process-HasFinal :
    (rounds : ℕ) (q : List BlockIdentifier) (s : BlockStateRepository)
    → process rounds q s ≡ err is_finalized
    → HasFinal q s
unfolding process marked
process-HasFinal rounds [] s h = cc
process-HasFinal zero (next ∷ q) s h = cc
process-HasFinal (suc rounds) (next ∷ q) s h = elim (visit_cases (state_of s next)) [
  | inl (e, is_final) ↦ (next, next, ground arith, self, is_final)
  | inr (inl (e, is_invalid)) ↦
      let (r, b, here, descends, is_final) = process-HasFinal rounds q s (rw (e, process) at h) in
      (r, b, ground (arith, here), descends, is_final)
  | inr (inr (e, valid)) ↦
      HasFinal-mark next q s
        (process-HasFinal rounds (q ++ children s next) (marked s next) (rw (e, process) at h))
]

-- Where every child of an invalidated block is invalidated, so is whatever descends from it.
descendants_invalid :
    (from to : BlockStateRepository) (root b : BlockIdentifier)
    → Grows from to
    → IsCovered [] to
    → invalid to root ≡ true
    → Descends from root b
    → invalid to b ≡ true
descendants_invalid from to root _ grows covered h self = h
descendants_invalid from to root _ grows covered h (child b c rest here) = ground (
  arith,
  covered b c (descendants_invalid from to root b grows covered h rest)
      (ap (contains c) (grows.same_children b) ∙ here),
)

InvalidateError-cases : (e : InvalidateError) → (e ≡ is_finalized) ⊎ (e ≡ out_of_rounds)
InvalidateError-cases is_finalized = inl refl
InvalidateError-cases out_of_rounds = inr refl

with_root : (b : BlockIdentifier) (s : BlockStateRepository) → IsCovered [] s → IsCovered (b ∷ []) s
with_root b s covered = λ x c is_invalid here. ground (arith, covered x c is_invalid here)

pub invalidate_branch-Grows :
    (rounds : ℕ) (b : BlockIdentifier) (s t : BlockStateRepository)
    → IsCovered [] s
    → invalidate_branch rounds b s ≡ ok t
    → Grows s t × IsCovered [] t
unfolding invalidate_branch
invalidate_branch-Grows rounds b s t covered h =
    let r = process-Reaches rounds (b ∷ []) s t h (with_root b s covered) in (r.grows, r.covered)

only_root : (root r : BlockIdentifier) → contains r (root ∷ []) ≡ true → r ≡ root
only_root root r here = ground (arith, here)

-- Where every child of an invalidated block is invalidated, invalidating a branch ends within as many
-- rounds as the children that valid blocks have, and one. Either it panics, and its root or a block that
-- descends from it is final. Or every block that descends from the root is invalidated and can not be
-- finalized any more, no other block has been invalidated, the children and the final blocks are those
-- from before, and again every child of an invalidated block is invalidated.
pub invalidate_branch-Descends :
    (rounds : ℕ) (root : BlockIdentifier) (s : BlockStateRepository)
    → IsCovered [] s
    → pending s < rounds
    → ((invalidate_branch rounds root s ≡ err is_finalized)
        × ((b : BlockIdentifier) × Descends s root b × (final s b ≡ true)))
      ⊎ ((t : BlockStateRepository) × (invalidate_branch rounds root s ≡ ok t)
          × Grows s t
          × IsCovered [] t
          × ((b : BlockIdentifier)
              → Descends s root b
              → (invalid t b ≡ true) × (can_be_finalized (state_of t b) ≡ false))
          × ((b : BlockIdentifier) → invalid t b ≡ true → (invalid s b ≡ true) ⊎ Descends s root b))
unfolding invalidate_branch
invalidate_branch-Descends rounds root s covered enough =
    elim (Result-cases (process rounds (root ∷ []) s)) [
      | inl (e, h) ↦ elim (InvalidateError-cases e) [
        | inl same ↦
            let failed = h ∙ ap err same in
            let (r, b, here, descends, is_final) = process-HasFinal rounds (root ∷ []) s failed in
            inl
              (failed, (b, subst (λ x. Descends s x b) (only_root root r here) descends, is_final))
        | inr same ↦
            absurd (process-ends rounds (root ∷ []) s (omega (arith, enough)) (h ∙ ap err same))
      ]
      | inr (t, h) ↦
          let r =
            process-Reaches rounds (root ∷ []) s t h
              (λ b c is_invalid here. ground (arith, covered b c is_invalid here)) in
          let invalids : (b : BlockIdentifier) → Descends s root b → invalid t b ≡ true =
            λ b descends.
              descendants_invalid s t root b r.grows r.covered (r.queued root (ground arith))
                descends in
          inr (
            t,
            h,
            r.grows,
            r.covered,
            λ b descends.
                (invalids b descends, cannot_be_finalized (state_of t b) (invalids b descends)),
            λ b is_invalid. elim (r.only b is_invalid) [
              | inl was ↦ inl was
              | inr (x, here, descends) ↦
                  inr (subst (λ y. Descends s y b) (only_root root x here) descends)
            ],
          )
    ]
