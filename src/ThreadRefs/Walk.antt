-- ===== src/ThreadRefs/Walk.antt =====
use ackinacki.Common.Assoc.{get}
use ackinacki.ThreadRefs.{
  ReferencedBlock, unreadable, WalkError, walk_back_into_history, out_of_rounds, mismatch, go_on,
  stop, walk, AtCutoff, at_cutoff, ThreadRefs, CrossThreadRefData,
}
use ackinacki.Types.{BlockIdentifier}
use mathlib.Core.List.{append_assoc, append-nil}
use ackinacki.Common.{
  nat_eq, none, Result, sym, subst, ◌∙◌, ok, refl, ◌++◌, Option-cases, inr, inl, err, ◌⊎◌, ◌≢◌, ◌<◌,
  suc, zero, arith, ◌≡◌, ℕ, Option, List, some, ◌∷◌, [],
}

-- The walk back of node/src/multithreading/cross_thread_messaging/thread_references_state.rs.

abbrev result_of : List CrossThreadRefData → Result WalkError (List CrossThreadRefData)
result_of l = ok l

ok_same : (a b : List CrossThreadRefData) → result_of a ≡ result_of b → b ≡ a
ok_same a b h = ground arith

module _ (read : BlockIdentifier → Option CrossThreadRefData) (cutoff : ThreadRefs) where
  -- Of the blocks that can be read, a parent has a smaller number than its child.
  abbrev pub ParentsAreOlder : Type 0
  ParentsAreOlder =
      (id : BlockIdentifier) (child parent : CrossThreadRefData)
      → read id ≡ some child
      → read child.parent_block_identifier ≡ some parent
      → parent.block_seq_no < child.block_seq_no

  -- The cutoff has no block of the thread, or one of a smaller number.
  abbrev pub IsPast : CrossThreadRefData → Type 0
  IsPast b =
      (get b.block_thread_identifier cutoff ≡ none)
      ⊎ ((last : ReferencedBlock) × (get b.block_thread_identifier cutoff ≡ some last)
          × (last.block_seq_no < b.block_seq_no))

  -- The cutoff has a block of the thread that has a larger number, or is this block.
  abbrev pub IsReached : CrossThreadRefData → Type 0
  IsReached b =
      (last : ReferencedBlock) × (get b.block_thread_identifier cutoff ≡ some last)
      × ((b.block_seq_no < last.block_seq_no)
          ⊎ ((b.block_seq_no ≡ last.block_seq_no) × (b.block_identifier ≡ last.block_identifier)))

  -- Each block is past the cutoff, and leads to its parent, which is the next one; the parent of the last
  -- has reached the cutoff.
  abbrev pub IsTrail : CrossThreadRefData → List CrossThreadRefData → Type 0
  IsTrail cursor [] = IsReached cursor
  IsTrail cursor (b ∷ bs) =
      (cursor ≡ b)
      × IsPast b
      × (parent : CrossThreadRefData) × (read b.parent_block_identifier ≡ some parent)
      × IsTrail parent bs

  at_cutoff-IsReached : (b : CrossThreadRefData) → at_cutoff cutoff b ≡ stop → IsReached b
  unfolding at_cutoff
  at_cutoff-IsReached b h = elim (Option-cases (get b.block_thread_identifier cutoff)) [
    | inl e ↦ cc (rw (e, at_cutoff) at h)
    | inr (last, e) ↦ (last, e, ground (arith, rw (e, at_cutoff) at h))
  ]

  at_cutoff-IsPast : (b : CrossThreadRefData) → at_cutoff cutoff b ≡ go_on → IsPast b
  unfolding at_cutoff
  at_cutoff-IsPast b h = elim (Option-cases (get b.block_thread_identifier cutoff)) [
    | inl e ↦ inl e
    | inr (last, e) ↦ inr (last, e, ground (arith, rw (e, at_cutoff) at h))
  ]

  pub at_cutoff-go_on : (b : CrossThreadRefData) → IsPast b → at_cutoff cutoff b ≡ go_on
  unfolding at_cutoff
  at_cutoff-go_on b (inl e) = rw (e, at_cutoff) refl
  at_cutoff-go_on b (inr (last, e, lt)) = rw (e, at_cutoff) (ground arith)

  AtCutoff-cases : (a : AtCutoff) → (a ≡ stop) ⊎ (a ≡ mismatch) ⊎ (a ≡ go_on)
  AtCutoff-cases stop = inl refl
  AtCutoff-cases mismatch = inr (inl refl)
  AtCutoff-cases go_on = inr (inr refl)

  walk-ends :
      (rounds : ℕ) (id : BlockIdentifier) (cursor : CrossThreadRefData)
      (trail : List CrossThreadRefData)
      → ParentsAreOlder
      → read id ≡ some cursor
      → cursor.block_seq_no < rounds
      → walk read cutoff rounds cursor trail ≢ err out_of_rounds
  unfolding walk
  walk-ends zero id cursor trail older at lt h = absurd (omega arith)
  walk-ends (suc rounds) id cursor trail older at lt h =
      elim (AtCutoff-cases (at_cutoff cutoff cursor)) [
        | inl e ↦ cc (rw (e, walk) at h)
        | inr (inl e) ↦ cc (rw (e, walk) at h)
        | inr (inr e) ↦ elim (Option-cases (read cursor.parent_block_identifier)) [
          | inl f ↦ cc (rw (e, f, walk) at h)
          | inr (parent, f) ↦
              walk-ends rounds cursor.parent_block_identifier parent (trail ++ (cursor ∷ [])) older
                f (omega (arith, older id cursor parent at f)) (rw (e, f, walk) at h)
        ]
      ]

  walk-IsTrail :
      (rounds : ℕ) (cursor : CrossThreadRefData) (trail r : List CrossThreadRefData)
      → walk read cutoff rounds cursor trail ≡ ok r
      → (t : List CrossThreadRefData) × (r ≡ trail ++ t) × IsTrail cursor t
  unfolding walk
  walk-IsTrail zero cursor trail r h = cc
  walk-IsTrail (suc rounds) cursor trail r h = elim (AtCutoff-cases (at_cutoff cutoff cursor)) [
    | inl e ↦ (
      [],
      ok_same trail r (rw (e, walk) at h) ∙ sym (append-nil trail),
      at_cutoff-IsReached cursor e,
    )
    | inr (inl e) ↦ cc (rw (e, walk) at h)
    | inr (inr e) ↦ elim (Option-cases (read cursor.parent_block_identifier)) [
      | inl f ↦ cc (rw (e, f, walk) at h)
      | inr (parent, f) ↦
          let (t, same, is_trail) =
            walk-IsTrail rounds parent (trail ++ (cursor ∷ [])) r (rw (e, f, walk) at h) in
          (
            cursor ∷ t,
            same ∙ append_assoc trail (cursor ∷ []) t,
            (refl, at_cutoff-IsPast cursor e, parent, f, is_trail),
          )
    ]
  ]

  -- Where parents have smaller numbers than their children, a walk with more rounds than the number of
  -- its first block does not run out of them, so the loop of the code ends. A walk that succeeds
  -- returns the blocks from the first one back along the parents, each of them in a thread without a
  -- cutoff or above the number there, up to a block that is below the number of its thread's cutoff, or
  -- at it and the very block there.
  pub walk_back_into_history-IsTrail :
      (rounds : ℕ) (start : BlockIdentifier) (cursor : CrossThreadRefData)
      → ParentsAreOlder
      → read start ≡ some cursor
      → cursor.block_seq_no < rounds
      → (walk_back_into_history read cutoff rounds start ≢ err out_of_rounds)
        × ((trail : List CrossThreadRefData)
            → walk_back_into_history read cutoff rounds start ≡ ok trail
            → IsTrail cursor trail)
  unfolding walk_back_into_history
  walk_back_into_history-IsTrail rounds start cursor older first enough = (
    λ h.
        walk-ends rounds start cursor [] older first enough
          (rw (first, walk_back_into_history) at h),
    λ trail h.
        let (t, same, is_trail) =
          walk-IsTrail rounds cursor [] trail (rw (first, walk_back_into_history) at h) in
        subst (IsTrail cursor) (sym same) is_trail,
  )

  pub walk_unread :
      (rounds : ℕ) (start : BlockIdentifier)
      → read start ≡ none
      → walk_back_into_history read cutoff rounds start ≡ err unreadable
  unfolding walk_back_into_history
  walk_unread rounds start e = rw (e, walk_back_into_history) refl
