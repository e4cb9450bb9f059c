-- ===== src/Finalization/Safety.antt =====
use ackinacki.Finalization.Forks.{invalidate_forks_idle, invalidate_forks-Grows, IsKept-IsCovered}
use ackinacki.Finalization.Cases.{after_blocks_cases, try_finalize_cases}
use ackinacki.Finalization.Visits.{WasReady, IsKeyed}
use ackinacki.Branches.Closure.{final, Grows-refl, Grows, invalid, IsCovered}
use ackinacki.Finalization.{Node}
use ackinacki.Finalization.Trying.{try_finalize}
use ackinacki.Branches.{state_of}
use ackinacki.Types.{BlockSeqNo, BlockIdentifier}
use ackinacki.Common.{
  ◌⊎◌, map, nat_eq, ◌<◌, contains, inr, inl, ◌∙◌, ap, sym, refl, ◌≡◌, ℕ, Option, List, Bool, true,
  some, [],
}
use mathlib.Core.Option.{some-injective}
use ackinacki.BlockState.{is_set}

-- What try_finalize of node/src/node/services/finalization/mod.rs finalizes and invalidates.
module _ {Signature : Type 0} (is_saved : BlockIdentifier → Bool) (rounds : ℕ)
    (tried : BlockIdentifier) where
  -- Where the candidates are under their own identifiers and every child of an invalidated block is
  -- invalidated, a call that returns leaves the final blocks final and again every child of an invalidated
  -- block invalidated. A block that it makes final is one that the parent of the block it was called for
  -- finalizes, and a candidate, and it could be finalized from the start but for its own parent being
  -- final.
  pub try_finalize-WasReady :
      (node next : Node Signature) (border : Option ℕ)
      → IsKeyed node.unprocessed_blocks
      → IsCovered [] node.block_states
      → try_finalize is_saved rounds tried node ≡ some (next, border)
      → IsCovered [] next.block_states
        × ((b : BlockIdentifier)
            → final node.block_states b ≡ true
            → final next.block_states b ≡ true)
        × ((b : BlockIdentifier)
            → final next.block_states b ≡ true
            → (final node.block_states b ≡ true)
              ⊎ ((parent : BlockIdentifier) × (ids : List BlockIdentifier) × ((state_of
                      node.block_states tried).parent_block_identifier
                    ≡ some parent)
                  × ((state_of node.block_states parent).finalizes_blocks ≡ some ids)
                  × WasReady is_saved node ids b))
  try_finalize-WasReady node next border keyed covered h =
      elim (try_finalize_cases is_saved rounds tried node next border keyed h) [
        | inl same ↦ rw (sym same) (covered, (λ b was. was), (λ b is_final. inl is_final))
        | inr (parent, ids, p, e, g, track, after) ↦
            let still = IsKept-IsCovered node.block_states p.node.block_states track.kept covered in
            let (grows, end) : Grows p.node.block_states next.block_states
                × IsCovered [] next.block_states =
              elim (after_blocks_cases is_saved rounds tried p next border after) [
                | inl same ↦ rw (sym same) (Grows-refl p.node.block_states, still)
                | inr (seen, forks) ↦
                    invalidate_forks-Grows rounds tried p.max_finalized_seq_no
                      (map (λ entry. entry.0) p.node.unprocessed_blocks) p.node.block_states
                      next.block_states still forks
              ] in
            (
              end,
              (λ b was. grows.same_final b ∙ track.stays b was),
              (λ b is_final. elim (track.finals b (sym (grows.same_final b) ∙ is_final)) [
                | inl was ↦ inl was
                | inr was_ready ↦ inr (parent, ids, e, g, was_ready)
              ]),
            )
      ]

  -- Where the number of the block that the call is for is above those of the blocks that its parent
  -- finalizes, as it is in every chain, a call that returns invalidates no block, whatever it has
  -- finalized: the loop over the queue ends at its first block that is not final.
  pub try_finalize-invalidates_none :
      (node next : Node Signature) (border : Option ℕ) (parent : BlockIdentifier)
      (ids : List BlockIdentifier)
      → IsKeyed node.unprocessed_blocks
      → (state_of node.block_states tried).parent_block_identifier ≡ some parent
      → (state_of node.block_states parent).finalizes_blocks ≡ some ids
      → ((b : BlockIdentifier) (n m : BlockSeqNo)
          → (state_of node.block_states tried).block_seq_no ≡ some n
          → contains b ids ≡ true
          → (state_of node.block_states b).block_seq_no ≡ some m
          → m < n)
      → try_finalize is_saved rounds tried node ≡ some (next, border)
      → (b : BlockIdentifier) → invalid next.block_states b ≡ invalid node.block_states b
  try_finalize-invalidates_none node next border parent ids keyed of_parent of_ids above h b =
      elim (try_finalize_cases is_saved rounds tried node next border keyed h) [
        | inl same ↦ rw (sym same) refl
        | inr (other, listed, p, e, g, track, after) ↦
            let kept : invalid p.node.block_states b ≡ invalid node.block_states b =
              ap (λ x. is_set x.invalidated) (track.kept b) in
            elim (after_blocks_cases is_saved rounds tried p next border after) [
              | inl same ↦ rw (sym same) kept
              | inr (seen, forks) ↦
                  let same : p.node.block_states ≡ next.block_states =
                    some-injective p.node.block_states next.block_states (
                      sym (
                        invalidate_forks_idle rounds tried p.max_finalized_seq_no
                          (map (λ entry. entry.0) p.node.unprocessed_blocks) p.node.block_states
                          (λ n number. elim track.number [
                            | inl none_seen ↦ absurd (seen none_seen)
                            | inr (c, here, has) ↦
                                above c n p.max_finalized_seq_no
                                  (ap (λ x. x.block_seq_no) (sym (track.kept tried)) ∙ number)
                                  (same_ids other listed c e g here) has
                          ]))
                      ∙ forks) in
                  rw (sym same) kept
            ]
      ]
    where
      same_ids :
          (other : BlockIdentifier) (listed : List BlockIdentifier) (c : BlockIdentifier)
          → (state_of node.block_states tried).parent_block_identifier ≡ some other
          → (state_of node.block_states other).finalizes_blocks ≡ some listed
          → contains c listed ≡ true
          → contains c ids ≡ true
      same_ids other listed c e g here =
          let same = some-injective other parent (sym e ∙ of_parent) in
          let same_list =
            some-injective listed ids
              (sym g ∙ ap (λ x. (state_of node.block_states x).finalizes_blocks) same ∙ of_ids) in
          ap (contains c) (sym same_list) ∙ here
