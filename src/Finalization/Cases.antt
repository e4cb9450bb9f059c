-- ===== src/Finalization/Cases.antt =====
use ackinacki.Finalization.Sorted.{contains-sort_by_seq_no}
use ackinacki.Finalization.Visits.{visit_all-IsOnTrack, IsKeyed, IsOnTrack}
use ackinacki.Finalization.{Node}
use ackinacki.Finalization.Trying.{
  sort_by_seq_no, finalize_by_parent, try_finalize, visit_all, Progress, finalize_sorted,
  after_blocks, with_forks, invalidate_forks,
}
use ackinacki.Branches.{state_of, BlockStateRepository}
use ackinacki.Types.{BlockIdentifier}
use ackinacki.Common.{
  ==_cases, ◌≢◌, ◌⊎◌, map, nat_eq, subst, contains, inr, inl, Bool-cases, Option-cases, ◌∙◌, ap,
  sym, refl, ◌≡◌, ℕ, Option, List, Bool, some, none,
}
use mathlib.Core.Option.{some-injective}
use ackinacki.BlockState.{is_set}

-- The branches of try_finalize of node/src/node/services/finalization/mod.rs.
module _ {Signature : Type 0} (is_saved : BlockIdentifier → Bool) (rounds : ℕ)
    (tried : BlockIdentifier) where
  with_forks-states :
      (p : Progress Signature) (forks : Option BlockStateRepository) (next : Node Signature)
      (border : Option ℕ)
      → with_forks is_saved rounds p forks ≡ some (next, border)
      → forks ≡ some next.block_states
  unfolding with_forks
  with_forks-states p none next border h = cc
  with_forks-states p (some states) next border h =
      ap (λ r. some r.0.block_states)
        (some-injective (record (p.node) { block_states = states }, p.finalized_block_height_border)
          (next, border) h)

  pub after_blocks_cases :
      (p : Progress Signature) (next : Node Signature) (border : Option ℕ)
      → after_blocks is_saved rounds tried (some p) ≡ some (next, border)
      → (p.node.block_states ≡ next.block_states)
        ⊎ ((p.max_finalized_seq_no ≢ 0)
            × (invalidate_forks rounds tried p.max_finalized_seq_no
                  (map (λ entry. entry.0) p.node.unprocessed_blocks)
                  p.node.block_states
                ≡ some next.block_states))
  unfolding after_blocks
  after_blocks_cases p next border h = elim (==_cases p.max_finalized_seq_no 0) [
    | inl (none_seen, e) ↦ inl (
        ap (λ r. r.0.block_states)
          (some-injective (p.node, p.finalized_block_height_border) (next, border)
            (rw (e, after_blocks) at h)))
    | inr (other, e) ↦ inr (
      other,
      with_forks-states p
          (invalidate_forks rounds tried p.max_finalized_seq_no
            (map (λ entry. entry.0) p.node.unprocessed_blocks) p.node.block_states)
          next border (rw (e, after_blocks) at h),
    )
  ]

  -- The call either leaves the node as it is, or visits what the parent finalizes.
  abbrev pub Visited : Node Signature → Node Signature → Option ℕ → Type 0
  Visited node next border =
      (parent : BlockIdentifier) × (ids : List BlockIdentifier) × (p : Progress Signature)
      × ((state_of node.block_states tried).parent_block_identifier ≡ some parent)
      × ((state_of node.block_states parent).finalizes_blocks ≡ some ids)
      × IsOnTrack is_saved node ids p
      × (after_blocks is_saved rounds tried (some p) ≡ some (next, border))

  start_of : (node : Node Signature) → Progress Signature
  start_of node = record {
    node = node;
    max_finalized_seq_no = 0;
    finalized_block_height_border = none;
  }

  start-IsOnTrack :
      (node : Node Signature) (ids : List BlockIdentifier)
      → IsOnTrack is_saved node ids (start_of node)
  unfolding start_of
  start-IsOnTrack node ids = record {
    kept = λ b. refl;
    queue = refl;
    finals = λ b h. inl h;
    stays = λ b h. h;
    number = inl refl;
  }

  finalize_sorted-IsOnTrack :
      (node next : Node Signature) (border : Option ℕ) (ids : List BlockIdentifier)
      (sorted : Option (List BlockIdentifier))
      → IsKeyed node.unprocessed_blocks
      → ((l : List BlockIdentifier) (b : BlockIdentifier)
          → sorted ≡ some l
          → contains b l ≡ contains b ids)
      → finalize_sorted is_saved rounds tried node sorted ≡ some (next, border)
      → (p : Progress Signature) × IsOnTrack is_saved node ids p
        × (after_blocks is_saved rounds tried (some p) ≡ some (next, border))
  unfolding finalize_sorted start_of after_blocks
  finalize_sorted-IsOnTrack node next border ids none keyed same h = cc
  finalize_sorted-IsOnTrack node next border ids (some sorted) keyed same h =
      elim (Option-cases (visit_all is_saved sorted (some (start_of node)))) [
        | inl e ↦ cc (rw (e, start_of, finalize_sorted, after_blocks) at h)
        | inr (p, e) ↦ (
          p,
          visit_all-IsOnTrack is_saved node ids sorted (some (start_of node)) p keyed
              (λ b here. sym (same sorted b refl) ∙ here)
              (λ x made.
                subst (IsOnTrack is_saved node ids) (some-injective (start_of node) x made)
                  (start-IsOnTrack node ids))
              e,
          ap (after_blocks is_saved rounds tried) (sym e) ∙ h,
        )
      ]

  pub try_finalize_cases :
      (node next : Node Signature) (border : Option ℕ)
      → IsKeyed node.unprocessed_blocks
      → try_finalize is_saved rounds tried node ≡ some (next, border)
      → (node ≡ next) ⊎ Visited node next border
  unfolding try_finalize finalize_by_parent
  try_finalize_cases node next border keyed h =
      let s = state_of node.block_states tried in
      elim (Option-cases s.parent_block_identifier) [
        | inl e ↦ inl (first_same (rw (e, try_finalize) at h))
        | inr (parent, e) ↦ elim (Bool-cases (is_set s.has_cross_thread_ref_data_prepared)) [
          | inr f ↦ inl (first_same (rw (e, f, try_finalize) at h))
          | inl f ↦ elim (Option-cases (state_of node.block_states parent).finalizes_blocks) [
            | inl g ↦ inl (first_same (rw (e, f, g, try_finalize, finalize_by_parent) at h))
            | inr (ids, g) ↦
                let (p, track, after) =
                  finalize_sorted-IsOnTrack node next border ids
                    (sort_by_seq_no node.block_states ids) keyed
                    (λ l b made. contains-sort_by_seq_no node.block_states b ids l made)
                    (rw (e, f, g, try_finalize, finalize_by_parent) at h) in
                inr (parent, ids, p, e, g, track, after)
          ]
        ]
      ]
    where
      first_same :
          ◌≡◌ {A = Option (Node Signature × Option ℕ)} (some (node, none)) (some (next, border))
          → node ≡ next
      first_same same = ap (λ r. r.0) (some-injective (node, none) (next, border) same)
