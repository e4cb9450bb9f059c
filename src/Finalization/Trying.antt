-- ===== src/Finalization/Trying.antt =====
use mathlib.Core.Option
use ackinacki.Identity.{BlockHeight}
use ackinacki.BlockState.{can_be_finalized, is_set, AttestationTargets}
use ackinacki.Common.Assoc.{get}
use ackinacki.Types.{BlockSeqNo, BlockIdentifier}
use ackinacki.Branches.{invalidate_branch, state_of, BlockStateRepository}
use ackinacki.Common.{
  ◌^◌, ok, err, ◌*◌, map, ◌&&◌, ◌+◌, ◌==◌, not, leb, nat_eq, ltb, if◌then◌else◌, ℕ, Option, List,
  Bool, false, true, some, none, ◌∷◌, [],
}
use ackinacki.SharedServices.{FinalizedBlock}
use ackinacki.Finalization.{Node, finalize_block}

-- `try_finalize` of node/src/node/services/finalization/mod.rs: the blocks that a parent finalizes are
-- visited in the order of their numbers, and then the queue is gone over for forks.
-- `sort_by` on numbers that are unwrapped by each comparison.
unfoldable pub place :
    BlockIdentifier
    → BlockIdentifier
    → List BlockIdentifier
    → Option (List BlockIdentifier)
    → Option BlockSeqNo
    → Option BlockSeqNo
    → Option (List BlockIdentifier)
place b c cs rest none m = none
place b c cs rest (some n) none = none
place b c cs rest (some n) (some m) =
    if leb n m then some (b ∷ (c ∷ cs)) else Option.map (λ sorted. c ∷ sorted) rest

unfoldable pub insert_by_seq_no :
    BlockStateRepository → BlockIdentifier → List BlockIdentifier → Option (List BlockIdentifier)
unfolding place
insert_by_seq_no states b [] = some (b ∷ [])
insert_by_seq_no states b (c ∷ cs) =
    place b c cs (insert_by_seq_no states b cs) (state_of states b).block_seq_no
      (state_of states c).block_seq_no

unfoldable pub sort_by_seq_no :
    BlockStateRepository → List BlockIdentifier → Option (List BlockIdentifier)
unfolding insert_by_seq_no
sort_by_seq_no states [] = some []
sort_by_seq_no states (b ∷ bs) = elim (sort_by_seq_no states bs) [
  | none ↦ none
  | some sorted ↦ insert_by_seq_no states b sorted
]

-- What the loop over the blocks that the parent finalizes carries along.
pub record Progress (Signature : Type 0) : Type 0 where
  pub node : Node Signature
  pub max_finalized_seq_no : BlockSeqNo
  pub finalized_block_height_border : Option ℕ

-- The height, the number and the target of a block, where all three are known.
unfoldable pub all_facts :
    Option BlockHeight
    → Option BlockSeqNo
    → Option AttestationTargets
    → Option (BlockHeight × BlockSeqNo × AttestationTargets)
all_facts (some height) (some n) (some targets) = some (height, n, targets)
all_facts (some height) (some n) none = none
all_facts (some height) none targets = none
all_facts none n targets = none

unfoldable pub border_after : Option ℕ → ℕ → Option ℕ
border_after none border = some border
border_after (some old) border = if ltb old border then some border else some old

-- A u64, whose overflow panics: `none`.
unfoldable pub border_at : BlockHeight → AttestationTargets → Option ℕ
border_at height targets =
    let border = height.height + targets.primary.generation_deadline * 2 + 2 in
    if ltb border (2 ^ 64) then some border else none

module _ {Signature : Type 0} (is_saved : BlockIdentifier → Bool) where
  unfoldable pub finalized_at :
      Progress Signature → Option ℕ → Option (Node Signature) → Option (Progress Signature)
  unfolding border_after
  finalized_at p border none = none
  finalized_at p none (some node) = none
  finalized_at p (some border) (some node) = some (record p {
    node = node;
    finalized_block_height_border = border_after p.finalized_block_height_border border;
  })

  -- A block that can be finalized, once its facts are read and its candidate is looked for.
  unfoldable pub visit_candidate :
      Progress Signature
      → Option (BlockHeight × BlockSeqNo × AttestationTargets)
      → Option FinalizedBlock
      → Option (Progress Signature)
  unfolding finalized_at finalize_block border_at
  visit_candidate p none candidate = some p
  visit_candidate p (some (height, n, targets)) candidate =
      let next = record p {
        max_finalized_seq_no = if ltb p.max_finalized_seq_no n then n else p.max_finalized_seq_no;
      } in
      elim candidate [
        | none ↦ some next
        | some block ↦
            finalized_at next (border_at height targets) (finalize_block is_saved n block p.node)
      ]

  unfoldable pub visit_block : Progress Signature → BlockIdentifier → Option (Progress Signature)
  unfolding visit_candidate all_facts
  visit_block p b =
      let s = state_of p.node.block_states b in
      if not (is_set s.finalized) && can_be_finalized s
      then visit_candidate p (all_facts s.block_height s.block_seq_no s.attestation_target)
          (get b p.node.unprocessed_blocks)
      else some p

  unfoldable pub visit_all :
      List BlockIdentifier → Option (Progress Signature) → Option (Progress Signature)
  unfolding visit_block
  visit_all bs none = none
  visit_all [] (some p) = some p
  visit_all (b ∷ bs) (some p) = visit_all bs (visit_block p b)

-- The loop over the queue that follows. The number that it reads is the one of the block that
-- `try_finalize` was called for, `tried`, and not the one of the block at hand.
unfoldable pub invalidate_forks :
    ℕ
    → BlockIdentifier
    → BlockSeqNo
    → List BlockIdentifier
    → BlockStateRepository
    → Option BlockStateRepository
invalidate_forks rounds tried max [] states = some states
invalidate_forks rounds tried max (b ∷ queue) states = elim (is_set (state_of states b).finalized) [
  | true ↦ invalidate_forks rounds tried max queue states
  | false ↦ elim (state_of states tried).block_seq_no [
    | none ↦ invalidate_forks rounds tried max queue states
    | some n ↦ elim (leb n max) [
      | false ↦ some states
      | true ↦ elim (invalidate_branch rounds b states) [
        | err e ↦ none
        | ok next ↦ invalidate_forks rounds tried max queue next
      ]
    ]
  ]
]

module _ {Signature : Type 0} (is_saved : BlockIdentifier → Bool) (rounds : ℕ) where
  unfoldable pub with_forks :
      Progress Signature → Option BlockStateRepository → Option (Node Signature × Option ℕ)
  with_forks p none = none
  with_forks p (some states) =
      some (record (p.node) { block_states = states }, p.finalized_block_height_border)

  unfoldable pub after_blocks :
      BlockIdentifier → Option (Progress Signature) → Option (Node Signature × Option ℕ)
  unfolding invalidate_forks with_forks
  after_blocks tried none = none
  after_blocks tried (some p) =
      if p.max_finalized_seq_no == 0
      then some (p.node, p.finalized_block_height_border)
      else with_forks p (
          invalidate_forks rounds tried p.max_finalized_seq_no
            (map (λ entry. entry.0) p.node.unprocessed_blocks) p.node.block_states)

  unfoldable pub finalize_sorted :
      BlockIdentifier
      → Node Signature
      → Option (List BlockIdentifier)
      → Option (Node Signature × Option ℕ)
  unfolding after_blocks visit_all
  finalize_sorted tried node none = none
  finalize_sorted tried node (some sorted) = after_blocks tried (
      visit_all is_saved sorted (
        some
          (record { node = node; max_finalized_seq_no = 0; finalized_block_height_border = none })))

  -- `finalizes_blocks` of the parent, where it is known.
  unfoldable pub finalize_by_parent :
      BlockIdentifier
      → Node Signature
      → Option (List BlockIdentifier)
      → Option (Node Signature × Option ℕ)
  unfolding finalize_sorted sort_by_seq_no
  finalize_by_parent tried node none = some (node, none)
  finalize_by_parent tried node (some blocks_finalized_by_parent) =
      finalize_sorted tried node (sort_by_seq_no node.block_states blocks_finalized_by_parent)

  unfoldable pub try_finalize :
      BlockIdentifier → Node Signature → Option (Node Signature × Option ℕ)
  unfolding finalize_by_parent
  try_finalize tried node =
      let s = state_of node.block_states tried in
      elim s.parent_block_identifier [
        | none ↦ some (node, none)
        | some parent ↦
            if is_set s.has_cross_thread_ref_data_prepared
            then finalize_by_parent tried node (state_of node.block_states parent).finalizes_blocks
            else some (node, none)
      ]
