-- ===== src/Finalization.antt =====
use mathlib.Core.Option
use ackinacki.BlockState.{
  set_finalized, known_children_of, is_set, set_has_parent_finalized, or_empty,
}
use ackinacki.Common.Assoc.{get, insert, Assoc}
use ackinacki.Types.{BlockSeqNo, ThreadIdentifier, BlockIdentifier}
use ackinacki.Branches.{state_of, BlockStateRepository}
use ackinacki.Common.{
  inr, inl, Bool-cases, Option-cases, ◌∙◌, ap, sym, refl, suc, zero, ◌≡◌, ℕ, false, true, ◌+◌,
  nat_eq, ltb, if◌then◌else◌, ◌++◌, arith, Option, List, Bool, some, none, ◌∷◌, [],
}
use ackinacki.SharedServices.{on_block_finalized, Container, FinalizedBlock}
use ackinacki.Collected.{CollectedAttestations, move_cutoff}
-- node/src/node/services/finalization/mod.rs: its `on_block_finalized` here, and `try_finalize` in Trying;
-- with the part of `mark_block_as_finalized` of
-- node/src/repository/repository_impl.rs that changes the block and the metadata of its thread. The flag
-- of the shutdown is not set, and the events for the monitor of the chain and for the authority are left
-- out. `none` is a panic, or an error, which the loop of the service makes a panic.
pub mod Trying
pub mod Kept
pub mod Told
pub mod Visits
pub mod Sorted
pub mod Forks
pub mod Cases
pub mod Safety
mod Examples

-- A candidate of the queue is what its envelope and its optimistic state tell the services.
pub record Node (Signature : Type 0) : Type 0 where
  pub block_states : BlockStateRepository
  pub unprocessed_blocks : Assoc BlockIdentifier FinalizedBlock
  pub shared_services : Container
  pub last_block_attestations : CollectedAttestations Signature
  pub last_finalized : Assoc ThreadIdentifier (BlockSeqNo × BlockIdentifier)
  pub raw_blocks : List BlockIdentifier

pub mark_children : List BlockIdentifier → BlockStateRepository → BlockStateRepository
mark_children [] states = states
mark_children (c ∷ children) states =
    mark_children children (insert c (set_has_parent_finalized (state_of states c)) states)

pub mark_finalized : BlockIdentifier → BlockStateRepository → BlockStateRepository
mark_finalized b states =
    if is_set (state_of states b).finalized
    then states
    else insert b (set_finalized (state_of states b)) states

-- The metadata of the thread has the last block.
pub note_last :
    ThreadIdentifier
    → BlockSeqNo
    → BlockIdentifier
    → Option (BlockSeqNo × BlockIdentifier)
    → Assoc ThreadIdentifier (BlockSeqNo × BlockIdentifier)
    → Option (Assoc ThreadIdentifier (BlockSeqNo × BlockIdentifier))
note_last thread n b none metadatas = none
note_last thread n b (some (last, last_id)) metadatas =
    some (if ltb last n then insert thread (n, b) metadatas else metadatas)

module _ {Signature : Type 0} where
  pub cut_attestations :
      Option (BlockSeqNo × BlockIdentifier)
      → CollectedAttestations Signature
      → CollectedAttestations Signature
  cut_attestations none attestations = attestations
  cut_attestations (some (n, b)) attestations = move_cutoff attestations n

  -- What comes after the metadata: the envelope goes to the block manager, the services hear of the
  -- block, and its children learn that their parent is final.
  pub tell : FinalizedBlock → Node Signature → Option Container → Option (Node Signature)
  unfolding mark_children
  tell b node none = none
  tell b node (some services) = some (record node {
    shared_services = services;
    raw_blocks = node.raw_blocks ++ (b.block_identifier ∷ []);
    block_states =
        mark_children
          (or_empty
            (known_children_of (state_of node.block_states b.block_identifier) b.thread_identifier))
          node.block_states;
  })

  pub mark_and_tell :
      FinalizedBlock
      → Node Signature
      → Option (Assoc ThreadIdentifier (BlockSeqNo × BlockIdentifier))
      → Option (Node Signature)
  unfolding mark_finalized tell
  mark_and_tell b node none = none
  mark_and_tell b node (some metadatas) =
      tell b
        (record node {
          last_finalized = metadatas;
          block_states = mark_finalized b.block_identifier node.block_states;
        })
        (on_block_finalized node.shared_services b)

  -- `on_block_finalized`, for a block whose number is known. `is_saved` says whether the rest of
  -- `mark_block_as_finalized` succeeds: the metadata is written and the optimistic state is found.
  pub finalize_block :
      (BlockIdentifier → Bool)
      → BlockSeqNo
      → FinalizedBlock
      → Node Signature
      → Option (Node Signature)
  unfolding mark_and_tell note_last cut_attestations
  finalize_block is_saved n b node =
      if is_saved b.block_identifier
      then mark_and_tell b
          (record node {
            last_block_attestations =
                cut_attestations
                  (state_of node.block_states b.block_identifier).moves_attestation_list_cutoff
                  node.last_block_attestations;
          })
          (note_last b.thread_identifier n b.block_identifier
            (get b.thread_identifier node.last_finalized) node.last_finalized)
      else none
