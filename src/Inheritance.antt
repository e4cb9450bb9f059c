-- ===== src/Inheritance.antt =====
-- inherit_ancestor_blocks_finalization_distances of
-- node/src/node/block_state/attestation_target_checkpoints.rs and
-- node/src/node/services/attestations_target/service.rs: a block takes its parent's checkpoints one
-- step further and adds its own.
mod Examples
pub mod Lineage
use ackinacki.Common.Assoc.{insert, map_values, Assoc}
use ackinacki.BlockState.{AckiNackiBlockState, AttestationTargets}
use ackinacki.Checkpoints.{
  into_builder, update, is_empty, inherit_checkpoint, AttestationTargetCheckpoint, AttestationCount,
  AncestorBlocksFinalizationCheckpoints,
}
use ackinacki.Common.{
  true, ◌==◌, map, Bool, if◌then◌else◌, Option, length, Result, List, ℕ, [], ◌∷◌, some, none,
  nat_eq, ◌>>=◌, ok, err, ok_or,
}
use ackinacki.Types.{SignerIndex, AttestationTargetType, BlockIdentifier, ThreadIdentifier}

pub data InheritError : Type 0 where
  parent_block_is_not_ready : InheritError
  thread_id_is_not_set : InheritError
  attestation_target_is_not_set : InheritError

-- Both loops over `values_mut`.
pub inherit_all : AncestorBlocksFinalizationCheckpoints → AncestorBlocksFinalizationCheckpoints
inherit_all m = record {
  primary = map_values inherit_checkpoint m.primary;
  fallback = map_values (map inherit_checkpoint) m.fallback;
}

abbrev pub no_checkpoints : AncestorBlocksFinalizationCheckpoints
no_checkpoints = record { primary = []; fallback = [] }

pub own_primary : AttestationTargets → AttestationTargetCheckpoint
own_primary target = record {
  current_distance = 0;
  deadline = target.primary.generation_deadline;
  required_attestation_count = target.primary.required_attestation_count;
  attestation_target_type = AttestationTargetType.primary;
}

pub own_fallback : AttestationTargets → List AttestationTargetCheckpoint
own_fallback target =
    record {
      current_distance = 0;
      deadline = target.primary.generation_deadline;
      required_attestation_count = target.fallback.required_attestation_count;
      attestation_target_type = AttestationTargetType.primary;
    }
    ∷ record {
      current_distance = 0;
      deadline = target.fallback.generation_deadline;
      required_attestation_count = target.fallback.required_attestation_count;
      attestation_target_type = AttestationTargetType.fallback;
    }
    ∷ []

-- The last part: the block inserts itself.
pub insert_self :
    BlockIdentifier
    → AttestationTargets
    → AncestorBlocksFinalizationCheckpoints
    → AncestorBlocksFinalizationCheckpoints
unfolding own_primary own_fallback
insert_self b target m = record {
  primary = insert b (own_primary target) m.primary;
  fallback = insert b (own_fallback target) m.fallback;
}

pub inherit_ancestor_blocks_finalization_distances :
    AckiNackiBlockState
    → AckiNackiBlockState
    → Result InheritError AncestorBlocksFinalizationCheckpoints
inherit_ancestor_blocks_finalization_distances parent_block_state block_state = do
  parent_thread ← ok_or parent_block_state.thread_identifier parent_block_is_not_ready
  prototype ←
      ok_or parent_block_state.ancestor_blocks_finalization_checkpoints parent_block_is_not_ready
  thread ← ok_or block_state.thread_identifier thread_id_is_not_set
  target ← ok_or block_state.attestation_target attestation_target_is_not_set
  ok (
      insert_self block_state.block_identifier target
        (if thread == parent_thread then inherit_all prototype else no_checkpoints))

-- `HashMap<_, HashSet<SignerIndex>>`
abbrev pub NextBlockAttestations : Type 0
NextBlockAttestations = Assoc (BlockIdentifier × AttestationTargetType) (List SignerIndex)

pub signers_count : NextBlockAttestations → AttestationCount
signers_count [] = []
signers_count ((k, signers) ∷ rest) = (k, length signers) ∷ signers_count rest

-- `none` stands for `FailedToLoadBlockState`. The parent's state is looked up by the caller's
-- repository, which the service expects to succeed.
pub evaluate_if_next_block_ancestors_required_attestations_will_be_met :
    AckiNackiBlockState → ThreadIdentifier → NextBlockAttestations → Option Bool
unfolding inherit_all signers_count
evaluate_if_next_block_ancestors_required_attestations_will_be_met parent thread attestations =
    elim parent.thread_identifier [
      | none ↦ none
      | some parent_thread ↦ elim parent.ancestor_blocks_finalization_checkpoints [
        | none ↦ none
        | some prototype ↦
            if thread == parent_thread
            then some (
                is_empty
                  (update (into_builder (inherit_all prototype))
                    (signers_count attestations)).failed)
            else some true
      ]
    ]
