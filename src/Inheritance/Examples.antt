-- ===== src/Inheritance/Examples.antt =====
-- A block that inherits from its parent: node/src/node/block_state/attestation_target_checkpoints.rs
-- at concrete inputs.
use ackinacki.Types.{AttestationTargetType}
use ackinacki.Inheritance.Lineage.{
  farther, checkpoint_at, get-inherit, start, Lineage-failed, is_same_thread,
}
use ackinacki.Checkpoints.Completion.{overdue}
use ackinacki.Common.Assoc.{map_option, get}
use ackinacki.Checkpoints.Tracking.{IsPaired}
use ackinacki.Inheritance.{
  inherit_all, no_checkpoints, insert_self, inherit_ancestor_blocks_finalization_distances,
}
use ackinacki.Checkpoints.{note_all, into_builder, update, AncestorBlocksFinalizationCheckpoints}
use ackinacki.BlockState.{new, AckiNackiBlockState, AttestationTargets}
use ackinacki.Common.{
  ◌∷◌, map, ◌==◌, if◌then◌else◌, contains, ok, ◌≡◌, some, none, [], refl, nat_eq,
}

abbrev targets : AttestationTargets
targets = record {
  primary = record { generation_deadline = 3; required_attestation_count = 2 };
  fallback = record { generation_deadline = 6; required_attestation_count = 1 };
}

abbrev parent_checkpoints : AncestorBlocksFinalizationCheckpoints
parent_checkpoints = insert_self 7 targets no_checkpoints

abbrev parent : AckiNackiBlockState
parent = record (new 7) {
  thread_identifier = some 1;
  ancestor_blocks_finalization_checkpoints = some parent_checkpoints;
}

abbrev block : AckiNackiBlockState
block = record (new 8) { thread_identifier = some 1; attestation_target = some targets }

abbrev inherited : AncestorBlocksFinalizationCheckpoints
inherited = insert_self 8 targets (inherit_all parent_checkpoints)

block_inherits : inherit_ancestor_blocks_finalization_distances parent block ≡ ok inherited
unfolding inherit_ancestor_blocks_finalization_distances new
block_inherits = refl

parent_is_set : parent.ancestor_blocks_finalization_checkpoints ≡ some parent_checkpoints
unfolding new
parent_is_set = refl

Lineage-failed_example :
    IsPaired parent_checkpoints 7
    × (contains 7 (update (into_builder inherited) []).failed
        ≡ overdue (get 7 (note_all (into_builder inherited) []).inherited_checkpoints.fallback))
Lineage-failed_example =
    Lineage-failed inherited parent block [] 7 (start 7 targets) parent_is_set block_inherits

get-inherit_example :
    (target : AttestationTargets) × (block.attestation_target ≡ some target)
    × (get 7 inherited.primary ≡ (
        if block.block_identifier == 7
        then some (
            checkpoint_at 0 target.primary.generation_deadline
              target.primary.required_attestation_count AttestationTargetType.primary)
        else if is_same_thread parent block
        then map_option farther (get 7 parent_checkpoints.primary)
        else none))
    × (get 7 inherited.fallback ≡ (
        if block.block_identifier == 7
        then some (
            checkpoint_at 0 target.primary.generation_deadline
              target.fallback.required_attestation_count AttestationTargetType.primary
            ∷ checkpoint_at 0 target.fallback.generation_deadline
                target.fallback.required_attestation_count AttestationTargetType.fallback
            ∷ [])
        else if is_same_thread parent block
        then map_option (map farther) (get 7 parent_checkpoints.fallback)
        else none))
get-inherit_example =
    get-inherit parent block parent_checkpoints inherited 7 parent_is_set block_inherits
