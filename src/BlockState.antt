-- ===== src/BlockState.antt =====
-- node/src/node/block_state/state.rs: the table of facts that the node has learnt about one block.
-- Notification of subscribers, timestamps and the saved file are not part of the model; neither are
-- the fields that no function modelled here reads.
pub mod Changes
mod Examples
use ackinacki.Identity.{BlockHeight}
use ackinacki.Common.Assoc.{contains_key, insert, get, Assoc}
use ackinacki.Common.{
  arith, pair_eq, set_insert, contains, if◌then◌else◌, ℕ, ◌+◌, ◌%◌, ◌^◌, nat_eq, Bool, true, false,
  ◌&&◌, ◌||◌, not, Option, none, some, List, [],
}
use ackinacki.Types.{
  SignerIndex, NodeIdentifier, AttestationTargetType, BlockIdentifier, ThreadIdentifier, BlockSeqNo,
  target_eq,
}
use ackinacki.Checkpoints.{AncestorBlocksFinalizationCheckpoints}

pub record AttestationTarget : Type 0 where
  pub generation_deadline : ℕ
  pub required_attestation_count : ℕ

pub record AttestationTargets : Type 0 where
  pub primary : AttestationTarget
  pub fallback : AttestationTarget

pub record AckiNackiBlockState : Type 0 where
  pub block_identifier : BlockIdentifier
  pub block_seq_no : Option BlockSeqNo
  pub block_height : Option BlockHeight
  pub thread_identifier : Option ThreadIdentifier
  pub parent_block_identifier : Option BlockIdentifier
  pub ancestor_blocks_finalization_checkpoints : Option AncestorBlocksFinalizationCheckpoints
  pub attestation_target : Option AttestationTargets
  pub signatures_verified : Option Bool
  pub applied : Option Bool
  pub validated : Option Bool
  pub finalized : Option Bool
  pub stored : Option Bool
  pub invalidated : Option Bool
  pub has_bad_block_accusers : Bool
  pub has_parent_finalized : Option Bool
  pub has_all_cross_thread_ref_data_available : Option Bool
  pub has_all_cross_thread_references_finalized : Option Bool
  pub has_cross_thread_ref_data_prepared : Option Bool
  pub verified_attestations : Assoc (BlockIdentifier × AttestationTargetType) (List SignerIndex)
  pub known_children : Assoc ThreadIdentifier (List BlockIdentifier)
  pub known_attestation_interested_parties : List NodeIdentifier
  pub finalizes_blocks : Option (List BlockIdentifier)
  pub moves_attestation_list_cutoff : Option (BlockSeqNo × BlockIdentifier)
  pub object_state_version : ℕ

-- `flag == Some(true)`
abbrev pub is_set : Option Bool → Bool
is_set none = false
is_set (some b) = b

-- `unwrap_or_default` on a set.
abbrev pub or_empty {ℓ} : {A : Type ℓ} → Option (List A) → List A
or_empty none = []
or_empty (some xs) = xs

unfoldable pub new : BlockIdentifier → AckiNackiBlockState
new block_identifier = record {
  block_identifier = block_identifier;
  block_seq_no = none;
  block_height = none;
  thread_identifier = none;
  parent_block_identifier = none;
  ancestor_blocks_finalization_checkpoints = none;
  attestation_target = none;
  signatures_verified = none;
  applied = none;
  validated = none;
  finalized = none;
  stored = none;
  invalidated = none;
  has_bad_block_accusers = false;
  has_parent_finalized = none;
  has_all_cross_thread_ref_data_available = none;
  has_all_cross_thread_references_finalized = some true;
  has_cross_thread_ref_data_prepared = none;
  verified_attestations = [];
  known_children = [];
  known_attestation_interested_parties = [];
  finalizes_blocks = none;
  moves_attestation_list_cutoff = none;
  object_state_version = 0;
}

unfoldable pub has_bad_block_nacks_resolved : AckiNackiBlockState → Bool
has_bad_block_nacks_resolved s = if s.has_bad_block_accusers then is_set s.validated else true

unfoldable pub has_all_nacks_resolved : AckiNackiBlockState → Bool
unfolding has_bad_block_nacks_resolved
has_all_nacks_resolved s = has_bad_block_nacks_resolved s

unfoldable pub can_be_finalized : AckiNackiBlockState → Bool
unfolding has_all_nacks_resolved
can_be_finalized s =
    is_set s.signatures_verified
    && not (is_set s.invalidated)
    && has_all_nacks_resolved s
    && is_set s.applied
    && is_set s.has_parent_finalized
    && is_set s.has_all_cross_thread_references_finalized
    && is_set s.has_all_cross_thread_ref_data_available
    && is_set s.has_cross_thread_ref_data_prepared

pub apply_can_be_skipped : AckiNackiBlockState → Bool
apply_can_be_skipped s =
    (is_set s.signatures_verified
      && not (is_set s.invalidated)
      && is_set s.has_all_cross_thread_ref_data_available
      && is_set s.has_cross_thread_ref_data_prepared)
    || is_set s.finalized
    || is_set s.applied

-- `u64::wrapping_add`
unfoldable pub notify_changed : AckiNackiBlockState → AckiNackiBlockState
notify_changed s = record s { object_state_version = (s.object_state_version + 1) % 2 ^ 64 }

unfoldable pub set_finalized : AckiNackiBlockState → AckiNackiBlockState
unfolding notify_changed
set_finalized s = notify_changed (record s { finalized = some true })

unfoldable pub set_has_parent_finalized : AckiNackiBlockState → AckiNackiBlockState
unfolding notify_changed
set_has_parent_finalized s =
    if is_set s.has_parent_finalized
    then s
    else notify_changed (record s { has_parent_finalized = some true })

unfoldable pub set_invalidated : AckiNackiBlockState → AckiNackiBlockState
unfolding notify_changed
set_invalidated s = notify_changed (record s { invalidated = some true })

-- The first call wins; the hash of the envelope is not modelled.
pub set_stored : AckiNackiBlockState → AckiNackiBlockState
unfolding notify_changed
set_stored s = if is_set s.stored then s else notify_changed (record s { stored = some true })

pub set_applied : AckiNackiBlockState → AckiNackiBlockState
unfolding notify_changed
set_applied s = if is_set s.applied then s else notify_changed (record s { applied = some true })

-- `none` until the block's signatures have been verified; an empty set for a block that it did not
-- attest.
pub verified_attestations_for :
    AckiNackiBlockState → BlockIdentifier → AttestationTargetType → Option (List SignerIndex)
verified_attestations_for s b target_type =
    if is_set s.signatures_verified
    then some (or_empty (get (b, target_type) s.verified_attestations))
    else none

pub add_verified_attestations_for :
    AckiNackiBlockState
    → BlockIdentifier
    → AttestationTargetType
    → List SignerIndex
    → AckiNackiBlockState
unfolding notify_changed
add_verified_attestations_for s b target_type signers =
    let next = record s {
      verified_attestations = insert (b, target_type) signers s.verified_attestations;
    } in
    if contains_key (b, target_type) s.verified_attestations then next else notify_changed next

pub try_add_attestations_interest :
    AckiNackiBlockState → NodeIdentifier → AckiNackiBlockState × Bool
unfolding notify_changed
try_add_attestations_interest s node_identifier =
    if contains node_identifier s.known_attestation_interested_parties then (s, false) else (
      notify_changed (record s {
        known_attestation_interested_parties =
            set_insert node_identifier s.known_attestation_interested_parties;
      }),
      true,
    )

unfoldable pub known_children_of :
    AckiNackiBlockState → ThreadIdentifier → Option (List BlockIdentifier)
known_children_of s thread = get thread s.known_children

pub add_child : AckiNackiBlockState → ThreadIdentifier → BlockIdentifier → AckiNackiBlockState
unfolding notify_changed
add_child s thread child =
    let children = or_empty (get thread s.known_children) in
    let next = record s {
      known_children = insert thread (set_insert child children) s.known_children;
    } in
    if contains child children then next else notify_changed next
