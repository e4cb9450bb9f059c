-- ===== src/Collected.antt =====
-- node/src/types/attestation/mod.rs, compacted_map_key.rs and compacted_attestation.rs: the
-- attestations that a node has received, and their aggregation. The lock and the condition variable
-- behind `notifications` are its counter.
pub mod Aggregate
pub mod Arrivals
mod Examples
use ackinacki.BlockKeepers.{BlockKeeperSet}
use ackinacki.Common.Assoc.{insert, get, Assoc}
use ackinacki.Checkpoints.{is_empty, AttestationTargetCheckpoint}
use ackinacki.Envelope.{Envelope, SignatureOccurrences}
use ackinacki.Common.{
  inr, inl, Bool-cases, Option-cases, ◌∙◌, ap, sym, refl, suc, zero, list_beq_iff, set_insert,
  contains, ◌^◌, ◌%◌, filter, ◌||◌, leb, ◌+◌, ltb, if◌then◌else◌, ◌&&◌, PartialEq, ◌↔◌, ◌==◌, arith,
  ◌≡◌, ℕ, Option, List, Bool, false, true, some, none, ◌∷◌, [], nat_eq, pair_eq, list_eq,
}
use ackinacki.Types.{
  target_beq_iff, AttestationTargetType, SignerIndex, BlockSeqNo, BlockIdentifier, target_eq,
}

-- node/src/node/associated_types.rs
pub record AttestationData : Type 0 where
  pub parent_block_id : BlockIdentifier
  pub block_id : BlockIdentifier
  pub block_seq_no : BlockSeqNo
  pub envelope_hash : ℕ
  pub target_type : AttestationTargetType

pub record CompactedMapKey : Type 0 where
  pub block_seq_no : BlockSeqNo
  pub block_identifier : BlockIdentifier
  pub attestation_target_type : AttestationTargetType

abbrev pub key_beq : CompactedMapKey → CompactedMapKey → Bool
key_beq a b =
    a.block_seq_no == b.block_seq_no
    && a.block_identifier == b.block_identifier
    && a.attestation_target_type == b.attestation_target_type

pub key_beq_iff : (a b : CompactedMapKey) → (key_beq a b ≡ true) ↔ (a ≡ b)
key_beq_iff a b = ground (arith, target_beq_iff a.attestation_target_type b.attestation_target_type)

instance abbrev pub key_eq : PartialEq CompactedMapKey
key_eq = record { beq = key_beq; beq_iff = key_beq_iff }

pub record CompactedAttestation (Signature : Type 0) : Type 0 where
  pub parent_block_id : BlockIdentifier
  pub envelope_hash : ℕ
  pub aggregated_signature : Signature
  pub signature_occurrences : SignatureOccurrences
  pub target_type : AttestationTargetType

module _ {Signature : Type 0} ⦃eq : PartialEq Signature⦄ where
  abbrev pub compacted_beq : CompactedAttestation Signature → CompactedAttestation Signature → Bool
  compacted_beq a b =
      a.parent_block_id == b.parent_block_id
      && a.envelope_hash == b.envelope_hash
      && a.aggregated_signature == b.aggregated_signature
      && a.signature_occurrences == b.signature_occurrences
      && a.target_type == b.target_type

  pub compacted_beq_iff :
      (a b : CompactedAttestation Signature) → (compacted_beq a b ≡ true) ↔ (a ≡ b)
  compacted_beq_iff a b = ground (
    arith,
    eq.beq_iff a.aggregated_signature b.aggregated_signature,
    list_beq_iff a.signature_occurrences b.signature_occurrences,
    target_beq_iff a.target_type b.target_type,
  )

  instance abbrev pub compacted_eq : PartialEq (CompactedAttestation Signature)
  compacted_eq = record { beq = compacted_beq; beq_iff = compacted_beq_iff }

-- An entry in a `BTreeMap`, kept in the order of its keys.
pub btree_insert : SignerIndex → ℕ → SignatureOccurrences → SignatureOccurrences
btree_insert k v [] = (k, v) ∷ []
btree_insert k v ((j, w) ∷ m) =
    let rest = btree_insert k v m in
    if ltb k j then (k, v) ∷ (j, w) ∷ m else if k == j then (k, v) ∷ m else (j, w) ∷ rest

-- `BTreeMap::from_iter`, on the entries of a map, whose keys are distinct.
pub to_btree : SignatureOccurrences → SignatureOccurrences
to_btree [] = []
to_btree ((k, v) ∷ m) = btree_insert k v (to_btree m)

module _ {Signature : Type 0} where
  -- From<&Envelope<..>> for CompactedAttestation
  pub compact : Envelope Signature AttestationData → CompactedAttestation Signature
  compact value = record {
    parent_block_id = value.signed_data.parent_block_id;
    envelope_hash = value.signed_data.envelope_hash;
    aggregated_signature = value.aggregated_signature;
    signature_occurrences = to_btree value.signature_occurrences;
    target_type = value.signed_data.target_type;
  }

abbrev pub key_of : AttestationData → CompactedMapKey
key_of attestation = record {
  block_seq_no = attestation.block_seq_no;
  block_identifier = attestation.block_id;
  attestation_target_type = attestation.target_type;
}

pub record AggregateFilter : Type 0 where
  pub attestation_type : AttestationTargetType
  pub min_signatures_inclusive : ℕ

pub filter_of_checkpoint : AttestationTargetCheckpoint → AggregateFilter
filter_of_checkpoint checkpoint = record {
  attestation_type = checkpoint.attestation_target_type;
  min_signatures_inclusive = checkpoint.required_attestation_count;
}

pub record CollectedAttestations (Signature : Type 0) : Type 0 where
  pub compacted_unverified_attestations :
      Assoc CompactedMapKey (List (CompactedAttestation Signature))
  pub folded_attestations : Assoc CompactedMapKey (Envelope Signature AttestationData)
  pub cutoff : BlockSeqNo
  pub notifications : ℕ

-- `entry(key).and_modify(.. insert ..).or_insert(..)` on a map of sets, with the value that is left in
-- `is_modified`.
pub record_in {ℓ κ} :
    {K : Type ℓ} {V : Type κ} ⦃e : PartialEq K⦄ ⦃f : PartialEq V⦄
    → K
    → V
    → Assoc K (List V)
    → Assoc K (List V) × Bool
record_in key value m = elim (get key m) [
  | none ↦ (insert key (value ∷ []) m, true)
  | some set ↦
      if contains value set then (m, false) else (insert key (set_insert value set) m, true)
]

-- What `aggregate` reads from the state of a block; the proofs and the set are set by other services.
pub record BlockFacts (Signature PubKey : Type 0) : Type 0 where
  pub block_identifier : BlockIdentifier
  pub block_seq_no : Option BlockSeqNo
  pub parent_block_identifier : Option BlockIdentifier
  pub envelope_hash : Option ℕ
  pub bk_set : Option (BlockKeeperSet PubKey)
  pub primary_finalization_proof : Option (Envelope Signature AttestationData)
  pub prefinalization_proof : Option (Envelope Signature AttestationData)
  pub fallback_finalization_proof : Option (Envelope Signature AttestationData)

-- `counter_overflows` is not an error of the code but its panic.
pub data AggregateError : Type 0 where
  block_seq_no_is_missing parent_block_id_is_missing : AggregateError
  missing_bk_set envelope_hash_is_missing : AggregateError
  counter_overflows : AggregateError

module _ {Signature : Type 0} ⦃eq : PartialEq Signature⦄ where
  pub touch : CollectedAttestations Signature → CollectedAttestations Signature
  touch s = record s { notifications = (s.notifications + 1) % 2 ^ 32 }

  pub record_attestation :
      Envelope Signature AttestationData
      → CollectedAttestations Signature
      → CollectedAttestations Signature × Bool
  unfolding compact record_in
  record_attestation attestation s =
      let (unverified, is_modified) =
        record_in (key_of attestation.signed_data) (compact attestation)
          s.compacted_unverified_attestations in
      (record s { compacted_unverified_attestations = unverified }, is_modified)

  -- `Ok` in every case.
  pub add :
      CollectedAttestations Signature
      → Envelope Signature AttestationData
      → Bool
      → CollectedAttestations Signature × Bool
  unfolding record_attestation
  add s attestation enable_cutoff =
      let (next, is_modified) = record_attestation attestation s in
      if enable_cutoff && leb attestation.signed_data.block_seq_no s.cutoff
      then (s, false)
      else (if is_modified then touch next else next, is_modified)

  pub record_bunch :
      List (Envelope Signature AttestationData)
      → CollectedAttestations Signature
      → CollectedAttestations Signature × Bool
  record_bunch [] s = (s, false)
  record_bunch (attestation ∷ attestations) s =
      let (next, is_modified) = record_attestation attestation s in
      let (last, added_smth) = record_bunch attestations next in (last, is_modified || added_smth)

  pub add_bunch :
      CollectedAttestations Signature
      → List (Envelope Signature AttestationData)
      → Bool
      → CollectedAttestations Signature × Bool
  unfolding record_bunch
  add_bunch s attestations enable_cutoff =
      let kept =
        if enable_cutoff
        then filter (λ e. ltb s.cutoff e.signed_data.block_seq_no) attestations
        else attestations in
      let (next, added_smth) = record_bunch kept s in
      if is_empty kept then (s, false) else (if added_smth then touch next else next, added_smth)

-- `retain` by the key's number.
pub retain_above {ℓ} : {V : Type ℓ} → BlockSeqNo → Assoc CompactedMapKey V → Assoc CompactedMapKey V
retain_above block_seq_no [] = []
retain_above block_seq_no ((k, v) ∷ m) =
    let rest = retain_above block_seq_no m in
    if ltb block_seq_no k.block_seq_no then (k, v) ∷ rest else rest

module _ {Signature : Type 0} where
  pub move_cutoff : CollectedAttestations Signature → BlockSeqNo → CollectedAttestations Signature
  unfolding retain_above
  move_cutoff s block_seq_no = record s {
    cutoff = block_seq_no;
    compacted_unverified_attestations =
        retain_above block_seq_no s.compacted_unverified_attestations;
    folded_attestations = retain_above block_seq_no s.folded_attestations;
  }
