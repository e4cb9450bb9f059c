-- ===== src/Collected/Aggregate.antt =====
use mathlib.Core.Option
-- `aggregate` of node/src/types/attestation/mod.rs.
pub mod Enough
mod Examples
pub mod Round
use ackinacki.BlockState.{or_empty}
use ackinacki.Fold.{try_fold}
use ackinacki.Common.Assoc.{keys, insert, get}
use ackinacki.BlockKeepers.{contains_signer, BlockKeeperSet}
use ackinacki.Types.{SignerIndex, primary, BlockSeqNo, AttestationTargetType, BlockIdentifier}
use ackinacki.Envelope.{SignatureOccurrences, signatures_count, BlsSignatureScheme, Envelope}
use ackinacki.Collected.{
  key_eq, envelope_hash_is_missing, missing_bk_set, counter_overflows, parent_block_id_is_missing,
  block_seq_no_is_missing, AggregateError, CompactedMapKey, CollectedAttestations,
  CompactedAttestation, AggregateFilter, AttestationData, BlockFacts,
}
use ackinacki.Common.{
  inr, inl, Bool-cases, Option-cases, ◌∙◌, ap, sym, refl, nat_eq, ◌++◌, extend, length, all, ◌&&◌,
  ok_or, ◌==◌, ◌>>=◌, leb, ok, if◌then◌else◌, or_else, err, PartialEq, Result, suc, zero, arith,
  ◌≡◌, ℕ, Option, List, Bool, false, true, some, none, ◌∷◌, [],
}

module _ {Signature : Type 0} where
  -- An envelope with enough signatures.
  pub when_enough :
      ℕ → Option (Envelope Signature AttestationData) → Option (Envelope Signature AttestationData)
  when_enough minimum none = none
  when_enough minimum (some e) = if leb minimum (signatures_count e) then some e else none

  -- The new envelope is kept even if it has too few signatures.
  pub keep_fold :
      CollectedAttestations Signature
      → CompactedMapKey
      → ℕ
      → Option (Envelope Signature AttestationData)
      → CollectedAttestations Signature × Option (Envelope Signature AttestationData)
  unfolding when_enough
  keep_fold s key minimum none = (s, none)
  keep_fold s key minimum (some new_fold) = (
    record s { folded_attestations = insert key new_fold s.folded_attestations },
    when_enough minimum (some new_fold),
  )

module _ {Signature PubKey : Type 0} where
  -- The proof that the block's state holds already.
  pub stored_in_state :
      BlockFacts Signature PubKey
      → AttestationTargetType
      → Option (Envelope Signature AttestationData)
  stored_in_state b AttestationTargetType.primary =
      or_else b.primary_finalization_proof b.prefinalization_proof
  stored_in_state b AttestationTargetType.fallback = b.fallback_finalization_proof

  -- The loop over the unverified attestations: the signers, and the signatures to combine.
  pub combine :
      BlockIdentifier
      → ℕ
      → BlockKeeperSet PubKey
      → List (CompactedAttestation Signature)
      → List SignerIndex
      → List (SignatureOccurrences × Signature)
      → List SignerIndex × List (SignatureOccurrences × Signature)
  combine parent hash bk_set [] combined_signers to_combine = (combined_signers, to_combine)
  combine parent hash bk_set (attestation ∷ rest) combined_signers to_combine =
      let is_of_block =
        attestation.parent_block_id == parent && attestation.envelope_hash == hash in
      let is_known =
        all (λ entry. contains_signer bk_set entry.0) attestation.signature_occurrences in
      let signers = extend combined_signers (keys attestation.signature_occurrences) in
      let pair : SignatureOccurrences × Signature =
        (attestation.signature_occurrences, attestation.aggregated_signature) in
      let skipped = combine parent hash bk_set rest combined_signers to_combine in
      let taken = combine parent hash bk_set rest signers (to_combine ++ (pair ∷ [])) in
      if is_of_block && is_known then taken else skipped

  pub key_for : BlockFacts Signature PubKey → AggregateFilter → BlockSeqNo → CompactedMapKey
  key_for b f block_seq_no = record {
    block_seq_no = block_seq_no;
    block_identifier = b.block_identifier;
    attestation_target_type = f.attestation_type;
  }

-- `result.push`, of what is found before the rest.
abbrev pub put_before {ℓ κ} :
    {E : Type ℓ} {A : Type κ} → Option A → Result E (List A) → Result E (List A)
put_before found (err e) = err e
put_before none (ok rest) = ok rest
put_before (some x) (ok rest) = ok (x ∷ rest)

module _ {Signature PubKey Secret : Type 0}
    (bls : BlsSignatureScheme Signature PubKey Secret AttestationData) where
  -- From the fold on; `none` is the panic of a counter that overflows.
  pub fold_and_keep :
      CollectedAttestations Signature
      → CompactedMapKey
      → AttestationData
      → BlockKeeperSet PubKey
      → List (SignatureOccurrences × Signature)
      → ℕ
      → Option (CollectedAttestations Signature × Option (Envelope Signature AttestationData))
  unfolding keep_fold
  fold_and_keep s key attestation_data bk_set to_combine minimum =
      Option.map (λ result. keep_fold s key minimum result.folded)
        (try_fold bls attestation_data to_combine bk_set.signer_to_pubkey)

  -- The signers of the folded envelope and of the unverified attestations, and the signatures of both.
  pub gather :
      CollectedAttestations Signature
      → CompactedMapKey
      → BlockIdentifier
      → BlockKeeperSet PubKey
      → ℕ
      → List SignerIndex × List (SignatureOccurrences × Signature)
  gather s key parent bk_set hash =
      let folded = get key s.folded_attestations in
      combine parent hash bk_set (or_empty (get key s.compacted_unverified_attestations))
        (elim folded [ none ↦ [] | some e ↦ keys e.signature_occurrences ])
        (elim folded [
          | none ↦ []
          | some e ↦ (e.signature_occurrences, e.aggregated_signature) ∷ []
        ])

  pub combine_folded :
      CollectedAttestations Signature
      → BlockFacts Signature PubKey
      → AggregateFilter
      → CompactedMapKey
      → BlockIdentifier
      → BlockKeeperSet PubKey
      → ℕ
      → Option (CollectedAttestations Signature × Option (Envelope Signature AttestationData))
  combine_folded s b f key parent bk_set hash =
      let (combined_signers, to_combine) = gather s key parent bk_set hash in
      let attestation_data : AttestationData = record {
        block_id = b.block_identifier;
        block_seq_no = key.block_seq_no;
        parent_block_id = parent;
        envelope_hash = hash;
        target_type = f.attestation_type;
      } in
      if leb f.min_signatures_inclusive (length combined_signers)
      then fold_and_keep s key attestation_data bk_set to_combine f.min_signatures_inclusive
      else some (s, none)

  -- A round of the loop; `none` in the result is the action `Skip`, the only one there is.
  pub aggregate_one :
      CollectedAttestations Signature
      → BlockFacts Signature PubKey
      → AggregateFilter
      → Result AggregateError
          (CollectedAttestations Signature × Option (Envelope Signature AttestationData))
  aggregate_one s b f =
      elim (when_enough f.min_signatures_inclusive (stored_in_state b f.attestation_type)) [
        | some stored ↦ ok (s, some stored)
        | none ↦ do
          block_seq_no ← ok_or b.block_seq_no block_seq_no_is_missing
          parent ← ok_or b.parent_block_identifier parent_block_id_is_missing
          elim (when_enough f.min_signatures_inclusive
              (get (key_for b f block_seq_no) s.folded_attestations)) [
                | some folded ↦ ok (s, some folded)
                | none ↦ do
                  bk_set ← ok_or b.bk_set missing_bk_set
                  hash ← ok_or b.envelope_hash envelope_hash_is_missing
                  ok_or (combine_folded s b f (key_for b f block_seq_no) parent bk_set hash)
                      counter_overflows
              ]
      ]

  -- The loop. An error ends it, and what the rounds before have folded is kept.
  pub aggregate :
      CollectedAttestations Signature
      → List (BlockFacts Signature PubKey × AggregateFilter)
      → CollectedAttestations Signature
        × Result AggregateError (List (Envelope Signature AttestationData))
  aggregate s [] = (s, ok [])
  aggregate s ((b, f) ∷ required) = elim (aggregate_one s b f) [
    | err e ↦ (s, err e)
    | ok (next, found) ↦ let (last, rest) = aggregate next required in (last, put_before found rest)
  ]
