-- ===== src/Collected/Aggregate/Examples.antt =====
-- `aggregate` of node/src/types/attestation/mod.rs at concrete inputs.
use ackinacki.BlockKeepers.{new_bk_set, insert_keeper, active, BlockKeeperSet, BlockKeeperData}
use ackinacki.Envelope.Examples.{sum_of_keys}
use ackinacki.Collected.Aggregate.Enough.{aggregate-Answers, Answers}
use ackinacki.Collected.Aggregate.{aggregate}
use ackinacki.Common.Assoc.{get}
use ackinacki.Collected.Aggregate.Round.{IsFiled}
use ackinacki.Collected.{
  compact, AggregateFilter, key_of, AttestationData, BlockFacts, CollectedAttestations,
}
use ackinacki.Envelope.{BlsSignatureScheme, Envelope}
use ackinacki.Common.{◌+◌, ok, ◌==◌, ◌≡◌, ℕ, List, some, none, ◌∷◌, [], nat_eq}
use ackinacki.Types.{AttestationTargetType, target_eq}

abbrev vote : ℕ → Envelope ℕ AttestationData
vote signature = record {
  aggregated_signature = signature;
  signature_occurrences = (2, 1) ∷ (1, 1) ∷ [];
  signed_data = record {
    parent_block_id = 6;
    block_id = 7;
    block_seq_no = 5;
    envelope_hash = 99;
    target_type = AttestationTargetType.primary;
  };
}

abbrev scheme : BlsSignatureScheme ℕ ℕ ℕ AttestationData
scheme = record {
  sign = λ secret signed. some secret;
  verify = λ signature keys signed. some (signature == sum_of_keys keys);
  merge = λ a b. some (a + b);
  merge_all = λ signatures. elim signatures [ [] ↦ none | x ∷ xs ↦ some x ];
}

abbrev collected : CollectedAttestations ℕ
collected = record {
  compacted_unverified_attestations = (key_of (vote 30).signed_data, compact (vote 30) ∷ []) ∷ [];
  folded_attestations = [];
  cutoff = 4;
  notifications = 0;
}

collected-IsFiled : IsFiled collected
unfolding IsFiled get
collected-IsFiled k e h = cc

abbrev keeper : ℕ → BlockKeeperData ℕ
keeper key = record {
  pubkey = key;
  epoch_finish_seq_no = none;
  status = active;
  address = 0;
  stake = 100;
  owner_address = key;
  signer_index = 0;
  owner_pubkey = key;
}

abbrev keepers : BlockKeeperSet ℕ
keepers = insert_keeper (insert_keeper new_bk_set 1 (keeper 10)) 2 (keeper 20)

abbrev block_seven : BlockFacts ℕ ℕ
block_seven = record {
  block_identifier = 7;
  block_seq_no = some 5;
  parent_block_identifier = some 6;
  envelope_hash = some 99;
  bk_set = some keepers;
  primary_finalization_proof = none;
  prefinalization_proof = none;
  fallback_finalization_proof = none;
}

abbrev requests : List (BlockFacts ℕ ℕ × AggregateFilter)
requests =
    (
      block_seven,
      record { attestation_type = AttestationTargetType.primary; min_signatures_inclusive = 2 },
    )
    ∷ []

aggregate-Answers_example :
    IsFiled (aggregate scheme collected requests).0
    × ((result : List (Envelope ℕ AttestationData))
        → (aggregate scheme collected requests).1 ≡ ok result
        → Answers requests result)
aggregate-Answers_example = aggregate-Answers scheme collected requests collected-IsFiled
