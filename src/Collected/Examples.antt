-- ===== src/Collected/Examples.antt =====
-- Attestations of node/src/types/attestation/mod.rs at concrete inputs.
use ackinacki.Collected.Arrivals.{add-is_collected, is_same, is_cut_off, is_collected}
use ackinacki.Collected.{AttestationData, add, CollectedAttestations}
use ackinacki.Envelope.{Envelope}
use ackinacki.Common.{◌&&◌, not, ◌||◌, ◌≡◌, ℕ, false, true, ◌∷◌, [], nat_eq}
use ackinacki.Types.{AttestationTargetType, target_eq}

abbrev vote : ℕ → ℕ → Envelope ℕ AttestationData
vote block_seq_no signature = record {
  aggregated_signature = signature;
  signature_occurrences = (2, 1) ∷ (1, 1) ∷ [];
  signed_data = record {
    parent_block_id = 6;
    block_id = 7;
    block_seq_no = block_seq_no;
    envelope_hash = 99;
    target_type = AttestationTargetType.primary;
  };
}

abbrev nothing_yet : CollectedAttestations ℕ
nothing_yet = record {
  compacted_unverified_attestations = [];
  folded_attestations = [];
  cutoff = 4;
  notifications = 0;
}

add-is_collected_example :
    let (next, added) = add nothing_yet (vote 5 30) true in
    (is_collected (vote 5 31) next ≡ (
      is_collected (vote 5 31) nothing_yet
      || (not (is_cut_off nothing_yet true (vote 5 30)) && is_same (vote 5 30) (vote 5 31))))
    × (added ≡ (
        not (is_cut_off nothing_yet true (vote 5 30))
        && not (is_collected (vote 5 30) nothing_yet)))
    × (add next (vote 5 30) true ≡ (next, false))
add-is_collected_example = add-is_collected (vote 5 30) (vote 5 31) nothing_yet true
