-- ===== src/Checkpoints/Examples.antt =====
use ackinacki.Checkpoints.Fallback.{passed_fallback-update}
use ackinacki.Checkpoints.Passing.{order_decides, entry, passed_primary-update, one_block, Attested}
use ackinacki.Checkpoints.Outcome.{update-failed, update-not_due, update-IsPartition}
use ackinacki.Checkpoints.Tracking.{IsPaired, HasMaps}
use ackinacki.Checkpoints.Completion.{due, overdue, IsPartition}
use ackinacki.Common.Assoc.{remove, insert, get, contains_key}
use ackinacki.Checkpoints.{
  ConstructorResults, keep_fallback, retain_checkpoints, check, note_fallback, note_primary, note,
  note_all, complete, into_builder, update, AttestationCount, AncestorBlocksFinalizationCheckpoints,
  AttestationTargetCheckpoint,
}
use ackinacki.Types.{AttestationTargetType}
use ackinacki.Common.{refl, nat_eq, All, ◌<◌, contains, arith, ◌≡◌, ℕ, List, some, ◌∷◌, []}

-- Runs of node/src/node/block_state/attestation_target_checkpoints.rs at concrete inputs.

abbrev primary_at : ℕ → ℕ → ℕ → AttestationTargetCheckpoint
primary_at distance deadline count = record {
  current_distance = distance;
  deadline = deadline;
  required_attestation_count = count;
  attestation_target_type = AttestationTargetType.primary;
}

abbrev fallback_at : ℕ → ℕ → ℕ → AttestationTargetCheckpoint
fallback_at distance deadline count = record {
  current_distance = distance;
  deadline = deadline;
  required_attestation_count = count;
  attestation_target_type = AttestationTargetType.fallback;
}

-- Block 7 has its primary checkpoint open and two fallback checkpoints; block 8 is one step from its
-- deadline.
abbrev seven : AncestorBlocksFinalizationCheckpoints
seven = record {
  primary = (7, primary_at 1 3 2) ∷ (8, primary_at 3 3 2) ∷ [];
  fallback = (7, primary_at 1 3 1 ∷ fallback_at 1 6 1 ∷ []) ∷ (8, fallback_at 3 6 1 ∷ []) ∷ [];
}

abbrev two_signed : AttestationCount
two_signed = ((7, AttestationTargetType.primary), 2) ∷ []

abbrev fallback_signed : AttestationCount
fallback_signed =
    ((8, AttestationTargetType.fallback), 1) ∷ ((7, AttestationTargetType.fallback), 1) ∷ []

seven-HasMaps : HasMaps seven
unfolding contains_key
seven-HasMaps = record { primary = (refl, (refl, tt)); fallback = (refl, (refl, tt)) }

update-IsPartition_example : IsPartition seven (update (into_builder seven) two_signed) 8
update-IsPartition_example = update-IsPartition seven two_signed 8 seven-HasMaps

update-not_due_example :
    ((p : AttestationTargetCheckpoint)
      → get 7 (update (into_builder seven) []).remaining_checkpoints.primary ≡ some p
      → p.current_distance < p.deadline)
    × ((cs : List AttestationTargetCheckpoint)
        → get 7 (update (into_builder seven) []).remaining_checkpoints.fallback ≡ some cs
        → All (λ c. c.current_distance < c.deadline) cs)
update-not_due_example = update-not_due seven [] 7 seven-HasMaps

update-failed_example :
    (contains 8 (update (into_builder seven) []).failed
      ≡ overdue (get 8 (note_all (into_builder seven) []).inherited_checkpoints.fallback))
    × (contains 8 (update (into_builder seven) []).transitioned_to_fallback
        ≡ due (get 8 (note_all (into_builder seven) []).inherited_checkpoints.primary))
    × IsPaired (update (into_builder seven) []).remaining_checkpoints 8
unfolding contains_key
update-failed_example = update-failed seven [] 8 seven-HasMaps (λ h. refl)

passed_primary-update_example :
    (p : AttestationTargetCheckpoint) × (get 7 seven.primary ≡ some p) × Attested p 7 two_signed
unfolding update complete into_builder note_all note note_primary note_fallback check get remove
passed_primary-update_example = passed_primary-update seven two_signed 7 refl

passed_fallback-update_example :
    (cs : List AttestationTargetCheckpoint) × (get 8 seven.fallback ≡ some cs)
    × All (λ p. Attested p 8 fallback_signed) cs
unfolding update complete into_builder note_all note note_primary note_fallback check get
    retain_checkpoints keep_fallback insert remove
passed_fallback-update_example = passed_fallback-update seven fallback_signed 8 refl

abbrev primary_first : ConstructorResults
primary_first =
    update (into_builder (one_block 8 (primary_at 2 3 2) (fallback_at 2 6 1)))
      (entry 8 AttestationTargetType.primary 2 ∷ entry 8 AttestationTargetType.fallback 1 ∷ [])

abbrev fallback_first : ConstructorResults
fallback_first =
    update (into_builder (one_block 8 (primary_at 2 3 2) (fallback_at 2 6 1)))
      (entry 8 AttestationTargetType.fallback 1 ∷ entry 8 AttestationTargetType.primary 2 ∷ [])

order_decides_example :
    (primary_first.passed_primary ≡ 8 ∷ [])
    × (primary_first.passed_fallback ≡ [])
    × (fallback_first.passed_primary ≡ [])
    × (fallback_first.passed_fallback ≡ 8 ∷ [])
order_decides_example =
    order_decides 8 (primary_at 2 3 2) (fallback_at 2 6 1) 2 1 refl refl (omega arith) (omega arith)
      (omega arith) (omega arith)
