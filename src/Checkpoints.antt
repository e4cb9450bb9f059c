-- ===== src/Checkpoints.antt =====
-- node/src/node/block_state/attestation_target_checkpoints.rs: the checkpoints at which an
-- unfinalized ancestor must have collected its attestations, and how a block advances them.
mod Examples
pub mod Fallback
pub mod Outcome
pub mod Passing
pub mod Tracking
pub mod Completion
use ackinacki.Common.{
  inr, inl, Bool-cases, Option-cases, ◌∙◌, ap, sym, refl, suc, zero, arith, ◌≡◌, Option, nat_eq, ℕ,
  ◌+◌, Bool, true, false, ◌&&◌, none, some, List, [], ◌∷◌, ◌++◌, ltb, leb, ◌==◌, if◌then◌else◌, any,
  set_insert,
}
use ackinacki.Common.Assoc.{Assoc, get, contains_key, insert, remove}
use ackinacki.Types.{BlockIdentifier, AttestationTargetType, primary, target_eq}

pub record AttestationTargetCheckpoint : Type 0 where
  pub current_distance : ℕ
  pub deadline : ℕ
  pub required_attestation_count : ℕ
  pub attestation_target_type : AttestationTargetType

pub data CheckResult : Type 0 where
  checkpoint_failed checkpoint_passed no_action : CheckResult

pub record AncestorBlocksFinalizationCheckpoints : Type 0 where
  pub primary : Assoc BlockIdentifier AttestationTargetCheckpoint
  pub fallback : Assoc BlockIdentifier (List AttestationTargetCheckpoint)

pub record Constructor : Type 0 where
  pub inherited_checkpoints : AncestorBlocksFinalizationCheckpoints
  pub passed_primary : List BlockIdentifier
  pub passed_fallback : List BlockIdentifier
  pub passed_fallback_preattestation_checkpoint : List BlockIdentifier

pub record ConstructorResults : Type 0 where
  pub remaining_checkpoints : AncestorBlocksFinalizationCheckpoints
  pub passed_primary : List BlockIdentifier
  pub passed_fallback : List BlockIdentifier
  pub passed_fallback_preattestation_checkpoint : List BlockIdentifier
  pub transitioned_to_fallback : List BlockIdentifier
  pub failed : List BlockIdentifier

-- The counter is a `usize` that counts ancestors; it is not near its bound.
unfoldable pub inherit_checkpoint : AttestationTargetCheckpoint → AttestationTargetCheckpoint
inherit_checkpoint checkpoint = record checkpoint {
  current_distance = checkpoint.current_distance + 1;
}

pub into_builder : AncestorBlocksFinalizationCheckpoints → Constructor
into_builder checkpoints = record {
  inherited_checkpoints = checkpoints;
  passed_primary = [];
  passed_fallback = [];
  passed_fallback_preattestation_checkpoint = [];
}

pub check : AttestationTargetCheckpoint → AttestationTargetType → ℕ → CheckResult
check c attestation_target_type verified_signatures_count =
    if ltb c.deadline c.current_distance
    then checkpoint_failed
    else if c.attestation_target_type == attestation_target_type
    then (if leb c.required_attestation_count verified_signatures_count
        then checkpoint_passed
        else no_action)
    else no_action

abbrev pub is_passed : CheckResult → Bool
is_passed checkpoint_passed = true
is_passed checkpoint_failed = false
is_passed no_action = false

-- The first half of `note`.
pub note_primary : Constructor → BlockIdentifier → AttestationTargetType → ℕ → Constructor
unfolding check
note_primary c attested_block target_type count =
    elim (get attested_block c.inherited_checkpoints.primary) [
      | none ↦ c
      | some checkpoint ↦
          if is_passed (check checkpoint target_type count)
          then record c {
            inherited_checkpoints = record {
              primary = remove attested_block c.inherited_checkpoints.primary;
              fallback = remove attested_block c.inherited_checkpoints.fallback;
            };
            passed_primary = c.passed_primary ++ (attested_block ∷ []);
          }
          else c
    ]

-- `retain`, with the list to which its closure pushes.
pub retain_checkpoints :
    BlockIdentifier
    → AttestationTargetType
    → ℕ
    → List AttestationTargetCheckpoint
    → List BlockIdentifier
    → List AttestationTargetCheckpoint × List BlockIdentifier
unfolding check
retain_checkpoints b target_type count [] preattested = ([], preattested)
retain_checkpoints b target_type count (c ∷ cs) preattested =
    let passed = is_passed (check c target_type count) in
    let pushed =
      if passed && target_type == primary then preattested ++ (b ∷ []) else preattested in
    let rest = retain_checkpoints b target_type count cs pushed in
    if passed then rest else (c ∷ rest.0, rest.1)

abbrev pub is_empty {ℓ} : {A : Type ℓ} → List A → Bool
is_empty [] = true
is_empty (x ∷ xs) = false

-- A block with no checkpoint retained has passed; the others wait for the rest.
pub keep_fallback :
    Constructor
    → BlockIdentifier
    → List AttestationTargetCheckpoint
    → List BlockIdentifier
    → Constructor
keep_fallback c attested_block retained preattested =
    if is_empty retained
    then record c {
      inherited_checkpoints = record {
        primary = remove attested_block c.inherited_checkpoints.primary;
        fallback = remove attested_block c.inherited_checkpoints.fallback;
      };
      passed_fallback = c.passed_fallback ++ (attested_block ∷ []);
      passed_fallback_preattestation_checkpoint = preattested;
    }
    else record c {
      inherited_checkpoints = record {
        primary = c.inherited_checkpoints.primary;
        fallback = insert attested_block retained c.inherited_checkpoints.fallback;
      };
      passed_fallback_preattestation_checkpoint = preattested;
    }

-- The second half of `note`.
pub note_fallback : Constructor → BlockIdentifier → AttestationTargetType → ℕ → Constructor
unfolding keep_fallback
note_fallback c attested_block target_type count =
    elim (get attested_block c.inherited_checkpoints.fallback) [
      | none ↦ c
      | some checkpoints ↦
          let (retained, preattested) =
            retain_checkpoints attested_block target_type count checkpoints
              c.passed_fallback_preattestation_checkpoint in
          keep_fallback c attested_block retained preattested
    ]

pub note : Constructor → BlockIdentifier → AttestationTargetType → ℕ → Constructor
note c attested_block target_type count =
    note_fallback (note_primary c attested_block target_type count) attested_block target_type count

-- A map from an attested block and a target type to the number of verified signatures.
abbrev pub AttestationCount : Type 0
AttestationCount = Assoc (BlockIdentifier × AttestationTargetType) ℕ

-- The loop of `update`.
pub note_all : Constructor → AttestationCount → Constructor
note_all c [] = c
note_all c (((b, target_type), count) ∷ rest) = note_all (note c b target_type count) rest

pub is_due : AttestationTargetCheckpoint → Bool
is_due c = leb c.deadline c.current_distance

-- The scan of the primary checkpoints in `complete`: those that failed, and the set of those that
-- go on by their fallback.
pub scan_primary :
    Assoc BlockIdentifier (List AttestationTargetCheckpoint)
    → Assoc BlockIdentifier AttestationTargetCheckpoint
    → List BlockIdentifier × List BlockIdentifier
unfolding is_due
scan_primary fallbacks [] = ([], [])
scan_primary fallbacks ((b, checkpoint) ∷ rest) =
    let (failed, transitioned) = scan_primary fallbacks rest in
    if is_due checkpoint
    then (if contains_key b fallbacks
        then (failed, set_insert b transitioned)
        else (b ∷ failed, transitioned))
    else (failed, transitioned)

pub scan_fallback : Assoc BlockIdentifier (List AttestationTargetCheckpoint) → List BlockIdentifier
unfolding is_due
scan_fallback [] = []
scan_fallback ((b, checkpoints) ∷ rest) =
    let failed = scan_fallback rest in if any is_due checkpoints then b ∷ failed else failed

-- `for block_id in ids { map.remove(block_id) }`
pub remove_all {ℓ} :
    {V : Type ℓ} → List BlockIdentifier → Assoc BlockIdentifier V → Assoc BlockIdentifier V
remove_all [] m = m
remove_all (b ∷ bs) m = remove_all bs (remove b m)

-- `HashSet::from_iter`
pub to_set : List BlockIdentifier → List BlockIdentifier
to_set [] = []
to_set (b ∷ bs) = set_insert b (to_set bs)

pub complete : Constructor → ConstructorResults
complete c =
    let (failed_primary, transitioned) =
      scan_primary c.inherited_checkpoints.fallback c.inherited_checkpoints.primary in
    let fallbacks = c.inherited_checkpoints.fallback in
    let primaries = remove_all transitioned c.inherited_checkpoints.primary in
    let failed = to_set (failed_primary ++ scan_fallback fallbacks) in
    record {
      remaining_checkpoints = record {
        primary = remove_all failed primaries;
        fallback = remove_all failed fallbacks;
      };
      passed_primary = c.passed_primary;
      passed_fallback = c.passed_fallback;
      passed_fallback_preattestation_checkpoint = c.passed_fallback_preattestation_checkpoint;
      transitioned_to_fallback = transitioned;
      failed = failed;
    }

pub update : Constructor → AttestationCount → ConstructorResults
update c attestation_count = complete (note_all c attestation_count)
