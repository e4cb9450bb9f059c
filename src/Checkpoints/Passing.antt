-- ===== src/Checkpoints/Passing.antt =====
-- Why a block passes: what the attestations read must have shown.
use ackinacki.Common.Assoc.{insert, remove, get-remove, get}
use ackinacki.Types.{target_eq, target_beq_iff, AttestationTargetType, BlockIdentifier}
use ackinacki.Common.{
  Option-cases, some, none, true, false, ◌∷◌, contains-append, ◌&&◌, nat_eq, ◌==◌, none, ◌||◌,
  contains, arith, ◌⊎◌, false, ◌∷◌, ◌≤◌, Bool, true, Option, ℕ, ◌≡◌, [], inl, inr,
}
use ackinacki.Checkpoints.{
  AncestorBlocksFinalizationCheckpoints, into_builder, complete, retain_checkpoints, update,
  note_all, note_fallback, note_primary, note, is_passed, AttestationCount, check,
  AttestationTargetCheckpoint, Constructor,
}

-- An attestation in the table is for the block, in time, of the checkpoint's type and by enough
-- signers.
abbrev pub Attested : AttestationTargetCheckpoint → BlockIdentifier → AttestationCount → Type 0
Attested p b [] = ⊥
Attested p b (((a, t), n) ∷ m) =
    ((a ≡ b)
      × (p.current_distance ≤ p.deadline)
      × (p.attestation_target_type ≡ t)
      × (p.required_attestation_count ≤ n))
    ⊎ Attested p b m

pub check_passed :
    (p : AttestationTargetCheckpoint) (t : AttestationTargetType) (n : ℕ)
    → is_passed (check p t n) ≡ true
    → (p.current_distance ≤ p.deadline)
      × (p.attestation_target_type ≡ t)
      × (p.required_attestation_count ≤ n)
unfolding check
check_passed p t n h = ground (arith, target_beq_iff p.attestation_target_type t)

module _ (c : Constructor) (a b : BlockIdentifier) (t : AttestationTargetType) (n : ℕ) where
  abbrev passes_now : Option AttestationTargetCheckpoint → Bool
  passes_now none = false
  passes_now (some p) = is_passed (check p t n)

  passed_primary-note_primary : contains b (note_primary c a t n).passed_primary ≡ (
      contains b c.passed_primary || (a == b && passes_now (get b c.inherited_checkpoints.primary)))
  unfolding note_primary
  passed_primary-note_primary = ground (arith, contains-append b c.passed_primary (a ∷ []))

  passed_primary-note_fallback : (note_fallback c a t n).passed_primary ≡ c.passed_primary
  unfolding note_fallback
  passed_primary-note_fallback = ground arith

  get_primary-note_primary :
      (get b (note_primary c a t n).inherited_checkpoints.primary
        ≡ get b c.inherited_checkpoints.primary)
      ⊎ (get b (note_primary c a t n).inherited_checkpoints.primary ≡ none)
  unfolding note_primary
  get_primary-note_primary = ground (arith, get-remove a b c.inherited_checkpoints.primary)

  get_primary-note_fallback :
      (get b (note_fallback c a t n).inherited_checkpoints.primary
        ≡ get b c.inherited_checkpoints.primary)
      ⊎ (get b (note_fallback c a t n).inherited_checkpoints.primary ≡ none)
  unfolding note_fallback
  get_primary-note_fallback = ground (arith, get-remove a b c.inherited_checkpoints.primary)

-- A block that is found to pass by its primary target, and had not passed before, had a primary
-- checkpoint, and among the attestations one meets it.
abbrev PrimaryReason : Constructor → AttestationCount → BlockIdentifier → Type 0
PrimaryReason c m b =
    (contains b c.passed_primary ≡ true)
    ⊎ (p : AttestationTargetCheckpoint) × (get b c.inherited_checkpoints.primary ≡ some p)
      × Attested p b m

module _ (c : Constructor) (a b : BlockIdentifier) (t : AttestationTargetType) (n : ℕ)
    (m : AttestationCount) where
  reason_now :
      (contains b c.passed_primary
          || (a == b && passes_now c a b t n (get b c.inherited_checkpoints.primary)))
        ≡ true
      → PrimaryReason c (((a, t), n) ∷ m) b
  reason_now h = elim (Option-cases (get b c.inherited_checkpoints.primary)) [
    | inl e ↦ inl (ground arith)
    | inr (p, e) ↦ ground (arith, check_passed p t n)
  ]

  reason_step : PrimaryReason (note c a t n) m b → PrimaryReason c (((a, t), n) ∷ m) b
  unfolding note
  reason_step (inl h) = reason_now (
      ground (
        arith,
        passed_primary-note_primary c a b t n,
        passed_primary-note_fallback (note_primary c a t n) a b t n,
      ))
  reason_step (inr (p, e, h)) = inr (
    p,
    ground (
      arith,
      get_primary-note_primary c a b t n,
      get_primary-note_fallback (note_primary c a t n) a b t n,
    ),
    inr h,
  )

passed_primary-note_all :
    (c : Constructor) (m : AttestationCount) (b : BlockIdentifier)
    → contains b (note_all c m).passed_primary ≡ true
    → PrimaryReason c m b
unfolding note_all
passed_primary-note_all c [] b h = inl h
passed_primary-note_all c (((a, t), n) ∷ m) b h =
    reason_step c a b t n m (passed_primary-note_all (note c a t n) m b h)

-- A block that an `update` of fresh bookkeeping finds to pass by its primary target had a primary
-- checkpoint, and among the attestations is one for the block, of the checkpoint's type, within its
-- deadline and by at least the required number of signers.
pub passed_primary-update :
    (m : AncestorBlocksFinalizationCheckpoints) (counts : AttestationCount) (b : BlockIdentifier)
    → contains b (update (into_builder m) counts).passed_primary ≡ true
    → (p : AttestationTargetCheckpoint) × (get b m.primary ≡ some p) × Attested p b counts
unfolding update complete into_builder
passed_primary-update m counts b h = elim (passed_primary-note_all (into_builder m) counts b h) [
  | inl absurd_pass ↦ cc
  | inr reason ↦ reason
]

-- One block with a primary checkpoint and one fallback checkpoint of the fallback type.
abbrev pub one_block :
    BlockIdentifier
    → AttestationTargetCheckpoint
    → AttestationTargetCheckpoint
    → AncestorBlocksFinalizationCheckpoints
one_block b p f = record { primary = (b, p) ∷ []; fallback = (b, f ∷ []) ∷ [] }

abbrev pub entry :
    BlockIdentifier → AttestationTargetType → ℕ → (BlockIdentifier × AttestationTargetType) × ℕ
entry b t n = ((b, t), n)

-- Let one block be all that is unfinalized, with its primary checkpoint and, of its fallback checkpoints,
-- only that of the fallback type. When both its targets are attested at once, neither past its deadline
-- and each by enough signers, the order in which the map of attestations is read decides by which target
-- it passes.
pub order_decides :
    (b : BlockIdentifier) (p f : AttestationTargetCheckpoint) (np nf : ℕ)
    → p.attestation_target_type ≡ AttestationTargetType.primary
    → f.attestation_target_type ≡ AttestationTargetType.fallback
    → p.current_distance ≤ p.deadline
    → f.current_distance ≤ f.deadline
    → p.required_attestation_count ≤ np
    → f.required_attestation_count ≤ nf
    → let primary_entry = entry b AttestationTargetType.primary np in
      let fallback_entry = entry b AttestationTargetType.fallback nf in
      let first = update (into_builder (one_block b p f)) (primary_entry ∷ fallback_entry ∷ []) in
      let second = update (into_builder (one_block b p f)) (fallback_entry ∷ primary_entry ∷ []) in
      (first.passed_primary ≡ b ∷ [])
      × (first.passed_fallback ≡ [])
      × (second.passed_primary ≡ [])
      × (second.passed_fallback ≡ b ∷ [])
unfolding update complete into_builder note_all note note_primary note_fallback retain_checkpoints
    get remove insert
order_decides b p f np nf tp tf dp df rp rf = ground arith
