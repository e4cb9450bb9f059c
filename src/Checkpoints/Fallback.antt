-- ===== src/Checkpoints/Fallback.antt =====
-- Why a block passes by its fallback target: what the attestations read must have shown, in
-- node/src/node/block_state/attestation_target_checkpoints.rs.
use ackinacki.Checkpoints.Passing.{check_passed, Attested}
use ackinacki.Common.Assoc.{get-insert, get-remove, get}
use ackinacki.Types.{target_eq, AttestationTargetType, BlockIdentifier}
use ackinacki.Common.{
  ==_cases, subst, Bool-cases, ◌++◌, if◌then◌else◌, All, List, Option-cases, some, none, true,
  false, ◌∷◌, contains-append, ◌&&◌, nat_eq, ◌==◌, none, ◌||◌, contains, arith, ◌⊎◌, false, ◌∷◌,
  true, ℕ, ◌≡◌, [], inl, inr,
}
use ackinacki.Checkpoints.{
  keep_fallback, AncestorBlocksFinalizationCheckpoints, into_builder, is_empty, complete,
  retain_checkpoints, update, note_all, note_fallback, note_primary, note, is_passed,
  AttestationCount, check, AttestationTargetCheckpoint, Constructor,
}

-- What `retain` drops has been attested.
module _ (b : BlockIdentifier) (t : AttestationTargetType) (n : ℕ) (m : AttestationCount) where
  retain-Attested :
      (cs : List AttestationTargetCheckpoint) (pre : List BlockIdentifier)
      → All (λ p. Attested p b m) (retain_checkpoints b t n cs pre).0
      → All (λ p. Attested p b (((b, t), n) ∷ m)) cs
  unfolding retain_checkpoints
  retain-Attested [] pre h = tt
  retain-Attested (p ∷ cs) pre h = ground (
    arith,
    check_passed p t n,
    retain-Attested cs (
        if is_passed (check p t n) && t == AttestationTargetType.primary
        then pre ++ (b ∷ [])
        else pre),
  )

  retain_empty-Attested :
      (cs : List AttestationTargetCheckpoint) (pre : List BlockIdentifier)
      → is_empty (retain_checkpoints b t n cs pre).0 ≡ true
      → All (λ p. Attested p b (((b, t), n) ∷ m)) cs
  retain_empty-Attested cs pre h = retain-Attested cs pre (go _ h)
    where
      go : (r : List AttestationTargetCheckpoint) → is_empty r ≡ true → All (λ p. Attested p b m) r
      go [] e = tt
      go (x ∷ r) e = cc

abbrev FallbackReason : Constructor → AttestationCount → BlockIdentifier → Type 0
FallbackReason c m b =
    (contains b c.passed_fallback ≡ true)
    ⊎ (cs : List AttestationTargetCheckpoint) × (get b c.inherited_checkpoints.fallback ≡ some cs)
      × All (λ p. Attested p b m) cs

module _ (c : Constructor) (a b : BlockIdentifier) (t : AttestationTargetType) (n : ℕ)
    (m : AttestationCount) where
  FallbackReason-note_primary : FallbackReason (note_primary c a t n) m b → FallbackReason c m b
  unfolding note_primary
  FallbackReason-note_primary (inl h) = inl (ground arith)
  FallbackReason-note_primary (inr (cs, e, h)) =
      inr (cs, ground (arith, get-remove a b c.inherited_checkpoints.fallback), h)

  All-later :
      (cs : List AttestationTargetCheckpoint)
      → All (λ p. Attested p b m) cs
      → All (λ p. Attested p b (((a, t), n) ∷ m)) cs
  All-later [] h = tt
  All-later (p ∷ cs) h = (inr h.0, All-later cs h.1)

  get_fallback-keep_fallback :
      (r : List AttestationTargetCheckpoint) (pre : List BlockIdentifier)
      → get b (keep_fallback c a r pre).inherited_checkpoints.fallback ≡ (
          if a == b
          then (if is_empty r then none else some r)
          else get b c.inherited_checkpoints.fallback)
  unfolding keep_fallback
  get_fallback-keep_fallback r pre = ground (
    arith,
    get-remove a b c.inherited_checkpoints.fallback,
    get-insert a b r c.inherited_checkpoints.fallback,
  )

  passed_fallback-keep_fallback :
      (r : List AttestationTargetCheckpoint) (pre : List BlockIdentifier)
      → contains b (keep_fallback c a r pre).passed_fallback
        ≡ (contains b c.passed_fallback || (is_empty r && a == b))
  unfolding keep_fallback
  passed_fallback-keep_fallback r pre = ground (arith, contains-append b c.passed_fallback (a ∷ []))

-- At the block itself, and at any other.
module _ (c : Constructor) (b : BlockIdentifier) (t : AttestationTargetType) (n : ℕ)
    (m : AttestationCount) (cs : List AttestationTargetCheckpoint) (pre : List BlockIdentifier)
    (e : get b c.inherited_checkpoints.fallback ≡ some cs) where
  abbrev kept : Constructor
  kept = keep_fallback c b (retain_checkpoints b t n cs pre).0 (retain_checkpoints b t n cs pre).1

  FallbackReason-here : FallbackReason kept m b → FallbackReason c (((b, t), n) ∷ m) b
  FallbackReason-here (inl h) = elim (Bool-cases (contains b c.passed_fallback)) [
    | inl old ↦ inl old
    | inr new ↦ inr (
      cs,
      e,
      retain_empty-Attested b t n m cs pre (
          ground (
            arith,
            passed_fallback-keep_fallback c b b t n m (retain_checkpoints b t n cs pre).0
                (retain_checkpoints b t n cs pre).1,
          )),
    )
  ]
  FallbackReason-here (inr (rs, g, h)) = inr (
    cs,
    e,
    retain-Attested b t n m cs pre (
        subst (All (λ p. Attested p b m))
          (ground (
            arith,
            get_fallback-keep_fallback c b b t n m (retain_checkpoints b t n cs pre).0
                (retain_checkpoints b t n cs pre).1,
          ))
          h),
  )

FallbackReason-there :
    (c : Constructor) (a b : BlockIdentifier) (t : AttestationTargetType) (n : ℕ)
    (m : AttestationCount) (r : List AttestationTargetCheckpoint) (pre : List BlockIdentifier)
    → (a == b) ≡ false
    → FallbackReason (keep_fallback c a r pre) m b
    → FallbackReason c (((a, t), n) ∷ m) b
FallbackReason-there c a b t n m r pre ne (inl h) =
    inl (ground (arith, passed_fallback-keep_fallback c a b t n m r pre))
FallbackReason-there c a b t n m r pre ne (inr (cs, g, h)) =
    inr
      (cs, ground (arith, get_fallback-keep_fallback c a b t n m r pre), All-later c a b t n m cs h)

FallbackReason-later :
    (c : Constructor) (a b : BlockIdentifier) (t : AttestationTargetType) (n : ℕ)
    (m : AttestationCount)
    → FallbackReason c m b
    → FallbackReason c (((a, t), n) ∷ m) b
FallbackReason-later c a b t n m (inl h) = inl h
FallbackReason-later c a b t n m (inr (cs, g, h)) = inr (cs, g, All-later c a b t n m cs h)

FallbackReason-kept :
    (c : Constructor) (a b : BlockIdentifier) (t : AttestationTargetType) (n : ℕ)
    (m : AttestationCount) (cs : List AttestationTargetCheckpoint) (pre : List BlockIdentifier)
    → get a c.inherited_checkpoints.fallback ≡ some cs
    → FallbackReason
        (keep_fallback c a (retain_checkpoints a t n cs pre).0 (retain_checkpoints a t n cs pre).1)
        m
        b
    → FallbackReason c (((a, t), n) ∷ m) b
FallbackReason-kept c a b t n m cs pre e h = elim (==_cases a b) [
  | inl (same, _) ↦
      subst
        (λ x.
          FallbackReason
            (keep_fallback c a (retain_checkpoints a t n cs pre).0
              (retain_checkpoints a t n cs pre).1)
            m x
          → FallbackReason c (((a, t), n) ∷ m) x)
        same (FallbackReason-here c a t n m cs pre e) h
  | inr (_, ne) ↦ FallbackReason-there c a b t n m _ _ ne h
]

FallbackReason-note_fallback :
    (c : Constructor) (a b : BlockIdentifier) (t : AttestationTargetType) (n : ℕ)
    (m : AttestationCount)
    → FallbackReason (note_fallback c a t n) m b
    → FallbackReason c (((a, t), n) ∷ m) b
unfolding note_fallback
FallbackReason-note_fallback c a b t n m h =
    elim (Option-cases (get a c.inherited_checkpoints.fallback)) [
      | inl e ↦ FallbackReason-later c a b t n m (rw (e, note_fallback) at h)
      | inr (cs, e) ↦
          FallbackReason-kept c a b t n m cs c.passed_fallback_preattestation_checkpoint e
            (rw (e, note_fallback) at h)
    ]

passed_fallback-note_all :
    (c : Constructor) (m : AttestationCount) (b : BlockIdentifier)
    → contains b (note_all c m).passed_fallback ≡ true
    → FallbackReason c m b
unfolding note_all note
passed_fallback-note_all c [] b h = inl h
passed_fallback-note_all c (((a, t), n) ∷ m) b h =
    FallbackReason-note_primary c a b t n (((a, t), n) ∷ m) (
      FallbackReason-note_fallback (note_primary c a t n) a b t n m
        (passed_fallback-note_all (note c a t n) m b h))

-- A block that an `update` of fresh bookkeeping finds to pass by its fallback target had fallback
-- checkpoints, and for each of them there is among the attestations one for the block, of the
-- checkpoint's type, within its deadline and by at least the required number of signers.
pub passed_fallback-update :
    (m : AncestorBlocksFinalizationCheckpoints) (counts : AttestationCount) (b : BlockIdentifier)
    → contains b (update (into_builder m) counts).passed_fallback ≡ true
    → (cs : List AttestationTargetCheckpoint) × (get b m.fallback ≡ some cs)
      × All (λ p. Attested p b counts) cs
unfolding update complete into_builder
passed_fallback-update m counts b h = elim (passed_fallback-note_all (into_builder m) counts b h) [
  | inl absurd_pass ↦ cc
  | inr reason ↦ reason
]
