-- ===== src/Checkpoints/Tracking.antt =====
-- What one attestation does to the bookkeeping of one block.
use ackinacki.Common.{
  some, Option-cases, inl, inr, List, refl, ◌∙◌, ℕ, ◌≡◌, Bool, true, false, ◌&&◌, ◌||◌, [], ◌∷◌,
  arith, nat_eq, contains, contains-append,
}
use ackinacki.Common.Assoc.{
  insert-IsMap, IsMap, remove-IsMap, get, contains_key, contains_key-remove, contains_key-insert,
  contains_key_lem,
}
use ackinacki.Types.{BlockIdentifier, AttestationTargetType}
use ackinacki.Checkpoints.{
  AncestorBlocksFinalizationCheckpoints, keep_fallback, AttestationTargetCheckpoint, note_fallback,
  note, note_all, AttestationCount, Constructor, note_primary,
}

-- Does a checkpoint of the block stand, or has the block passed?
abbrev pub stands : Constructor → BlockIdentifier → Bool
stands c b =
    contains_key b c.inherited_checkpoints.primary
    || contains_key b c.inherited_checkpoints.fallback

abbrev pub has_passed : Constructor → BlockIdentifier → Bool
has_passed c b = contains b c.passed_primary || contains b c.passed_fallback

-- A block that passed has no checkpoint left, and it passed in one way.
pub record IsSettled (c : Constructor) (b : BlockIdentifier) : Type 0 where
  pub gone : has_passed c b ≡ true → stands c b ≡ false
  pub one_way : (contains b c.passed_primary && contains b c.passed_fallback) ≡ false

module _ (c : Constructor) (a b : BlockIdentifier) (t : AttestationTargetType) (n : ℕ) where
  note_primary-tracked :
      (stands (note_primary c a t n) b || has_passed (note_primary c a t n) b)
      ≡ (stands c b || has_passed c b)
  unfolding note_primary
  note_primary-tracked = ground (
    arith,
    contains_key-remove a b c.inherited_checkpoints.primary,
    contains_key-remove a b c.inherited_checkpoints.fallback,
    contains-append b c.passed_primary (a ∷ []),
    contains_key_lem a c.inherited_checkpoints.primary,
  )

  note_primary-IsSettled : IsSettled c b → IsSettled (note_primary c a t n) b
  unfolding note_primary
  note_primary-IsSettled h = ground (
    arith,
    contains_key-remove a b c.inherited_checkpoints.primary,
    contains_key-remove a b c.inherited_checkpoints.fallback,
    contains-append b c.passed_primary (a ∷ []),
    contains_key_lem a c.inherited_checkpoints.primary,
  )

  -- What holds of the state and of each outcome holds after the second half of `note`.
  note_fallback_cases {ℓ} :
      (P : Constructor → Type ℓ)
      → P c
      → ((cs : List AttestationTargetCheckpoint)
          → get a c.inherited_checkpoints.fallback ≡ some cs
          → (r : List AttestationTargetCheckpoint × List BlockIdentifier)
          → P (keep_fallback c a r.0 r.1))
      → P (note_fallback c a t n)
  unfolding note_fallback
  note_fallback_cases P h k = elim (Option-cases (get a c.inherited_checkpoints.fallback)) [
    | inl e ↦ rw (e, note_fallback) h
    | inr (cs, e) ↦ rw (e, note_fallback) (k cs e _)
  ]

  keep_fallback-tracked :
      (cs : List AttestationTargetCheckpoint)
      → get a c.inherited_checkpoints.fallback ≡ some cs
      → (r : List AttestationTargetCheckpoint × List BlockIdentifier)
      → (stands (keep_fallback c a r.0 r.1) b || has_passed (keep_fallback c a r.0 r.1) b)
        ≡ (stands c b || has_passed c b)
  unfolding keep_fallback
  keep_fallback-tracked cs e r = ground (
    arith,
    contains_key-remove a b c.inherited_checkpoints.primary,
    contains_key-remove a b c.inherited_checkpoints.fallback,
    contains_key-insert a b r.0 c.inherited_checkpoints.fallback,
    contains-append b c.passed_fallback (a ∷ []),
    contains_key_lem a c.inherited_checkpoints.fallback,
  )

  keep_fallback-IsSettled :
      IsSettled c b
      → (cs : List AttestationTargetCheckpoint) → get a c.inherited_checkpoints.fallback ≡ some cs
      → (r : List AttestationTargetCheckpoint × List BlockIdentifier)
      → IsSettled (keep_fallback c a r.0 r.1) b
  unfolding keep_fallback
  keep_fallback-IsSettled h cs e r = ground (
    arith,
    contains_key-remove a b c.inherited_checkpoints.primary,
    contains_key-remove a b c.inherited_checkpoints.fallback,
    contains_key-insert a b r.0 c.inherited_checkpoints.fallback,
    contains-append b c.passed_fallback (a ∷ []),
    contains_key_lem a c.inherited_checkpoints.fallback,
  )

module _ (c : Constructor) (a b : BlockIdentifier) (t : AttestationTargetType) (n : ℕ) where
  note_fallback-tracked :
      (stands (note_fallback c a t n) b || has_passed (note_fallback c a t n) b)
      ≡ (stands c b || has_passed c b)
  note_fallback-tracked =
      note_fallback_cases c a b t n
        (λ d. (stands d b || has_passed d b) ≡ (stands c b || has_passed c b)) refl
        (keep_fallback-tracked c a b t n)

  note_fallback-IsSettled : IsSettled c b → IsSettled (note_fallback c a t n) b
  note_fallback-IsSettled h =
      note_fallback_cases c a b t n (λ d. IsSettled d b) h (keep_fallback-IsSettled c a b t n h)

module _ (c : Constructor) (a b : BlockIdentifier) (t : AttestationTargetType) (n : ℕ) where
  note-tracked :
      (stands (note c a t n) b || has_passed (note c a t n) b) ≡ (stands c b || has_passed c b)
  unfolding note
  note-tracked =
      note_fallback-tracked (note_primary c a t n) a b t n ∙ note_primary-tracked c a b t n

  note-IsSettled : IsSettled c b → IsSettled (note c a t n) b
  unfolding note
  note-IsSettled h =
      note_fallback-IsSettled (note_primary c a t n) a b t n (note_primary-IsSettled c a b t n h)

-- No attestation makes a block appear or disappear: what stands or has passed before does after.
pub note_all-tracked :
    (c : Constructor) (m : AttestationCount) (b : BlockIdentifier)
    → (stands (note_all c m) b || has_passed (note_all c m) b) ≡ (stands c b || has_passed c b)
unfolding note_all
note_all-tracked c [] b = refl
note_all-tracked c (((a, t), n) ∷ m) b =
    note_all-tracked (note c a t n) m b ∙ note-tracked c a b t n

pub note_all-IsSettled :
    (c : Constructor) (m : AttestationCount) (b : BlockIdentifier)
    → IsSettled c b
    → IsSettled (note_all c m) b
unfolding note_all
note_all-IsSettled c [] b h = h
note_all-IsSettled c (((a, t), n) ∷ m) b h =
    note_all-IsSettled (note c a t n) m b (note-IsSettled c a b t n h)

-- Both tables are maps.
pub record HasMaps (m : AncestorBlocksFinalizationCheckpoints) : Type 0 where
  pub primary : IsMap m.primary
  pub fallback : IsMap m.fallback

-- Each block that has a primary checkpoint has its fallback checkpoints too.
abbrev pub IsPaired : AncestorBlocksFinalizationCheckpoints → BlockIdentifier → Type 0
IsPaired m b = contains_key b m.primary ≡ true → contains_key b m.fallback ≡ true

module _ (c : Constructor) (a : BlockIdentifier) (t : AttestationTargetType) (n : ℕ) where
  note_primary-HasMaps :
      HasMaps c.inherited_checkpoints → HasMaps (note_primary c a t n).inherited_checkpoints
  unfolding note_primary
  note_primary-HasMaps h = ground (
    arith,
    remove-IsMap a c.inherited_checkpoints.primary h.primary,
    remove-IsMap a c.inherited_checkpoints.fallback h.fallback,
  )

  note_fallback-HasMaps :
      HasMaps c.inherited_checkpoints → HasMaps (note_fallback c a t n).inherited_checkpoints
  unfolding keep_fallback
  note_fallback-HasMaps h =
      note_fallback_cases c a a t n (λ d. HasMaps d.inherited_checkpoints) h
        λ cs e r. ground (
          arith,
          remove-IsMap a c.inherited_checkpoints.primary h.primary,
          remove-IsMap a c.inherited_checkpoints.fallback h.fallback,
          insert-IsMap a r.0 c.inherited_checkpoints.fallback h.fallback,
        )

  note_primary-IsPaired :
      (b : BlockIdentifier)
      → IsPaired c.inherited_checkpoints b
      → IsPaired (note_primary c a t n).inherited_checkpoints b
  unfolding note_primary
  note_primary-IsPaired b h = ground (
    arith,
    contains_key-remove a b c.inherited_checkpoints.primary,
    contains_key-remove a b c.inherited_checkpoints.fallback,
  )

  note_fallback-IsPaired :
      (b : BlockIdentifier)
      → IsPaired c.inherited_checkpoints b
      → IsPaired (note_fallback c a t n).inherited_checkpoints b
  unfolding keep_fallback
  note_fallback-IsPaired b h =
      note_fallback_cases c a b t n (λ d. IsPaired d.inherited_checkpoints b) h
        λ cs e r. ground (
          arith,
          contains_key-remove a b c.inherited_checkpoints.primary,
          contains_key-remove a b c.inherited_checkpoints.fallback,
          contains_key-insert a b r.0 c.inherited_checkpoints.fallback,
        )

pub note_all-HasMaps :
    (c : Constructor) (m : AttestationCount)
    → HasMaps c.inherited_checkpoints
    → HasMaps (note_all c m).inherited_checkpoints
unfolding note_all note
note_all-HasMaps c [] h = h
note_all-HasMaps c (((a, t), n) ∷ m) h =
    note_all-HasMaps (note c a t n) m
      (note_fallback-HasMaps (note_primary c a t n) a t n (note_primary-HasMaps c a t n h))

pub note_all-IsPaired :
    (c : Constructor) (m : AttestationCount) (b : BlockIdentifier)
    → IsPaired c.inherited_checkpoints b
    → IsPaired (note_all c m).inherited_checkpoints b
unfolding note_all note
note_all-IsPaired c [] b h = h
note_all-IsPaired c (((a, t), n) ∷ m) b h =
    note_all-IsPaired (note c a t n) m b
      (note_fallback-IsPaired (note_primary c a t n) a t n b (note_primary-IsPaired c a t n b h))
