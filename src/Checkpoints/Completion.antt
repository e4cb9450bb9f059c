-- ===== src/Checkpoints/Completion.antt =====
-- `complete` and `update`: what becomes of every block whose checkpoints were inherited.
use ackinacki.Common.{
  ◌≡◌, refl, Bool, false, not, ◌&&◌, ◌||◌, Option, none, some, List, [], ◌∷◌, ◌++◌, arith, nat_eq,
  contains, contains-append, contains-set_insert, any, if◌then◌else◌,
}
use ackinacki.Common.Assoc.{
  remove-IsMap, Assoc, IsMap, get, contains_key, remove, get-remove, contains_key_lem,
}
use ackinacki.Types.{BlockIdentifier}
use ackinacki.Checkpoints.{
  AttestationTargetCheckpoint, Constructor, ConstructorResults,
  AncestorBlocksFinalizationCheckpoints, is_due, scan_primary, scan_fallback, remove_all, to_set,
  complete,
}
use ackinacki.Checkpoints.Tracking.{HasMaps, stands, has_passed, IsSettled}

module _ {ℓ} {V : Type ℓ} where
  get-remove_all :
      (bs : List BlockIdentifier) (b : BlockIdentifier) (m : Assoc BlockIdentifier V)
      → get b (remove_all bs m) ≡ (if contains b bs then none else get b m)
  unfolding remove_all
  get-remove_all [] b m = refl
  get-remove_all (a ∷ bs) b m = ground (arith, get-remove_all bs b (remove a m), get-remove a b m)

remove_all-IsMap {ℓ} :
    {V : Type ℓ} (bs : List BlockIdentifier) (m : Assoc BlockIdentifier V)
    → IsMap m
    → IsMap (remove_all bs m)
unfolding remove_all
remove_all-IsMap [] m h = h
remove_all-IsMap (b ∷ bs) m h = remove_all-IsMap bs (remove b m) (remove-IsMap b m h)

pub complete-HasMaps :
    (c : Constructor) → HasMaps c.inherited_checkpoints → HasMaps (complete c).remaining_checkpoints
unfolding complete
complete-HasMaps c h = record {
  primary = remove_all-IsMap _ _ (remove_all-IsMap _ c.inherited_checkpoints.primary h.primary);
  fallback = remove_all-IsMap _ c.inherited_checkpoints.fallback h.fallback;
}

contains-to_set :
    (bs : List BlockIdentifier) (b : BlockIdentifier) → contains b (to_set bs) ≡ contains b bs
unfolding to_set
contains-to_set [] b = refl
contains-to_set (a ∷ bs) b = rw (contains-set_insert a b (to_set bs), contains-to_set bs b) refl

abbrev pub overdue : Option (List AttestationTargetCheckpoint) → Bool
overdue none = false
overdue (some cs) = any is_due cs

abbrev pub due : Option AttestationTargetCheckpoint → Bool
due none = false
due (some c) = is_due c

contains-scan_fallback :
    (m : Assoc BlockIdentifier (List AttestationTargetCheckpoint)) (b : BlockIdentifier)
    → IsMap m
    → contains b (scan_fallback m) ≡ overdue (get b m)
unfolding scan_fallback get
contains-scan_fallback [] b h = refl
contains-scan_fallback ((a, cs) ∷ m) b h =
    ground (arith, contains-scan_fallback m b h.1, contains_key_lem a m)

contains-scan_primary :
    (fb : Assoc BlockIdentifier (List AttestationTargetCheckpoint))
    (m : Assoc BlockIdentifier AttestationTargetCheckpoint) (b : BlockIdentifier)
    → IsMap m
    → (contains b (scan_primary fb m).0 ≡ (due (get b m) && not (contains_key b fb)))
      × (contains b (scan_primary fb m).1 ≡ (due (get b m) && contains_key b fb))
unfolding scan_primary get
contains-scan_primary fb [] b h = (refl, refl)
contains-scan_primary fb ((a, c) ∷ m) b h = ground (
  arith,
  contains-scan_primary fb m b h.1,
  contains_key_lem a m,
  contains-set_insert a b (scan_primary fb m).1,
)

module _ (c : Constructor) (b : BlockIdentifier) (maps : HasMaps c.inherited_checkpoints) where
  pub failed-complete : contains b (complete c).failed ≡ (
      due (get b c.inherited_checkpoints.primary)
        && not (contains_key b c.inherited_checkpoints.fallback)
      || overdue (get b c.inherited_checkpoints.fallback))
  unfolding complete
  failed-complete = ground (
    arith,
    contains-to_set
        ((scan_primary c.inherited_checkpoints.fallback c.inherited_checkpoints.primary).0
          ++ scan_fallback c.inherited_checkpoints.fallback)
        b,
    contains-append b
        (scan_primary c.inherited_checkpoints.fallback c.inherited_checkpoints.primary).0
        (scan_fallback c.inherited_checkpoints.fallback),
    contains-scan_primary c.inherited_checkpoints.fallback c.inherited_checkpoints.primary b
        maps.primary,
    contains-scan_fallback c.inherited_checkpoints.fallback b maps.fallback,
  )

  pub transitioned-complete : contains b (complete c).transitioned_to_fallback ≡ (
      due (get b c.inherited_checkpoints.primary)
      && contains_key b c.inherited_checkpoints.fallback)
  unfolding complete
  transitioned-complete =
      (contains-scan_primary c.inherited_checkpoints.fallback c.inherited_checkpoints.primary b
        maps.primary).1

  pub remaining_primary-complete : get b (complete c).remaining_checkpoints.primary ≡ (
      if contains b (complete c).failed || contains b (complete c).transitioned_to_fallback
      then none
      else get b c.inherited_checkpoints.primary)
  unfolding complete
  remaining_primary-complete = ground (
    arith,
    get-remove_all (complete c).failed b
        (remove_all (complete c).transitioned_to_fallback c.inherited_checkpoints.primary),
    get-remove_all (complete c).transitioned_to_fallback b c.inherited_checkpoints.primary,
  )

  pub remaining_fallback-complete :
      get b (complete c).remaining_checkpoints.fallback
      ≡ (if contains b (complete c).failed then none else get b c.inherited_checkpoints.fallback)
  unfolding complete
  remaining_fallback-complete = get-remove_all _ b c.inherited_checkpoints.fallback

abbrev pub remains : ConstructorResults → BlockIdentifier → Bool
remains r b =
    contains_key b r.remaining_checkpoints.primary
    || contains_key b r.remaining_checkpoints.fallback

-- Where one block ends up: a block that had a checkpoint still has one, has passed in one of two
-- ways, or has failed, and no two of these; a block that had none is nowhere.
pub record IsPartition (m : AncestorBlocksFinalizationCheckpoints) (r : ConstructorResults)
    (b : BlockIdentifier) : Type 0 where
  pub accounted :
      (remains r b
        || contains b r.passed_primary
        || contains b r.passed_fallback
        || contains b r.failed)
      ≡ (contains_key b m.primary || contains_key b m.fallback)
  pub remains_or_failed : (remains r b && contains b r.failed) ≡ false
  pub remains_or_passed :
      (remains r b && (contains b r.passed_primary || contains b r.passed_fallback)) ≡ false
  pub passed_or_failed :
      ((contains b r.passed_primary || contains b r.passed_fallback) && contains b r.failed) ≡ false
  pub passed_one_way : (contains b r.passed_primary && contains b r.passed_fallback) ≡ false

passed-complete :
    (c : Constructor)
    → ((complete c).passed_primary ≡ c.passed_primary)
      × ((complete c).passed_fallback ≡ c.passed_fallback)
unfolding complete
passed-complete c = (refl, refl)

pub complete-IsPartition :
    (m : AncestorBlocksFinalizationCheckpoints) (c : Constructor) (b : BlockIdentifier)
    → HasMaps c.inherited_checkpoints
    → IsSettled c b
    → (stands c b || has_passed c b) ≡ (contains_key b m.primary || contains_key b m.fallback)
    → IsPartition m (complete c) b
complete-IsPartition m c b maps settled tracked = ground (
  arith,
  passed-complete c,
  failed-complete c b maps,
  transitioned-complete c b maps,
  remaining_primary-complete c b maps,
  remaining_fallback-complete c b maps,
  contains_key_lem b c.inherited_checkpoints.primary,
  contains_key_lem b c.inherited_checkpoints.fallback,
  contains_key_lem b (complete c).remaining_checkpoints.primary,
  contains_key_lem b (complete c).remaining_checkpoints.fallback,
)
