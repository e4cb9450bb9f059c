-- ===== src/Checkpoints/Outcome.antt =====
-- `AncestorBlocksFinalizationCheckpointsConstructor::update` as its callers see it.
use ackinacki.Common.Assoc.{contains_key_lem, contains_key, get}
use ackinacki.Checkpoints.Completion.{
  complete-HasMaps, remaining_primary-complete, due, remaining_fallback-complete,
  transitioned-complete, overdue, failed-complete, complete-IsPartition, IsPartition,
}
use ackinacki.Checkpoints.Tracking.{
  note_all-IsPaired, note_all-tracked, note_all-IsSettled, note_all-HasMaps, has_passed, IsPaired,
  HasMaps, IsSettled, stands,
}
use ackinacki.Common.{
  [], ◌∙◌, nat_eq, contains, some, ◌∷◌, arith, ◌||◌, ◌<◌, All, any, false, List, ◌≡◌,
}
use ackinacki.Checkpoints.{
  complete, note_all, AttestationTargetCheckpoint, AttestationCount,
  AncestorBlocksFinalizationCheckpoints, BlockIdentifier, is_due, update, into_builder, Constructor,
}

into_builder-tracked :
    (m : AncestorBlocksFinalizationCheckpoints) (b : BlockIdentifier)
    → (stands (into_builder m) b || has_passed (into_builder m) b)
      ≡ (contains_key b m.primary || contains_key b m.fallback)
unfolding into_builder
into_builder-tracked m b = ground arith

into_builder-IsSettled :
    (m : AncestorBlocksFinalizationCheckpoints) (b : BlockIdentifier) → IsSettled (into_builder m) b
unfolding into_builder
into_builder-IsSettled m b = ground arith

into_builder-HasMaps :
    (m : AncestorBlocksFinalizationCheckpoints)
    → HasMaps m
    → HasMaps (into_builder m).inherited_checkpoints
unfolding into_builder
into_builder-HasMaps m h = h

-- Whatever attestations a block carries, in whatever order they are read, every ancestor that had a
-- checkpoint ends up in exactly one place: still with a checkpoint, passed by its primary target,
-- passed by its fallback target, or failed. A block that had no checkpoint is in none of them.
pub update-IsPartition :
    (m : AncestorBlocksFinalizationCheckpoints) (counts : AttestationCount) (b : BlockIdentifier)
    → HasMaps m
    → IsPartition m (update (into_builder m) counts) b
unfolding update
update-IsPartition m counts b maps =
    complete-IsPartition m (note_all (into_builder m) counts) b
      (note_all-HasMaps (into_builder m) counts (into_builder-HasMaps m maps))
      (note_all-IsSettled (into_builder m) counts b (into_builder-IsSettled m b))
      (note_all-tracked (into_builder m) counts b ∙ into_builder-tracked m b)

is_due-false :
    (c : AttestationTargetCheckpoint) → is_due c ≡ false → c.current_distance < c.deadline
unfolding is_due
is_due-false c h = ground arith

any-is_due-false :
    (cs : List AttestationTargetCheckpoint)
    → any is_due cs ≡ false
    → All (λ c. c.current_distance < c.deadline) cs
any-is_due-false [] h = tt
any-is_due-false (c ∷ cs) h = (is_due-false c (ground arith), any-is_due-false cs (ground arith))

module _ (c : Constructor) (b : BlockIdentifier) (maps : HasMaps c.inherited_checkpoints) where
  complete-primary_not_due :
      (p : AttestationTargetCheckpoint)
      → get b (complete c).remaining_checkpoints.primary ≡ some p
      → is_due p ≡ false
  complete-primary_not_due p h = ground (
    arith,
    failed-complete c b maps,
    transitioned-complete c b maps,
    remaining_primary-complete c b maps,
  )

  complete-fallback_not_due :
      (cs : List AttestationTargetCheckpoint)
      → get b (complete c).remaining_checkpoints.fallback ≡ some cs
      → any is_due cs ≡ false
  complete-fallback_not_due cs h =
      ground (arith, failed-complete c b maps, remaining_fallback-complete c b maps)

module _ (m : AncestorBlocksFinalizationCheckpoints) (counts : AttestationCount)
    (b : BlockIdentifier) (maps : HasMaps m) where
  noted-HasMaps : HasMaps (note_all (into_builder m) counts).inherited_checkpoints
  noted-HasMaps = note_all-HasMaps (into_builder m) counts (into_builder-HasMaps m maps)

  pub update-HasMaps : HasMaps (update (into_builder m) counts).remaining_checkpoints
  unfolding update
  update-HasMaps = complete-HasMaps _ noted-HasMaps

  -- After `update` no checkpoint that is left, primary or fallback, has reached its deadline.
  pub update-not_due :
      ((p : AttestationTargetCheckpoint)
        → get b (update (into_builder m) counts).remaining_checkpoints.primary ≡ some p
        → p.current_distance < p.deadline)
      × ((cs : List AttestationTargetCheckpoint)
          → get b (update (into_builder m) counts).remaining_checkpoints.fallback ≡ some cs
          → All (λ c. c.current_distance < c.deadline) cs)
  unfolding update
  update-not_due = (
    λ p h. is_due-false p (complete-primary_not_due _ b noted-HasMaps p h),
    λ cs h. any-is_due-false cs (complete-fallback_not_due _ b noted-HasMaps cs h),
  )

  -- Where every primary checkpoint is paired with fallback checkpoints, a block fails exactly when
  -- one of the fallback checkpoints that the attestations left it has reached its deadline, it
  -- goes over to its fallback exactly when its primary checkpoint was left and has reached its
  -- deadline, and the checkpoints that remain are paired again.
  pub update-failed :
      IsPaired m b
      → (contains b (update (into_builder m) counts).failed
          ≡ overdue (get b (note_all (into_builder m) counts).inherited_checkpoints.fallback))
        × (contains b (update (into_builder m) counts).transitioned_to_fallback
            ≡ due (get b (note_all (into_builder m) counts).inherited_checkpoints.primary))
        × IsPaired (update (into_builder m) counts).remaining_checkpoints b
  unfolding update into_builder
  update-failed paired = ground (
    arith,
    failed-complete (note_all (into_builder m) counts) b noted-HasMaps,
    transitioned-complete (note_all (into_builder m) counts) b noted-HasMaps,
    remaining_primary-complete (note_all (into_builder m) counts) b noted-HasMaps,
    remaining_fallback-complete (note_all (into_builder m) counts) b noted-HasMaps,
    note_all-IsPaired (into_builder m) counts b,
    contains_key_lem b (note_all (into_builder m) counts).inherited_checkpoints.primary,
    contains_key_lem b (note_all (into_builder m) counts).inherited_checkpoints.fallback,
    contains_key_lem b (complete (note_all (into_builder m) counts)).remaining_checkpoints.primary,
    contains_key_lem b (complete (note_all (into_builder m) counts)).remaining_checkpoints.fallback,
  )
