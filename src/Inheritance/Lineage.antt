-- ===== src/Inheritance/Lineage.antt =====
-- What inheritance keeps, and the checkpoints that a chain of blocks can reach.
use ackinacki.Checkpoints.Completion.{overdue}
use ackinacki.Checkpoints.Outcome.{update-failed, update-HasMaps}
use ackinacki.Checkpoints.Tracking.{IsPaired, HasMaps}
use ackinacki.Inheritance.{
  own_fallback, own_primary, inherit_ancestor_blocks_finalization_distances, insert_self,
  no_checkpoints, inherit_all,
}
use ackinacki.BlockState.{AttestationTargets, AckiNackiBlockState}
use ackinacki.Common.Assoc.{
  get-map_values, get-insert, map_option, get, contains_key-map_values, contains_key-insert,
  insert-IsMap, map_values-IsMap, contains_key,
}
use ackinacki.Checkpoints.{
  AttestationTargetCheckpoint, note_all, into_builder, update, AttestationCount, inherit_checkpoint,
  AncestorBlocksFinalizationCheckpoints,
}
use ackinacki.Types.{AttestationTargetType, BlockIdentifier}
use ackinacki.Common.{
  ◌+◌, ℕ, ◌∷◌, [], ap, ◌∙◌, if◌then◌else◌, ◌==◌, Bool, contains, map, ◌⊎◌, arith, ◌≡◌, some, none,
  true, false, nat_eq, inl, inr, ok,
}

module _ (b : BlockIdentifier) (target : AttestationTargets)
    (m : AncestorBlocksFinalizationCheckpoints) where
  insert_self-HasMaps : HasMaps m → HasMaps (insert_self b target m)
  unfolding insert_self
  insert_self-HasMaps h = record {
    primary = insert-IsMap b (own_primary target) m.primary h.primary;
    fallback = insert-IsMap b (own_fallback target) m.fallback h.fallback;
  }

  insert_self-IsPaired : (j : BlockIdentifier) → IsPaired m j → IsPaired (insert_self b target m) j
  unfolding insert_self
  insert_self-IsPaired j h = ground (
    arith,
    contains_key-insert b j (own_primary target) m.primary,
    contains_key-insert b j (own_fallback target) m.fallback,
  )

module _ (m : AncestorBlocksFinalizationCheckpoints) where
  inherit_all-HasMaps : HasMaps m → HasMaps (inherit_all m)
  unfolding inherit_all
  inherit_all-HasMaps h = record {
    primary = map_values-IsMap inherit_checkpoint m.primary h.primary;
    fallback = map_values-IsMap (map inherit_checkpoint) m.fallback h.fallback;
  }

  inherit_all-IsPaired : (j : BlockIdentifier) → IsPaired m j → IsPaired (inherit_all m) j
  unfolding inherit_all
  inherit_all-IsPaired j h = ground (
    arith,
    contains_key-map_values inherit_checkpoint j m.primary,
    contains_key-map_values (map inherit_checkpoint) j m.fallback,
  )

-- The checkpoints that blocks carry: a chain starts at a block that inherits nothing, and each
-- further block inherits from its parent, which may be of another thread, and then applies the
-- attestations that it brings.
pub data Lineage : AncestorBlocksFinalizationCheckpoints → Type 0 where
  start :
      (b : BlockIdentifier) (target : AttestationTargets)
      → Lineage (insert_self b target no_checkpoints)
  next :
      (parent block : AckiNackiBlockState) (m r : AncestorBlocksFinalizationCheckpoints)
      (counts : AttestationCount)
      → Lineage m
      → parent.ancestor_blocks_finalization_checkpoints ≡ some m
      → inherit_ancestor_blocks_finalization_distances parent block ≡ ok r
      → Lineage (update (into_builder r) counts).remaining_checkpoints

pub record IsSound (m : AncestorBlocksFinalizationCheckpoints) : Type 0 where
  pub maps : HasMaps m
  pub paired : (b : BlockIdentifier) → IsPaired m b

no_checkpoints-IsSound : IsSound no_checkpoints
unfolding contains_key
no_checkpoints-IsSound = record { maps = record { primary = tt; fallback = tt }; paired = λ b h. h }

insert_self-IsSound :
    (b : BlockIdentifier) (target : AttestationTargets) (m : AncestorBlocksFinalizationCheckpoints)
    → IsSound m
    → IsSound (insert_self b target m)
insert_self-IsSound b target m h = record {
  maps = insert_self-HasMaps b target m h.maps;
  paired = λ j. insert_self-IsPaired b target m j (h.paired j);
}

inherit_all-IsSound :
    (m : AncestorBlocksFinalizationCheckpoints) → IsSound m → IsSound (inherit_all m)
inherit_all-IsSound m h = record {
  maps = inherit_all-HasMaps m h.maps;
  paired = λ j. inherit_all-IsPaired m j (h.paired j);
}

-- Both threads are known and the same.
abbrev pub is_same_thread : AckiNackiBlockState → AckiNackiBlockState → Bool
is_same_thread parent block = elim parent.thread_identifier [
  | none ↦ false
  | some p ↦ elim block.thread_identifier [ none ↦ false | some t ↦ t == p ]
]

-- What a successful inheritance returns.
abbrev Inherits :
    AckiNackiBlockState
    → AckiNackiBlockState
    → AncestorBlocksFinalizationCheckpoints
    → AncestorBlocksFinalizationCheckpoints
    → Type 0
Inherits parent block m r =
    (target : AttestationTargets) × (block.attestation_target ≡ some target)
    × ((r ≡ insert_self block.block_identifier target (inherit_all m))
          × (is_same_thread parent block ≡ true)
        ⊎ (r ≡ insert_self block.block_identifier target no_checkpoints)
          × (is_same_thread parent block ≡ false))

inherit-Inherits :
    (parent block : AckiNackiBlockState) (m r : AncestorBlocksFinalizationCheckpoints)
    → parent.ancestor_blocks_finalization_checkpoints ≡ some m
    → inherit_ancestor_blocks_finalization_distances parent block ≡ ok r
    → Inherits parent block m r
unfolding inherit_ancestor_blocks_finalization_distances
inherit-Inherits parent block m r e h = ground arith

Inherits-IsSound :
    (parent block : AckiNackiBlockState) (m r : AncestorBlocksFinalizationCheckpoints)
    → IsSound m
    → Inherits parent block m r
    → IsSound r
Inherits-IsSound parent block m r h (target, _, inl (e, _)) =
    rw e (insert_self-IsSound block.block_identifier target _ (inherit_all-IsSound m h))
Inherits-IsSound parent block m r h (target, _, inr (e, _)) =
    rw e (insert_self-IsSound block.block_identifier target _ no_checkpoints-IsSound)

update-IsSound :
    (m : AncestorBlocksFinalizationCheckpoints) (counts : AttestationCount)
    → IsSound m
    → IsSound (update (into_builder m) counts).remaining_checkpoints
update-IsSound m counts h = record {
  maps = update-HasMaps m counts 0 h.maps;
  paired = λ b. (update-failed m counts b h.maps (h.paired b)).2;
}

Lineage-IsSound : {m : AncestorBlocksFinalizationCheckpoints} → Lineage m → IsSound m
Lineage-IsSound (start b target) =
    insert_self-IsSound b target no_checkpoints no_checkpoints-IsSound
Lineage-IsSound (next parent block m r counts l e h) =
    update-IsSound r counts (
      Inherits-IsSound parent block m r (Lineage-IsSound l) (inherit-Inherits parent block m r e h))

-- In every chain of blocks, whatever attestations they bring, each block that has a primary
-- checkpoint has fallback checkpoints too. So when a next block inherits the checkpoints `m` as `r`
-- and applies its attestations, the ancestors that fail are exactly those with a fallback checkpoint
-- at its deadline: no block fails by its primary deadline alone.
pub Lineage-failed :
    {m : AncestorBlocksFinalizationCheckpoints} (r : AncestorBlocksFinalizationCheckpoints)
    (parent block : AckiNackiBlockState) (counts : AttestationCount) (b : BlockIdentifier)
    → Lineage m
    → parent.ancestor_blocks_finalization_checkpoints ≡ some m
    → inherit_ancestor_blocks_finalization_distances parent block ≡ ok r
    → IsPaired m b
      × (contains b (update (into_builder r) counts).failed
          ≡ overdue (get b (note_all (into_builder r) counts).inherited_checkpoints.fallback))
Lineage-failed {m} r parent block counts b l e h =
    let sound =
      Inherits-IsSound parent block m r (Lineage-IsSound l)
        (inherit-Inherits parent block m r e h) in
    ((Lineage-IsSound l).paired b, (update-failed r counts b sound.maps (sound.paired b)).0)

abbrev pub checkpoint_at : ℕ → ℕ → ℕ → AttestationTargetType → AttestationTargetCheckpoint
checkpoint_at distance deadline count target_type = record {
  current_distance = distance;
  deadline = deadline;
  required_attestation_count = count;
  attestation_target_type = target_type;
}

-- A checkpoint of the parent one step further, as it is but for its distance.
abbrev pub farther : AttestationTargetCheckpoint → AttestationTargetCheckpoint
farther c =
    checkpoint_at (c.current_distance + 1) c.deadline c.required_attestation_count
      c.attestation_target_type

-- A successful inheritance gives the block itself, at distance 0, a primary checkpoint with the deadline
-- and the count of the primary target, and two fallback checkpoints with the count of the fallback
-- target: one of the primary type at the deadline of the primary target, and one of the fallback type at
-- that of the fallback target. Every other block has the checkpoints that the parent had, each one step
-- further, or none when the parent is of another thread.
pub get-inherit :
    (parent block : AckiNackiBlockState) (m r : AncestorBlocksFinalizationCheckpoints)
    (j : BlockIdentifier)
    → parent.ancestor_blocks_finalization_checkpoints ≡ some m
    → inherit_ancestor_blocks_finalization_distances parent block ≡ ok r
    → (target : AttestationTargets) × (block.attestation_target ≡ some target)
      × (get j r.primary ≡ (
          if block.block_identifier == j
          then some (
              checkpoint_at 0 target.primary.generation_deadline
                target.primary.required_attestation_count AttestationTargetType.primary)
          else if is_same_thread parent block
          then map_option farther (get j m.primary)
          else none))
      × (get j r.fallback ≡ (
          if block.block_identifier == j
          then some (
              checkpoint_at 0 target.primary.generation_deadline
                target.fallback.required_attestation_count AttestationTargetType.primary
              ∷ checkpoint_at 0 target.fallback.generation_deadline
                  target.fallback.required_attestation_count AttestationTargetType.fallback
              ∷ [])
          else if is_same_thread parent block
          then map_option (map farther) (get j m.fallback)
          else none))
unfolding insert_self inherit_all get own_primary own_fallback inherit_checkpoint
get-inherit parent block m r j e h =
    let (target, t, o) = inherit-Inherits parent block m r e h in
    elim o [
      | inl (f, same) ↦ (
        target,
        t,
        rw (f, same)
            (get-insert _ j (own_primary target) _
              ∙ ap (λ o. if block.block_identifier == j then some (own_primary target) else o)
                  (get-map_values inherit_checkpoint j m.primary)),
        rw (f, same)
            (get-insert _ j (own_fallback target) _
              ∙ ap (λ o. if block.block_identifier == j then some (own_fallback target) else o)
                  (get-map_values (map inherit_checkpoint) j m.fallback)),
      )
      | inr (f, other) ↦ (
        target,
        t,
        rw (f, other) (get-insert _ j (own_primary target) _),
        rw (f, other) (get-insert _ j (own_fallback target) _),
      )
    ]
