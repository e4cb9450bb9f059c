-- ===== src/FixedSize/Examples.antt =====
-- The map and the set of fixed size, node/src/utilities/fixed_size_hash_map.rs and
-- fixed_size_hash_set.rs, at concrete inputs.
use ackinacki.FixedSize.Members.{FixedSizeHashSet}
use ackinacki.FixedSize.Queue.{HasValues, fixed_insert-enqueue, enqueue, queue, IsFifo}
use ackinacki.Common.Assoc.{contains_key}
use ackinacki.FixedSize.{fixed_insert, FixedSizeHashMap}
use ackinacki.Common.{◌⊎◌, false, true, arith, ◌≡◌, ℕ, some, ◌∷◌, [], nat_eq, refl}

-- A full map of two keys whose oldest key is the second in the order.
abbrev two_keys : FixedSizeHashMap ℕ ℕ
two_keys = record {
  capacity = 2;
  blocks = (5, 50) ∷ (6, 60) ∷ [];
  eviction_order = 6 ∷ 5 ∷ [];
  eviction_order_cursor = 1;
}

two_keys-IsFifo : IsFifo two_keys
unfolding contains_key
two_keys-IsFifo = record {
  fits = omega arith;
  at_start = λ h. absurd (omega arith);
  in_range = λ h. omega arith;
  distinct = (refl, (refl, tt));
  held = λ k. refl;
}

fixed_insert-enqueue_example :
    (next : FixedSizeHashMap ℕ ℕ) × (fixed_insert two_keys 7 70 ≡ some next)
    × IsFifo next
    × (queue next ≡ enqueue 2 7 (queue two_keys))
    × (next.capacity ≡ 2)
    × (((contains_key 7 two_keys.blocks ≡ true) × (next ≡ two_keys))
        ⊎ ((contains_key 7 two_keys.blocks ≡ false) × HasValues two_keys 7 70 next))
fixed_insert-enqueue_example = fixed_insert-enqueue two_keys 7 70 (omega arith) two_keys-IsFifo

-- A full set of two members whose oldest is the second in the order.
abbrev two_members : FixedSizeHashSet ℕ
two_members = record {
  capacity = 2;
  blocks = 5 ∷ 6 ∷ [];
  eviction_order = 6 ∷ 5 ∷ [];
  eviction_order_cursor = 1;
}
