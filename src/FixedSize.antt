-- ===== src/FixedSize.antt =====
-- node/src/utilities/fixed_size_hash_map.rs: a map that holds at most `capacity` keys, and makes room
-- for a new one by dropping the oldest.
mod Examples
pub mod Queue
pub mod Members
use ackinacki.Common.Assoc.{remove, insert, get, contains_key, Assoc}
use ackinacki.Common.{
  get_elem?, ◌+◌, ◌++◌, leb, length, ltb, if◌then◌else◌, set, PartialEq, arith, ℕ, Option, List,
  Bool, some, ◌∷◌, [],
}
use mathlib.Core.Option

pub record FixedSizeHashMap {ℓ κ} (K : Type ℓ) (V : Type κ) : Type (ℓ ⊔ κ) where
  pub capacity : ℕ
  pub blocks : Assoc K V
  pub eviction_order : List K
  pub eviction_order_cursor : ℕ

module _ {ℓ κ} {K : Type ℓ} {V : Type κ} ⦃e : PartialEq K⦄ where
  pub new_fixed : ℕ → FixedSizeHashMap K V
  new_fixed capacity = record {
    capacity = capacity;
    blocks = [];
    eviction_order = [];
    eviction_order_cursor = 0;
  }

  pub fixed_contains_key : FixedSizeHashMap K V → K → Bool
  fixed_contains_key m id = contains_key id m.blocks

  pub fixed_get : FixedSizeHashMap K V → K → Option V
  fixed_get m id = get id m.blocks

  -- The key at the cursor makes room.
  pub evict : FixedSizeHashMap K V → K → K → V → FixedSizeHashMap K V
  evict m evicted id value = record m {
    eviction_order = set m.eviction_order m.eviction_order_cursor id;
    blocks = insert id value (remove evicted m.blocks);
    eviction_order_cursor =
        if leb m.capacity (m.eviction_order_cursor + 1) then 0 else m.eviction_order_cursor + 1;
  }

  -- `none` is the panic of an index out of bounds, on a map of capacity 0.
  pub fixed_insert : FixedSizeHashMap K V → K → V → Option (FixedSizeHashMap K V)
  fixed_insert m id value =
      if contains_key id m.blocks
      then some m
      else if ltb (length m.eviction_order) m.capacity
      then some (record m {
        blocks = insert id value m.blocks;
        eviction_order = m.eviction_order ++ (id ∷ []);
      })
      else Option.map (λ evicted. evict m evicted id value)
          (get_elem? m.eviction_order m.eviction_order_cursor)
