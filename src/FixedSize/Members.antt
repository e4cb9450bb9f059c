-- ===== src/FixedSize/Members.antt =====
use ackinacki.Common.{
  get_elem?, ◌+◌, leb, length, ltb, if◌then◌else◌, set, PartialEq, arith, ℕ, ◌==◌, contains, Option,
  List, Bool, set_insert, some, ◌∷◌, [], ◌++◌,
}
use mathlib.Core.Option
-- node/src/utilities/fixed_size_hash_set.rs: a set that holds at most `capacity` members, and makes
-- room for a new one by dropping the oldest.
pub mod AsMap

pub record FixedSizeHashSet {ℓ} (T : Type ℓ) : Type ℓ where
  pub capacity : ℕ
  pub blocks : List T
  pub eviction_order : List T
  pub eviction_order_cursor : ℕ

module _ {ℓ} {T : Type ℓ} where
  unfoldable pub new_set : ℕ → FixedSizeHashSet T
  new_set capacity = record {
    capacity = capacity;
    blocks = [];
    eviction_order = [];
    eviction_order_cursor = 0;
  }

module _ {ℓ} {T : Type ℓ} ⦃e : PartialEq T⦄ where
  -- `HashSet::remove`.
  pub set_remove : T → List T → List T
  set_remove x [] = []
  set_remove x (y ∷ ys) = let rest = set_remove x ys in if y == x then rest else y ∷ rest

  unfoldable pub contains_member : FixedSizeHashSet T → T → Bool
  contains_member s id = contains id s.blocks

  -- The member at the cursor makes room.
  pub evict_member : FixedSizeHashSet T → T → T → FixedSizeHashSet T
  unfolding set_remove
  evict_member s evicted id = record s {
    eviction_order = set s.eviction_order s.eviction_order_cursor id;
    blocks = set_insert id (set_remove evicted s.blocks);
    eviction_order_cursor =
        if leb s.capacity (s.eviction_order_cursor + 1) then 0 else s.eviction_order_cursor + 1;
  }

  -- `none` is the panic of an index out of bounds, on a set of capacity 0.
  unfoldable pub insert_member : FixedSizeHashSet T → T → Option (FixedSizeHashSet T)
  insert_member s id =
      if contains id s.blocks
      then some s
      else if ltb (length s.eviction_order) s.capacity
      then some (record s {
        blocks = set_insert id s.blocks;
        eviction_order = s.eviction_order ++ (id ∷ []);
      })
      else Option.map (λ evicted. evict_member s evicted id)
          (get_elem? s.eviction_order s.eviction_order_cursor)
