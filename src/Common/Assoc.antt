-- ===== src/Common/Assoc.antt =====
-- `HashMap` and `BTreeMap` as association lists. The order of the entries stands for the order of
-- iteration, which a `HashMap` leaves open.
use ackinacki.Common.{◌⊎◌}
use mathlib.Core.Path.{◌≡◌, refl}
use mathlib.Core.Bool.{Bool, true, false, ◌||◌}
use mathlib.Core.Option.{Option, none, some}
use mathlib.Core.List.{List, [], ◌∷◌}
use native.Mathlib.Omega.{arith}
use ackinacki.Common.Tests.{PartialEq, ◌==◌, if◌then◌else◌}

abbrev pub is_some {κ} : {V : Type κ} → Option V → Bool
is_some none = false
is_some (some v) = true

abbrev pub Assoc {ℓ κ} : Type ℓ → Type κ → Type (ℓ ⊔ κ)
Assoc K V = List (K × V)

module _ {ℓ κ} {K : Type ℓ} {V : Type κ} ⦃e : PartialEq K⦄ where
  unfoldable pub get : K → Assoc K V → Option V
  get k [] = none
  get k ((j, v) ∷ m) = if j == k then some v else get k m

  unfoldable pub contains_key : K → Assoc K V → Bool
  contains_key k [] = false
  contains_key k ((j, v) ∷ m) = j == k || contains_key k m

  unfoldable pub insert : K → V → Assoc K V → Assoc K V
  insert k v [] = (k, v) ∷ []
  insert k v ((j, w) ∷ m) = if j == k then (k, v) ∷ m else (j, w) ∷ insert k v m

  unfoldable pub remove : K → Assoc K V → Assoc K V
  remove k [] = []
  remove k ((j, v) ∷ m) = let rest = remove k m in if j == k then rest else (j, v) ∷ rest

  -- No key stands twice: what a map of Rust guarantees.
  abbrev pub IsMap : Assoc K V → Type 0
  IsMap [] = Unit
  IsMap ((j, v) ∷ m) = (contains_key j m ≡ false) × IsMap m

  pub get-insert :
      (k j : K) (v : V) (m : Assoc K V)
      → get j (insert k v m) ≡ (if k == j then some v else get j m)
  unfolding get insert
  get-insert k j v [] = refl
  get-insert k j v ((i, w) ∷ m) =
      ground (arith, e.beq_iff k j, e.beq_iff i k, e.beq_iff i j, get-insert k j v m)

  -- What a lookup after an insertion finds is the new value or was there.
  pub get-insert_cases :
      (k j : K) (v w : V) (m : Assoc K V)
      → get j (insert k v m) ≡ some w
      → ((k ≡ j) × (v ≡ w)) ⊎ (get j m ≡ some w)
  get-insert_cases k j v w m h = ground (arith, get-insert k j v m, e.beq_iff k j)

  pub get-remove :
      (k j : K) (m : Assoc K V) → get j (remove k m) ≡ (if k == j then none else get j m)
  unfolding get remove
  get-remove k j [] = ground arith
  get-remove k j ((i, w) ∷ m) =
      ground (arith, e.beq_iff k j, e.beq_iff i k, e.beq_iff i j, get-remove k j m)

  pub contains_key-insert :
      (k j : K) (v : V) (m : Assoc K V)
      → contains_key j (insert k v m) ≡ (k == j || contains_key j m)
  unfolding contains_key insert
  contains_key-insert k j v [] = refl
  contains_key-insert k j v ((i, w) ∷ m) =
      ground (arith, e.beq_iff k j, e.beq_iff i k, e.beq_iff i j, contains_key-insert k j v m)

  pub contains_key-remove :
      (k j : K) (m : Assoc K V)
      → contains_key j (remove k m) ≡ (if k == j then false else contains_key j m)
  unfolding contains_key remove
  contains_key-remove k j [] = ground arith
  contains_key-remove k j ((i, w) ∷ m) =
      ground (arith, e.beq_iff k j, e.beq_iff i k, e.beq_iff i j, contains_key-remove k j m)

  pub insert-IsMap : (k : K) (v : V) (m : Assoc K V) → IsMap m → IsMap (insert k v m)
  unfolding contains_key insert
  insert-IsMap k v [] h = (refl, tt)
  insert-IsMap k v ((i, w) ∷ m) h =
      ground
        (arith, e.beq_iff i k, e.beq_iff k i, contains_key-insert k i v m, insert-IsMap k v m h.1)

  pub remove-IsMap : (k : K) (m : Assoc K V) → IsMap m → IsMap (remove k m)
  unfolding contains_key remove
  remove-IsMap k [] h = tt
  remove-IsMap k ((i, w) ∷ m) h =
      ground (arith, e.beq_iff k i, contains_key-remove k i m, remove-IsMap k m h.1)

  pub contains_key_lem : (k : K) (m : Assoc K V) → contains_key k m ≡ is_some (get k m)
  unfolding get contains_key
  contains_key_lem k [] = refl
  contains_key_lem k ((i, w) ∷ m) = ground (arith, contains_key_lem k m)

abbrev pub keys {ℓ κ} : {K : Type ℓ} {V : Type κ} → Assoc K V → List K
keys [] = []
keys ((k, v) ∷ m) = k ∷ keys m

abbrev pub map_option {κ} : {V : Type κ} → (V → V) → Option V → Option V
map_option f none = none
map_option f (some v) = some (f v)

-- `values_mut`: each value is replaced, the keys stay.
module _ {ℓ κ} {K : Type ℓ} {V : Type κ} where
  pub map_values : (V → V) → Assoc K V → Assoc K V
  map_values f [] = []
  map_values f ((k, v) ∷ m) = (k, f v) ∷ map_values f m

module _ {ℓ κ} {K : Type ℓ} {V : Type κ} ⦃e : PartialEq K⦄ where
  pub get-map_values :
      (f : V → V) (k : K) (m : Assoc K V) → get k (map_values f m) ≡ map_option f (get k m)
  unfolding get map_values
  get-map_values f k [] = refl
  get-map_values f k ((i, w) ∷ m) = ground (arith, get-map_values f k m)

  pub contains_key-map_values :
      (f : V → V) (k : K) (m : Assoc K V) → contains_key k (map_values f m) ≡ contains_key k m
  unfolding contains_key map_values
  contains_key-map_values f k [] = refl
  contains_key-map_values f k ((i, w) ∷ m) = ground (arith, contains_key-map_values f k m)

  pub map_values-IsMap : (f : V → V) (m : Assoc K V) → IsMap m → IsMap (map_values f m)
  unfolding contains_key map_values
  map_values-IsMap f [] h = tt
  map_values-IsMap f ((i, w) ∷ m) h =
      ground (arith, contains_key-map_values f i m, map_values-IsMap f m h.1)

pub ruleset map_laws = (get-insert, get-remove, contains_key-insert, contains_key-remove)
