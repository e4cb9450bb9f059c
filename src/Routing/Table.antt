-- ===== src/Routing/Table.antt =====
-- node/src/bitmask/table.rs: a table of masks, read from the top, whose last row matches everything.
pub mod Lookup
use ackinacki.Routing.Bitmask.{is_match, default_mask, BitsSource, Bitmask}
use mathlib.Core.Option
use ackinacki.Common.{
  zero, get_elem?, ok_or, nat_eq, ◌>>=◌, ◌+◌, ltb, not, ensure, ◌>>◌, suc, ◌==◌, if◌then◌else◌,
  length, Result, PartialEq, Option, ℕ, List, ◌≡◌, Bool, true, false, [], ◌∷◌, some, none, ok, err,
}

pub data TableError : Type 0 where
  below_the_default_row outside_of_the_table default_row_is_kept out_of_bounds : TableError

-- A row, and the table as the list of its rows.
abbrev pub Row {ℓ κ} : Type ℓ → Type κ → Type (ℓ ⊔ κ)
Row A T = Bitmask A × T

pub record BitmasksTable {ℓ κ} (A : Type ℓ) (T : Type κ) : Type (ℓ ⊔ κ) where
  pub masks : List (Row A T)

-- `Vec::insert` and `Vec::remove`, at an index in range.
module _ {ℓ} {A : Type ℓ} where
  unfoldable pub insert_at : ℕ → A → List A → List A
  insert_at zero x xs = x ∷ xs
  insert_at (suc i) x [] = x ∷ []
  insert_at (suc i) x (y ∷ ys) = y ∷ insert_at i x ys

  unfoldable pub remove_at : ℕ → List A → List A
  remove_at i [] = []
  remove_at zero (x ∷ xs) = xs
  remove_at (suc i) (x ∷ xs) = x ∷ remove_at i xs

-- `TTarget::default()`
module _ {ℓ κ} {A : Type ℓ} {T : Type κ} ⦃src : BitsSource A⦄ where
  -- The scan of the rows; `none` is the panic of a table without a matching row.
  pub find_row : A → List (Row A T) → Option T
  find_row bits [] = none
  find_row bits ((mask, target) ∷ rows) =
      if is_match mask bits then some target else find_row bits rows

  pub find_match : BitmasksTable A T → A → Option T
  unfolding find_row
  find_match table bits = find_row bits table.masks

  pub table_is_match : ⦃eq : PartialEq T⦄ → BitmasksTable A T → A → T → Option Bool
  unfolding find_match
  table_is_match ⦃eq⦄ table bits target = Option.map (λ t. t == target) (find_match table bits)

  unfoldable pub insert_above :
      BitmasksTable A T → ℕ → Bitmask A → T → Result TableError (BitmasksTable A T)
  unfolding insert_at
  insert_above table row_index mask thread = do
    ensure (not (row_index == length table.masks)) below_the_default_row
    ensure (ltb row_index (length table.masks)) outside_of_the_table
    ok (record { masks = insert_at row_index (mask, thread) table.masks })

  unfoldable pub remove : BitmasksTable A T → ℕ → Result TableError (Row A T × BitmasksTable A T)
  unfolding remove_at
  remove table row_index = do
    ensure (not (row_index + 1 == length table.masks)) default_row_is_kept
    ensure (ltb (row_index + 1) (length table.masks)) out_of_bounds
    row ← ok_or (get_elem? table.masks row_index) out_of_bounds
    ok (row, record { masks = remove_at row_index table.masks })

  unfoldable pub new : T → BitmasksTable A T
  unfolding default_mask
  new default_target = record { masks = (default_mask, default_target) ∷ [] }

  unfoldable pub len : BitmasksTable A T → ℕ
  len table = length table.masks
