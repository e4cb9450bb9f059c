-- ===== src/Routing/Examples.antt =====
-- Tables and masks of node/src/bitmask and node/src/types/threads_table.rs at concrete inputs.
use ackinacki.Routing.Merge.Outcome.{merge-Overlay}
use ackinacki.Routing.Merge.Overlay.{Overlay}
use ackinacki.Routing.Address.Laws.{is_match-AgreeOn, AgreeOn}
use ackinacki.Routing.Table.Lookup.{remove-insert_above, find_match-insert_above}
use ackinacki.Routing.Merge.{has_target, merge_rows, pop_rows, merge}
use ackinacki.Routing.Table.{
  TableError, new, find_row, remove_at, insert_at, Row, find_match, remove, insert_above,
  BitmasksTable,
}
use ackinacki.Routing.Bitmask.{default_mask, is_match, Bitmask}
use ackinacki.Common.{
  err, ◌≤◌, take, ◌⊎◌, ◌++◌, or_else, ok, ◌+◌, reverse, length, if◌then◌else◌, ◌↔◌, ◌^◌, ◌<◌, arith,
  ◌≡◌, ℕ, List, true, some, ◌∷◌, [], nat_eq, refl,
}
use ackinacki.Routing.Address.{address_set_bit_value, set_bit_value, AccountRouting, routing_bits}

abbrev high_bit : Bitmask AccountRouting
high_bit = record {
  mask_bits = record { dapp = 2 ^ 255; account = 0 };
  meaningful_mask_bits = record { dapp = 2 ^ 255; account = 0 };
}

abbrev address : AccountRouting
address = record { dapp = 2 ^ 255 + 5; account = 3 }

abbrev one_row : BitmasksTable AccountRouting ℕ
one_row = record { masks = (default_mask, 0) ∷ [] }

abbrev two_rows : BitmasksTable AccountRouting ℕ
two_rows = record { masks = (high_bit, 1) ∷ (default_mask, 0) ∷ [] }

inserted : insert_above one_row 0 high_bit 1 ≡ ok two_rows
unfolding insert_above insert_at
inserted = refl

removed : remove two_rows 0 ≡ ok ((high_bit, 1), one_row)
unfolding remove remove_at
removed = refl

merged : merge 0 two_rows one_row ≡ ok two_rows
unfolding merge pop_rows merge_rows has_target new insert_above insert_at default_mask
merged = refl

is_match-AgreeOn_example :
    (is_match high_bit address ≡ true)
    ↔ AgreeOn high_bit.meaningful_mask_bits address high_bit.mask_bits
is_match-AgreeOn_example =
    is_match-AgreeOn high_bit address (omega arith, omega arith) (omega arith, omega arith)

abbrev low : ℕ → AccountRouting
low account = record { dapp = 5; account = account }

second_lowest_set : set_bit_value (low 1) 510 true ≡ some (low 3)
unfolding set_bit_value address_set_bit_value
second_lowest_set = refl

find_match-insert_above_example : find_match two_rows address ≡ (
    if is_match high_bit address
    then or_else (find_row address (take 0 one_row.masks)) (some 1)
    else find_match one_row address)
find_match-insert_above_example =
    find_match-insert_above one_row two_rows 0 high_bit 1 address inserted

remove-insert_above_example :
    ((1 < length two_rows.masks)
      × (t : BitmasksTable AccountRouting ℕ) × (insert_above two_rows 1 high_bit 7 ≡ ok t)
      × (remove t 1 ≡ ok ((high_bit, 7), two_rows)))
    ⊎ (length two_rows.masks ≤ 1) × (e : TableError) × (insert_above two_rows 1 high_bit 7 ≡ err e)
remove-insert_above_example = remove-insert_above two_rows 1 high_bit 7

merge-Overlay_example :
    (rows : List (Row AccountRouting ℕ)) × (others : List (Row AccountRouting ℕ)) × (zs : List
      (Row AccountRouting ℕ))
    × (two_rows.masks ≡ reverse rows ++ ((default_mask, 0) ∷ []))
    × (one_row.masks ≡ reverse others ++ ((default_mask, 0) ∷ []))
    × Overlay rows others zs
    × (two_rows.masks ≡ reverse zs ++ ((default_mask, 0) ∷ []))
merge-Overlay_example = merge-Overlay 0 two_rows one_row two_rows merged
