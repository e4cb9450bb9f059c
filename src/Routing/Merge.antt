-- ===== src/Routing/Merge.antt =====
-- ThreadsTable::merge of node/src/types/threads_table.rs.
pub mod Outcome
pub mod Overlay
use ackinacki.Routing.Bitmask.{mask_eq, default_mask, BitsSource}
use ackinacki.Routing.Table.{BitmasksTable, new, insert_above, Row, TableError}
use ackinacki.Common.{
  pair_eq, ensure, ◌>>◌, ok_or, if◌then◌else◌, ◌>>=◌, ◌==◌, any, reverse, PartialEq, Option, List,
  Result, Bool, [], ◌∷◌, some, none, ok, err,
}

pub data MergeError : Type 0 where
  self_default_row another_default_row different_masks : MergeError
  table : TableError → MergeError

abbrev pub in_table {ℓ} : {A : Type ℓ} → Result TableError A → Result MergeError A
in_table (ok a) = ok a
in_table (err e) = err (table e)

abbrev pub uncons {ℓ} : {A : Type ℓ} → List A → Option (A × List A)
uncons [] = none
uncons (x ∷ xs) = some (x, xs)

-- `rows.pop()`: the last row, and the rows above it with the lowest first.
unfoldable pub pop_rows {ℓ} : {A : Type ℓ} → List A → Option (A × List A)
pop_rows rows = uncons (reverse rows)

module _ {ℓ κ} {A : Type ℓ} {T : Type κ} ⦃src : BitsSource A⦄ ⦃eq : PartialEq T⦄ where
  unfoldable pub has_target : T → List (Row A T) → Bool
  has_target t = any (λ row. row.1 == t)

  -- The `while` loop, over the rows of both tables from the bottom up. Each round takes a row off a
  -- list, so the recursion ends.
  unfoldable pub merge_rows :
      List (Row A T) → List (Row A T) → BitmasksTable A T → Result MergeError (BitmasksTable A T)
  merge_rows [] [] merged = ok merged
  merge_rows [] ((mask, thread_id) ∷ others) merged =
      in_table (insert_above merged 0 mask thread_id) >>= λ next. merge_rows [] others next
  merge_rows ((mask, thread_id) ∷ rows) [] merged =
      in_table (insert_above merged 0 mask thread_id) >>= λ next. merge_rows rows [] next
  merge_rows ((mask, thread_id) ∷ rows) ((mask2, thread_id2) ∷ others) merged =
      let take_both =
        in_table (insert_above merged 0 mask thread_id) >>= λ next. merge_rows rows others next in
      let take_self = in_table (insert_above merged 0 mask thread_id) >>= λ next.
      merge_rows rows ((mask2, thread_id2) ∷ others) next in
      let take_another = in_table (insert_above merged 0 mask2 thread_id2) >>= λ next.
      merge_rows ((mask, thread_id) ∷ rows) others next in
      if thread_id == thread_id2
      then (if mask == mask2 then take_both else err different_masks)
      else if has_target thread_id2 ((mask, thread_id) ∷ rows)
      then take_self
      else if has_target thread_id ((mask2, thread_id2) ∷ others)
      then take_another
      else take_self

  unfoldable pub merge :
      T → BitmasksTable A T → BitmasksTable A T → Result MergeError (BitmasksTable A T)
  unfolding pop_rows merge_rows new
  merge default_target self another = do
    (self_last, self_rows) ← ok_or (pop_rows self.masks) self_default_row
    (another_last, another_rows) ← ok_or (pop_rows another.masks) another_default_row
    ensure (self_last == (default_mask, default_target)) self_default_row
    ensure (another_last == (default_mask, default_target)) another_default_row
    merge_rows self_rows another_rows (new default_target)
