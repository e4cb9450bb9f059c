-- ===== src/Routing/Merge/Overlay.antt =====
-- A merge lays the rows of both tables over one another.
use ackinacki.Routing.Merge.{has_target, in_table, MergeError, merge_rows}
use mathlib.Core.List.{reverse-cons, append_assoc}
use ackinacki.Routing.Table.{insert_at, BitmasksTable, insert_above, Row}
use ackinacki.Routing.Bitmask.{mask_eq, BitsSource}
use ackinacki.Common.{
  inr, pair_eq, subst, inl, ◌>>=◌, ◌==◌, Bool-cases, Result, sym, ◌∙◌, arith, ◌++◌, length, reverse,
  ◌<◌, PartialEq, List, ◌≡◌, [], ◌∷◌, ok,
}

-- `zs` holds the rows of `xs` and of `ys`, each in their order; a row of both may stand once.
pub data Overlay {ℓ} {A : Type ℓ} : List A → List A → List A → Type ℓ where
  done : Overlay [] [] []
  left : {xs ys zs : List A} (x : A) → Overlay xs ys zs → Overlay (x ∷ xs) ys (x ∷ zs)
  right : {xs ys zs : List A} (y : A) → Overlay xs ys zs → Overlay xs (y ∷ ys) (y ∷ zs)
  both : {xs ys zs : List A} (x : A) → Overlay xs ys zs → Overlay (x ∷ xs) (x ∷ ys) (x ∷ zs)

module _ {ℓ κ} {A : Type ℓ} {T : Type κ} ⦃src : BitsSource A⦄ ⦃eq : PartialEq T⦄ where
  abbrev push : Row A T → BitmasksTable A T → BitmasksTable A T
  push row t = record { masks = row ∷ t.masks }

  -- On a table with a row, `insert_above(0, ..)` puts the row on top.
  insert_above-zero :
      (t : BitmasksTable A T) (row : Row A T)
      → 0 < length t.masks
      → insert_above t 0 row.0 row.1 ≡ ok (push row t)
  unfolding insert_above insert_at
  insert_above-zero t row h = ground arith

  -- What a run of the loop from `merged` has to return.
  abbrev pub LaysOver :
      List (Row A T) → List (Row A T) → BitmasksTable A T → BitmasksTable A T → Type (ℓ ⊔ κ)
  LaysOver rows others merged result =
      (zs : List (Row A T)) × Overlay rows others zs × (result.masks ≡ reverse zs ++ merged.masks)

  push_row :
      (row : Row A T) (zs : List (Row A T)) (merged result : BitmasksTable A T)
      → result.masks ≡ reverse zs ++ (push row merged).masks
      → result.masks ≡ reverse (row ∷ zs) ++ merged.masks
  push_row row zs merged result h =
      h ∙ sym (rw (reverse-cons row zs) (append_assoc (reverse zs) (row ∷ []) merged.masks))

  push_ok :
      (row : Row A T) (merged result : BitmasksTable A T)
      (k : BitmasksTable A T → Result MergeError (BitmasksTable A T))
      → 0 < length merged.masks
      → (in_table (insert_above merged 0 row.0 row.1) >>= k) ≡ ok result
      → k (push row merged) ≡ ok result
  push_ok row merged result k h e = rw (insert_above-zero merged row h) at e

  module _ (x : Row A T) (rows others : List (Row A T)) (merged result : BitmasksTable A T) where
    lays_left :
        LaysOver rows others (push x merged) result → LaysOver (x ∷ rows) others merged result
    lays_left (zs, o, q) = (x ∷ zs, left x o, push_row x zs merged result q)

    lays_right :
        LaysOver rows others (push x merged) result → LaysOver rows (x ∷ others) merged result
    lays_right (zs, o, q) = (x ∷ zs, right x o, push_row x zs merged result q)

    lays_both :
        (y : Row A T)
        → x ≡ y
        → LaysOver rows others (push x merged) result
        → LaysOver (x ∷ rows) (y ∷ others) merged result
    lays_both y e (zs, o, q) = (
      x ∷ zs,
      subst (λ r. Overlay (x ∷ rows) (r ∷ others) (x ∷ zs)) e (both x o),
      push_row x zs merged result q,
    )

  pub merge_rows-LaysOver :
      (rows others : List (Row A T)) (merged result : BitmasksTable A T)
      → 0 < length merged.masks
      → merge_rows rows others merged ≡ ok result
      → LaysOver rows others merged result
  unfolding merge_rows
  merge_rows-LaysOver [] [] merged result h e = ([], done, ground arith)
  merge_rows-LaysOver [] ((m, t) ∷ others) merged result h e =
      lays_right (m, t) [] others merged result
        (merge_rows-LaysOver [] others (push (m, t) merged) result (omega arith)
          (push_ok (m, t) merged result _ h e))
  merge_rows-LaysOver ((m, t) ∷ rows) [] merged result h e =
      lays_left (m, t) rows [] merged result
        (merge_rows-LaysOver rows [] (push (m, t) merged) result (omega arith)
          (push_ok (m, t) merged result _ h e))
  merge_rows-LaysOver ((m, t) ∷ rows) ((m2, t2) ∷ others) merged result h e =
      let take_both = λ (f : merge_rows rows others (push (m, t) merged) ≡ ok result).
        merge_rows-LaysOver rows others (push (m, t) merged) result (omega arith) f in
      let take_self = λ (f : merge_rows rows ((m2, t2) ∷ others) (push (m, t) merged) ≡ ok result).
        lays_left (m, t) rows ((m2, t2) ∷ others) merged result
          (merge_rows-LaysOver rows ((m2, t2) ∷ others) (push (m, t) merged) result (omega arith)
            f) in
      let take_another =
        λ (f : merge_rows ((m, t) ∷ rows) others (push (m2, t2) merged) ≡ ok result).
          lays_right (m2, t2) ((m, t) ∷ rows) others merged result
            (merge_rows-LaysOver ((m, t) ∷ rows) others (push (m2, t2) merged) result (omega arith)
              f) in
      elim (Bool-cases (t == t2)) [
        | inl same ↦ elim (Bool-cases (m == m2)) [
          | inl mask ↦
              lays_both (m, t) rows others merged result (m2, t2)
                ((pair_eq.beq_iff (m, t) (m2, t2)).0 (ground arith))
                (take_both (push_ok (m, t) merged result _ h (rw (same, mask) at e)))
          | inr mask ↦ cc (rw (same, mask) at e)
        ]
        | inr other ↦ elim (Bool-cases (has_target t2 ((m, t) ∷ rows))) [
          | inl here ↦ take_self (push_ok (m, t) merged result _ h (rw (other, here) at e))
          | inr away ↦ elim (Bool-cases (has_target t ((m2, t2) ∷ others))) [
            | inl there ↦
                take_another (push_ok (m2, t2) merged result _ h (rw (other, away, there) at e))
            | inr absent ↦
                take_self (push_ok (m, t) merged result _ h (rw (other, away, absent) at e))
          ]
        ]
      ]
