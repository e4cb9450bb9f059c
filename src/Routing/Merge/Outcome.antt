-- ===== src/Routing/Merge/Outcome.antt =====
-- What `ThreadsTable::merge` returns.
use ackinacki.Routing.Merge.Overlay.{merge_rows-LaysOver, Overlay}
use ackinacki.Routing.Table.{Row, BitmasksTable, new}
use ackinacki.Routing.Merge.{
  another_default_row, self_default_row, merge_rows, uncons, merge, pop_rows,
}
use ackinacki.Routing.Bitmask.{mask_eq, default_mask, BitsSource}
use ackinacki.Common.{
  ◌==◌, ensure_ok, pair_eq, arith, inr, inl, Option-cases, ap, ◌∙◌, sym, ◌++◌, reverse, PartialEq,
  List, ◌≡◌, [], ◌∷◌, some, ok,
}
use mathlib.Core.List.{reverse-reverse, reverse-cons}

module _ {ℓ} {A : Type ℓ} where
  uncons-some : (l : List A) (x : A) (xs : List A) → uncons l ≡ some (x, xs) → l ≡ x ∷ xs
  uncons-some [] x xs h = cc
  uncons-some (y ∷ ys) x xs h = ground arith

  pop_rows-some :
      (rows : List A) (r : A) (above : List A)
      → pop_rows rows ≡ some (r, above)
      → rows ≡ reverse above ++ (r ∷ [])
  unfolding pop_rows
  pop_rows-some rows r above h =
      sym (reverse-reverse rows)
      ∙ ap reverse (uncons-some (reverse rows) r above h)
      ∙ reverse-cons r above

module _ {ℓ κ} {A : Type ℓ} {T : Type κ} ⦃src : BitsSource A⦄ ⦃eq : PartialEq T⦄ where
  merge_ok :
      (d : T) (self another result : BitmasksTable A T) (l m : Row A T)
      (rows others : List (Row A T))
      → pop_rows self.masks ≡ some (l, rows)
      → pop_rows another.masks ≡ some (m, others)
      → merge d self another ≡ ok result
      → (l ≡ (default_mask, d))
        × (m ≡ (default_mask, d))
        × (merge_rows rows others (new d) ≡ ok result)
  unfolding merge
  merge_ok d self another result l m rows others e f h =
      let (a, h1) = ensure_ok (l == (default_mask, d)) self_default_row _ (rw (e, f) at h) in
      let (b, h2) = ensure_ok (m == (default_mask, d)) another_default_row _ h1 in
      ((pair_eq.beq_iff l _).0 a, (pair_eq.beq_iff m _).0 b, h2)

  -- A successful merge starts from two tables with the default row, and returns a table with the
  -- default row above which stand the rows of both, each table's in their order: a row of the result
  -- is of the one table, of the other, or once for both.
  pub merge-Overlay :
      (d : T) (self another result : BitmasksTable A T)
      → merge d self another ≡ ok result
      → (rows : List (Row A T)) × (others : List (Row A T)) × (zs : List (Row A T)) × (self.masks
          ≡ reverse rows ++ ((default_mask, d) ∷ []))
        × (another.masks ≡ reverse others ++ ((default_mask, d) ∷ []))
        × Overlay rows others zs
        × (result.masks ≡ reverse zs ++ ((default_mask, d) ∷ []))
  unfolding merge new
  merge-Overlay d self another result h = elim (Option-cases (pop_rows self.masks)) [
    | inl e ↦ cc (rw e at h)
    | inr ((l, rows), e) ↦ elim (Option-cases (pop_rows another.masks)) [
      | inl f ↦ cc (rw (e, f) at h)
      | inr ((m, others), f) ↦
          let (a, b, run) = merge_ok d self another result l m rows others e f h in
          let (zs, o, q) = merge_rows-LaysOver rows others (new d) result (omega arith) run in
          (
            rows,
            others,
            zs,
            pop_rows-some self.masks l rows e ∙ ap (λ r. reverse rows ++ (r ∷ [])) a,
            pop_rows-some another.masks m others f ∙ ap (λ r. reverse others ++ (r ∷ [])) b,
            o,
            q,
          )
    ]
  ]
