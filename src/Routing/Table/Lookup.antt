-- ===== src/Routing/Table/Lookup.antt =====
-- A table always has its default row, so that every address finds a thread.
use ackinacki.Routing.Bitmask.{is_match, is_match-default, Bitmask, default_mask, BitsSource}
use ackinacki.Routing.Table.{
  outside_of_the_table, below_the_default_row, TableError, find_match, remove, BitmasksTable, Row,
  find_row, insert_above, new, remove_at, insert_at,
}
use ackinacki.Common.{
  sym, subst, sym, true, get_elem?-lt, nat_eq, ◌==◌, or_else, dec_lt, ◌⊎◌, drop, if◌then◌else◌,
  take, zero, inr, inl, suc, Bool-cases, ap, length-append, arith, get_elem?, ◌+◌, ◌++◌, length,
  ◌<◌, ◌≤◌, List, ℕ, ◌≡◌, [], ◌∷◌, some, ok, err, refl,
}

module _ {ℓ} {A : Type ℓ} where
  insert_at-append :
      (i : ℕ) (x : A) (xs ys : List A)
      → i ≤ length xs
      → insert_at i x (xs ++ ys) ≡ insert_at i x xs ++ ys
  unfolding insert_at
  insert_at-append zero x xs ys h = refl
  insert_at-append (suc i) x [] ys h = absurd (omega arith)
  insert_at-append (suc i) x (y ∷ xs) ys h =
      ap (λ l. y ∷ l) (insert_at-append i x xs ys (omega arith))

  remove_at-append :
      (i : ℕ) (xs ys : List A) → i < length xs → remove_at i (xs ++ ys) ≡ remove_at i xs ++ ys
  unfolding remove_at
  remove_at-append i [] ys h = absurd (omega arith)
  remove_at-append zero (x ∷ xs) ys h = refl
  remove_at-append (suc i) (x ∷ xs) ys h = ap (λ l. x ∷ l) (remove_at-append i xs ys (omega arith))

  length-insert_at : (i : ℕ) (x : A) (xs : List A) → length (insert_at i x xs) ≡ length xs + 1
  unfolding insert_at
  length-insert_at zero x xs = omega arith
  length-insert_at (suc i) x [] = omega arith
  length-insert_at (suc i) x (y ∷ xs) = omega (arith, length-insert_at i x xs)

  remove_at-insert_at :
      (i : ℕ) (x : A) (xs : List A) → i ≤ length xs → remove_at i (insert_at i x xs) ≡ xs
  unfolding insert_at remove_at
  remove_at-insert_at zero x xs h = refl
  remove_at-insert_at (suc i) x [] h = absurd (omega arith)
  remove_at-insert_at (suc i) x (y ∷ xs) h =
      ap (λ l. y ∷ l) (remove_at-insert_at i x xs (omega arith))

  get_elem?-insert_at :
      (i : ℕ) (x : A) (xs : List A) → i ≤ length xs → get_elem? (insert_at i x xs) i ≡ some x
  unfolding insert_at
  get_elem?-insert_at zero x xs h = refl
  get_elem?-insert_at (suc i) x [] h = absurd (omega arith)
  get_elem?-insert_at (suc i) x (y ∷ xs) h = get_elem?-insert_at i x xs (omega arith)

module _ {ℓ κ} {A : Type ℓ} {T : Type κ} ⦃src : BitsSource A⦄ where
  -- The rows end with the default mask and the given target.
  abbrev pub HasDefaultRow : T → List (Row A T) → Type (ℓ ⊔ κ)
  HasDefaultRow d rows = (upper : List (Row A T)) × (rows ≡ upper ++ ((default_mask, d) ∷ []))

  length-HasDefaultRow :
      (d : T) (upper : List (Row A T))
      → length (upper ++ ((default_mask, d) ∷ [])) ≡ length upper + 1
  length-HasDefaultRow d upper = omega (arith, length-append upper ((default_mask, d) ∷ []))

  insert_at-HasDefaultRow :
      (d : T) (i : ℕ) (x : Row A T) (rows : List (Row A T))
      → i < length rows
      → HasDefaultRow d rows
      → HasDefaultRow d (insert_at i x rows)
  insert_at-HasDefaultRow d i x rows h (upper, e) = (
    insert_at i x upper,
    rw e (
        insert_at-append i x upper ((default_mask, d) ∷ [])
          (omega (arith, ap length e, length-HasDefaultRow d upper))),
  )

  remove_at-HasDefaultRow :
      (d : T) (i : ℕ) (rows : List (Row A T))
      → i + 1 < length rows
      → HasDefaultRow d rows
      → HasDefaultRow d (remove_at i rows)
  remove_at-HasDefaultRow d i rows h (upper, e) = (
    remove_at i upper,
    rw e (
        remove_at-append i upper ((default_mask, d) ∷ [])
          (omega (arith, ap length e, length-HasDefaultRow d upper))),
  )

  pub insert_above_ok :
      (t t' : BitmasksTable A T) (i : ℕ) (mask : Bitmask A) (thread : T)
      → insert_above t i mask thread ≡ ok t'
      → (i < length t.masks) × (t'.masks ≡ insert_at i (mask, thread) t.masks)
  unfolding insert_above
  insert_above_ok t t' i mask thread e = ground arith

  remove_ok :
      (t t' : BitmasksTable A T) (i : ℕ) (row : Row A T)
      → remove t i ≡ ok (row, t')
      → (i + 1 < length t.masks)
        × (get_elem? t.masks i ≡ some row)
        × (t'.masks ≡ remove_at i t.masks)
  unfolding remove
  remove_ok t t' i row e = ground arith

  pub insert_above_total :
      (t : BitmasksTable A T) (i : ℕ) (mask : Bitmask A) (thread : T)
      → i < length t.masks
      → (t' : BitmasksTable A T) × (insert_above t i mask thread ≡ ok t')
  unfolding insert_above
  insert_above_total t i mask thread h =
      (record { masks = insert_at i (mask, thread) t.masks }, ground arith)

  pub remove_total :
      (t : BitmasksTable A T) (i : ℕ)
      → i + 1 < length t.masks
      → (row : Row A T) × (t' : BitmasksTable A T) × (remove t i ≡ ok (row, t'))
  unfolding remove
  remove_total t i h =
      let (row, at) = get_elem?-lt t.masks i (omega arith) in
      (row, record { masks = remove_at i t.masks }, ground (arith, at))

  -- A new table has its default row.
  pub new-HasDefaultRow : (d : T) → HasDefaultRow d (new d).masks
  unfolding new
  new-HasDefaultRow d = ([], refl)

  -- A successful insertion into a table with a default row leaves that row at the end.
  pub insert_above-HasDefaultRow :
      (d : T) (t t' : BitmasksTable A T) (i : ℕ) (mask : Bitmask A) (thread : T)
      → HasDefaultRow d t.masks
      → insert_above t i mask thread ≡ ok t'
      → HasDefaultRow d t'.masks
  insert_above-HasDefaultRow d t t' i mask thread h e =
      let (lt, rows) = insert_above_ok t t' i mask thread e in
      rw rows (insert_at-HasDefaultRow d i (mask, thread) t.masks lt h)

  -- A successful removal from a table with a default row leaves that row at the end.
  pub remove-HasDefaultRow :
      (d : T) (t t' : BitmasksTable A T) (i : ℕ) (row : Row A T)
      → HasDefaultRow d t.masks
      → remove t i ≡ ok (row, t')
      → HasDefaultRow d t'.masks
  remove-HasDefaultRow d t t' i row h e =
      let (lt, _, rows) = remove_ok t t' i row e in
      rw rows (remove_at-HasDefaultRow d i t.masks lt h)

  find_row-default :
      (bits : A) (d : T) (upper : List (Row A T))
      → (target : T) × (find_row bits (upper ++ ((default_mask, d) ∷ [])) ≡ some target)
  unfolding find_row
  find_row-default bits d [] = (d, rw (is_match-default bits))
  find_row-default bits d ((mask, target) ∷ upper) = elim (Bool-cases (is_match mask bits)) [
    | inl hit ↦ (target, rw hit)
    | inr miss ↦ let (t, e) = find_row-default bits d upper in (t, rw miss e)
  ]

  -- In a table with its default row every address finds a target: the panic is not reached.
  pub find_match-total :
      (d : T) (t : BitmasksTable A T) (bits : A)
      → HasDefaultRow d t.masks
      → (target : T) × (find_match t bits ≡ some target)
  unfolding find_match
  find_match-total d t bits (upper, e) = rw e (find_row-default bits d upper)

  find_row-insert_at :
      (bits : A) (i : ℕ) (mask : Bitmask A) (thread : T) (rows : List (Row A T))
      → i ≤ length rows
      → find_row bits (insert_at i (mask, thread) rows)
        ≡ or_else
            (find_row bits (take i rows))
            (if is_match mask bits then some thread else find_row bits (drop i rows))
  unfolding find_row insert_at
  find_row-insert_at bits zero mask thread rows h = refl
  find_row-insert_at bits (suc i) mask thread [] h = absurd (omega arith)
  find_row-insert_at bits (suc i) mask thread ((m, t) ∷ rows) h =
      ground (arith, find_row-insert_at bits i mask thread rows)

  find_row-split :
      (bits : A) (i : ℕ) (rows : List (Row A T))
      → find_row bits rows ≡ or_else (find_row bits (take i rows)) (find_row bits (drop i rows))
  unfolding find_row
  find_row-split bits zero rows = refl
  find_row-split bits (suc i) [] = refl
  find_row-split bits (suc i) ((m, t) ∷ rows) = ground (arith, find_row-split bits i rows)

  -- An address that a row matches finds the target of that row or of one above it.
  find_row-get_elem? :
      (bits : A) (i : ℕ) (mask : Bitmask A) (thread : T) (rows : List (Row A T))
      → get_elem? rows i ≡ some (mask, thread)
      → is_match mask bits ≡ true
      → find_row bits rows ≡ or_else (find_row bits (take i rows)) (some thread)
  unfolding find_row
  find_row-get_elem? bits i mask thread [] e h = cc
  find_row-get_elem? bits zero mask thread ((m, t) ∷ rows) e h =
      let same : m ≡ mask = cc in
      let target : t ≡ thread = cc in
      rw (subst (λ x. is_match x bits ≡ true) (sym same) h) (ap some target)
  find_row-get_elem? bits (suc i) mask thread ((m, t) ∷ rows) e h =
      ground (arith, find_row-get_elem? bits i mask thread rows e h)

  pub find_match-get_elem? :
      (t : BitmasksTable A T) (bits : A) (i : ℕ) (mask : Bitmask A) (thread : T)
      → get_elem? t.masks i ≡ some (mask, thread)
      → is_match mask bits ≡ true
      → find_match t bits ≡ or_else (find_row bits (take i t.masks)) (some thread)
  unfolding find_match
  find_match-get_elem? t bits i mask thread e h = find_row-get_elem? bits i mask thread t.masks e h

  -- After a successful insertion above row `i`, an address that a row above `i` matches keeps its
  -- target, any other address that the new mask matches gets the new thread, and an address that the
  -- new mask does not match keeps its target.
  pub find_match-insert_above :
      (t t' : BitmasksTable A T) (i : ℕ) (mask : Bitmask A) (thread : T) (bits : A)
      → insert_above t i mask thread ≡ ok t'
      → find_match t' bits ≡ (
          if is_match mask bits
          then or_else (find_row bits (take i t.masks)) (some thread)
          else find_match t bits)
  unfolding find_match
  find_match-insert_above t t' i mask thread bits e =
      let (lt, rows) = insert_above_ok t t' i mask thread e in
      rw rows (
        ground
          (arith, find_row-insert_at bits i mask thread t.masks, find_row-split bits i t.masks))

  -- `insert_above` succeeds at every row of the table, the default row included, and at no other
  -- index; where it succeeds, removing the row again gives back the row and the table.
  pub remove-insert_above :
      (t : BitmasksTable A T) (i : ℕ) (mask : Bitmask A) (thread : T)
      → ((i < length t.masks)
          × (t' : BitmasksTable A T) × (insert_above t i mask thread ≡ ok t')
          × (remove t' i ≡ ok ((mask, thread), t)))
        ⊎ (length t.masks ≤ i) × (e : TableError) × (insert_above t i mask thread ≡ err e)
  unfolding insert_above remove
  remove-insert_above t i mask thread = elim (dec_lt i (length t.masks)) [
    | yes lt ↦ inl (
      lt,
      record { masks = insert_at i (mask, thread) t.masks },
      ground arith,
      ground (
        arith,
        length-insert_at i (mask, thread) t.masks,
        get_elem?-insert_at i (mask, thread) t.masks,
        remove_at-insert_at i (mask, thread) t.masks,
      ),
    )
    | no ge ↦ inr (
      omega arith,
      if i == length t.masks then below_the_default_row else outside_of_the_table,
      ground arith,
    )
  ]
