-- ===== src/LoadBalancing/Service/Rows.antt =====
use mathlib.Core.List.{append_assoc, append-nil}
use ackinacki.Routing.Address.{AccountRouting}
use ackinacki.Routing.Bitmask.{Bitmask}
use ackinacki.Routing.Table.{Row}
use ackinacki.Types.{ThreadIdentifier}
use ackinacki.LoadBalancing.Aggregated.{Load}
use ackinacki.LoadBalancing.Service.{
  LoadBalancingService, CheckError, Scan, read_load, start_scan, scan_row, scan_rows,
}
use ackinacki.Common.{
  ==_cases, subst, Result-cases, nat_beq_iff, if◌then◌else◌, ◌+◌, length-append, All-append, ◌⊎◌,
  ◌<◌, ◌≢◌, ok, ◌++◌, err, ◌==◌, ◌≤◌, length, All, Result, get_elem?, inr, inl, Bool-cases, ◌∙◌, ap,
  refl, suc, zero, arith, ◌≡◌, ℕ, Option, List, false, some, none, ◌∷◌, [], nat_eq,
}

-- What the loop over the rows of the table finds, in load_balancing_service/mod.rs.

abbrev pub TableRow : Type 0
TableRow = Row AccountRouting ThreadIdentifier

module _ {ℓ} {A : Type ℓ} where
  get_elem?-append :
      (xs ys : List A) (k : ℕ) (x : A)
      → get_elem? xs k ≡ some x
      → (get_elem? (xs ++ ys) k ≡ some x) × (k < length xs)
  get_elem?-append [] ys k x h = cc
  get_elem?-append (z ∷ xs) ys zero x h = (h, omega arith)
  get_elem?-append (z ∷ xs) ys (suc k) x h =
      let (at, lt) = get_elem?-append xs ys k x h in (at, omega arith)

  get_elem?-snoc : (xs : List A) (x : A) → get_elem? (xs ++ (x ∷ [])) (length xs) ≡ some x
  get_elem?-snoc [] x = refl
  get_elem?-snoc (z ∷ xs) x = get_elem?-snoc xs x

-- A load that is known lies between the least and the largest.
abbrev pub InRange : Scan → Result CheckError Load → Type 0
InRange v (err e) = Unit
InRange v (ok load) = (v.min_load ≤ load) × (load ≤ v.max_load)

-- Where the thread stands, its mask, and the last thread whose load is known.
abbrev pub IsHere :
    ThreadIdentifier
    → List TableRow
    → Option ℕ
    → Option (Bitmask AccountRouting)
    → Option ThreadIdentifier
    → Type 0
IsHere this done none none last = All (λ row. (row.1 == this) ≡ false) done
IsHere this done (some k) (some mask) (some last) =
    (get_elem? done k ≡ some (mask, this)) × ((suc k ≢ length done) ⊎ (last ≡ this))
IsHere this done _ _ _ = ⊥

pub record IsScanned (s : LoadBalancingService) (this : ThreadIdentifier) (done : List TableRow)
    (v : Scan) : Type 0 where
  pub counted : v.i ≡ length done
  pub at_max : read_load s v.max_load_thread_id ≡ ok v.max_load
  pub at_min : read_load s v.min_load_thread_id ≡ ok v.min_load
  pub own_in_range : InRange v (read_load s this)
  pub in_range : All (λ row. InRange v (read_load s row.1)) done
  pub is_here : IsHere this done v.this_thread_row_index v.this_thread_bitmask v.last_thread_id

module _ (s : LoadBalancingService) (this : ThreadIdentifier) where
  InRange-wider :
      (v w : Scan) (r : Result CheckError Load)
      → w.min_load ≤ v.min_load
      → v.max_load ≤ w.max_load
      → InRange v r
      → InRange w r
  InRange-wider v w (err e) lo hi h = tt
  InRange-wider v w (ok load) lo hi h = omega arith

  all_wider :
      (v w : Scan) (done : List TableRow)
      → w.min_load ≤ v.min_load
      → v.max_load ≤ w.max_load
      → All (λ row. InRange v (read_load s row.1)) done
      → All (λ row. InRange w (read_load s row.1)) done
  all_wider v w [] lo hi h = tt
  all_wider v w (row ∷ done) lo hi h =
      (InRange-wider v w (read_load s row.1) lo hi h.0, all_wider v w done lo hi h.1)

  IsHere-passed :
      (done : List TableRow) (row : TableRow) (k : Option ℕ)
      (mask : Option (Bitmask AccountRouting)) (last : Option ThreadIdentifier)
      → (row.1 == this) ≡ false
      → IsHere this done k mask last
      → IsHere this (done ++ (row ∷ [])) k mask last
  IsHere-passed done row none none last other h = All-append _ done (row ∷ []) h (other, tt)
  IsHere-passed done row none (some mask) last other h = elim h [ ]
  IsHere-passed done row (some k) none last other h = elim h [ ]
  IsHere-passed done row (some k) (some mask) none other h = elim h [ ]
  IsHere-passed done row (some k) (some mask) (some last) other h =
      let (at, lt) = get_elem?-append done (row ∷ []) k (mask, this) h.0 in
      (at, inl (λ e. omega (arith, length-append done (row ∷ []))))

  IsHere-other :
      (done : List TableRow) (row : TableRow) (k : Option ℕ)
      (mask : Option (Bitmask AccountRouting)) (last : Option ThreadIdentifier)
      → (row.1 == this) ≡ false
      → IsHere this done k mask last
      → IsHere this (done ++ (row ∷ [])) k mask (some row.1)
  IsHere-other done row none none last other h = All-append _ done (row ∷ []) h (other, tt)
  IsHere-other done row none (some mask) last other h = elim h [ ]
  IsHere-other done row (some k) none last other h = elim h [ ]
  IsHere-other done row (some k) (some mask) none other h = elim h [ ]
  IsHere-other done row (some k) (some mask) (some last) other h =
      let (at, lt) = get_elem?-append done (row ∷ []) k (mask, this) h.0 in
      (at, inl (λ e. omega (arith, length-append done (row ∷ []))))

  IsScanned-unknown :
      (done : List TableRow) (row : TableRow) (v : Scan) (e : CheckError)
      → read_load s row.1 ≡ err e
      → (row.1 == this) ≡ false
      → IsScanned s this done v
      → IsScanned s this (done ++ (row ∷ [])) (scan_row this row (err e) v)
  unfolding scan_row
  IsScanned-unknown done row v e unknown other h = record {
    counted = omega (arith, length-append done (row ∷ []), h.counted);
    at_max = h.at_max;
    at_min = h.at_min;
    own_in_range =
        InRange-wider v (record v { i = v.i + 1 }) (read_load s this) (omega arith) (omega arith)
          h.own_in_range;
    in_range =
        All-append _ done (row ∷ [])
          (all_wider v (record v { i = v.i + 1 }) done (omega arith) (omega arith) h.in_range)
          (rw unknown tt, tt);
    is_here =
        IsHere-passed done row v.this_thread_row_index v.this_thread_bitmask v.last_thread_id other
          h.is_here;
  }

  -- The variables after a row whose load is known.
  abbrev known : TableRow → Load → Scan → Scan
  known row load v = scan_row this row (ok load) v

  known-range :
      (row : TableRow) (load : Load) (v : Scan)
      → ((known row load v).min_load ≤ v.min_load)
        × (v.max_load ≤ (known row load v).max_load)
        × ((known row load v).min_load ≤ load)
        × (load ≤ (known row load v).max_load)
        × ((known row load v).i ≡ v.i + 1)
        × ((known row load v).last_thread_id ≡ some row.1)
  unfolding scan_row
  known-range row load v = ground arith

  known-max :
      (row : TableRow) (load : Load) (v : Scan)
      → read_load s row.1 ≡ ok load
      → read_load s v.max_load_thread_id ≡ ok v.max_load
      → read_load s (known row load v).max_load_thread_id ≡ ok (known row load v).max_load
  unfolding scan_row
  known-max row load v e h = ground arith

  known-min :
      (row : TableRow) (load : Load) (v : Scan)
      → read_load s row.1 ≡ ok load
      → read_load s v.min_load_thread_id ≡ ok v.min_load
      → read_load s (known row load v).min_load_thread_id ≡ ok (known row load v).min_load
  unfolding scan_row
  known-min row load v e h = ground arith

  known-here :
      (row : TableRow) (load : Load) (v : Scan)
      → ((known row load v).this_thread_row_index
          ≡ (if row.1 == this then some v.i else v.this_thread_row_index))
        × ((known row load v).this_thread_bitmask
            ≡ (if row.1 == this then some row.0 else v.this_thread_bitmask))
  unfolding scan_row
  known-here row load v = ground arith

  IsHere-known :
      (done : List TableRow) (row : TableRow) (load : Load) (v : Scan)
      → IsScanned s this done v
      → IsHere this
          (done ++ (row ∷ []))
          (known row load v).this_thread_row_index
          (known row load v).this_thread_bitmask
          (known row load v).last_thread_id
  IsHere-known done row load v h =
      let (at, mask) = known-here row load v in
      let last = (known-range row load v).5 in
      elim (Bool-cases (row.1 == this)) [
        | inl same ↦
            let is_this : row.1 ≡ this = (nat_beq_iff row.1 this).0 same in
            rw (at, mask, last, same)
              (
                rw h.counted (get_elem?-snoc done row ∙ ap (λ t. some (row.0, t)) is_this),
                inr is_this,
              )
        | inr other ↦
            rw (at, mask, last, other)
              (IsHere-other done row v.this_thread_row_index v.this_thread_bitmask v.last_thread_id
                other h.is_here)
      ]

  IsScanned-known :
      (done : List TableRow) (row : TableRow) (load : Load) (v : Scan)
      → read_load s row.1 ≡ ok load
      → IsScanned s this done v
      → IsScanned s this (done ++ (row ∷ [])) (known row load v)
  IsScanned-known done row load v e h =
      let (lower, higher, below, above, next, last) = known-range row load v in
      record {
        counted = omega (arith, length-append done (row ∷ []), h.counted, next);
        at_max = known-max row load v e h.at_max;
        at_min = known-min row load v e h.at_min;
        own_in_range =
            InRange-wider v (known row load v) (read_load s this) lower higher h.own_in_range;
        in_range =
            All-append _ done (row ∷ [])
              (all_wider v (known row load v) done lower higher h.in_range)
              (rw e (below, above), tt);
        is_here = IsHere-known done row load v h;
      }

  module _ (current_load : Load) (ready : read_load s this ≡ ok current_load) where
    unknown_other :
        (row : TableRow) (e : CheckError) → read_load s row.1 ≡ err e → (row.1 == this) ≡ false
    unknown_other row e unknown = elim (==_cases row.1 this) [
      | inl (same, _) ↦ cc (ap (read_load s) same, unknown, ready)
      | inr (_, other) ↦ other
    ]

    scan_rows-IsScanned :
        (done rows : List TableRow) (v : Scan)
        → IsScanned s this done v
        → IsScanned s this (done ++ rows) (scan_rows s this rows v)
    unfolding scan_rows
    scan_rows-IsScanned done [] v h = rw (append-nil done) h
    scan_rows-IsScanned done (row ∷ rows) v h =
        let after : IsScanned s this (done ++ (row ∷ []))
            (scan_row this row (read_load s row.1) v) =
          elim (Result-cases (read_load s row.1)) [
            | inl (e, unknown) ↦
                rw unknown (IsScanned-unknown done row v e unknown (unknown_other row e unknown) h)
            | inr (load, is_known) ↦ rw is_known (IsScanned-known done row load v is_known h)
          ] in
        subst (λ l. IsScanned s this l (scan_rows s this (row ∷ rows) v))
          (append_assoc done (row ∷ []) rows)
          (scan_rows-IsScanned (done ++ (row ∷ [])) rows (scan_row this row (read_load s row.1) v)
            after)

    start_scan-IsScanned : IsScanned s this [] (start_scan this current_load)
    unfolding start_scan
    start_scan-IsScanned = record {
      counted = refl;
      at_max = ready;
      at_min = ready;
      own_in_range = rw ready (omega arith);
      in_range = tt;
      is_here = tt;
    }

    -- All rows.
    pub scan_rows_all :
        (rows : List TableRow)
        → IsScanned s this rows (scan_rows s this rows (start_scan this current_load))
    scan_rows_all rows =
        scan_rows-IsScanned [] rows (start_scan this current_load) start_scan-IsScanned
