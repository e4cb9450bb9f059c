-- ===== src/LoadBalancing/Service/Proposal.antt =====
use ackinacki.LoadBalancing.Accounts.Split.{IsCounted}
use ackinacki.LoadBalancing.Accounts.{InThreadAccountsLoad, best_split}
use ackinacki.Routing.Address.{AccountRouting, routing_bits}
use ackinacki.Routing.Address.Laws.{IsRouting}
use ackinacki.Routing.Bitmask.{Bitmask, is_match}
use ackinacki.Routing.Table.{insert_at, insert_above, find_match, find_row}
use ackinacki.Routing.Table.Lookup.{insert_above_ok, find_match-insert_above, find_match-get_elem?}
use ackinacki.Types.{ThreadIdentifier, BlockIdentifier}
use ackinacki.Identity.{new_thread_identifier}
use ackinacki.LoadBalancing.Accounts.Halves.{Halves, best_split-Halves}
use ackinacki.LoadBalancing.Aggregated.{Load}
use ackinacki.LoadBalancing.Service.Rows.{IsHere, IsScanned, scan_rows_all}
use ackinacki.LoadBalancing.Service.Total.{IsWithin, IsMaskRow, All_of_get_elem?}
use ackinacki.LoadBalancing.Service.Splitting.{IsSplit, decide-IsSplit}
use ackinacki.LoadBalancing.Service.{
  Features, split, ThreadsTable, LoadBalancingService, CheckError, Scan, located, after_scan,
  check_loaded, check, read_load, start_scan, scan_rows,
}
use ackinacki.Common.{
  drop, ◌++◌, Option-cases, suc, zero, false, take, or_else, ◌⊎◌, subst, ◌≤◌, ltb, get_elem?, err,
  All, ok, Result, inr, inl, Bool-cases, ◌∙◌, ap, sym, refl, arith, ◌≡◌, ℕ, Option, List, true,
  some, none, ◌∷◌, [], nat_eq,
}

-- What a split that a check of load_balancing_service/mod.rs proposes says of the loads, and what the
-- proposed table does to the accounts.

insert_at-take {ℓ} :
    {A : Type ℓ} (k : ℕ) (x : A) (xs : List A) → insert_at k x xs ≡ take k xs ++ (x ∷ drop k xs)
unfolding insert_at
insert_at-take zero x xs = refl
insert_at-take (suc k) x [] = refl
insert_at-take (suc k) x (y ∷ xs) = ap (λ l. y ∷ l) (insert_at-take k x xs)

-- A load that is not known, or not above another.
abbrev pub IsAtMost : Load → Result CheckError Load → Type 0
IsAtMost own (err e) = Unit
IsAtMost own (ok load) = load ≤ own

module _ (features : Features) (s : LoadBalancingService) (block : BlockIdentifier)
    (this : ThreadIdentifier) (table t : ThreadsTable) (n : ℕ) (s' : LoadBalancingService) where
  -- The row of this thread, and the scan of a table that made the split.
  record IsFrom : Type 0 where
    scan : Scan
    row_index : ℕ
    mask : Bitmask AccountRouting
    own_load : Load
    own : read_load s this ≡ ok own_load
    scanned : IsScanned s this table.masks scan
    at_row : get_elem? table.masks row_index ≡ some (mask, this)
    is_split : IsSplit features block this table t row_index s n scan mask

  located-IsFrom :
      (own_load : Load) (v : Scan)
      → read_load s this ≡ ok own_load
      → IsScanned s this table.masks v
      → (k : Option ℕ) (mask : Option (Bitmask AccountRouting)) (last : Option ThreadIdentifier)
      → IsHere this table.masks k mask last
      → located features s block this table n v k mask last ≡ some (ok (split t), s')
      → IsFrom
  unfolding located
  located-IsFrom l v own scanned none none last here e = cc
  located-IsFrom l v own scanned none (some mask) last here e = elim here [ ]
  located-IsFrom l v own scanned (some k) none last here e = elim here [ ]
  located-IsFrom l v own scanned (some k) (some mask) none here e = elim here [ ]
  located-IsFrom l v own scanned (some k) (some mask) (some last) here e = record {
    scan = v;
    row_index = k;
    mask = mask;
    own_load = l;
    own = own;
    scanned = scanned;
    at_row = here.0;
    is_split = decide-IsSplit features block this table t k s n v mask last s' e;
  }

  loaded-IsFrom :
      (r : Result CheckError Load)
      → read_load s this ≡ r
      → check_loaded features s block this table n r ≡ some (ok (split t), s')
      → IsFrom
  unfolding check_loaded after_scan
  loaded-IsFrom (err e) own h = cc
  loaded-IsFrom (ok l) own h =
      let scanned = scan_rows_all s this l own table.masks in
      let v = scan_rows s this table.masks (start_scan this l) in
      located-IsFrom l v own scanned v.this_thread_row_index v.this_thread_bitmask v.last_thread_id
        scanned.is_here h

  check-IsFrom : check features s block this table n ≡ some (ok (split t), s') → IsFrom
  unfolding check
  check-IsFrom e = elim (Bool-cases (ltb 0 n)) [
    | inl room ↦ loaded-IsFrom (read_load s this) refl (rw room at e)
    | inr empty ↦ cc (rw empty at e)
  ]

  halves-own :
      (parts : ℕ) (load : InThreadAccountsLoad) (mask new : Bitmask AccountRouting)
      (a : AccountRouting)
      → parts ≤ 2
      → IsCounted load
      → IsRouting mask.mask_bits
      → IsRouting mask.meaningful_mask_bits
      → IsRouting a
      → best_split parts load mask ≡ some (some new)
      → is_match new a ≡ true
      → is_match mask a ≡ true
  halves-own parts load mask new a few counted bits meaningful ra found h =
      by_cases (best_split-Halves parts load mask a few counted bits meaningful ra)
    where
      by_cases :
          ((o : Option (Bitmask AccountRouting)) × (best_split parts load mask ≡ some o)
            × Halves parts load mask a o)
          → is_match mask a ≡ true
      by_cases (none, e, halves) = cc
      by_cases (some other, e, (index, best, both)) =
          let same : other ≡ new = ground arith in
          (both.0 (subst (λ m. is_match m a ≡ true) (sym same) h)).0

  takes_own :
      (f : IsFrom) (a : AccountRouting)
      → features.route_parts ≤ 2
      → IsWithin s
      → All IsMaskRow table.masks
      → IsRouting a
      → (new : Bitmask AccountRouting) × (is_match new a ≡ true → is_match f.mask a ≡ true)
        × (insert_above table f.row_index new (new_thread_identifier block 0) ≡ ok t)
  takes_own f a few within masks ra =
      let (load, there, new, found, inserted) = f.is_split.proposed in
      let (bits, meaningful) =
        All_of_get_elem? IsMaskRow table.masks f.row_index (f.mask, this) masks f.at_row in
      (
        new,
        halves-own features.route_parts load.aggregated_value.1 f.mask new a few
            (within this load there).1 bits meaningful ra found,
        inserted,
      )

  -- What the new row `new` above the row `k` does to an account: it moves exactly if the new mask and no
  -- row above it matches.
  abbrev pub Moves : AccountRouting → ℕ → Bitmask AccountRouting → Type 0
  Moves a k new =
      ((is_match new a ≡ true)
        × (find_row a (take k table.masks) ≡ none)
        × (find_match table a ≡ some this)
        × (find_match t a ≡ some (new_thread_identifier block 0)))
      ⊎ (((is_match new a ≡ false)
            ⊎ ((above : ThreadIdentifier) × (find_row a (take k table.masks) ≡ some above)))
          × (find_match t a ≡ find_match table a))

  routed :
      (k : ℕ) (new : Bitmask AccountRouting) (a : AccountRouting)
      → is_match new a ≡ true
      → find_match table a ≡ or_else (find_row a (take k table.masks)) (some this)
      → find_match t a
        ≡ or_else (find_row a (take k table.masks)) (some (new_thread_identifier block 0))
      → Moves a k new
  routed k new a taken old now = elim (Option-cases (find_row a (take k table.masks))) [
    | inl e ↦ inl (
      taken,
      e,
      old ∙ ap (λ o. or_else o (some this)) e,
      now ∙ ap (λ o. or_else o (some (new_thread_identifier block 0))) e,
    )
    | inr (above, e) ↦ inr (
      inr (above, e),
      now
          ∙ ap (λ o. or_else o (some (new_thread_identifier block 0))) e
          ∙ sym (old ∙ ap (λ o. or_else o (some this)) e),
    )
  ]

  -- With at most two parts of a route to split, addresses and masks of two halves of 32 bytes, and loads and
  -- totals of messages below 2 ^ 63, the table of a proposed split is the old one with one new row directly
  -- above a row of the thread that splits, for the new thread. An account moves, from the thread that splits
  -- to the new one, exactly if the new mask matches it and no row above does; every other account goes where
  -- it went.
  pub check_split-find_match :
      (a : AccountRouting)
      → features.route_parts ≤ 2
      → IsWithin s
      → All IsMaskRow table.masks
      → IsRouting a
      → check features s block this table n ≡ some (ok (split t), s')
      → (k : ℕ) × (mask new : Bitmask AccountRouting) × (get_elem? table.masks k
          ≡ some (mask, this))
        × (t.masks
            ≡ take k table.masks ++ ((new, new_thread_identifier block 0) ∷ drop k table.masks))
        × Moves a k new
  check_split-find_match a few within masks ra e =
      let f = check-IsFrom e in
      let (new, own, inserted) = takes_own f a few within masks ra in
      let now =
        find_match-insert_above table t f.row_index new (new_thread_identifier block 0) a
          inserted in
      let (lt, rows) =
        insert_above_ok table t f.row_index new (new_thread_identifier block 0) inserted in
      (
        f.row_index,
        f.mask,
        new,
        f.at_row,
        rows ∙ insert_at-take f.row_index (new, new_thread_identifier block 0) table.masks,
        elim (Bool-cases (is_match new a)) [
          | inl taken ↦
              let before =
                find_match-get_elem? table a f.row_index f.mask this f.at_row (own taken) in
              routed f.row_index new a taken before (rw taken at now)
          | inr other ↦ inr (inl other, rw other at now)
        ],
      )
