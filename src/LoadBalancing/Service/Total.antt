-- ===== src/LoadBalancing/Service/Total.antt =====
use ackinacki.LoadBalancing.Accounts.Split.{IsCounted}
use ackinacki.Common.Assoc.{get}
use mathlib.Core.Option
use ackinacki.Identity.{new_thread_identifier, new_thread_identifier}
use ackinacki.Routing.Address.{AccountRouting, routing_bits, routing_default}
use ackinacki.Routing.Address.Laws.{IsRouting}
use ackinacki.Routing.Bitmask.{Bitmask}
use ackinacki.Routing.Table.Lookup.{remove_total, insert_above_total}
use ackinacki.Types.{ThreadIdentifier, BlockIdentifier}
use ackinacki.LoadBalancing.Accounts.Halves.{best_split-Halves}
use ackinacki.LoadBalancing.Aggregated.{load_value, Load, AggregatedLoad, propose_new_bitmask}
use ackinacki.LoadBalancing.Service.Rows.{TableRow, IsHere, scan_rows_all}
use ackinacki.LoadBalancing.Service.{
  is_balanced, unless_balanced, check_loaded, split_this, split_or_panic, max_load_disproportion,
  thread_is_not_in_the_table, proposal, continue_as_is, Features, ThreadAction, ThreadsTable,
  LoadBalancingService, CheckError, Scan, try_threads_merge, propose_split, try_threads_split,
  decide, located, after_scan, check, read_load, start_scan, scan_rows,
}
use ackinacki.Common.{
  leb, ◌*◌, ltb, ◌^◌, Bool-cases, Option-cases, err, ok, ◌≤◌, Result, if◌then◌else◌, ◌⊎◌, ◌≢◌,
  length, subst, ◌<◌, get_elem?, All, inr, inl, refl, suc, zero, arith, ◌≡◌, ℕ, Option, List, Bool,
  false, true, some, none, ◌∷◌, [], nat_eq,
}

-- The panics of load_balancing_service/mod.rs do not happen.

-- The masks of the rows are over two halves of 32 bytes.
abbrev pub IsMaskRow : TableRow → Type 0
IsMaskRow row = IsRouting row.0.mask_bits × IsRouting row.0.meaningful_mask_bits

pub All_of_get_elem? {ℓ κ} :
    {A : Type ℓ} (P : A → Type κ) (xs : List A) (k : ℕ) (x : A)
    → All P xs
    → get_elem? xs k ≡ some x
    → P x
All_of_get_elem? P [] k x h e = cc
All_of_get_elem? P (y ∷ xs) zero x h e = subst P (ground arith) h.0
All_of_get_elem? P (y ∷ xs) (suc k) x h e = All_of_get_elem? P xs k x h.1 e

get_elem?-some :
    {A : Type 0} (xs : List A) (k : ℕ) (x : A) → get_elem? xs k ≡ some x → k < length xs
get_elem?-some [] k x e = cc
get_elem?-some (y ∷ xs) zero x e = omega arith
get_elem?-some (y ∷ xs) (suc k) x e = omega (arith, get_elem?-some xs k x e)

-- The loads are far from an overflow.
abbrev pub IsWithin : LoadBalancingService → Type 0
IsWithin s =
    (t : ThreadIdentifier) (l : AggregatedLoad)
    → get t s.thread_load_map ≡ some l
    → (load_value l < 2 ^ 63) × IsCounted l.aggregated_value.1

-- A load that is read is the one of a thread.
pub read_load-bound :
    (s : LoadBalancingService) (t : ThreadIdentifier) (load : Load)
    → IsWithin s
    → read_load s t ≡ ok load
    → load < 2 ^ 63
unfolding read_load
read_load-bound s t load within h = elim (Option-cases (get t s.thread_load_map)) [
  | inl e ↦ cc (rw (e, read_load) at h)
  | inr (l, e) ↦ ground (arith, (within t l e).0, rw (e, read_load) at h)
]

abbrev Returns {ℓ} : {A : Type ℓ} → Option A → Type ℓ
Returns {A = A} o = (a : A) × (o ≡ some a)

if_Returns {ℓ} :
    {A : Type ℓ} (b : Bool) (x y : Option A) → Returns x → Returns y → Returns (if b then x else y)
if_Returns true x y hx hy = hx
if_Returns false x y hx hy = hy

map-Returns {ℓ κ} :
    {A : Type ℓ} {B : Type κ} (f : A → B) (o : Option A) → Returns o → Returns (Option.map f o)
map-Returns f none (a, e) = cc
map-Returns f (some x) (a, e) = (f x, refl)

proposal-Returns :
    {A E : Type 0} (action : A → ThreadAction) (r : Result E A) (a : A)
    → r ≡ ok a
    → Returns (proposal action r)
proposal-Returns action (ok x) a e = (action x, refl)
proposal-Returns action (err e) a h = cc

module _ (features : Features) (this : ThreadIdentifier) (table : ThreadsTable) (row_index : ℕ)
    (inside : row_index < length table.masks) where
  merge-Returns :
      (min_thread : ThreadIdentifier) (pre_default : Option ThreadIdentifier)
      (last : ThreadIdentifier)
      → (suc row_index ≢ length table.masks) ⊎ (last ≡ this)
      → Returns (try_threads_merge features this row_index min_thread pre_default last table)
  unfolding try_threads_merge
  merge-Returns min_thread none last h =
      if_Returns _ _ _ (continue_as_is, refl) (continue_as_is, refl)
  merge-Returns min_thread (some pre) last (inr same) = (continue_as_is, ground arith)
  merge-Returns min_thread (some pre) last (inl inner) =
      let (row, next, removed) = remove_total table row_index (omega arith) in
      if_Returns _ _ _ (continue_as_is, refl)
        (if_Returns _ _ _ (proposal-Returns _ _ (row, next) removed) (continue_as_is, refl))

  propose-Returns :
      (block : BlockIdentifier) (mask : Option (Bitmask AccountRouting))
      → Returns (propose_split block row_index table mask)
  unfolding propose_split
  propose-Returns block none = (continue_as_is, refl)
  propose-Returns block (some mask) =
      let (next, inserted) =
        insert_above_total table row_index mask (new_thread_identifier block 0) inside in
      if_Returns _ _ _ (continue_as_is, refl) (proposal-Returns _ _ next inserted)

  or_panic-Returns :
      (block : BlockIdentifier) (found : Option (Option (Bitmask AccountRouting)))
      (proposed : Option (Bitmask AccountRouting))
      → found ≡ some proposed
      → Returns (split_or_panic block row_index table found)
  unfolding split_or_panic
  or_panic-Returns block none proposed e = cc
  or_panic-Returns block (some mask) proposed e = propose-Returns block mask

  unless_balanced-Returns :
      (max_load min_load : Load) (proposed : Option ThreadAction)
      → min_load < 2 ^ 63
      → Returns proposed
      → Returns (unless_balanced (is_balanced max_load min_load max_load_disproportion) proposed)
  unfolding unless_balanced is_balanced
  unless_balanced-Returns max_load min_load proposed small (a, e) =
      let fits : ltb (2 * min_load) (2 ^ 64) ≡ true = ground arith in
      elim (Bool-cases (leb max_load (2 * min_load))) [
        | inl balanced ↦ (continue_as_is, ground (arith, fits, balanced))
        | inr apart ↦ (a, ground (arith, fits, apart, e))
      ]

  split-Returns :
      (block : BlockIdentifier) (load : AggregatedLoad) (mask : Bitmask AccountRouting)
      (max_load min_load : Load) (max_thread : ThreadIdentifier) (max_table_size : ℕ)
      → features.route_parts ≤ 2
      → IsCounted load.aggregated_value.1
      → min_load < 2 ^ 63
      → IsRouting mask.mask_bits
      → IsRouting mask.meaningful_mask_bits
      → Returns (
          try_threads_split features block this row_index load mask max_load min_load
            max_load_disproportion max_thread table max_table_size)
  unfolding try_threads_split propose_new_bitmask
  split-Returns block load mask max_load min_load max_thread max_table_size few counted small bits
        meaningful =
      let (proposed, found, _) =
        best_split-Halves features.route_parts load.aggregated_value.1 mask routing_default few
          counted bits meaningful (omega arith) in
      let made = or_panic-Returns block _ proposed found in
      if_Returns _ _ _ (continue_as_is, refl)
        (if_Returns _ _ _ (unless_balanced-Returns max_load min_load _ small made) made)

  module _ (block : BlockIdentifier) (max_table_size : ℕ) (v : Scan) (mask : Bitmask AccountRouting)
      (few : features.route_parts ≤ 2) (small : v.min_load < 2 ^ 63)
      (bits : IsRouting mask.mask_bits) (meaningful : IsRouting mask.meaningful_mask_bits)
      (s : LoadBalancingService) where
    split_this-Returns :
        (o : Option AggregatedLoad)
        → ((l : AggregatedLoad) → o ≡ some l → IsCounted l.aggregated_value.1)
        → Returns (split_this features s block this table max_table_size v row_index mask o)
    unfolding split_this
    split_this-Returns none counted = ((err thread_is_not_in_the_table, s), refl)
    split_this-Returns (some load) counted = map-Returns _ _ (
        split-Returns block load mask v.max_load v.min_load v.max_load_thread_id max_table_size few
          (counted load refl) small bits meaningful)

    decide-Returns :
        (last : ThreadIdentifier)
        → IsWithin s
        → (suc row_index ≢ length table.masks) ⊎ (last ≡ this)
        → Returns (decide features s block this table max_table_size v row_index mask last)
    unfolding decide
    decide-Returns last within h =
        if_Returns _ _ _
          (map-Returns _ _ (merge-Returns v.min_load_thread_id v.pre_last_thread_id last h))
          (if_Returns _ _ _
            (split_this-Returns (get this s.thread_load_map) (λ l e. (within this l e).1))
            ((ok continue_as_is, s), refl))

located-Returns :
    (features : Features) (s : LoadBalancingService) (block : BlockIdentifier)
    (this : ThreadIdentifier) (table : ThreadsTable) (max_table_size : ℕ) (v : Scan) (k : Option ℕ)
    (mask : Option (Bitmask AccountRouting)) (last : Option ThreadIdentifier)
    → features.route_parts ≤ 2
    → IsWithin s
    → v.min_load < 2 ^ 63
    → All IsMaskRow table.masks
    → IsHere this table.masks k mask last
    → Returns (located features s block this table max_table_size v k mask last)
unfolding located
located-Returns features s block this table n v none none last few within small masks h =
    ((err thread_is_not_in_the_table, s), refl)
located-Returns features s block this table n v none (some mask) last few within small masks h =
    elim h [ ]
located-Returns features s block this table n v (some k) none last few within small masks h =
    elim h [ ]
located-Returns features s block this table n v (some k) (some mask) none few within small masks h =
    elim h [ ]
located-Returns features s block this table n v (some k) (some mask) (some last) few within small
      masks (at, h) =
    let (bits, meaningful) = All_of_get_elem? IsMaskRow table.masks k (mask, this) masks at in
    decide-Returns features this table k (get_elem?-some table.masks k (mask, this) at) block n v
      mask few small bits meaningful s last within h

check_loaded-Returns :
    (features : Features) (s : LoadBalancingService) (block : BlockIdentifier)
    (this : ThreadIdentifier) (table : ThreadsTable) (max_table_size : ℕ)
    (r : Result CheckError Load)
    → read_load s this ≡ r
    → features.route_parts ≤ 2
    → IsWithin s
    → All IsMaskRow table.masks
    → Returns (check_loaded features s block this table max_table_size r)
unfolding check_loaded after_scan
check_loaded-Returns features s block this table n (err e) h few within masks = ((err e, s), refl)
check_loaded-Returns features s block this table n (ok current_load) h few within masks =
    let v = scan_rows s this table.masks (start_scan this current_load) in
    let scanned = scan_rows_all s this current_load h table.masks in
    located-Returns features s block this table n v v.this_thread_row_index v.this_thread_bitmask
      v.last_thread_id few within
      (read_load-bound s v.min_load_thread_id v.min_load within scanned.at_min) masks
      scanned.is_here

-- With room for a table, at most two parts of a route to split, masks over two halves of 32 bytes, and
-- loads that are below 2 ^ 63, as are the totals of their messages, with counters of 32 bits, a check does
-- not panic: nothing
-- overflows, no index is out of the table and the default row is never removed, whichever of the threads
-- have a load.
pub check_returns :
    (features : Features) (s : LoadBalancingService) (block : BlockIdentifier)
    (this : ThreadIdentifier) (table : ThreadsTable) (max_table_size : ℕ)
    → 0 < max_table_size
    → features.route_parts ≤ 2
    → IsWithin s
    → All IsMaskRow table.masks
    → (r : Result CheckError ThreadAction × LoadBalancingService) × (check features s block this
          table max_table_size
        ≡ some r)
unfolding check
check_returns features s block this table n room few within masks =
    let (r, e) =
      check_loaded-Returns features s block this table n (read_load s this) refl few within masks in
    (r, ground (arith, e))
