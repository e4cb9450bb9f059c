-- ===== src/LoadBalancing/Service.antt =====
use ackinacki.Routing.Address.{AccountRouting, routing_bits}
use ackinacki.Routing.Bitmask.{Bitmask, mask_eq}
use ackinacki.Routing.Table.{BitmasksTable, Row, insert_above, remove, len}
use ackinacki.Types.{BlockIdentifier, ThreadIdentifier}
use ackinacki.Identity.{new_thread_identifier, is_spawning_block}
use ackinacki.Common.Assoc.{Assoc, get, insert}
use ackinacki.LoadBalancing.Aggregated.{
  AggregatedLoad, BlockLoad, Load, new_load, is_ready, reset, load_value, propose_new_bitmask,
  append_from,
}
use mathlib.Core.Option
use ackinacki.Common.{
  ◌^◌, ensure, ◌>>◌, ok_or, ◌*◌, any, ◌>>=◌, ◌&&◌, ◌||◌, ◌+◌, not, ok, err, leb, ◌==◌, ltb, Result,
  if◌then◌else◌, inr, inl, Bool-cases, Option-cases, ◌∙◌, ap, sym, refl, suc, zero, arith, ◌≡◌, ℕ,
  Option, List, Bool, false, true, some, none, ◌∷◌, [], nat_eq,
}
pub mod Rows
pub mod Total
pub mod Splitting
pub mod Proposal

-- node/src/multithreading/load_balancing_service: mod.rs, threads_split.rs and threads_merge.rs. What a
-- thread is to do after its load, and how finalized blocks and threads that start or stop change the
-- loads.

abbrev pub ThreadsTable : Type 0
ThreadsTable = BitmasksTable AccountRouting ThreadIdentifier

-- The features of the build: allow-threads-merge, and how many parts of a route may be split.
pub record Features : Type 0 where
  pub allow_threads_merge : Bool
  pub route_parts : ℕ

abbrev pub max_load_disproportion : Load
max_load_disproportion = 2

pub data ThreadAction : Type 0 where
  continue_as_is : ThreadAction
  split collapse : ThreadsTable → ThreadAction

pub data CheckError : Type 0 where
  stats_are_not_ready thread_is_not_in_the_table : CheckError

pub record LoadBalancingService : Type 0 where
  pub thread_load_map : Assoc ThreadIdentifier AggregatedLoad
  pub window_size : ℕ
  pub load_threshold : Load

pub start : ℕ → Load → LoadBalancingService
start window_size load_threshold = record {
  thread_load_map = [];
  window_size = window_size;
  load_threshold = load_threshold;
}

unfoldable pub read_load : LoadBalancingService → ThreadIdentifier → Result CheckError Load
unfolding is_ready load_value
read_load s thread = do
  load ← ok_or (get thread s.thread_load_map) stats_are_not_ready
  ensure (is_ready load) stats_are_not_ready
  ok (load_value load)

-- The variables of the loop over the rows.
pub record Scan : Type 0 where
  pub min_load : Load
  pub min_load_thread_id : ThreadIdentifier
  pub max_load : Load
  pub max_load_thread_id : ThreadIdentifier
  pub last_thread_id : Option ThreadIdentifier
  pub pre_last_thread_id : Option ThreadIdentifier
  pub this_thread_row_index : Option ℕ
  pub this_thread_bitmask : Option (Bitmask AccountRouting)
  pub i : ℕ

pub start_scan : ThreadIdentifier → Load → Scan
start_scan thread current_load = record {
  min_load = current_load;
  min_load_thread_id = thread;
  max_load = current_load;
  max_load_thread_id = thread;
  last_thread_id = none;
  pre_last_thread_id = none;
  this_thread_row_index = none;
  this_thread_bitmask = none;
  i = 0;
}

pub note_max : ThreadIdentifier → Load → Scan → Scan
note_max thread load v =
    if ltb v.max_load load then record v { max_load = load; max_load_thread_id = thread } else v

pub note_this : ThreadIdentifier → Row AccountRouting ThreadIdentifier → Scan → Scan
note_this this (bitmask, thread) v =
    if thread == this
    then record v { this_thread_row_index = some v.i; this_thread_bitmask = some bitmask }
    else v

pub note_min : ThreadIdentifier → Load → Scan → Scan
note_min thread load v =
    if leb load v.min_load then record v { min_load = load; min_load_thread_id = thread } else v

-- One row, whose thread's load is ready or is passed over.
pub scan_row :
    ThreadIdentifier → Row AccountRouting ThreadIdentifier → Result CheckError Load → Scan → Scan
unfolding note_max note_this note_min
scan_row this (bitmask, thread) (err e) v = record v { i = v.i + 1 }
scan_row this (bitmask, thread) (ok load) v =
    let seen = note_min thread load (note_this this (bitmask, thread) (note_max thread load v)) in
    record seen {
      pre_last_thread_id = seen.last_thread_id;
      last_thread_id = some thread;
      i = seen.i + 1;
    }

pub scan_rows :
    LoadBalancingService
    → ThreadIdentifier
    → List (Row AccountRouting ThreadIdentifier)
    → Scan
    → Scan
unfolding scan_row read_load
scan_rows s this [] v = v
scan_rows s this ((bitmask, thread) ∷ rows) v =
    scan_rows s this rows (scan_row this (bitmask, thread) (read_load s thread) v)

-- `unwrap` of an edit of the table, where `none` is its panic.
abbrev pub proposal : {A E : Type 0} → (A → ThreadAction) → Result E A → Option ThreadAction
proposal action (ok table) = some (action table)
proposal action (err e) = none

-- `none` is a panic.
pub try_threads_merge :
    Features
    → ThreadIdentifier
    → ℕ
    → ThreadIdentifier
    → Option ThreadIdentifier
    → ThreadIdentifier
    → ThreadsTable
    → Option ThreadAction
try_threads_merge features this row_index min_thread pre_default default_thread table =
    if not features.allow_threads_merge || default_thread == this
    then some continue_as_is
    else elim pre_default [
      | none ↦ some continue_as_is
      | some pre_default_thread ↦
          if min_thread == this || min_thread == default_thread && this == pre_default_thread
          then proposal (λ (row, next). collapse next) (remove table row_index)
          else some continue_as_is
    ]

-- What follows once the loads allow a split.
pub propose_split :
    BlockIdentifier → ℕ → ThreadsTable → Option (Bitmask AccountRouting) → Option ThreadAction
unfolding new_thread_identifier
propose_split block row_index table none = some continue_as_is
propose_split block row_index table (some mask) =
    if any (λ (other, _). other == mask) table.masks
    then some continue_as_is
    else proposal split (insert_above table row_index mask (new_thread_identifier block 0))

pub split_or_panic :
    BlockIdentifier
    → ℕ
    → ThreadsTable
    → Option (Option (Bitmask AccountRouting))
    → Option ThreadAction
unfolding propose_split
split_or_panic block row_index table none = none
split_or_panic block row_index table (some proposed_mask) =
    propose_split block row_index table proposed_mask

-- The test of the loads, whose product is a usize; `none` is the panic of its overflow.
unfoldable pub is_balanced : Load → Load → Load → Option Bool
is_balanced max_load min_load coefficient =
    if ltb (coefficient * min_load) (2 ^ 64)
    then some (leb max_load (coefficient * min_load))
    else none

unfoldable pub unless_balanced : Option Bool → Option ThreadAction → Option ThreadAction
unless_balanced none proposed = none
unless_balanced (some true) proposed = some continue_as_is
unless_balanced (some false) proposed = proposed

pub try_threads_split :
    Features
    → BlockIdentifier
    → ThreadIdentifier
    → ℕ
    → AggregatedLoad
    → Bitmask AccountRouting
    → Load
    → Load
    → Load
    → ThreadIdentifier
    → ThreadsTable
    → ℕ
    → Option ThreadAction
unfolding split_or_panic propose_new_bitmask len is_balanced unless_balanced
try_threads_split features block this row_index load bitmask max_load min_load coefficient
      max_thread table max_table_size =
    let proposed =
      split_or_panic block row_index table
        (propose_new_bitmask features.route_parts load bitmask) in
    if not (max_thread == this)
    then some continue_as_is
    else if leb max_table_size (len table)
    then unless_balanced (is_balanced max_load min_load coefficient) proposed
    else proposed

-- The branch of a high load: this thread may split, and its own load starts over.
pub split_this :
    Features
    → LoadBalancingService
    → BlockIdentifier
    → ThreadIdentifier
    → ThreadsTable
    → ℕ
    → Scan
    → ℕ
    → Bitmask AccountRouting
    → Option AggregatedLoad
    → Option (Result CheckError ThreadAction × LoadBalancingService)
unfolding try_threads_split reset
split_this features s block this table max_table_size v row_index bitmask none =
    some (err thread_is_not_in_the_table, s)
split_this features s block this table max_table_size v row_index bitmask (some load) =
    Option.map
      (λ action.
        (ok action, record s { thread_load_map = insert this (reset load) s.thread_load_map }))
      (try_threads_split features block this row_index load bitmask v.max_load v.min_load
        max_load_disproportion v.max_load_thread_id table max_table_size)

-- What follows the loop: the row of this thread, its mask and the last thread that were found.
pub decide :
    Features
    → LoadBalancingService
    → BlockIdentifier
    → ThreadIdentifier
    → ThreadsTable
    → ℕ
    → Scan
    → ℕ
    → Bitmask AccountRouting
    → ThreadIdentifier
    → Option (Result CheckError ThreadAction × LoadBalancingService)
unfolding try_threads_merge split_this len
decide features s block this table max_table_size v row_index bitmask last =
    if ltb max_table_size (len table)
    then Option.map (λ action. (ok action, s))
        (try_threads_merge features this row_index v.min_load_thread_id v.pre_last_thread_id last
          table)
    else if leb s.load_threshold v.max_load
    then split_this features s block this table max_table_size v row_index bitmask
        (get this s.thread_load_map)
    else some (ok continue_as_is, s)

-- The three `unwrap`s after the loop, where `none` is their panic.
pub located :
    Features
    → LoadBalancingService
    → BlockIdentifier
    → ThreadIdentifier
    → ThreadsTable
    → ℕ
    → Scan
    → Option ℕ
    → Option (Bitmask AccountRouting)
    → Option ThreadIdentifier
    → Option (Result CheckError ThreadAction × LoadBalancingService)
unfolding decide
located features s block this table max_table_size v none bitmask last =
    some (err thread_is_not_in_the_table, s)
located features s block this table max_table_size v (some row_index) none last = none
located features s block this table max_table_size v (some row_index) (some bitmask) none = none
located features s block this table max_table_size v (some row_index) (some bitmask) (some last) =
    decide features s block this table max_table_size v row_index bitmask last

pub after_scan :
    Features
    → LoadBalancingService
    → BlockIdentifier
    → ThreadIdentifier
    → ThreadsTable
    → ℕ
    → Scan
    → Option (Result CheckError ThreadAction × LoadBalancingService)
unfolding located
after_scan features s block this table max_table_size v =
    located features s block this table max_table_size v v.this_thread_row_index
      v.this_thread_bitmask v.last_thread_id

-- What follows the reading of the own load.
pub check_loaded :
    Features
    → LoadBalancingService
    → BlockIdentifier
    → ThreadIdentifier
    → ThreadsTable
    → ℕ
    → Result CheckError Load
    → Option (Result CheckError ThreadAction × LoadBalancingService)
unfolding start_scan scan_rows after_scan
check_loaded features s block this table max_table_size (err e) = some (err e, s)
check_loaded features s block this table max_table_size (ok current_load) =
    after_scan features s block this table max_table_size
      (scan_rows s this table.masks (start_scan this current_load))

-- `none` is a panic.
unfoldable pub check :
    Features
    → LoadBalancingService
    → BlockIdentifier
    → ThreadIdentifier
    → ThreadsTable
    → ℕ
    → Option (Result CheckError ThreadAction × LoadBalancingService)
unfolding check_loaded
check features s block this table max_table_size =
    if ltb 0 max_table_size
    then check_loaded features s block this table max_table_size (read_load s this)
    else none
