-- ===== src/LoadBalancing/Threads.antt =====
use ackinacki.Types.{BlockIdentifier, ThreadIdentifier}
use ackinacki.Identity.{is_spawning_block}
use ackinacki.Routing.Address.{AccountRouting}
use ackinacki.Routing.Table.{Row}
use ackinacki.Common.Assoc.{get, insert, remove, contains_key}
use ackinacki.LoadBalancing.Aggregated.{BlockLoad, new_load, reset, append_from}
use ackinacki.LoadBalancing.Service.{LoadBalancingService, ThreadsTable}
use ackinacki.ThreadsTracking.{Subscriber, list_threads}
use mathlib.Core.Option
use ackinacki.Common.{
  inr, inl, Bool-cases, Option-cases, ◌∙◌, ap, sym, refl, suc, zero, ◌≡◌, ℕ, true, get_elem?, ◌&&◌,
  ◌==◌, any, if◌then◌else◌, arith, Option, List, Bool, false, some, none, ◌∷◌, [], nat_eq,
}
pub mod Keys

-- The handlers of load_balancing_service/mod.rs: blocks that are finalized, threads that start and stop.

-- `get_mut` with `reset`; a thread without a load is passed over.
pub reset_load : ThreadIdentifier → LoadBalancingService → LoadBalancingService
reset_load thread s = elim (get thread s.thread_load_map) [
  | none ↦ s
  | some load ↦ record s { thread_load_map = insert thread (reset load) s.thread_load_map }
]

-- The thread of the row below the first row of a thread.
pub parent_of :
    ThreadIdentifier → List (Row AccountRouting ThreadIdentifier) → Option ThreadIdentifier
parent_of thread [] = none
parent_of thread (row ∷ rows) =
    if row.1 == thread
    then Option.map (λ below. below.1) (get_elem? rows 0)
    else parent_of thread rows

pub reset_parent :
    ThreadIdentifier → Option ThreadsTable → LoadBalancingService → LoadBalancingService
reset_parent thread none s = s
reset_parent thread (some table) s = elim (parent_of thread table.masks) [
  | none ↦ s
  | some parent ↦ reset_load parent s
]

pub load_start_thread :
    BlockIdentifier
    → ThreadIdentifier
    → Option ThreadsTable
    → LoadBalancingService
    → LoadBalancingService
load_start_thread block thread table s =
    let prepared = reset_parent thread table s in
    record prepared {
      thread_load_map = insert thread (new_load prepared.window_size) prepared.thread_load_map;
    }

pub load_stop_thread :
    BlockIdentifier → ThreadIdentifier → LoadBalancingService → LoadBalancingService
load_stop_thread block thread s = record s { thread_load_map = remove thread s.thread_load_map }

pub load_subscriber : Subscriber LoadBalancingService
load_subscriber = record {
  handle_start_thread = load_start_thread;
  handle_stop_thread = load_stop_thread;
}

-- The threads table of a block, where it changes it.
unfoldable pub spawned_threads_by : BlockIdentifier → Option ThreadsTable → Bool
spawned_threads_by block none = false
spawned_threads_by block (some table) =
    any (λ thread. is_spawning_block thread block) (list_threads table)

-- `none` is the panic on a thread that is not prepared, or that of an index.
unfoldable pub load_append :
    ThreadIdentifier → BlockLoad → LoadBalancingService → Option LoadBalancingService
load_append thread b s = elim (get thread s.thread_load_map) [
  | none ↦ none
  | some load ↦
      Option.map (λ next. record s { thread_load_map = insert thread next s.thread_load_map })
        (append_from load b)
]

unfoldable pub load_block_finalized :
    BlockIdentifier
    → ThreadIdentifier
    → Option ThreadsTable
    → BlockLoad
    → LoadBalancingService
    → Option LoadBalancingService
load_block_finalized block thread table b s =
    if spawned_threads_by block table && contains_key thread s.thread_load_map
    then some (reset_load thread s)
    else load_append thread b s
