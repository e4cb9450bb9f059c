-- ===== src/SharedServices/Examples.antt =====
use ackinacki.LoadBalancing.Threads.{load_subscriber}
use ackinacki.Identity.{is_spawning_block}
use ackinacki.ThreadsTracking.{track_block_finalized, list_threads}
use ackinacki.FixedSize.Members.{new_set, contains_member}
use ackinacki.FixedSize.Members.AsMap.{new_set-IsFifo}
use ackinacki.LoadBalancing.Aggregated.{AggregatedLoad, new_load}
use ackinacki.LoadBalancing.Aggregated.Window.{new_load-IsWindow, IsWindow}
use ackinacki.LoadBalancing.Service.{LoadBalancingService, ThreadsTable}
use ackinacki.LoadBalancing.Threads.Keys.{has_load-track_block_finalized, has_load}
use ackinacki.Routing.Address.{routing_default}
use ackinacki.Types.{ThreadIdentifier}
use ackinacki.ThreadsTracking.Subscribers.{new_threads}
use ackinacki.Common.Assoc.{get-insert_cases, insert, contains_key, get}
use ackinacki.SharedServices.{Container, FinalizedBlock, on_block_finalized}
use ackinacki.SharedServices.Finalized.{
  IsRunning, alive, loaded_after, on_block_finalized_stopped, on_block_finalized-loads,
}
use ackinacki.Common.{
  ◌==◌, ◌||◌, contains, if◌then◌else◌, map, subst, ◌++◌, inr, inl, refl, arith, ◌≡◌, false, true,
  some, none, ◌∷◌, [], nat_eq,
}

-- Finalized blocks of node/src/node/shared_services.rs at concrete inputs.

abbrev loads : LoadBalancingService
loads = record { thread_load_map = (5, new_load 2) ∷ []; window_size = 2; load_threshold = 5000 }

abbrev container : Container
container = record {
  thread_sync = [];
  load_balancing = loads;
  router = [];
  finalized_blocks = new_set 3;
}

loads-IsWindow :
    (t : ThreadIdentifier) (l : AggregatedLoad) → get t loads.thread_load_map ≡ some l → IsWindow l
unfolding get insert
loads-IsWindow t l e = elim (get-insert_cases 5 t (new_load 2) l [] e) [
  | inl (_, same) ↦ subst IsWindow same (new_load-IsWindow 2 (omega arith) (omega arith))
  | inr missing ↦ cc missing
]

container-IsRunning : IsRunning container
unfolding new_set
container-IsRunning = record {
  prepared = record { has_window = omega arith; few = omega arith; windows = loads-IsWindow };
  has_room = omega arith;
  is_fifo = new_set-IsFifo 3;
}

abbrev with_row : ThreadIdentifier → ThreadsTable
with_row thread = record {
  masks =
      (record { mask_bits = routing_default; meaningful_mask_bits = routing_default }, thread) ∷ [];
}

abbrev block_of : ThreadIdentifier → FinalizedBlock
block_of row = record {
  block_identifier = 77;
  thread_identifier = 5;
  produced_threads_table = with_row row;
  changed_threads_table = none;
  load = record { queue_length = 40; dapp_id_table = []; in_messages = [] };
}

fresh : contains_member container.finalized_blocks 77 ≡ false
unfolding contains_member new_set
fresh = refl

-- The table that the block leaves has another thread only.
ended : alive container (block_of 6) ≡ false
unfolding list_threads
ended = refl

stays : alive container (block_of 5) ≡ true
unfolding list_threads
stays = refl

is_loaded : loaded_after container (block_of 5) 5 ≡ true
unfolding list_threads contains_key is_spawning_block
is_loaded = refl

on_block_finalized_stopped_example : on_block_finalized container (block_of 6) ≡ none
on_block_finalized_stopped_example =
    on_block_finalized_stopped container (block_of 6) container-IsRunning.has_room
      container-IsRunning.is_fifo fresh ended

on_block_finalized-loads_example :
    (next : Container) × (on_block_finalized container (block_of 5) ≡ some next)
    × IsRunning next
    × ((t : ThreadIdentifier)
        → has_load next.load_balancing t ≡ loaded_after container (block_of 5) t)
    × (next.router ≡ [] ++ map (λ t. (t, 77)) (new_threads 77 (with_row 5)))
    × (on_block_finalized next (block_of 5) ≡ some next)
on_block_finalized-loads_example =
    on_block_finalized-loads container (block_of 5) container-IsRunning (omega arith) fresh stays
      is_loaded

abbrev own : ThreadIdentifier
own = 5

has_load-track_block_finalized_example :
    has_load (track_block_finalized load_subscriber 77 own (with_row 6) loads) own ≡ (
      if contains own (list_threads (with_row 6))
      then contains own (new_threads 77 (with_row 6)) || has_load loads own
      else (if own == own
          then false
          else contains own (new_threads 77 (with_row 6)) || has_load loads own))
has_load-track_block_finalized_example =
    has_load-track_block_finalized 77 own own (with_row 6) loads
