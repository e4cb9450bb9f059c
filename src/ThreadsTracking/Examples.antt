-- ===== src/ThreadsTracking/Examples.antt =====
use ackinacki.LoadBalancing.Service.{ThreadsTable}
use ackinacki.Routing.Address.{routing_default}
use ackinacki.Types.{ThreadIdentifier}
use ackinacki.ThreadsTracking.{Subscriber, both, track_block_finalized}
use ackinacki.Common.{◌+◌, refl, ◌≡◌, ℕ, List, ◌∷◌, [], nat_eq}

-- The tracking of threads, in node/src/multithreading/threads_tracking_service, at concrete inputs.

abbrev starts : Subscriber ℕ
starts = record {
  handle_start_thread = λ block thread table s. s + 1;
  handle_stop_thread = λ block thread s. s;
}

abbrev stops : Subscriber (List ThreadIdentifier)
stops = record {
  handle_start_thread = λ block thread table s. s;
  handle_stop_thread = λ block thread s. thread ∷ s;
}

abbrev table : ThreadsTable
table = record {
  masks = (record { mask_bits = routing_default; meaningful_mask_bits = routing_default }, 77) ∷ [];
}

-- A block 77 of the thread 5 spawns the thread 77, and leaves no row for its own.
tracked : track_block_finalized (both starts stops) 77 5 table (0, []) ≡ (1, 5 ∷ [])
unfolding track_block_finalized both
tracked = refl
