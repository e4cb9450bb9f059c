-- ===== src/LoadBalancing/Examples.antt =====
use ackinacki.LoadBalancing.Accounts.Split.{IsCounted}
use ackinacki.Common.Assoc.{get-insert_cases, insert, get}
use ackinacki.Common.Bits.{bit_at}
use ackinacki.Routing.Address.{
  address_set_bit_value, set_bit_value, bits_of_routing, AccountRouting, routing_default,
  routing_bits,
}
use ackinacki.Routing.Bitmask.{Bitmask}
use ackinacki.Routing.Table.{insert_at, insert_above}
use ackinacki.Identity.{new_thread_identifier}
use ackinacki.LoadBalancing.Accounts.{
  distance_between, i64_abs, i64_sub, split_at, keep_nearer, can_split, InThreadAccountsLoad,
  DappIdTable, Message, new_from, best_split,
}
use ackinacki.LoadBalancing.Accounts.Counts.{length-routes, routes, without_bit, new_from-routes}
use ackinacki.LoadBalancing.Accounts.Halves.{best_split-Halves, Halves}
use ackinacki.LoadBalancing.Aggregated.{
  propose_new_bitmask, load_value, AggregatedLoad, BlockLoad, new_load, reset, is_ready, entry_of,
}
use ackinacki.LoadBalancing.Aggregated.Sums.{Entry, IsSum}
use ackinacki.LoadBalancing.Aggregated.Window.{IsWindow, recent, new_load-IsWindow}
use ackinacki.LoadBalancing.Aggregated.Ready.{appends, appends-reset}
use ackinacki.LoadBalancing.Service.{
  unless_balanced, is_balanced, Features, LoadBalancingService, ThreadAction, split, CheckError,
  ThreadsTable, check, read_load,
}
use ackinacki.LoadBalancing.Service.Total.{IsWithin, check_returns}
use ackinacki.LoadBalancing.Service.Proposal.{Moves, check_split-find_match}
use ackinacki.Common.Ring.{last}
use ackinacki.Common.{
  drop, subst, take, get_elem?, inr, inl, ℕ, List, ◌<◌, map, ◌&&◌, ◌++◌, ◌+◌, ◌==◌, ok, Result, leb,
  length, ◌^◌, if◌then◌else◌, refl, arith, ◌≡◌, Option, false, true, some, none, ◌∷◌, [], nat_eq,
}

-- The load of a thread and its split, from node/src/multithreading/load_balancing_service, at concrete
-- inputs.

-- Three messages, two of them to a route with a one at the bit 7 of the dapp.
abbrev seen : InThreadAccountsLoad
seen = record {
  total_transactions_count = 3;
  zero_bits_count = λ outer inner. if outer == 0 && inner == 7 then 1 else 0;
}

abbrev whole : Bitmask AccountRouting
whole = record { mask_bits = routing_default; meaningful_mask_bits = routing_default }

abbrev half : Bitmask AccountRouting
half = record {
  mask_bits = record { dapp = 2 ^ 248; account = 0 };
  meaningful_mask_bits = record { dapp = 2 ^ 248; account = 0 };
}

abbrev route : AccountRouting
route = record { dapp = 2 ^ 248 + 3; account = 9 }

seen-IsCounted : IsCounted seen
seen-IsCounted = record { total_fits = omega arith; counters_fit = λ outer inner. ground arith }

best_split-Halves_example :
    (o : Option (Bitmask AccountRouting)) × (best_split 2 seen whole ≡ some o)
    × Halves 2 seen whole route o
best_split-Halves_example =
    best_split-Halves 2 seen whole route (omega arith) seen-IsCounted (omega arith) (omega arith)
      (omega arith)

abbrev message : Message
message = record { int_dst_account_id = some 9; src_dapp_id = some 4 }

abbrev dapps : DappIdTable
dapps = (9, some 5) ∷ []

abbrev two_messages : List (Option Message)
two_messages = some message ∷ none ∷ []

few_routes : length (routes dapps two_messages) < 2 ^ 32
few_routes = omega (arith, length-routes dapps two_messages)

new_from-routes_example :
    (load : InThreadAccountsLoad) × (new_from dapps two_messages ≡ some load)
    × (load.total_transactions_count ≡ length (routes dapps two_messages))
    × ((outer inner : ℕ)
        → load.zero_bits_count outer inner ≡ without_bit outer inner (routes dapps two_messages))
new_from-routes_example = new_from-routes dapps two_messages few_routes

abbrev block_load : BlockLoad
block_load = record { queue_length = 6000; dapp_id_table = dapps; in_messages = some message ∷ [] }

abbrev three_blocks : List BlockLoad
three_blocks = block_load ∷ block_load ∷ block_load ∷ []

appends-reset_example :
    (next : AggregatedLoad) × (appends (reset (new_load 2)) three_blocks ≡ some next)
    × IsWindow next
    × (is_ready next ≡ leb (new_load 2).window_size 3)
    × ((entries : List Entry) × (map entry_of three_blocks ≡ map some entries)
        × IsSum next.aggregated_value
            (last (new_load 2).window_size (recent (reset (new_load 2)) ++ entries)))
appends-reset_example =
    appends-reset (new_load 2) three_blocks (new_load-IsWindow 2 (omega arith) (omega arith))
      (omega arith)

abbrev features : Features
features = record { allow_threads_merge = false; route_parts = 1 }

-- The only thread, over the threshold.
abbrev busy : AggregatedLoad
busy = record {
  window = (6000, seen) ∷ [];
  cursor = 0;
  aggregated_value = (6000, seen);
  is_filled = true;
  window_size = 1;
}

abbrev service : LoadBalancingService
service = record { thread_load_map = (11, busy) ∷ []; window_size = 1; load_threshold = 5000 }

abbrev one_row : ThreadsTable
one_row = record { masks = (whole, 11) ∷ [] }

abbrev two_rows : ThreadsTable
two_rows = record { masks = (half, 77) ∷ (whole, 11) ∷ [] }

abbrev service_after : LoadBalancingService
service_after = record service { thread_load_map = (11, record busy { is_filled = false }) ∷ [] }

splits_here : check features service 77 11 one_row 4 ≡ some (ok (split two_rows), service_after)
unfolding check read_load is_ready load_value propose_new_bitmask best_split split_at i64_sub
    i64_abs distance_between can_split is_balanced unless_balanced bits_of_routing bit_at
    keep_nearer set_bit_value address_set_bit_value insert_above insert_at new_thread_identifier
    reset get insert
splits_here = refl

service-IsWithin : IsWithin service
unfolding load_value get insert
service-IsWithin t l e = elim (get-insert_cases 11 t busy l [] e) [
  | inl (_, same) ↦
      subst (λ m. (load_value m < 2 ^ 63) × IsCounted m.aggregated_value.1) same
        (omega arith, seen-IsCounted)
  | inr missing ↦ cc missing
]

check_returns_example :
    (r : Result CheckError ThreadAction × LoadBalancingService) × (check features service 77 11
        one_row 4
      ≡ some r)
check_returns_example =
    check_returns features service 77 11 one_row 4 (omega arith) (omega arith) service-IsWithin
      (omega arith)

check_split-find_match_example :
    (k : ℕ) × (mask new : Bitmask AccountRouting) × (get_elem? one_row.masks k ≡ some (mask, 11))
    × (two_rows.masks
        ≡ take k one_row.masks ++ ((new, new_thread_identifier 77 0) ∷ drop k one_row.masks))
    × Moves features service 77 11 one_row two_rows 4 service_after route k new
check_split-find_match_example =
    check_split-find_match features service 77 11 one_row two_rows 4 service_after route
      (omega arith) service-IsWithin (omega arith) (omega arith) splits_here
