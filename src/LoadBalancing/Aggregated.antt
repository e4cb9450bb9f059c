-- ===== src/LoadBalancing/Aggregated.antt =====
use ackinacki.Common.{
  ◌>>=◌, ltb, inr, inl, Bool-cases, Option-cases, ◌∙◌, ap, sym, refl, suc, zero, ◌≡◌, some, none,
  ◌∷◌, ◌-◌, ◌^◌, ◌%◌, set, ◌+◌, leb, get_elem?, if◌then◌else◌, replicate, arith, ℕ, Option, List,
  Bool, false, true, [],
}
use mathlib.Core.Option
use ackinacki.Routing.Bitmask.{Bitmask}
use ackinacki.Routing.Address.{AccountRouting}
use ackinacki.LoadBalancing.Accounts.{
  InThreadAccountsLoad, DappIdTable, Message, no_load, new_from, add_in_place, sub_in_place,
  best_split,
}
-- node/src/multithreading/load_balancing_service/aggregated_thread_load.rs: the load of a thread over a
-- window of its last blocks.
pub mod Sums
pub mod Window
pub mod Ready

-- A usize.
abbrev pub Load : Type 0
Load = ℕ

pub record AggregatedLoad : Type 0 where
  pub window : List (Load × InThreadAccountsLoad)
  pub cursor : ℕ
  pub aggregated_value : Load × InThreadAccountsLoad
  pub is_filled : Bool
  pub window_size : ℕ

-- What a block and its state bring: the length of the queue of internal messages, the table of dapps,
-- and the inbound messages of the block.
pub record BlockLoad : Type 0 where
  pub queue_length : Load
  pub dapp_id_table : DappIdTable
  pub in_messages : List (Option Message)

unfoldable pub new_load : ℕ → AggregatedLoad
new_load window_size = record {
  window = replicate window_size (0, no_load);
  cursor = 0;
  aggregated_value = (0, no_load);
  is_filled = false;
  window_size = window_size;
}

unfoldable pub is_ready : AggregatedLoad → Bool
is_ready l = l.is_filled

unfoldable pub reset : AggregatedLoad → AggregatedLoad
reset l = record l { is_filled = false; cursor = 0 }

unfoldable pub load_value : AggregatedLoad → Load
load_value l = l.aggregated_value.0

-- The outer `none` is a panic.
unfoldable pub propose_new_bitmask :
    ℕ → AggregatedLoad → Bitmask AccountRouting → Option (Option (Bitmask AccountRouting))
unfolding best_split
propose_new_bitmask route_parts l current_bitmask =
    best_split route_parts l.aggregated_value.1 current_bitmask

pub move_cursor : AggregatedLoad → AggregatedLoad
move_cursor l =
    if leb l.window_size (l.cursor + 1)
    then record l { is_filled = true; cursor = 0 }
    else record l { cursor = l.cursor + 1 }

-- `+=` and `-=` of a usize; an overflow panics.
unfoldable pub usize_add : Load → Load → Option Load
usize_add a b = if ltb (a + b) (2 ^ 64) then some (a + b) else none

unfoldable pub usize_sub : Load → Load → Option Load
usize_sub a b = if leb b a then some (a - b) else none

-- The aggregated value with a new entry and without an old one.
unfoldable pub slide_value :
    Load × InThreadAccountsLoad
    → Load × InThreadAccountsLoad
    → Load × InThreadAccountsLoad
    → Option (Load × InThreadAccountsLoad)
slide_value value prev entry =
    Option.bind (Option.bind (usize_add value.0 entry.0) (λ more. usize_sub more prev.0)) (λ queued.
      Option.map (λ counters. (queued, counters))
        (Option.bind (add_in_place value.1 entry.1) (λ counted. sub_in_place counted prev.1)))

-- The entry at the cursor gives way to one of a new block.
pub replace_entry :
    AggregatedLoad
    → Load × InThreadAccountsLoad
    → Load × InThreadAccountsLoad
    → Option AggregatedLoad
replace_entry l prev entry =
    Option.map
      (λ value. record l { window = set l.window l.cursor entry; aggregated_value = value })
      (slide_value l.aggregated_value prev entry)

pub entry_of : BlockLoad → Option (Load × InThreadAccountsLoad)
unfolding new_from
entry_of b =
    Option.map (λ counters. (b.queue_length, counters)) (new_from b.dapp_id_table b.in_messages)

unfoldable pub fill_entry :
    AggregatedLoad
    → Option (Load × InThreadAccountsLoad)
    → Option (Load × InThreadAccountsLoad)
    → Option AggregatedLoad
unfolding replace_entry
fill_entry l none entry = none
fill_entry l (some prev) none = none
fill_entry l (some prev) (some entry) = replace_entry l prev entry

-- `none` is the panic of an overflow, or that of an index out of bounds, on a window of size 0.
unfoldable pub append_from : AggregatedLoad → BlockLoad → Option AggregatedLoad
unfolding move_cursor fill_entry entry_of
append_from l b =
    let moved = move_cursor l in fill_entry moved (get_elem? moved.window moved.cursor) (entry_of b)
