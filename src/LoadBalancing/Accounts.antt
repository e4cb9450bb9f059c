-- ===== src/LoadBalancing/Accounts.antt =====
use ackinacki.Common.{
  leb, inr, inl, Bool-cases, Option-cases, ◌∙◌, ap, sym, refl, ◌≡◌, false, ◌&&◌, ◌||◌, ◌==◌, not,
  ◌-◌, ◌*◌, ltb, ◌^◌, ◌%◌, if◌then◌else◌, ◌+◌, or_else, suc, zero, arith, ℕ, Option, List, Bool,
  true, some, none, ◌∷◌, [],
}
use ackinacki.Routing.Bitmask.{Bitmask}
use ackinacki.Routing.Address.{
  AccountRouting, AccountAddress, DAppIdentifier, bits_of_routing, set_bit_value,
  from_optional_dapp,
}
use mathlib.Core.Option
use ackinacki.Common.{nat_eq}
use ackinacki.Common.Assoc.{Assoc, get}
pub mod Checked
pub mod Split
pub mod Halves
pub mod Counts

-- node/src/multithreading/load_balancing_service/in_thread_accounts_load.rs: for every bit of a route,
-- how many messages go to a route without it, and the bit that would split a thread best.
--
-- An `i64` is kept as its bit pattern, a number below 2 ^ 64; an array of counters is a function of its
-- two indices, of which the code has 2 and 256. An overflow panics, in every build: `none`.

unfoldable pub i64_add : ℕ → ℕ → Option ℕ
i64_add a b =
    if ltb a (2 ^ 63)
    then if ltb b (2 ^ 63)
      then if ltb (a + b) (2 ^ 63) then some (a + b) else none
      else some ((a + b) % 2 ^ 64)
    else if ltb b (2 ^ 63)
    then some ((a + b) % 2 ^ 64)
    else if leb (2 ^ 64 + 2 ^ 63) (a + b)
    then some (a + b - 2 ^ 64)
    else none

unfoldable pub i64_sub : ℕ → ℕ → Option ℕ
i64_sub a b =
    if ltb a (2 ^ 63)
    then if ltb b (2 ^ 63)
      then some ((a + 2 ^ 64 - b) % 2 ^ 64)
      else if ltb (a + 2 ^ 64 - b) (2 ^ 63)
      then some (a + 2 ^ 64 - b)
      else none
    else if ltb b (2 ^ 63)
    then if leb (2 ^ 63 + b) a then some (a - b) else none
    else some ((a + 2 ^ 64 - b) % 2 ^ 64)

unfoldable pub i64_abs : ℕ → Option ℕ
i64_abs a = if ltb a (2 ^ 63) then some a else if a == 2 ^ 63 then none else some (2 ^ 64 - a)

-- A test of every counter of an array.
unfoldable pub all_below : ℕ → (ℕ → Bool) → Bool
all_below zero test = true
all_below (suc n) test = test n && all_below n test

unfoldable pub all_counters : (ℕ → ℕ → Bool) → Bool
unfolding all_below
all_counters test = all_below 2 (λ outer. all_below 256 (test outer))

pub record InThreadAccountsLoad : Type 0 where
  pub total_transactions_count : ℕ
  pub zero_bits_count : ℕ → ℕ → ℕ

-- `Default`
abbrev pub no_load : InThreadAccountsLoad
no_load = record { total_transactions_count = 0; zero_bits_count = λ outer inner. 0 }

-- What is read of an inbound message: its destination inside of the network, and the dapp that its
-- header names.
pub record Message : Type 0 where
  pub int_dst_account_id : Option AccountAddress
  pub src_dapp_id : Option DAppIdentifier

abbrev pub DappIdTable : Type 0
DappIdTable = Assoc AccountAddress (Option DAppIdentifier)

abbrev pub and_then : Option (Option DAppIdentifier) → Option DAppIdentifier
and_then none = none
and_then (some dapp) = dapp

pub dapp_of : DappIdTable → AccountAddress → Message → Option DAppIdentifier
dapp_of dapps destination message = or_else (and_then (get destination dapps)) message.src_dapp_id

-- The counters that a loop over the array leaves, where no step of it overflows.
unfoldable pub checked_load : (ℕ → ℕ → Bool) → (ℕ → ℕ → ℕ) → Option ℕ → Option InThreadAccountsLoad
checked_load fits zeros total =
    if all_counters fits
    then Option.map (λ n. record { total_transactions_count = n; zero_bits_count = zeros }) total
    else none

unfoldable pub count_route : AccountRouting → InThreadAccountsLoad → Option InThreadAccountsLoad
unfolding bits_of_routing checked_load
count_route route load =
    let zeros = λ (outer : ℕ) (inner : ℕ).
      load.zero_bits_count outer inner + (if bits_of_routing route outer inner then 0 else 1) in
    checked_load (λ outer inner. ltb (zeros outer inner) (2 ^ 32)) zeros
      (i64_add load.total_transactions_count 1)

-- One message; a message that can not be read, or has no such destination or dapp, is passed over.
pub route_of : DappIdTable → Option Message → Option AccountRouting
unfolding dapp_of
route_of dapps none = none
route_of dapps (some message) = elim message.int_dst_account_id [
  | none ↦ none
  | some destination ↦ elim (dapp_of dapps destination message) [
    | none ↦ none
    | some dapp_id ↦ some (from_optional_dapp (some dapp_id) destination)
  ]
]

pub add_route : Option AccountRouting → InThreadAccountsLoad → Option InThreadAccountsLoad
unfolding count_route
add_route none load = some load
add_route (some route) load = count_route route load

pub count_message :
    DappIdTable → InThreadAccountsLoad → Option Message → Option InThreadAccountsLoad
unfolding route_of add_route
count_message dapps load message = add_route (route_of dapps message) load

pub append_messages :
    DappIdTable → InThreadAccountsLoad → List (Option Message) → Option InThreadAccountsLoad
unfolding count_message
append_messages dapps load [] = some load
append_messages dapps load (message ∷ messages) = elim (count_message dapps load message) [
  | none ↦ none
  | some next ↦ append_messages dapps next messages
]

unfoldable pub new_from : DappIdTable → List (Option Message) → Option InThreadAccountsLoad
unfolding append_messages
new_from dapps messages = append_messages dapps no_load messages

unfoldable pub add_in_place :
    InThreadAccountsLoad → InThreadAccountsLoad → Option InThreadAccountsLoad
unfolding checked_load
add_in_place load other =
    let zeros = λ (outer : ℕ) (inner : ℕ).
      load.zero_bits_count outer inner + other.zero_bits_count outer inner in
    checked_load (λ outer inner. ltb (zeros outer inner) (2 ^ 32)) zeros
      (i64_add load.total_transactions_count other.total_transactions_count)

unfoldable pub sub_in_place :
    InThreadAccountsLoad → InThreadAccountsLoad → Option InThreadAccountsLoad
unfolding checked_load
sub_in_place load other =
    checked_load
      (λ outer inner. leb (other.zero_bits_count outer inner) (load.zero_bits_count outer inner))
      (λ outer inner. load.zero_bits_count outer inner - other.zero_bits_count outer inner)
      (i64_sub load.total_transactions_count other.total_transactions_count)

-- The distance between the messages with a one at a bit and those with a zero.
unfoldable pub distance_between : ℕ → ℕ → Option ℕ
distance_between one_bits_count zero_bits_count = elim (i64_sub one_bits_count zero_bits_count) [
  | none ↦ none
  | some apart ↦ i64_abs apart
]

-- The bits that the loop looks at: used by some message and not by another, and not taken.
unfoldable pub can_split : ℕ → ℕ → Bool → Bool
can_split one_bits_count zero_bits_count taken =
    not (zero_bits_count == 0 || one_bits_count == 0) && not taken

-- The best proposal so far, the index and its distance, against another.
unfoldable pub keep_nearer : ℕ → ℕ → Option (ℕ × ℕ) → Option (ℕ × ℕ)
keep_nearer index distance none = some (index, distance)
keep_nearer index distance (some (best, best_distance)) =
    if ltb distance best_distance then some (index, distance) else some (best, best_distance)

pub consider :
    InThreadAccountsLoad → AccountRouting → ℕ → ℕ → Option (ℕ × ℕ) → Option (Option (ℕ × ℕ))
unfolding bits_of_routing
consider load meaningful outer inner best =
    let zeros = load.zero_bits_count outer inner in
    elim (i64_sub load.total_transactions_count zeros) [
      | none ↦ none
      | some ones ↦
          if can_split ones zeros (bits_of_routing meaningful outer inner)
          then Option.map (λ distance. keep_nearer (outer * 256 + inner) distance best)
              (distance_between ones zeros)
          else some best
    ]

-- `for inner in 0..n` and `for outer in 0..n`
pub scan_inner :
    InThreadAccountsLoad → AccountRouting → ℕ → ℕ → Option (ℕ × ℕ) → Option (Option (ℕ × ℕ))
unfolding consider
scan_inner load meaningful outer zero best = some best
scan_inner load meaningful outer (suc inner) best =
    elim (scan_inner load meaningful outer inner best) [
      | none ↦ none
      | some before ↦ consider load meaningful outer inner before
    ]

pub scan_outer : InThreadAccountsLoad → AccountRouting → ℕ → Option (Option (ℕ × ℕ))
unfolding scan_inner
scan_outer load meaningful zero = some none
scan_outer load meaningful (suc outer) = elim (scan_outer load meaningful outer) [
  | none ↦ none
  | some before ↦ scan_inner load meaningful outer 256 before
]

-- The mask with one more meaningful bit, which is set; `none` is the panic of the index.
pub split_mask : Bitmask AccountRouting → ℕ → Option (Bitmask AccountRouting)
split_mask mask index = elim (set_bit_value mask.meaningful_mask_bits index true) [
  | none ↦ none
  | some meaningful ↦ elim (set_bit_value mask.mask_bits index true) [
    | none ↦ none
    | some bits ↦ some (record { mask_bits = bits; meaningful_mask_bits = meaningful })
  ]
]

-- What follows the loops; the outer `none` is a panic.
unfoldable pub split_at :
    Bitmask AccountRouting → Option (Option (ℕ × ℕ)) → Option (Option (Bitmask AccountRouting))
unfolding split_mask
split_at current_bitmask none = none
split_at current_bitmask (some none) = some none
split_at current_bitmask (some (some (index, best_distance))) =
    Option.map (λ mask. some mask) (split_mask current_bitmask index)

-- `route_parts` is MAX_ROUTE_PART_SPLIT: 2 where the feature allow-dappid-thread-split is on, else 1.
unfoldable pub best_split :
    ℕ → InThreadAccountsLoad → Bitmask AccountRouting → Option (Option (Bitmask AccountRouting))
unfolding scan_outer split_at
best_split route_parts load current_bitmask =
    split_at current_bitmask (scan_outer load current_bitmask.meaningful_mask_bits route_parts)
