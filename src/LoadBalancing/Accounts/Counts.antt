-- ===== src/LoadBalancing/Accounts/Counts.antt =====
use ackinacki.LoadBalancing.Accounts.Checked.{i64_add_small, checked_load-some}
use ackinacki.Common.{
  ◌≤◌, Option-cases, suc, inr, inl, refl, ◌^◌, ◌+◌, length, ◌<◌, if◌then◌else◌, arith, ◌≡◌, ℕ,
  Option, List, some, none, ◌∷◌, [],
}
use ackinacki.Routing.Address.{AccountRouting, bits_of_routing}
use ackinacki.LoadBalancing.Accounts.{
  count_route, add_route, no_load, InThreadAccountsLoad, DappIdTable, Message, route_of,
  append_messages, new_from,
}

-- What the counters of in_thread_accounts_load.rs count.

abbrev pub cons_some {ℓ} : {A : Type ℓ} → Option A → List A → List A
cons_some none xs = xs
cons_some (some x) xs = x ∷ xs

-- The routes of the messages that are counted.
abbrev pub routes : DappIdTable → List (Option Message) → List AccountRouting
routes dapps [] = []
routes dapps (message ∷ messages) = cons_some (route_of dapps message) (routes dapps messages)

-- How many routes have no one at a bit.
abbrev pub without_bit : ℕ → ℕ → List AccountRouting → ℕ
without_bit outer inner [] = 0
without_bit outer inner (route ∷ rest) =
    (if bits_of_routing route outer inner then 0 else 1) + without_bit outer inner rest

-- The counters after a route and some more, given how they were before.
record IsCount (load next : InThreadAccountsLoad) (counted : List AccountRouting) : Type 0 where
  total : next.total_transactions_count ≡ load.total_transactions_count + length counted
  zeros :
      (outer inner : ℕ)
      → next.zero_bits_count outer inner
        ≡ load.zero_bits_count outer inner + without_bit outer inner counted

-- There is room for so many more messages.
record HasRoom (load : InThreadAccountsLoad) (n : ℕ) : Type 0 where
  total_room : load.total_transactions_count + n < 2 ^ 32
  zeros_room : (outer inner : ℕ) → load.zero_bits_count outer inner + n < 2 ^ 32

count_route-counts :
    (route : AccountRouting) (load : InThreadAccountsLoad) (n : ℕ)
    → HasRoom load (suc n)
    → (next : InThreadAccountsLoad) × (count_route route load ≡ some next)
      × IsCount load next (route ∷ [])
      × HasRoom next n
unfolding count_route
count_route-counts route load n room = (
  record {
    total_transactions_count = load.total_transactions_count + 1;
    zero_bits_count = λ outer inner.
        load.zero_bits_count outer inner + (if bits_of_routing route outer inner then 0 else 1);
  },
  checked_load-some _ _ _ _ (λ outer inner. ground (arith, room.zeros_room outer inner))
      (i64_add_small _ _ (omega (arith, room.total_room))),
  record { total = refl; zeros = λ outer inner. omega arith },
  record {
    total_room = omega (arith, room.total_room);
    zeros_room = λ outer inner. ground (arith, room.zeros_room outer inner);
  },
)

add_route-counts :
    (o : Option AccountRouting) (load : InThreadAccountsLoad) (rest : List AccountRouting)
    → HasRoom load (length (cons_some o rest))
    → (next : InThreadAccountsLoad) × (add_route o load ≡ some next)
      × IsCount load next (cons_some o [])
      × HasRoom next (length rest)
unfolding add_route
add_route-counts none load rest room =
    (load, refl, record { total = omega arith; zeros = λ outer inner. omega arith }, room)
add_route-counts (some route) load rest room = count_route-counts route load (length rest) room

IsCount-cons_some :
    (o : Option AccountRouting) (load one next : InThreadAccountsLoad) (rest : List AccountRouting)
    → IsCount load one (cons_some o [])
    → IsCount one next rest
    → IsCount load next (cons_some o rest)
IsCount-cons_some none load one next rest first more = record {
  total = omega (arith, more.total, first.total);
  zeros = λ outer inner. omega (arith, more.zeros outer inner, first.zeros outer inner);
}
IsCount-cons_some (some route) load one next rest first more = record {
  total = omega (arith, more.total, first.total);
  zeros = λ outer inner. omega (arith, more.zeros outer inner, first.zeros outer inner);
}

append_messages-routes :
    (dapps : DappIdTable) (messages : List (Option Message)) (load : InThreadAccountsLoad)
    → HasRoom load (length (routes dapps messages))
    → (next : InThreadAccountsLoad) × (append_messages dapps load messages ≡ some next)
      × IsCount load next (routes dapps messages)
unfolding append_messages
append_messages-routes dapps [] load room =
    (load, refl, record { total = omega arith; zeros = λ outer inner. omega arith })
append_messages-routes dapps (message ∷ messages) load room =
    let o = route_of dapps message in
    let (one, counted, first, room_left) = add_route-counts o load (routes dapps messages) room in
    let (next, made, more) = append_messages-routes dapps messages one room_left in
    (
      next,
      rw (counted, append_messages) made,
      IsCount-cons_some o load one next (routes dapps messages) first more,
    )

-- The counters of a block count its messages, if fewer than 2 ^ 32 of them go to a route, and then do
-- not overflow: the total counts all that go to a route, and the counter of a bit those whose route has
-- a zero there.
pub new_from-routes :
    (dapps : DappIdTable) (messages : List (Option Message))
    → length (routes dapps messages) < 2 ^ 32
    → (load : InThreadAccountsLoad) × (new_from dapps messages ≡ some load)
      × (load.total_transactions_count ≡ length (routes dapps messages))
      × ((outer inner : ℕ)
          → load.zero_bits_count outer inner ≡ without_bit outer inner (routes dapps messages))
unfolding new_from
new_from-routes dapps messages few =
    let (load, made, counts) =
      append_messages-routes dapps messages no_load
        (record { total_room = omega arith; zeros_room = λ outer inner. omega arith }) in
    (
      load,
      made,
      omega (arith, counts.total),
      λ outer inner. omega (arith, counts.zeros outer inner),
    )

pub length-routes :
    (dapps : DappIdTable) (messages : List (Option Message))
    → length (routes dapps messages) ≤ length messages
length-routes dapps [] = omega arith
length-routes dapps (message ∷ messages) = elim (Option-cases (route_of dapps message)) [
  | inl e ↦ rw e (omega (arith, length-routes dapps messages))
  | inr (route, e) ↦ rw e (omega (arith, length-routes dapps messages))
]

pub without_bit-length :
    (outer inner : ℕ) (l : List AccountRouting) → without_bit outer inner l ≤ length l
without_bit-length outer inner [] = omega arith
without_bit-length outer inner (route ∷ l) = ground (arith, without_bit-length outer inner l)
