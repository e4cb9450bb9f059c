-- ===== src/LoadBalancing/Aggregated/Sums.antt =====
use mathlib.Core.Option
use ackinacki.LoadBalancing.Accounts.Checked.{sub_in_place_small, add_in_place_small}
use ackinacki.Common.{
  ◌*◌, length, ◌≤◌, refl, ◌-◌, subst, ◌∙◌, set, get_elem?, take, ◌^◌, replicate, All, drop, ◌<◌,
  ◌++◌, ◌+◌, suc, zero, arith, ◌≡◌, ℕ, List, some, ◌∷◌, [],
}
use ackinacki.Common.Ring.{from_place}
use ackinacki.LoadBalancing.Accounts.{InThreadAccountsLoad}
use ackinacki.LoadBalancing.Aggregated.{usize_sub, slide_value, usize_add, Load}

-- Sums over the entries of a window of aggregated_thread_load.rs, which the counters hold.

abbrev pub Entry : Type 0
Entry = Load × InThreadAccountsLoad

abbrev pub sum_of : (Entry → ℕ) → List Entry → ℕ
sum_of f [] = 0
sum_of f (x ∷ xs) = f x + sum_of f xs

pub sum_of-append :
    (f : Entry → ℕ) (xs ys : List Entry) → sum_of f (xs ++ ys) ≡ sum_of f xs + sum_of f ys
sum_of-append f [] ys = omega arith
sum_of-append f (x ∷ xs) ys = omega (arith, sum_of-append f xs ys)

abbrev pub zeros : ℕ → ℕ → Entry → ℕ
zeros outer inner entry = entry.1.zero_bits_count outer inner

abbrev pub transactions : Entry → ℕ
transactions entry = entry.1.total_transactions_count

abbrev pub queued : Entry → ℕ
queued entry = entry.0

-- The counters of an entry are small enough for sums over 2 ^ 10 entries.
pub record Fits (entry : Entry) : Type 0 where
  pub queue_fits : queued entry ≤ 2 ^ 52
  pub transactions_fit : transactions entry ≤ 2 ^ 20
  pub zeros_fit : (outer inner : ℕ) → zeros outer inner entry ≤ 2 ^ 20

-- An aggregated value that is the sum over a list of entries.
pub record IsSum (value : Entry) (entries : List Entry) : Type 0 where
  pub queue_sum : queued value ≡ sum_of queued entries
  pub transactions_sum : transactions value ≡ sum_of transactions entries
  pub zeros_sum : (outer inner : ℕ) → zeros outer inner value ≡ sum_of (zeros outer inner) entries

-- The sum over at most 2 ^ 10 entries.
pub record IsModest (value : Entry) : Type 0 where
  pub queue_bound : queued value ≤ 2 ^ 62
  pub transactions_bound : transactions value ≤ 2 ^ 30
  pub zeros_bound : (outer inner : ℕ) → zeros outer inner value ≤ 2 ^ 30

queued_bound : (l : List Entry) → All Fits l → sum_of queued l ≤ length l * 2 ^ 52
queued_bound [] h = omega arith
queued_bound (x ∷ l) h = omega (arith, queued_bound l h.1, h.0.queue_fits)

transactions_bound : (l : List Entry) → All Fits l → sum_of transactions l ≤ length l * 2 ^ 20
transactions_bound [] h = omega arith
transactions_bound (x ∷ l) h = omega (arith, transactions_bound l h.1, h.0.transactions_fit)

zeros_bound :
    (outer inner : ℕ) (l : List Entry)
    → All Fits l
    → sum_of (zeros outer inner) l ≤ length l * 2 ^ 20
zeros_bound outer inner [] h = omega arith
zeros_bound outer inner (x ∷ l) h =
    omega (arith, zeros_bound outer inner l h.1, h.0.zeros_fit outer inner)

pub IsSum-IsModest :
    (value : Entry) (l : List Entry)
    → All Fits l
    → length l ≤ 2 ^ 10
    → IsSum value l
    → IsModest value
IsSum-IsModest value l h few sum = record {
  queue_bound = omega (arith, queued_bound l h, sum.queue_sum);
  transactions_bound = omega (arith, transactions_bound l h, sum.transactions_sum);
  zeros_bound =
      λ outer inner. omega (arith, zeros_bound outer inner l h, sum.zeros_sum outer inner);
}

sum_of-take-drop :
    (f : Entry → ℕ) (c : ℕ) (l : List Entry)
    → sum_of f (drop c l) + sum_of f (take c l) ≡ sum_of f l
sum_of-take-drop f zero l = omega arith
sum_of-take-drop f (suc c) [] = refl
sum_of-take-drop f (suc c) (x ∷ l) = omega (arith, sum_of-take-drop f c l)

sum_of-from_place :
    (f : Entry → ℕ) (c : ℕ) (l : List Entry) → sum_of f (from_place c l) ≡ sum_of f l
sum_of-from_place f c l = sum_of-append f (drop c l) (take c l) ∙ sum_of-take-drop f c l

pub IsSum-from_place : (c : ℕ) (l : List Entry) (v : Entry) → IsSum v l → IsSum v (from_place c l)
IsSum-from_place c l v h = record {
  queue_sum = omega (arith, h.queue_sum, sum_of-from_place queued c l);
  transactions_sum = omega (arith, h.transactions_sum, sum_of-from_place transactions c l);
  zeros_sum = λ outer inner.
      omega (arith, h.zeros_sum outer inner, sum_of-from_place (zeros outer inner) c l);
}

pub IsSum-of_from_place :
    (c : ℕ) (l : List Entry) (v : Entry) → IsSum v (from_place c l) → IsSum v l
IsSum-of_from_place c l v h = record {
  queue_sum = omega (arith, h.queue_sum, sum_of-from_place queued c l);
  transactions_sum = omega (arith, h.transactions_sum, sum_of-from_place transactions c l);
  zeros_sum = λ outer inner.
      omega (arith, h.zeros_sum outer inner, sum_of-from_place (zeros outer inner) c l);
}

pub Fits-of_get_elem? :
    (l : List Entry) (i : ℕ) (x : Entry) → All Fits l → get_elem? l i ≡ some x → Fits x
Fits-of_get_elem? [] i x h e = cc
Fits-of_get_elem? (y ∷ l) zero x h e = subst Fits (ground arith) h.0
Fits-of_get_elem? (y ∷ l) (suc i) x h e = Fits-of_get_elem? l i x h.1 e

pub Fits-set : (l : List Entry) (i : ℕ) (x : Entry) → All Fits l → Fits x → All Fits (set l i x)
Fits-set [] i x h fits = tt
Fits-set (y ∷ l) zero x h fits = (fits, h.1)
Fits-set (y ∷ l) (suc i) x h fits = (h.0, Fits-set l i x h.1 fits)

usize_slide :
    (value entry prev : Load)
    → value + entry < 2 ^ 64
    → prev ≤ value
    → Option.bind (usize_add value entry) (λ more. usize_sub more prev)
      ≡ some (value + entry - prev)
unfolding usize_add usize_sub Option.bind
usize_slide value entry prev h le = ground arith

-- The oldest of the entries leaves and a new one enters.
pub IsSum-slide :
    (value prev entry : Entry) (rest : List Entry)
    → IsModest value
    → Fits entry
    → IsSum value (prev ∷ rest)
    → (next : Entry) × (slide_value value prev entry ≡ some next)
      × IsSum next (rest ++ (entry ∷ []))
unfolding slide_value Option.bind
IsSum-slide value prev entry rest modest fits h =
    let counted =
      add_in_place_small value.1 entry.1
        (omega (arith, modest.transactions_bound, fits.transactions_fit))
        (λ outer inner.
          omega (arith, modest.zeros_bound outer inner, fits.zeros_fit outer inner)) in
    let taken =
      sub_in_place_small
        (record {
          total_transactions_count = transactions value + transactions entry;
          zero_bits_count = λ outer inner. zeros outer inner value + zeros outer inner entry;
        })
        prev.1 (omega (arith, modest.transactions_bound, fits.transactions_fit))
        (omega (arith, h.transactions_sum))
        (λ outer inner. omega (arith, h.zeros_sum outer inner)) in
    let queue =
      usize_slide value.0 entry.0 prev.0 (omega (arith, modest.queue_bound, fits.queue_fits))
        (omega (arith, h.queue_sum)) in
    (
      (
        value.0 + entry.0 - prev.0,
        record {
          total_transactions_count = transactions value + transactions entry - transactions prev;
          zero_bits_count = λ outer inner.
              zeros outer inner value + zeros outer inner entry - zeros outer inner prev;
        },
      ),
      rw (queue, slide_value) (rw counted (rw taken refl)),
      record {
        queue_sum = omega (arith, h.queue_sum, sum_of-append queued rest (entry ∷ []));
        transactions_sum =
            omega (arith, h.transactions_sum, sum_of-append transactions rest (entry ∷ []));
        zeros_sum = λ outer inner.
            omega
              (arith, h.zeros_sum outer inner, sum_of-append (zeros outer inner) rest (entry ∷ []));
      },
    )

pub sum_of-zero : (f : Entry → ℕ) (n : ℕ) (x : Entry) → f x ≡ 0 → sum_of f (replicate n x) ≡ 0
sum_of-zero f zero x h = refl
sum_of-zero f (suc n) x h = omega (arith, sum_of-zero f n x h)
