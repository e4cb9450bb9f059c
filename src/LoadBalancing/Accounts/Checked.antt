-- ===== src/LoadBalancing/Accounts/Checked.antt =====
use ackinacki.LoadBalancing.Accounts.{
  InThreadAccountsLoad, i64_add, i64_sub, i64_abs, all_below, all_counters, checked_load,
  add_in_place, sub_in_place, distance_between,
}
use ackinacki.Common.{
  leb, ◌*◌, ◌-◌, ◌≤◌, ◌<◌, ◌^◌, ◌+◌, ◌%◌, if◌then◌else◌, suc, zero, refl, arith, ◌≡◌, ℕ, Option,
  Bool, true, some,
}

-- Where the checked arithmetic of in_thread_accounts_load.rs does not overflow.

all_below-true : (n : ℕ) (test : ℕ → Bool) → ((k : ℕ) → test k ≡ true) → all_below n test ≡ true
unfolding all_below
all_below-true zero test h = refl
all_below-true (suc n) test h = rw (h n) (all_below-true n test h)

pub checked_load-some :
    (fits : ℕ → ℕ → Bool) (zeros : ℕ → ℕ → ℕ) (o : Option ℕ) (total : ℕ)
    → ((outer inner : ℕ) → fits outer inner ≡ true)
    → o ≡ some total
    → checked_load fits zeros o
      ≡ some (record { total_transactions_count = total; zero_bits_count = zeros })
unfolding checked_load all_counters
checked_load-some fits zeros o total all made =
    rw
      (all_below-true 2 (λ outer. all_below 256 (fits outer))
        (λ outer. all_below-true 256 (fits outer) (all outer)))
      (rw made refl)

pub i64_add_small : (a b : ℕ) → a + b < 2 ^ 63 → i64_add a b ≡ some (a + b)
unfolding i64_add
i64_add_small a b h = ground arith

pub i64_sub_small : (a b : ℕ) → a < 2 ^ 63 → b ≤ a → i64_sub a b ≡ some (a - b)
unfolding i64_sub
i64_sub_small a b h le = ground arith

pub add_in_place_small :
    (load other : InThreadAccountsLoad)
    → load.total_transactions_count + other.total_transactions_count < 2 ^ 63
    → ((outer inner : ℕ)
        → load.zero_bits_count outer inner + other.zero_bits_count outer inner < 2 ^ 32)
    → add_in_place load other
      ≡ some (record {
        total_transactions_count = load.total_transactions_count + other.total_transactions_count;
        zero_bits_count =
            λ outer inner. load.zero_bits_count outer inner + other.zero_bits_count outer inner;
      })
unfolding add_in_place
add_in_place_small load other total zeros =
    checked_load-some _ _ _ _ (λ outer inner. ground (arith, zeros outer inner))
      (i64_add_small _ _ total)

pub sub_in_place_small :
    (load other : InThreadAccountsLoad)
    → load.total_transactions_count < 2 ^ 63
    → other.total_transactions_count ≤ load.total_transactions_count
    → ((outer inner : ℕ) → other.zero_bits_count outer inner ≤ load.zero_bits_count outer inner)
    → sub_in_place load other
      ≡ some (record {
        total_transactions_count = load.total_transactions_count - other.total_transactions_count;
        zero_bits_count =
            λ outer inner. load.zero_bits_count outer inner - other.zero_bits_count outer inner;
      })
unfolding sub_in_place
sub_in_place_small load other bound total zeros =
    checked_load-some _ _ _ _ (λ outer inner. ground (arith, zeros outer inner))
      (i64_sub_small _ _ bound total)

-- The messages with a one at a bit, of which `count` have a zero, as an i64.
abbrev pub ones_of : ℕ → ℕ → ℕ
ones_of total count = (total + 2 ^ 64 - count) % 2 ^ 64

pub i64_sub-ones_of :
    (total count : ℕ)
    → total < 2 ^ 63
    → count < 2 ^ 32
    → i64_sub total count ≡ some (ones_of total count)
unfolding i64_sub
i64_sub-ones_of total count t z = ground arith

-- How far the messages with a one at a bit, `total` less `count`, and the `count` are apart.
abbrev pub apart : ℕ → ℕ → ℕ
apart total count = if leb (2 * count) total then total - 2 * count else 2 * count - total

pub distance_between-apart :
    (total count : ℕ)
    → total < 2 ^ 63
    → count < 2 ^ 32
    → distance_between (ones_of total count) count ≡ some (apart total count)
unfolding distance_between i64_sub i64_abs
distance_between-apart total count t z = ground arith
