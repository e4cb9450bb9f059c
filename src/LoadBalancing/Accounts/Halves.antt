-- ===== src/LoadBalancing/Accounts/Halves.antt =====
use ackinacki.LoadBalancing.Accounts.Split.{IsCounted, scan_outer-IsBest, distance, splits, IsBest}
use ackinacki.LoadBalancing.Accounts.{
  split_at, scan_outer, best_split, InThreadAccountsLoad, split_mask,
}
use ackinacki.Common.{
  ◌-◌, refl, Bool-cases, inl, inr, ltb→lt, ltb→ge, nat_eq, inr, inl, ltb, Bool-cases, ◌*◌, ◌%◌, ◌≤◌,
  ◌/◌, ◌↔◌, ◌<◌, arith, ◌≡◌, ℕ, Option, false, true, some, none,
}
use ackinacki.Routing.Address.Laws.{
  AgreeOn, routing_bit, IsRouting, is_match-AgreeOn, set_bit_value_total, routing_bit-set_bit_value,
  set_bit_value-IsRouting,
}
use ackinacki.Routing.Address.{routing_bits, AccountRouting, set_bit_value, bits_of_routing}
use ackinacki.Routing.Bitmask.{Bitmask, is_match}

-- The mask that best_split proposes, in in_thread_accounts_load.rs: which routes it takes from the mask
-- of the thread.

split_mask-total :
    (mask : Bitmask AccountRouting) (index : ℕ)
    → index < 512
    → (new : Bitmask AccountRouting) × (split_mask mask index ≡ some new)
      × (set_bit_value mask.meaningful_mask_bits index true ≡ some new.meaningful_mask_bits)
      × (set_bit_value mask.mask_bits index true ≡ some new.mask_bits)
unfolding split_mask
split_mask-total mask index h =
    let (meaningful, m) = set_bit_value_total mask.meaningful_mask_bits index h in
    let (bits, b) = set_bit_value_total mask.mask_bits index h in
    (record { mask_bits = bits; meaningful_mask_bits = meaningful }, ground (arith, m, b), m, b)

-- The mask that a bit which was not taken gives.
split_mask-is_match :
    (mask new : Bitmask AccountRouting) (index : ℕ) (a : AccountRouting)
    → set_bit_value mask.meaningful_mask_bits index true ≡ some new.meaningful_mask_bits
    → set_bit_value mask.mask_bits index true ≡ some new.mask_bits
    → index < 512
    → routing_bit mask.meaningful_mask_bits index ≡ 0
    → AgreeOn new.meaningful_mask_bits a new.mask_bits
      ↔ (AgreeOn mask.meaningful_mask_bits a mask.mask_bits × (routing_bit a index ≡ 1))
split_mask-is_match mask new index a m b lt free =
    let meaningful = λ (j : ℕ) (h : j < 512).
      routing_bit-set_bit_value mask.meaningful_mask_bits new.meaningful_mask_bits index j true m
        h in
    let bits = λ (j : ℕ) (h : j < 512).
      routing_bit-set_bit_value mask.mask_bits new.mask_bits index j true b h in
    (
      λ agree. (
        λ i below one. ground (arith, agree i below, meaningful i below, bits i below),
        ground (arith, agree index lt, meaningful index lt, bits index lt),
      ),
      λ (agree, one) i below taken. ground (arith, agree i below, meaningful i below, bits i below),
    )

low_index : (k : ℕ) → k < 256 → (k / 256 ≡ 0) × (k % 256 ≡ k)
low_index k h = omega arith

high_index : (k : ℕ) → k < 512 → 256 ≤ k → (k / 256 ≡ 1) × (k % 256 ≡ k - 256)
high_index k h ge = omega arith

bits_of_routing-routing_bit :
    (r : AccountRouting) (k : ℕ)
    → k < 512
    → bits_of_routing r (k / 256) (k % 256) ≡ false
    → routing_bit r k ≡ 0
unfolding bits_of_routing
bits_of_routing-routing_bit r k lt h = elim (Bool-cases (ltb k 256)) [
  | inl first ↦
      let (row, column) = low_index k (ltb→lt k 256 first) in
      ground (arith, rw (row, column, bits_of_routing) at h)
  | inr second ↦
      let (row, column) = high_index k lt (ltb→ge k 256 second) in
      let back : 255 - (k - 256) ≡ 511 - k = omega (arith, ltb→ge k 256 second) in
      ground (arith, rw (row, column, bits_of_routing, back) at h)
]

-- What a proposal does to a route: it takes exactly those that the thread had and that have a one at
-- the bit of the split.
abbrev pub Halves :
    ℕ
    → InThreadAccountsLoad
    → Bitmask AccountRouting
    → AccountRouting
    → Option (Bitmask AccountRouting)
    → Type 0
Halves parts load cur a none = IsBest load cur.meaningful_mask_bits (parts * 256) none
Halves parts load cur a (some new) =
    (index : ℕ) × IsBest load cur.meaningful_mask_bits (parts * 256)
      (some (index, distance load cur.meaningful_mask_bits index))
    × ((is_match new a ≡ true) ↔ ((is_match cur a ≡ true) × (routing_bit a index ≡ 1)))

splits-free :
    (load : InThreadAccountsLoad) (meaningful : AccountRouting) (k : ℕ)
    → k < 512
    → splits load meaningful k ≡ true
    → routing_bit meaningful k ≡ 0
splits-free load meaningful k lt h = bits_of_routing-routing_bit meaningful k lt (ground arith)

-- With at most two parts of a route, masks and a route of two halves of 32 bytes, counters of 32 bits and a
-- total below 2 ^ 63, the search for a bit does not panic. It proposes a mask exactly if some bit that the
-- mask does not look at is one in some messages and zero in others, at the first of these bits with the
-- least distance between the two counts, and the proposed mask takes a route exactly if the mask of the
-- thread takes it and it has a one at that bit.
pub best_split-Halves :
    (parts : ℕ) (load : InThreadAccountsLoad) (cur : Bitmask AccountRouting) (a : AccountRouting)
    → parts ≤ 2
    → IsCounted load
    → IsRouting cur.mask_bits
    → IsRouting cur.meaningful_mask_bits
    → IsRouting a
    → (o : Option (Bitmask AccountRouting)) × (best_split parts load cur ≡ some o)
      × Halves parts load cur a o
unfolding best_split split_at
best_split-Halves parts load cur a few counted bits meaningful ra =
    let (best, found, is_best) = scan_outer-IsBest load cur.meaningful_mask_bits counted parts in
    by_best best found is_best
  where
    by_best :
        (best : Option (ℕ × ℕ))
        → scan_outer load cur.meaningful_mask_bits parts ≡ some best
        → IsBest load cur.meaningful_mask_bits (parts * 256) best
        → (o : Option (Bitmask AccountRouting)) × (best_split parts load cur ≡ some o)
          × Halves parts load cur a o
    by_best none e h = (none, rw (e, best_split, split_at) refl, h)
    by_best (some (index, d)) e (lt, s, near, least) =
        let below : index < 512 = omega arith in
        let (new, made, m, b) = split_mask-total cur index below in
        let free = splits-free load cur.meaningful_mask_bits index below s in
        let taken = split_mask-is_match cur new index a m b below free in
        let old = is_match-AgreeOn cur a ra bits in
        let now =
          is_match-AgreeOn new a ra
            (set_bit_value-IsRouting cur.mask_bits new.mask_bits index true bits b) in
        (
          some new,
          rw (e, best_split, split_at) (rw made refl),
          (
            index,
            (lt, s, refl, λ k lt can. rw near at (least k lt can)),
            (
              λ h. let (o, one) = taken.0 (now.0 h) in (old.1 o, one),
              λ (h, one). now.1 (taken.1 (old.0 h, one)),
            ),
          ),
        )
