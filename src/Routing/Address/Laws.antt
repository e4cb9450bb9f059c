-- ===== src/Routing/Address/Laws.antt =====
-- The bits of an AccountRouting, and what a mask over them matches: node/src/types/account_address,
-- node/src/types/threads_table.rs and node/src/bitmask/mask.rs.
use native.Mathlib.Nat.{pow-le-pow_right, one-le-pow, pow-suc}
use ackinacki.Routing.Bitmask.{Bitmask, is_match}
use ackinacki.Common.Bits.{
  bit_or-lt, bit_and-le_left, eq_of_bits, bit_at-bit_and, bit_at-le, bit_at-pow, bit_at-bit_or,
  bit_at,
}
use ackinacki.Common.{
  ltb→ge, ◌≤◌, Bool-cases, inl, inr, suc, false, nat_beq_iff, ap, ◌↔◌, dec_lt, ◌^◌, arith, nat_eq,
  none, true, ◌==◌, ◌-◌, ◌<◌, not, some, ltb, Bool, ◌≡◌, if◌then◌else◌, ℕ,
}
use Prim.Native.Nat.{bit_or, bit_and}
use ackinacki.Routing.Address.{
  routing_bits, routing_band, address_set_bit_value, address_get_bit_value, set_bit_value,
  get_bit_value, AccountRouting,
}

-- The bit that an index names, as a number 0 or 1.
abbrev pub routing_bit : AccountRouting → ℕ → ℕ
routing_bit r i = if ltb i 256 then bit_at r.dapp (255 - i) else bit_at r.account (511 - i)

get_bit_value_in :
    (r : AccountRouting) (i : ℕ)
    → get_bit_value r i ≡ (if ltb i 512 then some (not (routing_bit r i == 0)) else none)
unfolding get_bit_value address_get_bit_value
get_bit_value_in r i = ground arith

set_bit_value_in :
    (r s : AccountRouting) (i : ℕ) (v : Bool)
    → set_bit_value r i v ≡ some s
    → (i < 512)
      × (v ≡ true)
      × (s.dapp ≡ (if ltb i 256 then bit_or r.dapp (2 ^ (255 - i)) else r.dapp))
      × (s.account ≡ (if ltb i 256 then r.account else bit_or r.account (2 ^ (511 - i))))
unfolding set_bit_value address_set_bit_value
set_bit_value_in r s i v h = ground arith

routing_bit-set :
    (r s : AccountRouting) (i j : ℕ)
    → i < 512
    → j < 512
    → (s.dapp ≡ (if ltb i 256 then bit_or r.dapp (2 ^ (255 - i)) else r.dapp))
    → (s.account ≡ (if ltb i 256 then r.account else bit_or r.account (2 ^ (511 - i))))
    → routing_bit s j ≡ (if i == j then 1 else routing_bit r j)
routing_bit-set r s i j hi hj d a = ground (
  arith,
  bit_at-bit_or (255 - j) r.dapp (2 ^ (255 - i)),
  bit_at-bit_or (511 - j) r.account (2 ^ (511 - i)),
  bit_at-pow (255 - i) (255 - j),
  bit_at-pow (511 - i) (511 - j),
  bit_at-le (255 - j) r.dapp,
  bit_at-le (511 - j) r.account,
  nat_beq_iff (255 - i) (255 - j),
  nat_beq_iff (511 - i) (511 - j),
)

pub routing_bit-set_bit_value :
    (r s : AccountRouting) (i j : ℕ) (v : Bool)
    → set_bit_value r i v ≡ some s
    → j < 512
    → routing_bit s j ≡ (if i == j then 1 else routing_bit r j)
routing_bit-set_bit_value r s i j v h lt =
    let (below, _, d, a) = set_bit_value_in r s i v h in routing_bit-set r s i j below lt d a

-- A bit can be set to one at an index below 512 and in no other way; where it was set, that bit reads
-- as one, and a read at any other index gives what it gave before, the panic from 512 on included.
pub get_bit_value-set_bit_value :
    (r s : AccountRouting) (i j : ℕ) (v : Bool)
    → set_bit_value r i v ≡ some s
    → (i < 512)
      × (v ≡ true)
      × (get_bit_value s j ≡ (if i == j then some true else get_bit_value r j))
get_bit_value-set_bit_value r s i j v h =
    let (lt, t, d, a) = set_bit_value_in r s i v h in
    (
      lt,
      t,
      elim (dec_lt j 512) [
        | yes lt' ↦
            rw (get_bit_value_in s j, get_bit_value_in r j, routing_bit-set r s i j lt lt' d a)
              (ground arith)
        | no ge ↦ ground (arith, get_bit_value_in s j, get_bit_value_in r j)
      ],
    )

-- Both halves are 32 bytes.
abbrev pub IsRouting : AccountRouting → Type 0
IsRouting r = (r.dapp < 2 ^ 256) × (r.account < 2 ^ 256)

-- Inside of the two halves a bit can be set.
pub set_bit_value_total :
    (r : AccountRouting) (i : ℕ)
    → i < 512
    → (s : AccountRouting) × (set_bit_value r i true ≡ some s)
unfolding set_bit_value address_set_bit_value
set_bit_value_total r i h = elim (Bool-cases (ltb i 256)) [
  | inl first ↦ (record r { dapp = bit_or r.dapp (2 ^ (255 - i)) }, ground arith)
  | inr second ↦ (record r { account = bit_or r.account (2 ^ (255 - (i - 256))) }, ground arith)
]

pow_below : (j w : ℕ) → j < w → 2 ^ j < 2 ^ w
pow_below j w h =
    let twice : 2 ^ suc j ≤ 2 ^ w = pow-le-pow_right (omega arith) (omega arith) in
    omega (arith, pow-suc 2 j, one-le-pow j 2 (omega arith))

pub set_bit_value-IsRouting :
    (r s : AccountRouting) (i : ℕ) (v : Bool)
    → IsRouting r
    → set_bit_value r i v ≡ some s
    → IsRouting s
set_bit_value-IsRouting r s i v (dapp, account) h =
    let (lt, t, d, a) = set_bit_value_in r s i v h in
    elim (Bool-cases (ltb i 256)) [
      | inl first ↦ (
        rw (rw first at d)
            (bit_or-lt 256 r.dapp (2 ^ (255 - i)) dapp (pow_below (255 - i) 256 (omega arith))),
        rw (rw first at a) account,
      )
      | inr second ↦ (
        rw (rw second at d) dapp,
        rw (rw second at a) (
            bit_or-lt 256 r.account (2 ^ (511 - i)) account
              (pow_below (511 - i) 256 (omega (arith, ltb→ge i 256 second)))),
      )
    ]

band_agrees :
    (w x y z : ℕ)
    → x < 2 ^ w
    → y < 2 ^ w
    → (bit_and x z ≡ bit_and y z) ↔ ((k : ℕ) → k < w → bit_at z k ≡ 1 → bit_at x k ≡ bit_at y k)
band_agrees w x y z hx hy = (
  λ e k lt one. omega (
    arith,
    ap (λ n. bit_at n k) e,
    bit_at-bit_and k x z,
    bit_at-bit_and k y z,
    bit_at-le k x,
    bit_at-le k y,
  ),
  λ h.
      eq_of_bits w (bit_and x z) (bit_and y z) (omega (arith, bit_and-le_left x z))
        (omega (arith, bit_and-le_left y z))
        (λ k lt. ground (
          arith,
          h k lt,
          bit_at-bit_and k x z,
          bit_at-bit_and k y z,
          bit_at-le k x,
          bit_at-le k y,
          bit_at-le k z,
        )),
)

-- Two routings that agree on the bits of a mask.
abbrev pub AgreeOn : AccountRouting → AccountRouting → AccountRouting → Type 0
AgreeOn z x y = (i : ℕ) → i < 512 → routing_bit z i ≡ 1 → routing_bit x i ≡ routing_bit y i

routing_bit_dapp :
    (r : AccountRouting) (k : ℕ) → k < 256 → routing_bit r (255 - k) ≡ bit_at r.dapp k
routing_bit_dapp r k h =
    let back : 255 - (255 - k) ≡ k = omega arith in
    let low : ltb (255 - k) 256 ≡ true = ground arith in rw (low, back)

routing_bit_account :
    (r : AccountRouting) (k : ℕ) → k < 256 → routing_bit r (511 - k) ≡ bit_at r.account k
routing_bit_account r k h =
    let back : 511 - (511 - k) ≡ k = omega arith in
    let high : ltb (511 - k) 256 ≡ false = ground arith in rw (high, back)

halves_agree :
    (x y z : AccountRouting)
    → AgreeOn z x y ↔ (
        ((k : ℕ) → k < 256 → bit_at z.dapp k ≡ 1 → bit_at x.dapp k ≡ bit_at y.dapp k)
        × ((k : ℕ) → k < 256 → bit_at z.account k ≡ 1 → bit_at x.account k ≡ bit_at y.account k))
halves_agree x y z = (
  λ h. (
    λ k lt.
        rw (routing_bit_dapp z k lt, routing_bit_dapp x k lt, routing_bit_dapp y k lt) at
          (h (255 - k) (omega arith)),
    λ k lt.
        rw (routing_bit_account z k lt, routing_bit_account x k lt, routing_bit_account y k lt) at
          (h (511 - k) (omega arith)),
  ),
  λ (d, a) i lt one. ground (arith, d (255 - i), a (511 - i)),
)

-- A mask matches an account routing exactly when the two agree on every bit that the mask calls
-- meaningful, for the 512 bits of the dapp and the account.
pub is_match-AgreeOn :
    (m : Bitmask AccountRouting) (a : AccountRouting)
    → IsRouting a
    → IsRouting m.mask_bits
    → (is_match m a ≡ true) ↔ AgreeOn m.meaningful_mask_bits a m.mask_bits
unfolding is_match routing_band
is_match-AgreeOn m a ha hm = ground (
  arith,
  halves_agree a m.mask_bits m.meaningful_mask_bits,
  band_agrees 256 a.dapp m.mask_bits.dapp m.meaningful_mask_bits.dapp ha.0 hm.0,
  band_agrees 256 a.account m.mask_bits.account m.meaningful_mask_bits.account ha.1 hm.1,
)
