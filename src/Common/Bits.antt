-- ===== src/Common/Bits.antt =====
-- The bits of a number of any width, from the lowest up.
use Prim.Native.Nat.{
  ℕ, zero, suc, ◌+◌, ◌*◌, ◌/◌, ◌%◌, ◌^◌, ◌≤◌, ◌<◌, min, max, bit_and, bit_or, digits,
  bit_and-bitwise, bit_or-bitwise,
}
use mathlib.Core.Path.{◌≡◌, refl, ap, ◌∙◌}
use native.Mathlib.Omega.{arith}
use native.Mathlib.Nat.{pow-suc}
use ackinacki.Common.Tests.{nat_beq, if◌then◌else◌}

-- `(x >> k) & 1`
unfoldable pub bit_at : ℕ → ℕ → ℕ
bit_at x zero = x % 2
bit_at x (suc k) = bit_at (x / 2) k

-- An operation on digits, read from the lowest digit up, whatever count it is started with.
module _ (rest : ℕ → ℕ) (op : ℕ → ℕ → ℕ) where
  digits_count : (n m x y : ℕ) → x ≤ n → x ≤ m → digits rest op n x y ≡ digits rest op m x y
  digits_count zero zero x y p q = refl
  digits_count zero (suc m) zero y p q = refl
  digits_count (suc n) zero zero y p q = refl
  digits_count (suc n) (suc m) zero y p q = refl
  digits_count zero (suc m) (suc x) y p q = absurd (omega arith)
  digits_count (suc n) zero (suc x) y p q = absurd (omega arith)
  digits_count (suc n) (suc m) (suc x) y p q =
      ap (λ k. k * 2 + op (suc x % 2) (y % 2))
        (digits_count n m (suc x / 2) (y / 2) (omega arith) (omega arith))

  digits_step :
      (x y : ℕ)
      → digits rest op (suc x) (suc x) y
        ≡ digits rest op (suc x / 2) (suc x / 2) (y / 2) * 2 + op (suc x % 2) (y % 2)
  digits_step x y =
      ap (λ k. k * 2 + op (suc x % 2) (y % 2))
        (digits_count x (suc x / 2) (suc x / 2) (y / 2) (omega arith) (omega arith))

bit_and_lowest : (x y : ℕ) → bit_and x y ≡ bit_and (x / 2) (y / 2) * 2 + min (x % 2) (y % 2)
bit_and_lowest zero y = omega (arith, bit_and-bitwise 0 y, bit_and-bitwise 0 (y / 2))
bit_and_lowest (suc x) y = omega (
  arith,
  bit_and-bitwise (suc x) y,
  bit_and-bitwise (suc x / 2) (y / 2),
  digits_step (λ b. zero) min x y,
)

bit_or_lowest : (x y : ℕ) → bit_or x y ≡ bit_or (x / 2) (y / 2) * 2 + max (x % 2) (y % 2)
bit_or_lowest zero y = omega (arith, bit_or-bitwise 0 y, bit_or-bitwise 0 (y / 2))
bit_or_lowest (suc x) y = omega (
  arith,
  bit_or-bitwise (suc x) y,
  bit_or-bitwise (suc x / 2) (y / 2),
  digits_step (λ b. b) max x y,
)

pub bit_at-bit_and : (k x y : ℕ) → bit_at (bit_and x y) k ≡ min (bit_at x k) (bit_at y k)
unfolding bit_at
bit_at-bit_and zero x y = omega (arith, bit_and_lowest x y)
bit_at-bit_and (suc k) x y =
    let half : bit_and x y / 2 ≡ bit_and (x / 2) (y / 2) = omega (arith, bit_and_lowest x y) in
    ap (λ n. bit_at n k) half ∙ bit_at-bit_and k (x / 2) (y / 2)

pub bit_at-bit_or : (k x y : ℕ) → bit_at (bit_or x y) k ≡ max (bit_at x k) (bit_at y k)
unfolding bit_at
bit_at-bit_or zero x y = omega (arith, bit_or_lowest x y)
bit_at-bit_or (suc k) x y =
    let half : bit_or x y / 2 ≡ bit_or (x / 2) (y / 2) = omega (arith, bit_or_lowest x y) in
    ap (λ n. bit_at n k) half ∙ bit_at-bit_or k (x / 2) (y / 2)

pub bit_at-zero : (k : ℕ) → bit_at 0 k ≡ 0
unfolding bit_at
bit_at-zero zero = refl
bit_at-zero (suc k) = bit_at-zero k

-- The power of two has one bit.
pub bit_at-pow : (j k : ℕ) → bit_at (2 ^ j) k ≡ (if nat_beq j k then 1 else 0)
unfolding bit_at
bit_at-pow zero zero = refl
bit_at-pow zero (suc k) = bit_at-zero k ∙ ground arith
bit_at-pow (suc j) zero = ground (arith, pow-suc 2 j)
bit_at-pow (suc j) (suc k) =
    let half : 2 ^ suc j / 2 ≡ 2 ^ j = omega (arith, pow-suc 2 j) in
    ap (λ n. bit_at n k) half ∙ bit_at-pow j k ∙ ground arith

pub bit_at-le : (k x : ℕ) → bit_at x k ≤ 1
unfolding bit_at
bit_at-le zero x = omega arith
bit_at-le (suc k) x = bit_at-le k (x / 2)

-- Numbers below 2 ^ w with the same w bits are the same.
pub eq_of_bits :
    (w x y : ℕ) → x < 2 ^ w → y < 2 ^ w → ((k : ℕ) → k < w → bit_at x k ≡ bit_at y k) → x ≡ y
unfolding bit_at
eq_of_bits zero x y hx hy h = omega arith
eq_of_bits (suc w) x y hx hy h =
    let lowest : x % 2 ≡ y % 2 = h 0 (omega arith) in
    let halves : x / 2 ≡ y / 2 =
      eq_of_bits w (x / 2) (y / 2) (omega (arith, pow-suc 2 w)) (omega (arith, pow-suc 2 w))
        (λ k lt. h (suc k) (omega arith)) in
    omega arith

bit_and-le : (n x y : ℕ) → x ≤ n → bit_and x y ≤ x
bit_and-le n zero y h = omega (arith, bit_and-bitwise 0 y)
bit_and-le zero (suc x) y h = absurd (omega arith)
bit_and-le (suc n) (suc x) y h =
    omega (arith, bit_and_lowest (suc x) y, bit_and-le n (suc x / 2) (y / 2) (omega arith))

-- An `and` is no larger than its first operand.
pub bit_and-le_left : (x y : ℕ) → bit_and x y ≤ x
bit_and-le_left x y = bit_and-le x x y (omega arith)

bit_and_zero_bound : (n x : ℕ) → x ≤ n → bit_and x 0 ≡ 0
bit_and_zero_bound n zero h = omega (arith, bit_and-bitwise 0 0)
bit_and_zero_bound zero (suc x) h = absurd (omega arith)
bit_and_zero_bound (suc n) (suc x) h =
    omega (arith, bit_and_lowest (suc x) 0, bit_and_zero_bound n (suc x / 2) (omega arith))

pub bit_and-zero : (x : ℕ) → bit_and x 0 ≡ 0
bit_and-zero x = bit_and_zero_bound x x (omega arith)

-- An `or` of two numbers of w bits has w bits.
pub bit_or-lt : (w x y : ℕ) → x < 2 ^ w → y < 2 ^ w → bit_or x y < 2 ^ w
bit_or-lt zero zero zero hx hy = omega (arith, bit_or-bitwise 0 0)
bit_or-lt zero zero (suc y) hx hy = absurd (omega arith)
bit_or-lt zero (suc x) y hx hy = absurd (omega arith)
bit_or-lt (suc w) x y hx hy = omega (
  arith,
  pow-suc 2 w,
  bit_or_lowest x y,
  bit_or-lt w (x / 2) (y / 2) (omega (arith, pow-suc 2 w)) (omega (arith, pow-suc 2 w)),
)
