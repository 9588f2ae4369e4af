-- ===== src/Common/Bits.antt =====
-- Bit operations at variables: the law of the lowest digit, masks, and sums without a carry.
use Prim.Native.Nat.{
  ℕ, zero, suc, ◌+◌, ◌*◌, ◌/◌, ◌%◌, ◌^◌, ◌≤◌, ◌<◌, min, max, bit_and, bit_or, digits,
  bit_and-bitwise, bit_or-bitwise,
}
use mathlib.Core.Path.{◌≡◌, refl, sym, ap, ◌∙◌}
use native.Mathlib.Nat.{
  pow-zero, pow-suc, mul_assoc, mul_comm, div-div-eq-div-mul, add-mul-mod_self_left, mod-eq_of_lt,
  div-add-mod, mod-lt,
}
use native.Mathlib.Omega.{arith}

module _ (base : ℕ → ℕ) (join : ℕ → ℕ → ℕ) where
  -- As many rounds as the first number are enough: more give the same result.
  digits_enough : (i j x y : ℕ) → x ≤ i → x ≤ j → digits base join i x y ≡ digits base join j x y
  digits_enough zero zero x y h k = refl
  digits_enough zero (suc j) zero y h k = refl
  digits_enough (suc i) zero zero y h k = refl
  digits_enough (suc i) (suc j) zero y h k = refl
  digits_enough zero (suc j) (suc x) y h k = absurd (omega arith)
  digits_enough (suc i) zero (suc x) y h k = absurd (omega arith)
  digits_enough (suc i) (suc j) (suc x) y h k =
      let below : suc x / 2 ≤ i = omega arith in
      let below' : suc x / 2 ≤ j = omega arith in
      omega (arith, digits_enough i j (suc x / 2) (y / 2) below below')

pub zero-bit_or : (b : ℕ) → bit_or 0 b ≡ b
zero-bit_or b = bit_or-bitwise 0 b

pub bit_and_step : (x y : ℕ) → bit_and x y ≡ bit_and (x / 2) (y / 2) * 2 + min (x % 2) (y % 2)
bit_and_step zero y = omega (arith, bit_and-bitwise 0 y, bit_and-bitwise 0 (y / 2))
bit_and_step (suc x) y =
    let half = suc x / 2 in
    let rounds =
      digits_enough (λ (t : ℕ). zero) min x half half (y / 2) (omega arith) (omega arith) in
    omega (arith, rounds, bit_and-bitwise half (y / 2), bit_and-bitwise (suc x) y)

pub bit_or_step : (x y : ℕ) → bit_or x y ≡ bit_or (x / 2) (y / 2) * 2 + max (x % 2) (y % 2)
bit_or_step zero y = omega (arith, bit_or-bitwise 0 y, bit_or-bitwise 0 (y / 2))
bit_or_step (suc x) y =
    let half = suc x / 2 in
    let rounds = digits_enough (λ (t : ℕ). t) max x half half (y / 2) (omega arith) (omega arith) in
    omega (arith, rounds, bit_or-bitwise half (y / 2), bit_or-bitwise (suc x) y)

and-zero_rounds : (rounds x : ℕ) → digits (λ (t : ℕ). zero) min rounds x 0 ≡ 0
and-zero_rounds zero x = refl
and-zero_rounds (suc rounds) zero = refl
and-zero_rounds (suc rounds) (suc x) = omega (arith, and-zero_rounds rounds (suc x / 2))

pub bit_and-zero : (x : ℕ) → bit_and x 0 ≡ 0
bit_and-zero x = bit_and-bitwise x 0 ∙ and-zero_rounds x x

pub bit_and-one : (x : ℕ) → bit_and x 1 ≡ x % 2
bit_and-one x = let rest = bit_and-zero (x / 2) in omega (arith, rest, bit_and_step x 1)

or-zero_rounds : (rounds x : ℕ) → x ≤ rounds → digits (λ (t : ℕ). t) max rounds x 0 ≡ x
or-zero_rounds zero x h = omega arith
or-zero_rounds (suc rounds) zero h = refl
or-zero_rounds (suc rounds) (suc x) h =
    omega (arith, or-zero_rounds rounds (suc x / 2) (omega arith))

pub bit_or-zero : (x : ℕ) → bit_or x 0 ≡ x
bit_or-zero x = bit_or-bitwise x 0 ∙ or-zero_rounds x x (omega arith)

-- With an even second number the lowest digit of the first stays.
bit_or-even : (a b : ℕ) → bit_or a (b * 2) ≡ bit_or (a / 2) b * 2 + a % 2
bit_or-even a b =
    let half : b * 2 / 2 ≡ b = omega arith in bit_or_step a (b * 2) ∙ rw half (omega arith)

-- `a | (x << k)` is a sum where `a` has only the `k` lowest bits.
pub bit_or-shift : (k a x : ℕ) → a < 2 ^ k → bit_or a (x * 2 ^ k) ≡ a + x * 2 ^ k
bit_or-shift zero a x h =
    let e : a ≡ 0 = omega (arith, pow-zero 2) in rw (e, zero-bit_or) (omega arith)
bit_or-shift (suc k) a x h =
    let low : a / 2 < 2 ^ k = omega (arith, pow-suc 2 k) in
    let e : x * 2 ^ suc k ≡ x * 2 ^ k * 2 = rw (pow-suc, mul_assoc) in
    rw (e, bit_or-even, bit_or-shift k (a / 2) x low) (omega arith)

-- The low byte of `v | 128` is the low seven bits under a set top bit.
pub bit_or_top : (v : ℕ) → bit_or v 128 % 256 ≡ v % 128 + 128
bit_or_top v = omega (
  arith,
  bit_or-even v 64,
  bit_or-even (v / 2) 32,
  bit_or-even (v / 2 / 2) 16,
  bit_or-even (v / 2 / 2 / 2) 8,
  bit_or-even (v / 2 / 2 / 2 / 2) 4,
  bit_or-even (v / 2 / 2 / 2 / 2 / 2) 2,
  bit_or-even (v / 2 / 2 / 2 / 2 / 2 / 2) 1,
  bit_or_step (v / 2 / 2 / 2 / 2 / 2 / 2 / 2) 1,
)

mod_double : (q a : ℕ) → 0 < q → a % (q * 2) ≡ a / 2 % q * 2 + a % 2
mod_double q a h =
    ap (λ (t : ℕ). t % (q * 2)) split
    ∙ add-mul-mod_self_left low (q * 2) (a / 2 / q)
    ∙ mod-eq_of_lt small
  where
    low : ℕ
    low = a / 2 % q * 2 + a % 2

    split : a ≡ a / 2 % q * 2 + a % 2 + q * 2 * (a / 2 / q)
    split = omega (arith, div-add-mod (a / 2) q)

    small : a / 2 % q * 2 + a % 2 < q * 2
    small = omega (arith, mod-lt (a / 2) h)

-- `a & (2 ^ k - 1)` keeps the `k` lowest bits.
pub bit_and-mask : (k a m : ℕ) → m + 1 ≡ 2 ^ k → bit_and a m ≡ a % 2 ^ k
bit_and-mask zero a m h =
    let e : m ≡ 0 = omega (arith, pow-zero 2) in rw (e, bit_and-zero, pow-zero) (omega arith)
bit_and-mask (suc k) a m h =
    let half : m / 2 + 1 ≡ 2 ^ k = omega (arith, pow-suc 2 k) in
    let odd : m % 2 ≡ 1 = omega (arith, pow-suc 2 k) in
    rw
      (
        bit_and_step,
        bit_and-mask k (a / 2) (m / 2) half,
        pow-suc,
        mod_double (2 ^ k) a (omega arith),
      )
      (omega arith)

bit_and-even : (a b : ℕ) → bit_and a (b * 2) ≡ bit_and (a / 2) b * 2
bit_and-even a b =
    let half : b * 2 / 2 ≡ b = omega arith in
    let even : min (a % 2) (b * 2 % 2) ≡ 0 = omega arith in
    bit_and_step a (b * 2) ∙ rw (half, even) (omega arith)

-- A single bit.
bit_and-power : (k a : ℕ) → bit_and a (2 ^ k) ≡ a / 2 ^ k % 2 * 2 ^ k
bit_and-power zero a = rw pow-zero (bit_and-one a ∙ omega arith)
bit_and-power (suc k) a =
    let e : a / (2 ^ k * 2) ≡ a / 2 / 2 ^ k =
      ap (λ (t : ℕ). a / t) (mul_comm (2 ^ k) 2) ∙ sym (div-div-eq-div-mul a 2 (2 ^ k)) in
    rw (pow-suc, bit_and-even, bit_and-power k (a / 2), e) (omega arith)

-- The top bit of a byte.
pub bit_and_top : (b : ℕ) → b < 256 → bit_and b 128 ≡ b / 128 * 128
bit_and_top b h = bit_and-power 7 b ∙ omega arith
