-- ===== src/Common/Bitwise.antt =====
-- `|` and `&` on numbers of any width, where the masks are runs of ones and the fields do not overlap.
use Prim.Native.Nat.{
  ℕ, zero, suc, ◌+◌, ◌-◌, ◌*◌, ◌/◌, ◌%◌, ◌^◌, ◌≤◌, ◌<◌, min, max, bit_and, bit_or, digits,
  bit_and-bitwise, bit_or-bitwise,
}
use mathlib.Core.Path.{◌≡◌, refl, ◌∙◌, ap}
use native.Mathlib.Omega.{arith}
use native.Mathlib.Nat.{pow-suc}
use coro_test.Common.Order.{two_pow-pos}

-- An operation digit by digit does not depend on the count of digits, where that is large enough, and
-- splits off the lowest digit.
module _ (z : ℕ → ℕ) (f : ℕ → ℕ → ℕ) (unfolds : (b : ℕ) → z b ≡ z (b / 2) * 2 + f 0 (b % 2)) where
  enough : (a b n m : ℕ) → a ≤ n → a ≤ m → digits z f n a b ≡ digits z f m a b
  enough zero b zero zero p q = refl
  enough zero b zero (suc m) p q = refl
  enough zero b (suc n) zero p q = refl
  enough zero b (suc n) (suc m) p q = refl
  enough (suc a) b zero m p q = absurd (omega arith)
  enough (suc a) b (suc n) zero p q = absurd (omega arith)
  enough (suc a) b (suc n) (suc m) p q =
      omega (arith, enough (suc a / 2) (b / 2) n m (omega arith) (omega arith))

  pub lowest :
      (a b : ℕ) → digits z f a a b ≡ digits z f (a / 2) (a / 2) (b / 2) * 2 + f (a % 2) (b % 2)
  lowest zero b = unfolds b
  lowest (suc a) b =
      omega (arith, enough (suc a / 2) (b / 2) a (suc a / 2) (omega arith) (omega arith))

or_step : (a b : ℕ) → bit_or a b ≡ bit_or (a / 2) (b / 2) * 2 + max (a % 2) (b % 2)
or_step a b = omega (
  arith,
  bit_or-bitwise a b,
  bit_or-bitwise (a / 2) (b / 2),
  lowest (λ b. b) max (λ b. omega arith) a b,
)

and_step : (a b : ℕ) → bit_and a b ≡ bit_and (a / 2) (b / 2) * 2 + min (a % 2) (b % 2)
and_step a b = omega (
  arith,
  bit_and-bitwise a b,
  bit_and-bitwise (a / 2) (b / 2),
  lowest (λ b. 0) min (λ b. omega arith) a b,
)

or_zero_below : (n a : ℕ) → a ≤ n → bit_or a 0 ≡ a
or_zero_below zero zero h = refl
or_zero_below zero (suc a) h = absurd (omega arith)
or_zero_below (suc n) zero h = refl
or_zero_below (suc n) (suc a) h =
    omega (arith, or_step (suc a) 0, or_zero_below n (suc a / 2) (omega arith))

and_zero_below : (n a : ℕ) → a ≤ n → bit_and a 0 ≡ 0
and_zero_below zero zero h = refl
and_zero_below zero (suc a) h = absurd (omega arith)
and_zero_below (suc n) zero h = refl
and_zero_below (suc n) (suc a) h =
    omega (arith, and_step (suc a) 0, and_zero_below n (suc a / 2) (omega arith))

-- `(v << n) | b` for a field `b` of `n` bits.
pub or_shifted : (n v b : ℕ) → b < 2 ^ n → bit_or (v * 2 ^ n) b ≡ v * 2 ^ n + b
or_shifted zero v b h =
    let e : b ≡ 0 = omega arith in rw e (or_zero_below (v * 1) (v * 1) (omega arith) ∙ omega arith)
or_shifted (suc n) v b h =
    let twice : 2 ^ suc n ≡ 2 * 2 ^ n = omega (arith, pow-suc 2 n) in
    let product : v * 2 ^ suc n ≡ 2 * (v * 2 ^ n) = omega (arith, ap (λ (t : ℕ). v * t) twice) in
    let half : v * 2 ^ suc n / 2 ≡ v * 2 ^ n = omega (arith, product) in
    let step = or_step (v * 2 ^ suc n) b in
    omega (arith, product, (rw half at step), or_shifted n v (b / 2) (omega (arith, twice)))

half_mod : (v p : ℕ) → 0 < p → v % (2 * p) ≡ v / 2 % p * 2 + v % 2
half_mod v p h = grind arith

-- `v & ((1 << n) - 1)`
pub and_ones : (n v : ℕ) → bit_and v (2 ^ n - 1) ≡ v % 2 ^ n
and_ones zero v = and_zero_below v v (omega arith) ∙ omega arith
and_ones (suc n) v =
    let pos = two_pow-pos n in
    let twice : 2 ^ suc n ≡ 2 * 2 ^ n = omega (arith, pow-suc 2 n) in
    let half : (2 ^ suc n - 1) / 2 ≡ 2 ^ n - 1 = omega (arith, twice, pos) in
    let odd : (2 ^ suc n - 1) % 2 ≡ 1 = omega (arith, twice, pos) in
    let step = and_step v (2 ^ suc n - 1) in
    rw twice (
      omega
        (arith, (rw twice at (rw (half, odd) at step)), and_ones n (v / 2), half_mod v (2 ^ n) pos))
