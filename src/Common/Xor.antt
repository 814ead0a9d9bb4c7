-- ===== src/Common/Xor.antt =====
-- `^` on numbers of any width.
use Prim.Native.Nat.{ℕ, zero, suc, ◌+◌, ◌*◌, ◌/◌, ◌%◌, ◌^◌, ◌<◌, bit_xor, differ, bit_xor-bitwise}
use mathlib.Core.Path.{◌≡◌, refl}
use native.Mathlib.Omega.{arith}
use native.Mathlib.Nat.{pow-suc}
use coro_test.Common.Bitwise.{lowest}

differ_zero : (d : ℕ) → differ 0 d ≡ d
differ_zero d = refl

xor_step : (a b : ℕ) → bit_xor a b ≡ bit_xor (a / 2) (b / 2) * 2 + differ (a % 2) (b % 2)
xor_step a b = omega (
  arith,
  bit_xor-bitwise a b,
  bit_xor-bitwise (a / 2) (b / 2),
  lowest (λ b. b) differ (λ b. omega arith) a b,
)

differ_small : (p q : ℕ) → p < 2 → q < 2 → differ p q < 2
differ_small zero q hp hq = hq
differ_small (suc zero) zero hp hq = hp
differ_small (suc zero) (suc zero) hp hq = omega arith
differ_small (suc zero) (suc (suc q)) hp hq = absurd (omega arith)
differ_small (suc (suc p)) q hp hq = absurd (omega arith)

differ_twice : (p q : ℕ) → p < 2 → q < 2 → differ (differ p q) q ≡ p
differ_twice zero zero hp hq = refl
differ_twice zero (suc zero) hp hq = refl
differ_twice zero (suc (suc q)) hp hq = absurd (omega arith)
differ_twice (suc zero) zero hp hq = refl
differ_twice (suc zero) (suc zero) hp hq = refl
differ_twice (suc zero) (suc (suc q)) hp hq = absurd (omega arith)
differ_twice (suc (suc p)) q hp hq = absurd (omega arith)

-- The half and the last digit of `a ^ b`.
xor_half : (a b : ℕ) → bit_xor a b / 2 ≡ bit_xor (a / 2) (b / 2)
xor_half a b = omega (arith, xor_step a b, differ_small (a % 2) (b % 2) (omega arith) (omega arith))

xor_last : (a b : ℕ) → bit_xor a b % 2 ≡ differ (a % 2) (b % 2)
xor_last a b = omega (arith, xor_step a b, differ_small (a % 2) (b % 2) (omega arith) (omega arith))

-- `^` with the same field twice gives the number back.
pub xor_twice : (n a k : ℕ) → a < 2 ^ n → k < 2 ^ n → bit_xor (bit_xor a k) k ≡ a
xor_twice zero zero zero ha hk = refl
xor_twice zero zero (suc k) ha hk = absurd (omega arith)
xor_twice zero (suc a) k ha hk = absurd (omega arith)
xor_twice (suc n) a k ha hk =
    let twice = pow-suc 2 n in
    let step = xor_step (bit_xor a k) k in
    omega (
      arith,
      (rw (xor_half a k, xor_last a k) at step),
      differ_twice (a % 2) (k % 2) (omega arith) (omega arith),
      xor_twice n (a / 2) (k / 2) (omega (arith, twice)) (omega (arith, twice)),
    )

-- `^` stays within the width.
pub xor_below : (n a k : ℕ) → a < 2 ^ n → k < 2 ^ n → bit_xor a k < 2 ^ n
xor_below zero zero zero ha hk = ha
xor_below zero zero (suc k) ha hk = absurd (omega arith)
xor_below zero (suc a) k ha hk = absurd (omega arith)
xor_below (suc n) a k ha hk = omega (
  arith,
  pow-suc 2 n,
  xor_step a k,
  differ_small (a % 2) (k % 2) (omega arith) (omega arith),
  xor_below n (a / 2) (k / 2) (omega (arith, pow-suc 2 n)) (omega (arith, pow-suc 2 n)),
)
