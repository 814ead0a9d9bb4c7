-- ===== src/Common/Order.antt =====
-- `<` on the native numbers is well founded, and powers of two are monotone.
use Prim.Native.Nat.{ℕ, zero, suc, ◌+◌, ◌*◌, ◌^◌, ◌≤◌, ◌<◌}
use mathlib.Core.Path.{◌≡◌}
use mathlib.Core.WellFounded.{Acc, WellFounded}
use native.Mathlib.Omega.{arith}
use native.Mathlib.Nat.{pow-suc}
use native.Mathlib.Numerals.{towards_suc}

Acc-below : (k n : ℕ) → n < k → Acc ◌<◌ n
Acc-below zero n h = elim h [ ]
Acc-below (suc k) n h = Acc.intro n (λ m hm. Acc-below k m (omega arith))

unfoldable pub lt_wf : WellFounded ◌<◌
unfolding Acc-below
lt_wf = record { apply = λ n. Acc-below (suc n) n (omega arith) }

pub two_pow-pos : (n : ℕ) → 1 ≤ 2 ^ n
two_pow-pos zero = omega arith
two_pow-pos (suc n) = rw pow-suc (omega (arith, two_pow-pos n))

-- An exponent is bounded by that of a larger power.
pub two_pow-le_inv : (m n : ℕ) → 2 ^ m ≤ 2 ^ n → m ≤ n
two_pow-le_inv zero n h = omega arith
two_pow-le_inv (suc m) zero h =
    let k : 2 ^ suc m ≤ 1 = h in absurd (omega (arith, two_pow-pos m, rw pow-suc at k))
two_pow-le_inv (suc m) (suc n) h =
    omega (arith, two_pow-le_inv m n (omega (arith, pow-suc 2 m, pow-suc 2 n)))

pub two_pow_seven : (m : ℕ) → 2 ^ (m + 7) ≡ 128 * 2 ^ m
two_pow_seven m = simp towards_suc (omega arith)

pub two_pow_eight : (m : ℕ) → 2 ^ (m + 8) ≡ 256 * 2 ^ m
two_pow_eight m = simp towards_suc (omega arith)

pub two_pow-le : (m n : ℕ) → m ≤ n → 2 ^ m ≤ 2 ^ n
two_pow-le zero n h = two_pow-pos n
two_pow-le (suc m) zero h = absurd (omega arith)
two_pow-le (suc m) (suc n) h = omega (arith, pow-suc 2 m, pow-suc 2 n, two_pow-le m n (omega arith))
