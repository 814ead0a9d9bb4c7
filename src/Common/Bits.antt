-- ===== src/Common/Bits.antt =====
-- Masks and unions of bit fields in one byte as arithmetic; each table is checked by evaluation.
use Prim.Native.Nat.{ℕ, zero, suc, ◌+◌, ◌-◌, ◌*◌, ◌/◌, ◌%◌, ◌^◌, ◌≤◌, ◌<◌, bit_and, bit_or}
use mathlib.Core.Path.{◌≡◌, refl}
use mathlib.Core.Bool.{Bool, true, ◌&&◌}
use native.Mathlib.Omega.{arith}
use coro_test.Common.Tests.{◌==◌, ==_iff}

-- A test passes at each number below a bound.
unfoldable pub each_below : ℕ → (ℕ → Bool) → Bool
each_below zero test = true
each_below (suc bound) test = test bound && each_below bound test

pub of_each_below :
    (bound : ℕ) (test : ℕ → Bool) (n : ℕ) → each_below bound test ≡ true → n < bound → test n ≡ true
unfolding each_below
of_each_below zero test n passed below = absurd (omega arith)
of_each_below (suc bound) test n passed below = ground (arith, of_each_below bound test n)

masks : each_below 9 (λ n. each_below 256 (λ b. bit_and b (2 ^ n - 1) == b % 2 ^ n)) ≡ true
unfolding each_below
masks = refl

-- `b & ((1 << n) - 1)` for a byte `b`.
pub low_bits : (n b : ℕ) → n ≤ 8 → b < 256 → bit_and b (2 ^ n - 1) ≡ b % 2 ^ n
low_bits n b hn hb = (==_iff _ _).0 (
    of_each_below 256 (λ b. bit_and b (2 ^ n - 1) == b % 2 ^ n) b
      (of_each_below 9 (λ n. each_below 256 (λ b. bit_and b (2 ^ n - 1) == b % 2 ^ n)) n masks
        (omega arith))
      hb)

unions :
    each_below 9 (λ n.
      each_below
        (2 ^ (8 - n))
        (λ k. each_below (2 ^ n) (λ v. bit_or (k * 2 ^ n) v == k * 2 ^ n + v)))
    ≡ true
unfolding each_below
unions = refl

-- `f | v` where the low `n` bits of the byte `f` are clear and `v` fits them.
pub union_bits :
    (n k v : ℕ) → n ≤ 8 → k < 2 ^ (8 - n) → v < 2 ^ n → bit_or (k * 2 ^ n) v ≡ k * 2 ^ n + v
union_bits n k v hn hk hv = (==_iff _ _).0 (
    of_each_below (2 ^ n) (λ v. bit_or (k * 2 ^ n) v == k * 2 ^ n + v) v
      (of_each_below (2 ^ (8 - n))
        (λ k. each_below (2 ^ n) (λ v. bit_or (k * 2 ^ n) v == k * 2 ^ n + v)) k
        (of_each_below 9
          (λ n.
            each_below (2 ^ (8 - n))
              (λ k. each_below (2 ^ n) (λ v. bit_or (k * 2 ^ n) v == k * 2 ^ n + v)))
          n unions (omega arith))
        hk)
      hv)

top_bits : each_below 256 (λ b. bit_and b 0x80 == b / 128 * 128) ≡ true
unfolding each_below
top_bits = refl

pub top_bit : (b : ℕ) → b < 256 → bit_and b 0x80 ≡ b / 128 * 128
top_bit b h = (==_iff _ _).0 (of_each_below 256 (λ b. bit_and b 0x80 == b / 128 * 128) b top_bits h)

marked : each_below 128 (λ b. bit_or b 0x80 == b + 128) ≡ true
unfolding each_below
marked = refl

pub set_top_bit : (b : ℕ) → b < 128 → bit_or b 0x80 ≡ b + 128
set_top_bit b h = (==_iff _ _).0 (of_each_below 128 (λ b. bit_or b 0x80 == b + 128) b marked h)
