-- ===== src/Hpack/Text/Bits.antt =====
-- Bits in order, the highest first, and the numbers that they make.
use coro_test.Common.{
  ℕ, zero, suc, ◌+◌, ◌*◌, ◌^◌, ◌≤◌, ◌<◌, ◌≡◌, refl, ap, ◌∙◌, List, [], ◌∷◌, ◌++◌, Bytes, Bool, true,
  false, arith, length, append_assoc,
}
use native.Mathlib.Nat.{pow-suc}

abbrev pub Bits : Type 0
Bits = List Bool

abbrev pub bit : Bool → ℕ
bit true = 1
bit false = 0

unfoldable pub value_from : ℕ → Bits → ℕ
value_from acc [] = acc
value_from acc (b ∷ bs) = value_from (acc * 2 + bit b) bs

abbrev pub value : Bits → ℕ
value bs = value_from 0 bs

unfoldable pub run_of : Bool → ℕ → Bits
run_of b zero = []
run_of b (suc n) = b ∷ run_of b n

abbrev pub zeros : ℕ → Bits
zeros n = run_of false n

abbrev pub ones : ℕ → Bits
ones n = run_of true n

pub length-run_of : (b : Bool) (n : ℕ) → length (run_of b n) ≡ n
unfolding run_of
length-run_of b zero = refl
length-run_of b (suc n) = ap suc (length-run_of b n)

pub run_of_add : (b : Bool) (m n : ℕ) → run_of b m ++ run_of b n ≡ run_of b (m + n)
unfolding run_of
run_of_add b zero n = ap (run_of b) (omega arith)
run_of_add b (suc m) n =
    ap (λ (t : Bits). b ∷ t) (run_of_add b m n) ∙ ap (run_of b) {x = suc (m + n)} (omega arith)

value_from-append :
    (acc : ℕ) (f r : Bits) → value_from acc (f ++ r) ≡ value_from (value_from acc f) r
unfolding value_from
value_from-append acc [] r = refl
value_from-append acc (b ∷ f) r = value_from-append (acc * 2 + bit b) f r

value_from-shift : (acc : ℕ) (r : Bits) → value_from acc r ≡ acc * 2 ^ length r + value r
unfolding value_from
value_from-shift acc [] = omega arith
value_from-shift acc (b ∷ r) =
    let twice : 2 ^ suc (length r) ≡ 2 * 2 ^ length r = omega (arith, pow-suc 2 (length r)) in
    let whole : acc * 2 ^ suc (length r) ≡ acc * (2 * 2 ^ length r) =
      ap (λ (t : ℕ). acc * t) twice in
    omega (arith, value_from-shift (acc * 2 + bit b) r, value_from-shift (0 * 2 + bit b) r, whole)

pub value-append : (f r : Bits) → value (f ++ r) ≡ value f * 2 ^ length r + value r
value-append f r = value_from-append 0 f r ∙ value_from-shift (value f) r

pub value-lt : (bs : Bits) → value bs < 2 ^ length bs
unfolding value_from
value-lt [] = omega arith
value-lt (b ∷ bs) =
    let twice : 2 ^ suc (length bs) ≡ 2 * 2 ^ length bs = omega (arith, pow-suc 2 (length bs)) in
    omega (arith, value_from-shift (0 * 2 + bit b) bs, value-lt bs, twice, bit_small b)
  where
    bit_small : (b : Bool) → (0 * 2 + bit b) * 2 ^ length bs ≤ 2 ^ length bs
    bit_small true = omega arith
    bit_small false = omega arith

pub value-zeros : (n : ℕ) → value (zeros n) ≡ 0
unfolding value_from run_of
value-zeros zero = refl
value-zeros (suc n) = value-zeros n

pub value-ones : (n : ℕ) → value (ones n) + 1 ≡ 2 ^ n
unfolding value_from run_of
value-ones zero = refl
value-ones (suc n) = omega (
  arith,
  value_from-shift 1 (ones n),
  value-ones n,
  pow-suc 2 n,
  (rw (length-run_of true n) at (value_from-shift 1 (ones n))),
)

-- Bytes of eight bits each.
pub data IsPacked : Bytes → Bits → Type 0 where
  nothing : IsPacked [] []
  byte :
      (bs : Bits) {bytes : Bytes} {bits : Bits}
      → length bs ≡ 8
      → IsPacked bytes bits
      → IsPacked (value bs ∷ bytes) (bs ++ bits)

pub IsPacked-append :
    (xs ys : Bytes) (bs cs : Bits)
    → IsPacked xs bs
    → IsPacked ys cs
    → IsPacked (xs ++ ys) (bs ++ cs)
IsPacked-append _ ys _ cs nothing q = q
IsPacked-append _ ys _ cs (byte b {bytes = xs} {bits = bs} e p) q =
    rw (append_assoc b bs cs) (byte b e (IsPacked-append xs ys bs cs p q))
