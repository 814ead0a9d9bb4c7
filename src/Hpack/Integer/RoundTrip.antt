-- ===== src/Hpack/Integer/RoundTrip.antt =====
-- `decodeInt` reads back what `encodeInt` writes.
use mathlib.Core.WellFounded.{Acc}
use native.Mathlib.Nat.{div-add-mod}
use coro_test.Common.{
  ℕ, zero, suc, ◌+◌, ◌-◌, ◌*◌, ◌/◌, ◌%◌, ◌^◌, ◌≤◌, ◌<◌, ◌≡◌, refl, ap, [], ◌∷◌, ◌++◌, Bytes,
  bit_and, bit_or, arith, Bool-cases, ltb, ◌==◌, ==_iff, inl, inr, true,
}
use coro_test.Common.Bits.{each_below, of_each_below, low_bits, union_bits, top_bit, set_top_bit}
use coro_test.Common.Order.{two_pow-pos, two_pow-le, two_pow_seven, lt_wf}
use coro_test.Common.Error.{ok}
use coro_test.Hpack.Integer.{
  IsU64, decode_groups, decode_int, encode_groups, int_bytes, shift_shrinks,
}

-- One round on a last byte, and on a byte with the top bit set over the group `g`.
last_group :
    (w acc m : ℕ) (rest : Bytes)
    → w < 128
    → m < 64
    → IsU64 (acc + w * 2 ^ m)
    → decode_groups (w ∷ rest) acc m ≡ ok (acc + w * 2 ^ m, rest)
unfolding decode_groups
last_group w acc m rest hw hm fits = ground (arith, low_bits 7 w, top_bit w)

inner_group :
    (g acc m : ℕ) (rest : Bytes)
    → g < 128
    → m < 64
    → IsU64 (acc + g * 2 ^ m)
    → decode_groups ((g + 128) ∷ rest) acc m ≡ decode_groups rest (acc + g * 2 ^ m) (m + 7)
unfolding decode_groups
inner_group g acc m rest hg hm fits = ground (arith, low_bits 7 (g + 128), top_bit (g + 128))

low_group : (v : ℕ) → bit_and (v % 256) 0x7f ≡ v % 128
low_group v = omega (arith, low_bits 7 (v % 256) (omega arith) (omega arith))

marked_group : (v : ℕ) → bit_or (bit_and (v % 256) 0x7f) 0x80 ≡ v % 128 + 128
marked_group v = rw low_group (set_top_bit _ (omega arith))

split_value : (v m : ℕ) → v * 2 ^ m ≡ v % 128 * 2 ^ m + v / 128 * 2 ^ (m + 7)
split_value v m = omega (
  arith,
  ap (λ (t : ℕ). t * 2 ^ m) (div-add-mod v 128),
  ap (λ (t : ℕ). v / 128 * t) (two_pow_seven m),
)

-- A group that is not 0 stands below bit 64.
shift_bound : (acc v m : ℕ) → 0 < v → IsU64 (acc + v * 2 ^ m) → m < 64
shift_bound acc zero m h fits = elim h [ ]
shift_bound acc (suc v) m h fits = elim (Bool-cases (ltb m 64)) [
  | inl e ↦ ground arith
  | inr e ↦ absurd (omega (arith, two_pow-le 64 m (ground arith), fits))
]

decode_groups-encode_groups :
    (v : ℕ) (w : Acc ◌<◌ v) (acc m : ℕ) (rest : Bytes)
    → m < 64
    → IsU64 (acc + v * 2 ^ m)
    → decode_groups (encode_groups v w ++ rest) acc m ≡ ok (acc + v * 2 ^ m, rest)
unfolding encode_groups
decode_groups-encode_groups v (Acc.intro _ smaller) acc m rest hm fits = grind (
  arith,
  marked_group v,
  last_group v acc m rest,
  split_value v m,
  inner_group (v % 128) acc m,
  shift_bound (acc + v % 128 * 2 ^ m) (v / 128) (m + 7),
  λ (h : 127 < v).
      decode_groups-encode_groups (v / 128) (smaller _ (shift_shrinks v h)) (acc + v % 128 * 2 ^ m)
        (m + 7) rest,
)

first_byte_low : (n k v : ℕ) → v < 2 ^ n → (k * 2 ^ n + v) % 2 ^ n ≡ v
first_byte_low n k v h = grind arith

eight_bits : each_below 9 (λ n. 2 ^ (8 - n) * 2 ^ n == 256) ≡ true
unfolding each_below
eight_bits = refl

first_byte_fits : (n k v : ℕ) → n ≤ 8 → k < 2 ^ (8 - n) → v < 2 ^ n → k * 2 ^ n + v < 256
first_byte_fits n k v hn hk hv =
    let e : 2 ^ (8 - n) * 2 ^ n ≡ 256 =
      (==_iff _ _).0
        (of_each_below 9 (λ n. 2 ^ (8 - n) * 2 ^ n == 256) n eight_bits (omega arith)) in
    let h : (k + 1) * 2 ^ n ≤ 2 ^ (8 - n) * 2 ^ n = grind arith in omega (arith, h, e)

-- The first byte of an encoding, as the decoder reads it.
first_byte :
    (n k v : ℕ)
    → n ≤ 8
    → k < 2 ^ (8 - n)
    → v < 2 ^ n
    → bit_and (bit_or (k * 2 ^ n) (v % 256)) (2 ^ n - 1) ≡ v
first_byte n k v hn hk hv =
    let small : v % 256 ≡ v = omega (arith, two_pow-le n 8 hn) in
    rw (small, union_bits n k v hn hk hv, low_bits n _ hn (first_byte_fits n k v hn hk hv))
      (first_byte_low n k v hv)

-- `encodeInt` and `decodeInt` agree: for a prefix of at most 8 bits, a first byte whose low bits are
-- clear and any 64-bit value, the decoder returns the value and stops at the bytes that follow.
pub decode_int-int_bytes :
    (value n k : ℕ) (rest : Bytes)
    → n ≤ 8
    → k < 2 ^ (8 - n)
    → IsU64 value
    → decode_int (int_bytes value n (k * 2 ^ n) ++ rest) n ≡ ok (value, rest)
unfolding decode_int int_bytes
decode_int-int_bytes value n k rest hn hk hv = elim (Bool-cases (ltb value (2 ^ n - 1))) [
  | inl small ↦ ground (arith, first_byte n k value)
  | inr large ↦ ground (
    arith,
    two_pow-pos n,
    first_byte n k (2 ^ n - 1),
    decode_groups-encode_groups (value - (2 ^ n - 1)) (lt_wf.apply _) (2 ^ n - 1) 0 rest,
  )
]

-- The first byte of an encoding: the marking bits, and a value below 2 ^ n.
pub int_bytes-head :
    (value n k : ℕ)
    → n ≤ 8
    → k < 2 ^ (8 - n)
    → (w : ℕ) × (t : Bytes) × (int_bytes value n (k * 2 ^ n) ≡ (k * 2 ^ n + w) ∷ t) × (w < 2 ^ n)
unfolding int_bytes
int_bytes-head value n k hn hk =
    let fits : 2 ^ n ≤ 256 = two_pow-le n 8 hn in
    elim (Bool-cases (ltb value (2 ^ n - 1))) [
      | inl small ↦
          let e : value % 256 ≡ value = ground arith in
          (value, [], rw (small, e, union_bits n k value hn hk (ground arith)), ground arith)
      | inr large ↦
          let e : (2 ^ n - 1) % 256 ≡ 2 ^ n - 1 = omega (arith, two_pow-pos n) in
          (
            2 ^ n - 1,
            encode_groups (value - (2 ^ n - 1)) (lt_wf.apply (value - (2 ^ n - 1))),
            rw (large, e, union_bits n k (2 ^ n - 1) hn hk (omega (arith, two_pow-pos n))),
            omega (arith, two_pow-pos n),
          )
    ]
