-- ===== src/Hpack/Text/Flush.antt =====
-- The inner loop of `encodeStr` in extensions/http2/src/hpack/Hpack.cc: whole bytes leave the top of 64 bits.
use coro_test.Common.{
  ℕ, zero, suc, ◌+◌, ◌-◌, ◌*◌, ◌/◌, ◌%◌, ◌^◌, ◌≤◌, ◌<◌, ◌≡◌, refl, sym, ap, subst, ◌∙◌, [], ◌∷◌,
  ◌++◌, Bytes, false, arith, leb, length, take, drop, length-take, length-drop, take-append-drop,
  length-append, append_assoc, append-nil, if_elim,
}
use coro_test.Hpack.Text.{HuffmanTables, flush}
use coro_test.Hpack.Text.Bits.{
  Bits, value, zeros, length-run_of, run_of_add, value-append, value-lt, value-zeros, IsPacked,
  nothing, byte,
}

-- The 64 bits that hold `p` at their top.
abbrev pub top : Bits → ℕ
top p = value (p ++ zeros (64 - length p))

-- A list of 64 bits by its first eight.
pub top_byte :
    (f r : Bits)
    → length r ≡ 56
    → (value (f ++ r) / 2 ^ 56 ≡ value f) × (value (f ++ r) * 2 ^ 8 % 2 ^ 64 ≡ value (r ++ zeros 8))
top_byte f r size =
    let whole : value (f ++ r) ≡ value f * 2 ^ 56 + value r =
      value-append f r ∙ ap (λ (n : ℕ). value f * 2 ^ n + value r) size in
    let small : value r < 2 ^ 56 = subst (λ (n : ℕ). value r < 2 ^ n) size (value-lt r) in
    let moved : value (r ++ zeros 8) ≡ value r * 2 ^ 8 =
      value-append r (zeros 8)
      ∙ ap (λ (n : ℕ). value r * 2 ^ n + value (zeros 8)) (length-run_of false 8)
      ∙ ap (λ (n : ℕ). value r * 2 ^ 8 + n) (value-zeros 8)
      ∙ omega arith in
    (omega (arith, whole, small), omega (arith, whole, small, moved))

-- What `flush` leaves of `p`: whole bytes are written, and less than eight bits wait.
abbrev pub Flushed : Bits → Bytes → Bytes × ℕ × ℕ → Type 0
Flushed p out (out', code, nbits) =
    (whole : Bytes) × (bits : Bits) × (rest : Bits) × IsPacked whole bits
    × (bits ++ rest ≡ p)
    × (length rest < 8)
    × (out' ≡ out ++ whole)
    × (code ≡ top rest)
    × (nbits ≡ length rest)

-- A byte leaves the top.
abbrev Split : Bits → ℕ → Type 0
Split p code =
    (f : Bits) × (p' : Bits) × (f ++ p' ≡ p)
    × (length f ≡ 8)
    × (length p' ≡ length p - 8)
    × (code / 2 ^ 56 ≡ value f)
    × (code * 2 ^ 8 % 2 ^ 64 ≡ top p')

split_parts :
    (f p' : Bits) (n : ℕ)
    → length f ≡ 8
    → length p' + n ≡ 56
    → (f ++ p') ++ zeros n ≡ f ++ (p' ++ zeros n)
      × ((p' ++ zeros n) ++ zeros 8 ≡ p' ++ zeros (64 - length p'))
      × (length (p' ++ zeros n) ≡ 56)
split_parts f p' n eight size = (
  append_assoc f p' (zeros n),
  append_assoc p' (zeros n) (zeros 8)
      ∙ ap (λ (t : Bits). p' ++ t) (run_of_add false n 8)
      ∙ ap (λ (m : ℕ). p' ++ zeros m) (omega arith),
  omega (arith, length-append p' (zeros n), length-run_of false n),
)

append-Split : (f p' : Bits) → length f ≡ 8 → length p' ≤ 56 → Split (f ++ p') (top (f ++ p'))
append-Split f p' eight small =
    let n = 64 - length (f ++ p') in
    let both = length-append f p' in
    let (first, longer, size) = split_parts f p' n eight (omega (arith, both)) in
    let (high, low) = top_byte f (p' ++ zeros n) size in
    (
      f,
      p',
      refl,
      eight,
      omega (arith, both),
      ap (λ (t : Bits). value t / 2 ^ 56) first ∙ high,
      ap (λ (t : Bits). value t * 2 ^ 8 % 2 ^ 64) first ∙ low ∙ ap (λ (t : Bits). value t) longer,
    )

top-Split : (p : Bits) (code : ℕ) → code ≡ top p → 8 ≤ length p → length p ≤ 64 → Split p code
top-Split p code at_top enough small = subst (Split p) (sym at_top) (
    subst (λ (t : Bits). Split t (top t)) (take-append-drop 8 p)
      (append-Split (take 8 p) (drop 8 p) (omega (arith, length-take 8 p))
        (omega (arith, length-drop 8 p))))

Flushed-step :
    (p f p' : Bits) (out : Bytes) (v : ℕ) (x : Bytes × ℕ × ℕ)
    → f ++ p' ≡ p
    → length f ≡ 8
    → v ≡ value f
    → Flushed p' (out ++ (v ∷ [])) x
    → Flushed p out x
Flushed-step p f p' out v x whole_p eight is
      (whole, bits, rest, packed, e, few, e_out, e_code, e_bits) =
    (
      value f ∷ whole,
      f ++ bits,
      rest,
      byte f eight packed,
      append_assoc f bits rest ∙ ap (λ (t : Bits). f ++ t) e ∙ whole_p,
      few,
      e_out ∙ append_assoc out (v ∷ []) whole ∙ ap (λ (c : ℕ). out ++ c ∷ whole) is,
      e_code,
      e_bits,
    )

pub flush-Flushed :
    (tables : HuffmanTables) (fuel code nbits : ℕ) (out : Bytes) (p : Bits)
    → nbits ≡ length p
    → code ≡ top p
    → length p ≤ fuel
    → length p ≤ 64
    → Flushed p out (flush tables fuel code nbits out)
unfolding flush
flush-Flushed tables zero code nbits out p size at_top enough small =
    ([], [], p, nothing, refl, omega arith, sym (append-nil out), at_top, size)
flush-Flushed tables (suc fuel) code nbits out p size at_top enough small =
    if_elim (Flushed p out) (leb 8 nbits)
      (λ more.
        let (f, p', whole, eight, size', first, later) =
          top-Split p code at_top (ground arith) small in
        Flushed-step p f p' out (code / 2 ^ 56) _ whole eight first (
          flush-Flushed tables fuel (code * 2 ^ 8 % 2 ^ 64) (nbits - 8)
            (out ++ (code / 2 ^ 56 ∷ [])) p' (omega arith) later (ground arith) (omega arith)))
      (λ few. ([], [], p, nothing, refl, ground arith, sym (append-nil out), at_top, size))
