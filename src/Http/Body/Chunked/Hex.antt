-- ===== src/Http/Body/Chunked/Hex.antt =====
-- Sizes in the chunked coding of extensions/http/src/body_writer/ChunkedWriter.cc and
-- body_reader/ChunkedReader.cc: what `%zx` prints, `std::stoul` reads.
use coro_test.Common.{
  ℕ, zero, suc, ◌+◌, ◌*◌, ◌/◌, ◌%◌, ◌^◌, ◌≤◌, ◌<◌, ◌≡◌, refl, ap, ◌∙◌, [], ◌∷◌, ◌++◌, Bytes, true,
  false, ◌||◌, ◌&&◌, some, arith, length, All, All-append, leb, ◌==◌, length-append, lt→leb-false,
  if_elim,
}
use mathlib.Core.WellFounded.{Acc}
use mathlib.Core.Logic.{dif_pos, dif_neg}
use native.Mathlib.Decide.{dec_lt}
use native.Mathlib.Bridge.{le_prop}
use native.Mathlib.Nat.{pow-suc}
use coro_test.Common.Order.{lt_wf}
use coro_test.Utils.UrlEncode.{hex_val}
use coro_test.Http.Parser.{skip_space}
use coro_test.Http.Body.Chunked.{
  is_hex, hex_or_zero, hex_digits_value, starts_hex, skip_prefix, hex_unsigned, hex_signed,
  hex_stoul, hex_digit, hex_text, sixteenth_smaller, to_hex,
}

abbrev pub IsHex : ℕ → Type 0
IsHex c = is_hex c ≡ true

hex_digit-IsHex : (d : ℕ) → d < 16 → IsHex (hex_digit d)
unfolding hex_digit hex_val
hex_digit-IsHex d h = ground arith

hex_or_zero-hex_digit : (d : ℕ) → d < 16 → hex_or_zero (hex_digit d) ≡ d
unfolding hex_digit hex_val
hex_or_zero-hex_digit d h = ground arith

value-append :
    (v : ℕ) (xs ys : Bytes)
    → All IsHex xs
    → hex_digits_value v (xs ++ ys) ≡ hex_digits_value (hex_digits_value v xs) ys
unfolding hex_digits_value
value-append v [] ys h = refl
value-append v (c ∷ xs) ys (hex, h) =
    rw (hex, hex_digits_value) (value-append (v * 16 + hex_or_zero c) xs ys h)

value_one : (v d : ℕ) → d < 16 → hex_digits_value v (hex_digit d ∷ []) ≡ v * 16 + d
unfolding hex_digits_value
value_one v d h =
    rw (hex_digit-IsHex d h, hex_digits_value) (ap (◌+◌ (v * 16)) (hex_or_zero-hex_digit d h))

hex_text-All : (n : ℕ) (w : Acc ◌<◌ n) → All IsHex (hex_text n w)
unfolding hex_text
hex_text-All n (Acc.intro _ smaller) = elim (dec_lt 15 n) [
  | yes more ↦ rw (dif_pos _ le_prop more) (
      All-append IsHex (hex_text (n / 16) (smaller _ (sixteenth_smaller n more))) _
        (hex_text-All (n / 16) (smaller _ (sixteenth_smaller n more)))
        (hex_digit-IsHex (n % 16) (omega arith), tt))
  | no less ↦ rw (dif_neg _ less) (hex_digit-IsHex n (omega arith), tt)
]

value_step :
    (xs : Bytes) (q d : ℕ)
    → All IsHex xs
    → hex_digits_value 0 xs ≡ q
    → d < 16
    → hex_digits_value 0 (xs ++ (hex_digit d ∷ [])) ≡ q * 16 + d
value_step xs q d hex e small =
    value-append 0 xs (hex_digit d ∷ []) hex
    ∙ ap (λ (v : ℕ). hex_digits_value v (hex_digit d ∷ [])) e
    ∙ value_one q d small

value-hex_text : (n : ℕ) (w : Acc ◌<◌ n) → hex_digits_value 0 (hex_text n w) ≡ n
unfolding hex_text
value-hex_text n (Acc.intro _ smaller) = elim (dec_lt 15 n) [
  | yes more ↦ rw (dif_pos _ le_prop more) (
      value_step (hex_text (n / 16) (smaller _ (sixteenth_smaller n more))) (n / 16) (n % 16)
        (hex_text-All (n / 16) (smaller _ (sixteenth_smaller n more)))
        (value-hex_text (n / 16) (smaller _ (sixteenth_smaller n more))) (omega arith)
      ∙ omega arith)
  | no less ↦ rw (dif_neg _ less) (value_one 0 n (omega arith) ∙ omega arith)
]

hex_text_first : (n : ℕ) (w : Acc ◌<◌ n) → (c : ℕ) × (cs : Bytes) × (hex_text n w ≡ c ∷ cs)
unfolding hex_text
hex_text_first n (Acc.intro _ smaller) = elim (dec_lt 15 n) [
  | yes more ↦
      let (c, cs, e) = hex_text_first (n / 16) (smaller _ (sixteenth_smaller n more)) in
      (c, cs ++ (hex_digit (n % 16) ∷ []), rw (dif_pos _ le_prop more) (rw e refl))
  | no less ↦ (hex_digit n, [], rw (dif_neg _ less) refl)
]

-- A number below 16^k has k digits at most.
length-hex_text : (k n : ℕ) (w : Acc ◌<◌ n) → n < 16 ^ suc k → length (hex_text n w) ≤ suc k
unfolding hex_text
length-hex_text zero n (Acc.intro _ smaller) h = elim (dec_lt 15 n) [
  | no less ↦ rw (dif_neg _ less) (omega arith)
  | yes more ↦ absurd (omega arith)
]
length-hex_text (suc k) n (Acc.intro _ smaller) h = elim (dec_lt 15 n) [
  | no less ↦ rw (dif_neg _ less) (omega arith)
  | yes more ↦ rw (dif_pos _ le_prop more) (
      omega (
        arith,
        length-append (hex_text (n / 16) (smaller _ (sixteenth_smaller n more)))
            (hex_digit (n % 16) ∷ []),
        length-hex_text k (n / 16) (smaller _ (sixteenth_smaller n more))
            (omega (arith, pow-suc 16 (suc k), h)),
      ))
]

-- A hexadecimal digit is no space, sign or mark of a prefix.
IsHex-plain :
    (c : ℕ)
    → IsHex c
    → ((leb 9 c && leb c 13) || c == 32 ≡ false)
      × ((c == b'-') ≡ false)
      × ((c == b'+') ≡ false)
      × ((c == b'x') ≡ false)
      × ((c == b'X') ≡ false)
      × ((c == 13) ≡ false)
unfolding hex_val
IsHex-plain c h = ground arith

skip_prefix_hex : (s : Bytes) → All IsHex s → skip_prefix s ≡ s
unfolding skip_prefix
skip_prefix_hex [] h = refl
skip_prefix_hex (a ∷ []) h = refl
skip_prefix_hex (a ∷ b ∷ s) (ha, (hb, h)) =
    let (_, _, _, no_x, no_cap, _) = IsHex-plain b hb in
    rw (no_x, no_cap) (if_elim (λ t. t ≡ a ∷ b ∷ s) (a == b'0') (λ _. refl) (λ _. refl))

hex_stoul_lem :
    (c : ℕ) (s : Bytes) (n : ℕ)
    → All IsHex (c ∷ s)
    → hex_digits_value 0 (c ∷ s) ≡ n
    → n < 2 ^ 64
    → hex_stoul (c ∷ s) ≡ some n
unfolding hex_stoul skip_space hex_signed hex_unsigned starts_hex
hex_stoul_lem c s n (hc, h) e small =
    let (no_space, no_minus, no_plus, _, _, _) = IsHex-plain c hc in
    rw
      (
        no_space,
        no_minus,
        no_plus,
        skip_prefix_hex (c ∷ s) (hc, h),
        hc,
        e,
        lt→leb-false (2 ^ 64) n small,
      )
      refl

-- `std::stoul` in base 16 reads what `%zx` printed.
pub hex_stoul-to_hex : (n : ℕ) → n < 2 ^ 64 → hex_stoul (to_hex n) ≡ some n
unfolding to_hex
hex_stoul-to_hex n small =
    let w = lt_wf.apply n in
    let (c, cs, e) = hex_text_first n w in
    let hex : All IsHex (c ∷ cs) = rw e at (hex_text-All n w) in
    let value : hex_digits_value 0 (c ∷ cs) ≡ n = rw e at (value-hex_text n w) in
    rw e (hex_stoul_lem c cs n hex value small)

pub length-to_hex : (n : ℕ) → n < 2 ^ 64 → length (to_hex n) ≤ 16
unfolding to_hex
length-to_hex n small = length-hex_text 15 n (lt_wf.apply n) small

abbrev pub IsNotCr : ℕ → Type 0
IsNotCr c = (c == 13) ≡ false

hex-IsNotCr : (s : Bytes) → All IsHex s → All IsNotCr s
hex-IsNotCr [] h = tt
hex-IsNotCr (c ∷ s) (hc, h) =
    let (_, _, _, _, _, no_cr) = IsHex-plain c hc in (no_cr, hex-IsNotCr s h)

pub to_hex-IsNotCr : (n : ℕ) → All IsNotCr (to_hex n)
unfolding to_hex
to_hex-IsNotCr n = hex-IsNotCr (hex_text n (lt_wf.apply n)) (hex_text-All n (lt_wf.apply n))
