-- ===== src/Utils/UrlEncode/RoundTrip.antt =====
-- Decoding gives back what was encoded; each byte is checked by evaluation.
use coro_test.Common.{
  ℕ, ◌≡◌, refl, ap, ◌∙◌, [], ◌∷◌, ◌++◌, Bytes, Bool, true, false, not, ◌&&◌, Option, none, some,
  ◌==◌, arith, All, IsByte,
}
use coro_test.Common.Bits.{each_below, of_each_below}
use coro_test.Utils.UrlEncode.{
  percent, plus, slash, is_unreserved, hex_val, percent_encode, decode_plain, escape,
  decode_escaped, decode_impl, url_decode, url_decode_component, encode_char, encode_component_char,
  url_encode, url_encode_component,
}

-- What a coding of one byte must be for the decoder.
is_escape : Bool → ℕ → Option ℕ → Bool
is_escape skip_slash c none = false
is_escape skip_slash c (some d) = d == c && not (skip_slash && c == slash)

abbrev is_coding : Bool → Bool → ℕ → Bytes → Bool
is_coding decode_plus skip_slash c [] = false
is_coding decode_plus skip_slash c (x ∷ []) =
    x == c && (not (c == percent) && not (decode_plus && c == plus))
is_coding decode_plus skip_slash c (x ∷ y ∷ []) = false
is_coding decode_plus skip_slash c (x ∷ y ∷ z ∷ []) = is_escape skip_slash c (escape x y z)
is_coding decode_plus skip_slash c (x ∷ y ∷ z ∷ u ∷ bytes) = false

encode_char_table : each_below 256 (λ c. is_coding false true c (encode_char c)) ≡ true
unfolding each_below encode_char is_unreserved percent_encode escape hex_val is_escape
encode_char_table = refl

encode_component_char_table :
    each_below 256 (λ c. is_coding true false c (encode_component_char c)) ≡ true
unfolding each_below encode_component_char is_unreserved percent_encode escape hex_val is_escape
encode_component_char_table = refl

no_escape : (c x y : ℕ) → (c == percent) ≡ false → escape c x y ≡ none
unfolding escape
no_escape c x y other = rw other refl

-- A byte that is no percent sign is decoded alone.
decode_one :
    (decode_plus skip_slash : Bool) (c : ℕ) (input : Bytes)
    → (c == percent) ≡ false
    → decode_impl decode_plus skip_slash (c ∷ input)
      ≡ decode_plain decode_plus c ∷ decode_impl decode_plus skip_slash input
unfolding decode_impl
decode_one decode_plus skip_slash c [] other = refl
decode_one decode_plus skip_slash c (x ∷ []) other = refl
decode_one decode_plus skip_slash c (x ∷ y ∷ input) other =
    rw (decode_impl, no_escape c x y other) refl

decode_three :
    (decode_plus skip_slash : Bool) (c x y d : ℕ) (input : Bytes)
    → escape x y c ≡ some d
    → decode_impl decode_plus skip_slash (x ∷ y ∷ c ∷ input)
      ≡ decode_escaped skip_slash d ++ decode_impl decode_plus skip_slash input
unfolding decode_impl
decode_three decode_plus skip_slash c x y d input e = rw (decode_impl, e) refl

escape-eq :
    (skip_slash : Bool) (c : ℕ) (o : Option ℕ)
    → is_escape skip_slash c o ≡ true
    → (o ≡ some c) × ((skip_slash && c == slash) ≡ false)
unfolding is_escape
escape-eq skip_slash c none h = absurd cc
escape-eq skip_slash c (some d) h = ground arith

-- One byte, coded so, before whatever follows.
decode-coding :
    (decode_plus skip_slash : Bool) (c : ℕ) (coding input : Bytes)
    → is_coding decode_plus skip_slash c coding ≡ true
    → decode_impl decode_plus skip_slash (coding ++ input)
      ≡ c ∷ decode_impl decode_plus skip_slash input
unfolding decode_plain decode_escaped
decode-coding decode_plus skip_slash c [] input h = absurd cc
decode-coding decode_plus skip_slash c (x ∷ []) input h =
    let same : x ≡ c = ground arith in
    let other : (x == percent) ≡ false = ground arith in
    let no_plus : (decode_plus && x == plus) ≡ false = ground arith in
    decode_one decode_plus skip_slash x input other
    ∙ rw (no_plus) (ap (λ (b : ℕ). b ∷ decode_impl decode_plus skip_slash input) same)
decode-coding decode_plus skip_slash c (x ∷ y ∷ []) input h = absurd cc
decode-coding decode_plus skip_slash c (x ∷ y ∷ z ∷ []) input h =
    let (e, no_slash) = escape-eq skip_slash c (escape x y z) h in
    decode_three decode_plus skip_slash z x y c input e ∙ rw no_slash refl
decode-coding decode_plus skip_slash c (x ∷ y ∷ z ∷ u ∷ bytes) input h = absurd cc

-- Whatever bytes a component has, decoding gives them back.
pub url_decode_component-url_encode_component :
    (input : Bytes) → All IsByte input → url_decode_component (url_encode_component input) ≡ input
unfolding url_decode_component url_encode_component decode_impl
url_decode_component-url_encode_component [] all = refl
url_decode_component-url_encode_component (c ∷ input) (h, all) =
    decode-coding true false c (encode_component_char c) (url_encode_component input) (
      of_each_below 256 (λ c. is_coding true false c (encode_component_char c)) c
        encode_component_char_table h)
    ∙ ap (λ (rest : Bytes). c ∷ rest) (url_decode_component-url_encode_component input all)

-- The same for a path, whose slashes are left as they are.
pub url_decode-url_encode :
    (input : Bytes) → All IsByte input → url_decode (url_encode input) ≡ input
unfolding url_decode url_encode decode_impl
url_decode-url_encode [] all = refl
url_decode-url_encode (c ∷ input) (h, all) =
    decode-coding false true c (encode_char c) (url_encode input)
      (of_each_below 256 (λ c. is_coding false true c (encode_char c)) c encode_char_table h)
    ∙ ap (λ (rest : Bytes). c ∷ rest) (url_decode-url_encode input all)
