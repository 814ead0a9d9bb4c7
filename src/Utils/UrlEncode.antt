-- ===== src/Utils/UrlEncode.antt =====
-- src/utils/UrlEncode.cc: percent encoding. A `char` is a byte, a number below 256.
pub mod RoundTrip
pub mod Slashes
use coro_test.Common.{
  ℕ, zero, suc, ◌+◌, ◌-◌, ◌*◌, ◌/◌, ◌^◌, List, [], ◌∷◌, ◌++◌, Bytes, Bool, true, false, ◌&&◌, ◌||◌,
  Option, none, some, bit_and, bit_or, ltb, leb, ◌==◌, get_or, if◌then◌else◌, codes,
}

abbrev pub percent : ℕ
percent = 37

abbrev pub plus : ℕ
plus = 43

abbrev pub slash : ℕ
slash = 47

abbrev hex_digits : Bytes
hex_digits = codes "0123456789ABCDEF"

abbrev pub between : ℕ → ℕ → ℕ → Bool
between low high c = leb low c && leb c high

-- `isUnreserved`: letters, digits, '-', '_', '.' and '~'
unfoldable pub is_unreserved : ℕ → Bool
is_unreserved c =
    between 65 90 c
    || between 97 122 c
    || between 48 57 c
    || c == 45
    || c == 95
    || c == 46
    || c == 126

-- `hexVal`, whose -1 is `none`
unfoldable pub hex_val : ℕ → Option ℕ
hex_val c =
    if between 48 57 c
    then some (c - 48)
    else if between 65 70 c
    then some (c - 65 + 10)
    else if between 97 102 c
    then some (c - 97 + 10)
    else none

unfoldable pub percent_encode : ℕ → Bytes
percent_encode uc =
    percent ∷ get_or hex_digits (uc / 2 ^ 4) 0 ∷ get_or hex_digits (bit_and uc 0xf) 0 ∷ []

-- A byte that stands for itself, or for a blank.
unfoldable pub decode_plain : Bool → ℕ → ℕ
decode_plain decode_plus c = if decode_plus && c == plus then 32 else c

-- The byte that `%` with two more stands for.
unfoldable pub escape : ℕ → ℕ → ℕ → Option ℕ
escape c high low =
    if c == percent
    then elim (hex_val high) [
      | none ↦ none
      | some hi ↦ elim (hex_val low) [ none ↦ none | some lo ↦ some (bit_or (hi * 2 ^ 4) lo) ]
    ]
    else none

unfoldable pub decode_escaped : Bool → ℕ → Bytes
decode_escaped skip_slash decoded =
    if skip_slash && decoded == slash then codes "%2F" else decoded ∷ []

-- `decodeImpl`; `i + 2 < input.size()` holds where two bytes follow.
unfoldable pub decode_impl : Bool → Bool → Bytes → Bytes
decode_impl decode_plus skip_slash [] = []
decode_impl decode_plus skip_slash (c ∷ []) = decode_plain decode_plus c ∷ []
decode_impl decode_plus skip_slash (c ∷ x ∷ []) =
    decode_plain decode_plus c ∷ decode_plain decode_plus x ∷ []
decode_impl decode_plus skip_slash (c ∷ x ∷ y ∷ input) = elim (escape c x y) [
  | none ↦ decode_plain decode_plus c ∷ decode_impl decode_plus skip_slash (x ∷ y ∷ input)
  | some decoded ↦ decode_escaped skip_slash decoded ++ decode_impl decode_plus skip_slash input
]

unfoldable pub url_decode : Bytes → Bytes
url_decode input = decode_impl false true input

unfoldable pub url_decode_component : Bytes → Bytes
url_decode_component input = decode_impl true false input

unfoldable pub encode_char : ℕ → Bytes
encode_char c =
    if is_unreserved c || c == slash
    then c ∷ []
    else if c == plus
    then codes "%2B"
    else percent_encode c

unfoldable pub encode_component_char : ℕ → Bytes
encode_component_char c =
    if is_unreserved c then c ∷ [] else if c == plus then codes "%2B" else percent_encode c

unfoldable pub url_encode : Bytes → Bytes
url_encode [] = []
url_encode (c ∷ input) = encode_char c ++ url_encode input

unfoldable pub url_encode_component : Bytes → Bytes
url_encode_component [] = []
url_encode_component (c ∷ input) = encode_component_char c ++ url_encode_component input
