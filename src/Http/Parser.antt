-- ===== src/Http/Parser.antt =====
-- extensions/http/src/HttpParser.cc: what the parsers of requests and responses share. A `string_view` is
-- its bytes.
pub mod Request
pub mod Headers
pub mod ContentLength
pub mod TwoLengths
use coro_test.Common.{
  ℕ, zero, suc, ◌+◌, ◌-◌, ◌*◌, ◌%◌, ◌^◌, List, [], ◌∷◌, ◌++◌, Bytes, Bool, true, false, not, ◌&&◌,
  ◌||◌, Option, none, some, ltb, leb, ◌==◌, if◌then◌else◌, codes, bytes_eq,
}

abbrev pub blank : ℕ
blank = 32

abbrev separators : Bytes
separators = codes "()<>@,;:\\\"/[]?={}"

unfoldable pub is_in : ℕ → Bytes → Bool
is_in c [] = false
is_in c (x ∷ xs) = x == c || is_in c xs

unfoldable pub is_token_char : ℕ → Bool
is_token_char c = not (leb c 32 || leb 127 c) && not (is_in c separators)

unfoldable pub all_token : Bytes → Bool
all_token [] = true
all_token (c ∷ s) = is_token_char c && all_token s

unfoldable pub is_valid_token : Bytes → Bool
is_valid_token [] = false
is_valid_token (c ∷ s) = all_token (c ∷ s)

pub data Version : Type 0 where
  http10 http11 unknown_version : Version

unfoldable pub parse_http_version : Bytes → Version
parse_http_version s =
    if bytes_eq s (codes "HTTP/1.0")
    then http10
    else if bytes_eq s (codes "HTTP/1.1")
    then http11
    else unknown_version

-- `find(c)`: what stands before the first `c` and behind it.
unfoldable pub split_at : ℕ → Bytes → Option (Bytes × Bytes)
split_at c [] = none
split_at c (x ∷ s) =
    let rest = split_at c s in
    if x == c
    then some ([], s)
    else elim rest [ none ↦ none | some (before, after) ↦ some (x ∷ before, after) ]

-- `find_first_not_of(' ')`
unfoldable pub trim_left : Bytes → Bytes
trim_left [] = []
trim_left (c ∷ s) = let rest = trim_left s in if c == blank then rest else c ∷ s

unfoldable pub is_blank : Bytes → Bool
is_blank [] = true
is_blank (c ∷ s) = c == blank && is_blank s

-- `find_last_not_of(' ')`
unfoldable pub trim_right : Bytes → Bytes
trim_right [] = []
trim_right (c ∷ s) = let rest = trim_right s in if is_blank (c ∷ s) then [] else c ∷ rest

unfoldable pub trim : Bytes → Bytes
trim s = trim_right (trim_left s)

-- `parseHeaderLine`. A colon at the very start, or behind blanks only, makes the subtraction in the
-- search for the end of the name wrap: the name then begins with that colon.
unfoldable pub parse_header_line : Bytes → Bytes × Bytes
parse_header_line line = elim (split_at 58 line) [
  | none ↦ ([], [])
  | some ([], after) ↦ (trim_right line, trim after)
  | some (c ∷ before, after) ↦
      ((if is_blank (c ∷ before) then 58 ∷ after else trim (c ∷ before)), trim after)
]

-- `std::stoul` in base 10: white space, a sign and digits; `none` where it throws.
unfoldable pub skip_space : Bytes → Bytes
skip_space [] = []
skip_space (c ∷ s) =
    let rest = skip_space s in if (leb 9 c && leb c 13) || c == blank then rest else c ∷ s

unfoldable pub digits_value : ℕ → Bytes → ℕ
digits_value value [] = value
digits_value value (c ∷ s) =
    let more = digits_value (value * 10 + (c - 48)) s in
    if leb 48 c && leb c 57 then more else value

unfoldable pub starts_digit : Bytes → Bool
starts_digit [] = false
starts_digit (c ∷ s) = leb 48 c && leb c 57

unfoldable pub unsigned_of : Bool → Bytes → Option ℕ
unsigned_of negative s =
    let value = digits_value 0 s in
    if not (starts_digit s)
    then none
    else if leb (2 ^ 64) value
    then none
    else some (if negative then (2 ^ 64 - value) % 2 ^ 64 else value)

unfoldable pub signed_of : Bytes → Option ℕ
signed_of [] = none
signed_of (c ∷ s) =
    if c == 45
    then unsigned_of true s
    else if c == 43
    then unsigned_of false s
    else unsigned_of false (c ∷ s)

unfoldable pub stoul : Bytes → Option ℕ
stoul s = signed_of (skip_space s)

unfoldable pub starts_with : Bytes → Bytes → Bool
starts_with [] s = true
starts_with (x ∷ prefix) [] = false
starts_with (x ∷ prefix) (c ∷ s) = x == c && starts_with prefix s

-- `value.find(sub) != npos`
unfoldable pub contains : Bytes → Bytes → Bool
contains sub [] = starts_with sub []
contains sub (c ∷ s) = starts_with sub (c ∷ s) || contains sub s

-- The parts between the separators of a loop over `find(c, start)`.
unfoldable pub cons_first : ℕ → List Bytes → List Bytes
cons_first c [] = (c ∷ []) ∷ []
cons_first c (part ∷ parts) = (c ∷ part) ∷ parts

unfoldable pub split_all : ℕ → Bytes → List Bytes
split_all c [] = [] ∷ []
split_all c (x ∷ s) = let parts = split_all c s in if x == c then [] ∷ parts else cons_first x parts
