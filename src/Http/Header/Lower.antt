-- ===== src/Http/Header/Lower.antt =====
-- The names of headers are in lower case.
use coro_test.Common.{ℕ, ◌≡◌, refl, [], ◌∷◌, Bytes, All, arith, ◌<◌, ◌⊎◌}
use coro_test.Http.Header.{to_lower_char, to_lower, http_header}

abbrev pub IsNotUpper : ℕ → Type 0
IsNotUpper c = (c < b'A') ⊎ (b'Z' < c)

to_lower_char-IsNotUpper : (c : ℕ) → IsNotUpper (to_lower_char c)
unfolding to_lower_char
to_lower_char-IsNotUpper c = ground arith

pub to_lower-IsNotUpper : (s : Bytes) → All IsNotUpper (to_lower s)
unfolding to_lower
to_lower-IsNotUpper [] = tt
to_lower-IsNotUpper (c ∷ s) = (to_lower_char-IsNotUpper c, to_lower-IsNotUpper s)

-- A name without upper-case letters is kept.
pub to_lower_keeps : (s : Bytes) → All IsNotUpper s → to_lower s ≡ s
unfolding to_lower to_lower_char
to_lower_keeps [] h = refl
to_lower_keeps (c ∷ s) h = ground (arith, to_lower_keeps s h.1)

-- The name of a header has no upper-case letter, in whatever case it came.
pub http_header-IsNotUpper : (name value : Bytes) → All IsNotUpper (http_header name value).name
unfolding http_header
http_header-IsNotUpper name value = to_lower-IsNotUpper name
