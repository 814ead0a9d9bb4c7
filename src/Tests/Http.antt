-- ===== src/Tests/Http.antt =====
-- extensions/http/src/HttpParser.cc: two content lengths with a header between them.
use coro_test.Common.{
  All, ℕ, ◌≡◌, ◌≢◌, refl, List, [], ◌∷◌, ◌++◌, Bytes, codes, bytes_eq, arith, ap, sym, ◌∙◌, get_or,
}
use coro_test.Common.SortedMap.{lookup}
use coro_test.Http.Header.{to_lower, to_lower_char}
use coro_test.Http.Parser.{
  parse_header_line, split_at, trim, trim_left, trim_right, is_blank, is_valid_token, all_token,
  is_token_char, is_in, parse_http_version,
}
use coro_test.Http.Parser.Request.{
  HttpParser, new_parser, expect_header, expect_status_line, error, feed_line, feed_lines, feed_at,
  first_line, method_of, is_unknown, parse_request_line,
}
use coro_test.Http.Header.{http_header}
use coro_test.Http.Header.Lower.{IsNotUpper, http_header-IsNotUpper}
use coro_test.Http.Parser.ContentLength.{IsLengthLine}
use coro_test.Http.Parser.TwoLengths.{two_lengths}

abbrev methods : List (Bytes × ℕ)
methods = (codes "GET", 0) ∷ (codes "POST", 2) ∷ []

-- The parser behind a request line.
abbrev started : HttpParser
started = feed_line methods new_parser (codes "POST /form?a=1 HTTP/1.1")

started_lem : started.state_ ≡ expect_header
unfolding feed_line feed_at new_parser first_line parse_request_line split_at method_of lookup
    bytes_eq is_unknown parse_http_version
started_lem = refl

is_five : IsLengthLine (codes "Content-Length: 5") (codes "5")
unfolding parse_header_line split_at is_blank trim trim_right trim_left is_valid_token all_token
    is_token_char is_in to_lower to_lower_char
is_five = (codes "Content-Length", refl, refl, refl)

is_six : IsLengthLine (codes "content-length : 6") (codes "6")
unfolding parse_header_line split_at is_blank trim trim_right trim_left is_valid_token all_token
    is_token_char is_in to_lower to_lower_char
is_six = (codes "content-length", refl, refl, refl)

differ : codes "5" ≢ codes "6"
differ e = omega (arith, ap (λ (s : Bytes). get_or s 0 0) e)

past : started.state_ ≢ expect_status_line
past e = apart (sym started_lem ∙ e)
  where
    apart : expect_header ≡ expect_status_line → ⊥
    apart h = cc

two_lengths_example :
    (feed_lines methods started (
      []
      ++ codes "Content-Length: 5"
        ∷ ((codes "Host: a" ∷ []) ++ codes "content-length : 6" ∷ [] ∷ []))).state_
    ≡ error
two_lengths_example =
    two_lengths methods started [] (codes "Host: a" ∷ []) ([] ∷ []) (codes "Content-Length: 5")
      (codes "content-length : 6") (codes "5") (codes "6") past is_five is_six differ

http_header-IsNotUpper_example : All IsNotUpper (http_header (codes "X-Upper") (codes "1")).name
http_header-IsNotUpper_example = http_header-IsNotUpper (codes "X-Upper") (codes "1")
