-- ===== src/Http/Parser/ContentLength.antt =====
-- Two different content lengths end in the error state, whatever stands between them.
use coro_test.Common.{
  ℕ, ◌≡◌, refl, ap, sym, subst, ◌∙◌, List, [], ◌∷◌, Bytes, true, false, not, ◌&&◌, ◌||◌, none, some,
  bytes_eq, bytes_eq_iff, bytes_eq_refl, inl, inr, ◌⊎◌, Bool-cases, Option-cases,
}
use coro_test.Common.SortedMap.{lookup, emplace, lookup-insert_or_assign}
use coro_test.Http.Header.{
  HttpHeader, http_header, to_lower, NameCode, content_length, name_to_code,
}
use coro_test.Http.Parser.{is_valid_token, split_at, parse_header_line}
use coro_test.Http.Parser.Request.{
  HttpParser, HttpParserState, expect_status_line, expect_header, header_complete, error, set_error,
  parse_request_line, is_content_length, is_cookie, add_header, parse_header, is_empty,
  process_transfer_mode, finish, first_line, next_line, feed_at, feed_line, feed_lines,
}
use coro_test.Http.Parser.Headers.{
  length_name, Headers, emplace_keeps, process_transfer_mode-headers, finish-headers,
  first_line-headers, parse_request_line-headers,
}

-- The map has a content length with this value.
abbrev pub HasLength : Bytes → Headers → Type 0
HasLength value headers =
    (header : HttpHeader) × (lookup length_name headers ≡ some header) × (header.value ≡ value)

abbrev pub IsHeld : Bytes → HttpParser → Type 0
IsHeld value p = (p.state_ ≡ error) ⊎ HasLength value p.data_.headers

HasLength-emplace :
    (value name : Bytes) (new : HttpHeader) (headers : Headers)
    → HasLength value headers
    → HasLength value (emplace name new headers)
HasLength-emplace value name new headers (header, found, e) =
    (header, emplace_keeps length_name name new header headers found, e)

add_header-IsHeld :
    (value : Bytes) (p : HttpParser) (header : HttpHeader)
    → HasLength value p.data_.headers
    → IsHeld value (add_header p header)
unfolding add_header set_error
add_header-IsHeld value p header has = elim (Option-cases (lookup header.name p.data_.headers)) [
  | inl missing ↦
      rw (add_header, missing)
        (inr (HasLength-emplace value header.name header p.data_.headers has))
  | inr (there, found) ↦
      elim (Bool-cases
        (is_content_length header.name_code && not (bytes_eq header.value there.value))) [
          | inl bad ↦ rw (add_header, found, bad) (inl refl)
          | inr fine ↦
              rw (add_header, found, fine)
                (inr (HasLength-emplace value header.name header p.data_.headers has))
        ]
]

parse_header-IsHeld :
    (value : Bytes) (p : HttpParser) (line : Bytes)
    → HasLength value p.data_.headers
    → IsHeld value (parse_header p line)
unfolding parse_header
parse_header-IsHeld value p line has =
    let name = (parse_header_line line).0 in
    let header = http_header name (parse_header_line line).1 in
    elim (Bool-cases (is_empty name || not (is_valid_token name))) [
      | inl skipped ↦ rw (parse_header, skipped) (inr has)
      | inr kept ↦ elim (Bool-cases (is_cookie header.name_code)) [
        | inl cookies ↦ rw (parse_header, kept, cookies) (inr has)
        | inr plain ↦ rw (parse_header, kept, plain) (add_header-IsHeld value p header has)
      ]
    ]

same_headers :
    (value : Bytes) (p q : HttpParser)
    → q.data_.headers ≡ p.data_.headers
    → HasLength value p.data_.headers
    → IsHeld value q
same_headers value p q e has = inr (subst (HasLength value) (sym e) has)

next_line-IsHeld :
    (value : Bytes) (p : HttpParser) (line : Bytes)
    → HasLength value p.data_.headers
    → IsHeld value (next_line p line)
unfolding next_line
next_line-IsHeld value p [] has =
    same_headers value p (finish (process_transfer_mode p))
      (finish-headers (process_transfer_mode p) ∙ process_transfer_mode-headers p) has
next_line-IsHeld value p (c ∷ line) has = parse_header-IsHeld value p (c ∷ line) has

feed_at-IsHeld :
    (registry : List (Bytes × ℕ)) (value : Bytes) (state : HttpParserState) (p : HttpParser)
    (line : Bytes)
    → HasLength value p.data_.headers
    → IsHeld value (feed_at registry state p line)
unfolding feed_at
feed_at-IsHeld registry value error p line has = inr has
feed_at-IsHeld registry value expect_status_line p line has =
    same_headers value p (first_line (parse_request_line registry p line))
      (first_line-headers (parse_request_line registry p line)
        ∙ parse_request_line-headers registry p line)
      has
feed_at-IsHeld registry value expect_header p line has = next_line-IsHeld value p line has
feed_at-IsHeld registry value header_complete p line has = next_line-IsHeld value p line has

pub error_stays :
    (registry : List (Bytes × ℕ)) (p : HttpParser) (line : Bytes)
    → p.state_ ≡ error
    → (feed_line registry p line).state_ ≡ error
unfolding feed_line feed_at
error_stays registry p line e =
    subst (λ (s : HttpParserState). (feed_at registry s p line).state_ ≡ error) (sym e) e

pub feed_lines-IsHeld :
    (registry : List (Bytes × ℕ)) (value : Bytes) (p : HttpParser) (lines : List Bytes)
    → IsHeld value p
    → IsHeld value (feed_lines registry p lines)
unfolding feed_lines feed_line
feed_lines-IsHeld registry value p [] held = held
feed_lines-IsHeld registry value p (line ∷ lines) (inl failed) =
    feed_lines-IsHeld registry value (feed_line registry p line) lines
      (inl (error_stays registry p line failed))
feed_lines-IsHeld registry value p (line ∷ lines) (inr has) =
    feed_lines-IsHeld registry value (feed_line registry p line) lines
      (feed_at-IsHeld registry value p.state_ p line has)

-- A line that is a content length with this value.
abbrev pub IsLengthLine : Bytes → Bytes → Type 0
IsLengthLine line value =
    (name : Bytes) × (parse_header_line line ≡ (name, value))
    × (is_valid_token name ≡ true)
    × (to_lower name ≡ length_name)

length_code : name_to_code length_name ≡ content_length
unfolding name_to_code coro_test.Http.Header.name_map bytes_eq
length_code = refl

emplace_new :
    (key : Bytes) (new : HttpHeader) (headers : Headers)
    → lookup key headers ≡ none
    → lookup key (emplace key new headers) ≡ some new
unfolding emplace
emplace_new key new headers missing =
    rw (emplace, missing) (rw (lookup-insert_or_assign key key new headers, bytes_eq_refl key) refl)

abbrev length_header : Bytes → HttpHeader
length_header value = record { name = length_name; value = value; name_code = content_length }

add_header_length :
    (p : HttpParser) (value : Bytes) → IsHeld value (add_header p (length_header value))
unfolding add_header set_error
add_header_length p value = elim (Option-cases (lookup length_name p.data_.headers)) [
  | inl missing ↦
      rw (add_header, missing)
        (inr (
          length_header value,
          emplace_new length_name (length_header value) p.data_.headers missing,
          refl,
        ))
  | inr (there, found) ↦ elim (Bool-cases (bytes_eq value there.value)) [
    | inl same ↦
        rw (add_header, found, same)
          (inr (
            there,
            emplace_keeps length_name length_name (length_header value) there p.data_.headers found,
            sym ((bytes_eq_iff value there.value).0 same),
          ))
    | inr other ↦ rw (add_header, found, other) (inl refl)
  ]
]

name_there : (name : Bytes) → to_lower name ≡ length_name → is_empty name ≡ false
unfolding is_empty to_lower
name_there [] e = absurd cc
name_there (c ∷ name) e = refl

http_header_length :
    (name value : Bytes)
    → to_lower name ≡ length_name
    → http_header name value ≡ length_header value
unfolding http_header
http_header_length name value e =
    ap (λ (n : Bytes). record { name = n; value = value; name_code = name_to_code n }) e
    ∙ ap (λ (c : NameCode). record { name = length_name; value = value; name_code = c }) length_code

parse_header_length :
    (p : HttpParser) (line value : Bytes)
    → IsLengthLine line value
    → IsHeld value (parse_header p line)
unfolding parse_header
parse_header_length p line value (name, q, valid, e) =
    rw (parse_header, q)
      (rw (name_there name e, valid, http_header_length name value e) (add_header_length p value))

-- Past the request line, the line is a header.
pub next_line_length :
    (p : HttpParser) (line value : Bytes)
    → IsLengthLine line value
    → IsHeld value (next_line p line)
unfolding next_line parse_header_line split_at to_lower
next_line_length p [] value (name, q, valid, e) =
    absurd (empty_name (ap (λ (r : Bytes × Bytes). to_lower r.0) q ∙ e))
  where
    empty_name : Path Bytes [] length_name → ⊥
    empty_name h = cc
next_line_length p (c ∷ line) value is_length = parse_header_length p (c ∷ line) value is_length
