-- ===== src/Http/Parser/TwoLengths.antt =====
-- A request with two different content lengths is refused.
use coro_test.Common.{
  ℕ, ◌≡◌, ◌≢◌, refl, ap, sym, subst, ◌∙◌, List, [], ◌∷◌, ◌++◌, Bytes, Bool, true, false, not, ◌&&◌,
  ◌||◌, Option, some, codes, bytes_eq, append_assoc, inl, inr, Bool-cases, Option-cases,
}
use coro_test.Common.SortedMap.{lookup}
use coro_test.Http.Header.{HttpHeader, http_header}
use coro_test.Http.Parser.{is_valid_token, parse_header_line, stoul, contains}
use coro_test.Http.Parser.Request.{
  HttpParser, HttpParserState, expect_status_line, expect_header, header_complete, error, set_error,
  is_content_length, is_cookie, add_header, parse_header, is_empty, bad_length,
  process_content_length, process_transfer_mode, process_keep_alive, finish, next_line, feed_at,
  feed_line, feed_lines,
}
use coro_test.Http.Parser.Headers.{length_name}
use coro_test.Http.Parser.ContentLength.{IsHeld, IsLengthLine, feed_lines-IsHeld, next_line_length}

-- The request line has been read, or refused.
abbrev IsPast : HttpParser → Type 0
IsPast p = p.state_ ≢ expect_status_line

process_content_length-IsPast : (p : HttpParser) → IsPast p → IsPast (process_content_length p).1
unfolding process_content_length set_error
process_content_length-IsPast p past = elim (Option-cases (lookup length_name p.data_.headers)) [
  | inl missing ↦ rw (process_content_length, missing) past
  | inr (header, found) ↦ elim (Bool-cases (bad_length header.value)) [
    | inl bad ↦ rw (process_content_length, found, bad) (λ e. cc)
    | inr good ↦ elim (Option-cases (stoul header.value)) [
      | inl wrong ↦ rw (process_content_length, found, good, wrong) (λ e. cc)
      | inr (n, right) ↦ rw (process_content_length, found, good, right) past
    ]
  ]
]

process_transfer_mode-IsPast : (p : HttpParser) → IsPast p → IsPast (process_transfer_mode p).1
unfolding process_transfer_mode set_error
process_transfer_mode-IsPast p past =
    elim (Option-cases (lookup (codes "transfer-encoding") p.data_.headers)) [
      | inl missing ↦ rw (process_transfer_mode, missing) (process_content_length-IsPast p past)
      | inr (header, found) ↦ elim (Bool-cases (contains (codes "chunked") header.value)) [
        | inl yes_chunked ↦ rw (process_transfer_mode, found, yes_chunked) past
        | inr not_chunked ↦ elim (Bool-cases (bytes_eq header.value (codes "identity"))) [
          | inl plain ↦
              rw (process_transfer_mode, found, not_chunked, plain)
                (process_content_length-IsPast p past)
          | inr other ↦ rw (process_transfer_mode, found, not_chunked, other) (λ e. cc)
        ]
      ]
    ]

finish-IsPast : (r : Bool × HttpParser) → IsPast r.1 → IsPast (finish r)
unfolding finish process_keep_alive
finish-IsPast (false, p) past = past
finish-IsPast (true, p) past = λ e. cc

add_header-IsPast : (p : HttpParser) (header : HttpHeader) → IsPast p → IsPast (add_header p header)
unfolding add_header set_error
add_header-IsPast p header past = elim (Option-cases (lookup header.name p.data_.headers)) [
  | inl missing ↦ rw (add_header, missing) past
  | inr (there, found) ↦
      elim (Bool-cases
        (is_content_length header.name_code && not (bytes_eq header.value there.value))) [
          | inl bad ↦ rw (add_header, found, bad) (λ e. cc)
          | inr fine ↦ rw (add_header, found, fine) past
        ]
]

parse_header-IsPast : (p : HttpParser) (line : Bytes) → IsPast p → IsPast (parse_header p line)
unfolding parse_header
parse_header-IsPast p line past =
    let name = (parse_header_line line).0 in
    let header = http_header name (parse_header_line line).1 in
    elim (Bool-cases (is_empty name || not (is_valid_token name))) [
      | inl skipped ↦ rw (parse_header, skipped) past
      | inr kept ↦ elim (Bool-cases (is_cookie header.name_code)) [
        | inl cookies ↦ rw (parse_header, kept, cookies) past
        | inr plain ↦ rw (parse_header, kept, plain) (add_header-IsPast p header past)
      ]
    ]

feed_at-IsPast :
    (registry : List (Bytes × ℕ)) (state : HttpParserState) (p : HttpParser) (line : Bytes)
    → state ≢ expect_status_line
    → IsPast p
    → IsPast (feed_at registry state p line)
unfolding feed_at next_line
feed_at-IsPast registry error p line at past = past
feed_at-IsPast registry expect_status_line p line at past = absurd (at refl)
feed_at-IsPast registry expect_header p [] at past =
    finish-IsPast (process_transfer_mode p) (process_transfer_mode-IsPast p past)
feed_at-IsPast registry expect_header p (c ∷ line) at past = parse_header-IsPast p (c ∷ line) past
feed_at-IsPast registry header_complete p [] at past =
    finish-IsPast (process_transfer_mode p) (process_transfer_mode-IsPast p past)
feed_at-IsPast registry header_complete p (c ∷ line) at past = parse_header-IsPast p (c ∷ line) past

feed_lines-IsPast :
    (registry : List (Bytes × ℕ)) (p : HttpParser) (lines : List Bytes)
    → IsPast p
    → IsPast (feed_lines registry p lines)
unfolding feed_lines feed_line
feed_lines-IsPast registry p [] past = past
feed_lines-IsPast registry p (line ∷ lines) past =
    feed_lines-IsPast registry (feed_line registry p line) lines
      (feed_at-IsPast registry p.state_ p line past past)

feed_at_length :
    (registry : List (Bytes × ℕ)) (state : HttpParserState) (p : HttpParser) (line value : Bytes)
    → p.state_ ≡ state
    → state ≢ expect_status_line
    → IsLengthLine line value
    → IsHeld value (feed_at registry state p line)
unfolding feed_at
feed_at_length registry error p line value at past is_length = inl at
feed_at_length registry expect_status_line p line value at past is_length = absurd (past refl)
feed_at_length registry expect_header p line value at past is_length =
    next_line_length p line value is_length
feed_at_length registry header_complete p line value at past is_length =
    next_line_length p line value is_length

-- A length line anywhere past the request line is held to the end.
feed_lines_length :
    (registry : List (Bytes × ℕ)) (p : HttpParser) (before after : List Bytes) (line value : Bytes)
    → IsPast p
    → IsLengthLine line value
    → IsHeld value (feed_lines registry p (before ++ line ∷ after))
unfolding feed_lines feed_line
feed_lines_length registry p [] after line value past is_length =
    feed_lines-IsHeld registry value (feed_line registry p line) after
      (feed_at_length registry p.state_ p line value refl past is_length)
feed_lines_length registry p (first ∷ before) after line value past is_length =
    feed_lines_length registry (feed_line registry p first) before after line value
      (feed_at-IsPast registry p.state_ p first past past) is_length

both-IsHeld : (p : HttpParser) (v w : Bytes) → v ≢ w → IsHeld v p → IsHeld w p → p.state_ ≡ error
both-IsHeld p v w differ (inl failed) h = failed
both-IsHeld p v w differ (inr h) (inl failed) = failed
both-IsHeld p v w differ (inr (x, found, ex)) (inr (y, found', ey)) =
    let same : x ≡ y = some_same x y (sym found ∙ found') in
    absurd (differ (sym ex ∙ ap (λ (header : HttpHeader). header.value) same ∙ ey))
  where
    some_same : (a b : HttpHeader) → Path (Option HttpHeader) (some a) (some b) → a ≡ b
    some_same a b h = cc

-- Past the request line, a request with two content-length lines of different values ends in the error
-- state, whatever lines stand before, between and behind them.
pub two_lengths :
    (registry : List (Bytes × ℕ)) (p : HttpParser) (before between after : List Bytes)
    (a b v w : Bytes)
    → p.state_ ≢ expect_status_line
    → IsLengthLine a v
    → IsLengthLine b w
    → v ≢ w
    → (feed_lines registry p (before ++ a ∷ (between ++ b ∷ after))).state_ ≡ error
two_lengths registry p before between after a b v w past is_a is_b differ =
    both-IsHeld (feed_lines registry p (before ++ a ∷ (between ++ b ∷ after))) v w differ
      (feed_lines_length registry p before (between ++ b ∷ after) a v past is_a)
      (subst (λ (lines : List Bytes). IsHeld w (feed_lines registry p lines))
        (append_assoc before (a ∷ between) (b ∷ after))
        (feed_lines_length registry p (before ++ a ∷ between) after b w past is_b))
