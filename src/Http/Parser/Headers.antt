-- ===== src/Http/Parser/Headers.antt =====
-- What keeps the headers of a request: all but `parseHeader`, and its `emplace` keeps an entry.
use coro_test.Common.{
  ℕ, ◌≡◌, refl, ap, sym, ◌∙◌, List, Bytes, Bool, true, false, Option, none, some, ◌==◌, codes,
  bytes_eq, bytes_eq_iff, inl, inr, Bool-cases, Option-cases,
}
use coro_test.Common.SortedMap.{lookup, emplace, lookup-insert_or_assign}
use coro_test.Http.Header.{HttpHeader}
use coro_test.Http.Parser.{split_at, stoul, contains, blank, parse_http_version}
use coro_test.Http.Parser.Request.{
  HttpRequest, HttpParser, method_of, invalid_method, set_error, with_target, is_unknown,
  parse_request_line, bad_length, process_content_length, process_transfer_mode, process_keep_alive,
  finish, first_line,
}

abbrev pub length_name : Bytes
length_name = codes "content-length"

abbrev pub Headers : Type 0
Headers = List (Bytes × HttpHeader)

-- `emplace` never replaces.
pub emplace_keeps :
    (key name : Bytes) (new old : HttpHeader) (headers : Headers)
    → lookup key headers ≡ some old
    → lookup key (emplace name new headers) ≡ some old
unfolding emplace
emplace_keeps key name new old headers e = elim (Option-cases (lookup name headers)) [
  | inr (there, found) ↦ rw (emplace, found) e
  | inl missing ↦ elim (Bool-cases (bytes_eq name key)) [
    | inr other ↦ rw (emplace, missing) (rw (lookup-insert_or_assign key name new headers, other) e)
    | inl same ↦
        let same_name : name ≡ key = (bytes_eq_iff name key).0 same in
        absurd (none_some (sym missing ∙ ap (λ (k : Bytes). lookup k headers) same_name ∙ e))
  ]
]
  where
    none_some : Path (Option HttpHeader) none (some old) → ⊥
    none_some h = cc

-- What does not touch the headers.
process_content_length-headers :
    (p : HttpParser) → (process_content_length p).1.data_.headers ≡ p.data_.headers
unfolding process_content_length set_error
process_content_length-headers p = elim (Option-cases (lookup length_name p.data_.headers)) [
  | inl missing ↦ rw (process_content_length, missing) refl
  | inr (header, found) ↦ elim (Bool-cases (bad_length header.value)) [
    | inl bad ↦ rw (process_content_length, found, bad) refl
    | inr good ↦ elim (Option-cases (stoul header.value)) [
      | inl wrong ↦ rw (process_content_length, found, good, wrong) refl
      | inr (n, right) ↦ rw (process_content_length, found, good, right) refl
    ]
  ]
]

pub process_transfer_mode-headers :
    (p : HttpParser) → (process_transfer_mode p).1.data_.headers ≡ p.data_.headers
unfolding process_transfer_mode set_error
process_transfer_mode-headers p =
    elim (Option-cases (lookup (codes "transfer-encoding") p.data_.headers)) [
      | inl missing ↦ rw (process_transfer_mode, missing) (process_content_length-headers p)
      | inr (header, found) ↦ elim (Bool-cases (contains (codes "chunked") header.value)) [
        | inl yes_chunked ↦ rw (process_transfer_mode, found, yes_chunked) refl
        | inr not_chunked ↦ elim (Bool-cases (bytes_eq header.value (codes "identity"))) [
          | inl plain ↦
              rw (process_transfer_mode, found, not_chunked, plain)
                (process_content_length-headers p)
          | inr other ↦ rw (process_transfer_mode, found, not_chunked, other) refl
        ]
      ]
    ]

pub finish-headers : (r : Bool × HttpParser) → (finish r).data_.headers ≡ r.1.data_.headers
unfolding finish process_keep_alive
finish-headers (false, p) = refl
finish-headers (true, p) = refl

pub first_line-headers : (r : Bool × HttpParser) → (first_line r).data_.headers ≡ r.1.data_.headers
unfolding first_line
first_line-headers (false, p) = refl
first_line-headers (true, p) = refl

with_target-headers :
    (request : HttpRequest) (full_path : Bytes)
    → (with_target request full_path).headers ≡ request.headers
unfolding with_target
with_target-headers request full_path = elim (Option-cases (split_at 63 full_path)) [
  | inl missing ↦ rw (with_target, missing) refl
  | inr (parts, found) ↦ rw (with_target, found) refl
]

pub parse_request_line-headers :
    (registry : List (Bytes × ℕ)) (p : HttpParser) (line : Bytes)
    → (parse_request_line registry p line).1.data_.headers ≡ p.data_.headers
unfolding parse_request_line set_error
parse_request_line-headers registry p line = elim (Option-cases (split_at blank line)) [
  | inl missing ↦ rw (parse_request_line, missing) refl
  | inr ((method, rest), found) ↦ elim (Option-cases (split_at blank rest)) [
    | inl missing ↦ rw (parse_request_line, found, missing) refl
    | inr ((full_path, version_str), found') ↦
        elim (Bool-cases (method_of registry method == invalid_method)) [
          | inl bad ↦ rw (parse_request_line, found, found', bad) refl
          | inr good ↦ elim (Bool-cases (is_unknown (parse_http_version version_str))) [
            | inl bad ↦ rw (parse_request_line, found, found', good, bad) refl
            | inr fine ↦
                rw (parse_request_line, found, found', good, fine) (with_target-headers _ full_path)
          ]
        ]
  ]
]
