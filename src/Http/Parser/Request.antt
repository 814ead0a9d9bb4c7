-- ===== src/Http/Parser/Request.antt =====
-- extensions/http/src/HttpParser.cc: `HttpParser<HttpRequest>`. `registry` is the table of method names of
-- HttpMethod.cc, to which a program may add.
use coro_test.Common.{
  ℕ, List, [], ◌∷◌, ◌++◌, Bytes, Bool, true, false, not, ◌&&◌, ◌||◌, Option, none, some, ◌==◌,
  if◌then◌else◌, codes, bytes_eq,
}
use coro_test.Common.SortedMap.{lookup, insert_or_assign, emplace}
use coro_test.Http.Header.{HttpHeader, http_header, to_lower, NameCode, cookie, content_length}
use coro_test.Http.Parser.{
  Version, http10, http11, unknown_version, is_valid_token, parse_http_version, split_at, trim,
  parse_header_line, stoul, contains, split_all, blank,
}
use coro_test.Utils.UrlEncode.{url_decode, url_decode_component}

pub data TransferMode : Type 0 where
  by_content_length chunked until_close : TransferMode

pub data HttpParserState : Type 0 where
  expect_status_line expect_header header_complete error : HttpParserState

pub data ErrorCode : Type 0 where
  malformed_request_line ambiguous_content_length unsupported_transfer_encoding : ErrorCode

pub record HttpRequest : Type 0 where
  pub version : Version
  pub method : ℕ
  pub path : Bytes
  pub raw_path : Bytes
  pub query : Bytes
  pub headers : List (Bytes × HttpHeader)
  pub cookies : List (Bytes × Bytes)
  pub queries : List (Bytes × Bytes)
  pub transfer_mode : TransferMode
  pub body_length : ℕ
  pub keep_alive : Bool

pub record HttpParser : Type 0 where
  pub data_ : HttpRequest
  pub state_ : HttpParserState
  pub error_ : Option (ErrorCode × Bytes)

-- `HttpMethod::_Invalid`, and `fromString`
abbrev pub invalid_method : ℕ
invalid_method = 9

unfoldable pub method_of : List (Bytes × ℕ) → Bytes → ℕ
method_of registry s = elim (lookup s registry) [ none ↦ invalid_method | some id ↦ id ]

unfoldable pub new_parser : HttpParser
new_parser = record {
  data_ = record {
    version = http11;
    method = invalid_method;
    path = [];
    raw_path = [];
    query = [];
    headers = [];
    cookies = [];
    queries = [];
    transfer_mode = by_content_length;
    body_length = 0;
    keep_alive = true;
  };
  state_ = expect_status_line;
  error_ = none;
}

unfoldable pub set_error : HttpParser → ErrorCode → Bytes → HttpParser
set_error p code message = record p { state_ = error; error_ = some (code, message) }

unfoldable pub add_query : List (Bytes × Bytes) → Bytes → List (Bytes × Bytes)
add_query queries pair = elim (split_at 61 pair) [
  | none ↦ queries
  | some (key, value) ↦ emplace (url_decode_component key) (url_decode_component value) queries
]

unfoldable pub parse_query_string : List Bytes → List (Bytes × Bytes) → List (Bytes × Bytes)
parse_query_string [] queries = queries
parse_query_string (pair ∷ pairs) queries = parse_query_string pairs (add_query queries pair)

unfoldable pub is_empty : Bytes → Bool
is_empty [] = true
is_empty (c ∷ s) = false

unfoldable pub add_cookie : List (Bytes × Bytes) → Bytes → List (Bytes × Bytes)
add_cookie cookies pair = elim (split_at 61 pair) [
  | none ↦ cookies
  | some (name, value) ↦
      if is_empty (trim name) then cookies else insert_or_assign (trim name) (trim value) cookies
]

unfoldable pub parse_cookies : List Bytes → List (Bytes × Bytes) → List (Bytes × Bytes)
parse_cookies [] cookies = cookies
parse_cookies (pair ∷ pairs) cookies = parse_cookies pairs (add_cookie cookies pair)

-- The target of a request line: `path`, `rawPath`, `query` and `queries`.
unfoldable pub with_target : HttpRequest → Bytes → HttpRequest
with_target request full_path =
    let path_of = λ (raw : Bytes). if is_empty raw then codes "/" else url_decode raw in
    elim (split_at 63 full_path) [
      | none ↦ record request { raw_path = full_path; path = path_of full_path; query = [] }
      | some (raw, query) ↦ record request {
        raw_path = raw;
        path = path_of raw;
        query = query;
        queries = parse_query_string (split_all 38 query) request.queries;
      }
    ]

unfoldable pub is_unknown : Version → Bool
is_unknown http10 = false
is_unknown http11 = false
is_unknown unknown_version = true

unfoldable pub parse_request_line : List (Bytes × ℕ) → HttpParser → Bytes → Bool × HttpParser
parse_request_line registry p line = elim (split_at blank line) [
  | none ↦ (false, set_error p malformed_request_line (codes "Missing space in request line"))
  | some (method, rest) ↦ elim (split_at blank rest) [
    | none ↦
        (false, set_error p malformed_request_line (codes "Missing second space in request line"))
    | some (full_path, version_str) ↦
        let id = method_of registry method in
        let version = parse_http_version version_str in
        let q = record p { data_ = record p.data_ { method = id; version = version } } in
        if id == invalid_method
        then (false, set_error q malformed_request_line (codes "Invalid http method"))
        else if is_unknown version
        then (false, set_error q malformed_request_line (codes "Invalid http version"))
        else (true, record q { data_ = with_target q.data_ full_path })
  ]
]

abbrev pub is_cookie : NameCode → Bool
is_cookie cookie = true
is_cookie _ = false

abbrev pub is_content_length : NameCode → Bool
is_content_length content_length = true
is_content_length _ = false

-- The `emplace` of a header, and the test for a second length.
unfoldable pub add_header : HttpParser → HttpHeader → HttpParser
add_header p header =
    let q = record p {
      data_ = record p.data_ { headers = emplace header.name header p.data_.headers };
    } in
    elim (lookup header.name p.data_.headers) [
      | none ↦ q
      | some there ↦
          if is_content_length header.name_code && not (bytes_eq header.value there.value)
          then set_error q ambiguous_content_length (codes "Multiple Content-Length headers")
          else q
    ]

unfoldable pub parse_header : HttpParser → Bytes → HttpParser
parse_header p line =
    let (name, value) = parse_header_line line in
    let header = http_header name value in
    if is_empty name || not (is_valid_token name)
    then p
    else if is_cookie header.name_code
    then record p {
      data_ = record p.data_ { cookies = parse_cookies (split_all 59 value) p.data_.cookies };
    }
    else add_header p header

unfoldable pub bad_length : Bytes → Bool
bad_length [] = true
bad_length (c ∷ s) = c == 45

-- The second half of `processTransferMode`.
unfoldable pub process_content_length : HttpParser → Bool × HttpParser
process_content_length p =
    let refused : Bool × HttpParser =
      (false, set_error p ambiguous_content_length (codes "Invalid content length")) in
    elim (lookup (codes "content-length") p.data_.headers) [
      | none ↦ (
        true,
        record p { data_ = record p.data_ { body_length = 0; transfer_mode = by_content_length } },
      )
      | some header ↦ if bad_length header.value then refused else elim (stoul header.value) [
        | none ↦ refused
        | some n ↦ (
          true,
          record p {
            data_ = record p.data_ { body_length = n; transfer_mode = by_content_length };
          },
        )
      ]
    ]

unfoldable pub process_transfer_mode : HttpParser → Bool × HttpParser
process_transfer_mode p = elim (lookup (codes "transfer-encoding") p.data_.headers) [
  | none ↦ process_content_length p
  | some header ↦
      if contains (codes "chunked") header.value
      then (true, record p { data_ = record p.data_ { transfer_mode = chunked } })
      else if not (bytes_eq header.value (codes "identity"))
      then (
        false,
        set_error p unsupported_transfer_encoding
            (codes "Unsupported Transfer-Encoding: " ++ header.value),
      )
      else process_content_length p
]

unfoldable pub is_http11 : Version → Bool
is_http11 http10 = false
is_http11 http11 = true
is_http11 unknown_version = false

unfoldable pub process_keep_alive : HttpParser → HttpParser
process_keep_alive p =
    let alive : Bool = elim (lookup (codes "connection") p.data_.headers) [
      | none ↦ is_http11 p.data_.version
      | some header ↦ bytes_eq (to_lower header.value) (codes "keep-alive")
    ] in
    record p { data_ = record p.data_ { keep_alive = alive } }

-- `processHeaders`, and what `feedLine` does with its answer.
unfoldable pub finish : Bool × HttpParser → HttpParser
finish (false, p) = p
finish (true, p) = record (process_keep_alive p) { state_ = header_complete }

unfoldable pub first_line : Bool × HttpParser → HttpParser
first_line (false, p) = p
first_line (true, p) = record p { state_ = expect_header }

unfoldable pub next_line : HttpParser → Bytes → HttpParser
next_line p [] = finish (process_transfer_mode p)
next_line p (c ∷ line) = parse_header p (c ∷ line)

-- `feedLine` by the state; its answer is the new state.
unfoldable pub feed_at : List (Bytes × ℕ) → HttpParserState → HttpParser → Bytes → HttpParser
feed_at registry error p line = p
feed_at registry expect_status_line p line = first_line (parse_request_line registry p line)
feed_at registry expect_header p line = next_line p line
feed_at registry header_complete p line = next_line p line

unfoldable pub feed_line : List (Bytes × ℕ) → HttpParser → Bytes → HttpParser
feed_line registry p line = feed_at registry p.state_ p line

unfoldable pub feed_lines : List (Bytes × ℕ) → HttpParser → List Bytes → HttpParser
feed_lines registry p [] = p
feed_lines registry p (line ∷ lines) = feed_lines registry (feed_line registry p line) lines
