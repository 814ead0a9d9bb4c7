-- ===== src/Http/Header.antt =====
-- extensions/http: HttpHeader.h and HttpHeader.cc, a header with its lower-case name and the code of a
-- known name.
pub mod Lower
use coro_test.Common.{
  ℕ, ◌+◌, List, [], ◌∷◌, Bytes, Bool, true, false, Option, none, some, codes, bytes_eq, ltb, leb,
  if◌then◌else◌, ◌&&◌, map, String,
}

pub data NameCode : Type 0 where
  cache_control : NameCode
  connection : NameCode
  date : NameCode
  transfer_encoding : NameCode
  upgrade : NameCode
  accept : NameCode
  accept_encoding : NameCode
  accept_language : NameCode
  authorization : NameCode
  host : NameCode
  if_modified_since : NameCode
  if_none_match : NameCode
  referer : NameCode
  user_agent : NameCode
  expect : NameCode
  accept_ranges : NameCode
  age : NameCode
  e_tag : NameCode
  location : NameCode
  retry_after : NameCode
  server : NameCode
  vary : NameCode
  www_authenticate : NameCode
  allow : NameCode
  content_encoding : NameCode
  content_language : NameCode
  content_length : NameCode
  content_range : NameCode
  content_type : NameCode
  expires : NameCode
  last_modified : NameCode
  cookie : NameCode
  set_cookie : NameCode
  access_control_allow_origin : NameCode
  access_control_allow_methods : NameCode
  access_control_allow_headers : NameCode
  access_control_allow_credentials : NameCode
  origin : NameCode
  sec_web_socket_key : NameCode
  sec_web_socket_accept : NameCode
  sec_web_socket_version : NameCode
  sec_web_socket_protocol : NameCode
  sec_web_socket_extensions : NameCode
  x_forwarded_for : NameCode
  x_forwarded_proto : NameCode
  x_real_ip : NameCode
  unknown : NameCode

known : String → NameCode → Bytes × NameCode
known n c = (codes n, c)

-- `nameMap`
unfoldable pub name_map : List (Bytes × NameCode)
unfolding known
name_map =
    known "cache-control" cache_control
    ∷ known "connection" connection
    ∷ known "date" date
    ∷ known "transfer-encoding" transfer_encoding
    ∷ known "upgrade" upgrade
    ∷ known "accept" accept
    ∷ known "accept-encoding" accept_encoding
    ∷ known "accept-language" accept_language
    ∷ known "authorization" authorization
    ∷ known "host" host
    ∷ known "if-modified-since" if_modified_since
    ∷ known "if-none-match" if_none_match
    ∷ known "referer" referer
    ∷ known "user-agent" user_agent
    ∷ known "expect" expect
    ∷ known "accept-ranges" accept_ranges
    ∷ known "age" age
    ∷ known "etag" e_tag
    ∷ known "location" location
    ∷ known "retry-after" retry_after
    ∷ known "server" server
    ∷ known "vary" vary
    ∷ known "www-authenticate" www_authenticate
    ∷ known "allow" allow
    ∷ known "content-encoding" content_encoding
    ∷ known "content-language" content_language
    ∷ known "content-length" content_length
    ∷ known "content-range" content_range
    ∷ known "content-type" content_type
    ∷ known "expires" expires
    ∷ known "last-modified" last_modified
    ∷ known "cookie" cookie
    ∷ known "set-cookie" set_cookie
    ∷ known "access-control-allow-origin" access_control_allow_origin
    ∷ known "access-control-allow-methods" access_control_allow_methods
    ∷ known "access-control-allow-headers" access_control_allow_headers
    ∷ known "access-control-allow-credentials" access_control_allow_credentials
    ∷ known "origin" origin
    ∷ known "sec-websocket-key" sec_web_socket_key
    ∷ known "sec-websocket-accept" sec_web_socket_accept
    ∷ known "sec-websocket-version" sec_web_socket_version
    ∷ known "sec-websocket-protocol" sec_web_socket_protocol
    ∷ known "sec-websocket-extensions" sec_web_socket_extensions
    ∷ known "x-forwarded-for" x_forwarded_for
    ∷ known "x-forwarded-proto" x_forwarded_proto
    ∷ known "x-real-ip" x_real_ip
    ∷ []

look_up : Bytes → List (Bytes × NameCode) → NameCode
look_up lower_name [] = unknown
look_up lower_name ((n, c) ∷ rest) = if bytes_eq n lower_name then c else look_up lower_name rest

unfoldable pub name_to_code : Bytes → NameCode
unfolding look_up
name_to_code lower_name = look_up lower_name name_map

-- `std::tolower` in the C locale.
unfoldable pub to_lower_char : ℕ → ℕ
to_lower_char c = if leb b'A' c && leb c b'Z' then c + 32 else c

unfoldable pub to_lower : Bytes → Bytes
to_lower = map to_lower_char

pub record HttpHeader : Type 0 where
  pub name : Bytes
  pub value : Bytes
  pub name_code : NameCode

-- The constructor from a name in any case.
unfoldable pub http_header : Bytes → Bytes → HttpHeader
http_header name value = record {
  name = to_lower name;
  value = value;
  name_code = name_to_code (to_lower name);
}
