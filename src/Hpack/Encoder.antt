-- ===== src/Hpack/Encoder.antt =====
-- `HpackEncoder` of extensions/http2/src/hpack/Hpack.cc: the header block of a response.
pub mod Lockstep
pub mod Response
use coro_test.Common.{
  ℕ, zero, suc, ◌+◌, List, [], ◌∷◌, ◌++◌, Bytes, Bool, true, false, ltb, ◌==◌, if◌then◌else◌, ◌||◌,
  codes,
}
use coro_test.Common.Int.{ℤ, pos, negsuc}
use coro_test.Common.Decimal.{to_string}
use coro_test.Http.Header.{HttpHeader, NameCode, content_length, transfer_encoding, connection}
use coro_test.Hpack.Table.{HpackTable, find, insert}
use coro_test.Hpack.Integer.{encode_int}
use coro_test.Hpack.Text.{HuffmanTables, encode_str}
use coro_test.Hpack.Decoder.{HttpHeaderMap}

-- What the encoder reads of a response. A cookie stands by its text, `Cookie::toString`.
pub record ResponseHead : Type 0 where
  pub status_code : ℕ
  pub headers : HttpHeaderMap
  pub content_size : ℕ
  pub cookies : List Bytes

is_length : NameCode → Bool
is_length content_length = true
is_length _ = false

is_coding : NameCode → Bool
is_coding transfer_encoding = true
is_coding _ = false

is_connection : NameCode → Bool
is_connection connection = true
is_connection _ = false

-- The headers that the loop passes over.
unfoldable pub is_skipped : NameCode → Bool
unfolding is_length is_coding is_connection
is_skipped c = is_length c || is_coding c || is_connection c

module _ (tables : HuffmanTables) where
  -- A literal with incremental indexing, its name by an index where that is not 0.
  unfoldable pub literal : ℕ → Bytes → Bytes → Bytes → Bytes
  literal name_idx name value out =
      let start = encode_int out name_idx 6 0x40 in
      let named = (if name_idx == 0 then encode_str tables start name else start) in
      encode_str tables named value

  -- One header by the answer of `find`: an index, or a literal that goes into the table.
  unfoldable pub encode_found : HpackTable → Bytes → Bytes → Bytes → ℤ → HpackTable × Bytes
  encode_found t name value out (pos zero) = (insert t name value, literal 0 name value out)
  encode_found t name value out (pos (suc k)) = (t, encode_int out (suc k) 7 0x80)
  encode_found t name value out (negsuc k) = (insert t name value, literal (suc k) name value out)

  unfoldable pub encode_field : HpackTable → Bytes → Bytes → Bytes → HpackTable × Bytes
  encode_field t name value out = encode_found t name value out (find t name value)

  unfoldable pub encode_headers : HpackTable → HttpHeaderMap → Bytes → HpackTable × Bytes
  encode_headers t [] out = (t, out)
  encode_headers t ((key, hdr) ∷ rest) out =
      let (t', out') = encode_field t hdr.name hdr.value out in
      let skip = is_skipped hdr.name_code in
      encode_headers (if skip then t else t') rest (if skip then out else out')

  unfoldable pub encode_cookies : List Bytes → Bytes → Bytes
  encode_cookies [] out = out
  encode_cookies (c ∷ cs) out = encode_cookies cs (literal 0 (codes "set-cookie") c out)

  -- The content length and the cookies do not go into the table.
  unfoldable pub encode_response : HpackTable → ResponseHead → HpackTable × Bytes
  encode_response t resp =
      let (t', out) = encode_field t (codes ":status") (to_string resp.status_code) [] in
      let (t'', out') = encode_headers t' resp.headers out in
      let out'' =
        (if ltb 0 resp.content_size
          then literal 0 (codes "content-length") (to_string resp.content_size) out'
          else out') in
      (t'', encode_cookies resp.cookies out'')
