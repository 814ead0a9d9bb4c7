-- ===== src/Hpack/Decoder.antt =====
-- `HpackDecoder` of extensions/http2/src/hpack/Hpack.cc and Hpack.h: header blocks (RFC 7541,
-- section 6). A throw leaves the table as it was then, and the decoder lives on with it.
mod Reads
pub mod Total
use coro_test.Common.{
  ℕ, zero, suc, ◌+◌, ◌-◌, List, [], ◌∷◌, Bytes, Bool, true, false, Option, none, some, bit_and, ltb,
  ◌==◌, if◌then◌else◌, ◌||◌, not, length, codes, bytes_eq,
}
use coro_test.Common.Error.{Result, ok, err, ◌>>=◌, ◌>>◌, throw_if}
use coro_test.Common.SortedMap.{insert_or_assign}
use coro_test.Http.Header.{HttpHeader, http_header}
use coro_test.Hpack.Table.{HpackTable, get, insert, set_max_size}
use coro_test.Hpack.Table.Static.{HeaderEntry}
use coro_test.Hpack.Integer.{
  Fault, decode_int, pseudo_after_regular, duplicate_pseudo, response_pseudo, unknown_pseudo,
  index_zero, index_out_of_range, size_update_late, size_update_too_large,
}
use coro_test.Hpack.Text.{HuffmanTables, decode_str, is_set}

abbrev pub HttpHeaderMap : Type 0
HttpHeaderMap = List (Bytes × HttpHeader)

pub record DecodedHeaders : Type 0 where
  pub method : Bytes
  pub path : Bytes
  pub scheme : Bytes
  pub authority : Bytes
  pub status : Bytes
  pub headers : HttpHeaderMap

abbrev pub no_headers : DecodedHeaders
no_headers = record {
  method = [];
  path = [];
  scheme = [];
  authority = [];
  status = [];
  headers = [];
}

abbrev pub is_empty : Bytes → Bool
is_empty [] = true
is_empty (c ∷ cs) = false

-- `!name.empty() && name[0] == ':'`
unfoldable pub is_pseudo : Bytes → Bool
is_pseudo [] = false
is_pseudo (c ∷ cs) = c == b':'

-- What `applyHeader` does with a pseudo-header.
unfoldable pub apply_pseudo : DecodedHeaders → Bytes → Bytes → Result Fault DecodedHeaders
apply_pseudo out name value =
    if bytes_eq name (codes ":method")
    then (throw_if (not (is_empty out.method)) duplicate_pseudo
        >> ok (record out { method = value }))
    else if bytes_eq name (codes ":path")
    then (throw_if (not (is_empty out.path)) duplicate_pseudo >> ok (record out { path = value }))
    else if bytes_eq name (codes ":scheme")
    then (throw_if (not (is_empty out.scheme)) duplicate_pseudo
        >> ok (record out { scheme = value }))
    else if bytes_eq name (codes ":authority")
    then ok (record out { authority = value })
    else if bytes_eq name (codes ":status")
    then err response_pseudo
    else err unknown_pseudo

-- The headers so far, and `seenRegularHeader`.
abbrev pub Applied : Type 0
Applied = DecodedHeaders × Bool

unfoldable pub apply_header : Applied → Bytes → Bytes → Result Fault Applied
apply_header (out, seen) name value =
    if is_pseudo name
    then (do
      throw_if seen pseudo_after_regular
      out' ← apply_pseudo out name value
      ok (out', seen))
    else let hdr = http_header name value in
      ok (record out { headers = insert_or_assign hdr.name hdr out.headers }, true)

-- The table, with a result or what was thrown.
abbrev pub Decoded : Type 0 → Type 0
Decoded A = HpackTable × Result Fault A

-- `table_.get`, whose exception is passed on.
unfoldable pub table_get : HpackTable → ℕ → Result Fault HeaderEntry
table_get t index = elim (get t index) [ ok e ↦ ok e | err x ↦ err index_out_of_range ]

module _ (tables : HuffmanTables) (len : ℕ) where
  -- The name and the value of a literal, by an index with a prefix of the given width.
  unfoldable pub read_literal : HpackTable → ℕ → Bytes → Result Fault (Bytes × Bytes × Bytes)
  read_literal t prefix_bits rest = do
    (idx, after) ← decode_int rest prefix_bits
    (name, behind) ←
        (if idx == 0
          then decode_str tables len after
          else (table_get t idx >>= λ e. ok (e.name, after)))
    (value, last) ← decode_str tables len behind
    ok (name, value, last)

  unfoldable pub indexed_field : HpackTable → Applied → Bytes → Decoded (Applied × Bytes)
  indexed_field t a rest = (
    t,
    do
      (idx, after) ← decode_int rest 7
      throw_if (idx == 0) index_zero
      entry ← table_get t idx
      a' ← apply_header a entry.name entry.value
      ok (a', after),
  )

  -- The entry is in the table before the header is looked at.
  unfoldable pub indexed_literal : HpackTable → Applied → Bytes → Decoded (Applied × Bytes)
  indexed_literal t a rest = elim (read_literal t 6 rest) [
    | err x ↦ (t, err x)
    | ok (name, value, last) ↦
        (insert t name value, (apply_header a name value >>= λ a'. ok (a', last)))
  ]

  unfoldable pub size_update : HpackTable → Applied → Bytes → Decoded (Applied × Bytes)
  size_update t (out, seen) rest =
      if seen || not (is_empty out.method)
      then (t, err size_update_late)
      else elim (decode_int rest 5) [
        | err x ↦ (t, err x)
        | ok (new_size, after) ↦
            if ltb t.max_size new_size
            then (t, err size_update_too_large)
            else (set_max_size t new_size, ok ((out, seen), after))
      ]

  unfoldable pub plain_literal : HpackTable → Applied → Bytes → Decoded (Applied × Bytes)
  plain_literal t a rest = (
    t,
    do (name, value, last) ← read_literal t 4 rest; a' ← apply_header a name value; ok (a', last),
  )

  -- One round of the loop of `decode`, by the first byte of what is left.
  unfoldable pub decode_field : HpackTable → Applied → ℕ → Bytes → Decoded (Applied × Bytes)
  decode_field t a first rest =
      if is_set first 0x80
      then indexed_field t a rest
      else if bit_and first 0xc0 == 0x40
      then indexed_literal t a rest
      else if bit_and first 0xe0 == 0x20
      then size_update t a rest
      else plain_literal t a rest

  -- `while (pos < len)` with fuel; `none` means that the fuel ran out.
  unfoldable pub decode_loop : ℕ → HpackTable → Applied → Bytes → Option (Decoded DecodedHeaders)
  decode_loop fuel t (out, seen) [] = some (t, ok out)
  decode_loop zero t a (b ∷ bs) = none
  decode_loop (suc fuel) t a (b ∷ bs) =
      let (t', r) = decode_field t a b (b ∷ bs) in
      elim r [ err x ↦ some (t', err x) | ok (a', rest) ↦ decode_loop fuel t' a' rest ]

-- Each round takes a byte at least.
unfoldable pub decode : HuffmanTables → HpackTable → Bytes → Option (Decoded DecodedHeaders)
decode tables t bytes = decode_loop tables (length bytes) (length bytes) t (no_headers, false) bytes
