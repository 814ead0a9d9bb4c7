-- ===== src/Http2/Session/Headers.antt =====
-- `handleHeaders`, `handleContinuation` and `finaliseHeaders` of extensions/http2/src/Http2Session.cc.
use coro_test.Common.{
  ℕ, ◌+◌, ◌-◌, ◌*◌, ◌%◌, ◌^◌, max, [], ◌∷◌, ◌++◌, Bytes, Bool, true, false, not, ◌&&◌, ◌||◌, Option,
  none, some, bit_and, bit_or, length, take, drop, ltb, leb, ◌==◌, if◌then◌else◌, codes, bytes_eq,
}
use coro_test.Common.Error.{Result, ok, err, ◌>>=◌}
use coro_test.Http.Header.{HttpHeader, NameCode, connection, transfer_encoding}
use coro_test.Hpack.Table.{HpackTable}
use coro_test.Hpack.Integer.{Fault}
use coro_test.Hpack.Text.{HuffmanTables, is_set}
use coro_test.Hpack.Decoder.{HttpHeaderMap, DecodedHeaders, Decoded, decode, is_empty}
use coro_test.Http2.Frame.{Frame}
use coro_test.Http2.Types.{
  end_stream, end_headers, padded, priority, protocol_error, stream_closed, compression_error,
}
use coro_test.Http2.Session.{
  Http2Session, SessionFault, Handled, out_of_bounds, undefined_shift, out_of_fuel, byte_at,
  has_stream, set_stream, send_rst_stream, go_away,
}

abbrev is_connection_specific : NameCode → Bool
is_connection_specific connection = true
is_connection_specific transfer_encoding = true
is_connection_specific _ = false

abbrev has_upper : Bytes → Bool
has_upper [] = false
has_upper (c ∷ name) = (leb b'A' c && leb c b'Z') || has_upper name

-- What one round of the loop over the headers objects to.
unfoldable pub bad_header : HttpHeader → Bool
bad_header hdr =
    is_connection_specific hdr.name_code
    || bytes_eq hdr.name (codes "keep-alive")
    || bytes_eq hdr.name (codes "proxy-connection")
    || bytes_eq hdr.name (codes "upgrade")
    || (bytes_eq hdr.name (codes "te") && not (bytes_eq hdr.value (codes "trailers")))
    || has_upper hdr.name

-- Every objection has the same answer, so that the order of the map does not matter.
unfoldable pub any_bad_header : HttpHeaderMap → Bool
any_bad_header [] = false
any_bad_header ((key, hdr) ∷ m) = bad_header hdr || any_bad_header m

unfoldable pub bad_request : DecodedHeaders → Bool
bad_request dh =
    any_bad_header dh.headers || is_empty dh.method || is_empty dh.path || is_empty dh.scheme

-- `finaliseHeaders` after the block was decoded. The last task is `dispatchStream`.
unfoldable pub accept_headers : Http2Session → ℕ → DecodedHeaders → Http2Session
accept_headers s sid dh =
    if bad_request dh then send_rst_stream s sid protocol_error else record s {
      streams =
          set_stream sid
            (record {
              decoded_headers = dh;
              headers_complete = true;
              sender_open = not s.headers_only;
              body = [];
            })
            s.streams;
      dispatched = sid ∷ s.dispatched;
    }

-- The `try` around `decode`: `none` where it threw. A read outside the block is no exception, and
-- neither is a shift by 64 bits or more: what follows is undefined.
unfoldable pub block_of :
    Option (Decoded DecodedHeaders) → Result SessionFault (HpackTable × Option DecodedHeaders)
block_of none = err out_of_fuel
block_of (some (t, err Fault.out_of_bounds)) = err out_of_bounds
block_of (some (t, err Fault.shift_overflow)) = err undefined_shift
block_of (some (t, err x)) = ok (t, none)
block_of (some (t, ok dh)) = ok (t, some dh)

unfoldable pub decode_block :
    HuffmanTables → HpackTable → Bytes → Result SessionFault (HpackTable × Option DecodedHeaders)
decode_block tables t block = block_of (decode tables t block)

-- The rest of `finaliseHeaders`, by what the decoder made of the block.
unfoldable pub with_block : Http2Session → ℕ → HpackTable × Option DecodedHeaders → Handled
with_block s sid (t, none) = go_away (record s { decoder = t }) compression_error
with_block s sid (t, some dh) =
    ok (accept_headers (record s { decoder = t; header_block_buf = [] }) sid dh)

unfoldable pub finalise_headers : HuffmanTables → Http2Session → Handled
finalise_headers tables s = decode_block tables s.decoder s.header_block_buf >>= λ decoded.
    with_block (record s { continuation_stream_id = 0 }) s.continuation_stream_id decoded

-- `padLen` and the offset behind it.
unfoldable pub read_pad_len : Frame → Result SessionFault (ℕ × ℕ)
read_pad_len frame =
    if is_set frame.header.flags padded
    then (byte_at frame.payload 0 >>= λ pad_len. ok (pad_len, 1))
    else ok (0, 0)

-- A number of 31 bits.
unfoldable pub read_u31 : Bytes → ℕ → Result SessionFault ℕ
read_u31 payload offset = do
  a ← byte_at payload offset
  b ← byte_at payload (offset + 1)
  c ← byte_at payload (offset + 2)
  d ← byte_at payload (offset + 3)
  ok (bit_or (bit_or (bit_or (bit_and a 0x7f * 2 ^ 24) (b * 2 ^ 16)) (c * 2 ^ 8)) d)

-- The end of `handleHeaders`: the block is between the prefix of the frame and its padding.
unfoldable pub take_block : HuffmanTables → Http2Session → Frame → ℕ → ℕ → Handled
take_block tables s frame pad_len offset =
    let block_len = length frame.payload - offset - pad_len in
    let s' : Http2Session = record s {
      header_block_buf = take block_len (drop offset frame.payload);
      continuation_stream_id = frame.header.stream_id;
      headers_only = is_set frame.header.flags end_stream;
    } in
    if ltb (length frame.payload) (offset + pad_len)
    then go_away s protocol_error
    else if is_set frame.header.flags end_headers
    then finalise_headers tables s'
    else ok s'

-- `handleHeaders` from the assignment of `lastStreamId_` on.
unfoldable pub open_headers : HuffmanTables → Http2Session → Frame → Handled
open_headers tables s frame = read_pad_len frame >>= λ (pad_len, offset).
    if is_set frame.header.flags priority
    then (read_u31 frame.payload offset >>= λ dep.
        if dep == frame.header.stream_id
        then ok (send_rst_stream s frame.header.stream_id protocol_error)
        else take_block tables s frame pad_len (offset + 5))
    else take_block tables s frame pad_len offset

unfoldable pub handle_headers : HuffmanTables → Http2Session → Frame → Handled
handle_headers tables s frame =
    let sid = frame.header.stream_id in
    if sid == 0
    then go_away s protocol_error
    else if sid % 2 == 0
    then go_away s protocol_error
    else if leb sid s.last_stream_id && not (has_stream sid s.streams)
    then go_away s stream_closed
    else if has_stream sid s.streams
    then ok (send_rst_stream s sid stream_closed)
    else open_headers tables (record s { last_stream_id = max s.last_stream_id sid }) frame

unfoldable pub handle_continuation : HuffmanTables → Http2Session → Frame → Handled
handle_continuation tables s frame =
    let s' : Http2Session = record s { header_block_buf = s.header_block_buf ++ frame.payload } in
    if not (frame.header.stream_id == s.continuation_stream_id)
    then go_away s protocol_error
    else if is_set frame.header.flags end_headers
    then finalise_headers tables s'
    else ok s'
