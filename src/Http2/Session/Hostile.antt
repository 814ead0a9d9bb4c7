-- ===== src/Http2/Session/Hostile.antt =====
-- Frames that extensions/http2/src/Http2Session.cc does not expect: a CONTINUATION outside a header
-- block, and a payload shorter than its flags announce.
use coro_test.Common.{
  ℕ, ◌%◌, ◌≤◌, ◌<◌, ◌≡◌, refl, [], ◌∷◌, ◌++◌, true, false, some, arith, ◌==◌, le→ltb-false,
  lt→leb-false, ==_refl,
}
use coro_test.Common.Error.{ok, err}
use coro_test.Hpack.Table.{HpackTable}
use coro_test.Hpack.Text.{HuffmanTables, is_set}
use coro_test.Hpack.Decoder.{DecodedHeaders, decode}
use coro_test.Http2.Frame.{Frame}
use coro_test.Http2.Types.{headers_type, continuation_type, end_headers, padded}
use coro_test.Http2.Session.{
  Http2Session, our_max_frame_size, has_stream, find_stream, set_stream, out_of_bounds, byte_at,
}
use coro_test.Http2.Session.Headers.{
  bad_request, accept_headers, block_of, decode_block, with_block, finalise_headers, read_pad_len,
  open_headers, handle_headers, handle_continuation,
}
use coro_test.Http2.Session.Run.{no_frame_error, on_frame, after_frame, on_round}

accept_good :
    (s : Http2Session) (sid : ℕ) (dh : DecodedHeaders)
    → bad_request dh ≡ false
    → (has_stream sid (accept_headers s sid dh).streams ≡ true)
      × ((accept_headers s sid dh).dispatched ≡ sid ∷ s.dispatched)
unfolding accept_headers has_stream set_stream find_stream
accept_good s sid dh good = rw good (rw (==_refl sid) (refl, refl))

-- A CONTINUATION frame on stream 0 that comes outside a header block is not refused: where it closes
-- a block that decodes to a complete request, the request is dispatched on stream 0.
pub continuation_zero :
    (tables : HuffmanTables) (s : Http2Session) (frame : Frame) (t : HpackTable)
    (dh : DecodedHeaders)
    → s.continuation_stream_id ≡ 0
    → frame.header.payload_length ≤ our_max_frame_size
    → frame.header.frame_type ≡ continuation_type
    → frame.header.stream_id ≡ 0
    → is_set frame.header.flags end_headers ≡ true
    → decode tables s.decoder (s.header_block_buf ++ frame.payload) ≡ some (t, ok dh)
    → bad_request dh ≡ false
    → (s' : Http2Session) × (on_round tables s frame ≡ ok (s', true))
      × (has_stream 0 s'.streams ≡ true)
      × (s'.dispatched ≡ 0 ∷ s.dispatched)
unfolding on_round on_frame handle_continuation finalise_headers decode_block block_of with_block
    no_frame_error after_frame
continuation_zero tables s frame t dh idle size type zero ends decoded good =
    let fits = le→ltb-false our_max_frame_size frame.header.payload_length size in
    let s' : Http2Session = record s {
      continuation_stream_id = 0;
      decoder = t;
      header_block_buf = [];
    } in
    let (has, listed) = accept_good s' 0 dh good in
    (accept_headers s' 0 dh, rw (fits, idle, type, zero, ends, decoded) refl, has, listed)

-- A HEADERS frame with the PADDED flag and no payload, on a new stream, makes `handleHeaders` read past
-- the payload.
pub short_headers :
    (tables : HuffmanTables) (s : Http2Session) (frame : Frame)
    → s.continuation_stream_id ≡ 0
    → frame.header.payload_length ≤ our_max_frame_size
    → frame.header.frame_type ≡ headers_type
    → frame.header.stream_id % 2 ≡ 1
    → s.last_stream_id < frame.header.stream_id
    → has_stream frame.header.stream_id s.streams ≡ false
    → is_set frame.header.flags padded ≡ true
    → frame.payload ≡ []
    → on_round tables s frame ≡ err out_of_bounds
unfolding on_round on_frame handle_headers open_headers read_pad_len byte_at no_frame_error
short_headers tables s frame idle size type odd above fresh pads empty =
    let fits = le→ltb-false our_max_frame_size frame.header.payload_length size in
    let nonzero : (frame.header.stream_id == 0) ≡ false = ground arith in
    let newer = lt→leb-false frame.header.stream_id s.last_stream_id above in
    rw (fits, idle, type, nonzero, odd, newer, fresh, pads, empty) refl
