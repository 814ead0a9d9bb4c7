-- ===== src/Http2/Session/Invariant/Blocks.antt =====
-- Header blocks keep a session consistent: `handleHeaders`, `handleContinuation`, `finaliseHeaders`
-- of extensions/http2/src/Http2Session.cc.
use coro_test.Common.{
  ℕ, ◌+◌, ◌%◌, ◌≤◌, ◌<◌, ◌≡◌, ◌≢◌, [], Bytes, Bool, Option, none, some, refl, arith, leb, ltb, ◌==◌,
  not, ◌&&◌, max, length, if_elim,
}
use mathlib.Core.List.{Memᴰ}
use coro_test.Common.Error.{Result, ok, err}
use coro_test.Hpack.Table.{HpackTable}
use coro_test.Hpack.Table.Eviction.{IsValid}
use coro_test.Hpack.Integer.{Fault}
use coro_test.Hpack.Text.{HuffmanTables, is_set}
use coro_test.Hpack.Decoder.{DecodedHeaders}
use coro_test.Hpack.Decoder.Total.{decode-total}
use coro_test.Http2.Frame.{Frame}
use coro_test.Http2.Types.{end_headers, priority, protocol_error, stream_closed, compression_error}
use coro_test.Http2.Session.{Http2Session, has_stream, set_stream}
use coro_test.Http2.Session.Headers.{
  accept_headers, block_of, decode_block, with_block, finalise_headers, read_pad_len, read_u31,
  take_block, open_headers, handle_headers, handle_continuation, bad_request,
}
use coro_test.Http2.Session.Invariant.Reads.{
  pad_size, priority_size, read_pad_len-Ends, read_u31-Ends,
}
use coro_test.Http2.Session.Invariant.{
  IsConsistent, Progress-dispatch, Progress-abandon, Ends, returned, shifted, Ends-bind,
  go_away-IsConsistent, send_rst_stream-IsConsistent, AreDispatched-erase_stream,
  AreDispatched-older, Progress-begin, Progress-raise,
}

abbrev IsGoodTable : HpackTable → Type 0
IsGoodTable t = IsValid t × (t.max_size ≤ 4096)

abbrev IsGoodBlock : HpackTable × Option DecodedHeaders → Type 0
IsGoodBlock (t, o) = IsGoodTable t

abbrev thrown : Fault → Result Fault DecodedHeaders
thrown x = err x

block_of-Ends :
    {Short : Type 0} (t : HpackTable) (r : Result Fault DecodedHeaders)
    → IsGoodTable t
    → r ≢ err Fault.out_of_bounds
    → Ends Short IsGoodBlock (block_of (some (t, r)))
unfolding block_of
block_of-Ends t (ok dh) h bounded = returned h
block_of-Ends {Short} t (err x) h bounded =
    elim x
        as (λ y.
          thrown y ≢ err Fault.out_of_bounds
          → Ends Short IsGoodBlock (block_of (some (t, err y)))) [
            | Fault.out_of_bounds ↦ λ n. absurd (n refl)
            | Fault.shift_overflow ↦ λ n. shifted
            | _ ↦ λ n. returned h
          ]
      bounded

decode_block-Ends :
    {Short : Type 0} (tables : HuffmanTables) (t : HpackTable) (block : Bytes)
    → IsGoodTable t
    → Ends Short IsGoodBlock (decode_block tables t block)
unfolding decode_block
decode_block-Ends tables t block (v, bound) =
    let (u, r, e, w, shrunk, bounded) = decode-total tables t block v in
    rw e (block_of-Ends u r (w, omega arith) bounded)

-- Without its block, and with the table that the decoder left.
abandon :
    (s : Http2Session) (t : HpackTable) (buf : Bytes)
    → IsConsistent s
    → IsGoodTable t
    → IsConsistent (record s { continuation_stream_id = 0; decoder = t; header_block_buf = buf })
abandon s t buf v (w, bound) = record {
  table = w;
  table_bound = bound;
  progress = Progress-abandon s.last_stream_id s.continuation_stream_id s.dispatched v.progress;
  known = v.known;
  peer_low = v.peer_low;
  peer_high = v.peer_high;
}

accept_headers-IsConsistent :
    (s : Http2Session) (t : HpackTable) (dh : DecodedHeaders)
    → IsConsistent s
    → IsGoodTable t
    → IsConsistent (
        accept_headers
          (record s { continuation_stream_id = 0; decoder = t; header_block_buf = [] })
          s.continuation_stream_id
          dh)
unfolding accept_headers set_stream
accept_headers-IsConsistent s t dh v good =
    let sid = s.continuation_stream_id in
    if_elim IsConsistent (bad_request dh)
      (λ _. send_rst_stream-IsConsistent _ sid protocol_error (abandon s t [] v good))
      (λ _. record {
        table = good.0;
        table_bound = good.1;
        progress = Progress-dispatch s.last_stream_id sid s.dispatched v.progress;
        known = (
          Memᴰ.head refl,
          AreDispatched-older sid _ _
              (AreDispatched-erase_stream sid s.streams s.dispatched v.known),
        );
        peer_low = v.peer_low;
        peer_high = v.peer_high;
      })

pub finalise_headers-IsConsistent :
    {Short : Type 0} (tables : HuffmanTables) (s : Http2Session)
    → IsConsistent s
    → Ends Short IsConsistent (finalise_headers tables s)
unfolding finalise_headers with_block
finalise_headers-IsConsistent {Short} tables s v =
    Ends-bind IsGoodBlock IsConsistent (decode_block tables s.decoder s.header_block_buf) _
      (decode_block-Ends tables s.decoder s.header_block_buf (v.table, v.table_bound)) go
  where
    go :
        (d : HpackTable × Option DecodedHeaders)
        → IsGoodBlock d
        → Ends Short IsConsistent
            (with_block (record s { continuation_stream_id = 0 }) s.continuation_stream_id d)
    go (t, none) good =
        go_away-IsConsistent _ compression_error (abandon s t s.header_block_buf v good)
    go (t, some dh) good = returned (accept_headers-IsConsistent s t dh v good)

-- More of the block.
longer :
    (s : Http2Session) (buf : Bytes)
    → IsConsistent s
    → IsConsistent (record s { header_block_buf = buf })
longer s buf v = record {
  table = v.table;
  table_bound = v.table_bound;
  progress = v.progress;
  known = v.known;
  peer_low = v.peer_low;
  peer_high = v.peer_high;
}

-- A frame that opens a block, above every stream so far.
begin :
    (s : Http2Session) (sid : ℕ) (buf : Bytes) (only : Bool)
    → IsConsistent s
    → s.continuation_stream_id ≡ 0
    → s.last_stream_id < sid
    → sid % 2 ≡ 1
    → IsConsistent (record s {
      last_stream_id = max s.last_stream_id sid;
      header_block_buf = buf;
      continuation_stream_id = sid;
      headers_only = only;
    })
begin s sid buf only v none_open above odd = record {
  table = v.table;
  table_bound = v.table_bound;
  progress =
      Progress-begin s.last_stream_id sid s.continuation_stream_id s.dispatched none_open above odd
        v.progress;
  known = v.known;
  peer_low = v.peer_low;
  peer_high = v.peer_high;
}

-- The same frame where it is refused.
raise :
    (s : Http2Session) (sid : ℕ)
    → IsConsistent s
    → s.continuation_stream_id ≡ 0
    → IsConsistent (record s { last_stream_id = max s.last_stream_id sid })
raise s sid v none_open = record {
  table = v.table;
  table_bound = v.table_bound;
  progress =
      Progress-raise s.last_stream_id sid s.continuation_stream_id s.dispatched none_open
        v.progress;
  known = v.known;
  peer_low = v.peer_low;
  peer_high = v.peer_high;
}

take_block-IsConsistent :
    {Short : Type 0} (tables : HuffmanTables) (s : Http2Session) (frame : Frame)
    (pad_len offset : ℕ)
    → IsConsistent s
    → s.continuation_stream_id ≡ 0
    → s.last_stream_id < frame.header.stream_id
    → frame.header.stream_id % 2 ≡ 1
    → Ends Short IsConsistent (
        take_block tables
          (record s { last_stream_id = max s.last_stream_id frame.header.stream_id })
          frame
          pad_len
          offset)
unfolding take_block
take_block-IsConsistent tables s frame pad_len offset v none_open above odd =
    let sid = frame.header.stream_id in
    if_elim (Ends _ IsConsistent) (ltb (length frame.payload) (offset + pad_len))
      (λ _. go_away-IsConsistent _ protocol_error (raise s sid v none_open))
      (λ _.
        if_elim (Ends _ IsConsistent) (is_set frame.header.flags end_headers)
          (λ _. finalise_headers-IsConsistent tables _ (begin s sid _ _ v none_open above odd))
          (λ _. returned (begin s sid _ _ v none_open above odd)))

open_headers-IsConsistent :
    {Short : Type 0} (tables : HuffmanTables) (s : Http2Session) (frame : Frame)
    → IsConsistent s
    → s.continuation_stream_id ≡ 0
    → s.last_stream_id < frame.header.stream_id
    → frame.header.stream_id % 2 ≡ 1
    → (length frame.payload < pad_size frame + priority_size frame → Short)
    → Ends Short IsConsistent (
        open_headers tables
          (record s { last_stream_id = max s.last_stream_id frame.header.stream_id })
          frame)
unfolding open_headers priority_size
open_headers-IsConsistent tables s frame v none_open above odd short =
    let sid = frame.header.stream_id in
    Ends-bind _ IsConsistent (read_pad_len frame) _
      (read_pad_len-Ends frame (λ h. short (omega arith)))
      (λ (pad_len, offset) placed.
        if_elim (Ends _ IsConsistent) (is_set frame.header.flags priority)
          (λ set.
            Ends-bind _ IsConsistent (read_u31 frame.payload offset) _
              (read_u31-Ends frame.payload offset (λ h. short (rw set (omega arith))))
              (λ dep _.
                if_elim (Ends _ IsConsistent) (dep == sid)
                  (λ _.
                    returned
                      (send_rst_stream-IsConsistent _ sid protocol_error (raise s sid v none_open)))
                  (λ _.
                    take_block-IsConsistent tables s frame pad_len (offset + 5) v none_open above
                      odd)))
          (λ _. take_block-IsConsistent tables s frame pad_len offset v none_open above odd))

pub handle_headers-IsConsistent :
    {Short : Type 0} (tables : HuffmanTables) (s : Http2Session) (frame : Frame)
    → IsConsistent s
    → s.continuation_stream_id ≡ 0
    → (length frame.payload < pad_size frame + priority_size frame → Short)
    → Ends Short IsConsistent (handle_headers tables s frame)
unfolding handle_headers
handle_headers-IsConsistent tables s frame v none_open short =
    let sid = frame.header.stream_id in
    if_elim (Ends _ IsConsistent) (sid == 0) (λ _. go_away-IsConsistent s protocol_error v)
      (λ _.
        if_elim (Ends _ IsConsistent) (sid % 2 == 0) (λ _. go_away-IsConsistent s protocol_error v)
          (λ odd.
            if_elim (Ends _ IsConsistent)
              (leb sid s.last_stream_id && not (has_stream sid s.streams))
              (λ _. go_away-IsConsistent s stream_closed v)
              (λ old.
                if_elim (Ends _ IsConsistent) (has_stream sid s.streams)
                  (λ _. returned (send_rst_stream-IsConsistent s sid stream_closed v))
                  (λ fresh.
                    open_headers-IsConsistent tables s frame v none_open (ground arith)
                      (ground arith) short))))

pub handle_continuation-IsConsistent :
    {Short : Type 0} (tables : HuffmanTables) (s : Http2Session) (frame : Frame)
    → IsConsistent s
    → Ends Short IsConsistent (handle_continuation tables s frame)
unfolding handle_continuation
handle_continuation-IsConsistent tables s frame v =
    if_elim (Ends _ IsConsistent) (not (frame.header.stream_id == s.continuation_stream_id))
      (λ _. go_away-IsConsistent s protocol_error v)
      (λ _.
        if_elim (Ends _ IsConsistent) (is_set frame.header.flags end_headers)
          (λ _. finalise_headers-IsConsistent tables _ (longer s _ v))
          (λ _. returned (longer s _ v)))
