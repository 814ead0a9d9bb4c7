-- ===== src/Http2/Session/Invariant/Data.antt =====
-- DATA frames keep a session consistent: `handleData` of extensions/http2/src/Http2Session.cc.
use coro_test.Common.{
  ℕ, ◌+◌, ◌-◌, ◌<◌, ◌≡◌, inl, inr, List, [], ◌∷◌, Bytes, some, leb, ltb, ◌==◌, length, if_elim,
  Option-cases, Bool-cases, ==_iff,
}
use mathlib.Core.List.{Memᴰ}
use coro_test.Hpack.Text.{is_set}
use coro_test.Http2.Frame.{Frame}
use coro_test.Http2.Types
use coro_test.Http2.Session.{
  Http2Session, Http2Stream, StreamMap, find_stream, set_stream, write, four_bytes,
}
use coro_test.Http2.Session.Headers.{read_pad_len}
use coro_test.Http2.Session.Control.{close_body, deliver, take_data, handle_data}
use coro_test.Http2.Session.Invariant.{
  IsConsistent, AreDispatched, Ends, returned, Ends-bind, go_away-IsConsistent,
  send_rst_stream-IsConsistent, write-IsConsistent, AreDispatched-erase_stream,
}
use coro_test.Http2.Session.Invariant.Reads.{pad_size, read_pad_len-Ends}

-- A stream that is in the map has its task.
find_stream-dispatched :
    (sid : ℕ) (m : StreamMap) (ds : List ℕ) (stream : Http2Stream)
    → AreDispatched m ds
    → find_stream sid m ≡ some stream
    → Memᴰ sid ds
unfolding find_stream
find_stream-dispatched sid [] ds stream h e = cc
find_stream-dispatched sid ((k, other) ∷ m) ds stream (h, hs) e = elim (Bool-cases (k == sid)) [
  | inl same ↦ let q : k ≡ sid = (==_iff k sid).0 same in rw (← q) h
  | inr other_key ↦ find_stream-dispatched sid m ds stream hs (rw (other_key, find_stream) at e)
]

pub with_streams :
    (s : Http2Session) (m : StreamMap)
    → IsConsistent s
    → AreDispatched m s.dispatched
    → IsConsistent (record s { streams = m })
with_streams s m v known = record {
  table = v.table;
  table_bound = v.table_bound;
  progress = v.progress;
  known = known;
  peer_low = v.peer_low;
  peer_high = v.peer_high;
}

set_stream-IsConsistent :
    (s : Http2Session) (sid : ℕ) (stream : Http2Stream)
    → IsConsistent s
    → Memᴰ sid s.dispatched
    → IsConsistent (record s { streams = set_stream sid stream s.streams })
unfolding set_stream
set_stream-IsConsistent s sid stream v h =
    with_streams s _ v (h, AreDispatched-erase_stream sid s.streams s.dispatched v.known)

close_body-IsConsistent :
    (frame : Frame) (stream : Http2Stream) (s : Http2Session)
    → IsConsistent s
    → Memᴰ frame.header.stream_id s.dispatched
    → IsConsistent (close_body frame stream s)
unfolding close_body
close_body-IsConsistent frame stream s v h =
    if_elim IsConsistent (is_set frame.header.flags Types.end_stream)
      (λ _. set_stream-IsConsistent s frame.header.stream_id _ v h) (λ _. v)

deliver-IsConsistent :
    (frame : Frame) (stream : Http2Stream) (bytes : Bytes) (s : Http2Session)
    → IsConsistent s
    → Memᴰ frame.header.stream_id s.dispatched
    → IsConsistent (deliver frame stream bytes s)
unfolding deliver write
deliver-IsConsistent frame stream bytes s v h =
    let sid = frame.header.stream_id in
    let wu = four_bytes 0x7f (length bytes) in
    close_body-IsConsistent frame _ _
      (write-IsConsistent Types.window_update_type 0 sid wu _ (
        write-IsConsistent Types.window_update_type 0 0 wu _ (set_stream-IsConsistent s sid _ v h)))
      h

pub handle_data-IsConsistent :
    {Short : Type 0} (s : Http2Session) (frame : Frame)
    → IsConsistent s
    → (length frame.payload < pad_size frame → Short)
    → Ends Short IsConsistent (handle_data s frame)
unfolding handle_data take_data
handle_data-IsConsistent s frame v short =
    if_elim (Ends _ IsConsistent) (frame.header.stream_id == 0)
      (λ _. go_away-IsConsistent s Types.protocol_error v)
      (λ _. elim (Option-cases (find_stream frame.header.stream_id s.streams)) [
        | inl missing ↦ rw missing (
            if_elim (Ends _ IsConsistent) (leb frame.header.stream_id s.last_stream_id)
              (λ _. returned (send_rst_stream-IsConsistent s _ _ v))
              (λ _. go_away-IsConsistent s Types.protocol_error v))
        | inr (stream, there) ↦ rw there (
            Ends-bind _ IsConsistent (read_pad_len frame) _ (read_pad_len-Ends frame short)
              (λ (pad_len, offset) _.
                if_elim (Ends _ IsConsistent) (ltb (length frame.payload) (offset + pad_len))
                  (λ _. go_away-IsConsistent s Types.protocol_error v)
                  (λ _.
                    if_elim (Ends _ IsConsistent) (ltb 0 (length frame.payload - offset - pad_len))
                      (λ _.
                        if_elim (Ends _ IsConsistent) stream.sender_open
                          (λ _.
                            returned
                              (deliver-IsConsistent frame stream _ s v (listed stream there)))
                          (λ _. returned (send_rst_stream-IsConsistent s _ _ v)))
                      (λ _.
                        returned
                          (close_body-IsConsistent frame stream s v (listed stream there))))))
      ])
  where
    listed :
        (stream : Http2Stream)
        → find_stream frame.header.stream_id s.streams ≡ some stream
        → Memᴰ frame.header.stream_id s.dispatched
    listed stream e =
        find_stream-dispatched frame.header.stream_id s.streams s.dispatched stream v.known e
