-- ===== src/Http2/Session/Invariant/Rounds.antt =====
-- A round of the loop of `run` in extensions/http2/src/Http2Session.cc keeps a session consistent, and
-- which frames it reads too far in.
use coro_test.Common.{
  ℕ, ◌+◌, ◌<◌, ◌≡◌, ◌⊎◌, inl, inr, Bool, true, false, arith, ltb, ◌==◌, not, ◌&&◌, length, ==_iff,
  if_elim, if◌then◌else◌,
}
use coro_test.Common.Error.{ok, err}
use coro_test.Hpack.Text.{HuffmanTables}
use coro_test.Http2.Frame.{Frame}
use coro_test.Http2.Types
use coro_test.Http2.Types.{client_preface}
use coro_test.Http2.Session.{Http2Session, our_max_frame_size, out_of_bounds}
use coro_test.Http2.Session.Control.{
  refused, handle_ping, handle_window_update, handle_rst_stream, handle_priority,
}
use coro_test.Http2.Session.Run.{no_frame_error, on_frame, after_frame, on_round}
use coro_test.Http2.Session.Invariant.{
  IsConsistent, Ends, overread, Ends-bind, send_go_away-IsConsistent,
}
use coro_test.Http2.Session.Invariant.Reads.{pad_size, priority_size}
use coro_test.Http2.Session.Invariant.Blocks.{
  handle_headers-IsConsistent, handle_continuation-IsConsistent,
}
use coro_test.Http2.Session.Invariant.Data.{handle_data-IsConsistent}
use coro_test.Http2.Session.Invariant.Frames.{
  IsMarked, marked, handle_settings-IsConsistent, handle_ping-IsConsistent,
  handle_window_update-IsMarked, handle_rst_stream-IsMarked, handle_priority-IsMarked,
  no_frame_error-IsMarked,
}

-- A frame whose payload ends within what its flags announce in front of the data.
pub Overreads : Frame → Type 0
Overreads frame =
    ((frame.header.frame_type ≡ Types.headers_type)
      × (length frame.payload < pad_size frame + priority_size frame))
    ⊎ ((frame.header.frame_type ≡ Types.data_type) × (length frame.payload < pad_size frame))

with_go_away : (s : Http2Session) → IsConsistent s → IsConsistent (record s { go_away_sent = true })
with_go_away s v = record {
  table = v.table;
  table_bound = v.table_bound;
  progress = v.progress;
  known = v.known;
  peer_low = v.peer_low;
  peer_high = v.peer_high;
}

on_frame-IsMarked :
    (tables : HuffmanTables) (s : Http2Session) (frame : Frame)
    → IsConsistent s
    → (s.continuation_stream_id ≡ 0) ⊎ (frame.header.frame_type ≡ Types.continuation_type)
    → Ends (Overreads frame) IsMarked (on_frame tables s frame)
unfolding on_frame Overreads
on_frame-IsMarked tables s frame v apart =
    let type = frame.header.frame_type in
    if_elim (Ends _ IsMarked) (type == Types.headers_type)
      (λ is. no_frame_error-IsMarked _ (
        handle_headers-IsConsistent tables s frame v (ground arith)
          (λ h. inl ((==_iff type Types.headers_type).0 is, h))))
      (λ _.
        if_elim (Ends _ IsMarked) (type == Types.continuation_type)
          (λ _. no_frame_error-IsMarked _ (handle_continuation-IsConsistent tables s frame v))
          (λ _.
            if_elim (Ends _ IsMarked) (type == Types.data_type)
              (λ is. no_frame_error-IsMarked _ (
                handle_data-IsConsistent s frame v
                  (λ h. inr ((==_iff type Types.data_type).0 is, h))))
              (λ _.
                if_elim (Ends _ IsMarked) (type == Types.settings_type)
                  (λ _. no_frame_error-IsMarked _ (handle_settings-IsConsistent s frame v))
                  (λ _. rest type))))
  where
    last_cases :
        (type : ℕ)
        → Ends (Overreads frame) IsMarked (
            if type == Types.go_away_type
            then ok (record s { go_away_sent = true }, false)
            else if type == Types.priority_type
            then handle_priority s frame
            else if type == Types.push_promise_type
            then refused s Types.protocol_error
            else ok (s, false))
    last_cases type =
        if_elim (Ends _ IsMarked) (type == Types.go_away_type)
          (λ _. marked _ false (with_go_away s v))
          (λ _.
            if_elim (Ends _ IsMarked) (type == Types.priority_type)
              (λ _. handle_priority-IsMarked s frame v)
              (λ _.
                if_elim (Ends _ IsMarked) (type == Types.push_promise_type)
                  (λ _.
                    marked _ true
                      (send_go_away-IsConsistent s s.last_stream_id Types.protocol_error v))
                  (λ _. marked s false v)))

    rest :
        (type : ℕ)
        → Ends (Overreads frame) IsMarked (
            if type == Types.window_update_type
            then handle_window_update s frame
            else if type == Types.ping_type
            then no_frame_error (handle_ping s frame)
            else if type == Types.rst_stream_type
            then handle_rst_stream s frame
            else if type == Types.go_away_type
            then ok (record s { go_away_sent = true }, false)
            else if type == Types.priority_type
            then handle_priority s frame
            else if type == Types.push_promise_type
            then refused s Types.protocol_error
            else ok (s, false))
    rest type =
        if_elim (Ends _ IsMarked) (type == Types.window_update_type)
          (λ _. handle_window_update-IsMarked s frame v)
          (λ _.
            if_elim (Ends _ IsMarked) (type == Types.ping_type)
              (λ _. no_frame_error-IsMarked _ (handle_ping-IsConsistent s frame v))
              (λ _.
                if_elim (Ends _ IsMarked) (type == Types.rst_stream_type)
                  (λ _. handle_rst_stream-IsMarked s frame v) (λ _. last_cases type)))

after_frame-IsMarked :
    {Short : Type 0} (r : Http2Session × Bool)
    → IsMarked r
    → Ends Short IsMarked (ok (after_frame r))
unfolding after_frame
after_frame-IsMarked (s, true) v =
    marked _ false (send_go_away-IsConsistent s s.last_stream_id Types.internal_error v)
after_frame-IsMarked (s, false) v = marked s true v

pub on_round-IsMarked :
    (tables : HuffmanTables) (s : Http2Session) (frame : Frame)
    → IsConsistent s
    → Ends (Overreads frame) IsMarked (on_round tables s frame)
unfolding on_round
on_round-IsMarked tables s frame v =
    if_elim (Ends _ IsMarked) (ltb our_max_frame_size frame.header.payload_length)
      (λ _. marked _ false (send_go_away-IsConsistent s s.last_stream_id _ v))
      (λ _.
        if_elim (Ends _ IsMarked)
          (not (s.continuation_stream_id == 0)
            && not (frame.header.frame_type == Types.continuation_type))
          (λ _. marked _ false (send_go_away-IsConsistent s s.last_stream_id _ v))
          (λ apart.
            Ends-bind IsMarked IsMarked (on_frame tables s frame) _
              (on_frame-IsMarked tables s frame v (ground arith)) after_frame-IsMarked))

-- A round that reads past the end of a payload got a HEADERS frame shorter than the pad length and
-- the priority that its flags announce, or a DATA frame without the pad length that its flags
-- announce. (The session is consistent.)
pub on_round-out_of_bounds :
    (tables : HuffmanTables) (s : Http2Session) (frame : Frame)
    → IsConsistent s
    → on_round tables s frame ≡ err out_of_bounds
    → ((frame.header.frame_type ≡ Types.headers_type)
        × (length frame.payload < pad_size frame + priority_size frame))
      ⊎ ((frame.header.frame_type ≡ Types.data_type) × (length frame.payload < pad_size frame))
unfolding Overreads
on_round-out_of_bounds tables s frame v e = go (rw e at (on_round-IsMarked tables s frame v))
  where
    go : Ends (Overreads frame) IsMarked (err out_of_bounds) → Overreads frame
    go (overread h) = h
