-- ===== src/Http2/Session/Run.antt =====
-- `run` of extensions/http2/src/Http2Session.cc: the loop over the frames of a connection. What the
-- spawned tasks do between two frames is a list of their calls, chosen for each round; a handler
-- runs to its end before a task goes on.
use coro_test.Common.{
  ℕ, zero, suc, List, [], ◌∷◌, Bytes, Bool, true, false, not, ◌&&◌, none, some, length, ltb, ◌==◌,
  if◌then◌else◌, bytes_eq,
}
use coro_test.Common.Error.{ok, err, ◌>>=◌}
use coro_test.Io.{Pieces, flat}
use coro_test.Io.Exact.{read_exact}
use coro_test.Hpack.Text.{HuffmanTables}
use coro_test.Hpack.Encoder.{ResponseHead}
use coro_test.Http2.Frame.{Frame, read_frame}
use coro_test.Http2.Types.{
  data_type, headers_type, priority_type, rst_stream_type, settings_type, push_promise_type,
  ping_type, go_away_type, window_update_type, continuation_type, protocol_error, internal_error,
  frame_size_error, client_preface,
}
use coro_test.Http2.Session.{
  Http2Session, Handled, out_of_fuel, our_max_frame_size, new_session, erase_stream, write,
  send_headers, send_data, send_rst_stream, send_go_away,
}
use coro_test.Http2.Session.Headers.{handle_headers, handle_continuation}
use coro_test.Http2.Session.Control.{
  Checked, handle_data, handle_settings, handle_ping, handle_window_update, handle_rst_stream,
  handle_priority,
}

unfoldable pub no_frame_error : Handled → Checked
no_frame_error h = h >>= λ s. ok (s, false)

-- The `switch` over the type of the frame.
unfoldable pub on_frame : HuffmanTables → Http2Session → Frame → Checked
on_frame tables s frame =
    let type = frame.header.frame_type in
    if type == headers_type
    then no_frame_error (handle_headers tables s frame)
    else if type == continuation_type
    then no_frame_error (handle_continuation tables s frame)
    else if type == data_type
    then no_frame_error (handle_data s frame)
    else if type == settings_type
    then no_frame_error (handle_settings s frame)
    else if type == window_update_type
    then handle_window_update s frame
    else if type == ping_type
    then no_frame_error (handle_ping s frame)
    else if type == rst_stream_type
    then handle_rst_stream s frame
    else if type == go_away_type
    then ok (record s { go_away_sent = true }, false)
    else if type == priority_type
    then handle_priority s frame
    else if type == push_promise_type
    then ok (send_go_away s s.last_stream_id protocol_error, true)
    else ok (s, false)

-- What follows the `switch`: the session, and whether the loop goes on.
unfoldable pub after_frame : Http2Session × Bool → Http2Session × Bool
after_frame (s, frame_error) =
    if frame_error then (send_go_away s s.last_stream_id internal_error, false) else (s, true)

-- One round of the loop with the frame that was read.
unfoldable pub on_round : HuffmanTables → Http2Session → Frame → Checked
on_round tables s frame =
    if ltb our_max_frame_size frame.header.payload_length
    then ok (send_go_away s s.last_stream_id frame_size_error, false)
    else if not (s.continuation_stream_id == 0)
        && not (frame.header.frame_type == continuation_type)
    then ok (send_go_away s s.last_stream_id protocol_error, false)
    else (on_frame tables s frame >>= λ r. ok (after_frame r))

-- What a task of a request does to the session: it answers, or it ends.
pub data TaskCall : Type 0 where
  answers_headers : ℕ → ResponseHead → Bool → TaskCall
  answers_data : ℕ → Bytes → Bool → TaskCall
  resets : ℕ → ℕ → TaskCall
  ends : ℕ → TaskCall

unfoldable pub on_call : HuffmanTables → Http2Session → TaskCall → Http2Session
on_call tables s (answers_headers sid resp last) = send_headers tables s sid resp last
on_call tables s (answers_data sid bytes last) = send_data s sid bytes last
on_call tables s (resets sid code) = send_rst_stream s sid code
on_call tables s (ends sid) = record s { streams = erase_stream sid s.streams }

unfoldable pub on_calls : HuffmanTables → Http2Session → List TaskCall → Http2Session
on_calls tables s [] = s
on_calls tables s (c ∷ cs) = on_calls tables (on_call tables s c) cs

-- The loop, with the calls of the tasks before each test of `goAwaySent_` and while a frame is
-- awaited. Each frame takes nine bytes at least.
unfoldable pub run_loop : HuffmanTables → (ℕ → List TaskCall) → ℕ → Http2Session → Pieces → Handled
run_loop tables calls zero s pieces = err out_of_fuel
run_loop tables calls (suc fuel) s pieces =
    let s' = on_calls tables s (calls fuel) in
    let continue = λ (frame : Frame) (rest : Pieces). on_round tables s' frame >>= λ (t, goes_on).
    elim goes_on [ true ↦ run_loop tables calls fuel t rest | false ↦ ok t ] in
    elim s.go_away_sent [
      | true ↦ ok s
      | false ↦ elim (read_frame our_max_frame_size pieces) [
        | none ↦ ok s'
        | some (frame, rest) ↦ continue frame rest
      ]
    ]

-- `run` from the preface on.
unfoldable pub run : HuffmanTables → (ℕ → List TaskCall) → Pieces → Handled
run tables calls pieces = elim (read_exact 24 pieces) [
  | none ↦ ok new_session
  | some (preface, rest) ↦
      if bytes_eq preface client_preface
      then run_loop tables calls (suc (length (flat rest))) (write settings_type 0 0 [] new_session)
          rest
      else ok new_session
]
