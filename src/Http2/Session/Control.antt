-- ===== src/Http2/Session/Control.antt =====
-- The other handlers of extensions/http2/src/Http2Session.cc: DATA, SETTINGS, PING, and the frames
-- that `run` deals with itself.
use coro_test.Common.{
  ℕ, ◌+◌, ◌-◌, ◌*◌, ◌%◌, ◌^◌, [], ◌∷◌, ◌++◌, Bytes, Bool, true, false, not, ◌&&◌, ◌||◌, Option,
  none, some, bit_or, length, take, drop, ltb, leb, ◌==◌, if◌then◌else◌,
}
use coro_test.Common.Error.{Result, ok, err, ◌>>=◌}
use coro_test.Hpack.Text.{is_set}
use coro_test.Http2.Frame.{Frame}
use coro_test.Http2.Types.{
  ping_type, window_update_type, end_stream, ack, protocol_error, flow_control_error, stream_closed,
  frame_size_error, enable_push, initial_window_size, max_frame_size,
}
use coro_test.Http2.Session.{
  Http2Session, Http2Stream, SessionFault, Handled, out_of_bounds, find_stream, has_stream,
  set_stream, erase_stream, write, four_bytes, send_go_away, send_rst_stream, send_settings_ack,
  go_away,
}
use coro_test.Http2.Session.Headers.{read_pad_len, read_u31}

-- `bodySender.reset()`, which the end of the stream asks for.
unfoldable pub close_body : Frame → Http2Stream → Http2Session → Http2Session
close_body frame stream s =
    if is_set frame.header.flags end_stream
    then record s {
      streams = set_stream frame.header.stream_id (record stream { sender_open = false }) s.streams;
    }
    else s

-- The bytes go into the pipe, and both windows are opened again by their number.
unfoldable pub deliver : Frame → Http2Stream → Bytes → Http2Session → Http2Session
deliver frame stream bytes s =
    let sid = frame.header.stream_id in
    let wu = four_bytes 0x7f (length bytes) in
    let stream' : Http2Stream = record stream { body = stream.body ++ bytes ∷ [] } in
    let s' : Http2Session = record s { streams = set_stream sid stream' s.streams } in
    close_body frame stream'
      (write window_update_type 0 sid wu (write window_update_type 0 0 wu s'))

unfoldable pub take_data : Http2Session → Frame → Http2Stream → ℕ → ℕ → Handled
take_data s frame stream pad_len offset =
    let data_len = length frame.payload - offset - pad_len in
    let bytes = take data_len (drop offset frame.payload) in
    if ltb (length frame.payload) (offset + pad_len)
    then go_away s protocol_error
    else if ltb 0 data_len
    then (if stream.sender_open
        then ok (deliver frame stream bytes s)
        else ok (send_rst_stream s frame.header.stream_id stream_closed))
    else ok (close_body frame stream s)

unfoldable pub handle_data : Http2Session → Frame → Handled
handle_data s frame =
    let sid = frame.header.stream_id in
    if sid == 0 then go_away s protocol_error else elim (find_stream sid s.streams) [
      | none ↦
          if leb sid s.last_stream_id
          then ok (send_rst_stream s sid stream_closed)
          else go_away s protocol_error
      | some stream ↦
          read_pad_len frame >>= λ (pad_len, offset). take_data s frame stream pad_len offset
    ]

-- The error that a setting is refused with.
unfoldable pub setting_error : ℕ → ℕ → Option ℕ
setting_error id val =
    if id == enable_push && ltb 1 val
    then some protocol_error
    else if id == initial_window_size && ltb 0x7fffffff val
    then some flow_control_error
    else if id == max_frame_size && (ltb val 16384 || ltb 16777215 val)
    then some protocol_error
    else none

unfoldable pub apply_setting : Http2Session → ℕ → ℕ → Http2Session
apply_setting s id val = if id == max_frame_size then record s { peer_max_frame_size = val } else s

-- The loop over the settings, six bytes each, with the ACK behind it.
unfoldable pub settings_loop : Http2Session → Bytes → Handled
settings_loop s [] = ok (send_settings_ack s)
settings_loop s (i0 ∷ i1 ∷ v0 ∷ v1 ∷ v2 ∷ v3 ∷ more) =
    let id = bit_or (i0 * 2 ^ 8) i1 in
    let val = bit_or (bit_or (bit_or (v0 * 2 ^ 24) (v1 * 2 ^ 16)) (v2 * 2 ^ 8)) v3 in
    let rest = settings_loop (apply_setting s id val) more in
    elim (setting_error id val) [ none ↦ rest | some code ↦ go_away s code ]
settings_loop s (_ ∷ _) = err out_of_bounds

unfoldable pub handle_settings : Http2Session → Frame → Handled
handle_settings s frame =
    if not (frame.header.stream_id == 0)
    then go_away s protocol_error
    else if is_set frame.header.flags ack
    then (if length frame.payload == 0 then ok s else go_away s frame_size_error)
    else if not (length frame.payload % 6 == 0)
    then go_away s frame_size_error
    else settings_loop s frame.payload

unfoldable pub handle_ping : Http2Session → Frame → Handled
handle_ping s frame =
    if not (frame.header.stream_id == 0)
    then go_away s protocol_error
    else if not (length frame.payload == 8)
    then go_away s frame_size_error
    else if is_set frame.header.flags ack
    then ok s
    else ok (write ping_type ack 0 frame.payload s)

-- A case of the `switch` in `run`, with `frameError`.
abbrev pub Checked : Type 0
Checked = Result SessionFault (Http2Session × Bool)

abbrev pub refused : Http2Session → ℕ → Checked
refused s code = ok (send_go_away s s.last_stream_id code, true)

unfoldable pub handle_window_update : Http2Session → Frame → Checked
handle_window_update s frame =
    let sid = frame.header.stream_id in
    if not (length frame.payload == 4)
    then refused s frame_size_error
    else if not (sid == 0) && not (has_stream sid s.streams)
    then refused s protocol_error
    else (read_u31 frame.payload 0 >>= λ inc.
        if inc == 0 then refused s protocol_error else ok (s, false))

unfoldable pub handle_rst_stream : Http2Session → Frame → Checked
handle_rst_stream s frame =
    let sid = frame.header.stream_id in
    if sid == 0
    then refused s protocol_error
    else if not (length frame.payload == 4)
    then refused s frame_size_error
    else if not (has_stream sid s.streams)
    then refused s protocol_error
    else ok (record s { streams = erase_stream sid s.streams }, false)

unfoldable pub handle_priority : Http2Session → Frame → Checked
handle_priority s frame =
    let sid = frame.header.stream_id in
    if sid == 0
    then refused s protocol_error
    else if not (length frame.payload == 5)
    then ok (send_rst_stream s sid frame_size_error, false)
    else (read_u31 frame.payload 0 >>= λ dep.
        ok ((if dep == sid then send_rst_stream s sid protocol_error else s), false))
