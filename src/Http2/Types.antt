-- ===== src/Http2/Types.antt =====
-- extensions/http2/src/frame/Frame.h: the numbers of frame types, flags, error codes and settings.
use coro_test.Common.{ℕ, Bytes, codes, [], ◌∷◌, ◌++◌}

abbrev pub data_type : ℕ
data_type = 0

abbrev pub headers_type : ℕ
headers_type = 1

abbrev pub priority_type : ℕ
priority_type = 2

abbrev pub rst_stream_type : ℕ
rst_stream_type = 3

abbrev pub settings_type : ℕ
settings_type = 4

abbrev pub push_promise_type : ℕ
push_promise_type = 5

abbrev pub ping_type : ℕ
ping_type = 6

abbrev pub go_away_type : ℕ
go_away_type = 7

abbrev pub window_update_type : ℕ
window_update_type = 8

abbrev pub continuation_type : ℕ
continuation_type = 9

abbrev pub end_stream : ℕ
end_stream = 0x1

abbrev pub end_headers : ℕ
end_headers = 0x4

abbrev pub padded : ℕ
padded = 0x8

abbrev pub priority : ℕ
priority = 0x20

abbrev pub ack : ℕ
ack = 0x1

abbrev pub protocol_error : ℕ
protocol_error = 1

abbrev pub internal_error : ℕ
internal_error = 2

abbrev pub flow_control_error : ℕ
flow_control_error = 3

abbrev pub stream_closed : ℕ
stream_closed = 5

abbrev pub frame_size_error : ℕ
frame_size_error = 6

abbrev pub compression_error : ℕ
compression_error = 9

abbrev pub enable_push : ℕ
enable_push = 2

abbrev pub initial_window_size : ℕ
initial_window_size = 4

abbrev pub max_frame_size : ℕ
max_frame_size = 5

abbrev pub client_preface : Bytes
client_preface = codes "PRI * HTTP/2.0" ++ 13 ∷ 10 ∷ 13 ∷ 10 ∷ 83 ∷ 77 ∷ 13 ∷ 10 ∷ 13 ∷ 10 ∷ []
