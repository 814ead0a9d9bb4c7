-- ===== src/Tests/Http2Session.antt =====
-- extensions/http2/src/Http2Session.cc: a request with a body, and frames that break the protocol. The
-- header blocks are indexed fields, so that no Huffman table is asked.
use coro_test.Common.{
  ℕ, ◌+◌, ◌<◌, ◌≡◌, ◌⊎◌, inl, inr, refl, List, [], ◌∷◌, ◌++◌, Bytes, true, false, some, arith,
  bytes_eq,
}
use coro_test.Common.Error.{ok, err}
use coro_test.Io.{read}
use coro_test.Io.Exact.{read_exact, read_exact_loop}
use coro_test.Hpack.Text.{HuffmanTables}
use coro_test.Hpack.Table.{new_table}
use coro_test.Http2.Frame.{Frame, read_frame, read_payload, parse_header}
use coro_test.Http2.Types.{
  client_preface, data_type, headers_type, continuation_type, settings_type,
}
use coro_test.Http2.Session.{
  Http2Session, Http2Stream, Handled, out_of_bounds, undefined_shift, new_session, find_stream,
  has_stream,
}
use coro_test.Http2.Session.Run.{TaskCall, run, on_round}
use coro_test.Http2.Session.Invariant.{IsConsistent}
use coro_test.Hpack.Decoder.{
  decode, decode_loop, decode_field, indexed_field, table_get, apply_header, is_pseudo,
  apply_pseudo, DecodedHeaders,
}
use coro_test.Hpack.Integer.{decode_int, decode_groups}
use coro_test.Hpack.Table.{get}
use coro_test.Hpack.Table.Static.{static_table}
use coro_test.Http2.Session.{set_stream, erase_stream, byte_at, write, four_bytes}
use coro_test.Http2.Session.Headers.{
  handle_headers, open_headers, read_pad_len, take_block, finalise_headers, decode_block, block_of,
  with_block, accept_headers, bad_request, any_bad_header, bad_header,
}
use coro_test.Http2.Session.Control.{
  handle_data, take_data, deliver, close_body, handle_settings, setting_error,
}
use coro_test.Http2.Session.Run.{run_loop, on_calls, on_frame, no_frame_error, after_frame}
use coro_test.Http2.Session.Invariant.Total.{new_session-IsConsistent, run-IsConsistent}
use coro_test.Http2.Session.Invariant.Rounds.{on_round-out_of_bounds}
use coro_test.Http2.Session.Invariant.Reads.{pad_size, priority_size}
use coro_test.Http2.Session.Hostile.{short_headers, continuation_zero}
use coro_test.Http2.Session.Delivery.{IsDelivered, data_payload, is_padded, handle_data-IsDelivered}
use coro_test.Http2.Session.Settings.{
  Setting, settings_bytes, with_settings, latest_size, answer, Stops, handle_settings-answer,
}

abbrev no_huffman : HuffmanTables
no_huffman = record {
  decode_entry = λ state nibble. record { fstate = 0; flags = 0; sym = 0 };
  sym_entry = λ c. record { nbits = 8; code = c };
}

-- GET / over http, with END_HEADERS but without END_STREAM, and four bytes of data.
abbrev request : Bytes
request =
    client_preface
    ++ (0 ∷ 0 ∷ 3 ∷ 1 ∷ 4 ∷ 0 ∷ 0 ∷ 0 ∷ 1 ∷ 0x82 ∷ 0x84 ∷ 0x86 ∷ [])
    ++ (0 ∷ 0 ∷ 4 ∷ 0 ∷ 1 ∷ 0 ∷ 0 ∷ 0 ∷ 1 ∷ 1 ∷ 2 ∷ 3 ∷ 4 ∷ [])

abbrev answers_none : ℕ → List TaskCall
answers_none round = []

run-IsConsistent_example :
    (run no_huffman answers_none (request ∷ []) ≡ err out_of_bounds)
    ⊎ (run no_huffman answers_none (request ∷ []) ≡ err undefined_shift)
    ⊎ ((s : Http2Session) × (run no_huffman answers_none (request ∷ []) ≡ ok s) × IsConsistent s)
run-IsConsistent_example = run-IsConsistent no_huffman answers_none (request ∷ []) (omega arith, tt)

dispatched_by : Handled → List ℕ
dispatched_by (ok s) = s.dispatched
dispatched_by (err x) = []

request_dispatched : dispatched_by (run no_huffman answers_none (request ∷ [])) ≡ 1 ∷ []
unfolding dispatched_by run read_exact read_exact_loop read bytes_eq run_loop read_frame
    read_payload parse_header on_calls on_round on_frame no_frame_error after_frame handle_headers
    handle_data open_headers read_pad_len take_block finalise_headers decode_block block_of
    with_block accept_headers bad_request any_bad_header bad_header set_stream erase_stream
    find_stream has_stream byte_at take_data deliver close_body write four_bytes new_session
    new_table decode decode_loop decode_field indexed_field decode_int decode_groups table_get get
    static_table apply_header is_pseudo apply_pseudo
request_dispatched = refl

-- A HEADERS frame with PADDED and no payload.
abbrev padded_empty : Frame
padded_empty = record {
  header = record { payload_length = 0; frame_type = headers_type; flags = 0x8; stream_id = 1 };
  payload = [];
}

short_headers_example : on_round no_huffman new_session padded_empty ≡ err out_of_bounds
unfolding new_session has_stream find_stream
short_headers_example =
    short_headers no_huffman new_session padded_empty refl (omega arith) refl refl (omega arith)
      refl refl refl

on_round-out_of_bounds_example :
    ((headers_type ≡ headers_type) × (0 < pad_size padded_empty + priority_size padded_empty))
    ⊎ ((headers_type ≡ data_type) × (0 < pad_size padded_empty))
on_round-out_of_bounds_example =
    on_round-out_of_bounds no_huffman new_session padded_empty new_session-IsConsistent
      short_headers_example

abbrev get_root : DecodedHeaders
get_root = record {
  method = 71 ∷ 69 ∷ 84 ∷ [];
  path = 47 ∷ [];
  scheme = 104 ∷ 116 ∷ 116 ∷ 112 ∷ [];
  authority = [];
  status = [];
  headers = [];
}

-- A CONTINUATION frame on stream 0, at the start of a connection.
abbrev continuation_alone : Frame
continuation_alone = record {
  header = record {
    payload_length = 3;
    frame_type = continuation_type;
    flags = 0x4;
    stream_id = 0;
  };
  payload = 0x82 ∷ 0x84 ∷ 0x86 ∷ [];
}

block_decodes :
    decode no_huffman new_session.decoder
      (new_session.header_block_buf ++ continuation_alone.payload)
    ≡ some (new_session.decoder, ok get_root)
unfolding new_session new_table decode decode_loop decode_field indexed_field decode_int
    decode_groups table_get get static_table apply_header is_pseudo apply_pseudo bytes_eq
block_decodes = refl

root_good : bad_request get_root ≡ false
unfolding bad_request any_bad_header
root_good = refl

continuation_zero_example :
    (s' : Http2Session) × (on_round no_huffman new_session continuation_alone ≡ ok (s', true))
    × (has_stream 0 s'.streams ≡ true)
    × (s'.dispatched ≡ 0 ∷ new_session.dispatched)
unfolding new_session
continuation_zero_example =
    continuation_zero no_huffman new_session continuation_alone new_session.decoder get_root refl
      (omega arith) refl refl refl block_decodes root_good

abbrev open_stream : Http2Stream
open_stream = record {
  decoded_headers = get_root;
  headers_complete = true;
  sender_open = true;
  body = [];
}

abbrev with_stream : Http2Session
with_stream = record new_session { streams = (1, open_stream) ∷ [] }

-- Two bytes of data, and two of padding.
abbrev padded_data : Frame
padded_data = record {
  header = record { payload_length = 5; frame_type = data_type; flags = 0x9; stream_id = 1 };
  payload = 2 ∷ 7 ∷ 8 ∷ 0 ∷ 0 ∷ [];
}

handle_data-IsDelivered_example :
    (s' : Http2Session) × (handle_data with_stream padded_data ≡ ok s')
    × IsDelivered with_stream s' padded_data open_stream (7 ∷ 8 ∷ []) 3
unfolding find_stream is_padded data_payload
handle_data-IsDelivered_example =
    handle_data-IsDelivered with_stream padded_data open_stream (some (0 ∷ 0 ∷ [])) (7 ∷ 8 ∷ []) 3
      (λ e. absurd (omega arith)) refl refl refl refl (omega arith) (omega arith)

abbrev larger_frames : Setting
larger_frames = record { id = 5; val = 32768 }

abbrev bad_push : Setting
bad_push = record { id = 2; val = 2 }

abbrev settings_frame : Frame
settings_frame = record {
  header = record { payload_length = 12; frame_type = settings_type; flags = 0; stream_id = 0 };
  payload = 0 ∷ 5 ∷ 0 ∷ 0 ∷ 128 ∷ 0 ∷ 0 ∷ 2 ∷ 0 ∷ 0 ∷ 0 ∷ 2 ∷ [];
}

handle_settings-answer_example :
    (handle_settings new_session settings_frame
      ≡ answer (with_settings new_session (larger_frames ∷ [])) (bad_push ∷ []))
    × ((with_settings new_session (larger_frames ∷ [])).peer_max_frame_size
        ≡ latest_size new_session.peer_max_frame_size (larger_frames ∷ []))
unfolding settings_bytes setting_error Stops
handle_settings-answer_example =
    handle_settings-answer new_session settings_frame (larger_frames ∷ []) (bad_push ∷ []) refl refl
      refl ((omega arith, omega arith), ((omega arith, omega arith), tt))
      ((inl (omega arith), inl (omega arith), inr (omega arith, omega arith)), tt)
      (inl (refl, omega arith))
