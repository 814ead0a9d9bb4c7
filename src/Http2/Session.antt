-- ===== src/Http2/Session.antt =====
-- extensions/http2/src: Http2Session.h, Http2Stream.h and the sends of Http2Session.cc: the server's side
-- of one connection. A frame that is written goes to `sent`. The body pipe of a stream is known by its
-- sender: the chunks that went in, and whether the sender is still there. `dispatched` remembers
-- the streams that a task was spawned for.
pub mod Headers
pub mod Control
pub mod Run
pub mod Invariant
pub mod Hostile
pub mod Delivery
pub mod Settings
use coro_test.Common.{
  ℕ, ◌+◌, ◌/◌, ◌^◌, List, [], ◌∷◌, ◌++◌, Bytes, Bool, true, false, Option, none, some, bit_and,
  bit_or, length, get_elem?, ◌==◌, if◌then◌else◌,
}
use coro_test.Common.Error.{Result, ok, err, ◌>>=◌}
use coro_test.Hpack.Table.{HpackTable, new_table, default_max_size}
use coro_test.Hpack.Text.{HuffmanTables}
use coro_test.Hpack.Decoder.{DecodedHeaders}
use coro_test.Hpack.Encoder.{ResponseHead, encode_response}
use coro_test.Http2.Frame.{write_frame}
use coro_test.Http2.Types.{
  data_type, headers_type, rst_stream_type, settings_type, go_away_type, end_stream, end_headers,
  ack,
}

pub record Http2Stream : Type 0 where
  pub decoded_headers : DecodedHeaders
  pub headers_complete : Bool
  pub sender_open : Bool
  pub body : List Bytes

-- The arguments of one `writeFrame`.
pub record Written : Type 0 where
  pub frame_type : ℕ
  pub flags : ℕ
  pub stream_id : ℕ
  pub payload : Bytes

abbrev pub StreamMap : Type 0
StreamMap = List (ℕ × Http2Stream)

pub record Http2Session : Type 0 where
  pub decoder : HpackTable
  pub encoder : HpackTable
  pub streams : StreamMap
  pub continuation_stream_id : ℕ
  pub headers_only : Bool
  pub header_block_buf : Bytes
  pub last_stream_id : ℕ
  pub peer_max_frame_size : ℕ
  pub go_away_sent : Bool
  pub sent : List Written
  pub dispatched : List ℕ

abbrev pub our_max_frame_size : ℕ
our_max_frame_size = 16384

unfoldable pub new_session : Http2Session
new_session = record {
  decoder = new_table default_max_size;
  encoder = new_table default_max_size;
  streams = [];
  continuation_stream_id = 0;
  headers_only = false;
  header_block_buf = [];
  last_stream_id = 0;
  peer_max_frame_size = 16384;
  go_away_sent = false;
  sent = [];
  dispatched = [];
}

-- `streams_.find`, `streams_.contains`, `streams_[sid] = stream` and `streams_.erase`
unfoldable pub find_stream : ℕ → StreamMap → Option Http2Stream
find_stream sid [] = none
find_stream sid ((k, stream) ∷ m) = if k == sid then some stream else find_stream sid m

abbrev pub is_some {ℓ} : {A : Type ℓ} → Option A → Bool
is_some none = false
is_some (some a) = true

unfoldable pub has_stream : ℕ → StreamMap → Bool
has_stream sid m = is_some (find_stream sid m)

unfoldable pub erase_stream : ℕ → StreamMap → StreamMap
erase_stream sid [] = []
erase_stream sid ((k, stream) ∷ m) =
    let rest = erase_stream sid m in if k == sid then rest else (k, stream) ∷ rest

unfoldable pub set_stream : ℕ → Http2Stream → StreamMap → StreamMap
set_stream sid stream m = (sid, stream) ∷ erase_stream sid m

-- What a handler can do besides returning: read past the end of a payload. The fuel of the HPACK
-- decoder never runs out.
pub data SessionFault : Type 0 where
  out_of_bounds undefined_shift out_of_fuel : SessionFault

abbrev pub Handled : Type 0
Handled = Result SessionFault Http2Session

-- `payload[i]`
abbrev pub in_bounds {ℓ} : {A : Type ℓ} → Option A → Result SessionFault A
in_bounds none = err out_of_bounds
in_bounds (some b) = ok b

unfoldable pub byte_at : Bytes → ℕ → Result SessionFault ℕ
byte_at payload i = in_bounds (get_elem? payload i)

unfoldable pub write : ℕ → ℕ → ℕ → Bytes → Http2Session → Http2Session
write frame_type flags stream_id payload s = record s {
  sent =
      s.sent
      ++ record { frame_type = frame_type; flags = flags; stream_id = stream_id; payload = payload }
        ∷ [];
}

-- Everything written so far, as bytes.
abbrev pub wire : List Written → Bytes
wire [] = []
wire (w ∷ ws) = write_frame w.frame_type w.flags w.stream_id w.payload ++ wire ws

-- Four bytes of a number; the first keeps the bits of the mask.
unfoldable pub four_bytes : ℕ → ℕ → Bytes
four_bytes mask v =
    bit_and (v / 2 ^ 24) mask
    ∷ bit_and (v / 2 ^ 16) 0xff
    ∷ bit_and (v / 2 ^ 8) 0xff
    ∷ bit_and v 0xff
    ∷ []

unfoldable pub send_go_away : Http2Session → ℕ → ℕ → Http2Session
send_go_away s last_stream_id error_code =
    write go_away_type 0 0 (four_bytes 0x7f last_stream_id ++ four_bytes 0xff error_code)
      (record s { go_away_sent = true })

unfoldable pub send_settings_ack : Http2Session → Http2Session
send_settings_ack s = write settings_type ack 0 [] s

unfoldable pub send_rst_stream : Http2Session → ℕ → ℕ → Http2Session
send_rst_stream s stream_id error_code =
    write rst_stream_type 0 stream_id (four_bytes 0xff error_code) s

unfoldable pub send_headers : HuffmanTables → Http2Session → ℕ → ResponseHead → Bool → Http2Session
send_headers tables s stream_id resp ends =
    let (encoder, block) = encode_response tables s.encoder resp in
    write headers_type (bit_or end_headers (if ends then end_stream else 0)) stream_id block
      (record s { encoder = encoder })

unfoldable pub send_data : Http2Session → ℕ → Bytes → Bool → Http2Session
send_data s stream_id bytes ends =
    write data_type (if ends then end_stream else 0) stream_id bytes s

-- `sendGoAway(lastStreamId_, code)`, as the handlers call it.
abbrev pub go_away : Http2Session → ℕ → Handled
go_away s error_code = ok (send_go_away s s.last_stream_id error_code)
