-- ===== src/Http2/Frame.antt =====
-- extensions/http2/src/frame: Frame.h, FrameReader.h and FrameReader.cc (RFC 7540, section 4.1).
pub mod RoundTrip
pub mod Reads
use coro_test.Common.{
  ℕ, zero, suc, ◌+◌, ◌*◌, ◌/◌, ◌%◌, ◌^◌, List, [], ◌∷◌, ◌++◌, Bytes, Bool, true, false, Option,
  none, some, bit_and, bit_or, length, ltb, get_or, if◌then◌else◌,
}
use coro_test.Io.{Pieces}
use coro_test.Io.Exact.{read_exact}

pub record FrameHeader : Type 0 where
  pub payload_length : ℕ
  pub frame_type : ℕ
  pub flags : ℕ
  pub stream_id : ℕ

pub record Frame : Type 0 where
  pub header : FrameHeader
  pub payload : Bytes

-- Nine bytes as a header; all shifts stay within 32 bits.
unfoldable pub parse_header : Bytes → FrameHeader
parse_header hdr =
    let at = λ (i : ℕ). get_or hdr i 0 in
    record {
      payload_length = bit_or (bit_or (at 0 * 2 ^ 16) (at 1 * 2 ^ 8)) (at 2);
      frame_type = at 3;
      flags = at 4;
      stream_id =
          bit_or (bit_or (bit_or (bit_and (at 5) 0x7f * 2 ^ 24) (at 6 * 2 ^ 16)) (at 7 * 2 ^ 8))
            (at 8);
    }

-- The rest of `readFrame`, after the header. A frame that is too large comes without its payload.
unfoldable pub read_payload : ℕ → FrameHeader → Pieces → Option (Frame × Pieces)
read_payload max_frame_size header rest =
    let body = read_exact header.payload_length rest in
    let whole : Option (Frame × Pieces) = elim body [
      | none ↦ none
      | some (payload, after) ↦ some (record { header = header; payload = payload }, after)
    ] in
    if ltb max_frame_size header.payload_length
    then some (record { header = header; payload = [] }, rest)
    else if ltb 0 header.payload_length
    then whole
    else some (record { header = header; payload = [] }, rest)

-- `readFrame`: `none` at the end of the stream.
unfoldable pub read_frame : ℕ → Pieces → Option (Frame × Pieces)
read_frame max_frame_size pieces = elim (read_exact 9 pieces) [
  | none ↦ none
  | some (hdr, rest) ↦ read_payload max_frame_size (parse_header hdr) rest
]

unfoldable pub header_bytes : ℕ → ℕ → ℕ → ℕ → Bytes
header_bytes frame_type flags stream_id payload_len =
    bit_and (payload_len / 2 ^ 16) 0xff
    ∷ bit_and (payload_len / 2 ^ 8) 0xff
    ∷ bit_and payload_len 0xff
    ∷ frame_type
    ∷ flags
    ∷ bit_and (stream_id / 2 ^ 24) 0x7f
    ∷ bit_and (stream_id / 2 ^ 16) 0xff
    ∷ bit_and (stream_id / 2 ^ 8) 0xff
    ∷ bit_and stream_id 0xff
    ∷ []

-- `writeFrame`: what it writes to the stream.
unfoldable pub write_frame : ℕ → ℕ → ℕ → Bytes → Bytes
write_frame frame_type flags stream_id payload =
    let hdr = header_bytes frame_type flags stream_id (length payload) in
    if ltb 0 (length payload) then hdr ++ payload else hdr
