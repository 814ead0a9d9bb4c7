-- ===== src/Http2/Frame/RoundTrip.antt =====
-- `readFrame` reads back what `writeFrame` writes.
use coro_test.Common.{
  ℕ, suc, ◌+◌, ◌*◌, ◌/◌, ◌%◌, ◌^◌, ◌≤◌, ◌<◌, ◌≡◌, refl, ap, ◌∙◌, [], ◌∷◌, ◌++◌, Bytes, some, true,
  arith, length, ltb, bit_and, bit_or, le→ltb-false, lt→ltb,
}
use coro_test.Common.Bitwise.{and_ones, or_shifted}
use coro_test.Io.{Pieces, flat, IsOpen}
use coro_test.Io.Exact.{read_exact, read_exact_prefix}
use coro_test.Http2.Frame.{
  FrameHeader, parse_header, read_payload, read_frame, header_bytes, write_frame,
}

abbrev pub head_of : ℕ → ℕ → ℕ → ℕ → FrameHeader
head_of frame_type flags stream_id size = record {
  payload_length = size;
  frame_type = frame_type;
  flags = flags;
  stream_id = stream_id;
}

-- Two, three and four bytes of a big-endian number.
pub two_bytes : (a b : ℕ) → b < 256 → bit_or (a * 2 ^ 8) b ≡ a * 256 + b
two_bytes a b h = or_shifted 8 a b h

three_bytes :
    (a b c : ℕ)
    → b < 256
    → c < 256
    → bit_or (bit_or (a * 2 ^ 16) (b * 2 ^ 8)) c ≡ (a * 256 + b) * 256 + c
three_bytes a b c hb hc =
    let high : bit_or (a * 2 ^ 16) (b * 2 ^ 8) ≡ a * 2 ^ 16 + b * 2 ^ 8 =
      or_shifted 16 a (b * 2 ^ 8) (omega arith) in
    let shifted : a * 2 ^ 16 + b * 2 ^ 8 ≡ (a * 256 + b) * 2 ^ 8 = omega arith in
    rw (high, shifted) (or_shifted 8 (a * 256 + b) c hc)

pub four_bytes :
    (a b c d : ℕ)
    → b < 256
    → c < 256
    → d < 256
    → bit_or (bit_or (bit_or (a * 2 ^ 24) (b * 2 ^ 16)) (c * 2 ^ 8)) d
      ≡ ((a * 256 + b) * 256 + c) * 256 + d
four_bytes a b c d hb hc hd =
    let high : bit_or (a * 2 ^ 24) (b * 2 ^ 16) ≡ a * 2 ^ 24 + b * 2 ^ 16 =
      or_shifted 24 a (b * 2 ^ 16) (omega arith) in
    let shifted : a * 2 ^ 24 + b * 2 ^ 16 ≡ (a * 256 + b) * 2 ^ 16 = omega arith in
    rw (high, shifted) (three_bytes (a * 256 + b) c d hc hd)

pub byte_of : (v : ℕ) → bit_and v 0xff ≡ v % 256
byte_of v = and_ones 8 v

pub low_seven : (v : ℕ) → bit_and v 0x7f ≡ v % 128
low_seven v = and_ones 7 v

parse_header-header_bytes :
    (frame_type flags stream_id size : ℕ)
    → size < 2 ^ 24
    → stream_id < 2 ^ 31
    → parse_header (header_bytes frame_type flags stream_id size)
      ≡ head_of frame_type flags stream_id size
unfolding parse_header header_bytes
parse_header-header_bytes frame_type flags stream_id size hs hi =
    rw
      (
        byte_of (size / 2 ^ 16),
        byte_of (size / 2 ^ 8),
        byte_of size,
        low_seven (stream_id / 2 ^ 24),
        low_seven (stream_id / 2 ^ 24 % 128),
        byte_of (stream_id / 2 ^ 16),
        byte_of (stream_id / 2 ^ 8),
        byte_of stream_id,
        three_bytes (size / 2 ^ 16 % 256) (size / 2 ^ 8 % 256) (size % 256) (omega arith)
            (omega arith),
        four_bytes (stream_id / 2 ^ 24 % 128 % 128) (stream_id / 2 ^ 16 % 256)
            (stream_id / 2 ^ 8 % 256) (stream_id % 256) (omega arith) (omega arith) (omega arith),
        whole_size,
        whole_id,
      )
      refl
  where
    whole_size : (size / 2 ^ 16 % 256 * 256 + size / 2 ^ 8 % 256) * 256 + size % 256 ≡ size
    whole_size = omega arith

    whole_id :
        ((stream_id / 2 ^ 24 % 128 % 128 * 256 + stream_id / 2 ^ 16 % 256) * 256
              + stream_id / 2 ^ 8 % 256)
            * 256
          + stream_id % 256
        ≡ stream_id
    whole_id = omega arith

write_frame-append :
    (frame_type flags stream_id : ℕ) (payload more : Bytes)
    → write_frame frame_type flags stream_id payload ++ more
      ≡ header_bytes frame_type flags stream_id (length payload) ++ (payload ++ more)
unfolding write_frame header_bytes
write_frame-append frame_type flags stream_id [] more = refl
write_frame-append frame_type flags stream_id (b ∷ payload) more =
    let long : ltb 0 (suc (length payload)) ≡ true = ground arith in rw long

length-header_bytes :
    (frame_type flags stream_id size : ℕ)
    → length (header_bytes frame_type flags stream_id size) ≡ 9
unfolding header_bytes
length-header_bytes frame_type flags stream_id size = refl

read_payload_lem :
    (max frame_type flags stream_id : ℕ) (payload more : Bytes) (rest : Pieces)
    → length payload ≤ max
    → flat rest ≡ payload ++ more
    → IsOpen rest
    → (last : Pieces) × (read_payload max (head_of frame_type flags stream_id (length payload)) rest
        ≡ some (
          record {
            header = head_of frame_type flags stream_id (length payload);
            payload = payload;
          },
          last,
        ))
      × (flat last ≡ more)
      × IsOpen last
unfolding read_payload
read_payload_lem max frame_type flags stream_id [] more rest fits left op =
    let over = le→ltb-false max 0 (omega arith) in (rest, rw over refl, left, op)
read_payload_lem max frame_type flags stream_id (b ∷ payload) more rest fits left op =
    let (last, body, after, op') = read_exact_prefix rest (b ∷ payload) more op left in
    let over = le→ltb-false max (suc (length payload)) fits in
    let long = lt→ltb 0 (suc (length payload)) (omega arith) in
    (last, rw (over, long, body) refl, after, op')

read_frame_step :
    (max : ℕ) (pieces rest : Pieces) (hdr : Bytes) (header : FrameHeader)
    → read_exact 9 pieces ≡ some (hdr, rest)
    → parse_header hdr ≡ header
    → read_frame max pieces ≡ read_payload max header rest
unfolding read_frame
read_frame_step max pieces rest hdr header q p =
    rw (q, read_frame) (ap (λ (h : FrameHeader). read_payload max h rest) p)

abbrev pub ReadsFrame : ℕ → ℕ → ℕ → ℕ → Bytes → Bytes → Pieces → Type 0
ReadsFrame max frame_type flags stream_id payload more pieces =
    (rest : Pieces) × (read_frame max pieces
      ≡ some (
        record { header = head_of frame_type flags stream_id (length payload); payload = payload },
        rest,
      ))
    × (flat rest ≡ more)
    × IsOpen rest

-- A frame that was written is read back with its header and payload, however the network cuts it, and the reader
-- stops at the bytes behind it. The payload is within the reader's limit and shorter than 2^24 bytes, and
-- the number of the stream is below 2^31.
pub read_frame-write_frame :
    (max frame_type flags stream_id : ℕ) (payload more : Bytes) (pieces : Pieces)
    → length payload < 2 ^ 24
    → stream_id < 2 ^ 31
    → length payload ≤ max
    → IsOpen pieces
    → flat pieces ≡ write_frame frame_type flags stream_id payload ++ more
    → ReadsFrame max frame_type flags stream_id payload more pieces
read_frame-write_frame max frame_type flags stream_id payload more pieces hs hi hm op e =
    let hdr = header_bytes frame_type flags stream_id (length payload) in
    let (rest, q, left, op') =
      read_exact_prefix pieces hdr (payload ++ more) op
        (e ∙ write_frame-append frame_type flags stream_id payload more) in
    let nine = length-header_bytes frame_type flags stream_id (length payload) in
    let head = parse_header-header_bytes frame_type flags stream_id (length payload) hs hi in
    let step = read_frame_step max pieces rest hdr _ (rw nine at q) head in
    let (last, body, after, op'') =
      read_payload_lem max frame_type flags stream_id payload more rest hm left op' in
    (last, step ∙ body, after, op'')
