-- ===== src/Http2/Session/Delivery.antt =====
-- What DATA frames bring: `handleData` of extensions/http2/src/Http2Session.cc against the layout of
-- RFC 7540, section 6.1.
use coro_test.Common.{
  ℕ, ◌+◌, ◌-◌, ◌*◌, ◌/◌, ◌%◌, ◌^◌, ◌<◌, ◌≡◌, ◌≢◌, ◌⊎◌, ◌∙◌, append_assoc, inl, inr, refl, [], ◌∷◌,
  ◌++◌, Bytes, Bool, true, false, Option, none, some, arith, length, get_elem?, take, drop, not,
  ◌==◌, Bool-cases, length-append, take-append_length, take_all, lt→ltb, le→ltb-false, ==_refl,
  ==_iff,
}
use coro_test.Common.Error.{ok, ◌>>=◌}
use coro_test.Hpack.Text.{is_set}
use coro_test.Http2.Frame.{Frame}
use coro_test.Http2.Frame.RoundTrip
use coro_test.Http2.Frame.RoundTrip.{byte_of, low_seven}
use coro_test.Http2.Types.{window_update_type, end_stream, padded}
use coro_test.Http2.Session.{
  Http2Session, Http2Stream, StreamMap, Written, byte_at, find_stream, set_stream, erase_stream,
  write, four_bytes,
}
use coro_test.Http2.Session.Headers.{read_pad_len, read_u31}
use coro_test.Http2.Session.Control.{close_body, deliver, take_data, handle_data}

-- The payload of a DATA frame: the data, with a length in front and padding behind where it is padded.
unfoldable pub data_payload : Option Bytes → Bytes → Bytes
data_payload none bytes = bytes
data_payload (some padding) bytes = length padding ∷ (bytes ++ padding)

unfoldable pub is_padded : Option Bytes → Bool
is_padded none = false
is_padded (some padding) = true

abbrev update : ℕ → ℕ → Written
update sid n = record {
  frame_type = window_update_type;
  flags = 0;
  stream_id = sid;
  payload = four_bytes 0x7f n;
}

find_stream-erase_stream :
    (sid other : ℕ) (m : StreamMap)
    → other ≢ sid
    → find_stream other (erase_stream sid m) ≡ find_stream other m
unfolding find_stream erase_stream
find_stream-erase_stream sid other [] n = refl
find_stream-erase_stream sid other ((k, stream) ∷ m) n =
    ground (arith, find_stream-erase_stream sid other m n)

-- A number below 2^31 is read back from four bytes.
pub read_u31-four_bytes : (n : ℕ) → n < 2 ^ 31 → read_u31 (four_bytes 0x7f n) 0 ≡ ok n
unfolding read_u31 four_bytes byte_at
read_u31-four_bytes n h =
    rw
      (
        low_seven (n / 2 ^ 24),
        low_seven (n / 2 ^ 24 % 128),
        byte_of (n / 2 ^ 16),
        byte_of (n / 2 ^ 8),
        byte_of n,
        RoundTrip.four_bytes (n / 2 ^ 24 % 128 % 128) (n / 2 ^ 16 % 256) (n / 2 ^ 8 % 256) (n % 256)
            (omega arith) (omega arith) (omega arith),
        whole,
      )
      refl
  where
    whole :
        ((n / 2 ^ 24 % 128 % 128 * 256 + n / 2 ^ 16 % 256) * 256 + n / 2 ^ 8 % 256) * 256 + n % 256
        ≡ n
    whole = omega arith

-- The data stands between the pad length and the padding.
take_data-cut :
    (s : Http2Session) (frame : Frame) (stream : Http2Stream) (pad_len offset : ℕ) (bytes : Bytes)
    → length frame.payload ≡ offset + (length bytes + pad_len)
    → take (length bytes) (drop offset frame.payload) ≡ bytes
    → 0 < length bytes
    → stream.sender_open ≡ true
    → take_data s frame stream pad_len offset ≡ ok (deliver frame stream bytes s)
unfolding take_data
take_data-cut s frame stream pad_len offset bytes size cut some_data opened =
    let fits = le→ltb-false (length frame.payload) (offset + pad_len) (omega arith) in
    let left : length frame.payload - offset - pad_len ≡ length bytes = omega arith in
    rw (fits, left, lt→ltb 0 (length bytes) some_data, opened, cut) refl

handle_data-cut :
    (s : Http2Session) (frame : Frame) (stream : Http2Stream) (padding : Option Bytes)
    (bytes : Bytes)
    → is_set frame.header.flags padded ≡ is_padded padding
    → frame.payload ≡ data_payload padding bytes
    → 0 < length bytes
    → stream.sender_open ≡ true
    → (read_pad_len frame >>= λ (pad_len, offset). take_data s frame stream pad_len offset)
      ≡ ok (deliver frame stream bytes s)
unfolding is_padded data_payload read_pad_len byte_at
handle_data-cut s frame stream none bytes flag layout some_data opened = rw flag (
    take_data-cut s frame stream 0 0 bytes (rw layout (omega arith))
      (rw layout (take_all (length bytes) bytes (omega arith))) some_data opened)
handle_data-cut s frame stream (some padding) bytes flag layout some_data opened =
    let first : get_elem? frame.payload 0 ≡ some (length padding) = rw layout refl in
    rw (flag, first, byte_at)
      (take_data-cut s frame stream (length padding) 1 bytes
        (rw layout (omega (arith, length-append bytes padding)))
        (rw layout (take-append_length bytes padding)) some_data opened)

-- What a delivery does to the streams and to what is written.
pub record IsDelivered (s s' : Http2Session) (frame : Frame) (stream : Http2Stream) (bytes : Bytes)
    (other : ℕ) : Type 0 where
  pub stream_grows :
      find_stream frame.header.stream_id s'.streams
      ≡ some (record stream {
        body = stream.body ++ bytes ∷ [];
        sender_open = not (is_set frame.header.flags end_stream);
      })
  pub others_stay :
      (other ≡ frame.header.stream_id)
      ⊎ (find_stream other s'.streams ≡ find_stream other s.streams)
  pub windows_open :
      s'.sent
      ≡ s.sent ++ update 0 (length bytes) ∷ update frame.header.stream_id (length bytes) ∷ []
  pub by_the_length : read_u31 (four_bytes 0x7f (length bytes)) 0 ≡ ok (length bytes)

find_stream-set_stream :
    (sid : ℕ) (stream : Http2Stream) (m : StreamMap)
    → find_stream sid (set_stream sid stream m) ≡ some stream
unfolding find_stream set_stream
find_stream-set_stream sid stream m = rw (==_refl sid) refl

find_stream-set_stream_other :
    (sid other : ℕ) (stream : Http2Stream) (m : StreamMap)
    → other ≢ sid
    → find_stream other (set_stream sid stream m) ≡ find_stream other m
unfolding find_stream set_stream
find_stream-set_stream_other sid other stream m n =
    ground (arith, find_stream-erase_stream sid other m n)

deliver-IsDelivered :
    (s : Http2Session) (frame : Frame) (stream : Http2Stream) (bytes : Bytes) (other : ℕ)
    → length bytes < 2 ^ 31
    → stream.sender_open ≡ true
    → IsDelivered s (deliver frame stream bytes s) frame stream bytes other
unfolding deliver close_body write
deliver-IsDelivered s frame stream bytes other small opened =
    elim (Bool-cases (is_set frame.header.flags end_stream)) [
      | inl last ↦ rw last record {
        stream_grows = rw last (find_stream-set_stream sid _ (set_stream sid grown s.streams));
        others_stay =
            stay
              (set_stream sid (record grown { sender_open = false })
                (set_stream sid grown s.streams))
              (λ n.
                find_stream-set_stream_other sid other (record grown { sender_open = false })
                  (set_stream sid grown s.streams) n
                ∙ find_stream-set_stream_other sid other grown s.streams n);
        windows_open = append_assoc s.sent _ _;
        by_the_length = read_u31-four_bytes (length bytes) small;
      }
      | inr more ↦ rw more record {
        stream_grows = rw (more, ← opened) (find_stream-set_stream sid grown s.streams);
        others_stay =
            stay (set_stream sid grown s.streams)
              (find_stream-set_stream_other sid other grown s.streams);
        windows_open = append_assoc s.sent _ _;
        by_the_length = read_u31-four_bytes (length bytes) small;
      }
    ]
  where
    sid : ℕ
    sid = frame.header.stream_id

    grown : Http2Stream
    grown = record stream { body = stream.body ++ bytes ∷ [] }

    stay :
        (m : StreamMap)
        → (other ≢ sid → find_stream other m ≡ find_stream other s.streams)
        → (other ≡ sid) ⊎ (find_stream other m ≡ find_stream other s.streams)
    stay m h = elim (Bool-cases (other == sid)) [
      | inl same ↦ inl ((==_iff other sid).0 same)
      | inr apart ↦ inr (h (λ e. absurd (ground arith)))
    ]

-- A DATA frame with data for a stream whose body is still open, padded or not: exactly the data joins the body of that
-- stream, no other stream changes, and the windows of the connection and of the stream are opened again by the
-- length of the data. The END_STREAM flag closes the body.
pub handle_data-IsDelivered :
    (s : Http2Session) (frame : Frame) (stream : Http2Stream) (padding : Option Bytes)
    (bytes : Bytes) (other : ℕ)
    → frame.header.stream_id ≢ 0
    → find_stream frame.header.stream_id s.streams ≡ some stream
    → stream.sender_open ≡ true
    → is_set frame.header.flags padded ≡ is_padded padding
    → frame.payload ≡ data_payload padding bytes
    → 0 < length bytes
    → length bytes < 2 ^ 31
    → (s' : Http2Session) × (handle_data s frame ≡ ok s')
      × IsDelivered s s' frame stream bytes other
unfolding handle_data
handle_data-IsDelivered s frame stream padding bytes other nonzero there opened flag layout
      some_data small =
    let not_zero : (frame.header.stream_id == 0) ≡ false = ground arith in
    (
      deliver frame stream bytes s,
      rw (not_zero, there)
          (handle_data-cut s frame stream padding bytes flag layout some_data opened),
      deliver-IsDelivered s frame stream bytes other small opened,
    )
