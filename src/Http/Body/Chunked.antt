-- ===== src/Http/Body/Chunked.antt =====
-- extensions/http/src: body_reader/ChunkedReader.cc and body_writer/ChunkedWriter.cc. `std::stoul` in base
-- 16 is written out; `snprintf` prints sizes that fit its buffer, below 2^52.
pub mod Hex
pub mod Lines
pub mod Sizes
pub mod RoundTrip
use coro_test.Common.{
  ℕ, zero, suc, ◌+◌, ◌-◌, ◌*◌, ◌/◌, ◌%◌, ◌^◌, ◌<◌, min, List, [], ◌∷◌, ◌++◌, Bytes, Bool, true,
  false, not, ◌||◌, ◌&&◌, Option, none, some, length, take, drop, ltb, leb, ◌==◌, if◌then◌else◌,
}
use mathlib.Core.WellFounded.{Acc}
use mathlib.Core.Logic.{dite}
use native.Mathlib.Decide.{dec_lt}
use native.Mathlib.Omega.{arith}
use coro_test.Common.Order.{lt_wf}
use coro_test.Common.Error.{Result, ok, err, ◌>>=◌}
use coro_test.Utils.UrlEncode.{hex_val}
use coro_test.Http.Parser.{skip_space}
use coro_test.Http.Body.{
  BodyFault, closed_early, line_too_long, too_many_trailers, bad_size, out_of_fuel, Source, fill,
  take_buffered, read_stream, BodyReader,
}

abbrev pub is_hex : ℕ → Bool
is_hex c = elim (hex_val c) [ none ↦ false | some d ↦ true ]

abbrev pub hex_or_zero : ℕ → ℕ
hex_or_zero c = elim (hex_val c) [ none ↦ 0 | some d ↦ d ]

-- The digits at the front of a string, as a number.
unfoldable pub hex_digits_value : ℕ → Bytes → ℕ
hex_digits_value value [] = value
hex_digits_value value (c ∷ s) =
    let more = hex_digits_value (value * 16 + hex_or_zero c) s in if is_hex c then more else value

unfoldable pub starts_hex : Bytes → Bool
starts_hex [] = false
starts_hex (c ∷ s) = is_hex c

-- "0x" in front of a digit is skipped.
unfoldable pub skip_prefix : Bytes → Bytes
skip_prefix (a ∷ b ∷ s) =
    if a == b'0'
    then (if b == b'x' || b == b'X' then (if starts_hex s then s else a ∷ b ∷ s) else a ∷ b ∷ s)
    else a ∷ b ∷ s
skip_prefix s = s

unfoldable pub hex_unsigned : Bool → Bytes → Option ℕ
hex_unsigned negative s =
    let value = hex_digits_value 0 (skip_prefix s) in
    if not (starts_hex s)
    then none
    else if leb (2 ^ 64) value
    then none
    else some (if negative then (2 ^ 64 - value) % 2 ^ 64 else value)

unfoldable pub hex_signed : Bytes → Option ℕ
hex_signed [] = none
hex_signed (c ∷ s) =
    if c == b'-'
    then hex_unsigned true s
    else if c == b'+'
    then hex_unsigned false s
    else hex_unsigned false (c ∷ s)

-- `std::stoul(line, nullptr, 16)`, `none` where it throws.
unfoldable pub hex_stoul : Bytes → Option ℕ
hex_stoul s = hex_signed (skip_space s)

-- `%zx`
unfoldable pub hex_digit : ℕ → ℕ
hex_digit d = if ltb d 10 then b'0' + d else b'a' + (d - 10)

pub sixteenth_smaller : (n : ℕ) → 15 < n → n / 16 < n
sixteenth_smaller n h = omega arith

unfoldable pub hex_text : (n : ℕ) → Acc ◌<◌ n → Bytes
hex_text n (Acc.intro _ smaller) =
    dite (dec_lt 15 n)
      (λ more.
        hex_text (n / 16) (smaller _ (sixteenth_smaller n more)) ++ (hex_digit (n % 16) ∷ []))
      (λ _. hex_digit n ∷ [])

unfoldable pub to_hex : ℕ → Bytes
to_hex n = hex_text n (lt_wf.apply n)

-- `ChunkedWriter::write` and `ChunkedWriter::end`: what they add to the stream.
unfoldable pub write_chunk : Bytes → Bytes
write_chunk bytes =
    if length bytes == 0 then [] else to_hex (length bytes) ++ (13 ∷ 10 ∷ (bytes ++ 13 ∷ 10 ∷ []))

unfoldable pub end_chunks : Bytes
end_chunks = b'0' ∷ 13 ∷ 10 ∷ 13 ∷ 10 ∷ []

-- `buffer_->find("\r\n")`: the line before it, and what is behind.
unfoldable pub find_crlf : Bytes → Option (Bytes × Bytes)
find_crlf (a ∷ b ∷ s) =
    let rest = find_crlf (b ∷ s) in
    if a == 13 && b == 10
    then some ([], s)
    else elim rest [ none ↦ none | some (line, behind) ↦ some (a ∷ line, behind) ]
find_crlf s = none

-- A line and its end off the buffer, filled from the stream as far as the limit allows.
unfoldable pub read_line : ℕ → ℕ → Source → Result BodyFault (Bytes × Source)
read_line zero limit s = err out_of_fuel
read_line (suc fuel) limit s = elim (find_crlf s.buffer) [
  | some (line, rest) ↦ ok (line, record s { buffer = rest })
  | none ↦
      if leb limit (length s.buffer)
      then err line_too_long
      else elim (fill 128 s) [ none ↦ err closed_early | some s' ↦ read_line fuel limit s' ]
]

-- A fill brings a byte at least.
unfoldable pub read_line_within : ℕ → Source → Result BodyFault (Bytes × Source)
read_line_within limit s = read_line (suc limit) limit s

unfoldable pub skip_crlf : ℕ → Source → Result BodyFault Source
skip_crlf zero s = err out_of_fuel
skip_crlf (suc fuel) s =
    let next : Result BodyFault Source = elim (fill 128 s) [
      | none ↦ err closed_early
      | some s' ↦ skip_crlf fuel s'
    ] in
    if ltb (length s.buffer) 2 then next else ok (take_buffered 2 s).1

-- `skipTrailer`, with how many more lines it lets pass.
unfoldable pub skip_trailer : ℕ → Source → Result BodyFault Source
skip_trailer zero s = read_line_within 8192 s >>= λ (line, s').
    if length line == 0 then ok s' else err too_many_trailers
skip_trailer (suc lines) s = read_line_within 8192 s >>= λ (line, s').
    if length line == 0 then ok s' else skip_trailer lines s'

pub data ChunkState : Type 0 where
  read_size read_data complete : ChunkState

pub record ChunkedReader : Type 0 where
  pub source : Source
  pub state : ChunkState
  pub current_chunk_size : ℕ
  pub current_chunk_read : ℕ

-- `parseChunkSize` with a line.
unfoldable pub with_size : Source → Option ℕ → Result BodyFault ChunkedReader
with_size s none = err bad_size
with_size s (some zero) = skip_trailer 128 s >>= λ s'.
    ok (record { source = s'; state = complete; current_chunk_size = 0; current_chunk_read = 0 })
with_size s (some (suc n)) =
    ok
      (record { source = s; state = read_data; current_chunk_size = suc n; current_chunk_read = 0 })

unfoldable pub parse_chunk_size : ChunkedReader → Result BodyFault ChunkedReader
parse_chunk_size r = read_line_within 64 r.source >>= λ (line, s).
    if ltb 64 (length line) then err line_too_long else with_size s (hex_stoul line)

-- The end of `readImpl`: the bytes that were read, and the end of the chunk where it is reached.
unfoldable pub after_data :
    ChunkedReader → Bytes × Source → Result BodyFault (Bytes × ChunkedReader)
after_data r (got, s) =
    let r' : ChunkedReader = record r {
      source = s;
      current_chunk_read = r.current_chunk_read + length got;
    } in
    if leb r.current_chunk_size r'.current_chunk_read
    then (skip_crlf 3 s >>= λ s'. ok (got, record r' { source = s'; state = read_size }))
    else ok (got, r')

-- `readImpl` inside a chunk.
unfoldable pub read_chunk : ℕ → ChunkedReader → Result BodyFault (Bytes × ChunkedReader)
read_chunk len r =
    let available = length r.source.buffer in
    let remaining = r.current_chunk_size - r.current_chunk_read in
    let streamed = read_stream (min len remaining) r.source in
    if ltb 0 available
    then after_data r (take_buffered (min available (min remaining len)) r.source)
    else if length streamed.0 == 0
    then err closed_early
    else after_data r streamed

-- `readImpl` once the size of the chunk is known.
unfoldable pub read_sized :
    ℕ → ChunkState → ChunkedReader → Result BodyFault (Bytes × ChunkedReader)
read_sized len complete r = ok ([], r)
read_sized len read_size r = read_chunk len r
read_sized len read_data r = read_chunk len r

unfoldable pub read_chunked :
    ℕ → ChunkState → ChunkedReader → Result BodyFault (Bytes × ChunkedReader)
read_chunked len complete r = ok ([], r)
read_chunked len read_size r = parse_chunk_size r >>= λ r'. read_sized len r'.state r'
read_chunked len read_data r = read_chunk len r

abbrev pub is_complete_state : ChunkState → Bool
is_complete_state complete = true
is_complete_state _ = false

unfoldable pub chunked_reader : BodyReader ChunkedReader
chunked_reader = record {
  read_impl = λ len r. read_chunked len r.state r;
  is_complete = λ r. is_complete_state r.state;
}

unfoldable pub new_chunked_reader : Source → ChunkedReader
new_chunked_reader s = record {
  source = s;
  state = read_size;
  current_chunk_size = 0;
  current_chunk_read = 0;
}
