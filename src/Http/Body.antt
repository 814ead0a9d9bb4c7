-- ===== src/Http/Body.antt =====
-- extensions/http/src: Http1BodyReader.cc, body_reader/ContentLengthReader.cc and UntilCloseReader.cc, and
-- body_writer. The buffer that a reader shares with the parser stands by its view, the bytes that wait in it,
-- as Utils/StringBuffer has it. A writer is what it adds to the stream.
pub mod ContentLength
pub mod Chunked
pub mod Create
use coro_test.Common.{
  ℕ, zero, suc, ◌+◌, ◌-◌, min, List, [], ◌∷◌, ◌++◌, Bytes, Bool, true, false, Option, none, some,
  length, take, drop, ltb, leb, ◌==◌, if◌then◌else◌, ◌||◌,
}
use coro_test.Common.Error.{Result, ok, err, ◌>>=◌}
use coro_test.Io.{Pieces, read, flat}

pub data BodyFault : Type 0 where
  closed_early line_too_long too_many_trailers bad_size out_of_fuel : BodyFault

-- What waits in the buffer, and the stream behind it.
pub record Source : Type 0 where
  pub buffer : Bytes
  pub incoming : Pieces

-- All that is to come.
abbrev pub left : Source → Bytes
left s = s.buffer ++ flat s.incoming

-- `prepareWrite`, a read of some bytes and `commitWrite`: `none` at the end of the stream.
unfoldable pub fill : ℕ → Source → Option Source
fill len s =
    let (got, rest) = read len s.incoming in
    if length got == 0 then none else some (record { buffer = s.buffer ++ got; incoming = rest })

-- `memcpy` out of the buffer, and `consume`.
unfoldable pub take_buffered : ℕ → Source → Bytes × Source
take_buffered n s = (take n s.buffer, record s { buffer = drop n s.buffer })

-- `stream_->read`, past the buffer.
unfoldable pub read_stream : ℕ → Source → Bytes × Source
read_stream n s = let (got, rest) = read n s.incoming in (got, record s { incoming = rest })

-- The operations of a body reader of type `R`: `readImpl` and `isComplete`.
pub record BodyReader (R : Type 0) : Type 0 where
  pub read_impl : ℕ → R → Result BodyFault (Bytes × R)
  pub is_complete : R → Bool

pub record ContentLengthReader : Type 0 where
  pub source : Source
  pub content_length : ℕ
  pub bytes_read : ℕ

unfoldable pub read_content :
    ℕ → ContentLengthReader → Result BodyFault (Bytes × ContentLengthReader)
read_content len r =
    let remaining = r.content_length - r.bytes_read in
    let available = length r.source.buffer in
    let advance = λ (out : Bytes × Source). record r {
      source = out.1;
      bytes_read = r.bytes_read + length out.0;
    } in
    let buffered = take_buffered (min len (min available remaining)) r.source in
    let streamed = read_stream (min len remaining) r.source in
    if leb r.content_length r.bytes_read
    then ok ([], r)
    else if ltb 0 available
    then ok (buffered.0, advance buffered)
    else if length streamed.0 == 0
    then err closed_early
    else ok (streamed.0, advance streamed)

unfoldable pub content_length_reader : BodyReader ContentLengthReader
content_length_reader = record {
  read_impl = read_content;
  is_complete = λ r. leb r.content_length r.bytes_read;
}

pub record UntilCloseReader : Type 0 where
  pub source : Source
  pub complete : Bool

unfoldable pub read_until_close : ℕ → UntilCloseReader → Result BodyFault (Bytes × UntilCloseReader)
read_until_close len r =
    let available = length r.source.buffer in
    let buffered = take_buffered (min len available) r.source in
    let streamed = read_stream len r.source in
    if r.complete
    then ok ([], r)
    else if ltb 0 available
    then ok (buffered.0, record r { source = buffered.1 })
    else ok (streamed.0, record r { source = streamed.1; complete = length streamed.0 == 0 })

unfoldable pub until_close_reader : BodyReader UntilCloseReader
until_close_reader = record { read_impl = read_until_close; is_complete = λ r. r.complete }

module _ {R : Type 0} (reader : BodyReader R) where
  -- `Http1BodyReader::read`
  unfoldable pub read_body : Bool → ℕ → R → Result BodyFault (Bytes × R)
  read_body draining len r =
      if draining || reader.is_complete r then ok ([], r) else reader.read_impl len r

  -- The loop of `drain`, with the bytes that it passes over, and with any positive lengths in place
  -- of 4096.
  unfoldable pub drain_loop : ℕ → (ℕ → ℕ) → R → Result BodyFault (Bytes × R)
  drain_loop zero lens r = err out_of_fuel
  drain_loop (suc fuel) lens r =
      if reader.is_complete r
      then ok ([], r)
      else (reader.read_impl (lens fuel) r >>= λ (got, r').
          if length got == 0
          then ok ([], r')
          else (drain_loop fuel lens r' >>= λ (more, last). ok (got ++ more, last)))

-- `ContentLengthWriter` and `UntilCloseWriter`: what a write adds to the stream.
pub record ContentLengthWriter : Type 0 where
  pub written : Bytes
  pub bytes_written : ℕ

unfoldable pub write_content : ContentLengthWriter → Bytes → ContentLengthWriter
write_content w bytes = record {
  written = w.written ++ bytes;
  bytes_written = w.bytes_written + length bytes;
}

unfoldable pub write_until_close : Bytes → Bytes → Bytes
write_until_close written bytes = written ++ bytes
