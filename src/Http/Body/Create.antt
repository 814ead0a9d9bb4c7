-- ===== src/Http/Body/Create.antt =====
-- extensions/http/src: Http1BodyReader.cc and Http1BodyWriter.cc, the readers and writers by transfer mode.
pub mod Readers
pub mod Modes
use coro_test.Common.{ℕ, zero, suc, List, [], ◌∷◌, ◌++◌, Bytes, Bool, true, false}
use coro_test.Common.Error.{Result, ok, err, ◌>>=◌}
use coro_test.Http.Parser.Request.{TransferMode, by_content_length, chunked, until_close}
use coro_test.Http.Body.{
  BodyFault, Source, left, BodyReader, ContentLengthReader, content_length_reader, UntilCloseReader,
  until_close_reader, ContentLengthWriter, write_content, write_until_close,
}
use coro_test.Http.Body.Chunked.{
  ChunkedReader, chunked_reader, new_chunked_reader, write_chunk, end_chunks,
}

-- What `Http1BodyReader::create` makes; a `NoopReader` has no buffer of its own.
pub data Http1BodyReader : Type 0 where
  noop : Http1BodyReader
  of_length : ContentLengthReader → Http1BodyReader
  of_chunks : ChunkedReader → Http1BodyReader
  of_stream : UntilCloseReader → Http1BodyReader

unfoldable pub create_reader : TransferMode → ℕ → Source → Http1BodyReader
create_reader by_content_length zero s = noop
create_reader by_content_length (suc n) s =
    of_length (record { source = s; content_length = suc n; bytes_read = 0 })
create_reader chunked n s = of_chunks (new_chunked_reader s)
create_reader until_close n s = of_stream (record { source = s; complete = false })

module _ {R : Type 0} (wrap : R → Http1BodyReader) where
  abbrev pub wrapped : Result BodyFault (Bytes × R) → Result BodyFault (Bytes × Http1BodyReader)
  wrapped x = x >>= λ (got, r). ok (got, wrap r)

-- The virtual `readImpl` and `isComplete`.
unfoldable pub read_impl_of : ℕ → Http1BodyReader → Result BodyFault (Bytes × Http1BodyReader)
read_impl_of len noop = ok ([], noop)
read_impl_of len (of_length r) = wrapped of_length (content_length_reader.read_impl len r)
read_impl_of len (of_chunks r) = wrapped of_chunks (chunked_reader.read_impl len r)
read_impl_of len (of_stream r) = wrapped of_stream (until_close_reader.read_impl len r)

unfoldable pub is_complete_of : Http1BodyReader → Bool
is_complete_of noop = true
is_complete_of (of_length r) = content_length_reader.is_complete r
is_complete_of (of_chunks r) = chunked_reader.is_complete r
is_complete_of (of_stream r) = until_close_reader.is_complete r

unfoldable pub http1_body_reader : BodyReader Http1BodyReader
http1_body_reader = record { read_impl = read_impl_of; is_complete = is_complete_of }

-- The source behind a reader, `s` where it has none.
abbrev pub source_of : Source → Http1BodyReader → Source
source_of s noop = s
source_of s (of_length r) = r.source
source_of s (of_chunks r) = r.source
source_of s (of_stream r) = r.source

-- What `Http1BodyWriter::create` makes, with what was written to the stream so far.
pub data Http1BodyWriter : Type 0 where
  to_length : ContentLengthWriter → Http1BodyWriter
  to_stream : Bytes → Http1BodyWriter
  to_chunks : Bytes → Http1BodyWriter

unfoldable pub create_writer : TransferMode → Http1BodyWriter
create_writer by_content_length = to_length (record { written = []; bytes_written = 0 })
create_writer until_close = to_stream []
create_writer chunked = to_chunks []

-- The virtual `write` and `end`.
unfoldable pub write_body : Http1BodyWriter → Bytes → Http1BodyWriter
write_body (to_length w) bytes = to_length (write_content w bytes)
write_body (to_stream written) bytes = to_stream (write_until_close written bytes)
write_body (to_chunks written) bytes = to_chunks (written ++ write_chunk bytes)

unfoldable pub end_body : Http1BodyWriter → Http1BodyWriter
end_body (to_length w) = to_length w
end_body (to_stream written) = to_stream written
end_body (to_chunks written) = to_chunks (written ++ end_chunks)

abbrev pub written_by : Http1BodyWriter → Bytes
written_by (to_length w) = w.written
written_by (to_stream written) = written
written_by (to_chunks written) = written

-- A body: writes, and the end.
unfoldable pub write_parts : Http1BodyWriter → List Bytes → Http1BodyWriter
write_parts w [] = end_body w
write_parts w (bytes ∷ more) = write_parts (write_body w bytes) more
