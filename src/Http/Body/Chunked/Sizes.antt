-- ===== src/Http/Body/Chunked/Sizes.antt =====
-- The size lines of ChunkedWriter.cc, as ChunkedReader.cc reads them, in extensions/http/src.
use coro_test.Common.{
  ℕ, suc, ◌^◌, ◌<◌, ◌≡◌, refl, ap, ◌∙◌, List, [], ◌∷◌, ◌++◌, Bytes, false, some, arith, length,
  ◌==◌, append_assoc, le→ltb-false,
}
use coro_test.Common.Error.{ok}
use coro_test.Utils.UrlEncode.{hex_val}
use coro_test.Http.Parser.{skip_space}
use coro_test.Io.{IsOpen}
use coro_test.Http.Body.{Source, left}
use coro_test.Http.Body.Chunked.{
  to_hex, hex_stoul, hex_signed, hex_unsigned, skip_prefix, starts_hex, hex_digits_value,
  write_chunk, end_chunks, read_line_within, skip_trailer, read_data, complete, ChunkedReader,
  with_size, parse_chunk_size,
}
use coro_test.Http.Body.Chunked.Hex.{hex_stoul-to_hex, length-to_hex, to_hex-IsNotCr}
use coro_test.Http.Body.Chunked.Lines.{crlf, read_line_lem}

-- The writes of a body, and its end.
unfoldable pub write_chunks : List Bytes → Bytes
write_chunks [] = end_chunks
write_chunks (bytes ∷ more) = write_chunk bytes ++ write_chunks more

abbrev pub join : List Bytes → Bytes
join [] = []
join (bytes ∷ more) = bytes ++ join more

abbrev pub IsChunk : Bytes → Type 0
IsChunk bytes = (0 < length bytes) × (length bytes < 2 ^ 52)

pub write_chunk-shape :
    (bytes more : Bytes)
    → 0 < length bytes
    → write_chunk bytes ++ more ≡ to_hex (length bytes) ++ crlf (bytes ++ crlf more)
unfolding write_chunk
write_chunk-shape bytes more some_bytes =
    let nonempty : (length bytes == 0) ≡ false = ground arith in
    rw nonempty (
      append_assoc (to_hex (length bytes)) _ more
      ∙ ap (λ (t : Bytes). to_hex (length bytes) ++ crlf t) (append_assoc bytes (crlf []) more))

-- The size of a chunk.
pub parse_chunk_size_lem :
    (r : ChunkedReader) (n : ℕ) (more : Bytes)
    → IsOpen r.source.incoming
    → left r.source ≡ to_hex (suc n) ++ crlf more
    → suc n < 2 ^ 52
    → (s : Source) × (parse_chunk_size r
        ≡ ok (record {
          source = s;
          state = read_data;
          current_chunk_size = suc n;
          current_chunk_read = 0;
        }))
      × (left s ≡ more)
      × IsOpen s.incoming
unfolding parse_chunk_size read_line_within with_size
parse_chunk_size_lem r n more op e small =
    let size = length-to_hex (suc n) (omega arith) in
    let (s, reads, rest, op') =
      read_line_lem 65 64 r.source (to_hex (suc n)) more op (to_hex-IsNotCr (suc n)) e (omega arith)
        (omega arith) in
    let fits = le→ltb-false 64 (length (to_hex (suc n))) (omega arith) in
    (s, rw (reads, fits, hex_stoul-to_hex (suc n) (omega arith)) refl, rest, op')

last_size : hex_stoul (b'0' ∷ []) ≡ some 0
unfolding hex_stoul skip_space hex_signed hex_unsigned skip_prefix starts_hex hex_digits_value
    hex_val
last_size = refl

-- The last chunk, with its empty trailer.
pub end_chunks_lem :
    (r : ChunkedReader) (more : Bytes)
    → IsOpen r.source.incoming
    → left r.source ≡ end_chunks ++ more
    → (s : Source) × (parse_chunk_size r
        ≡ ok (record {
          source = s;
          state = complete;
          current_chunk_size = 0;
          current_chunk_read = 0;
        }))
      × (left s ≡ more)
      × IsOpen s.incoming
unfolding parse_chunk_size read_line_within with_size end_chunks skip_trailer
end_chunks_lem r more op e =
    let (s, reads, rest, op') =
      read_line_lem 65 64 r.source (b'0' ∷ []) (crlf more) op (refl, tt) e (omega arith)
        (omega arith) in
    let (s', reads', rest', op'') =
      read_line_lem 8193 8192 s [] more op' tt rest (omega arith) (omega arith) in
    (s', rw (reads, last_size) (rw reads' refl), rest', op'')
