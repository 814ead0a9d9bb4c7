-- ===== src/Tests/Body.antt =====
-- extensions/http/src: body_reader and body_writer, with bodies that come in parts.
use coro_test.Common.{refl, [], ◌∷◌, arith, codes}
use coro_test.Common.Order.{lt_wf}
use native.Mathlib.Decide.{dec_lt}
use coro_test.Http.Body.{Source, drain_loop, content_length_reader}
use coro_test.Http.Body.ContentLength.{Drained, drain-Drained}
use coro_test.Http.Body.Chunked.{
  write_chunk, end_chunks, to_hex, hex_text, hex_digit, chunked_reader, new_chunked_reader,
}
use coro_test.Http.Body.Chunked.Sizes.{write_chunks}
use coro_test.Http.Body.Chunked.RoundTrip.{Drains, drain-write_chunks}
use coro_test.Http.Parser.Request.{chunked}
use coro_test.Http.Body.Create.{
  create_reader, http1_body_reader, create_writer, write_parts, write_body, end_body,
}
use coro_test.Http.Body.Create.Modes.{Delivers, drain-write_parts}

-- Two bytes wait, and four more come in two parts.
abbrev in_parts : Source
in_parts = record { buffer = codes "ab"; incoming = codes "c" ∷ codes "def" ∷ [] }

drain-Drained_example : Drained 4 (codes "abcdef") (
    drain_loop content_length_reader 5
      (λ i. 4096)
      (record { source = in_parts; content_length = 4; bytes_read = 0 }))
drain-Drained_example =
    drain-Drained (λ i. 4096) in_parts 4 (omega arith, (omega arith, tt)) (λ i. omega arith)

-- A chunk that comes in three parts, its size cut off from its line end.
abbrev chunked_parts : Source
chunked_parts = record {
  buffer = codes "5\r";
  incoming = codes "\nhel" ∷ codes "lo\r\n0\r\n\r" ∷ codes "\nGET" ∷ [];
}

drain-write_chunks_example :
    Drains
      (codes "GET")
      (codes "hello")
      (drain_loop chunked_reader 6 (λ i. 4096) (new_chunked_reader chunked_parts))
unfolding write_chunks write_chunk end_chunks to_hex hex_text hex_digit lt_wf dec_lt
drain-write_chunks_example =
    drain-write_chunks (λ i. 4096) chunked_parts (codes "hello" ∷ []) (codes "GET")
      (omega arith, (omega arith, (omega arith, tt))) (λ i. omega arith)
      ((omega arith, omega arith), tt) refl

-- The same chunk, sent between two empty writes.
drain-write_parts_example :
    Delivers chunked_parts
      (codes "hello")
      (codes "GET")
      (drain_loop http1_body_reader 6 (λ i. 4096) (create_reader chunked 0 chunked_parts))
unfolding create_writer write_parts write_body end_body write_chunk end_chunks to_hex hex_text
    hex_digit lt_wf dec_lt
drain-write_parts_example =
    drain-write_parts chunked 0 ([] ∷ codes "hello" ∷ [] ∷ []) (codes "GET") chunked_parts
      (λ i. 4096) (omega arith, (omega arith, (omega arith, tt))) (λ i. omega arith)
      (omega arith, (omega arith, (omega arith, tt))) tt refl
