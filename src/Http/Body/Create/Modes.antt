-- ===== src/Http/Body/Create/Modes.antt =====
-- extensions/http/src: what a writer of a transfer mode writes, the reader of the mode reads.
use coro_test.Common.{
  ℕ, zero, suc, ◌+◌, subst, ◌^◌, ◌<◌, ◌≡◌, refl, sym, ap, ◌∙◌, List, [], ◌∷◌, ◌++◌, Bytes, false,
  arith, length, All, length-append, append_assoc, append-nil, append_split,
}
use coro_test.Common.Error.{Result, ok}
use coro_test.Io.{IsOpen}
use coro_test.Http.Parser.Request.{TransferMode, by_content_length, chunked, until_close}
use coro_test.Http.Body.{
  BodyFault, Source, left, drain_loop, ContentLengthReader, content_length_reader, UntilCloseReader,
  until_close_reader, write_content, write_until_close,
}
use coro_test.Http.Body.ContentLength.{Drained, whole, cut_off, drain-Drained}
use coro_test.Http.Body.Chunked.{ChunkedReader, chunked_reader, new_chunked_reader, write_chunk}
use coro_test.Http.Body.Chunked.Sizes.{write_chunks, join, IsChunk}
use coro_test.Http.Body.Chunked.RoundTrip.{Drains, drained, drain-write_chunks}
use coro_test.Http.Body.Create.{
  Http1BodyReader, noop, of_length, of_chunks, of_stream, create_reader, wrapped, read_impl_of,
  is_complete_of, http1_body_reader, source_of, to_length, to_stream, to_chunks, create_writer,
  write_body, end_body, written_by, write_parts,
}
use coro_test.Http.Body.Create.Readers.{Emptied, emptied, drain_loop-Emptied, drain_loop-wrapped}

-- The parts that are sent: an empty write sends nothing.
abbrev sent : List Bytes → List Bytes
sent [] = []
sent ([] ∷ parts) = sent parts
sent ((c ∷ bytes) ∷ parts) = (c ∷ bytes) ∷ sent parts

abbrev pub IsSmall : Bytes → Type 0
IsSmall bytes = length bytes < 2 ^ 52

join-sent : (parts : List Bytes) → join (sent parts) ≡ join parts
join-sent [] = refl
join-sent ([] ∷ parts) = join-sent parts
join-sent ((c ∷ bytes) ∷ parts) = ap (λ (b : Bytes). (c ∷ bytes) ++ b) (join-sent parts)

sent-IsChunk : (parts : List Bytes) → All IsSmall parts → All IsChunk (sent parts)
sent-IsChunk [] small = tt
sent-IsChunk ([] ∷ parts) (h, small) = sent-IsChunk parts small
sent-IsChunk ((c ∷ bytes) ∷ parts) (h, small) = ((omega arith, h), sent-IsChunk parts small)

-- What a mode puts on the stream.
abbrev on_stream : TransferMode → List Bytes → Bytes
on_stream by_content_length parts = join parts
on_stream chunked parts = write_chunks (sent parts)
on_stream until_close parts = join parts

written_length :
    (parts : List Bytes) (written : Bytes) (n : ℕ)
    → written_by (write_parts (to_length (record { written = written; bytes_written = n })) parts)
      ≡ written ++ join parts
unfolding write_parts write_body end_body write_content
written_length [] written n = sym (append-nil written)
written_length (bytes ∷ parts) written n =
    written_length parts (written ++ bytes) (n + length bytes)
    ∙ append_assoc written bytes (join parts)

written_stream :
    (parts : List Bytes) (written : Bytes)
    → written_by (write_parts (to_stream written) parts) ≡ written ++ join parts
unfolding write_parts write_body end_body write_until_close
written_stream [] written = sym (append-nil written)
written_stream (bytes ∷ parts) written =
    written_stream parts (written ++ bytes) ∙ append_assoc written bytes (join parts)

written_chunks :
    (parts : List Bytes) (written : Bytes)
    → written_by (write_parts (to_chunks written) parts) ≡ written ++ write_chunks (sent parts)
unfolding write_parts write_body end_body write_chunks write_chunk
written_chunks [] written = refl
written_chunks ([] ∷ parts) written =
    written_chunks parts (written ++ [])
    ∙ ap (λ (b : Bytes). b ++ write_chunks (sent parts)) (append-nil written)
written_chunks ((c ∷ bytes) ∷ parts) written =
    written_chunks parts (written ++ write_chunk (c ∷ bytes))
    ∙ append_assoc written (write_chunk (c ∷ bytes)) (write_chunks (sent parts))

written_by-on_stream :
    (mode : TransferMode) (parts : List Bytes)
    → written_by (write_parts (create_writer mode) parts) ≡ on_stream mode parts
unfolding create_writer
written_by-on_stream by_content_length parts = written_length parts [] 0
written_by-on_stream chunked parts = written_chunks parts []
written_by-on_stream until_close parts = written_stream parts []

-- What a reader of the mode has to know: the length of the body, or that nothing follows it.
abbrev pub Agrees : TransferMode → ℕ → Bytes → Bytes → Type 0
Agrees by_content_length n body more = n ≡ length body
Agrees chunked n body more = Unit {0}
Agrees until_close n body more = more ≡ []

-- The body, and what is left behind it.
pub data Delivers (s : Source) (body more : Bytes)
    : Result BodyFault (Bytes × Http1BodyReader) → Type 0 where
  delivers :
      {r : Http1BodyReader} → left (source_of s r) ≡ more → Delivers s body more (ok (body, r))

module _ (lens : ℕ → ℕ) (s : Source) (body more : Bytes) where
  nothing_sent :
      (fuel : ℕ)
      → 0 ≡ length body
      → left s ≡ body ++ more
      → Delivers s body more (drain_loop http1_body_reader (suc fuel) lens noop)
  unfolding drain_loop http1_body_reader is_complete_of
  nothing_sent fuel size e = go body size e
    where
      go : (b : Bytes) → 0 ≡ length b → left s ≡ b ++ more → Delivers s b more (ok ([], noop))
      go [] size e = delivers e
      go (c ∷ b) size e = absurd (omega arith)

  of_length-Delivers :
      (n : ℕ) (x : Result BodyFault (Bytes × ContentLengthReader))
      → n ≡ length body
      → left s ≡ body ++ more
      → Drained n (left s) x
      → Delivers s body more (wrapped of_length x)
  of_length-Delivers n _ agrees e (whole {got} {r' = r} size total) =
      let (same, behind) = append_split got (left r.source) body more (total ∙ e) (size ∙ agrees) in
      rw same (delivers behind)
  of_length-Delivers n _ agrees e (cut_off short) =
      absurd (omega (arith, ap (length {A = ℕ}) e, length-append body more))

  of_chunks-Delivers :
      (x : Result BodyFault (Bytes × ChunkedReader))
      → Drains more body x
      → Delivers s body more (wrapped of_chunks x)
  of_chunks-Delivers _ (drained after) = delivers after

  of_stream-Delivers :
      (x : Result BodyFault (Bytes × UntilCloseReader))
      → left s ≡ body
      → more ≡ []
      → Emptied (left s) x
      → Delivers s body more (wrapped of_stream x)
  of_stream-Delivers _ e none_more (emptied nothing) = rw e (delivers (nothing ∙ sym none_more))

read_by-Delivers :
    (mode : TransferMode) (n : ℕ) (parts : List Bytes) (more : Bytes) (s : Source) (lens : ℕ → ℕ)
    → IsOpen s.incoming
    → ((i : ℕ) → 0 < lens i)
    → All IsSmall parts
    → Agrees mode n (join parts) more
    → left s ≡ on_stream mode parts ++ more
    → Delivers s
        (join parts)
        more
        (drain_loop http1_body_reader (suc (length (join parts))) lens (create_reader mode n s))
unfolding create_reader read_impl_of is_complete_of
read_by-Delivers by_content_length zero parts more s lens op pos small agrees e =
    nothing_sent lens s (join parts) more (length (join parts)) agrees e
read_by-Delivers by_content_length (suc n) parts more s lens op pos small agrees e =
    let r : ContentLengthReader = record { source = s; content_length = suc n; bytes_read = 0 } in
    subst
      (λ (k : ℕ).
        Delivers s (join parts) more (drain_loop http1_body_reader (suc k) lens (of_length r)))
      agrees
      (rw
        (drain_loop-wrapped content_length_reader of_length (λ len r'. refl) (λ r'. refl)
          (suc (suc n)) lens r)
        (of_length-Delivers lens s (join parts) more (suc n) _ agrees e
          (drain-Drained lens s (suc n) op pos)))
read_by-Delivers chunked n parts more s lens op pos small agrees e =
    subst
      (λ (body : Bytes).
        Delivers s body more (
          drain_loop http1_body_reader (suc (length body)) lens (of_chunks (new_chunked_reader s))))
      (join-sent parts)
      (rw
        (drain_loop-wrapped chunked_reader of_chunks (λ len r. refl) (λ r. refl)
          (suc (length (join (sent parts)))) lens (new_chunked_reader s))
        (of_chunks-Delivers lens s (join (sent parts)) more _
          (drain-write_chunks lens s (sent parts) more op pos (sent-IsChunk parts small) e)))
read_by-Delivers until_close n parts more s lens op pos small agrees e =
    let all : left s ≡ join parts =
      e ∙ ap (λ (b : Bytes). join parts ++ b) agrees ∙ append-nil (join parts) in
    rw
      (drain_loop-wrapped until_close_reader of_stream (λ len r. refl) (λ r. refl)
        (suc (length (join parts))) lens (record { source = s; complete = false }))
      (of_stream-Delivers lens s (join parts) more _ all agrees (
        drain_loop-Emptied (suc (length (join parts))) lens s op pos
          (omega (arith, ap (length {A = ℕ}) all))))

-- In every transfer mode, the body that a writer wrote in parts, empty ones among them, is what the reader of the
-- mode gives, however the stream is cut and whatever positive lengths are asked for, with what follows left for the
-- next message. The reader is told the length of the body where the mode wants it, and nothing follows a
-- body that ends with the stream. Parts are below 2^52 bytes; one round a byte, and one more, are enough.
pub drain-write_parts :
    (mode : TransferMode) (n : ℕ) (parts : List Bytes) (more : Bytes) (s : Source) (lens : ℕ → ℕ)
    → IsOpen s.incoming
    → ((i : ℕ) → 0 < lens i)
    → All IsSmall parts
    → Agrees mode n (join parts) more
    → left s ≡ written_by (write_parts (create_writer mode) parts) ++ more
    → Delivers s
        (join parts)
        more
        (drain_loop http1_body_reader (suc (length (join parts))) lens (create_reader mode n s))
drain-write_parts mode n parts more s lens op pos small agrees e =
    read_by-Delivers mode n parts more s lens op pos small agrees
      (e ∙ ap (λ (b : Bytes). b ++ more) (written_by-on_stream mode parts))
