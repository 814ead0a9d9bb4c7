-- ===== src/Http/Body/Chunked/RoundTrip.antt =====
-- What ChunkedWriter.cc writes, ChunkedReader.cc reads, in extensions/http/src.
use coro_test.Common.{
  ℕ, zero, suc, ◌+◌, ◌-◌, ◌≤◌, ◌<◌, ◌≡◌, refl, sym, ap, ◌∙◌, min, List, [], ◌∷◌, ◌++◌, Bytes, false,
  arith, length, take, drop, All, ltb, leb, ◌==◌, if◌then◌else◌, if_elim, length-append,
  append_assoc, append-nil, split_front, take-append-drop, length-take, drop_all, length-drop,
}
use coro_test.Common.Error.{Result, ok, err, ◌>>=◌}
use coro_test.Io.{Pieces, read, flat, IsOpen}
use coro_test.Io.Exact.{ReadLaw, read-ReadLaw}
use coro_test.Http.Body.{
  Source, left, BodyFault, closed_early, take_buffered, read_stream, drain_loop,
}
use coro_test.Http.Body.Chunked.{
  write_chunk, ChunkState, read_size, read_data, complete, ChunkedReader, after_data, read_chunk,
  read_sized, read_chunked, chunked_reader, new_chunked_reader, is_complete_state,
}
use coro_test.Http.Body.Chunked.Lines.{crlf, skip_crlf_lem}
use coro_test.Http.Body.Chunked.Sizes.{
  write_chunks, join, IsChunk, write_chunk-shape, parse_chunk_size_lem, end_chunks_lem,
}

abbrev reader_at : ChunkState → Source → ℕ → ℕ → ChunkedReader
reader_at state s n m = record {
  source = s;
  state = state;
  current_chunk_size = n;
  current_chunk_read = m;
}

-- A reader before a chunk or inside one, of a stream that goes on with chunks and then `more`, and what it
-- has still to give.
data Ahead (more : Bytes) : ChunkedReader → Bytes → Type 0 where
  between :
      (chunks : List Bytes) {s : Source} {n m : ℕ}
      → IsOpen s.incoming
      → All IsChunk chunks
      → left s ≡ write_chunks chunks ++ more
      → Ahead more (reader_at read_size s n m) (join chunks)
  inside :
      (chunks : List Bytes) (rest : Bytes) {s : Source} {n m : ℕ}
      → IsOpen s.incoming
      → All IsChunk chunks
      → left s ≡ rest ++ crlf (write_chunks chunks ++ more)
      → n - m ≡ length rest
      → 0 < length rest
      → Ahead more (reader_at read_data s n m) (rest ++ join chunks)

-- One read of it.
data Step (more out : Bytes) : Result BodyFault (Bytes × ChunkedReader) → Type 0 where
  reads :
      {got out' : Bytes} {r : ChunkedReader}
      → got ++ out' ≡ out
      → 0 < length got
      → Ahead more r out'
      → Step more out (ok (got, r))
  finished :
      {s : Source} → out ≡ [] → left s ≡ more → Step more out (ok ([], reader_at complete s 0 0))

after_data-Step :
    (more : Bytes) (chunks : List Bytes) (rest : Bytes) (n m : ℕ) (s0 : Source) (got : Bytes)
    (s : Source)
    → All IsChunk chunks
    → n - m ≡ length rest
    → got ++ left s ≡ rest ++ crlf (write_chunks chunks ++ more)
    → 0 < length got
    → length got ≤ n - m
    → IsOpen s.incoming
    → Step more (rest ++ join chunks) (after_data (reader_at read_data s0 n m) (got, s))
unfolding after_data
after_data-Step more chunks rest n m s0 got s good size e some_got bound op =
    let (same, behind) =
      split_front rest (crlf (write_chunks chunks ++ more)) got (left s) (sym e) (omega arith) in
    let rest' = drop (length got) rest in
    let size' = length-drop (length got) rest in
    if_elim (Step more (rest ++ join chunks)) (leb n (m + length got))
      (λ done.
        let used : rest' ≡ [] = drop_all (length got) rest (ground arith) in
        let whole : got ≡ rest =
          sym (append-nil got) ∙ ap (λ (b : Bytes). got ++ b) (sym used) ∙ sym same in
        let (s', skips, after, op') =
          skip_crlf_lem 3 s 13 10 (write_chunks chunks ++ more) op
            (sym behind ∙ ap (λ (b : Bytes). b ++ crlf (write_chunks chunks ++ more)) used)
            (omega arith) in
        rw skips (
          reads (ap (λ (b : Bytes). b ++ join chunks) whole) some_got
            (between chunks op' good after)))
      (λ goes_on.
        reads
          (sym (append_assoc got rest' (join chunks))
            ∙ ap (λ (b : Bytes). b ++ join chunks) (sym same))
          some_got (inside chunks rest' op good (sym behind) (ground arith) (ground arith)))

read_chunk-Step :
    (more : Bytes) (chunks : List Bytes) (rest : Bytes) (len n m : ℕ) (s : Source)
    → IsOpen s.incoming
    → All IsChunk chunks
    → left s ≡ rest ++ crlf (write_chunks chunks ++ more)
    → n - m ≡ length rest
    → 0 < length rest
    → 0 < len
    → Step more (rest ++ join chunks) (read_chunk len (reader_at read_data s n m))
unfolding read_chunk take_buffered read_stream
read_chunk-Step more chunks rest len n m s op good e size wants pos =
    if_elim (Step more (rest ++ join chunks)) (ltb 0 (length s.buffer))
      (λ waiting.
        let k = min (length s.buffer) (min (n - m) len) in
        let got_size = length-take k s.buffer in
        after_data-Step more chunks rest n m s (take k s.buffer)
          (record s { buffer = drop k s.buffer }) good size
          (sym (append_assoc (take k s.buffer) (drop k s.buffer) (flat s.incoming))
            ∙ ap (λ (b : Bytes). b ++ flat s.incoming) (take-append-drop k s.buffer)
            ∙ e)
          (ground arith) (ground arith) op)
      (λ dry.
        let empty : s.buffer ≡ [] = drop_all 0 s.buffer (ground arith) in
        streamed empty (read (min len (n - m)) s.incoming)
          (read-ReadLaw s.incoming (min len (n - m)) op (omega arith)))
  where
    streamed :
        s.buffer ≡ []
        → (x : Bytes × Pieces) → ReadLaw s.incoming (min len (n - m)) x
        → Step more (rest ++ join chunks) (
            if length x.0 == 0
            then err closed_early
            else after_data (reader_at read_data s n m) (x.0, record s { incoming = x.1 }))
    streamed empty (got, after) (eq, bound, op', at_end) =
        let to_come : flat s.incoming ≡ rest ++ crlf (write_chunks chunks ++ more) =
          sym (ap (λ (b : Bytes). b ++ flat s.incoming) empty) ∙ e in
        if_elim (Step more (rest ++ join chunks)) (length got == 0)
          (λ nothing. absurd (
            omega (
              arith,
              ap (length {A = ℕ}) (sym to_come ∙ at_end (ground arith)),
              length-append rest (crlf (write_chunks chunks ++ more)),
            )))
          (λ something.
            after_data-Step more chunks rest n m s got (record s { incoming = after }) good size
              (rw empty (eq ∙ to_come)) (ground arith) (omega arith) op')

-- A read once the size of the next chunk is known.
read_chunked-Step :
    (more out : Bytes) (len : ℕ) (r : ChunkedReader)
    → Ahead more r out
    → 0 < len
    → Step more out (read_chunked len r.state r)
unfolding read_chunked read_sized write_chunks
read_chunked-Step more _ len _ (inside chunks rest {s} {n} {m} op good e size wants) pos =
    read_chunk-Step more chunks rest len n m s op good e size wants pos
read_chunked-Step more _ len _ (between [] {s} {n} {m} op good e) pos =
    let (s', parses, after, op') = end_chunks_lem (reader_at read_size s n m) more op e in
    rw parses (finished refl after)
read_chunked-Step more _ len _ (between ([] ∷ chunks) op ((empty, small), good) e) pos =
    absurd (omega arith)
read_chunked-Step more _ len _
      (between ((c ∷ bytes) ∷ chunks) {s} {n} {m} op ((some_bytes, small), good) e) pos =
    let shape =
      append_assoc (write_chunk (c ∷ bytes)) (write_chunks chunks) more
      ∙ write_chunk-shape (c ∷ bytes) (write_chunks chunks ++ more) some_bytes in
    let (s', parses, after, op') =
      parse_chunk_size_lem (reader_at read_size s n m) (length bytes) _ op (e ∙ shape) small in
    rw parses (
      read_chunk-Step more chunks (c ∷ bytes) len (suc (length bytes)) 0 s' op' good after
        (omega arith) some_bytes pos)

-- What a drain gives: `out`, with a reader that is complete, and `more` left.
pub data Drains (more out : Bytes) : Result BodyFault (Bytes × ChunkedReader) → Type 0 where
  drained : {s : Source} → left s ≡ more → Drains more out (ok (out, reader_at complete s 0 0))

Drains-step :
    (more out got out' : Bytes) (x : Result BodyFault (Bytes × ChunkedReader))
    → got ++ out' ≡ out
    → Drains more out' x
    → Drains more out (x >>= λ (bytes, last). ok (got ++ bytes, last))
Drains-step more out got out' _ e (drained after) = rw e (drained after)

Ahead-state :
    (more out : Bytes) (r : ChunkedReader) → Ahead more r out → is_complete_state r.state ≡ false
Ahead-state more _ _ (between chunks op good e) = refl
Ahead-state more _ _ (inside chunks rest op good e size wants) = refl

drain_loop-Drains :
    (fuel : ℕ) (lens : ℕ → ℕ) (more out : Bytes) (r : ChunkedReader)
    → ((i : ℕ) → 0 < lens i)
    → Ahead more r out
    → length out < fuel
    → Drains more out (drain_loop chunked_reader fuel lens r)
unfolding drain_loop chunked_reader
drain_loop-Drains zero lens more out r pos ahead enough = absurd (omega arith)
drain_loop-Drains (suc fuel) lens more out r pos ahead enough =
    let unfinished : is_complete_state r.state ≡ false = Ahead-state more out r ahead in
    rw unfinished (
      go (read_chunked (lens fuel) r.state r)
        (read_chunked-Step more out (lens fuel) r ahead (pos fuel))
        (λ out' r' ahead' h. drain_loop-Drains fuel lens more out' r' pos ahead' h))
  where
    go :
        (x : Result BodyFault (Bytes × ChunkedReader))
        → Step more out x
        → ((out' : Bytes) (r' : ChunkedReader)
            → Ahead more r' out'
            → length out' < fuel
            → Drains more out' (drain_loop chunked_reader fuel lens r'))
        → Drains more out (
            x >>= λ (got, r').
            if length got == 0
            then ok ([], r')
            else (drain_loop chunked_reader fuel lens r' >>= λ (bytes, last).
                ok (got ++ bytes, last)))
    go _ (finished nothing after) again = rw nothing (drained after)
    go _ (reads {got} {out'} {r = r'} e some_got ahead') again =
        let goes_on : (length got == 0) ≡ false = ground arith in
        rw goes_on (
          Drains-step more out got out' (drain_loop chunked_reader fuel lens r') e
            (again out' r' ahead' (omega (arith, ap (length {A = ℕ}) e, length-append got out'))))

-- A body that the writer sends in chunks is what the reader gives, whatever parts the stream comes in, whatever
-- positive lengths are asked for, and whatever part of it waits in the buffer: the drain ends complete, with what
-- follows the body left for the next message. As many rounds as bytes, and one more, are enough. The chunks are
-- not empty, and below 2^52 bytes.
pub drain-write_chunks :
    (lens : ℕ → ℕ) (s : Source) (chunks : List Bytes) (more : Bytes)
    → IsOpen s.incoming
    → ((i : ℕ) → 0 < lens i)
    → All IsChunk chunks
    → left s ≡ write_chunks chunks ++ more
    → Drains more
        (join chunks)
        (drain_loop chunked_reader (suc (length (join chunks))) lens (new_chunked_reader s))
unfolding new_chunked_reader
drain-write_chunks lens s chunks more op pos good e =
    drain_loop-Drains (suc (length (join chunks))) lens more (join chunks)
      (reader_at read_size s 0 0) pos (between chunks op good e) (omega arith)
