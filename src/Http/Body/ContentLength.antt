-- ===== src/Http/Body/ContentLength.antt =====
-- extensions/http/src/body_reader/ContentLengthReader.cc: a body of a known length, over a buffer and a
-- stream that is cut in any way.
use coro_test.Common.{
  ℕ, zero, suc, ◌+◌, ◌-◌, ◌<◌, ◌≡◌, inl, inr, refl, sym, ap, subst, ◌∙◌, min, [], ◌++◌, Bytes,
  false, arith, length, take, drop, ltb, leb, ◌==◌, if◌then◌else◌, Bool-cases, append_assoc,
  length-append, length-take, take-append-drop, drop_all, if_elim,
}
use coro_test.Common.Error.{Result, ok, err, ◌>>=◌}
use coro_test.Io.{Pieces, read, flat, IsOpen}
use coro_test.Io.Exact.{ReadLaw, read-ReadLaw}
use coro_test.Http.Body.{
  BodyFault, closed_early, Source, left, take_buffered, read_stream, ContentLengthReader,
  read_content, content_length_reader, drain_loop,
}

-- One read of a reader that wants `k` more bytes.
pub data Step (r : ContentLengthReader) (k : ℕ)
    : Result BodyFault (Bytes × ContentLengthReader) → Type 0 where
  reads :
      {got : Bytes} {r' : ContentLengthReader}
      → got ++ left r'.source ≡ left r.source
      → 0 < length got
      → r'.content_length - r'.bytes_read + length got ≡ k
      → IsOpen r'.source.incoming
      → Step r k (ok (got, r'))
  ended : left r.source ≡ [] → Step r k (err closed_early)

read_content-Step :
    (len : ℕ) (r : ContentLengthReader)
    → IsOpen r.source.incoming
    → 0 < len
    → r.bytes_read < r.content_length
    → Step r (r.content_length - r.bytes_read) (read_content len r)
unfolding read_content take_buffered read_stream
read_content-Step len r op pos wants =
    let unfinished : leb r.content_length r.bytes_read ≡ false = ground arith in
    elim (Bool-cases (ltb 0 (length r.source.buffer))) [
      | inl waiting ↦
          let n = min len (min (length r.source.buffer) (r.content_length - r.bytes_read)) in
          let size : length (take n r.source.buffer) ≡ n =
            omega (arith, length-take n r.source.buffer) in
          rw (unfinished, waiting)
            (reads
              (sym (append_assoc (take n r.source.buffer) (drop n r.source.buffer) _)
                ∙ ap (λ (b : Bytes). b ++ flat r.source.incoming)
                    (take-append-drop n r.source.buffer))
              (ground arith) (ground arith) op)
      | inr dry ↦
          rw (unfinished, dry)
            (streamed (read (min len (r.content_length - r.bytes_read)) r.source.incoming)
              (read-ReadLaw r.source.incoming (min len (r.content_length - r.bytes_read)) op
                (omega arith))
              (ground arith))
    ]
  where
    streamed :
        (x : Bytes × Pieces)
        → ReadLaw r.source.incoming (min len (r.content_length - r.bytes_read)) x
        → length r.source.buffer ≡ 0
        → Step r (r.content_length - r.bytes_read) (
            if length x.0 == 0
            then err closed_early
            else ok (
              x.0,
              record r {
                source = record r.source { incoming = x.1 };
                bytes_read = r.bytes_read + length x.0;
              },
            ))
    streamed (got, rest) (eq, bound, op', at_end) dry =
        let empty : r.source.buffer ≡ [] = drop_all 0 r.source.buffer (omega arith) in
        if_elim (Step r (r.content_length - r.bytes_read)) (length got == 0)
          (λ nothing. ended (rw (empty, at_end (ground arith)) refl))
          (λ something. reads (rw empty eq) (ground arith) (ground arith) op')

-- What is read of a body of which `k` bytes are missing: these bytes, the rest left behind; or the stream ends
-- before them.
pub data Drained (k : ℕ) (total : Bytes)
    : Result BodyFault (Bytes × ContentLengthReader) → Type 0 where
  whole :
      {got : Bytes} {r' : ContentLengthReader}
      → length got ≡ k
      → got ++ left r'.source ≡ total
      → Drained k total (ok (got, r'))
  cut_off : length total < k → Drained k total (err closed_early)

Drained-step :
    (k : ℕ) (got : Bytes) (total rest : Bytes) (m : ℕ)
    (x : Result BodyFault (Bytes × ContentLengthReader))
    → got ++ rest ≡ total
    → m + length got ≡ k
    → Drained m rest x
    → Drained k total (x >>= λ (more, last). ok (got ++ more, last))
Drained-step k got total rest m _ e size (whole {got = more} {r'} n e') =
    whole (omega (arith, length-append got more))
      (append_assoc got more (left r'.source) ∙ ap (λ (b : Bytes). got ++ b) e' ∙ e)
Drained-step k got total rest m _ e size (cut_off short) =
    cut_off (omega (arith, ap (length {A = ℕ}) e, length-append got rest))

drain_loop-Drained :
    (fuel : ℕ) (lens : ℕ → ℕ) (r : ContentLengthReader)
    → IsOpen r.source.incoming
    → ((i : ℕ) → 0 < lens i)
    → r.content_length - r.bytes_read < fuel
    → Drained
        (r.content_length - r.bytes_read)
        (left r.source)
        (drain_loop content_length_reader fuel lens r)
unfolding drain_loop content_length_reader
drain_loop-Drained zero lens r op pos enough = absurd (omega arith)
drain_loop-Drained (suc fuel) lens r op pos enough =
    if_elim (Drained (r.content_length - r.bytes_read) (left r.source))
      (leb r.content_length r.bytes_read) (λ done. whole (ground arith) refl)
      (λ wants.
        go (read_content (lens fuel) r)
          (read_content-Step (lens fuel) r op (pos fuel) (ground arith))
          (λ r' op' h. drain_loop-Drained fuel lens r' op' pos h) (ground arith))
  where
    go :
        (x : Result BodyFault (Bytes × ContentLengthReader))
        → Step r (r.content_length - r.bytes_read) x
        → ((r' : ContentLengthReader)
            → IsOpen r'.source.incoming
            → r'.content_length - r'.bytes_read < fuel
            → Drained
                (r'.content_length - r'.bytes_read)
                (left r'.source)
                (drain_loop content_length_reader fuel lens r'))
        → 0 < r.content_length - r.bytes_read
        → Drained (r.content_length - r.bytes_read) (left r.source) (
            x >>= λ (got, r').
            if length got == 0
            then ok ([], r')
            else (drain_loop content_length_reader fuel lens r' >>= λ (more, last).
                ok (got ++ more, last)))
    go _ (ended nothing) again wants = cut_off (rw nothing wants)
    go _ (reads {got} {r'} e some_got size op') again wants =
        let goes_on : (length got == 0) ≡ false = ground arith in
        rw goes_on (
          Drained-step (r.content_length - r.bytes_read) got (left r.source) (left r'.source) _ _ e
            size (again r' op' (omega arith)))

-- Reads of any positive lengths give a body of a known length whole: exactly its bytes come out, and those behind it stay for the next
-- message. They throw exactly where the stream ends before. As many rounds as bytes, and one more, are enough.
pub drain-Drained :
    (lens : ℕ → ℕ) (s : Source) (content_length : ℕ)
    → IsOpen s.incoming
    → ((i : ℕ) → 0 < lens i)
    → Drained content_length (left s) (
        drain_loop content_length_reader
          (suc content_length)
          lens
          (record { source = s; content_length = content_length; bytes_read = 0 }))
drain-Drained lens s content_length op pos =
    let r : ContentLengthReader = record {
      source = s;
      content_length = content_length;
      bytes_read = 0;
    } in
    let all_missing : content_length - 0 ≡ content_length = omega arith in
    subst
      (λ (k : ℕ). Drained k (left s) (drain_loop content_length_reader (suc content_length) lens r))
      all_missing (drain_loop-Drained (suc content_length) lens r op pos (omega arith))
