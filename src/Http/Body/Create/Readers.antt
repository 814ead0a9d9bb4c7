-- ===== src/Http/Body/Create/Readers.antt =====
-- A drain through the virtual calls of extensions/http/src/Http1BodyReader.cc is the drain of the reader
-- behind them.
use coro_test.Common.{
  ℕ, zero, suc, ◌<◌, ◌≡◌, refl, sym, ap, ◌∙◌, min, [], ◌++◌, Bytes, false, arith, length, take,
  drop, ltb, ◌==◌, if◌then◌else◌, Bool-cases, inl, inr, length-append, append_assoc,
  take-append-drop, length-take, drop_all,
}
use coro_test.Common.Error.{Result, ok, err, ◌>>=◌}
use coro_test.Io.{Pieces, read, flat, IsOpen}
use coro_test.Io.Exact.{ReadLaw, read-ReadLaw}
use coro_test.Http.Body.{
  BodyFault, Source, left, take_buffered, read_stream, BodyReader, drain_loop, UntilCloseReader,
  read_until_close, until_close_reader,
}
use coro_test.Http.Body.Create.{
  Http1BodyReader, wrapped, read_impl_of, is_complete_of, http1_body_reader,
}

module _ {R : Type 0} (reader : BodyReader R) (wrap : R → Http1BodyReader) where
  wrapped-append :
      (got : Bytes) (x : Result BodyFault (Bytes × R))
      → (wrapped wrap x >>= λ (more, last). ok (got ++ more, last))
        ≡ wrapped wrap (x >>= λ (more, last). ok (got ++ more, last))
  wrapped-append got (ok (more, last)) = refl
  wrapped-append got (err e) = refl

  -- A round, with what follows it.
  wrapped-round :
      (rest : R → Result BodyFault (Bytes × R))
      (rest' : Http1BodyReader → Result BodyFault (Bytes × Http1BodyReader))
      → ((r : R) → rest' (wrap r) ≡ wrapped wrap (rest r))
      → (x : Result BodyFault (Bytes × R))
      → (wrapped wrap x >>= λ (got, r).
          if length got == 0
          then ok ([], r)
          else (rest' r >>= λ (more, last). ok (got ++ more, last)))
        ≡ wrapped wrap (
            x >>= λ (got, r).
            if length got == 0
            then ok ([], r)
            else (rest r >>= λ (more, last). ok (got ++ more, last)))
  wrapped-round rest rest' same (err e) = refl
  wrapped-round rest rest' same (ok (got, r)) = elim (Bool-cases (length got == 0)) [
    | inl nothing ↦ rw nothing refl
    | inr something ↦ rw (something, same r) (wrapped-append got (rest r))
  ]

  pub drain_loop-wrapped :
      ((len : ℕ) (r : R) → read_impl_of len (wrap r) ≡ wrapped wrap (reader.read_impl len r))
      → ((r : R) → is_complete_of (wrap r) ≡ reader.is_complete r)
      → (fuel : ℕ) (lens : ℕ → ℕ) (r : R)
      → drain_loop http1_body_reader fuel lens (wrap r)
        ≡ wrapped wrap (drain_loop reader fuel lens r)
  unfolding drain_loop http1_body_reader
  drain_loop-wrapped reads completes zero lens r = refl
  drain_loop-wrapped reads completes (suc fuel) lens r = elim (Bool-cases (reader.is_complete r)) [
    | inl done ↦ rw (completes r, done) refl
    | inr wants ↦
        rw (completes r, wants, reads (lens fuel) r)
          (wrapped-round (drain_loop reader fuel lens) (drain_loop http1_body_reader fuel lens)
            (λ r'. drain_loop-wrapped reads completes fuel lens r')
            (reader.read_impl (lens fuel) r))
  ]

-- All of `total`, with nothing left.
pub data Emptied (total : Bytes) : Result BodyFault (Bytes × UntilCloseReader) → Type 0 where
  emptied : {r : UntilCloseReader} → left r.source ≡ [] → Emptied total (ok (total, r))

Emptied-step :
    (got total rest : Bytes) (x : Result BodyFault (Bytes × UntilCloseReader))
    → got ++ rest ≡ total
    → Emptied rest x
    → Emptied total (x >>= λ (more, last). ok (got ++ more, last))
Emptied-step got total rest _ e (emptied nothing) = rw (← e) (emptied nothing)

-- A body that ends with the stream is all that is to come.
pub drain_loop-Emptied :
    (fuel : ℕ) (lens : ℕ → ℕ) (s : Source)
    → IsOpen s.incoming
    → ((i : ℕ) → 0 < lens i)
    → length (left s) < fuel
    → Emptied
        (left s)
        (drain_loop until_close_reader fuel lens (record { source = s; complete = false }))
unfolding drain_loop until_close_reader read_until_close take_buffered read_stream
drain_loop-Emptied zero lens s op pos enough = absurd (omega arith)
drain_loop-Emptied (suc fuel) lens s op pos enough = elim (Bool-cases (ltb 0 (length s.buffer))) [
  | inl waiting ↦
      let k = min (lens fuel) (length s.buffer) in
      let got = take k s.buffer in
      let s' : Source = record s { buffer = drop k s.buffer } in
      let e : got ++ left s' ≡ left s =
        sym (append_assoc got (drop k s.buffer) (flat s.incoming))
        ∙ ap (λ (b : Bytes). b ++ flat s.incoming) (take-append-drop k s.buffer) in
      let goes_on : (length got == 0) ≡ false = ground (arith, length-take k s.buffer, pos fuel) in
      rw (waiting, goes_on)
        (Emptied-step got (left s) (left s') _ e (
          drain_loop-Emptied fuel lens s' op pos
            (ground (arith, ap (length {A = ℕ}) e, length-append got (left s')))))
  | inr dry ↦
      let empty : s.buffer ≡ [] = drop_all 0 s.buffer (ground arith) in
      rw dry (
        streamed empty (read (lens fuel) s.incoming)
          (read-ReadLaw s.incoming (lens fuel) op (pos fuel))
          (λ s' op' h. drain_loop-Emptied fuel lens s' op' pos h))
]
  where
    streamed :
        s.buffer ≡ []
        → (x : Bytes × Pieces) → ReadLaw s.incoming (lens fuel) x
        → ((s' : Source)
            → IsOpen s'.incoming
            → length (left s') < fuel
            → Emptied (left s') (
                drain_loop until_close_reader fuel lens (record { source = s'; complete = false })))
        → Emptied (left s) (
            if length x.0 == 0
            then ok
                ([], record { source = record s { incoming = x.1 }; complete = length x.0 == 0 })
            else (drain_loop until_close_reader fuel lens
                  (record { source = record s { incoming = x.1 }; complete = length x.0 == 0 })
                >>= λ (more, last). ok (x.0 ++ more, last)))
    streamed empty (got, after) (eq, bound, op', at_end) again =
        let s' : Source = record s { incoming = after } in
        let e : got ++ left s' ≡ left s = rw empty eq in
        elim (Bool-cases (length got == 0)) [
          | inl nothing ↦
              let none_came : got ≡ [] = drop_all 0 got (ground arith) in
              let all : left s ≡ [] = rw empty (at_end (ground arith)) in
              let none_left : left s' ≡ [] =
                ap (λ (b : Bytes). b ++ left s') (sym none_came) ∙ e ∙ all in
              rw (nothing, all) (emptied none_left)
          | inr something ↦ rw something (
              Emptied-step got (left s) (left s') _ e (
                again s' op'
                  (ground (arith, ap (length {A = ℕ}) e, length-append got (left s'), enough))))
        ]
