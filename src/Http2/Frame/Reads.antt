-- ===== src/Http2/Frame/Reads.antt =====
-- extensions/http2/src/frame/FrameReader.cc: how far a frame takes the stream.
use coro_test.Common.{
  ℕ, ◌+◌, ◌≤◌, ◌≡◌, ap, inl, inr, Bytes, Option, none, some, arith, length, ltb, length-append,
  Option-cases, if_elim, ltb-false→le,
}
use coro_test.Io.{Pieces, flat, IsOpen}
use coro_test.Io.Exact.{read_exact, ExactLaw, read_exact-ExactLaw}
use coro_test.Http2.Frame.{FrameHeader, Frame, parse_header, read_payload, read_frame}

-- The stream behind is open, and shorter by `n` bytes at least.
unfoldable pub IsPast : ℕ → Pieces → Pieces → Type 0
IsPast n pieces rest = IsOpen rest × (n + length (flat rest) ≤ length (flat pieces))

read_exact-IsPast :
    (n : ℕ) (pieces rest : Pieces) (got : Bytes)
    → IsOpen pieces
    → read_exact n pieces ≡ some (got, rest)
    → IsPast n pieces rest
unfolding IsPast
read_exact-IsPast n pieces rest got op e =
    let law : ExactLaw pieces n (some (got, rest)) = rw e at (read_exact-ExactLaw pieces n op) in
    let (eq, size, op') = law in
    (op', omega (arith, ap (length {A = ℕ}) eq, length-append got (flat rest)))

-- What was read of a frame: the rest of the stream, and a payload within the limit.
unfoldable pub ReadLaw : ℕ → ℕ → Pieces → Option (Frame × Pieces) → Type 0
ReadLaw max n pieces none = Unit
ReadLaw max n pieces (some (frame, rest)) = IsPast n pieces rest × (length frame.payload ≤ max)

read_payload-ReadLaw :
    (max : ℕ) (header : FrameHeader) (pieces : Pieces)
    → IsOpen pieces
    → ReadLaw max 0 pieces (read_payload max header pieces)
unfolding read_payload IsPast ReadLaw
read_payload-ReadLaw max header pieces op =
    if_elim (ReadLaw max 0 pieces) (ltb max header.payload_length)
      (λ _. ((op, omega arith), omega arith))
      (λ fits.
        if_elim (ReadLaw max 0 pieces) (ltb 0 header.payload_length)
          (λ _.
            whole (ltb-false→le max header.payload_length fits)
              (read_exact header.payload_length pieces)
              (read_exact-ExactLaw pieces header.payload_length op))
          (λ _. ((op, omega arith), omega arith)))
  where
    whole :
        header.payload_length ≤ max
        → (o : Option (Bytes × Pieces)) → ExactLaw pieces header.payload_length o
        → ReadLaw max 0 pieces (elim o [
          | none ↦ none
          | some (payload, after) ↦ some (record { header = header; payload = payload }, after)
        ])
    whole fits none law = tt
    whole fits (some (payload, after)) (eq, size, op') = (
      (op', omega (arith, ap (length {A = ℕ}) eq, length-append payload (flat after))),
      omega arith,
    )

-- A frame takes nine bytes at least.
pub read_frame-ReadLaw :
    (max : ℕ) (pieces : Pieces) → IsOpen pieces → ReadLaw max 9 pieces (read_frame max pieces)
unfolding read_frame ReadLaw IsPast
read_frame-ReadLaw max pieces op = elim (Option-cases (read_exact 9 pieces)) [
  | inl ended ↦ rw (ended, read_frame) tt
  | inr ((hdr, rest), got) ↦
      let (op', shorter) = read_exact-IsPast 9 pieces rest hdr op got in
      rw (got, read_frame)
        (go rest shorter (read_payload max (parse_header hdr) rest)
          (read_payload-ReadLaw max (parse_header hdr) rest op'))
]
  where
    go :
        (rest : Pieces)
        → 9 + length (flat rest) ≤ length (flat pieces)
        → (o : Option (Frame × Pieces)) → ReadLaw max 0 rest o
        → ReadLaw max 9 pieces o
    go rest shorter none law = tt
    go rest shorter (some (frame, last)) ((op'', less), small) = ((op'', omega arith), small)
