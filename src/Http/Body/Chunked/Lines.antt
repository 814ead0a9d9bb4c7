-- ===== src/Http/Body/Chunked/Lines.antt =====
-- Lines and line ends in extensions/http/src/body_reader/ChunkedReader.cc, however the stream is cut.
use coro_test.Common.{
  ℕ, zero, suc, ◌+◌, ◌-◌, ◌≤◌, ◌<◌, ◌≡◌, inl, inr, refl, sym, ap, ◌∙◌, [], ◌∷◌, ◌++◌, Bytes, false,
  none, some, arith, length, drop, All, ltb, ◌==◌, if◌then◌else◌, Bool-cases, length-append,
  append_assoc, split_front, lt→leb-false, ltb→lt,
}
use coro_test.Common.Error.{ok}
use coro_test.Io.{Pieces, read, flat, IsOpen}
use coro_test.Io.Exact.{ReadLaw, read-ReadLaw}
use coro_test.Http.Body.{Source, left, fill, take_buffered}
use coro_test.Http.Body.Chunked.{find_crlf, read_line, skip_crlf}
use coro_test.Http.Body.Chunked.Hex.{IsNotCr}

abbrev pub crlf : Bytes → Bytes
crlf more = 13 ∷ 10 ∷ more

-- The first line end of a text is found.
find_crlf_line :
    (line more : Bytes) → All IsNotCr line → find_crlf (line ++ crlf more) ≡ some (line, more)
unfolding find_crlf
find_crlf_line [] more h = refl
find_crlf_line (a ∷ []) more (ha, h) = rw (ha, find_crlf) refl
find_crlf_line (a ∷ b ∷ line) more (ha, h) =
    rw (ha, find_crlf_line (b ∷ line) more h, find_crlf) refl

-- A part of the text that ends before the line end does has none.
find_crlf_part :
    (part rest line more : Bytes)
    → All IsNotCr line
    → part ++ rest ≡ line ++ crlf more
    → length part < length line + 2
    → find_crlf part ≡ none
unfolding find_crlf
find_crlf_part [] rest line more h e short = refl
find_crlf_part (a ∷ []) rest line more h e short = refl
find_crlf_part (a ∷ b ∷ part) rest [] more h e short = absurd (omega arith)
find_crlf_part (a ∷ b ∷ part) rest (c ∷ line) more (hc, h) e short =
    let (first, behind) = cons_split a c _ _ e in
    let no_cr : (a == 13) ≡ false = rw first hc in
    rw (no_cr, find_crlf_part (b ∷ part) rest line more h behind (omega arith), find_crlf) refl
  where
    cons_split : (a c : ℕ) (xs ys : Bytes) → a ∷ xs ≡ c ∷ ys → (a ≡ c) × (xs ≡ ys)
    cons_split a c xs ys e = (ground arith, ground arith)

-- A fill brings bytes for as long as there are any, and changes nothing of what is to come.
pub fill_lem :
    (s : Source)
    → IsOpen s.incoming
    → length s.buffer < length (left s)
    → (s' : Source) × (fill 128 s ≡ some s')
      × (left s' ≡ left s)
      × (length s.buffer < length s'.buffer)
      × IsOpen s'.incoming
unfolding fill
fill_lem s op more = go (read 128 s.incoming) (read-ReadLaw s.incoming 128 op (omega arith))
  where
    dry :
        flat s.incoming ≡ []
        → length (s.buffer ++ flat s.incoming) ≡ length s.buffer + length (flat s.incoming)
        → ⊥
    dry e size = omega (arith, ap (length {A = ℕ}) e)

    go :
        (x : Bytes × Pieces)
        → ReadLaw s.incoming 128 x
        → (s' : Source) × ((if length x.0 == 0
              then none
              else some (record { buffer = s.buffer ++ x.0; incoming = x.1 }))
            ≡ some s')
          × (left s' ≡ left s)
          × (length s.buffer < length s'.buffer)
          × IsOpen s'.incoming
    go (got, rest) (eq, bound, op', at_end) =
        let size = length-append s.buffer (flat s.incoming) in
        elim (Bool-cases (length got == 0)) [
          | inl nothing ↦ absurd (dry (at_end (ground arith)) size)
          | inr something ↦ (
            record { buffer = s.buffer ++ got; incoming = rest },
            rw something refl,
            append_assoc s.buffer got (flat rest) ∙ ap (λ (b : Bytes). s.buffer ++ b) eq,
            ground (arith, length-append s.buffer got),
            op',
          )
        ]

-- A buffer that holds a front part of what is to come.
pub buffer_split :
    (s : Source) (front more : Bytes)
    → left s ≡ front ++ more
    → length front ≤ length s.buffer
    → (s.buffer ≡ front ++ drop (length front) s.buffer)
      × (drop (length front) s.buffer ++ flat s.incoming ≡ more)
buffer_split s front more e h = split_front s.buffer (flat s.incoming) front more e h

-- A line is read off a stream that begins with it, whatever is in the buffer already.
pub read_line_lem :
    (fuel limit : ℕ) (s : Source) (line more : Bytes)
    → IsOpen s.incoming
    → All IsNotCr line
    → left s ≡ line ++ crlf more
    → length line + 2 ≤ limit
    → length line + 2 - length s.buffer < fuel
    → (s' : Source) × (read_line fuel limit s ≡ ok (line, s'))
      × (left s' ≡ more)
      × IsOpen s'.incoming
unfolding read_line
read_line_lem zero limit s line more op plain e room enough = absurd (omega arith)
read_line_lem (suc fuel) limit s line more op plain e room enough =
    elim (Bool-cases (ltb (length s.buffer) (length line + 2))) [
      | inl part ↦
          let short = ltb→lt (length s.buffer) (length line + 2) part in
          let nothing =
            find_crlf_part s.buffer (flat s.incoming) line more plain e (ground arith) in
          let below = lt→leb-false limit (length s.buffer) (ground arith) in
          let (s1, filled, same, grown, op1) =
            fill_lem s op (ground (arith, length-append line (crlf more), ap (length {A = ℕ}) e)) in
          let (s2, reads, rest, op2) =
            read_line_lem fuel limit s1 line more op1 plain (same ∙ e) room (omega arith) in
          (s2, rw (nothing, below, filled, read_line) reads, rest, op2)
      | inr whole ↦
          let (same, rest) =
            buffer_split s (line ++ crlf []) more (e ∙ sym (append_assoc line (crlf []) more))
              (ground (arith, length-append line (crlf []))) in
          let behind = drop (length (line ++ crlf [])) s.buffer in
          let found : find_crlf s.buffer ≡ some (line, behind) =
            ap find_crlf (same ∙ append_assoc line (crlf []) behind)
            ∙ find_crlf_line line behind plain in
          (record s { buffer = behind }, rw (found, read_line) refl, rest, op)
    ]

-- The two bytes behind a chunk are passed over, whatever they are.
pub skip_crlf_lem :
    (fuel : ℕ) (s : Source) (a b : ℕ) (more : Bytes)
    → IsOpen s.incoming
    → left s ≡ a ∷ b ∷ more
    → 2 - length s.buffer < fuel
    → (s' : Source) × (skip_crlf fuel s ≡ ok s') × (left s' ≡ more) × IsOpen s'.incoming
unfolding skip_crlf take_buffered
skip_crlf_lem zero s a b more op e enough = absurd (omega arith)
skip_crlf_lem (suc fuel) s a b more op e enough = elim (Bool-cases (ltb (length s.buffer) 2)) [
  | inl part ↦
      let short = ltb→lt (length s.buffer) 2 part in
      let (s1, filled, same, grown, op1) = fill_lem s op (ground (arith, ap (length {A = ℕ}) e)) in
      let (s2, skips, rest, op2) = skip_crlf_lem fuel s1 a b more op1 (same ∙ e) (omega arith) in
      (s2, rw (part, filled, skip_crlf) skips, rest, op2)
  | inr whole ↦
      let (same, rest) = buffer_split s (a ∷ b ∷ []) more e (ground arith) in
      (record s { buffer = drop 2 s.buffer }, rw (whole, skip_crlf) refl, rest, op)
]
