-- ===== src/Io/Exact.antt =====
-- `readExact` of extensions/http2/src/frame/FrameReader.cc: a loop over short reads. Each round takes a
-- byte at least, so that `len` rounds are enough.
use coro_test.Common.{
  ℕ, zero, suc, ◌+◌, ◌-◌, ◌≤◌, ◌<◌, ◌≡◌, refl, ap, sym, ◌∙◌, inl, inr, [], ◌∷◌, ◌++◌, Bytes, false,
  Option, none, some, arith, length, take, drop, if◌then◌else◌, ◌==◌, ltb, Bool-cases,
  length-append, length-take, length-drop, take-append-drop, append_assoc, take_all, append_split,
}
use coro_test.Io.{Pieces, read, flat, IsOpen}

-- `none` where the stream ends before `len` bytes. `received` is what the buffer holds.
unfoldable pub read_exact_loop : ℕ → ℕ → Bytes → Pieces → Option (Bytes × Pieces)
read_exact_loop zero len received pieces =
    if ltb (length received) len then none else some (received, pieces)
read_exact_loop (suc fuel) len received pieces =
    let (got, rest) = read (len - length received) pieces in
    let more = read_exact_loop fuel len (received ++ got) rest in
    if ltb (length received) len
    then (if length got == 0 then none else more)
    else some (received, pieces)

unfoldable pub read_exact : ℕ → Pieces → Option (Bytes × Pieces)
read_exact len pieces = read_exact_loop len len [] pieces

-- What a read of a positive length does: it takes bytes off the front of what is to come, none only at
-- the end.
abbrev pub ReadLaw : Pieces → ℕ → Bytes × Pieces → Type 0
ReadLaw pieces len (got, rest) =
    (got ++ flat rest ≡ flat pieces)
    × (length got ≤ len)
    × IsOpen rest
    × (length got ≡ 0 → flat pieces ≡ [])

pub read-ReadLaw :
    (pieces : Pieces) (len : ℕ) → IsOpen pieces → 0 < len → ReadLaw pieces len (read len pieces)
unfolding read
read-ReadLaw [] len op pos = (refl, omega arith, tt, λ e. refl)
read-ReadLaw (piece ∷ pieces) len op pos =
    let bound : length (take len piece) ≤ len = omega (arith, length-take len piece) in
    let some_got : length (take len piece) ≡ 0 → flat (piece ∷ pieces) ≡ [] =
      λ e. absurd (omega (arith, length-take len piece, op.0)) in
    elim (Bool-cases (length (drop len piece) == 0)) [
      | inl used ↦
          let whole : take len piece ≡ piece =
            take_all len piece (ground (arith, length-drop len piece)) in
          rw used (rw whole refl, bound, op.1, some_got)
      | inr left ↦ rw left (
        sym (append_assoc (take len piece) (drop len piece) (flat pieces))
            ∙ ap (λ (p : Bytes). p ++ flat pieces) (take-append-drop len piece),
        bound,
        (ground arith, op.1),
        some_got,
      )
    ]

-- The loop from what it has received on.
abbrev LoopLaw : Bytes → Pieces → ℕ → Option (Bytes × Pieces) → Type 0
LoopLaw received pieces len none = length received + length (flat pieces) < len
LoopLaw received pieces len (some (got, rest)) =
    (got ++ flat rest ≡ received ++ flat pieces) × (length got ≡ len) × IsOpen rest

LoopLaw-step :
    (received got : Bytes) (rest pieces : Pieces) (len : ℕ) (o : Option (Bytes × Pieces))
    → got ++ flat rest ≡ flat pieces
    → LoopLaw (received ++ got) rest len o
    → LoopLaw received pieces len o
LoopLaw-step received got rest pieces len none e h =
    omega
      (arith, length-append received got, length-append got (flat rest), ap (length {A = ℕ}) e, h)
LoopLaw-step received got rest pieces len (some (all, last)) e (eq, size, op) =
    (eq ∙ append_assoc received got (flat rest) ∙ ap (◌++◌ received) e, size, op)

read_exact_loop-LoopLaw :
    (fuel len : ℕ) (received : Bytes) (pieces : Pieces)
    → IsOpen pieces
    → length received ≤ len
    → len ≤ length received + fuel
    → LoopLaw received pieces len (read_exact_loop fuel len received pieces)
unfolding read_exact_loop
read_exact_loop-LoopLaw zero len received pieces op small enough =
    let done : ltb (length received) len ≡ false = ground arith in rw done (refl, omega arith, op)
read_exact_loop-LoopLaw (suc fuel) len received pieces op small enough =
    elim (Bool-cases (ltb (length received) len)) [
      | inr full ↦ rw full (refl, ground arith, op)
      | inl open_still ↦
          let (got, rest) = read (len - length received) pieces in
          let (eq, bound, op', at_end) =
            read-ReadLaw pieces (len - length received) op (ground arith) in
          let size = length-append received got in
          elim (Bool-cases (length got == 0)) [
            | inl ended ↦
                let nothing : length (flat pieces) ≡ 0 =
                  ap (length {A = ℕ}) (at_end (ground arith)) in
                rw (open_still, ended) (ground arith)
            | inr went_on ↦
                rw (open_still, went_on)
                  (LoopLaw-step received got rest pieces len _ eq (
                    read_exact_loop-LoopLaw fuel len (received ++ got) rest op' (ground arith)
                      (ground arith)))
          ]
    ]

-- The next `len` bytes, or none where the stream ends before.
abbrev pub ExactLaw : Pieces → ℕ → Option (Bytes × Pieces) → Type 0
ExactLaw pieces len none = length (flat pieces) < len
ExactLaw pieces len (some (got, rest)) =
    (got ++ flat rest ≡ flat pieces) × (length got ≡ len) × IsOpen rest

-- However the network cuts the stream into pieces that are not empty, `readExact` returns its next `len` bytes and leaves the others,
-- and it fails only where the stream ends before them.
pub read_exact-ExactLaw :
    (pieces : Pieces) (len : ℕ) → IsOpen pieces → ExactLaw pieces len (read_exact len pieces)
unfolding read_exact
read_exact-ExactLaw pieces len op =
    go (read_exact_loop len len [] pieces)
      (read_exact_loop-LoopLaw len len [] pieces op (omega arith) (omega arith))
  where
    go : (o : Option (Bytes × Pieces)) → LoopLaw [] pieces len o → ExactLaw pieces len o
    go none h = omega arith
    go (some (got, rest)) h = h

-- The same on a stream that begins with the bytes asked for.
pub read_exact_prefix :
    (pieces : Pieces) (wanted more : Bytes)
    → IsOpen pieces
    → flat pieces ≡ wanted ++ more
    → (rest : Pieces) × (read_exact (length wanted) pieces ≡ some (wanted, rest))
      × (flat rest ≡ more)
      × IsOpen rest
read_exact_prefix pieces wanted more op e =
    go (read_exact (length wanted) pieces) refl (read_exact-ExactLaw pieces (length wanted) op)
  where
    go :
        (o : Option (Bytes × Pieces))
        → read_exact (length wanted) pieces ≡ o
        → ExactLaw pieces (length wanted) o
        → (rest : Pieces) × (read_exact (length wanted) pieces ≡ some (wanted, rest))
          × (flat rest ≡ more)
          × IsOpen rest
    go none q h = absurd (omega (arith, h, ap (length {A = ℕ}) e, length-append wanted more))
    go (some (got, rest)) q (eq, size, op') =
        let (front, back) = append_split got (flat rest) wanted more (eq ∙ e) size in
        (rest, q ∙ ap (λ (g : Bytes). some (g, rest)) front, back, op')
