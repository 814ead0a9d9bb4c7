-- ===== src/Utils/StringBuffer/Queue.antt =====
-- The buffer is a queue of bytes: what is appended comes out in order, whatever the compactions.
use coro_test.Common.{
  ℕ, zero, suc, ◌+◌, ◌-◌, ◌≤◌, ◌≡◌, refl, ap, sym, subst, ◌∙◌, [], ◌∷◌, ◌++◌, Bytes, ◌&&◌, length,
  take, drop, ltb, leb, arith, Bool-cases, inl, inr, append_assoc, length-append, length-take,
  length-drop, take-append_length, drop-append_length, take_all, take-append-drop,
}
use coro_test.Utils.StringBuffer.{
  StringBuffer, view, consume, zeros, resize, overwrite, prepare_write, commit_write, append,
}

-- The buffer is what was consumed, the bytes of the queue, and free room.
abbrev pub Holds : StringBuffer → Bytes → Type 0
Holds b queue =
    (dead : Bytes) × (free : Bytes) × (b.buffer ≡ dead ++ (queue ++ free))
    × (length dead ≡ b.read_offset)
    × (length dead + length queue ≡ b.write_offset)

pub Holds-view : (b : StringBuffer) (queue : Bytes) → Holds b queue → view b ≡ queue
unfolding view
Holds-view b queue (dead, free, e, read, write) =
    let size : b.write_offset - b.read_offset ≡ length queue = omega (arith, read, write) in
    rw (size, e)
      (subst (λ (n : ℕ). take (length queue) (drop n (dead ++ (queue ++ free))) ≡ queue) read
        (rw (drop-append_length dead (queue ++ free)) (take-append_length queue free)))

-- Room of its own behind the queue.
abbrev HasRoom : ℕ → StringBuffer → Type 0
HasRoom len b = b.write_offset + len ≤ length b.buffer

overwrite_start :
    (bytes s : Bytes)
    → length bytes ≤ length s
    → overwrite 0 bytes s ≡ bytes ++ drop (length bytes) s
unfolding overwrite
overwrite_start bytes s fits =
    ap (λ (b : Bytes). b ++ drop (0 + length bytes) s) (take_all (length s - 0) bytes (omega arith))
    ∙ ap (λ (n : ℕ). bytes ++ drop n s) (omega arith)

pub resize_longer : (n : ℕ) (s : Bytes) → length s ≤ n → resize n s ≡ s ++ zeros (n - length s)
unfolding resize
resize_longer n s longer = rw (take_all n s longer) refl

length-zeros : (n : ℕ) → length (zeros n) ≡ n
unfolding zeros
length-zeros zero = refl
length-zeros (suc n) = ap suc (length-zeros n)

pub length-Holds :
    (b : StringBuffer) (queue : Bytes) → Holds b queue → b.write_offset ≤ length b.buffer
length-Holds b queue (dead, free, e, read, write) = omega (
  arith,
  ap (length {A = ℕ}) e,
  length-append dead (queue ++ free),
  length-append queue free,
  write,
)

grown :
    (dead queue free more : Bytes)
    → (dead ++ (queue ++ free)) ++ more ≡ dead ++ (queue ++ (free ++ more))
grown dead queue free more =
    append_assoc dead (queue ++ free) more
    ∙ ap (λ (s : Bytes). dead ++ s) (append_assoc queue free more)

prepare_write-Holds :
    (len : ℕ) (b : StringBuffer) (queue : Bytes)
    → Holds b queue
    → Holds (prepare_write len b) queue × HasRoom len (prepare_write len b)
unfolding prepare_write view
prepare_write-Holds len b queue holds =
    let (dead, free, e, read, write) = holds in
    let inside = length-Holds b queue holds in
    elim (Bool-cases (ltb (length b.buffer - b.write_offset) len)) [
      | inr enough ↦ rw enough (holds, ground arith)
      | inl short ↦
          elim (Bool-cases
            (ltb 0 b.read_offset && leb len (length b.buffer - (b.write_offset - b.read_offset)))) [
              | inl compacts ↦
                  let moved =
                    ap (λ (s : Bytes). overwrite 0 s b.buffer) (Holds-view b queue holds)
                    ∙ overwrite_start queue b.buffer (omega (arith, write, inside)) in
                  let rest = drop (length queue) b.buffer in
                  let size =
                    ap (length {A = ℕ}) moved
                    ∙ length-append queue rest
                    ∙ ap (λ (n : ℕ). length queue + n) (length-drop (length queue) b.buffer) in
                  let fits : len ≤ length b.buffer - (b.write_offset - b.read_offset) =
                    ground arith in
                  rw (short, compacts)
                    (
                      ([], rest, moved, refl, omega (arith, read, write)),
                      omega (arith, size, fits, read, write, inside),
                    )
              | inr grows ↦
                  let longer : length b.buffer ≤ b.write_offset + len = ground arith in
                  let more = zeros (b.write_offset + len - length b.buffer) in
                  let resized = resize_longer (b.write_offset + len) b.buffer longer in
                  let size = ap (length {A = ℕ}) resized ∙ length-append b.buffer more in
                  rw (short, grows)
                    (
                      (
                        dead,
                        free ++ more,
                        resized ∙ ap (λ (s : Bytes). s ++ more) e ∙ grown dead queue free more,
                        read,
                        write,
                      ),
                      omega (
                        arith,
                        size,
                        length-zeros (b.write_offset + len - length b.buffer),
                        longer,
                      ),
                    )
            ]
    ]

-- A write at the end of the queue, within the room.
overwrite_end :
    (front bytes free : Bytes)
    → length bytes ≤ length free
    → overwrite (length front) bytes (front ++ free) ≡ front ++ (bytes ++ drop (length bytes) free)
unfolding overwrite
overwrite_end front bytes free fits =
    rw
      (
        take-append_length front free,
        take_all (length (front ++ free) - length front) bytes
            (omega (arith, length-append front free)),
      )
      (ap (λ (s : Bytes). front ++ (bytes ++ s)) (drop_past front (length bytes) free))
  where
    drop_past : (xs : Bytes) (n : ℕ) (ys : Bytes) → drop (length xs + n) (xs ++ ys) ≡ drop n ys
    drop_past [] n ys = ap (λ (m : ℕ). drop m ys) (omega arith)
    drop_past (x ∷ xs) n ys =
        ap (λ (m : ℕ). drop m (x ∷ (xs ++ ys))) {y = suc (length xs + n)} (omega arith)
        ∙ drop_past xs n ys

fill-Holds :
    (b : StringBuffer) (queue bytes : Bytes)
    → Holds b queue
    → HasRoom (length bytes) b
    → Holds
        (commit_write
          (length bytes)
          (record b { buffer = overwrite b.write_offset bytes b.buffer }))
        (queue ++ bytes)
unfolding commit_write
fill-Holds b queue bytes (dead, free, e, read, write) room =
    let fits : length bytes ≤ length free = omega (
      arith,
      ap (length {A = ℕ}) e,
      length-append dead (queue ++ free),
      length-append queue free,
    ) in
    let front : length (dead ++ queue) ≡ b.write_offset =
      omega (arith, length-append dead queue, write) in
    let cut = e ∙ sym (append_assoc dead queue free) in
    let written =
      ap (λ (s : Bytes). overwrite b.write_offset bytes s) cut
      ∙ ap (λ (n : ℕ). overwrite n bytes ((dead ++ queue) ++ free)) (sym front)
      ∙ overwrite_end (dead ++ queue) bytes free fits
      ∙ append_assoc dead queue _
      ∙ ap (λ (s : Bytes). dead ++ s) (sym (append_assoc queue bytes (drop (length bytes) free))) in
    (dead, drop (length bytes) free, written, read, omega (arith, length-append queue bytes, write))

pub append-Holds :
    (len : ℕ) (bytes : Bytes) (b : StringBuffer) (queue : Bytes)
    → length bytes ≤ len
    → Holds b queue
    → Holds (append len bytes b) (queue ++ bytes)
unfolding append
append-Holds len bytes b queue small holds =
    let (holds', room) = prepare_write-Holds len b queue holds in
    fill-Holds (prepare_write len b) queue bytes holds' (omega arith)

pub consume-Holds :
    (n : ℕ) (b : StringBuffer) (queue : Bytes)
    → n ≤ length queue
    → Holds b queue
    → Holds (consume n b) (drop n queue)
unfolding consume
consume-Holds n b queue small (dead, free, e, read, write) =
    let halves = take-append-drop n queue in
    let taken = length-take n queue in
    (
      dead ++ take n queue,
      free,
      e
          ∙ ap (λ (s : Bytes). dead ++ (s ++ free)) (sym halves)
          ∙ ap (λ (s : Bytes). dead ++ s) (append_assoc (take n queue) (drop n queue) free)
          ∙ sym (append_assoc dead (take n queue) (drop n queue ++ free)),
      omega (arith, length-append dead (take n queue), taken, read),
      omega (arith, length-append dead (take n queue), taken, length-drop n queue, write),
    )
