-- ===== src/Websocket/Head.antt =====
-- What `receive` reads of a frame that `sendFrame` wrote: the head, the key and the payload.
use coro_test.Common.{
  ℕ, zero, suc, ◌*◌, ◌/◌, ◌%◌, ◌^◌, ◌≤◌, ◌<◌, ◌≡◌, refl, ap, sym, subst, ◌∙◌, [], ◌∷◌, ◌++◌, Bytes,
  true, false, not, bit_and, bit_or, length, ltb, ◌==◌, get_or, if◌then◌else◌, arith, inl, inr,
  Bool-cases, append_assoc, ltb→lt,
}
use native.Mathlib.Nat.{div-div-eq-div-mul}
use coro_test.Common.Error.{Result, ok, ◌>>=◌}
use coro_test.Common.Bitwise.{and_ones, or_shifted}
use coro_test.Common.Bits.{top_bit}
use coro_test.Common.Order.{two_pow-pos, two_pow_eight}
use coro_test.Io.{Pieces, flat, IsOpen}
use coro_test.Io.Exact.{read_exact_prefix}
use coro_test.Websocket.Frame.{Role, server, client, masks, length_bytes, head_bytes}
use coro_test.Websocket.Connection.{
  WsFault, WsHead, read_or_throw, length_loop, read_length, read_head,
}

-- A read of the bytes that the stream begins with.
pub read_or_throw_prefix :
    (pieces : Pieces) (wanted more : Bytes)
    → IsOpen pieces
    → flat pieces ≡ wanted ++ more
    → (rest : Pieces) × (read_or_throw (length wanted) pieces ≡ ok (wanted, rest))
      × (flat rest ≡ more)
      × IsOpen rest
unfolding read_or_throw
read_or_throw_prefix pieces wanted more op e =
    let (rest, q, left, op') = read_exact_prefix pieces wanted more op e in
    (rest, rw (q, read_or_throw) refl, left, op')

-- A byte behind a number that is the quotient by 256.
length_step :
    (high q : ℕ) → high ≡ q / 256 → q < 2 ^ 64 → bit_or (high * 2 ^ 8 % 2 ^ 64) (q % 256) ≡ q
length_step high q e small =
    let kept : high * 2 ^ 8 % 2 ^ 64 ≡ high * 2 ^ 8 = omega arith in
    rw kept (or_shifted 8 high (q % 256) (omega arith) ∙ omega arith)

next_quotient : (len i : ℕ) → len / 2 ^ (suc i * 8) ≡ len / 2 ^ (i * 8) / 256
next_quotient len i =
    let product : 2 ^ (suc i * 8) ≡ 2 ^ (i * 8) * 256 =
      ap (λ (n : ℕ). 2 ^ n) (omega arith) ∙ two_pow_eight (i * 8) ∙ omega arith in
    rw product (sym (div-div-eq-div-mul len (2 ^ (i * 8)) 256))

quotient_le : (len d : ℕ) → 0 < d → len / d ≤ len
quotient_le len d pos = grind arith

length_loop-length_bytes :
    (i len : ℕ) → len < 2 ^ 64 → length_loop (len / 2 ^ (i * 8)) (length_bytes i len) ≡ len
unfolding length_loop length_bytes
length_loop-length_bytes zero len small = omega arith
length_loop-length_bytes (suc i) len small =
    let q = len / 2 ^ (i * 8) in
    let below : q < 2 ^ 64 =
      omega (arith, quotient_le len (2 ^ (i * 8)) (two_pow-pos (i * 8)), small) in
    let step = length_step (len / 2 ^ (suc i * 8)) q (next_quotient len i) below in
    rw (length_loop, step) (length_loop-length_bytes i len small)

length-length_bytes : (i len : ℕ) → length (length_bytes i len) ≡ i
unfolding length_bytes
length-length_bytes zero len = refl
length-length_bytes (suc i) len = ap suc (length-length_bytes i len)

-- The length field with what follows it.
abbrev long_bytes : ℕ → Bytes
long_bytes len =
    if ltb len 126 then [] else if ltb len 65536 then length_bytes 2 len else length_bytes 8 len

abbrev short_len : ℕ → ℕ
short_len len = if ltb len 126 then len else if ltb len 65536 then 126 else 127

-- The outcome of `read_length` on a stream that begins with the length field.
abbrev ReadsLength : ℕ → ℕ → Pieces → Bytes → Type 0
ReadsLength form len pieces more =
    (rest : Pieces) × (read_length form pieces ≡ ok (len, rest)) × (flat rest ≡ more) × IsOpen rest

two-ReadsLength :
    (len : ℕ) (pieces : Pieces) (more : Bytes)
    → len < 65536
    → IsOpen pieces
    → flat pieces ≡ length_bytes 2 len ++ more
    → ReadsLength 126 len pieces more
unfolding read_length length_bytes
two-ReadsLength len pieces more small op e =
    let (rest, q, left, op') = read_or_throw_prefix pieces (length_bytes 2 len) more op e in
    let value : bit_or (len / 256 % 256 * 2 ^ 8) (len / 1 % 256) ≡ len =
      or_shifted 8 (len / 256 % 256) (len / 1 % 256) (omega arith) ∙ omega arith in
    (
      rest,
      ap
            (λ (r : Result WsFault (Bytes × Pieces)).
              r >>= λ (ext, rest). ok (bit_or (get_or ext 0 0 * 2 ^ 8) (get_or ext 1 0), rest))
            q
          ∙ ap (λ (n : ℕ). ok (n, rest)) value,
      left,
      op',
    )

eight-ReadsLength :
    (len : ℕ) (pieces : Pieces) (more : Bytes)
    → len < 2 ^ 64
    → IsOpen pieces
    → flat pieces ≡ length_bytes 8 len ++ more
    → ReadsLength 127 len pieces more
unfolding read_length
eight-ReadsLength len pieces more small op e =
    let (rest, q, left, op') = read_or_throw_prefix pieces (length_bytes 8 len) more op e in
    let nothing : len / 2 ^ 64 ≡ 0 = omega arith in
    let value : length_loop 0 (length_bytes 8 len) ≡ len =
      subst (λ (high : ℕ). length_loop high (length_bytes 8 len) ≡ len) nothing
        (length_loop-length_bytes 8 len small) in
    let q' =
      subst (λ (n : ℕ). read_or_throw n pieces ≡ ok (length_bytes 8 len, rest))
        (length-length_bytes 8 len) q in
    (
      rest,
      ap
            (λ (r : Result WsFault (Bytes × Pieces)).
              r >>= λ (ext, rest). ok (length_loop 0 ext, rest))
            q'
          ∙ ap (λ (n : ℕ). ok (n, rest)) value,
      left,
      op',
    )

none-ReadsLength :
    (len : ℕ) (pieces : Pieces) (more : Bytes)
    → len < 126
    → IsOpen pieces
    → flat pieces ≡ more
    → ReadsLength len len pieces more
unfolding read_length
none-ReadsLength len pieces more small op e =
    let neither : (len == 126) ≡ false = ground arith in
    let nor : (len == 127) ≡ false = ground arith in (pieces, rw (neither, nor) refl, e, op)

read_length_lem :
    (len : ℕ) (pieces : Pieces) (more : Bytes)
    → len < 2 ^ 64
    → IsOpen pieces
    → flat pieces ≡ long_bytes len ++ more
    → ReadsLength (short_len len) len pieces more
read_length_lem len pieces more small op = elim (Bool-cases (ltb len 126)) [
  | inl short ↦ rw short (λ e. none-ReadsLength len pieces more (ltb→lt len 126 short) op e)
  | inr long ↦ elim (Bool-cases (ltb len 65536)) [
    | inl two ↦ rw (long, two) (λ e. two-ReadsLength len pieces more (ltb→lt len 65536 two) op e)
    | inr eight ↦ rw (long, eight) (λ e. eight-ReadsLength len pieces more small op e)
  ]
]

-- The head of a frame.
abbrev pub head_of : Role → ℕ → ℕ → WsHead
head_of role opcode len = record {
  fin = true;
  opcode = opcode;
  masked = masks role;
  payload_len = len;
}

-- The fields of the first two bytes.
low_opcode : (opcode : ℕ) → opcode < 16 → bit_and (bit_or 0x80 opcode) 0x0f ≡ opcode
low_opcode opcode small =
    and_ones 4 (bit_or 0x80 opcode) ∙ omega (arith, or_shifted 7 1 opcode (omega arith))

high_bit : (low : ℕ) → low < 128 → (bit_and (bit_or 0x80 low) 0x80 == 0) ≡ false
high_bit low small = ground (
  arith,
  top_bit (bit_or 0x80 low) (omega (arith, or_shifted 7 1 low small)),
  or_shifted 7 1 low small,
)

mask_bit :
    (role : Role) (low : ℕ)
    → low < 128
    → not (bit_and (bit_or (if masks role then 0x80 else 0x00) low) 0x80 == 0) ≡ masks role
mask_bit server low small = ground (
  arith,
  top_bit (bit_or 0 low) (omega (arith, or_shifted 7 0 low small)),
  or_shifted 7 0 low small,
)
mask_bit client low small = ap not (high_bit low small)

low_length :
    (role : Role) (low : ℕ)
    → low < 128
    → bit_and (bit_or (if masks role then 0x80 else 0x00) low) 0x7f ≡ low
low_length server low small = and_ones 7 (bit_or 0 low) ∙ omega (arith, or_shifted 7 0 low small)
low_length client low small = and_ones 7 (bit_or 0x80 low) ∙ omega (arith, or_shifted 7 1 low small)

short_len-small : (len : ℕ) → short_len len < 128
short_len-small len = ground arith

head_bytes-split :
    (role : Role) (opcode len : ℕ)
    → head_bytes role opcode len
      ≡ (bit_or 0x80 opcode ∷ bit_or (if masks role then 0x80 else 0x00) (short_len len) ∷ [])
        ++ long_bytes len
unfolding head_bytes
head_bytes-split role opcode len = elim (Bool-cases (ltb len 126)) [
  | inl short ↦ rw short refl
  | inr long ↦ elim (Bool-cases (ltb len 65536)) [
    | inl two ↦ rw (long, two) refl
    | inr eight ↦ rw (long, eight) refl
  ]
]

pub read_head_lem :
    (role : Role) (opcode len : ℕ) (pieces : Pieces) (more : Bytes)
    → opcode < 16
    → len < 2 ^ 64
    → IsOpen pieces
    → flat pieces ≡ head_bytes role opcode len ++ more
    → (rest : Pieces) × (read_head pieces ≡ ok (head_of role opcode len, rest))
      × (flat rest ≡ more)
      × IsOpen rest
unfolding read_head
read_head_lem role opcode len pieces more small fits op e =
    let two =
      bit_or 0x80 opcode ∷ bit_or (if masks role then 0x80 else 0x00) (short_len len) ∷ [] in
    let e' =
      e
      ∙ ap (λ (b : Bytes). b ++ more) (head_bytes-split role opcode len)
      ∙ append_assoc two (long_bytes len) more in
    let (rest, q, left, op') = read_or_throw_prefix pieces two (long_bytes len ++ more) op e' in
    let (rest', q', left', op'') = read_length_lem len rest more fits op' left in
    let first = low_opcode opcode small in
    let second = high_bit opcode (omega arith) in
    let third = mask_bit role (short_len len) (short_len-small len) in
    let fourth = low_length role (short_len len) (short_len-small len) in
    (rest', rw (q, read_head) (rw (fourth, q') (rw (first, second, third) refl)), left', op'')
