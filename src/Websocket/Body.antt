-- ===== src/Websocket/Body.antt =====
-- The mask is its own inverse, and what `receive` reads of the payload that `sendFrame` wrote.
use coro_test.Common.{
  ℕ, zero, suc, ◌+◌, ◌%◌, ◌^◌, ◌≤◌, ◌<◌, ◌≡◌, refl, ap, subst, ◌∙◌, [], ◌∷◌, ◌++◌, Bytes, Bool,
  bit_and, length, get_or, if◌then◌else◌, arith, All, IsByte, append_assoc, le→ltb-false,
}
use coro_test.Common.Error.{ok}
use coro_test.Common.Bitwise.{and_ones}
use coro_test.Common.Xor.{xor_twice}
use coro_test.Io.{Pieces, flat, IsOpen}
use coro_test.Websocket.Frame.{Role, server, client, masks, mask_key, mask_from}
use coro_test.Websocket.Connection.{Host, read_or_throw, read_body}
use coro_test.Websocket.Head.{read_or_throw_prefix}

get_or-IsByte : (key : Bytes) (i : ℕ) → All IsByte key → IsByte (get_or key i 0)
get_or-IsByte [] i all = omega arith
get_or-IsByte (k ∷ key) zero (h, all) = h
get_or-IsByte (k ∷ key) (suc i) (h, all) = get_or-IsByte key i all

pub mask_from_twice :
    (key : Bytes) (i : ℕ) (bytes : Bytes)
    → All IsByte key
    → All IsByte bytes
    → mask_from key i (mask_from key i bytes) ≡ bytes
unfolding mask_from
mask_from_twice key i [] hk hb = refl
mask_from_twice key i (b ∷ bytes) hk (h, hb) =
    rw
      (
        xor_twice 8 b (get_or key (i % 4) 0) h (get_or-IsByte key (i % 4) hk),
        mask_from_twice key (suc i) bytes hk hb,
      )
      refl

length-mask_from :
    (key : Bytes) (i : ℕ) (bytes : Bytes) → length (mask_from key i bytes) ≡ length bytes
unfolding mask_from
length-mask_from key i [] = refl
length-mask_from key i (b ∷ bytes) = ap suc (length-mask_from key (suc i) bytes)

bit_and-IsByte : (v : ℕ) → IsByte (bit_and v 0xff)
bit_and-IsByte v = omega (arith, and_ones 8 v)

mask_key-IsByte : (rand : ℕ) → All IsByte (mask_key rand)
unfolding mask_key
mask_key-IsByte rand =
    (bit_and-IsByte _, (bit_and-IsByte _, (bit_and-IsByte _, (bit_and-IsByte _, tt))))

length-mask_key : (rand : ℕ) → length (mask_key rand) ≡ 4
unfolding mask_key
length-mask_key rand = refl

-- The key and the payload as they stand in the frame.
abbrev pub body_bytes : Role → ℕ → Bytes → Bytes
body_bytes role rand bytes =
    if masks role then mask_key rand ++ mask_from (mask_key rand) 0 bytes else bytes

abbrev ReadsBody : Host → Bool → ℕ → Bytes → Pieces → Bytes → Type 0
ReadsBody host masked offset bytes pieces more =
    (rest : Pieces) × (read_body host masked offset (length bytes) pieces ≡ ok (bytes, rest))
    × (flat rest ≡ more)
    × IsOpen rest

pub read_body_lem :
    (host : Host) (role : Role) (rand offset : ℕ) (bytes : Bytes) (pieces : Pieces) (more : Bytes)
    → All IsByte bytes
    → offset + length bytes ≤ host.room
    → host.room < 2 ^ 64
    → IsOpen pieces
    → flat pieces ≡ body_bytes role rand bytes ++ more
    → ReadsBody host (masks role) offset bytes pieces more
unfolding read_body
read_body_lem host server rand offset bytes pieces more hb fits small op e =
    let (rest, q, left, op') = read_or_throw_prefix pieces bytes more op e in
    let exact : (offset + length bytes) % 2 ^ 64 ≡ offset + length bytes = omega arith in
    let room = le→ltb-false host.room (offset + length bytes) fits in
    let whole = le→ltb-false (offset + length bytes) (offset + length bytes) (omega arith) in
    (rest, rw (read_body, exact) (rw (room, whole, q) refl), left, op')
read_body_lem host client rand offset bytes pieces more hb fits small op e =
    let key = mask_key rand in
    let masked = mask_from key 0 bytes in
    let (rest, q, left, op') =
      read_or_throw_prefix pieces key (masked ++ more) op (e ∙ append_assoc key masked more) in
    let (rest', q', left', op'') = read_or_throw_prefix rest masked more op' left in
    let q4 = subst (λ (n : ℕ). read_or_throw n pieces ≡ ok (key, rest)) (length-mask_key rand) q in
    let qn =
      subst (λ (n : ℕ). read_or_throw n rest ≡ ok (masked, rest')) (length-mask_from key 0 bytes)
        q' in
    let exact : (offset + length bytes) % 2 ^ 64 ≡ offset + length bytes = omega arith in
    let room = le→ltb-false host.room (offset + length bytes) fits in
    let whole = le→ltb-false (offset + length bytes) (offset + length bytes) (omega arith) in
    let back = mask_from_twice key 0 bytes (mask_key-IsByte rand) hb in
    (rest', rw (read_body, exact, q4) (rw (room, whole, qn, back) refl), left', op'')
