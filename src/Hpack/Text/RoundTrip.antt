-- ===== src/Hpack/Text/RoundTrip.antt =====
-- What `decodeStr` makes of the bytes that `encodeStr` writes.
use coro_test.Common.{
  ℕ, ◌+◌, ◌-◌, ◌*◌, ◌%◌, ◌^◌, ◌≤◌, ◌<◌, ◌≡◌, [], ◌∷◌, ◌++◌, Bytes, bit_and, bit_or, arith,
  Bool-cases, ltb, ◌==◌, le→ltb-false, inl, inr, if◌then◌else◌, length, length-append,
  take-append_length, drop-append_length, append_assoc,
}
use coro_test.Common.Bits.{top_bit, union_bits}
use coro_test.Common.Error.{ok, ◌>>=◌}
use coro_test.Hpack.Integer.{IsU64, int_bytes, encode_groups, encode_int, decode_int}
use coro_test.Common.Order.{lt_wf}
use coro_test.Hpack.Integer.RoundTrip.{decode_int-int_bytes}
use coro_test.Hpack.Text.{
  HuffmanTables, decode_str, huffman_decode, huffman_encode, str_bytes, is_set,
}

-- The first byte of a length holds the H bit.
first_byte_flag :
    (k v : ℕ)
    → k < 2
    → (b : ℕ) × (t : Bytes) × (int_bytes v 7 (k * 128) ≡ b ∷ t) × (is_set b 0x80 ≡ (k == 1))
unfolding int_bytes
first_byte_flag k v hk = elim (Bool-cases (ltb v 127)) [
  | inl small ↦ (bit_or (k * 128) (v % 256), [], rw small, flag (v % 256) (ground arith))
  | inr large ↦ (
    bit_or (k * 128) 127,
    encode_groups (v - 127) (lt_wf.apply (v - 127)),
    rw large,
    flag 127 (omega arith),
  )
]
  where
    flag : (w : ℕ) → w < 128 → is_set (bit_or (k * 128) w) 0x80 ≡ (k == 1)
    flag w hw =
        let e : bit_or (k * 128) w ≡ k * 128 + w =
          union_bits 7 k w (omega arith) (omega arith) hw in
        let f : bit_and (k * 128 + w) 0x80 ≡ k * 128 =
          omega (arith, top_bit (k * 128 + w) (omega arith)) in
        rw (e, f) (ground arith)

module _ (tables : HuffmanTables) where
  -- A length with the H bit `k`, and the text behind it.
  decode_str-prefixed :
      (k len : ℕ) (body rest : Bytes)
      → k < 2
      → IsU64 len
      → length body + length rest ≤ len
      → decode_str tables len (int_bytes (length body) 7 (k * 128) ++ (body ++ rest))
        ≡ ((if k == 1 then huffman_decode tables body else ok body) >>= λ r. ok (r, rest))
  unfolding decode_str
  decode_str-prefixed k len body rest hk fits room =
      let (b, t, e, flag) = first_byte_flag k (length body) hk in
      let read : decode_int (b ∷ t ++ (body ++ rest)) 7 ≡ ok (length body, body ++ rest) = rw e at (
        decode_int-int_bytes (length body) 7 k (body ++ rest) (omega arith) (omega arith)
          (omega arith)) in
      rw (
        e,
        read,
        flag,
        length-append body rest,
        take-append_length body rest,
        drop-append_length body rest,
        le→ltb-false len ((len - (length body + length rest) + length body) % 2 ^ 64) (omega arith),
        le→ltb-false (length body + length rest) (length body) (omega arith),
      )

  -- `decodeStr` on what `encodeStr` appended, with any bytes behind it in a buffer that holds them
  -- and that can exist: where the Huffman form is the shorter one the decoder runs on exactly that
  -- form, else it returns the text; and it stops at the bytes that follow.
  pub decode_str-str_bytes :
      (len : ℕ) (s rest : Bytes)
      → IsU64 len
      → length (str_bytes tables s) + length rest ≤ len
      → decode_str tables len (str_bytes tables s ++ rest) ≡ (
          if ltb (length (huffman_encode tables s)) (length s)
          then (huffman_decode tables (huffman_encode tables s) >>= λ r. ok (r, rest))
          else ok (s, rest))
  unfolding str_bytes encode_int
  decode_str-str_bytes len s rest fits room =
      let huff = huffman_encode tables s in
      elim (Bool-cases (ltb (length huff) (length s))) [
        | inl shorter ↦
            let space : length huff + length rest ≤ len =
              omega
                (arith, length-append (int_bytes (length huff) 7 128) huff, (rw shorter at room)) in
            rw (shorter, append_assoc (int_bytes (length huff) 7 128) huff rest)
              (decode_str-prefixed 1 len huff rest (omega arith) fits space)
        | inr longer ↦
            let space : length s + length rest ≤ len =
              omega (arith, length-append (int_bytes (length s) 7 0) s, (rw longer at room)) in
            rw (longer, append_assoc (int_bytes (length s) 7 0) s rest)
              (decode_str-prefixed 0 len s rest (omega arith) fits space)
      ]
