-- ===== src/Hpack/Encoder/Lockstep.antt =====
-- The encoder of one peer against the decoder of the other, from equal tables.
use coro_test.Common.{
  All, IsByte, ℕ, zero, suc, ◌+◌, ◌^◌, ◌≤◌, ◌<◌, ◌≡◌, refl, ap, [], ◌∷◌, ◌++◌, Bytes, Bool, true,
  false, arith, Bool-cases, ltb, ◌==◌, ==_iff, inl, inr, if◌then◌else◌, length, length-append,
  append_assoc, bit_and,
}
use coro_test.Common.Bits.{each_below, of_each_below}
use coro_test.Common.Error.{ok, ◌>>=◌}
use coro_test.Common.Int.{ℤ, pos, negsuc}
use coro_test.Hpack.Table.{HpackTable, find, get, insert}
use coro_test.Hpack.Table.Static.{HeaderEntry}
use coro_test.Hpack.Table.Eviction.{IsValid, length-le-total}
use coro_test.Hpack.Table.Search.{FindLaw, find-FindLaw, get-le}
use coro_test.Hpack.Integer.{IsU64, int_bytes, encode_int}
use coro_test.Hpack.Integer.RoundTrip.{decode_int-int_bytes, int_bytes-head}
use coro_test.Hpack.Text.{
  HuffmanTables, huffman_decode, huffman_encode, str_bytes, encode_str, decode_str, is_set,
}
use coro_test.Hpack.Text.RoundTrip.{decode_str-str_bytes}
use coro_test.Hpack.Text.Code.{IsHuffman}
use coro_test.Hpack.Text.Unpacking.{huffman_decode-huffman_encode}
use coro_test.Hpack.Decoder.{
  Applied, apply_header, table_get, read_literal, decode_field, indexed_field, indexed_literal,
}
use coro_test.Hpack.Encoder.{literal, encode_found, encode_field}

high_bit : each_below 128 (λ w. bit_and (128 + w) 0x80 == 0x80) ≡ true
unfolding each_below
high_bit = refl

clear_bits : each_below 64 (λ w. bit_and (64 + w) 0x80 == 0) ≡ true
unfolding each_below
clear_bits = refl

literal_bits : each_below 64 (λ w. bit_and (64 + w) 0xc0 == 0x40) ≡ true
unfolding each_below
literal_bits = refl

indexed_flag : (w : ℕ) → w < 128 → is_set (128 + w) 0x80 ≡ true
indexed_flag w h =
    let e : bit_and (128 + w) 0x80 ≡ 0x80 =
      (==_iff _ _).0 (of_each_below 128 (λ w. bit_and (128 + w) 0x80 == 0x80) w high_bit h) in
    rw e

literal_flag :
    (w : ℕ) → w < 64 → (is_set (64 + w) 0x80 ≡ false) × ((bit_and (64 + w) 0xc0 == 0x40) ≡ true)
literal_flag w h =
    let clear : bit_and (64 + w) 0x80 ≡ 0 =
      (==_iff _ _).0 (of_each_below 64 (λ w. bit_and (64 + w) 0x80 == 0) w clear_bits h) in
    let mark : bit_and (64 + w) 0xc0 ≡ 0x40 =
      (==_iff _ _).0 (of_each_below 64 (λ w. bit_and (64 + w) 0xc0 == 0x40) w literal_bits h) in
    (rw clear, rw mark)

-- Under a limit below 2^32 every index fits the integers.
index_fits :
    (t : HpackTable) (k : ℕ) (e : HeaderEntry)
    → IsValid t
    → t.max_size < 2 ^ 32
    → get t k ≡ ok e
    → IsU64 k
index_fits t k e v small at = omega (arith, get-le t k e at, length-le-total t.dynamic)

same_branches {ℓ} : {A : Type ℓ} (b : Bool) (x : A) → (if b then x else x) ≡ x
same_branches true x = refl
same_branches false x = refl

-- The Huffman code of a text, as the encoder packs and pads it, is decoded to the text, which
-- Text/Unpacking proves of tables that fit together.
abbrev pub HuffmanAgrees : HuffmanTables → Type 0
HuffmanAgrees tables =
    (s : Bytes) → All IsByte s → huffman_decode tables (huffman_encode tables s) ≡ ok s

module _ (tables : HuffmanTables) where
  -- The bytes of a literal, its name by the index `k`, or spelled out at the index 0.
  abbrev pub literal_bytes : ℕ → Bytes → Bytes → Bytes
  literal_bytes k name value =
      int_bytes k 6 64 ++ ((if k == 0 then str_bytes tables name else []) ++ str_bytes tables value)

  pub literal-literal_bytes :
      (k : ℕ) (name value out : Bytes)
      → literal tables k name value out ≡ out ++ literal_bytes k name value
  unfolding literal encode_int encode_str
  literal-literal_bytes k name value out = elim (Bool-cases (k == 0)) [
    | inl z ↦ rw z (simp append_assoc)
    | inr nz ↦ rw nz (simp append_assoc)
  ]

module _ (tables : HuffmanTables) (agrees : HuffmanAgrees tables) where
  decode_str_round :
      (len : ℕ) (s rest : Bytes)
      → All IsByte s
      → IsU64 len
      → length (str_bytes tables s) + length rest ≤ len
      → decode_str tables len (str_bytes tables s ++ rest) ≡ ok (s, rest)
  decode_str_round len s rest bytes fits room =
      rw (decode_str-str_bytes tables len s rest fits room, agrees s bytes)
        (same_branches (ltb (length (huffman_encode tables s)) (length s)) (ok (s, rest)))

  -- The name that the decoder finds for a literal.
  abbrev pub Named : HpackTable → ℕ → Bytes → Type 0
  Named t zero name = Unit {0}
  Named t (suc k) name = (e : HeaderEntry) × (get t (suc k) ≡ ok e) × (e.name ≡ name)

  read_literal_round :
      (t : HpackTable) (len k : ℕ) (name value rest : Bytes)
      → All IsByte name
      → All IsByte value
      → IsU64 len
      → IsU64 k
      → Named t k name
      → length (literal_bytes tables k name value) + length rest ≤ len
      → read_literal tables len t 6 (literal_bytes tables k name value ++ rest)
        ≡ ok (name, value, rest)
  unfolding read_literal
  read_literal_round t len zero name value rest ns vs fits hk named room =
      let head = int_bytes 0 6 64 in
      let n = str_bytes tables name in
      let v = str_bytes tables value in
      let split : length v + length rest ≤ len =
        omega (arith, length-append head (n ++ v), length-append n v) in
      let whole : length n + length (v ++ rest) ≤ len =
        omega (arith, length-append head (n ++ v), length-append n v, length-append v rest) in
      rw (
        append_assoc head (n ++ v) rest,
        append_assoc n v rest,
        decode_int-int_bytes 0 6 1 (n ++ (v ++ rest)) (omega arith) (omega arith) (omega arith),
        decode_str_round len name (v ++ rest) ns fits whole,
        decode_str_round len value rest vs fits split,
      )
  read_literal_round t len (suc k) name value rest ns vs fits hk (e, at, same) room =
      let head = int_bytes (suc k) 6 64 in
      let v = str_bytes tables value in
      let nz : (suc k == 0) ≡ false = ground arith in
      let split : length v + length rest ≤ len =
        omega (arith, length-append head v, (rw nz at room)) in
      let found : table_get t (suc k) ≡ ok e = unfold table_get in rw (at, table_get) in
      rw (
        nz,
        append_assoc head v rest,
        decode_int-int_bytes (suc k) 6 1 (v ++ rest) (omega arith) (omega arith) hk,
        nz,
        found,
        same,
        decode_str_round len value rest vs fits split,
      )

  pub literal_round :
      (t : HpackTable) (a : Applied) (len k : ℕ) (name value rest : Bytes)
      → All IsByte name
      → All IsByte value
      → IsU64 len
      → IsU64 k
      → Named t k name
      → length (literal_bytes tables k name value) + length rest ≤ len
      → (b : ℕ) × (bs : Bytes) × (literal_bytes tables k name value ++ rest ≡ b ∷ bs)
        × (decode_field tables len t a b (b ∷ bs)
            ≡ (insert t name value, (apply_header a name value >>= λ a'. ok (a', rest))))
  literal_round t a len k name value rest ns vs fits hk named room =
      let (w, tl, e, hw) = int_bytes-head k 6 1 (omega arith) (omega arith) in
      let (clear, mark) = literal_flag w hw in
      let spelled = (if k == 0 then str_bytes tables name else []) ++ str_bytes tables value in
      let whole : literal_bytes tables k name value ++ rest ≡ (64 + w) ∷ (tl ++ spelled) ++ rest =
        ap (λ (h : Bytes). (h ++ spelled) ++ rest) e in
      (
        64 + w,
        (tl ++ spelled) ++ rest,
        whole,
        unfold decode_field indexed_literal in
            rw (
              clear,
              mark,
              ← whole,
              read_literal_round t len k name value rest ns vs fits hk named room,
              indexed_literal,
            ),
      )

  -- The round that reads what `encode_found` wrote.
  abbrev Round : HpackTable → Applied → ℕ → Bytes → Bytes → Bytes → HpackTable × Bytes → Type 0
  Round t a len name value rest (u, bytes) =
      (b : ℕ) × (bs : Bytes) × (bytes ++ rest ≡ b ∷ bs)
      × (decode_field tables len t a b (b ∷ bs)
          ≡ (u, (apply_header a name value >>= λ a'. ok (a', rest))))

  encode_found-Round :
      (t : HpackTable) (a : Applied) (len : ℕ) (name value rest : Bytes) (r : ℤ)
      → All IsByte name
      → All IsByte value
      → IsValid t
      → t.max_size < 2 ^ 32
      → IsU64 len
      → FindLaw name value t r
      → length (encode_found tables t name value [] r).1 + length rest ≤ len
      → Round t a len name value rest (encode_found tables t name value [] r)
  unfolding encode_found
  encode_found-Round t a len name value rest (pos zero) ns vs v small fits law room =
      let e = literal-literal_bytes tables 0 name value [] in
      rw e (literal_round t a len 0 name value rest ns vs fits (omega arith) tt (rw e at room))
  encode_found-Round t a len name value rest (negsuc k) ns vs v small fits ((x, at, same), _, _)
        room =
      let e = literal-literal_bytes tables (suc k) name value [] in
      rw e (
        literal_round t a len (suc k) name value rest ns vs fits (index_fits t (suc k) x v small at)
          (x, at, same) (rw e at room))
  encode_found-Round t a len name value rest (pos (suc k)) ns vs v small fits (x, at, (same, equal))
        room =
      let (w, tl, e, hw) = int_bytes-head (suc k) 7 1 (omega arith) (omega arith) in
      let whole : int_bytes (suc k) 7 128 ++ rest ≡ (128 + w) ∷ tl ++ rest =
        ap (λ (h : Bytes). h ++ rest) e in
      let read =
        decode_int-int_bytes (suc k) 7 1 rest (omega arith) (omega arith)
          (index_fits t (suc k) x v small at) in
      let nz : (suc k == 0) ≡ false = ground arith in
      let found : table_get t (suc k) ≡ ok x = unfold table_get in rw (at, table_get) in
      unfold encode_int in
      (
        128 + w,
        tl ++ rest,
        whole,
        unfold decode_field indexed_field in
            rw (indexed_flag w hw, ← whole, read, nz, found, same, equal),
      )

  pub encode_field-Round :
      (t : HpackTable) (a : Applied) (len : ℕ) (name value rest : Bytes)
      → All IsByte name
      → All IsByte value
      → IsValid t
      → t.max_size < 2 ^ 32
      → IsU64 len
      → length ((encode_field tables t name value []).1) + length rest ≤ len
      → Round t a len name value rest (encode_field tables t name value [])
  unfolding encode_field
  encode_field-Round t a len name value rest ns vs v small fits room =
      encode_found-Round t a len name value rest (find t name value) ns vs v small fits
        (find-FindLaw name value t) room

-- One header that `encode_field` writes from a table, as it does the status and the header map of a response, read by
-- a decoder whose table is the same: the decoder applies that header and goes on with the bytes that follow, and
-- its table is again the encoder's, whichever form each string has. (The tables of the Huffman code hold a code of 5
-- to 30 bits for each byte and the states that follow from it; the limit of the table is below 2^32, and the buffer holds the bytes.)
pub decode_field-encode_field :
    (tables : HuffmanTables)
    → IsHuffman tables
    → (t : HpackTable) (a : Applied) (len : ℕ) (name value rest : Bytes) → All IsByte name
    → All IsByte value
    → IsValid t
    → t.max_size < 2 ^ 32
    → IsU64 len
    → length ((encode_field tables t name value []).1) + length rest ≤ len
    → (b : ℕ) × (bs : Bytes) × ((encode_field tables t name value []).1 ++ rest ≡ b ∷ bs)
      × (decode_field tables len t a b (b ∷ bs) ≡ (
        (encode_field tables t name value []).0,
        (apply_header a name value >>= λ a'. ok (a', rest)),
      ))
decode_field-encode_field tables h t a len name value rest ns vs v small fits room =
    encode_field-Round tables (huffman_decode-huffman_encode tables h) t a len name value rest ns vs
      v small fits room
