-- ===== src/Hpack/Text.antt =====
-- String literals: `huffmanDecode`, `decodeStr` and `encodeStr` of extensions/http2/src/hpack/Hpack.cc
-- (RFC 7541, section 5.2). The two tables of HuffmanTable.cc, a copy of nghttp2's, are parameters.
pub mod RoundTrip
pub mod Bits
pub mod Code
pub mod Flush
pub mod Packing
pub mod Unpacking
use coro_test.Common.{
  ℕ, zero, suc, ◌+◌, ◌-◌, ◌*◌, ◌/◌, ◌%◌, ◌^◌, List, [], ◌∷◌, ◌++◌, Bytes, Bool, true, false,
  bit_and, bit_or, ltb, leb, ◌==◌, if◌then◌else◌, not, length, take, drop,
}
use coro_test.Common.Error.{Result, ok, err, ◌>>=◌, ◌>>◌, throw_if}
use coro_test.Hpack.Integer.{
  Fault, decode_int, encode_int, unexpected_end, length_exceeds_buffer, allocation_failed,
  huffman_error, out_of_bounds,
}

pub record HuffDecode : Type 0 where
  pub fstate : ℕ
  pub flags : ℕ
  pub sym : ℕ

pub record HuffSym : Type 0 where
  pub nbits : ℕ
  pub code : ℕ

-- `kHuffDecodeTable[state][nibble]` and `kHuffSymTable[byte]`.
pub record HuffmanTables : Type 0 where
  pub decode_entry : ℕ → ℕ → HuffDecode
  pub sym_entry : ℕ → HuffSym

abbrev pub accepted : ℕ
accepted = 1

abbrev pub sym_flag : ℕ
sym_flag = 2

abbrev pub is_set : ℕ → ℕ → Bool
is_set flags flag = not (bit_and flags flag == 0)

-- The memory that a process of a 64-bit machine has.
abbrev pub address_space : ℕ
address_space = 2 ^ 47

-- What ends `decodeStr` for a string that is longer than what is left of a buffer of `len` bytes: the request
-- for memory, `reserve` or `assign`, throws where there cannot be this much beside the buffer, else bytes behind the
-- buffer are read. `reserve` is asked for `len * 8 / 5` bytes, a product that wraps.
unfoldable pub past_buffer : Bool → ℕ → ℕ → Fault
past_buffer huffman len str_len =
    let size = if huffman then str_len * 8 % 2 ^ 64 / 5 else str_len in
    if ltb address_space (len + size) then allocation_failed else out_of_bounds

module _ (tables : HuffmanTables) where
  -- One nibble: the new state, and the text with the symbol that the transition emits.
  unfoldable pub huffman_nibble : HuffDecode → Bytes → ℕ → Result Fault (HuffDecode × Bytes)
  huffman_nibble t result nibble =
      let next = tables.decode_entry t.fstate nibble in
      if next.fstate == 0x100
      then err huffman_error
      else ok (next, if is_set next.flags sym_flag then result ++ (next.sym ∷ []) else result)

  unfoldable pub huffman_loop : HuffDecode → Bytes → Bytes → Result Fault Bytes
  huffman_loop t result [] = if is_set t.flags accepted then ok result else err huffman_error
  huffman_loop t result (c ∷ cs) = do
    (t', r') ← huffman_nibble t result (c / 16)
    (t'', r'') ← huffman_nibble t' r' (bit_and c 0xf)
    huffman_loop t'' r'' cs

  unfoldable pub huffman_decode : Bytes → Result Fault Bytes
  huffman_decode bytes = huffman_loop (record { fstate = 0; flags = accepted; sym = 0 }) [] bytes

  -- `decodeStr` in a buffer of `len` bytes, of which `rest` stands from `pos` on. The sum in the
  -- length check wraps at 64 bits.
  unfoldable pub decode_str : ℕ → Bytes → Result Fault (Bytes × Bytes)
  decode_str len [] = err unexpected_end
  decode_str len (b ∷ bs) = do
    (str_len, rest) ← decode_int (b ∷ bs) 7
    let pos = len - length rest
    throw_if (ltb len ((pos + str_len) % 2 ^ 64)) length_exceeds_buffer
    throw_if (ltb (length rest) str_len) (past_buffer (is_set b 0x80) len str_len)
    result ← (if is_set b 0x80 then huffman_decode (take str_len rest) else ok (take str_len rest))
    ok (result, drop str_len rest)

  -- `while (nbits >= 8)`: whole bytes leave the top of the 64-bit `code`.
  unfoldable pub flush : ℕ → ℕ → ℕ → Bytes → Bytes × ℕ × ℕ
  flush zero code nbits out = (out, code, nbits)
  flush (suc fuel) code nbits out =
      let more = flush fuel (code * 2 ^ 8 % 2 ^ 64) (nbits - 8) (out ++ (code / 2 ^ 56 ∷ [])) in
      if leb 8 nbits then more else (out, code, nbits)

  -- The loop over the text; `flush` needs at most `nbits` rounds.
  unfoldable pub huffman_encode_loop : Bytes → ℕ → ℕ → Bytes → Bytes
  huffman_encode_loop [] code nbits out =
      if ltb 0 nbits then out ++ (bit_or (code / 2 ^ 56) (2 ^ (8 - nbits) - 1) ∷ []) else out
  huffman_encode_loop (c ∷ cs) code nbits out =
      let sym = tables.sym_entry c in
      let code' = bit_or code (sym.code * 2 ^ (32 - nbits) % 2 ^ 64) in
      let (out', code'', nbits') = flush (nbits + sym.nbits) code' (nbits + sym.nbits) out in
      huffman_encode_loop cs code'' nbits' out'

  -- What `encodeStr` puts behind the place of the length: the text in Huffman code.
  unfoldable pub huffman_encode : Bytes → Bytes
  huffman_encode s = huffman_encode_loop s 0 0 []

  -- What `encodeStr` appends to `out` in the end: the shorter of the two forms.
  unfoldable pub str_bytes : Bytes → Bytes
  str_bytes s =
      let huff = huffman_encode s in
      if ltb (length huff) (length s)
      then encode_int [] (length huff) 7 0x80 ++ huff
      else encode_int [] (length s) 7 0x00 ++ s

  unfoldable pub encode_str : Bytes → Bytes → Bytes
  encode_str out s = out ++ str_bytes s
