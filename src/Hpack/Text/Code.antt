-- ===== src/Hpack/Text/Code.antt =====
-- What the two tables of extensions/http2/src/hpack/HuffmanTable.cc have to do with each other.
use coro_test.Common.{IsByte, ℕ, ◌-◌, ◌≤◌, ◌<◌, ◌≡◌, [], ◌++◌, true, false, length, ◌==◌}
use coro_test.Hpack.Text.{HuffmanTables, HuffDecode, is_set, accepted, sym_flag}
use coro_test.Hpack.Text.Bits.{Bits, value, ones, run_of}

-- The entry of the decoding table that leads to the state of the bits `q`. It is accepted where they may be the
-- filling of the last byte.
pub record LeadsTo (state : Bits → ℕ) (q : Bits) (e : HuffDecode) : Type 0 where
  pub there : e.fstate ≡ state q
  pub goes_on : (e.fstate == 0x100) ≡ false
  pub accepts : (k : ℕ) → k < 8 → q ≡ ones k → is_set e.flags accepted ≡ true

-- Two tables for one code, as RFC 7541, appendix B, has it: `kHuffSymTable` holds the code of each byte, 5 to 30 bits,
-- at the top of 32. The states of `kHuffDecodeTable` are the bits that wait for the rest of a code. With four bits
-- more there is a code, which is emitted, or still none. The filling is in front of a code.
pub record IsHuffman (tables : HuffmanTables) : Type 0 where
  pub code : ℕ → Bits
  pub syms :
      (c : ℕ)
      → IsByte c
      → ((tables.sym_entry c).nbits ≡ length (code c))
        × ((tables.sym_entry c).code ≡ value (code c ++ run_of false (32 - length (code c))))
        × (length (code c) ≤ 30)
  pub shortest : (c : ℕ) → IsByte c → 5 ≤ length (code c)
  pub state : Bits → ℕ
  pub start : state [] ≡ 0
  pub emits :
      (p nib q : Bits) (c : ℕ)
      → IsByte c
      → length nib ≡ 4
      → length p < length (code c)
      → p ++ nib ≡ code c ++ q
      → (is_set (tables.decode_entry (state p) (value nib)).flags sym_flag ≡ true)
        × ((tables.decode_entry (state p) (value nib)).sym ≡ c)
        × LeadsTo state q (tables.decode_entry (state p) (value nib))
  pub waits :
      (p nib q : Bits) (c : ℕ)
      → IsByte c
      → length nib ≡ 4
      → 0 < length q
      → (p ++ nib) ++ q ≡ code c
      → (is_set (tables.decode_entry (state p) (value nib)).flags sym_flag ≡ false)
        × LeadsTo state (p ++ nib) (tables.decode_entry (state p) (value nib))
  pub filling : (c : ℕ) × (q : Bits) × IsByte c × (0 < length q) × (code c ≡ ones 8 ++ q)
