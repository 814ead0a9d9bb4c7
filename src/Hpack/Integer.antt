-- ===== src/Hpack/Integer.antt =====
-- Integers with a prefix: `encodeInt` and `decodeInt` of extensions/http2/src/hpack/Hpack.cc
-- (RFC 7541, section 5.1).
pub mod RoundTrip
use mathlib.Core.WellFounded.{Acc}
use mathlib.Core.Logic.{dite}
use native.Mathlib.Decide.{dec_lt}
use coro_test.Common.{
  ℕ, ◌+◌, ◌-◌, ◌*◌, ◌/◌, ◌%◌, ◌^◌, ◌≤◌, ◌<◌, List, [], ◌∷◌, ◌++◌, Bytes, bit_and, bit_or, ltb, leb,
  ◌==◌, if◌then◌else◌, arith,
}
use coro_test.Common.Order.{lt_wf}
use coro_test.Common.Error.{Result, ok, err}

-- What ends a decoding. `shift_overflow` is no exception of the source: there a shift of a
-- `uint64_t` by 64 bits or more is undefined. `out_of_bounds` stands for a read behind the buffer.
pub data Fault : Type 0 where
  out_of_bounds : Fault
  shift_overflow : Fault
  unexpected_end : Fault
  length_exceeds_buffer : Fault
  allocation_failed : Fault
  huffman_error : Fault
  pseudo_after_regular : Fault
  duplicate_pseudo : Fault
  response_pseudo : Fault
  unknown_pseudo : Fault
  index_zero : Fault
  index_out_of_range : Fault
  size_update_late : Fault
  size_update_too_large : Fault

abbrev pub IsU64 : ℕ → Type 0
IsU64 n = n < 2 ^ 64

-- The `while (pos < len)` loop; the list is `data` from `pos` on. `m` grows by 7 with each byte, and
-- does not wrap.
unfoldable pub decode_groups : Bytes → ℕ → ℕ → Result Fault (ℕ × Bytes)
decode_groups [] value m = ok (value, [])
decode_groups (b ∷ bs) value m =
    let value' = (value + bit_and b 0x7f * 2 ^ m % 2 ^ 64) % 2 ^ 64 in
    let more = decode_groups bs value' (m + 7) in
    if leb 64 m then err shift_overflow else if bit_and b 0x80 == 0 then ok (value', bs) else more

-- `decodeInt` at `data + pos`, with the bytes from the new `pos` on.
unfoldable pub decode_int : Bytes → ℕ → Result Fault (ℕ × Bytes)
decode_int [] prefix_bits = err out_of_bounds
decode_int (b ∷ bs) prefix_bits =
    let mask = 2 ^ prefix_bits - 1 in
    let value = bit_and b mask in
    if ltb value mask then ok (value, bs) else decode_groups bs value 0

pub shift_shrinks : (v : ℕ) → 127 < v → v / 128 < v
shift_shrinks v h = omega arith

-- `while (value >= 0x80)` and the last byte. `(value & 0x7f) | 0x80` is cut to a byte, and reads the
-- low byte of `value` only.
unfoldable pub encode_groups : (value : ℕ) → Acc ◌<◌ value → Bytes
encode_groups value (Acc.intro _ smaller) =
    dite (dec_lt 127 value)
      (λ more.
        bit_or (bit_and (value % 256) 0x7f) 0x80
        ∷ encode_groups (value / 128) (smaller _ (shift_shrinks value more)))
      (λ _. value % 256 ∷ [])

-- `encodeInt` appends to `out`; these are the bytes that it appends.
unfoldable pub int_bytes : ℕ → ℕ → ℕ → Bytes
int_bytes value prefix_bits first_byte =
    let max_val = 2 ^ prefix_bits - 1 in
    if ltb value max_val
    then bit_or first_byte (value % 256) ∷ []
    else bit_or first_byte (max_val % 256)
      ∷ encode_groups (value - max_val) (lt_wf.apply (value - max_val))

unfoldable pub encode_int : Bytes → ℕ → ℕ → ℕ → Bytes
encode_int out value prefix_bits first_byte = out ++ int_bytes value prefix_bits first_byte
