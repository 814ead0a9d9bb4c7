-- ===== src/Hpack/Decoder/Reads.antt =====
-- The parts of the decoder never read outside the buffer, and say how much they leave.
use coro_test.Common.{
  ltb→lt, lt→ltb, ◌<◌, ℕ, suc, ◌+◌, ◌-◌, ◌*◌, ◌/◌, ◌%◌, ◌^◌, ◌≤◌, ◌≡◌, ◌≢◌, refl, ap, [], ◌∷◌,
  Bytes, Bool, true, false, arith, ltb, leb, ◌==◌, if◌then◌else◌, length, take, length-drop,
  bit_and,
}
use coro_test.Common.Error.{Result, ok, err, ◌>>=◌, ◌>>◌, throw_if}
use coro_test.Hpack.Table.{HpackTable, get}
use coro_test.Hpack.Integer.{
  Fault, out_of_bounds, shift_overflow, length_exceeds_buffer, huffman_error, index_out_of_range,
  decode_groups, decode_int,
}
use coro_test.Common.Bitwise.{and_ones}
use coro_test.Hpack.Text.{
  past_buffer, HuffmanTables, HuffDecode, huffman_nibble, huffman_loop, huffman_decode, decode_str,
  is_set, accepted,
}
use coro_test.Hpack.Decoder.{
  DecodedHeaders, Applied, apply_pseudo, apply_header, table_get, read_literal,
}

-- A result that fulfils `P`, or a throw that is not a read out of bounds.
abbrev pub Safe : {A : Type 0} → (A → Type 0) → Result Fault A → Type 0
Safe P (ok a) = P a
Safe P (err x) = x ≢ out_of_bounds

pub Safe-bind :
    {A B : Type 0} (P : A → Type 0) (Q : B → Type 0) (m : Result Fault A) (f : A → Result Fault B)
    → Safe P m
    → ((a : A) → P a → Safe Q (f a))
    → Safe Q (m >>= f)
Safe-bind P Q (ok a) f h k = k a h
Safe-bind P Q (err x) f h k = h

pub Safe-both :
    {A : Type 0} (P Q : A → Type 0) (r : Result Fault A)
    → Safe P r
    → Safe Q r
    → Safe (λ a. P a × Q a) r
Safe-both P Q (ok a) h k = (h, k)
Safe-both P Q (err x) h k = h

pub Safe-throw_if :
    {B : Type 0} (Q : B → Type 0) (b : Bool) (x : Fault) (m : Result Fault B)
    → (b ≡ true → x ≢ out_of_bounds)
    → (b ≡ false → Safe Q m)
    → Safe Q (throw_if b x >> m)
Safe-throw_if Q true x m h k = h refl
Safe-throw_if Q false x m h k = k refl

pub Safe-if :
    {A : Type 0} (P : A → Type 0) (b : Bool) (m n : Result Fault A)
    → Safe P m
    → Safe P n
    → Safe P (if b then m else n)
Safe-if P true m n h k = h
Safe-if P false m n h k = k

abbrev pub Any : {A : Type 0} → A → Type 0
Any a = Unit {0}

-- At most `n` bytes are left behind a value.
abbrev pub Leaves : {A : Type 0} → ℕ → A × Bytes → Type 0
Leaves n (a, rest) = length rest ≤ n

pub Leaves-mono :
    {A : Type 0} (m n : ℕ) (r : Result Fault (A × Bytes))
    → m ≤ n
    → Safe (Leaves m) r
    → Safe (Leaves n) r
Leaves-mono m n (ok (a, rest)) h k = omega arith
Leaves-mono m n (err x) h k = k

decode_groups-Safe :
    (bs : Bytes) (value m : ℕ) → Safe (Leaves (length bs)) (decode_groups bs value m)
unfolding decode_groups
decode_groups-Safe [] value m = omega arith
decode_groups-Safe (b ∷ bs) value m =
    let value' = (value + bit_and b 0x7f * 2 ^ m % 2 ^ 64) % 2 ^ 64 in
    Safe-if (Leaves (suc (length bs))) (leb 64 m) (err shift_overflow) _ (λ e. cc)
      (Safe-if (Leaves (suc (length bs))) (bit_and b 0x80 == 0) (ok (value', bs)) _ (omega arith) (
        Leaves-mono (length bs) (suc (length bs)) _ (omega arith)
          (decode_groups-Safe bs value' (m + 7))))

pub decode_int-Safe :
    (b : ℕ) (bs : Bytes) (n : ℕ) → Safe (Leaves (length bs)) (decode_int (b ∷ bs) n)
unfolding decode_int
decode_int-Safe b bs n =
    let mask = 2 ^ n - 1 in
    Safe-if (Leaves (length bs)) (ltb (bit_and b mask) mask) (ok (bit_and b mask, bs)) _
      (omega arith) (decode_groups-Safe bs (bit_and b mask) 0)

abbrev Fits : ℕ × Bytes → Type 0
Fits (value, rest) = value < 2 ^ 64

decode_groups-Fits :
    (bs : Bytes) (value m : ℕ) → value < 2 ^ 64 → Safe Fits (decode_groups bs value m)
unfolding decode_groups
decode_groups-Fits [] value m small = small
decode_groups-Fits (b ∷ bs) value m small =
    let value' = (value + bit_and b 0x7f * 2 ^ m % 2 ^ 64) % 2 ^ 64 in
    let small' : value' < 2 ^ 64 = omega arith in
    Safe-if Fits (leb 64 m) (err shift_overflow) _ (λ e. cc)
      (Safe-if Fits (bit_and b 0x80 == 0) (ok (value', bs)) _ small'
        (decode_groups-Fits bs value' (m + 7) small'))

-- An integer with a prefix of 7 bits has 64.
decode_int-Fits : (b : ℕ) (bs : Bytes) → Safe Fits (decode_int (b ∷ bs) 7)
unfolding decode_int
decode_int-Fits b bs =
    let small : bit_and b 127 < 2 ^ 64 = omega (arith, and_ones 7 b) in
    Safe-if Fits (ltb (bit_and b 127) 127) (ok (bit_and b 127, bs)) _ small
      (decode_groups-Fits bs (bit_and b 127) 0 small)

-- A length that passes the check, and is still longer than what is left, passed by wrapping.
past_buffer-throws :
    (huffman : Bool) (len left str_len : ℕ)
    → str_len < 2 ^ 64
    → ltb len ((len - left + str_len) % 2 ^ 64) ≡ false
    → left < str_len
    → past_buffer huffman len str_len ≢ out_of_bounds
unfolding past_buffer
past_buffer-throws true len left str_len fits checked longer =
    let within : (len - left + str_len) % 2 ^ 64 ≤ len = ground arith in
    let large : 2 ^ 47 < len + str_len * 8 % 2 ^ 64 / 5 = omega arith in
    rw (lt→ltb (2 ^ 47) (len + str_len * 8 % 2 ^ 64 / 5) large) (λ e. cc)
past_buffer-throws false len left str_len fits checked longer =
    let within : (len - left + str_len) % 2 ^ 64 ≤ len = ground arith in
    let large : 2 ^ 47 < len + str_len = omega arith in
    rw (lt→ltb (2 ^ 47) (len + str_len) large) (λ e. cc)

pub table_get-Safe : (t : HpackTable) (i : ℕ) → Safe Any (table_get t i)
unfolding table_get
table_get-Safe t i =
    elim (get t i) as (λ r. Safe Any (elim r [ ok e ↦ ok e | err x ↦ err index_out_of_range ])) [
      | ok e ↦ tt
      | err x ↦ λ e. cc
    ]

module _ (tables : HuffmanTables) where
  huffman_nibble-Safe :
      (t : HuffDecode) (r : Bytes) (n : ℕ) → Safe Any (huffman_nibble tables t r n)
  unfolding huffman_nibble
  huffman_nibble-Safe t r n =
      Safe-if Any ((tables.decode_entry t.fstate n).fstate == 0x100) (err huffman_error) _ (λ e. cc)
        tt

  huffman_loop-Safe : (t : HuffDecode) (r bs : Bytes) → Safe Any (huffman_loop tables t r bs)
  unfolding huffman_loop
  huffman_loop-Safe t r [] =
      Safe-if Any (is_set t.flags accepted) (ok r) (err huffman_error) tt (λ e. cc)
  huffman_loop-Safe t r (c ∷ cs) =
      Safe-bind Any Any (huffman_nibble tables t r (c / 16)) _ (huffman_nibble-Safe t r (c / 16))
        λ (t', r') _.
          Safe-bind Any Any (huffman_nibble tables t' r' (bit_and c 0xf)) _
            (huffman_nibble-Safe t' r' (bit_and c 0xf)) λ (t'', r'') _. huffman_loop-Safe t'' r'' cs

  -- A string takes the byte of its length at least.
  decode_str_cons-Safe :
      (len b : ℕ) (bs : Bytes) → Safe (Leaves (length bs)) (decode_str tables len (b ∷ bs))
  unfolding decode_str huffman_decode
  decode_str_cons-Safe len b bs =
      Safe-bind (λ x. Leaves (length bs) x × Fits x) (Leaves (length bs)) (decode_int (b ∷ bs) 7) _
        (Safe-both (Leaves (length bs)) Fits (decode_int (b ∷ bs) 7) (decode_int-Safe b bs 7)
          (decode_int-Fits b bs))
        λ (str_len, rest) (h, fits).
          Safe-throw_if (Leaves (length bs)) (ltb len ((len - length rest + str_len) % 2 ^ 64))
            length_exceeds_buffer _ (λ _ e. cc)
            λ checked.
              Safe-throw_if (Leaves (length bs)) (ltb (length rest) str_len)
                (past_buffer (is_set b 0x80) len str_len) _
                (λ longer.
                  past_buffer-throws (is_set b 0x80) len (length rest) str_len fits checked
                    (ltb→lt (length rest) str_len longer))
                λ _.
                  Safe-bind Any (Leaves (length bs))
                    (if is_set b 0x80
                      then huffman_decode tables (take str_len rest)
                      else ok (take str_len rest))
                    _
                    (Safe-if Any (is_set b 0x80) (huffman_decode tables (take str_len rest))
                      (ok (take str_len rest)) (huffman_loop-Safe _ _ _) tt)
                    λ r _. omega (arith, length-drop str_len rest, h)

  pub decode_str-Safe :
      (len n : ℕ) (bs : Bytes) → length bs ≤ n → Safe (Leaves n) (decode_str tables len bs)
  decode_str-Safe len n [] h = unfold decode_str in λ e. cc
  decode_str-Safe len n (b ∷ bs) h =
      Leaves-mono (length bs) n (decode_str tables len (b ∷ bs)) (omega arith)
        (decode_str_cons-Safe len b bs)

  -- A literal takes its first byte at least.
  pub read_literal-Safe :
      (len n b : ℕ) (t : HpackTable) (bs : Bytes)
      → Safe (λ (name, value, rest). length rest ≤ length bs) (read_literal tables len t n (b ∷ bs))
  unfolding read_literal
  read_literal-Safe len n b t bs =
      Safe-bind (Leaves (length bs)) (λ (name, value, rest). length rest ≤ length bs)
        (decode_int (b ∷ bs) n) _ (decode_int-Safe b bs n)
        λ (idx, after) h.
          Safe-bind (Leaves (length bs)) (λ (name, value, rest). length rest ≤ length bs)
            (if idx == 0
              then decode_str tables len after
              else (table_get t idx >>= λ e. ok (e.name, after)))
            _
            (Safe-if (Leaves (length bs)) (idx == 0) (decode_str tables len after)
              (table_get t idx >>= λ e. ok (e.name, after))
              (decode_str-Safe len (length bs) after h)
              (Safe-bind Any (Leaves (length bs)) (table_get t idx) (λ e. ok (e.name, after))
                (table_get-Safe t idx) λ e _. h))
            λ (name, behind) k.
              Safe-bind (Leaves (length bs)) (λ (name, value, rest). length rest ≤ length bs)
                (decode_str tables len behind) _ (decode_str-Safe len (length bs) behind k)
                λ (value, last) l. l

Safe-of_ne : {A : Type 0} (r : Result Fault A) → r ≢ err out_of_bounds → Safe Any r
Safe-of_ne (ok a) h = tt
Safe-of_ne (err x) h = λ e. h (ap err e)

apply_pseudo-ne :
    (out : DecodedHeaders) (name value : Bytes) → apply_pseudo out name value ≢ err out_of_bounds
unfolding apply_pseudo
apply_pseudo-ne out name value = ground arith

apply_header-ne :
    (out : DecodedHeaders) (seen : Bool) (name value : Bytes)
    → apply_header (out, seen) name value ≢ err out_of_bounds
unfolding apply_header
apply_header-ne out seen name value = ground (arith, apply_pseudo-ne out name value)

pub apply_header-Safe : (a : Applied) (name value : Bytes) → Safe Any (apply_header a name value)
apply_header-Safe (out, seen) name value = Safe-of_ne _ (apply_header-ne out seen name value)
