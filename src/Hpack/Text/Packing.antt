-- ===== src/Hpack/Text/Packing.antt =====
-- The loop of `encodeStr` in extensions/http2/src/hpack/Hpack.cc packs the codes of a text into bytes, and fills
-- the last one with ones.
use coro_test.Common.{
  All, IsByte, ℕ, ◌+◌, ◌-◌, ◌*◌, ◌/◌, ◌%◌, ◌^◌, ◌≤◌, ◌<◌, ◌≡◌, refl, sym, ap, subst, ◌∙◌, [], ◌∷◌,
  ◌++◌, Bytes, true, false, arith, bit_or, ltb, length, length-append, append_assoc, append-nil,
  if_elim,
}
use coro_test.Common.Bitwise.{or_shifted}
use coro_test.Hpack.Text.{HuffmanTables, flush, huffman_encode_loop, huffman_encode}
use coro_test.Hpack.Text.Bits.{
  Bits, value, zeros, ones, run_of, length-run_of, run_of_add, value-append, value-lt, value-zeros,
  value-ones, IsPacked, nothing, byte, IsPacked-append,
}
use coro_test.Hpack.Text.Flush.{top, top_byte, Flushed, flush-Flushed}

-- The bits of a text, by the codes of its bytes.
unfoldable pub bits_of : (ℕ → Bits) → Bytes → Bits
bits_of code [] = []
bits_of code (c ∷ cs) = code c ++ bits_of code cs

value_shifted : (f : Bits) (n : ℕ) → value (f ++ zeros n) ≡ value f * 2 ^ n
value_shifted f n =
    value-append f (zeros n)
    ∙ ap (λ (m : ℕ). value f * 2 ^ m + value (zeros n)) (length-run_of false n)
    ∙ ap (λ (m : ℕ). value f * 2 ^ n + m) (value-zeros n)
    ∙ omega arith

-- 64 bits hold what fewer hold.
value_64 : (n : ℕ) (x : Bits) → n + length x ≡ 64 → value x < 2 ^ 64
value_64 n x size =
    let all : length (zeros n ++ x) ≡ 64 =
      omega (arith, length-append (zeros n) x, length-run_of false n) in
    let small : value (zeros n ++ x) < 2 ^ 64 =
      subst (λ (m : ℕ). value (zeros n ++ x) < 2 ^ m) all (value-lt (zeros n ++ x)) in
    let same : value (zeros n ++ x) ≡ value x =
      value-append (zeros n) x
      ∙ ap (λ (m : ℕ). m * 2 ^ length x + value x) (value-zeros n)
      ∙ omega arith in
    omega (arith, small, same)

-- Fields side by side.
or_behind :
    (m : ℕ) (p x : Bits) → length x ≡ m → bit_or (value (p ++ zeros m)) (value x) ≡ value (p ++ x)
or_behind m p x size =
    let small : value x < 2 ^ m = subst (λ (n : ℕ). value x < 2 ^ n) size (value-lt x) in
    ap (λ (v : ℕ). bit_or v (value x)) (value_shifted p m)
    ∙ or_shifted m (value p) (value x) small
    ∙ ap (λ (n : ℕ). value p * 2 ^ n + value x) (sym size)
    ∙ sym (value-append p x)

-- A code goes behind the bits that wait.
add_code :
    (p w : Bits)
    → length p < 8
    → length w ≤ 30
    → bit_or (top p) (value (w ++ zeros (32 - length w)) * 2 ^ (32 - length p) % 2 ^ 64)
      ≡ top (p ++ w)
add_code p w few short =
    let k = 32 - length w in
    let a = 32 - length p in
    let x = (w ++ zeros k) ++ zeros a in
    let size : length x ≡ 64 - length p = omega (
      arith,
      length-append (w ++ zeros k) (zeros a),
      length-append w (zeros k),
      length-run_of false k,
      length-run_of false a,
    ) in
    let fits : value x < 2 ^ 64 = value_64 (length p) x (omega arith) in
    let field : value (w ++ zeros k) * 2 ^ a % 2 ^ 64 ≡ value x =
      omega (arith, value_shifted (w ++ zeros k) a, fits) in
    let filled : p ++ x ≡ (p ++ w) ++ zeros (64 - length (p ++ w)) =
      ap (λ (t : Bits). p ++ t) (append_assoc w (zeros k) (zeros a))
      ∙ sym (append_assoc p w (zeros k ++ zeros a))
      ∙ ap (λ (t : Bits). (p ++ w) ++ t) (run_of_add false k a)
      ∙ ap (λ (n : ℕ). (p ++ w) ++ zeros n) (omega (arith, length-append p w)) in
    ap (λ (v : ℕ). bit_or (top p) v) field
    ∙ or_behind (64 - length p) p x size
    ∙ ap (λ (t : Bits). value t) filled

-- The last byte, filled with ones.
last_byte :
    (p : Bits)
    → length p < 8
    → bit_or (top p / 2 ^ 56) (2 ^ (8 - length p) - 1) ≡ value (p ++ ones (8 - length p))
last_byte p few =
    let m = 8 - length p in
    let f = p ++ zeros m in
    let split : p ++ zeros (64 - length p) ≡ f ++ zeros 56 =
      ap (λ (n : ℕ). p ++ zeros n) {x = 64 - length p} {y = m + 56} (omega arith)
      ∙ ap (λ (t : Bits). p ++ t) (sym (run_of_add false m 56))
      ∙ sym (append_assoc p (zeros m) (zeros 56)) in
    let first : top p / 2 ^ 56 ≡ value f =
      ap (λ (t : Bits). value t / 2 ^ 56) split
      ∙ (top_byte f (zeros 56) (length-run_of false 56)).0 in
    let filling : 2 ^ m - 1 ≡ value (ones m) = omega (arith, value-ones m) in
    ap (λ (v : ℕ). bit_or v (2 ^ m - 1)) first
    ∙ ap (λ (v : ℕ). bit_or (value f) v) filling
    ∙ or_behind m p (ones m) (length-run_of true m)

-- A text behind the bits that wait, packed, with less than eight ones to fill the last byte.
abbrev Packs : Bytes → Bits → Bytes → Type 0
Packs out bits result =
    (whole : Bytes) × (k : ℕ) × IsPacked whole (bits ++ ones k) × (k < 8) × (result ≡ out ++ whole)

module _ (tables : HuffmanTables) (code : ℕ → Bits)
    (syms : (c : ℕ)
      → IsByte c
      → ((tables.sym_entry c).nbits ≡ length (code c))
        × ((tables.sym_entry c).code ≡ value (code c ++ zeros (32 - length (code c))))
        × (length (code c) ≤ 30)) where
  huffman_encode_loop-Packs :
      (cs : Bytes) (acc nbits : ℕ) (out : Bytes) (p : Bits)
      → All IsByte cs
      → nbits ≡ length p
      → acc ≡ top p
      → length p < 8
      → Packs out (p ++ bits_of code cs) (huffman_encode_loop tables cs acc nbits out)
  unfolding huffman_encode_loop bits_of
  huffman_encode_loop-Packs [] acc nbits out p good size at_top few =
      if_elim (Packs out (p ++ [])) (ltb 0 nbits)
        (λ waiting.
          let m = 8 - length p in
          let eight : length (p ++ ones m) ≡ 8 =
            omega (arith, length-append p (ones m), length-run_of true m) in
          let same : (p ++ ones m) ++ [] ≡ (p ++ []) ++ ones m =
            append-nil (p ++ ones m) ∙ ap (λ (t : Bits). t ++ ones m) (sym (append-nil p)) in
          (
            value (p ++ ones m) ∷ [],
            m,
            subst (IsPacked (value (p ++ ones m) ∷ [])) same (byte (p ++ ones m) eight nothing),
            ground arith,
            ap (λ (v : ℕ). out ++ v ∷ [])
                (ap (λ (a : ℕ). bit_or (a / 2 ^ 56) (2 ^ (8 - nbits) - 1)) at_top
                  ∙ ap (λ (n : ℕ). bit_or (top p / 2 ^ 56) (2 ^ (8 - n) - 1)) size
                  ∙ last_byte p few),
          ))
        (λ full. ([], 0, none_left p (ground arith), omega arith, sym (append-nil out)))
    where
      none_left : (q : Bits) → length q ≡ 0 → IsPacked [] ((q ++ []) ++ ones 0)
      none_left [] e = unfold run_of in nothing
      none_left (b ∷ q) e = absurd (omega arith)
  huffman_encode_loop-Packs (c ∷ cs) acc nbits out p (small, good) size at_top few =
      let (bits, word, short) = syms c small in
      let w = code c in
      let n = nbits + (tables.sym_entry c).nbits in
      let joined : bit_or acc ((tables.sym_entry c).code * 2 ^ (32 - nbits) % 2 ^ 64)
          ≡ top (p ++ w) =
        ap (λ (a : ℕ). bit_or a ((tables.sym_entry c).code * 2 ^ (32 - nbits) % 2 ^ 64)) at_top
        ∙ ap (λ (v : ℕ). bit_or (top p) (v * 2 ^ (32 - nbits) % 2 ^ 64)) word
        ∙ ap
            (λ (m : ℕ). bit_or (top p) (value (w ++ zeros (32 - length w)) * 2 ^ (32 - m) % 2 ^ 64))
            size
        ∙ add_code p w few short in
      let both = length-append p w in
      go (flush tables n _ n out)
        (flush-Flushed tables n _ n out (p ++ w) (omega arith) joined (omega arith) (omega arith))
        (λ acc' nbits' out' p' h k l. huffman_encode_loop-Packs cs acc' nbits' out' p' good h k l)
    where
      go :
          (x : Bytes × ℕ × ℕ)
          → Flushed (p ++ code c) out x
          → ((acc' nbits' : ℕ) (out' : Bytes) (p' : Bits)
              → nbits' ≡ length p'
              → acc' ≡ top p'
              → length p' < 8
              → Packs out' (p' ++ bits_of code cs) (huffman_encode_loop tables cs acc' nbits' out'))
          → Packs out (p ++ (code c ++ bits_of code cs)) (huffman_encode_loop tables cs x.1 x.2 x.0)
      go (out', acc', nbits') (whole, bits, rest, packed, e, few', e_out, e_code, e_bits) again =
          let (whole', k, packed', few_ones, e') = again acc' nbits' out' rest e_bits e_code few' in
          let more = bits_of code cs in
          let order : bits ++ ((rest ++ more) ++ ones k) ≡ (p ++ (code c ++ more)) ++ ones k =
            sym (append_assoc bits (rest ++ more) (ones k))
            ∙ ap (λ (t : Bits). t ++ ones k)
                (sym (append_assoc bits rest more)
                  ∙ ap (λ (t : Bits). t ++ more) e
                  ∙ append_assoc p (code c) more) in
          (
            whole ++ whole',
            k,
            subst (IsPacked (whole ++ whole')) order
                (IsPacked-append whole whole' bits ((rest ++ more) ++ ones k) packed packed'),
            few_ones,
            e' ∙ ap (λ (o : Bytes). o ++ whole') e_out ∙ append_assoc out whole whole',
          )

  pub huffman_encode-IsPacked :
      (s : Bytes)
      → All IsByte s
      → (k : ℕ) × (k < 8) × IsPacked (huffman_encode tables s) (bits_of code s ++ ones k)
  unfolding huffman_encode
  huffman_encode-IsPacked s good =
      let (whole, k, packed, few, e) =
        huffman_encode_loop-Packs s 0 0 [] [] good refl (sym (value-zeros 64)) (omega arith) in
      (k, few, rw e packed)
