-- ===== src/Hpack/Text/Unpacking.antt =====
-- `huffmanDecode` of extensions/http2/src/hpack/Hpack.cc reads what `encodeStr` packed, for tables that fit
-- together.
use coro_test.Common.{
  All, IsByte, ℕ, ◌+◌, ◌-◌, ◌*◌, ◌/◌, ◌^◌, ◌≤◌, ◌<◌, ◌≡◌, refl, sym, ap, subst, ◌∙◌, [], ◌∷◌, ◌++◌,
  Bytes, Bool, true, arith, bit_and, ltb, length, take, drop, length-take, length-drop,
  take-append-drop, length-append, append_assoc, append-nil, split_front, Bool-cases, ltb→lt, inl,
  inr,
}
use coro_test.Common.Error.{Result, ok, ◌>>=◌}
use coro_test.Common.Bitwise.{and_ones}
use coro_test.Hpack.Integer.{Fault}
use coro_test.Hpack.Text.{
  HuffmanTables, HuffDecode, huffman_nibble, huffman_loop, huffman_decode, huffman_encode, is_set,
  accepted,
}
use coro_test.Hpack.Text.Bits.{
  Bits, value, ones, length-run_of, run_of_add, value-append, value-lt, IsPacked, nothing, byte,
}
use coro_test.Hpack.Text.Packing.{bits_of, huffman_encode-IsPacked}
use coro_test.Hpack.Text.Code.{IsHuffman, LeadsTo}

module _ (tables : HuffmanTables) (h : IsHuffman tables) where
  -- Less bits wait than the next code has, or than a byte where there is none.
  abbrev Waits : Bits → Bytes → Type 0
  Waits p [] = length p < 8
  Waits p (c ∷ cs) = length p < length (h.code c)

  -- A nibble: what is emitted is taken off the text.
  data Nibble (rest : Bits) (k : ℕ) (s result : Bytes)
      : Result Fault (HuffDecode × Bytes) → Type 0 where
    read :
        (e : HuffDecode) (p' : Bits) (out s' result' : Bytes)
        → result' ≡ result ++ out
        → LeadsTo h.state p' e
        → out ++ s' ≡ s
        → p' ++ rest ≡ bits_of h.code s' ++ ones k
        → Waits p' s'
        → All IsByte s'
        → Nibble rest k s result (ok (e, result'))

  emitted :
      (t : HuffDecode) (p nib rest : Bits) (k c : ℕ) (s result : Bytes)
      → t.fstate ≡ h.state p
      → IsByte c
      → All IsByte s
      → length nib ≡ 4
      → length p < length (h.code c)
      → length (h.code c) ≤ length (p ++ nib)
      → (p ++ nib) ++ rest ≡ h.code c ++ (bits_of h.code s ++ ones k)
      → Nibble rest k (c ∷ s) result (huffman_nibble tables t result (value nib))
  unfolding huffman_nibble
  emitted t p nib rest k c s result at_p small good four waiting enough e =
      let (same, behind) =
        split_front (p ++ nib) rest (h.code c) (bits_of h.code s ++ ones k) e enough in
      let q = drop (length (h.code c)) (p ++ nib) in
      let (flag, symbol, next) = h.emits p nib q c small four waiting same in
      let few : length q ≤ 3 =
        omega (arith, length-drop (length (h.code c)) (p ++ nib), length-append p nib) in
      let entry = tables.decode_entry (h.state p) (value nib) in
      rw (at_p, next.goes_on, flag)
        (read entry q (entry.sym ∷ []) s _ refl next (ap (λ (d : ℕ). d ∷ s) symbol) behind
          (still s q few good) good)
    where
      still : (s' : Bytes) (q : Bits) → length q ≤ 3 → All IsByte s' → Waits q s'
      still [] q few good' = omega arith
      still (d ∷ s') q few (small', good') = omega (arith, h.shortest d small')

  waited :
      (t : HuffDecode) (p nib rest q : Bits) (k c : ℕ) (s result : Bytes)
      → t.fstate ≡ h.state p
      → IsByte c
      → length nib ≡ 4
      → 0 < length q
      → (p ++ nib) ++ q ≡ h.code c
      → (p ++ nib) ++ rest ≡ bits_of h.code s ++ ones k
      → Waits (p ++ nib) s
      → All IsByte s
      → Nibble rest k s result (huffman_nibble tables t result (value nib))
  unfolding huffman_nibble
  waited t p nib rest q k c s result at_p small four more e whole still good =
      let (flag, next) = h.waits p nib q c small four more e in
      rw (at_p, next.goes_on, flag)
        (read (tables.decode_entry (h.state p) (value nib)) (p ++ nib) [] s result
          (sym (append-nil result)) next refl whole still good)

  huffman_nibble-Nibble :
      (t : HuffDecode) (p nib rest : Bits) (k : ℕ) (s result : Bytes)
      → t.fstate ≡ h.state p
      → length nib ≡ 4
      → k < 8
      → p ++ (nib ++ rest) ≡ bits_of h.code s ++ ones k
      → Waits p s
      → All IsByte s
      → Nibble rest k s result (huffman_nibble tables t result (value nib))
  unfolding bits_of
  huffman_nibble-Nibble t p nib rest k [] result at_p four few e waiting good =
      let (c, q, small, more, layout) = h.filling in
      let filled : (p ++ nib) ++ rest ≡ ones k = append_assoc p nib rest ∙ e in
      let behind = rest ++ (ones (8 - k) ++ q) in
      let whole : (p ++ nib) ++ behind ≡ h.code c =
        sym (append_assoc (p ++ nib) rest (ones (8 - k) ++ q))
        ∙ ap (λ (t : Bits). t ++ (ones (8 - k) ++ q)) filled
        ∙ sym (append_assoc (ones k) (ones (8 - k)) q)
        ∙ ap (λ (t : Bits). t ++ q) (run_of_add true k (8 - k))
        ∙ ap (λ (n : ℕ). ones n ++ q) (omega arith)
        ∙ sym layout in
      let size : 0 < length behind =
        omega
          (arith, length-append rest (ones (8 - k) ++ q), length-append (ones (8 - k)) q, more) in
      let fits : length (p ++ nib) < 8 = omega (
        arith,
        ap (length {A = Bool}) filled,
        length-append (p ++ nib) rest,
        length-run_of true k,
      ) in
      waited t p nib rest behind k c [] result at_p small four size whole filled fits good
  huffman_nibble-Nibble t p nib rest k (c ∷ s) result at_p four few e waiting (small, good) =
      let whole : (p ++ nib) ++ rest ≡ h.code c ++ (bits_of h.code s ++ ones k) =
        append_assoc p nib rest ∙ e ∙ append_assoc (h.code c) (bits_of h.code s) (ones k) in
      elim (Bool-cases (ltb (length (p ++ nib)) (length (h.code c)))) [
        | inl short ↦
            let below = ltb→lt (length (p ++ nib)) (length (h.code c)) short in
            let (same, behind) =
              split_front (h.code c) (bits_of h.code s ++ ones k) (p ++ nib) rest (sym whole)
                (omega arith) in
            waited t p nib rest (drop (length (p ++ nib)) (h.code c)) k c (c ∷ s) result at_p small
              four (omega (arith, length-drop (length (p ++ nib)) (h.code c))) (sym same)
              (append_assoc p nib rest ∙ e) below (small, good)
        | inr enough ↦
            emitted t p nib rest k c s result at_p small good four waiting (ground arith) whole
      ]

  abbrev Accepts : Bits → HuffDecode → Type 0
  Accepts p t = (k : ℕ) → k < 8 → p ≡ ones k → is_set t.flags accepted ≡ true

  huffman_loop_nothing :
      (t : HuffDecode) (p : Bits) (k : ℕ) (s result : Bytes)
      → Accepts p t
      → k < 8
      → p ++ [] ≡ bits_of h.code s ++ ones k
      → Waits p s
      → huffman_loop tables t result [] ≡ ok (result ++ s)
  unfolding huffman_loop bits_of
  huffman_loop_nothing t p k [] result accepts few e waiting =
      rw (accepts k few (sym (append-nil p) ∙ e)) (ap ok (sym (append-nil result)))
  huffman_loop_nothing t p k (c ∷ s) result accepts few e waiting = absurd (
      omega (
        arith,
        ap (length {A = Bool}) (e ∙ append_assoc (h.code c) (bits_of h.code s) (ones k)),
        length-append p [],
        length-append (h.code c) (bits_of h.code s ++ ones k),
      ))

  -- The halves of a byte.
  halves :
      (hi lo : Bits)
      → length hi ≡ 4
      → length lo ≡ 4
      → (value (hi ++ lo) / 16 ≡ value hi) × (bit_and (value (hi ++ lo)) 0xf ≡ value lo)
  halves hi lo four four' =
      let whole : value (hi ++ lo) ≡ value hi * 2 ^ 4 + value lo =
        value-append hi lo ∙ ap (λ (n : ℕ). value hi * 2 ^ n + value lo) four' in
      let small : value lo < 2 ^ 4 = subst (λ (n : ℕ). value lo < 2 ^ n) four' (value-lt lo) in
      (omega (arith, whole, small), omega (arith, whole, small, and_ones 4 (value (hi ++ lo))))

  -- Both nibbles of a byte, and what follows it.
  two_nibbles :
      (t : HuffDecode) (p hi lo rest : Bits) (k : ℕ) (s result bytes : Bytes)
      → t.fstate ≡ h.state p
      → length hi ≡ 4
      → length lo ≡ 4
      → k < 8
      → p ++ (hi ++ (lo ++ rest)) ≡ bits_of h.code s ++ ones k
      → Waits p s
      → All IsByte s
      → ((t' : HuffDecode) (p' : Bits) (s' result' : Bytes)
          → t'.fstate ≡ h.state p'
          → Accepts p' t'
          → p' ++ rest ≡ bits_of h.code s' ++ ones k
          → Waits p' s'
          → All IsByte s'
          → huffman_loop tables t' result' bytes ≡ ok (result' ++ s'))
      → (huffman_nibble tables t result (value hi) >>= λ (t', r').
          huffman_nibble tables t' r' (value lo) >>= λ (t'', r'').
          huffman_loop tables t'' r'' bytes)
        ≡ ok (result ++ s)
  two_nibbles t p hi lo rest k s result bytes at_p four four' few e waiting good again =
      first (huffman_nibble tables t result (value hi))
        (huffman_nibble-Nibble t p hi (lo ++ rest) k s result at_p four few e waiting good)
        (λ t' p' s' result' at_p' e' waiting' good'.
          huffman_nibble-Nibble t' p' lo rest k s' result' at_p' four' few e' waiting' good')
    where
      second :
          (s1 r1 : Bytes) (x : Result Fault (HuffDecode × Bytes))
          → Nibble rest k s1 r1 x
          → (x >>= λ (t'', r''). huffman_loop tables t'' r'' bytes) ≡ ok (r1 ++ s1)
      second s1 r1 _ (read e2 p2 out2 s2 r2 e_r2 next2 e_out2 e_bits2 waiting2 good2) =
          again e2 p2 s2 r2 next2.there next2.accepts e_bits2 waiting2 good2
          ∙ ap ok (
              ap (λ (r : Bytes). r ++ s2) e_r2
              ∙ append_assoc r1 out2 s2
              ∙ ap (λ (o : Bytes). r1 ++ o) e_out2)

      first :
          (x : Result Fault (HuffDecode × Bytes))
          → Nibble (lo ++ rest) k s result x
          → ((t' : HuffDecode) (p' : Bits) (s' result' : Bytes)
              → t'.fstate ≡ h.state p'
              → p' ++ (lo ++ rest) ≡ bits_of h.code s' ++ ones k
              → Waits p' s'
              → All IsByte s'
              → Nibble rest k s' result' (huffman_nibble tables t' result' (value lo)))
          → (x >>= λ (t', r'). huffman_nibble tables t' r' (value lo) >>= λ (t'', r'').
              huffman_loop tables t'' r'' bytes)
            ≡ ok (result ++ s)
      first _ (read e1 p1 out1 s1 r1 e_r1 next1 e_out1 e_bits1 waiting1 good1) then_second =
          second s1 r1 _ (then_second e1 p1 s1 r1 next1.there e_bits1 waiting1 good1)
          ∙ ap ok (
              ap (λ (r : Bytes). r ++ s1) e_r1
              ∙ append_assoc result out1 s1
              ∙ ap (λ (o : Bytes). result ++ o) e_out1)

  huffman_loop_lem :
      (bytes : Bytes) (bits : Bits)
      → IsPacked bytes bits
      → (t : HuffDecode) (p : Bits) (k : ℕ) (s result : Bytes) → t.fstate ≡ h.state p
      → Accepts p t
      → k < 8
      → p ++ bits ≡ bits_of h.code s ++ ones k
      → Waits p s
      → All IsByte s
      → huffman_loop tables t result bytes ≡ ok (result ++ s)
  unfolding huffman_loop
  huffman_loop_lem _ _ nothing t p k s result at_p accepts few e waiting good =
      huffman_loop_nothing t p k s result accepts few e waiting
  huffman_loop_lem _ _ (byte bs {bytes} {bits} eight packed) t p k s result at_p accepts few e
        waiting good =
      let hi = take 4 bs in
      let lo = drop 4 bs in
      let four : length hi ≡ 4 = omega (arith, length-take 4 bs) in
      let four' : length lo ≡ 4 = omega (arith, length-drop 4 bs) in
      let parts = take-append-drop 4 bs in
      let (high, low) = halves hi lo four four' in
      let e' : p ++ (hi ++ (lo ++ bits)) ≡ bits_of h.code s ++ ones k =
        ap (λ (t : Bits). p ++ t)
          (sym (append_assoc hi lo bits) ∙ ap (λ (t : Bits). t ++ bits) parts)
        ∙ e in
      subst (λ (b : Bits). huffman_loop tables t result (value b ∷ bytes) ≡ ok (result ++ s)) parts
        (rw (high, low)
          (two_nibbles t p hi lo bits k s result bytes at_p four four' few e' waiting good
            (λ t' p' s' result' at_p' accepts' e1 waiting' good'.
              huffman_loop_lem bytes bits packed t' p' k s' result' at_p' accepts' few e1 waiting'
                good')))

  -- The decoder reads what the encoder packs.
  pub huffman_decode-huffman_encode :
      (s : Bytes) → All IsByte s → huffman_decode tables (huffman_encode tables s) ≡ ok s
  unfolding huffman_decode
  huffman_decode-huffman_encode s good =
      let (k, few, packed) = huffman_encode-IsPacked tables h.code h.syms s good in
      huffman_loop_lem (huffman_encode tables s) (bits_of h.code s ++ ones k) packed
        (record { fstate = 0; flags = accepted; sym = 0 }) [] k s [] (sym h.start)
        (λ j small e. refl) few refl (starts s good) good
    where
      starts : (s' : Bytes) → All IsByte s' → Waits [] s'
      starts [] good' = omega arith
      starts (c ∷ s') (small, good') = omega (arith, h.shortest c small)
