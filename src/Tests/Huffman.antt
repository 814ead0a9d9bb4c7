-- ===== src/Tests/Huffman.antt =====
-- Tables of a small Huffman code, in the form of kHuffSymTable and kHuffDecodeTable of
-- extensions/http2/src/hpack/HuffmanTable.cc: "a" has five bits, and each other byte nine.
use coro_test.Common.{
  IsByte, ℕ, zero, suc, ◌+◌, ◌-◌, ◌*◌, ◌/◌, ◌%◌, ◌≤◌, ◌<◌, ◌≡◌, refl, sym, ap, subst, ◌∙◌, [], ◌∷◌,
  ◌++◌, Bool, true, false, arith, leb, length, take, drop, length-append, if◌then◌else◌, ◌==◌,
  ==_iff, Bool-cases, inl, inr,
}
use coro_test.Common.Bits.{each_below, of_each_below}
use coro_test.Hpack.Text.{HuffmanTables, HuffDecode, is_set, sym_flag}
use coro_test.Hpack.Text.Bits.{Bits, bit, value, value_from, run_of}
use coro_test.Hpack.Text.Code.{IsHuffman, LeadsTo}

abbrev byte_bits : ℕ → Bits
byte_bits c =
    (c / 128 % 2 == 1)
    ∷ (c / 64 % 2 == 1)
    ∷ (c / 32 % 2 == 1)
    ∷ (c / 16 % 2 == 1)
    ∷ (c / 8 % 2 == 1)
    ∷ (c / 4 % 2 == 1)
    ∷ (c / 2 % 2 == 1)
    ∷ (c % 2 == 1)
    ∷ []

abbrev small_code : ℕ → Bits
small_code c = if c == 97 then false ∷ false ∷ false ∷ false ∷ false ∷ [] else true ∷ byte_bits c

-- The states are the bits that wait, as numbers.
abbrev number : Bits → ℕ
number [] = 1
number (b ∷ p) = number p * 2 + bit b

abbrev small_state : Bits → ℕ
small_state p = 3 * (number p - 1)

abbrev numbered : ℕ → ℕ → Bits
numbered zero v = []
numbered (suc fuel) v =
    let rest = numbered fuel (v / 2) in if leb v 1 then [] else (v % 2 == 1) ∷ rest

abbrev nibble_bits : ℕ → Bits
nibble_bits n = (n / 8 % 2 == 1) ∷ (n / 4 % 2 == 1) ∷ (n / 2 % 2 == 1) ∷ (n % 2 == 1) ∷ []

abbrev emit : ℕ → Bits → HuffDecode
emit c q = record { fstate = small_state q; flags = 3; sym = c }

abbrev wait : Bits → HuffDecode
wait q = record { fstate = small_state q; flags = 1; sym = 0 }

abbrev small_entry : Bits → HuffDecode
small_entry [] = wait []
small_entry (false ∷ l) = if leb 4 (length l) then emit 97 (drop 4 l) else wait (false ∷ l)
small_entry (true ∷ l) =
    if leb 8 (length l) then emit (value (take 8 l)) (drop 8 l) else wait (true ∷ l)

abbrev pub small_tables : HuffmanTables
small_tables = record {
  decode_entry = λ st n. small_entry (numbered (st / 3 + 1) (st / 3 + 1) ++ nibble_bits n);
  sym_entry = λ c. record {
    nbits = length (small_code c);
    code = value (small_code c ++ run_of false (32 - length (small_code c)));
  };
}

number-pos : (p : Bits) → 1 ≤ number p
number-pos [] = omega arith
number-pos (b ∷ p) = omega (arith, number-pos p)

numbered-number : (p : Bits) (fuel : ℕ) → number p ≤ fuel → numbered fuel (number p) ≡ p
numbered-number p zero enough = absurd (omega (arith, number-pos p))
numbered-number [] (suc fuel) enough = refl
numbered-number (b ∷ p) (suc fuel) enough =
    let large : leb (number p * 2 + bit b) 1 ≡ false = ground (arith, number-pos p) in
    let (half, low) = last_bit b p in
    rw (large, half, low)
      (ap (λ (t : Bits). b ∷ t) (numbered-number p fuel (omega (arith, number-pos p))))
  where
    last_bit :
        (b : Bool) (p : Bits)
        → ((number p * 2 + bit b) / 2 ≡ number p) × (((number p * 2 + bit b) % 2 == 1) ≡ b)
    last_bit true p = (omega arith, ground arith)
    last_bit false p = (omega arith, ground arith)

small_state_lem : (p : Bits) → numbered (small_state p / 3 + 1) (small_state p / 3 + 1) ≡ p
small_state_lem p =
    let e : small_state p / 3 + 1 ≡ number p = omega (arith, number-pos p) in
    rw e (numbered-number p (number p) (omega arith))

four_bits : (a b c d : Bool) → nibble_bits (value (a ∷ b ∷ c ∷ d ∷ [])) ≡ a ∷ b ∷ c ∷ d ∷ []
unfolding value_from
four_bits true true true true = refl
four_bits true true true false = refl
four_bits true true false true = refl
four_bits true true false false = refl
four_bits true false true true = refl
four_bits true false true false = refl
four_bits true false false true = refl
four_bits true false false false = refl
four_bits false true true true = refl
four_bits false true true false = refl
four_bits false true false true = refl
four_bits false true false false = refl
four_bits false false true true = refl
four_bits false false true false = refl
four_bits false false false true = refl
four_bits false false false false = refl

nibble_bits-value : (nib : Bits) → length nib ≡ 4 → nibble_bits (value nib) ≡ nib
nibble_bits-value [] e = absurd (omega arith)
nibble_bits-value (a ∷ []) e = absurd (omega arith)
nibble_bits-value (a ∷ b ∷ []) e = absurd (omega arith)
nibble_bits-value (a ∷ b ∷ c ∷ []) e = absurd (omega arith)
nibble_bits-value (a ∷ b ∷ c ∷ d ∷ []) e = four_bits a b c d
nibble_bits-value (a ∷ b ∷ c ∷ d ∷ f ∷ nib) e = absurd (omega arith)

small_entry_lem :
    (p nib : Bits)
    → length nib ≡ 4
    → small_tables.decode_entry (small_state p) (value nib) ≡ small_entry (p ++ nib)
small_entry_lem p nib four =
    ap (λ (t : Bits). small_entry (t ++ nibble_bits (value nib))) (small_state_lem p)
    ∙ ap (λ (t : Bits). small_entry (p ++ t)) (nibble_bits-value nib four)

byte_values : each_below 256 (λ c. value (byte_bits c) == c) ≡ true
unfolding each_below value_from
byte_values = refl

small_emit : (c : ℕ) (q : Bits) → IsByte c → small_entry (small_code c ++ q) ≡ emit c q
small_emit c q small = elim (Bool-cases (c == 97)) [
  | inl is_a ↦
      let same : c ≡ 97 = (==_iff c 97).0 is_a in
      let enough : leb 4 (suc (suc (suc (suc (length q))))) ≡ true = ground arith in
      rw (is_a, enough) (ap (λ (d : ℕ). emit d q) (sym same))
  | inr other ↦
      let same : value (byte_bits c) ≡ c =
        (==_iff _ _).0 (of_each_below 256 (λ d. value (byte_bits d) == d) c byte_values small) in
      let enough : leb 8 (length (byte_bits c ++ q)) ≡ true = ground arith in
      rw (other, enough) (ap (λ (d : ℕ). emit d q) same)
]

small_wait :
    (l q : Bits) (c : ℕ) → IsByte c → 0 < length q → l ++ q ≡ small_code c → small_entry l ≡ wait l
small_wait [] q c small more e = refl
small_wait (b ∷ l) q c small more e = elim (Bool-cases (c == 97)) [
  | inl is_a ↦ short_a b l (rw is_a at e)
  | inr other ↦ short_other b l (rw other at e)
]
  where
    short_a :
        (b' : Bool) (l' : Bits)
        → (b' ∷ l') ++ q ≡ false ∷ false ∷ false ∷ false ∷ false ∷ []
        → small_entry (b' ∷ l') ≡ wait (b' ∷ l')
    short_a true l' e' = absurd (ground arith)
    short_a false l' e' =
        let few : leb 4 (length l') ≡ false =
          ground (arith, ap (length {A = Bool}) e', length-append l' q) in
        rw few refl

    short_other :
        (b' : Bool) (l' : Bits)
        → (b' ∷ l') ++ q ≡ true ∷ byte_bits c
        → small_entry (b' ∷ l') ≡ wait (b' ∷ l')
    short_other false l' e' = absurd (ground arith)
    short_other true l' e' =
        let few : leb 8 (length l') ≡ false =
          ground (arith, ap (length {A = Bool}) e', length-append l' q) in
        rw few refl

no_failure : (q : Bits) → (small_state q == 0x100) ≡ false
no_failure q = ground arith

code_sizes : (c : ℕ) → (5 ≤ length (small_code c)) × (length (small_code c) ≤ 30)
code_sizes c = elim (Bool-cases (c == 97)) [
  | inl is_a ↦ rw is_a (omega arith, omega arith)
  | inr other ↦ rw other (omega arith, omega arith)
]

pub small_tables-IsHuffman : IsHuffman small_tables
unfolding run_of
small_tables-IsHuffman = record {
  code = small_code;
  syms = λ c small. (refl, refl, (code_sizes c).1);
  shortest = λ c small. (code_sizes c).0;
  state = small_state;
  start = refl;
  emits = λ p nib q c small four waiting e.
      subst
        (λ (entry : HuffDecode).
          (is_set entry.flags sym_flag ≡ true) × (entry.sym ≡ c) × LeadsTo small_state q entry)
        (sym (small_entry_lem p nib four ∙ ap small_entry e ∙ small_emit c q small))
        (refl, refl, record { there = refl; goes_on = no_failure q; accepts = λ k few all. refl });
  waits = λ p nib q c small four more e.
      subst
        (λ (entry : HuffDecode).
          (is_set entry.flags sym_flag ≡ false) × LeadsTo small_state (p ++ nib) entry)
        (sym (small_entry_lem p nib four ∙ small_wait (p ++ nib) q c small more e))
        (
          refl,
          record { there = refl; goes_on = no_failure (p ++ nib); accepts = λ k few all. refl },
        );
  filling = (255, true ∷ [], omega arith, omega arith, refl);
}
