-- ===== src/Hpack/Decoder/Total.antt =====
-- Decoding ends on every header block, and keeps the table well formed also where it throws.
use coro_test.Common.{
  ℕ, zero, suc, ◌≤◌, ◌≡◌, ◌≢◌, refl, [], ◌∷◌, Bytes, false, Option, some, arith, Bool-cases, ltb,
  ◌==◌, inl, inr, if◌then◌else◌, ◌||◌, not, length, bit_and,
}
use coro_test.Common.Error.{Result, ok, err, ◌>>=◌}
use coro_test.Hpack.Table.{HpackTable, insert, set_max_size}
use coro_test.Hpack.Table.Eviction.{IsValid, dynamic-insert, dynamic-set_max_size}
use coro_test.Hpack.Integer.{Fault, out_of_bounds, decode_int, index_zero, size_update_too_large}
use coro_test.Hpack.Text.{HuffmanTables, is_set}
use coro_test.Hpack.Decoder.{
  DecodedHeaders, Applied, Decoded, is_empty, table_get, read_literal, apply_header, indexed_field,
  indexed_literal, size_update, plain_literal, decode_field, decode_loop, decode, no_headers,
}
use coro_test.Hpack.Decoder.Reads.{
  Safe, Any, Leaves, Safe-bind, Safe-throw_if, decode_int-Safe, table_get-Safe, read_literal-Safe,
  apply_header-Safe,
}

fault_of_err : {A : Type 0} {x y : Fault} → ◌≡◌ {A = Result Fault A} (err x) (err y) → x ≡ y
fault_of_err e = cc

-- A round keeps the table well formed, reads in bounds and takes a byte.
abbrev RoundLaw : ℕ → ℕ → Decoded (Applied × Bytes) → Type 0
RoundLaw m n (t, r) = IsValid t × (t.max_size ≤ m) × Safe (Leaves n) r

applied :
    (n : ℕ) (a : Applied) (name value rest : Bytes)
    → length rest ≤ n
    → Safe (Leaves n) (apply_header a name value >>= λ a'. ok (a', rest))
applied n a name value rest h =
    Safe-bind Any (Leaves n) (apply_header a name value) (λ a'. ok (a', rest))
      (apply_header-Safe a name value) (λ a' _. h)

module _ (tables : HuffmanTables) (len : ℕ) where
  abbrev Law : HpackTable → Bytes → Decoded (Applied × Bytes) → Type 0
  Law t bs = RoundLaw t.max_size (length bs)

  indexed_field-Law :
      (t : HpackTable) (a : Applied) (b : ℕ) (bs : Bytes)
      → IsValid t
      → Law t bs (indexed_field tables len t a (b ∷ bs))
  unfolding indexed_field
  indexed_field-Law t a b bs v = (
    v,
    omega arith,
    Safe-bind (Leaves (length bs)) (Leaves (length bs)) (decode_int (b ∷ bs) 7) _
        (decode_int-Safe b bs 7)
        λ (idx, after) h.
          Safe-throw_if (Leaves (length bs)) (idx == 0) index_zero _ (λ _ e. cc)
            λ _.
              Safe-bind Any (Leaves (length bs)) (table_get t idx) _ (table_get-Safe t idx)
                λ entry _. applied (length bs) a entry.name entry.value after h,
  )

  plain_literal-Law :
      (t : HpackTable) (a : Applied) (b : ℕ) (bs : Bytes)
      → IsValid t
      → Law t bs (plain_literal tables len t a (b ∷ bs))
  unfolding plain_literal
  plain_literal-Law t a b bs v = (
    v,
    omega arith,
    Safe-bind (λ (name, value, last). length last ≤ length bs) (Leaves (length bs))
        (read_literal tables len t 4 (b ∷ bs)) _ (read_literal-Safe tables len 4 b t bs)
        λ (name, value, last) h. applied (length bs) a name value last h,
  )

  indexed_literal-Law :
      (t : HpackTable) (a : Applied) (b : ℕ) (bs : Bytes)
      → IsValid t
      → Law t bs (indexed_literal tables len t a (b ∷ bs))
  unfolding indexed_literal
  indexed_literal-Law t a b bs v =
      go (read_literal tables len t 6 (b ∷ bs)) (read_literal-Safe tables len 6 b t bs)
    where
      go :
          (r : Result Fault (Bytes × Bytes × Bytes))
          → Safe (λ (name, value, last). length last ≤ length bs) r
          → Law t bs (elim r [
            | err x ↦ (t, err x)
            | ok (name, value, last) ↦
                (insert t name value, (apply_header a name value >>= λ a'. ok (a', last)))
          ])
      go (err x) h = (v, omega arith, h)
      go (ok (name, value, last)) h =
          let (_, valid, same) = dynamic-insert t name value v in
          (valid, omega arith, applied (length bs) a name value last h)

  size_update-Law :
      (t : HpackTable) (a : Applied) (b : ℕ) (bs : Bytes)
      → IsValid t
      → Law t bs (size_update tables len t a (b ∷ bs))
  unfolding size_update
  size_update-Law t (out, seen) b bs v = elim (Bool-cases (seen || not (is_empty out.method))) [
    | inl late ↦ rw late (v, omega arith, λ e. cc)
    | inr early ↦ rw early (go (decode_int (b ∷ bs) 5) (decode_int-Safe b bs 5))
  ]
    where
      go :
          (r : Result Fault (ℕ × Bytes))
          → Safe (Leaves (length bs)) r
          → Law t bs (elim r [
            | err x ↦ (t, err x)
            | ok (new_size, after) ↦
                if ltb t.max_size new_size
                then (t, err size_update_too_large)
                else (set_max_size t new_size, ok ((out, seen), after))
          ])
      go (err x) h = (v, omega arith, h)
      go (ok (n, after)) h = elim (Bool-cases (ltb t.max_size n)) [
        | inl above ↦ rw above (v, omega arith, λ e. cc)
        | inr within ↦
            let (_, valid, same) = dynamic-set_max_size t n v in rw within (valid, ground arith, h)
      ]

  decode_field-Law :
      (t : HpackTable) (a : Applied) (b : ℕ) (bs : Bytes)
      → IsValid t
      → Law t bs (decode_field tables len t a b (b ∷ bs))
  decode_field-Law t a b bs v = elim (Bool-cases (is_set b 0x80)) [
    | inl q ↦ unfold decode_field in rw q (indexed_field-Law t a b bs v)
    | inr q ↦ elim (Bool-cases (bit_and b 0xc0 == 0x40)) [
      | inl r ↦ unfold decode_field in rw (q, r) (indexed_literal-Law t a b bs v)
      | inr r ↦ elim (Bool-cases (bit_and b 0xe0 == 0x20)) [
        | inl s ↦ unfold decode_field in rw (q, r, s) (size_update-Law t a b bs v)
        | inr s ↦ unfold decode_field in rw (q, r, s) (plain_literal-Law t a b bs v)
      ]
    ]
  ]

  -- What the loop ends with.
  abbrev Ends : HpackTable → Option (Decoded DecodedHeaders) → Type 0
  Ends t o =
      (u : HpackTable) × (r : Result Fault DecodedHeaders) × (o ≡ some (u, r))
      × IsValid u
      × (u.max_size ≤ t.max_size)
      × (r ≢ err out_of_bounds)

  decode_loop-Ends :
      (fuel : ℕ) (t : HpackTable) (a : Applied) (bs : Bytes)
      → IsValid t
      → length bs ≤ fuel
      → Ends t (decode_loop tables len fuel t a bs)
  unfolding decode_loop
  decode_loop-Ends fuel t (out, seen) [] v h = (t, ok out, refl, v, omega arith, λ e. cc)
  decode_loop-Ends zero t a (b ∷ bs) v h = absurd (omega arith)
  decode_loop-Ends (suc fuel) t a (b ∷ bs) v h =
      go (decode_field tables len t a b (b ∷ bs)) (decode_field-Law t a b bs v)
        (λ u a' rest. decode_loop-Ends fuel u a' rest)
    where
      go :
          (d : Decoded (Applied × Bytes))
          → Law t bs d
          → ((u : HpackTable) (a' : Applied) (rest : Bytes)
              → IsValid u
              → length rest ≤ fuel
              → Ends u (decode_loop tables len fuel u a' rest))
          → Ends t (elim d.1 [
            | err x ↦ some (d.0, err x)
            | ok (a', rest) ↦ decode_loop tables len fuel d.0 a' rest
          ])
      go (u, err x) (w, m, s) ih = (u, err x, refl, w, m, λ e. s (fault_of_err e))
      go (u, ok (a', rest)) (w, m, s) ih =
          let (u', r, e, w', m', n) = ih u a' rest w (omega arith) in (u', r, e, w', omega arith, n)

-- Decoding any bytes ends: with headers, with a throw, or with `shift_overflow`, the shift of an integer by 64 bits or
-- more, which is undefined in the source. Up to that it never reads outside the buffer, and it leaves the
-- table well formed under a limit that has not grown, whichever it was.
pub decode-total :
    (tables : HuffmanTables) (t : HpackTable) (bytes : Bytes)
    → IsValid t
    → (u : HpackTable) × (r : Result Fault DecodedHeaders) × (decode tables t bytes ≡ some (u, r))
      × IsValid u
      × (u.max_size ≤ t.max_size)
      × (r ≢ err out_of_bounds)
unfolding decode
decode-total tables t bytes v =
    decode_loop-Ends tables (length bytes) (length bytes) t (no_headers, false) bytes v
      (omega arith)
