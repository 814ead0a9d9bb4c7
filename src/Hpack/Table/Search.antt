-- ===== src/Hpack/Table/Search.antt =====
-- What `find` answers, by the entries that `get` returns.
use coro_test.Common.{
  ℕ, zero, suc, ◌+◌, ◌-◌, ◌≤◌, ◌<◌, ◌≡◌, ◌≢◌, refl, ap, ◌∙◌, ◌⊎◌, inl, inr, List, [], ◌∷◌, Bytes,
  true, false, arith, length, ltb, leb, ◌==◌, if◌then◌else◌, Bool-cases, some, All, get_elem?,
  bytes_eq, bytes_eq→eq, bytes_eq_iff, le→ltb-false, ltb-false→le, ◌||◌, le→leb, lt→leb-false,
}
use coro_test.Common.Error.{ok, err}
use coro_test.Common.Int.{ℤ, pos, negsuc}
use coro_test.Hpack.Table.Static.{HeaderEntry, static_table, static_table_size}
use coro_test.Hpack.Table.{
  HpackTable, Scan, returned, fell_through, scan, find, get, is_zero, or_out_of_range,
  index_out_of_range,
}

lt_of_get_elem? :
    (es : List HeaderEntry) (k : ℕ) (e : HeaderEntry) → get_elem? es k ≡ some e → k < length es
lt_of_get_elem? [] k e h = cc
lt_of_get_elem? (x ∷ es) zero e h = omega arith
lt_of_get_elem? (x ∷ es) (suc k) e h = omega (arith, lt_of_get_elem? es k e h)

length-static_table : length static_table ≡ 61
unfolding static_table
length-static_table = refl

static_get :
    (t : HpackTable) (k : ℕ) (e : HeaderEntry)
    → get_elem? static_table k ≡ some e
    → get t (suc k) ≡ ok e
unfolding get or_out_of_range
static_get t k e h =
    let below : k < 61 = omega (arith, lt_of_get_elem? static_table k e h, length-static_table) in
    let pred : suc k - 1 ≡ k = omega arith in
    rw
      (
        le→ltb-false (61 + length t.dynamic) (suc k) (omega arith),
        le→leb (suc k) 61 (omega arith),
        pred,
        h,
      )
      (ground arith)

dynamic_get :
    (t : HpackTable) (k : ℕ) (e : HeaderEntry)
    → get_elem? t.dynamic k ≡ some e
    → get t (suc (61 + k)) ≡ ok e
unfolding get or_out_of_range
dynamic_get t k e h =
    let below : k < length t.dynamic = lt_of_get_elem? t.dynamic k e h in
    let pred : suc (61 + k) - 61 - 1 ≡ k = omega arith in
    rw
      (
        le→ltb-false (61 + length t.dynamic) (suc (61 + k)) (omega arith),
        lt→leb-false (suc (61 + k)) 61 (omega arith),
        pred,
        h,
      )
      (ground arith)

pub get-le : (t : HpackTable) (k : ℕ) (e : HeaderEntry) → get t k ≡ ok e → k ≤ 61 + length t.dynamic
unfolding get
get-le t k e h = elim (Bool-cases (ltb (61 + length t.dynamic) k)) [
  | inl out ↦ absurd (out_of_range (rw out at h))
  | inr within ↦ ltb-false→le (61 + length t.dynamic) k within
]
  where
    out_of_range :
        (if (k == 0 || true)
            then err index_out_of_range
            else if leb k 61
            then or_out_of_range (get_elem? static_table (k - 1))
            else or_out_of_range (get_elem? t.dynamic (k - 61 - 1)))
          ≡ ok e
        → ⊥
    out_of_range q = ground arith

not_zero : (b : ℤ) → b ≡ pos 0 → is_zero b ≢ false
unfolding is_zero
not_zero b q h = ground arith

module _ (name value : Bytes) where
  abbrev pub Matches : HeaderEntry → Type 0
  Matches e = (e.name ≡ name) × (e.value ≡ value)

  abbrev pub Unmatched : HeaderEntry → Type 0
  Unmatched e = ¬ Matches e

  abbrev pub OtherName : HeaderEntry → Type 0
  OtherName e = e.name ≢ name

  abbrev At : (HeaderEntry → Type 0) → List HeaderEntry → ℕ → Type 0
  At P es k = (e : HeaderEntry) × (get_elem? es k ≡ some e) × P e

  -- What a scan of `es`, whose head stands at the position `i`, answers.
  abbrev ScanLaw : List HeaderEntry → ℕ → ℤ → Scan → Type 0
  ScanLaw es i before (returned j) = (k : ℕ) × (j ≡ i + k + 1) × At Matches es k
  ScanLaw es i before (fell_through c) =
      All Unmatched es
      × (((c ≡ before) × (before ≡ pos 0 → All OtherName es))
          ⊎ ((k : ℕ) × (c ≡ negsuc (i + k)) × At (λ e. e.name ≡ name) es k))

  ScanLaw-cons :
      (e : HeaderEntry) (es : List HeaderEntry) (i : ℕ) (b b' : ℤ) (r : Scan)
      → Unmatched e
      → ((b' ≡ b) × (b ≡ pos 0 → OtherName e)) ⊎ ((b' ≡ negsuc i) × (e.name ≡ name))
      → ScanLaw es (i + 1) b' r
      → ScanLaw (e ∷ es) i b r
  ScanLaw-cons e es i b b' (returned j) u h (k, ej, at) = (suc k, omega arith, at)
  ScanLaw-cons e es i b b' (fell_through c) u (inl (eb, other)) (us, inl (ec, rest)) =
      ((u, us), inl (cc, λ z. (other z, rest (cc))))
  ScanLaw-cons e es i b b' (fell_through c) u (inr (eb, same)) (us, inl (ec, rest)) =
      ((u, us), inr (0, ground arith, (e, refl, same)))
  ScanLaw-cons e es i b b' (fell_through c) u h (us, inr (k, ec, at)) =
      ((u, us), inr (suc k, ground arith, at))

  scan-ScanLaw : (es : List HeaderEntry) (i : ℕ) (b : ℤ) → ScanLaw es i b (scan name value es i b)
  unfolding scan
  scan-ScanLaw [] i b = (tt, inl (refl, λ z. tt))
  scan-ScanLaw (e ∷ es) i b = elim (Bool-cases (bytes_eq e.name name)) [
    | inr other ↦
        let ne : e.name ≢ name = λ q. cc (other, (bytes_eq_iff e.name name).1 q) in
        rw other (
          ScanLaw-cons e es i b b _ (λ m. ne m.0) (inl (refl, λ _. ne)) (scan-ScanLaw es (i + 1) b))
    | inl same ↦
        let n : e.name ≡ name = bytes_eq→eq e.name name same in
        elim (Bool-cases (bytes_eq e.value value)) [
          | inl equal ↦
              rw (same, equal) (0, omega arith, (e, refl, (n, bytes_eq→eq e.value value equal)))
          | inr differ ↦
              let u : Unmatched e = λ m. cc (differ, (bytes_eq_iff e.value value).1 m.1) in
              elim (Bool-cases (is_zero b)) [
                | inl z ↦
                    rw (same, differ, z)
                      (ScanLaw-cons e es i b (negsuc i) _ u (inr (refl, n))
                        (scan-ScanLaw es (i + 1) (negsuc i)))
                | inr nz ↦
                    rw (same, differ, nz)
                      (ScanLaw-cons e es i b b _ u (inl (refl, λ q. absurd (not_zero b q nz)))
                        (scan-ScanLaw es (i + 1) b))
              ]
        ]
  ]

  -- What an answer of `find` says of the table.
  abbrev pub FindLaw : HpackTable → ℤ → Type 0
  FindLaw t (pos zero) = All OtherName static_table × All OtherName t.dynamic
  FindLaw t (pos (suc k)) = (e : HeaderEntry) × (get t (suc k) ≡ ok e) × Matches e
  FindLaw t (negsuc k) =
      ((e : HeaderEntry) × (get t (suc k) ≡ ok e) × (e.name ≡ name))
      × All Unmatched static_table
      × All Unmatched t.dynamic

  -- A positive answer of `find` is the index at which `get` returns an entry with the name and the
  -- value; a negative one is minus the index at which it returns one with the name, and no entry of
  -- either table has both; and 0 says that no entry has the name.
  pub find-FindLaw : (t : HpackTable) → FindLaw t (find t name value)
  unfolding find
  find-FindLaw t =
      in_static (scan name value static_table 0 (pos 0)) (scan-ScanLaw static_table 0 (pos 0))
    where
      in_dynamic :
          (b : ℤ) (r : Scan)
          → ScanLaw t.dynamic 61 b r
          → ScanLaw static_table 0 (pos 0) (fell_through b)
          → FindLaw t (elim r [ returned i ↦ pos i | fell_through c ↦ c ])
      in_dynamic b (returned j) (k, ej, (e, at, m)) s =
          let q : j ≡ suc (61 + k) = omega arith in rw q (e, dynamic_get t k e at, m)
      in_dynamic b (fell_through c) (ds, inl (ec, others)) (ss, inl (eb, statics)) =
          let q : c ≡ pos 0 = ec ∙ eb in rw q (statics refl, others eb)
      in_dynamic b (fell_through c) (ds, inl (ec, others)) (ss, inr (k, eb, (e, at, n))) =
          let zero_add : 0 + k ≡ k = omega arith in
          let q : c ≡ negsuc k = ec ∙ eb ∙ ap negsuc zero_add in
          rw q ((e, static_get t k e at, n), ss, ds)
      in_dynamic b (fell_through c) (ds, inr (k, ec, (e, at, n))) (ss, _) =
          rw ec ((e, dynamic_get t k e at, n), ss, ds)

      in_static :
          (r : Scan)
          → ScanLaw static_table 0 (pos 0) r
          → FindLaw t (elim r [
            | returned i ↦ pos i
            | fell_through b ↦ elim (scan name value t.dynamic static_table_size b) [
              | returned i ↦ pos i
              | fell_through c ↦ c
            ]
          ])
      in_static (returned j) (k, ej, (e, at, m)) =
          let q : j ≡ suc k = omega arith in rw q (e, static_get t k e at, m)
      in_static (fell_through b) s =
          in_dynamic b (scan name value t.dynamic 61 b) (scan-ScanLaw t.dynamic 61 b) s
