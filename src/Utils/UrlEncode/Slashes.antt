-- ===== src/Utils/UrlEncode/Slashes.antt =====
-- `urlDecode` and the segments of a path.
use coro_test.Common.{
  ℕ, ◌≡◌, refl, sym, ap, ◌∙◌, List, [], ◌∷◌, ◌++◌, append_assoc, map, Bytes, true, false, some,
  none, ◌==◌, if◌then◌else◌, Bool-cases, All, inl, inr, Option-cases, codes,
}
use coro_test.Utils.UrlEncode.{
  percent, slash, hex_val, escape, decode_plain, decode_escaped, decode_impl, url_decode,
}

abbrev pub HasNoSlash : Bytes → Type 0
HasNoSlash s = All (λ c. (c == slash) ≡ false) s

-- Every byte decoded, with a slash as "%2F".
unfoldable pub protect : Bytes → Bytes
protect [] = []
protect (c ∷ s) = (if c == slash then codes "%2F" else c ∷ []) ++ protect s

-- A segment as it arrives: all its escapes decoded, and every slash that one of them stood for written as "%2F".
unfoldable pub received : Bytes → Bytes
received segment = protect (decode_impl false false segment)

-- The path of one segment or more, with slashes between them.
unfoldable pub join_path : Bytes → List Bytes → Bytes
join_path segment [] = segment
join_path segment (next ∷ segments) = segment ++ slash ∷ join_path next segments

-- A slash is no hexadecimal digit.
hex_val-slash : hex_val slash ≡ none
unfolding hex_val
hex_val-slash = refl

slash_low : (c x : ℕ) → escape c x slash ≡ none
unfolding escape
slash_low c x = elim (Bool-cases (c == percent)) [
  | inr other ↦ rw other refl
  | inl is_percent ↦ elim (Option-cases (hex_val x)) [
    | inl no_high ↦ rw (is_percent, no_high) refl
    | inr (hi, high) ↦ rw (is_percent, high, hex_val-slash) refl
  ]
]

slash_high : (c y : ℕ) → escape c slash y ≡ none
unfolding escape
slash_high c y = elim (Bool-cases (c == percent)) [
  | inr other ↦ rw other refl
  | inl is_percent ↦ rw (is_percent, hex_val-slash) refl
]

slash_alone : (x y : ℕ) → escape slash x y ≡ none
unfolding escape
slash_alone x y = refl

-- In front of two bytes that are no escape with it a byte stands for itself.
decode_alone :
    (c x y : ℕ) (input : Bytes)
    → escape c x y ≡ none
    → decode_impl false true (c ∷ x ∷ y ∷ input) ≡ c ∷ decode_impl false true (x ∷ y ∷ input)
unfolding decode_impl decode_plain
decode_alone c x y input e = rw (e, decode_impl) refl

decode_escape :
    (c x y d : ℕ) (input : Bytes)
    → escape c x y ≡ some d
    → decode_impl false true (c ∷ x ∷ y ∷ input)
      ≡ decode_escaped true d ++ decode_impl false true input
unfolding decode_impl
decode_escape c x y d input e = rw (e, decode_impl) refl

decode_slash :
    (input : Bytes) → decode_impl false true (slash ∷ input) ≡ slash ∷ decode_impl false true input
unfolding decode_impl decode_plain
decode_slash [] = refl
decode_slash (x ∷ []) = refl
decode_slash (x ∷ y ∷ input) = decode_alone slash x y input (slash_alone x y)

protect_plain : (c : ℕ) (s : Bytes) → (c == slash) ≡ false → protect (c ∷ s) ≡ c ∷ protect s
unfolding protect
protect_plain c s e = rw (protect, e) refl

protect-decode_escaped :
    (d : ℕ) (s : Bytes) → protect (decode_escaped false d ++ s) ≡ decode_escaped true d ++ protect s
unfolding protect decode_escaped
protect-decode_escaped d s = elim (Bool-cases (d == slash)) [
  | inl same ↦ rw (same, protect) refl
  | inr other ↦ rw (other, protect) refl
]

received_alone :
    (c x y : ℕ) (segment : Bytes)
    → escape c x y ≡ none
    → (c == slash) ≡ false
    → received (c ∷ x ∷ y ∷ segment) ≡ c ∷ received (x ∷ y ∷ segment)
unfolding received decode_impl decode_plain
received_alone c x y segment e h =
    rw (e, decode_impl) (protect_plain c (decode_impl false false (x ∷ y ∷ segment)) h)

received-escape :
    (c x y d : ℕ) (segment : Bytes)
    → escape c x y ≡ some d
    → received (c ∷ x ∷ y ∷ segment) ≡ decode_escaped true d ++ received segment
unfolding received decode_impl
received-escape c x y d segment e =
    rw (e, decode_impl) (protect-decode_escaped d (decode_impl false false segment))

received_short :
    (c x : ℕ)
    → (c == slash) ≡ false
    → (x == slash) ≡ false
    → (received (c ∷ []) ≡ c ∷ []) × (received (c ∷ x ∷ []) ≡ c ∷ x ∷ [])
unfolding received decode_impl decode_plain protect
received_short c x hc hx = (rw hc refl, rw (hc, hx) refl)

-- A segment in front of a slash.
decode_segment :
    (segment input : Bytes)
    → HasNoSlash segment
    → decode_impl false true (segment ++ slash ∷ input)
      ≡ received segment ++ slash ∷ decode_impl false true input
decode_segment [] input h = unfold received decode_impl protect in decode_slash input
decode_segment (c ∷ []) input (h, _) =
    before_slash input
    ∙ ap (λ (s : Bytes). c ∷ s) (decode_slash input)
    ∙ sym (ap (λ (s : Bytes). s ++ slash ∷ decode_impl false true input) (received_short c c h h).0)
  where
    before_slash :
        (s : Bytes)
        → decode_impl false true (c ∷ slash ∷ s) ≡ c ∷ decode_impl false true (slash ∷ s)
    before_slash [] = unfold decode_impl decode_plain in refl
    before_slash (y ∷ s) = decode_alone c slash y s (slash_high c y)
decode_segment (c ∷ x ∷ []) input (hc, (hx, _)) =
    decode_alone c x slash input (slash_low c x)
    ∙ ap (λ (s : Bytes). c ∷ s) (decode_segment (x ∷ []) input (hx, tt))
    ∙ ap (λ (s : Bytes). c ∷ (s ++ slash ∷ decode_impl false true input))
        (received_short x x hx hx).0
    ∙ sym
        (ap (λ (s : Bytes). s ++ slash ∷ decode_impl false true input) (received_short c x hc hx).1)
decode_segment (c ∷ x ∷ y ∷ segment) input (hc, (hx, (hy, h))) =
    elim (Option-cases (escape c x y)) [
      | inl alone ↦
          decode_alone c x y (segment ++ slash ∷ input) alone
          ∙ ap (λ (s : Bytes). c ∷ s) (decode_segment (x ∷ y ∷ segment) input (hx, (hy, h)))
          ∙ sym (
              ap (λ (s : Bytes). s ++ slash ∷ decode_impl false true input)
                (received_alone c x y segment alone hc))
      | inr (d, e) ↦
          decode_escape c x y d (segment ++ slash ∷ input) e
          ∙ ap (λ (s : Bytes). decode_escaped true d ++ s) (decode_segment segment input h)
          ∙ sym (append_assoc (decode_escaped true d) (received segment) _)
          ∙ sym (
              ap (λ (s : Bytes). s ++ slash ∷ decode_impl false true input)
                (received-escape c x y d segment e))
    ]

-- The last segment.
decode_last :
    (segment : Bytes) → HasNoSlash segment → decode_impl false true segment ≡ received segment
decode_last [] h = unfold received decode_impl protect in refl
decode_last (c ∷ []) (h, _) = unfold decode_impl decode_plain in sym (received_short c c h h).0
decode_last (c ∷ x ∷ []) (hc, (hx, _)) =
    unfold decode_impl decode_plain in sym (received_short c x hc hx).1
decode_last (c ∷ x ∷ y ∷ segment) (hc, (hx, (hy, h))) = elim (Option-cases (escape c x y)) [
  | inl alone ↦
      decode_alone c x y segment alone
      ∙ ap (λ (s : Bytes). c ∷ s) (decode_last (x ∷ y ∷ segment) (hx, (hy, h)))
      ∙ sym (received_alone c x y segment alone hc)
  | inr (d, e) ↦
      decode_escape c x y d segment e
      ∙ ap (λ (s : Bytes). decode_escaped true d ++ s) (decode_last segment h)
      ∙ sym (received-escape c x y d segment e)
]

protect-HasNoSlash : (s : Bytes) → HasNoSlash (protect s)
unfolding protect
protect-HasNoSlash [] = tt
protect-HasNoSlash (c ∷ s) = elim (Bool-cases (c == slash)) [
  | inl same ↦ rw (same, protect) (refl, (refl, (refl, protect-HasNoSlash s)))
  | inr other ↦ rw (other, protect) (other, protect-HasNoSlash s)
]

received-HasNoSlash : (segments : List Bytes) → All HasNoSlash (map received segments)
unfolding received
received-HasNoSlash [] = tt
received-HasNoSlash (segment ∷ segments) =
    (protect-HasNoSlash (decode_impl false false segment), received-HasNoSlash segments)

-- Decoding a path decodes each of its segments, in which a slash that was escaped stays "%2F" and every other
-- escape becomes its byte: the segments of the decoded path are those of the request, one by one, and no slash is in any.
-- (The segments are what stands between the slashes of the path.)
pub url_decode-join_path :
    (segment : Bytes) (segments : List Bytes)
    → All HasNoSlash (segment ∷ segments)
    → (url_decode (join_path segment segments)
        ≡ join_path (received segment) (map received segments))
      × All HasNoSlash (map received (segment ∷ segments))
unfolding url_decode join_path
url_decode-join_path segment [] (h, _) = (decode_last segment h, received-HasNoSlash (segment ∷ []))
url_decode-join_path segment (next ∷ segments) (h, hs) = (
  decode_segment segment (join_path next segments) h
      ∙ ap (λ (s : Bytes). received segment ++ slash ∷ s) (url_decode-join_path next segments hs).0,
  received-HasNoSlash (segment ∷ next ∷ segments),
)
