-- ===== src/Hpack/Encoder/Response.antt =====
-- A whole response block in the hands of `HpackDecoder`, which Http2ClientSession.cc gives it to.
use coro_test.Common.{
  ℕ, zero, suc, ◌+◌, ◌^◌, ◌<◌, ◌≡◌, refl, ap, sym, ◌∙◌, List, [], ◌∷◌, ◌++◌, Bytes, false, some,
  arith, Bool-cases, ltb, inl, inr, if◌then◌else◌, length, length-append, append_assoc, append-nil,
  codes, bytes_eq,
}
use coro_test.Common.Error.{ok, err, ◌>>=◌}
use coro_test.Common.Int.{ℤ, pos, negsuc}
use coro_test.Common.Decimal.{to_string, to_string-IsByte}
use coro_test.Hpack.Table.{HpackTable, find}
use coro_test.Hpack.Table.Eviction.{IsValid}
use coro_test.Hpack.Integer.{IsU64, encode_int, response_pseudo}
use coro_test.Hpack.Text.{HuffmanTables}
use coro_test.Hpack.Decoder.{
  HttpHeaderMap, Applied, Decoded, apply_header, apply_pseudo, is_pseudo, decode_field, decode_loop,
  decode, no_headers,
}
use coro_test.Hpack.Encoder.{
  ResponseHead, literal, encode_found, encode_field, encode_headers, encode_cookies,
  encode_response, is_skipped,
}
use coro_test.Hpack.Encoder.Lockstep.{HuffmanAgrees, encode_field-Round, literal-literal_bytes}

module _ (tables : HuffmanTables) where
  literal_appends :
      (k : ℕ) (name value out : Bytes)
      → literal tables k name value out ≡ out ++ literal tables k name value []
  literal_appends k name value out =
      rw (
        literal-literal_bytes tables k name value out,
        literal-literal_bytes tables k name value [],
      )

  found_appends :
      (t : HpackTable) (name value out : Bytes) (r : ℤ)
      → encode_found tables t name value out r ≡ (
        (encode_found tables t name value [] r).0,
        out ++ (encode_found tables t name value [] r).1,
      )
  unfolding encode_found encode_int
  found_appends t name value out (pos zero) = rw (literal_appends 0 name value out)
  found_appends t name value out (pos (suc k)) = refl
  found_appends t name value out (negsuc k) = rw (literal_appends (suc k) name value out)

  field_appends :
      (t : HpackTable) (name value out : Bytes)
      → encode_field tables t name value out
        ≡ ((encode_field tables t name value []).0, out ++ (encode_field tables t name value []).1)
  unfolding encode_field
  field_appends t name value out = found_appends t name value out (find t name value)

  -- Each part only adds to the bytes before it.
  headers_append :
      (t : HpackTable) (hs : HttpHeaderMap) (out : Bytes)
      → (more : Bytes) × ((encode_headers tables t hs out).1 ≡ out ++ more)
  unfolding encode_headers
  headers_append t [] out = ([], sym (append-nil out))
  headers_append t ((key, hdr) ∷ hs) out = elim (Bool-cases (is_skipped hdr.name_code)) [
    | inl skip ↦ let (more, e) = headers_append t hs out in (more, rw (skip, e, encode_headers))
    | inr keep ↦
        let u = (encode_field tables t hdr.name hdr.value []).0 in
        let part = (encode_field tables t hdr.name hdr.value []).1 in
        let (more, e) = headers_append u hs (out ++ part) in
        (
          part ++ more,
          rw (
            keep,
            field_appends t hdr.name hdr.value out,
            e,
            append_assoc out part more,
            encode_headers,
          ),
        )
  ]

  cookies_append :
      (cs : List Bytes) (out : Bytes)
      → (more : Bytes) × (encode_cookies tables cs out ≡ out ++ more)
  unfolding encode_cookies
  cookies_append [] out = ([], sym (append-nil out))
  cookies_append (c ∷ cs) out =
      let part = literal tables 0 (codes "set-cookie") c [] in
      let (more, e) = cookies_append cs (out ++ part) in
      (
        part ++ more,
        rw (literal_appends 0 (codes "set-cookie") c out, e, append_assoc out part more),
      )

  status_first :
      (t : HpackTable) (resp : ResponseHead)
      → (more : Bytes) × ((encode_response tables t resp).1
          ≡ (encode_field tables t (codes ":status") (to_string resp.status_code) []).1 ++ more)
  unfolding encode_response
  status_first t resp =
      let (t', out) = encode_field tables t (codes ":status") (to_string resp.status_code) [] in
      let (hs, eh) = headers_append t' resp.headers out in
      let (cs, ec) = cookies_append resp.cookies (after_length (out ++ hs)) in
      let (ls, el) = length_appends (out ++ hs) in
      (hs ++ (ls ++ cs), rw (eh, ec, el) (simp append_assoc))
    where
      after_length : Bytes → Bytes
      after_length out =
          if ltb 0 resp.content_size
          then literal tables 0 (codes "content-length") (to_string resp.content_size) out
          else out

      length_appends : (out : Bytes) → (more : Bytes) × (after_length out ≡ out ++ more)
      length_appends out = elim (Bool-cases (ltb 0 resp.content_size)) [
        | inl some_length ↦ (
          literal tables 0 (codes "content-length") (to_string resp.content_size) [],
          rw some_length
              (literal_appends 0 (codes "content-length") (to_string resp.content_size) out),
        )
        | inr no_length ↦ ([], rw no_length (sym (append-nil out)))
      ]

status_rejected :
    (value : Bytes) → apply_header (no_headers, false) (codes ":status") value ≡ err response_pseudo
unfolding apply_header apply_pseudo is_pseudo bytes_eq
status_rejected value = refl

module _ (tables : HuffmanTables) (agrees : HuffmanAgrees tables) where
  decode_from :
      (fuel len : ℕ) (t u : HpackTable) (a : Applied) (b : ℕ) (bs rest : Bytes) (name value : Bytes)
      → decode_field tables len t a b (b ∷ bs)
        ≡ (u, (apply_header a name value >>= λ a'. ok (a', rest)))
      → apply_header a name value ≡ err response_pseudo
      → decode_loop tables len (suc fuel) t a (b ∷ bs) ≡ some (u, err response_pseudo)
  unfolding decode_loop
  decode_from fuel len t u a b bs rest name value e thrown =
      let first = λ (d : Decoded (Applied × Bytes)). d.0 in
      rw (e, thrown, decode_loop)
        (ap (λ (t : HpackTable). some (t, err response_pseudo)) (ap first e))

  decode_first :
      (t u : HpackTable) (a : Applied) (bytes bs rest name value : Bytes) (b : ℕ)
      → bytes ≡ b ∷ bs
      → decode_field tables (length bytes) t a b (b ∷ bs)
        ≡ (u, (apply_header a name value >>= λ a'. ok (a', rest)))
      → apply_header a name value ≡ err response_pseudo
      → decode_loop tables (length bytes) (length bytes) t a bytes ≡ some (u, err response_pseudo)
  decode_first t u a bytes bs rest name value b q round thrown =
      rw q (
        decode_from (length bs) (length (b ∷ bs)) t u a b bs rest name value (rw q at round) thrown)

  -- The decoder that a client session shares with the server throws at the `:status` of every response
  -- block that the encoder writes from an equal table, whatever the response is.
  pub decode-encode_response :
      (t : HpackTable) (resp : ResponseHead)
      → IsValid t
      → t.max_size < 2 ^ 32
      → IsU64 (length (encode_response tables t resp).1)
      → (u : HpackTable) × (decode tables t (encode_response tables t resp).1
          ≡ some (u, err response_pseudo))
  unfolding decode
  decode-encode_response t resp v small fits =
      let name = codes ":status" in
      let value = to_string resp.status_code in
      let (more, e) = status_first tables t resp in
      let field = (encode_field tables t name value []).1 in
      let size : length (encode_response tables t resp).1 ≡ length field + length more =
        rw e (length-append field more) in
      let len = length (encode_response tables t resp).1 in
      let (b, bs, whole, round) =
        encode_field-Round tables agrees t (no_headers, false) len name value more (omega arith)
          (to_string-IsByte resp.status_code) v small fits (omega (arith, size)) in
      let u = (encode_field tables t name value []).0 in
      (
        u,
        decode_first t u (no_headers, false) (encode_response tables t resp).1 bs more name value b
            (e ∙ whole) round (status_rejected value),
      )
