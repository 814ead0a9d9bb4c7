-- ===== src/Http2/Session/Invariant/Reads.antt =====
-- Which payloads are long enough for the reads of `handleHeaders` and `handleData` in
-- extensions/http2/src/Http2Session.cc.
use coro_test.Common.{
  ℕ, zero, suc, ◌+◌, ◌<◌, ◌≤◌, ◌≡◌, refl, [], ◌∷◌, Bytes, none, arith, length, get_elem?,
  if◌then◌else◌, Bool-cases, Option-cases, inl, inr,
}
use coro_test.Hpack.Text.{is_set}
use coro_test.Http2.Frame.{Frame}
use coro_test.Http2.Types.{padded, priority}
use coro_test.Http2.Session.{byte_at}
use coro_test.Http2.Session.Headers.{read_pad_len, read_u31}
use coro_test.Http2.Session.Invariant.{Ends, returned, overread, Ends-bind}

-- What the flags put in front of the data.
unfoldable pub pad_size : Frame → ℕ
pad_size frame = if is_set frame.header.flags padded then 1 else 0

unfoldable pub priority_size : Frame → ℕ
priority_size frame = if is_set frame.header.flags priority then 4 else 0

abbrev Any : ℕ → Type 0
Any v = Unit

get_elem?-none : (payload : Bytes) (i : ℕ) → get_elem? payload i ≡ none → length payload ≤ i
get_elem?-none [] i e = omega arith
get_elem?-none (b ∷ bs) zero e = cc
get_elem?-none (b ∷ bs) (suc i) e = omega (arith, get_elem?-none bs i e)

byte_at-Ends :
    {Short : Type 0} (payload : Bytes) (i : ℕ)
    → (length payload ≤ i → Short)
    → Ends Short Any (byte_at payload i)
unfolding byte_at
byte_at-Ends payload i short = elim (Option-cases (get_elem? payload i)) [
  | inl past ↦ rw past (overread (short (get_elem?-none payload i past)))
  | inr (b, there) ↦ rw there (returned tt)
]

pub read_pad_len-Ends :
    {Short : Type 0} (frame : Frame)
    → (length frame.payload < pad_size frame → Short)
    → Ends Short (λ ((pad_len, offset) : ℕ × ℕ). offset ≡ pad_size frame) (read_pad_len frame)
unfolding read_pad_len pad_size
read_pad_len-Ends frame short = elim (Bool-cases (is_set frame.header.flags padded)) [
  | inl set ↦
      rw (set, if◌then◌else◌)
        (Ends-bind Any _ (byte_at frame.payload 0) _
          (byte_at-Ends frame.payload 0 (λ h. short (rw set (omega arith)))) (λ b _. returned refl))
  | inr clear ↦ rw clear (returned refl)
]

pub read_u31-Ends :
    {Short : Type 0} (payload : Bytes) (offset : ℕ)
    → (length payload < offset + 4 → Short)
    → Ends Short Any (read_u31 payload offset)
unfolding read_u31
read_u31-Ends {Short} payload offset short =
    Ends-bind Any Any (byte_at payload offset) _ (within offset (omega arith)) (λ a _.
      Ends-bind Any Any (byte_at payload (offset + 1)) _ (within (offset + 1) (omega arith)) (λ b _.
        Ends-bind Any Any (byte_at payload (offset + 2)) _ (within (offset + 2) (omega arith))
          (λ c _.
            Ends-bind Any Any (byte_at payload (offset + 3)) _ (within (offset + 3) (omega arith))
              (λ d _. returned tt))))
  where
    within : (i : ℕ) → i < offset + 4 → Ends Short Any (byte_at payload i)
    within i h = byte_at-Ends payload i (λ past. short (omega arith))
