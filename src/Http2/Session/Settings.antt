-- ===== src/Http2/Session/Settings.antt =====
-- `handleSettings` of extensions/http2/src/Http2Session.cc against a list of settings (RFC 7540, section
-- 6.5).
use coro_test.Common.{
  ℕ, ◌*◌, ◌/◌, ◌%◌, ◌^◌, ◌<◌, ◌-◌, ◌≤◌, ◌⊎◌, ◌≡◌, ◌≢◌, inl, inr, refl, List, [], ◌∷◌, ◌++◌, Bytes,
  true, false, none, some, arith, length, ◌==◌, if◌then◌else◌, All, bit_or, Bool-cases, ◌∙◌,
}
use mathlib.Core.Path.{ap₂}
use coro_test.Common.Error.{ok}
use coro_test.Hpack.Text.{is_set}
use coro_test.Http2.Frame.{Frame}
use coro_test.Http2.Frame.RoundTrip
use coro_test.Http2.Types.{ack, max_frame_size}
use coro_test.Http2.Session.{Http2Session, Handled, go_away, send_settings_ack}
use coro_test.Http2.Session.Control.{setting_error, apply_setting, settings_loop, handle_settings}

-- An identifier of 16 bits and a value of 32.
pub record Setting : Type 0 where
  pub id : ℕ
  pub val : ℕ

abbrev pub IsSetting : Setting → Type 0
IsSetting x = (x.id < 2 ^ 16) × (x.val < 2 ^ 32)

-- The values that RFC 7540, section 6.5.2, allows: ENABLE_PUSH (2) is 0 or 1, INITIAL_WINDOW_SIZE (4) has
-- 31 bits, and MAX_FRAME_SIZE (5) is from 2^14 to 2^24 - 1. Other settings have any value.
abbrev pub IsAccepted : Setting → Type 0
IsAccepted x =
    ((x.id ≢ 2) ⊎ (x.val ≤ 1))
    × ((x.id ≢ 4) ⊎ (x.val ≤ 2 ^ 31 - 1))
    × ((x.id ≢ 5) ⊎ ((2 ^ 14 ≤ x.val) × (x.val ≤ 2 ^ 24 - 1)))

abbrev pub IsRefused : Setting → Type 0
IsRefused x =
    ((x.id ≡ 2) × (1 < x.val))
    ⊎ ((x.id ≡ 4) × (2 ^ 31 - 1 < x.val))
    ⊎ ((x.id ≡ 5) × ((x.val < 2 ^ 14) ⊎ (2 ^ 24 - 1 < x.val)))

-- FLOW_CONTROL_ERROR for a window that is too large, else PROTOCOL_ERROR.
unfoldable pub refusal_code : ℕ → ℕ
refusal_code id = if id == 4 then 3 else 1

setting_error-IsAccepted : (x : Setting) → IsAccepted x → setting_error x.id x.val ≡ none
unfolding setting_error
setting_error-IsAccepted x fine = ground arith

setting_error-IsRefused :
    (x : Setting) → IsRefused x → setting_error x.id x.val ≡ some (refusal_code x.id)
unfolding setting_error refusal_code
setting_error-IsRefused x bad = ground arith

-- The payload of a SETTINGS frame.
unfoldable pub settings_bytes : List Setting → Bytes
settings_bytes [] = []
settings_bytes (x ∷ xs) =
    x.id / 256
    ∷ x.id % 256
    ∷ x.val / 2 ^ 24
    ∷ x.val / 2 ^ 16 % 256
    ∷ x.val / 2 ^ 8 % 256
    ∷ x.val % 256
    ∷ settings_bytes xs

-- The session after the settings that are accepted.
unfoldable pub with_settings : Http2Session → List Setting → Http2Session
with_settings s [] = s
with_settings s (x ∷ xs) = with_settings (apply_setting s x.id x.val) xs

-- The last frame size of the list, or the size before it.
unfoldable pub latest_size : ℕ → List Setting → ℕ
latest_size size [] = size
latest_size size (x ∷ xs) = latest_size (if x.id == max_frame_size then x.val else size) xs

length-settings_bytes : (xs : List Setting) → length (settings_bytes xs) % 6 ≡ 0
unfolding settings_bytes
length-settings_bytes [] = refl
length-settings_bytes (x ∷ xs) = omega (arith, length-settings_bytes xs)

-- One setting as the loop reads it, by its six bytes.
settings_loop_step :
    (s : Http2Session) (i0 i1 v0 v1 v2 v3 id val : ℕ) (more : Bytes)
    → bit_or (i0 * 2 ^ 8) i1 ≡ id
    → bit_or (bit_or (bit_or (v0 * 2 ^ 24) (v1 * 2 ^ 16)) (v2 * 2 ^ 8)) v3 ≡ val
    → settings_loop s (i0 ∷ i1 ∷ v0 ∷ v1 ∷ v2 ∷ v3 ∷ more) ≡ (elim (setting_error id val) [
      | none ↦ settings_loop (apply_setting s id val) more
      | some code ↦ go_away s code
    ])
unfolding settings_loop
settings_loop_step s i0 i1 v0 v1 v2 v3 id val more e_id e_val =
    ap₂
      (λ (i v : ℕ). elim (setting_error i v) [
        | none ↦ settings_loop (apply_setting s i v) more
        | some code ↦ go_away s code
      ])
      e_id e_val

-- What a SETTINGS frame is answered with, when `rest` is empty or begins with a setting that is refused.
unfoldable pub answer : Http2Session → List Setting → Handled
answer s [] = ok (send_settings_ack s)
answer s (x ∷ more) = go_away s (refusal_code x.id)

unfoldable pub Stops : List Setting → Type 0
Stops [] = Unit
Stops (x ∷ more) = IsRefused x

settings_loop-bytes :
    (s : Http2Session) (x : Setting) (more : Bytes)
    → IsSetting x
    → settings_loop s (
        x.id / 256
        ∷ x.id % 256
        ∷ x.val / 2 ^ 24
        ∷ x.val / 2 ^ 16 % 256
        ∷ x.val / 2 ^ 8 % 256
        ∷ x.val % 256
        ∷ more)
      ≡ (elim (setting_error x.id x.val) [
        | none ↦ settings_loop (apply_setting s x.id x.val) more
        | some code ↦ go_away s code
      ])
settings_loop-bytes s x more (small_id, small_val) =
    settings_loop_step s _ _ _ _ _ _ x.id x.val more
      (RoundTrip.two_bytes (x.id / 256) (x.id % 256) (omega arith) ∙ omega arith)
      (RoundTrip.four_bytes (x.val / 2 ^ 24) (x.val / 2 ^ 16 % 256) (x.val / 2 ^ 8 % 256)
          (x.val % 256) (omega arith) (omega arith) (omega arith)
        ∙ omega arith)

settings_loop-settings_bytes :
    (s : Http2Session) (good rest : List Setting)
    → All IsSetting (good ++ rest)
    → All IsAccepted good
    → Stops rest
    → settings_loop s (settings_bytes (good ++ rest)) ≡ answer (with_settings s good) rest
unfolding settings_loop settings_bytes with_settings answer Stops
settings_loop-settings_bytes s [] [] fit fine stops = refl
settings_loop-settings_bytes s [] (x ∷ rest) (fit, _) fine stops =
    settings_loop-bytes s x (settings_bytes rest) fit
    ∙ rw (setting_error-IsRefused x stops, answer) refl
settings_loop-settings_bytes s (x ∷ good) rest (fit, fits) (fine, fines) stops =
    settings_loop-bytes s x (settings_bytes (good ++ rest)) fit
    ∙ rw (setting_error-IsAccepted x fine)
        (settings_loop-settings_bytes (apply_setting s x.id x.val) good rest fits fines stops)

with_settings-peer :
    (s : Http2Session) (xs : List Setting)
    → (with_settings s xs).peer_max_frame_size ≡ latest_size s.peer_max_frame_size xs
unfolding with_settings latest_size apply_setting
with_settings-peer s [] = refl
with_settings-peer s (x ∷ xs) = elim (Bool-cases (x.id == max_frame_size)) [
  | inl sized ↦
      rw (sized, with_settings, latest_size)
        (with_settings-peer (record s { peer_max_frame_size = x.val }) xs)
  | inr other ↦ rw (other, with_settings, latest_size) (with_settings-peer s xs)
]

-- A SETTINGS frame that holds a list of settings: they are taken in order up to the first whose value RFC 7540 does
-- not allow, which is answered with GOAWAY and its error code; where there is none the answer is one ACK. The frame size of the peer is then
-- the last one that was taken. (The identifiers have 16 bits and the values 32.)
pub handle_settings-answer :
    (s : Http2Session) (frame : Frame) (good rest : List Setting)
    → frame.header.stream_id ≡ 0
    → is_set frame.header.flags ack ≡ false
    → frame.payload ≡ settings_bytes (good ++ rest)
    → All IsSetting (good ++ rest)
    → All IsAccepted good
    → Stops rest
    → (handle_settings s frame ≡ answer (with_settings s good) rest)
      × ((with_settings s good).peer_max_frame_size ≡ latest_size s.peer_max_frame_size good)
unfolding handle_settings
handle_settings-answer s frame good rest on_zero no_ack layout fit fine stops =
    let whole : (length frame.payload % 6 == 0) ≡ true =
      rw layout (ground (arith, length-settings_bytes (good ++ rest))) in
    (
      rw (on_zero, no_ack, whole, layout) (settings_loop-settings_bytes s good rest fit fine stops),
      with_settings-peer s good,
    )
