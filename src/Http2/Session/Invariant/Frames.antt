-- ===== src/Http2/Session/Invariant/Frames.antt =====
-- Every frame keeps a session consistent: the other handlers, and a round of the loop of `run` in
-- extensions/http2/src/Http2Session.cc.
use coro_test.Common.{
  ℕ, ◌*◌, ◌%◌, ◌^◌, ◌≤◌, ◌≡◌, inl, inr, [], ◌∷◌, Bytes, Bool, true, false, none, arith, ◌==◌, not,
  ◌&&◌, length, bit_or, if_elim, Option-cases,
}
use coro_test.Common.Error.{ok}
use coro_test.Hpack.Text.{is_set}
use coro_test.Http2.Frame.{Frame}
use coro_test.Http2.Types
use coro_test.Http2.Session.{Http2Session, has_stream, send_settings_ack, Handled}
use coro_test.Http2.Session.Headers.{read_u31}
use coro_test.Http2.Session.Control.{
  refused, setting_error, apply_setting, settings_loop, handle_settings, handle_ping,
  handle_window_update, handle_rst_stream, handle_priority,
}
use coro_test.Http2.Session.Run.{no_frame_error}
use coro_test.Http2.Session.Invariant.{
  IsConsistent, Ends, returned, Ends-bind, go_away-IsConsistent, send_go_away-IsConsistent,
  send_rst_stream-IsConsistent, write-IsConsistent, AreDispatched-erase_stream,
}
use coro_test.Http2.Session.Invariant.Reads.{read_u31-Ends}
use coro_test.Http2.Session.Invariant.Data.{with_streams}

-- A frame size that is not refused is within the bounds of RFC 7540, section 6.5.2.
setting_in_bounds :
    (id val : ℕ)
    → setting_error id val ≡ none
    → (id == Types.max_frame_size) ≡ true
    → (16384 ≤ val) × (val ≤ 16777215)
unfolding setting_error
setting_in_bounds id val e h = ground arith

apply_setting-IsConsistent :
    (s : Http2Session) (id val : ℕ)
    → IsConsistent s
    → setting_error id val ≡ none
    → IsConsistent (apply_setting s id val)
unfolding apply_setting
apply_setting-IsConsistent s id val v e =
    if_elim IsConsistent (id == Types.max_frame_size)
      (λ sized.
        let (low, high) = setting_in_bounds id val e sized in
        record {
          table = v.table;
          table_bound = v.table_bound;
          progress = v.progress;
          known = v.known;
          peer_low = low;
          peer_high = high;
        })
      (λ _. v)

settings_loop-IsConsistent :
    {Short : Type 0} (s : Http2Session) (payload : Bytes)
    → IsConsistent s
    → length payload % 6 ≡ 0
    → Ends Short IsConsistent (settings_loop s payload)
unfolding settings_loop send_settings_ack
settings_loop-IsConsistent s [] v whole =
    returned (write-IsConsistent Types.settings_type Types.ack 0 [] s v)
settings_loop-IsConsistent s (i0 ∷ i1 ∷ v0 ∷ v1 ∷ v2 ∷ v3 ∷ more) v whole =
    let id = bit_or (i0 * 2 ^ 8) i1 in
    let val = bit_or (bit_or (bit_or (v0 * 2 ^ 24) (v1 * 2 ^ 16)) (v2 * 2 ^ 8)) v3 in
    elim (Option-cases (setting_error id val)) [
      | inl fine ↦
          rw (fine, settings_loop)
            (settings_loop-IsConsistent (apply_setting s id val) more
              (apply_setting-IsConsistent s id val v fine) (omega arith))
      | inr (code, bad) ↦ rw (bad, settings_loop) (go_away-IsConsistent s code v)
    ]
settings_loop-IsConsistent s (_ ∷ []) v whole = absurd (omega arith)
settings_loop-IsConsistent s (_ ∷ _ ∷ []) v whole = absurd (omega arith)
settings_loop-IsConsistent s (_ ∷ _ ∷ _ ∷ []) v whole = absurd (omega arith)
settings_loop-IsConsistent s (_ ∷ _ ∷ _ ∷ _ ∷ []) v whole = absurd (omega arith)
settings_loop-IsConsistent s (_ ∷ _ ∷ _ ∷ _ ∷ _ ∷ []) v whole = absurd (omega arith)

pub handle_settings-IsConsistent :
    {Short : Type 0} (s : Http2Session) (frame : Frame)
    → IsConsistent s
    → Ends Short IsConsistent (handle_settings s frame)
unfolding handle_settings
handle_settings-IsConsistent s frame v =
    if_elim (Ends _ IsConsistent) (not (frame.header.stream_id == 0))
      (λ _. go_away-IsConsistent s Types.protocol_error v)
      (λ _.
        if_elim (Ends _ IsConsistent) (is_set frame.header.flags Types.ack)
          (λ _.
            if_elim (Ends _ IsConsistent) (length frame.payload == 0) (λ _. returned v)
              (λ _. go_away-IsConsistent s Types.frame_size_error v))
          (λ _.
            if_elim (Ends _ IsConsistent) (not (length frame.payload % 6 == 0))
              (λ _. go_away-IsConsistent s Types.frame_size_error v)
              (λ whole. settings_loop-IsConsistent s frame.payload v (ground arith))))

pub handle_ping-IsConsistent :
    {Short : Type 0} (s : Http2Session) (frame : Frame)
    → IsConsistent s
    → Ends Short IsConsistent (handle_ping s frame)
unfolding handle_ping
handle_ping-IsConsistent s frame v =
    if_elim (Ends _ IsConsistent) (not (frame.header.stream_id == 0))
      (λ _. go_away-IsConsistent s Types.protocol_error v)
      (λ _.
        if_elim (Ends _ IsConsistent) (not (length frame.payload == 8))
          (λ _. go_away-IsConsistent s Types.frame_size_error v)
          (λ _.
            if_elim (Ends _ IsConsistent) (is_set frame.header.flags Types.ack) (λ _. returned v)
              (λ _. returned (write-IsConsistent Types.ping_type Types.ack 0 frame.payload s v))))

-- A session with the mark of an error, or of going on.
abbrev pub IsMarked : Http2Session × Bool → Type 0
IsMarked (s, mark) = IsConsistent s

pub marked :
    {Short : Type 0} (s : Http2Session) (mark : Bool)
    → IsConsistent s
    → Ends Short IsMarked (ok (s, mark))
marked s mark v = returned v

refuse :
    {Short : Type 0} (s : Http2Session) (code : ℕ)
    → IsConsistent s
    → Ends Short IsMarked (refused s code)
refuse s code v = marked _ true (send_go_away-IsConsistent s s.last_stream_id code v)

pub handle_window_update-IsMarked :
    {Short : Type 0} (s : Http2Session) (frame : Frame)
    → IsConsistent s
    → Ends Short IsMarked (handle_window_update s frame)
unfolding handle_window_update
handle_window_update-IsMarked s frame v =
    if_elim (Ends _ IsMarked) (not (length frame.payload == 4)) (λ _. refuse s _ v)
      (λ sized.
        if_elim (Ends _ IsMarked)
          (not (frame.header.stream_id == 0) && not (has_stream frame.header.stream_id s.streams))
          (λ _. refuse s _ v)
          (λ _.
            Ends-bind _ IsMarked (read_u31 frame.payload 0) _
              (read_u31-Ends frame.payload 0 (λ h. absurd (ground arith)))
              (λ inc _.
                if_elim (Ends _ IsMarked) (inc == 0) (λ _. refuse s _ v) (λ _. marked s false v))))

pub handle_rst_stream-IsMarked :
    {Short : Type 0} (s : Http2Session) (frame : Frame)
    → IsConsistent s
    → Ends Short IsMarked (handle_rst_stream s frame)
unfolding handle_rst_stream
handle_rst_stream-IsMarked s frame v =
    let sid = frame.header.stream_id in
    if_elim (Ends _ IsMarked) (sid == 0) (λ _. refuse s _ v)
      (λ _.
        if_elim (Ends _ IsMarked) (not (length frame.payload == 4)) (λ _. refuse s _ v)
          (λ _.
            if_elim (Ends _ IsMarked) (not (has_stream sid s.streams)) (λ _. refuse s _ v)
              (λ _. marked _ false (
                with_streams s _ v
                  (AreDispatched-erase_stream sid s.streams s.dispatched v.known)))))

pub handle_priority-IsMarked :
    {Short : Type 0} (s : Http2Session) (frame : Frame)
    → IsConsistent s
    → Ends Short IsMarked (handle_priority s frame)
unfolding handle_priority
handle_priority-IsMarked s frame v =
    let sid = frame.header.stream_id in
    if_elim (Ends _ IsMarked) (sid == 0) (λ _. refuse s _ v)
      (λ _.
        if_elim (Ends _ IsMarked) (not (length frame.payload == 5))
          (λ _. marked _ false (send_rst_stream-IsConsistent s sid _ v))
          (λ sized.
            Ends-bind _ IsMarked (read_u31 frame.payload 0) _
              (read_u31-Ends frame.payload 0 (λ h. absurd (ground arith)))
              (λ dep _. marked _ false (
                if_elim IsConsistent (dep == sid) (λ _. send_rst_stream-IsConsistent s sid _ v)
                  (λ _. v)))))

pub no_frame_error-IsMarked :
    {Short : Type 0} (h : Handled)
    → Ends Short IsConsistent h
    → Ends Short IsMarked (no_frame_error h)
unfolding no_frame_error
no_frame_error-IsMarked h e = Ends-bind IsConsistent IsMarked h _ e (λ s v. marked s false v)
