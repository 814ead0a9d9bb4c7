-- ===== src/Http2/Session/Invariant/Total.antt =====
-- The whole of `run` in extensions/http2/src/Http2Session.cc, on every input and with any calls of
-- the tasks between the frames.
use coro_test.Common.{
  ℕ, zero, suc, ◌<◌, ◌≡◌, ◌⊎◌, inl, inr, List, [], ◌∷◌, Bytes, Bool, true, false, Option, none,
  some, refl, arith, length, if_elim, if◌then◌else◌, Option-cases, Bool-cases, bytes_eq,
}
use coro_test.Common.Error.{ok, err}
use coro_test.Io.{Pieces, flat, IsOpen}
use coro_test.Io.Exact.{read_exact, read_exact-ExactLaw, ExactLaw}
use coro_test.Hpack.Table.{new_table}
use coro_test.Hpack.Text.{HuffmanTables}
use coro_test.Http2.Frame.{read_frame}
use coro_test.Http2.Frame.Reads.{ReadLaw, IsPast, read_frame-ReadLaw}
use coro_test.Http2.Types
use coro_test.Http2.Types.{client_preface}
use coro_test.Http2.Session.{
  Http2Session, new_session, send_headers, send_data, our_max_frame_size, write, Handled,
  out_of_bounds, undefined_shift,
}
use coro_test.Http2.Session.Run.{
  on_round, TaskCall, on_call, on_calls, run_loop, run, answers_headers, answers_data, resets, ends,
}
use coro_test.Hpack.Table.Eviction.{total}
use coro_test.Http2.Session.Invariant.{
  IsConsistent, Progress, NewestFirst, Ends, returned, overread, shifted, Ends-bind, Ends-weaken,
  send_rst_stream-IsConsistent, write-IsConsistent, AreDispatched-erase_stream,
}
use coro_test.Http2.Session.Invariant.Rounds.{on_round-IsMarked}
use coro_test.Http2.Session.Invariant.Data.{with_streams}
use coro_test.Http2.Session.Invariant.Frames.{IsMarked}

on_call-IsConsistent :
    (tables : HuffmanTables) (s : Http2Session) (c : TaskCall)
    → IsConsistent s
    → IsConsistent (on_call tables s c)
unfolding on_call send_headers send_data write
on_call-IsConsistent tables s (answers_headers sid resp last) v = record {
  table = v.table;
  table_bound = v.table_bound;
  progress = v.progress;
  known = v.known;
  peer_low = v.peer_low;
  peer_high = v.peer_high;
}
on_call-IsConsistent tables s (answers_data sid bytes last) v =
    write-IsConsistent Types.data_type _ sid bytes s v
on_call-IsConsistent tables s (resets sid code) v = send_rst_stream-IsConsistent s sid code v
on_call-IsConsistent tables s (ends sid) v =
    with_streams s _ v (AreDispatched-erase_stream sid s.streams s.dispatched v.known)

on_calls-IsConsistent :
    (tables : HuffmanTables) (s : Http2Session) (cs : List TaskCall)
    → IsConsistent s
    → IsConsistent (on_calls tables s cs)
unfolding on_calls
on_calls-IsConsistent tables s [] v = v
on_calls-IsConsistent tables s (c ∷ cs) v =
    on_calls-IsConsistent tables (on_call tables s c) cs (on_call-IsConsistent tables s c v)

run_loop-IsConsistent :
    (tables : HuffmanTables) (calls : ℕ → List TaskCall) (fuel : ℕ) (s : Http2Session)
    (pieces : Pieces)
    → IsConsistent s
    → IsOpen pieces
    → length (flat pieces) < fuel
    → Ends Unit IsConsistent (run_loop tables calls fuel s pieces)
unfolding run_loop ReadLaw IsPast
run_loop-IsConsistent tables calls zero s pieces v op h = absurd (omega arith)
run_loop-IsConsistent tables calls (suc fuel) s pieces v op h = elim (Bool-cases s.go_away_sent) [
  | inl stopped ↦ rw (stopped, run_loop) (returned v)
  | inr open_still ↦ elim (Option-cases (read_frame our_max_frame_size pieces)) [
    | inl closed ↦ rw (open_still, closed, run_loop) (returned v')
    | inr ((frame, rest), got) ↦
        let law : ReadLaw our_max_frame_size 9 pieces (some (frame, rest)) =
          rw got at (read_frame-ReadLaw our_max_frame_size pieces op) in
        rw (open_still, got, run_loop)
          (Ends-bind IsMarked IsConsistent (on_round tables s' frame) _
            (Ends-weaken _ (λ _. tt) (on_round-IsMarked tables s' frame v'))
            (next rest (λ t w.
              run_loop-IsConsistent tables calls fuel t rest w law.0.0 (omega (arith, law.0.1)))))
  ]
]
  where
    s' : Http2Session
    s' = on_calls tables s (calls fuel)

    v' : IsConsistent s'
    v' = on_calls-IsConsistent tables s (calls fuel) v

    next :
        (rest : Pieces)
        → ((t : Http2Session)
            → IsConsistent t
            → Ends Unit IsConsistent (run_loop tables calls fuel t rest))
        → (r : Http2Session × Bool) → IsMarked r
        → Ends Unit IsConsistent
            (elim r.1 [ true ↦ run_loop tables calls fuel r.0 rest | false ↦ ok r.0 ])
    next rest again (t, true) w = again t w
    next rest again (t, false) w = returned w

pub new_session-IsConsistent : IsConsistent new_session
unfolding new_session new_table Progress NewestFirst total
new_session-IsConsistent = record {
  table = record { counted = refl; within = omega arith };
  table_bound = omega arith;
  progress = inl (refl, tt);
  known = tt;
  peer_low = omega arith;
  peer_high = omega arith;
}

run-Ends :
    (tables : HuffmanTables) (calls : ℕ → List TaskCall) (pieces : Pieces)
    → IsOpen pieces
    → Ends Unit IsConsistent (run tables calls pieces)
unfolding run
run-Ends tables calls pieces op = go (read_exact 24 pieces) (read_exact-ExactLaw pieces 24 op)
  where
    go :
        (o : Option (Bytes × Pieces))
        → ExactLaw pieces 24 o
        → Ends Unit IsConsistent (elim o [
          | none ↦ ok new_session
          | some (preface, rest) ↦
              if bytes_eq preface client_preface
              then run_loop tables calls
                  (suc (length (flat rest)))
                  (write Types.settings_type 0 0 [] new_session)
                  rest
              else ok new_session
        ])
    go none law = returned new_session-IsConsistent
    go (some (preface, rest)) (_, _, op') =
        if_elim (Ends Unit IsConsistent) (bytes_eq preface client_preface)
          (λ _.
            run_loop-IsConsistent tables calls (suc (length (flat rest))) _ rest
              (write-IsConsistent Types.settings_type 0 0 [] new_session new_session-IsConsistent)
              op' (omega arith))
          (λ _. returned new_session-IsConsistent)

-- `run` ends on every input, however the network cuts it and whatever the tasks of the requests do between
-- the frames: it read past the end of a payload, or it shifted an integer of a header block by 64 bits or more, which is
-- undefined, or it returned, and then the session is consistent: no
-- request was dispatched twice (but on stream 0), the streams with a task are odd and in order, the
-- streams that are open have a task, a header block that is being collected is that of the newest stream, the table of the decoder is
-- well formed and within 4096 bytes, and the frame size of the peer is between 16384 and 16777215.
pub run-IsConsistent :
    (tables : HuffmanTables) (calls : ℕ → List TaskCall) (pieces : Pieces)
    → IsOpen pieces
    → (run tables calls pieces ≡ err out_of_bounds)
      ⊎ (run tables calls pieces ≡ err undefined_shift)
      ⊎ ((s : Http2Session) × (run tables calls pieces ≡ ok s) × IsConsistent s)
run-IsConsistent tables calls pieces op =
    go (run tables calls pieces) (run-Ends tables calls pieces op)
  where
    go :
        (r : Handled)
        → Ends Unit IsConsistent r
        → (r ≡ err out_of_bounds)
          ⊎ (r ≡ err undefined_shift)
          ⊎ ((s : Http2Session) × (r ≡ ok s) × IsConsistent s)
    go _ (returned {a = s} v) = inr (inr (s, refl, v))
    go _ (overread h) = inl refl
    go _ shifted = inr (inl refl)
