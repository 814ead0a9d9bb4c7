-- ===== src/Tests/Http2.antt =====
-- extensions/http2/src/frame: a frame cut in the middle of its header.
use coro_test.Common.{◌≡◌, refl, [], ◌∷◌, ◌++◌, arith}
use coro_test.Io.{Pieces, flat}
use coro_test.Io.Exact.{read_exact, ExactLaw, read_exact-ExactLaw}
use coro_test.Http2.Frame.{write_frame, header_bytes}
use coro_test.Http2.Frame.RoundTrip.{ReadsFrame, read_frame-write_frame}

abbrev cut : Pieces
cut = (0 ∷ 0 ∷ 2 ∷ 0 ∷ []) ∷ (1 ∷ 0 ∷ 0 ∷ 1 ∷ 0 ∷ 7 ∷ []) ∷ (9 ∷ 42 ∷ []) ∷ []

read_exact-ExactLaw_example : ExactLaw cut 5 (read_exact 5 cut)
read_exact-ExactLaw_example =
    read_exact-ExactLaw cut 5 (omega arith, (omega arith, (omega arith, tt)))

cut_lem : flat cut ≡ write_frame 0 1 256 (7 ∷ 9 ∷ []) ++ 42 ∷ []
unfolding write_frame header_bytes
cut_lem = refl

read_frame-write_frame_example : ReadsFrame 100 0 1 256 (7 ∷ 9 ∷ []) (42 ∷ []) cut
read_frame-write_frame_example =
    read_frame-write_frame 100 0 1 256 (7 ∷ 9 ∷ []) (42 ∷ []) cut (omega arith) (omega arith)
      (omega arith) (omega arith, (omega arith, (omega arith, tt))) cut_lem
