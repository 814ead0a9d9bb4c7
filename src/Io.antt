-- ===== src/Io.antt =====
-- include/nitrocoro/io/Stream.h: a stream of bytes as its reader sees it. What the peer sends arrives in
-- pieces that the network chooses; a read takes bytes of the first piece only, and an empty answer is
-- the end of the stream.
pub mod Exact
use coro_test.Common.{
  ℕ, zero, suc, ◌+◌, ◌-◌, ◌<◌, List, [], ◌∷◌, ◌++◌, Bytes, Bool, true, false, Option, none, some,
  length, take, drop, All, if◌then◌else◌, ◌==◌,
}

abbrev pub Pieces : Type 0
Pieces = List Bytes

-- `co_await stream->read(buf, len)`
unfoldable pub read : ℕ → Pieces → Bytes × Pieces
read len [] = ([], [])
read len (piece ∷ pieces) =
    let rest = drop len piece in
    (take len piece, (if length rest == 0 then pieces else rest ∷ pieces))

-- All that is to come.
abbrev pub flat : Pieces → Bytes
flat [] = []
flat (piece ∷ pieces) = piece ++ flat pieces

-- No piece is empty: an empty one would read as the end.
abbrev pub IsOpen : Pieces → Type 0
IsOpen = All (λ piece. 0 < length piece)
