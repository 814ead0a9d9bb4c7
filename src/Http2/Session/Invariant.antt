-- ===== src/Http2/Session/Invariant.antt =====
-- What holds of a session between two frames, in extensions/http2/src/Http2Session.cc.
pub mod Reads
pub mod Blocks
pub mod Data
pub mod Frames
pub mod Rounds
pub mod Total
use coro_test.Common.{
  ℕ, suc, max, ◌+◌, ◌-◌, ◌*◌, ◌%◌, ◌≤◌, ◌<◌, ◌≡◌, ◌⊎◌, inl, inr, List, [], ◌∷◌, refl, arith, All,
  Bytes, ◌==◌, if_elim,
}
use mathlib.Core.List.{Memᴰ}
use coro_test.Common.Error.{Result, ok, err, ◌>>=◌}
use coro_test.Hpack.Table.{HpackTable}
use coro_test.Hpack.Table.Eviction.{IsValid}
use coro_test.Http2.Session.{
  Http2Stream, Http2Session, StreamMap, Handled, SessionFault, out_of_bounds, undefined_shift,
  out_of_fuel, erase_stream, write, four_bytes, send_rst_stream, send_go_away, go_away,
}
use coro_test.Http2.Types.{rst_stream_type}

-- The streams that got a task, the newest first. Their numbers are odd, at most `last`, and go
-- down, but for the number 0, which may stand anywhere.
unfoldable pub NewestFirst : ℕ → List ℕ → Type 0
NewestFirst last [] = Unit
NewestFirst last (sid ∷ older) =
    ((sid ≡ 0) × NewestFirst last older)
    ⊎ ((sid % 2 ≡ 1) × (sid ≤ last) × NewestFirst (sid - 1) older)

pub NewestFirst-weaken : (m n : ℕ) (ds : List ℕ) → m ≤ n → NewestFirst m ds → NewestFirst n ds
unfolding NewestFirst
NewestFirst-weaken m n [] h v = tt
NewestFirst-weaken m n (sid ∷ ds) h (inl (z, v)) = inl (z, NewestFirst-weaken m n ds h v)
NewestFirst-weaken m n (sid ∷ ds) h (inr (o, l, v)) = inr (o, omega arith, v)

-- Between two header blocks every stream up to `last` may have its task; inside a block the stream
-- of the block is the newest, and has none.
unfoldable pub Progress : ℕ → ℕ → List ℕ → Type 0
Progress last continuation ds =
    ((continuation ≡ 0) × NewestFirst last ds)
    ⊎ ((continuation % 2 ≡ 1) × (continuation ≡ last) × NewestFirst (last - 1) ds)

abbrev pub AreDispatched : StreamMap → List ℕ → Type 0
AreDispatched streams ds = All (λ e. Memᴰ e.0 ds) streams

pub record IsConsistent (s : Http2Session) : Type 0 where
  pub table : IsValid s.decoder
  pub table_bound : s.decoder.max_size ≤ 4096
  pub progress : Progress s.last_stream_id s.continuation_stream_id s.dispatched
  pub known : AreDispatched s.streams s.dispatched
  pub peer_low : 16384 ≤ s.peer_max_frame_size
  pub peer_high : s.peer_max_frame_size ≤ 16777215

-- The ends of a handler: it returns what it should, or it read past its payload, which was
-- `Short`, or an integer of a header block was too long to shift. The fuel was enough.
pub data Ends {ℓ} {A : Type ℓ} (Short : Type 0) (P : A → Type 0)
    : Result SessionFault A → Type ℓ where
  returned : {a : A} → P a → Ends Short P (ok a)
  overread : Short → Ends Short P (err out_of_bounds)
  shifted : Ends Short P (err undefined_shift)

pub Ends-bind {ℓ κ} :
    {A : Type ℓ} {B : Type κ} {Short : Type 0} (Q : A → Type 0) (P : B → Type 0)
    (m : Result SessionFault A) (f : A → Result SessionFault B)
    → Ends Short Q m
    → ((a : A) → Q a → Ends Short P (f a))
    → Ends Short P (m >>= f)
Ends-bind Q P _ f (returned {a} h) k = k a h
Ends-bind Q P _ f (overread h) k = overread h
Ends-bind Q P _ f shifted k = shifted

pub Ends-weaken {ℓ} :
    {A : Type ℓ} {Short Short' : Type 0} {P : A → Type 0} (m : Result SessionFault A)
    → (Short → Short')
    → Ends Short P m
    → Ends Short' P m
Ends-weaken _ w (returned h) = returned h
Ends-weaken _ w (overread h) = overread (w h)
Ends-weaken _ w shifted = shifted

-- The writes and the table of the encoder do not matter.
pub write-IsConsistent :
    (frame_type flags stream_id : ℕ) (payload : Bytes) (s : Http2Session)
    → IsConsistent s
    → IsConsistent (write frame_type flags stream_id payload s)
unfolding write
write-IsConsistent frame_type flags stream_id payload s v = record {
  table = v.table;
  table_bound = v.table_bound;
  progress = v.progress;
  known = v.known;
  peer_low = v.peer_low;
  peer_high = v.peer_high;
}

pub send_rst_stream-IsConsistent :
    (s : Http2Session) (sid code : ℕ) → IsConsistent s → IsConsistent (send_rst_stream s sid code)
unfolding send_rst_stream
send_rst_stream-IsConsistent s sid code v =
    write-IsConsistent rst_stream_type 0 sid (four_bytes 0xff code) s v

pub send_go_away-IsConsistent :
    (s : Http2Session) (last code : ℕ) → IsConsistent s → IsConsistent (send_go_away s last code)
unfolding send_go_away write
send_go_away-IsConsistent s last code v = record {
  table = v.table;
  table_bound = v.table_bound;
  progress = v.progress;
  known = v.known;
  peer_low = v.peer_low;
  peer_high = v.peer_high;
}

pub go_away-IsConsistent :
    {Short : Type 0} (s : Http2Session) (code : ℕ)
    → IsConsistent s
    → Ends Short IsConsistent (go_away s code)
go_away-IsConsistent s code v = returned (send_go_away-IsConsistent s s.last_stream_id code v)

pub AreDispatched-older :
    (sid : ℕ) (m : StreamMap) (ds : List ℕ) → AreDispatched m ds → AreDispatched m (sid ∷ ds)
AreDispatched-older sid [] ds h = tt
AreDispatched-older sid ((k, stream) ∷ m) ds (h, hs) =
    (Memᴰ.tail h, AreDispatched-older sid m ds hs)

pub AreDispatched-erase_stream :
    (sid : ℕ) (m : StreamMap) (ds : List ℕ)
    → AreDispatched m ds
    → AreDispatched (erase_stream sid m) ds
unfolding erase_stream
AreDispatched-erase_stream sid [] ds h = tt
AreDispatched-erase_stream sid ((k, stream) ∷ m) ds (h, hs) =
    if_elim (λ n. AreDispatched n ds) (k == sid) (λ _. AreDispatched-erase_stream sid m ds hs)
      (λ _. (h, AreDispatched-erase_stream sid m ds hs))

-- The stream of a block is dispatched at the end of it.
pub Progress-dispatch :
    (last sid : ℕ) (ds : List ℕ) → Progress last sid ds → Progress last 0 (sid ∷ ds)
unfolding Progress NewestFirst
Progress-dispatch last sid ds (inl (z, v)) = inl (refl, inl (z, v))
Progress-dispatch last sid ds (inr (o, e, v)) = inl (refl, inr (o, omega arith, rw e v))

pub Progress-abandon : (last sid : ℕ) (ds : List ℕ) → Progress last sid ds → Progress last 0 ds
unfolding Progress
Progress-abandon last sid ds (inl (z, v)) = inl (refl, v)
Progress-abandon last sid ds (inr (o, e, v)) =
    inl (refl, NewestFirst-weaken (last - 1) last ds (omega arith) v)

pub Progress-raise :
    (last sid continuation : ℕ) (ds : List ℕ)
    → continuation ≡ 0
    → Progress last continuation ds
    → Progress (max last sid) continuation ds
unfolding Progress
Progress-raise last sid continuation ds z (inl (_, v)) =
    inl (z, NewestFirst-weaken last (max last sid) ds (omega arith) v)
Progress-raise last sid continuation ds z (inr (o, _, v)) = absurd (ground arith)

pub Progress-begin :
    (last sid continuation : ℕ) (ds : List ℕ)
    → continuation ≡ 0
    → last < sid
    → sid % 2 ≡ 1
    → Progress last continuation ds
    → Progress (max last sid) sid ds
unfolding Progress
Progress-begin last sid continuation ds z above odd (inl (_, v)) =
    inr (odd, omega arith, NewestFirst-weaken last (max last sid - 1) ds (omega arith) v)
Progress-begin last sid continuation ds z above odd (inr (o, _, v)) = absurd (ground arith)
