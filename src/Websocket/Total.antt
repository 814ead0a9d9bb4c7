-- ===== src/Websocket/Total.antt =====
-- `receive` ends: each frame takes bytes off the input.
use coro_test.Common.{
  ℕ, zero, suc, ◌+◌, ◌^◌, ◌%◌, ◌≤◌, ◌<◌, ◌≢◌, ap, [], ◌∷◌, Bytes, Bool, true, false, Option, none,
  some, length, ltb, if◌then◌else◌, arith, length-append, ◌==◌,
}
use coro_test.Common.Error.{Result, ok, err, ◌>>=◌, ◌>>◌, throw_if}
use coro_test.Io.{Pieces, flat, IsOpen}
use coro_test.Io.Exact.{read_exact, ExactLaw, read_exact-ExactLaw}
use coro_test.Websocket.Frame.{continuation_opcode, mask_from}
use coro_test.Websocket.Connection.{
  WsFault, connection_closed, length_error, out_of_bounds, out_of_fuel, Host, WsConnection, WsHead,
  Outcome, send_frame, with_incoming, read_or_throw, read_length, read_head, read_body, Round,
  returns, again, dispatch, with_head, with_body, receive_round, receive_loop, receive, differs,
  is_server,
}

abbrev IsReal : WsFault → Type 0
IsReal fault = fault ≢ out_of_fuel

-- A reader that takes `k` bytes at least off the stream, or throws.
Shrinks {ℓ} : {A : Type ℓ} → Pieces → ℕ → Result WsFault (A × Pieces) → Type 0
Shrinks pieces k (err fault) = IsReal fault
Shrinks pieces k (ok (a, rest)) = (length (flat rest) + k ≤ length (flat pieces)) × IsOpen rest

further {κ} :
    {B : Type κ} (pieces rest : Pieces) (k : ℕ) (r : Result WsFault (B × Pieces))
    → length (flat rest) + k ≤ length (flat pieces)
    → Shrinks rest 0 r
    → Shrinks pieces k r
unfolding Shrinks
further pieces rest k (err fault) h g = g
further pieces rest k (ok (b, last)) h (g, op') = (omega arith, op')

>>=-Shrinks {ℓ κ} :
    {A : Type ℓ} {B : Type κ} (pieces : Pieces) (k : ℕ) (m : Result WsFault (A × Pieces))
    (f : A × Pieces → Result WsFault (B × Pieces))
    → Shrinks pieces k m
    → ((a : A) (rest : Pieces) → IsOpen rest → Shrinks rest 0 (f (a, rest)))
    → Shrinks pieces k (m >>= f)
unfolding Shrinks
>>=-Shrinks pieces k (err fault) f h next = h
>>=-Shrinks pieces k (ok (a, rest)) f (h, op) next =
    further pieces rest k (f (a, rest)) h (next a rest op)

throw_if-Shrinks {κ} :
    {B : Type κ} (pieces : Pieces) (bad : Bool) (fault : WsFault)
    (rest : Result WsFault (B × Pieces))
    → IsReal fault
    → Shrinks pieces 0 rest
    → Shrinks pieces 0 (throw_if bad fault >> rest)
unfolding Shrinks
throw_if-Shrinks pieces true fault rest h g = h
throw_if-Shrinks pieces false fault rest h g = g

closed-IsReal : IsReal connection_closed
closed-IsReal e = cc

read_or_throw-Shrinks :
    (len : ℕ) (pieces : Pieces) → IsOpen pieces → Shrinks pieces len (read_or_throw len pieces)
unfolding read_or_throw Shrinks
read_or_throw-Shrinks len pieces op = go (read_exact len pieces) (read_exact-ExactLaw pieces len op)
  where
    go :
        (o : Option (Bytes × Pieces))
        → ExactLaw pieces len o
        → Shrinks pieces len (elim o [ none ↦ err connection_closed | some got ↦ ok got ])
    go none h = closed-IsReal
    go (some (got, rest)) (e, size, op') =
        (omega (arith, ap (length {A = ℕ}) e, length-append got (flat rest), size), op')

weaken :
    {A : Type 0} (pieces : Pieces) (k : ℕ) (r : Result WsFault (A × Pieces))
    → Shrinks pieces k r
    → Shrinks pieces 0 r
unfolding Shrinks
weaken pieces k (err fault) h = h
weaken pieces k (ok (a, rest)) (h, op) = (omega arith, op)

stays : {A : Type 0} (pieces : Pieces) (a : A) → IsOpen pieces → Shrinks pieces 0 (ok (a, pieces))
unfolding Shrinks
stays pieces a op = (omega arith, op)

if-Shrinks :
    {A : Type 0} (pieces : Pieces) (k : ℕ) (b : Bool) (x y : Result WsFault (A × Pieces))
    → Shrinks pieces k x
    → Shrinks pieces k y
    → Shrinks pieces k (if b then x else y)
if-Shrinks pieces k true x y hx hy = hx
if-Shrinks pieces k false x y hx hy = hy

-- A read of `n` bytes and what is made of them.
read-Shrinks :
    {A : Type 0} (n : ℕ) (pieces : Pieces) (f : Bytes → A)
    → IsOpen pieces
    → Shrinks pieces 0 (read_or_throw n pieces >>= λ (ext, rest). ok (f ext, rest))
read-Shrinks n pieces f op =
    >>=-Shrinks pieces 0 (read_or_throw n pieces) _
      (weaken pieces n _ (read_or_throw-Shrinks n pieces op))
      (λ ext rest op'. stays rest (f ext) op')

read_length-Shrinks :
    (form : ℕ) (pieces : Pieces) → IsOpen pieces → Shrinks pieces 0 (read_length form pieces)
unfolding read_length
read_length-Shrinks form pieces op =
    if-Shrinks pieces 0 (form == 126) _ _ (read-Shrinks 2 pieces _ op)
      (if-Shrinks pieces 0 (form == 127) _ _ (read-Shrinks 8 pieces _ op) (stays pieces form op))

read_head-Shrinks : (pieces : Pieces) → IsOpen pieces → Shrinks pieces 2 (read_head pieces)
unfolding read_head
read_head-Shrinks pieces op =
    >>=-Shrinks pieces 2 (read_or_throw 2 pieces) _ (read_or_throw-Shrinks 2 pieces op)
      (λ header rest op'.
        >>=-Shrinks rest 0 (read_length _ rest) _ (read_length-Shrinks _ rest op')
          (λ len last op''. stays last _ op''))

read_body-Shrinks :
    (host : Host) (masked : Bool) (offset payload_len : ℕ) (pieces : Pieces)
    → IsOpen pieces
    → Shrinks pieces 0 (read_body host masked offset payload_len pieces)
unfolding read_body
read_body-Shrinks host masked offset payload_len pieces op =
    >>=-Shrinks pieces 0
      (if masked then read_or_throw 4 pieces else ok (0 ∷ 0 ∷ 0 ∷ 0 ∷ [], pieces)) _
      (if-Shrinks pieces 0 masked _ _ (weaken pieces 4 _ (read_or_throw-Shrinks 4 pieces op))
        (stays pieces _ op))
      (λ key rest op'.
        throw_if-Shrinks rest (ltb host.room ((offset + payload_len) % 2 ^ 64)) length_error _
          (λ e. cc)
          (throw_if-Shrinks rest (ltb ((offset + payload_len) % 2 ^ 64) (offset + payload_len))
            out_of_bounds _ (λ e. cc)
            (read-Shrinks payload_len rest
              (λ bytes. if masked then mask_from key 0 bytes else bytes) op')))

-- A round answers, or goes on with less to read.
abbrev Advances : ℕ → Round → Type 0
Advances size (returns (r, c)) = r ≢ err out_of_fuel
Advances size (again c payload final) = (length (flat c.incoming) < size) × IsOpen c.incoming

if-Advances :
    (size : ℕ) (b : Bool) (x y : Round)
    → Advances size x
    → Advances size y
    → Advances size (if b then x else y)
if-Advances size true x y hx hy = hx
if-Advances size false x y hx hy = hy

dispatch-Advances :
    (host : Host) (c : WsConnection) (payload : Bytes) (final : ℕ) (head : WsHead) (bytes : Bytes)
    (size : ℕ)
    → length (flat c.incoming) < size
    → IsOpen c.incoming
    → Advances size (dispatch host c payload final head bytes)
unfolding dispatch send_frame
dispatch-Advances host c payload final head bytes size h op =
    if-Advances size (head.opcode == 9) _ _ (h, op)
      (if-Advances size (head.opcode == 8) _ _ (λ e. cc)
        (if-Advances size head.fin _ _ (λ e. cc) (h, op)))

with_body-Advances :
    (host : Host) (c : WsConnection) (payload : Bytes) (final : ℕ) (head : WsHead) (rest : Pieces)
    (size : ℕ) (r : Result WsFault (Bytes × Pieces))
    → length (flat rest) < size
    → Shrinks rest 0 r
    → Advances size (with_body host c payload final head r)
unfolding with_body Shrinks
with_body-Advances host c payload final head rest size (err fault) h real = λ e. real cc
with_body-Advances host c payload final head rest size (ok (bytes, last)) h (g, op) =
    dispatch-Advances host (with_incoming c last) payload final head bytes size (omega arith) op

with_head-Advances :
    (host : Host) (c : WsConnection) (payload : Bytes) (final size : ℕ) (pieces : Pieces)
    (r : Result WsFault (WsHead × Pieces))
    → length (flat pieces) ≤ size
    → Shrinks pieces 2 r
    → Advances size (with_head host c payload final r)
unfolding with_head Shrinks
with_head-Advances host c payload final size pieces (err fault) h real = λ e. real cc
with_head-Advances host c payload final size pieces (ok (head, rest)) h (g, op) =
    if-Advances size (differs head.masked (is_server c.role)) _ _ (λ e. cc)
      (with_body-Advances host c payload final head rest size _ (omega arith)
        (read_body-Shrinks host head.masked (length payload) head.payload_len rest op))

receive_round-Advances :
    (host : Host) (c : WsConnection) (payload : Bytes) (final : ℕ)
    → IsOpen c.incoming
    → Advances (length (flat c.incoming)) (receive_round host c payload final)
unfolding receive_round
receive_round-Advances host c payload final op =
    with_head-Advances host c payload final (length (flat c.incoming)) c.incoming _ (omega arith)
      (read_head-Shrinks c.incoming op)

receive_loop-total :
    (fuel : ℕ) (host : Host) (c : WsConnection) (payload : Bytes) (final : ℕ)
    → length (flat c.incoming) < fuel
    → IsOpen c.incoming
    → (receive_loop fuel host c payload final).0 ≢ err out_of_fuel
unfolding receive_loop
receive_loop-total zero host c payload final enough op = absurd (omega arith)
receive_loop-total (suc fuel) host c payload final enough op =
    go (receive_round host c payload final) (receive_round-Advances host c payload final op)
      (receive_loop-total fuel host)
  where
    go :
        (r : Round)
        → Advances (length (flat c.incoming)) r
        → ((c' : WsConnection) (payload' : Bytes) (final' : ℕ)
            → length (flat c'.incoming) < fuel
            → IsOpen c'.incoming
            → (receive_loop fuel host c' payload' final').0 ≢ err out_of_fuel)
        → (elim r as (λ _. Outcome) [
          | returns outcome ↦ outcome
          | again c' payload' final' ↦ receive_loop fuel host c' payload' final'
        ]).0
          ≢ err out_of_fuel
    go (returns (r, c')) h later = h
    go (again c' payload' final') (h, op') later = later c' payload' final' (omega arith) op'

-- `receive` ends on every input that comes in pieces that are not empty: the loop never uses up the rounds
-- that the model gives it, one for each byte of the input and one more. (How it ends is left open: with a
-- message, with a throw, or out of bounds, where the size of the payload wraps around.)
pub receive-total :
    (host : Host) (c : WsConnection) → IsOpen c.incoming → (receive host c).0 ≢ err out_of_fuel
unfolding receive
receive-total host c op =
    receive_loop-total (suc (length (flat c.incoming))) host c [] continuation_opcode (omega arith)
      op
