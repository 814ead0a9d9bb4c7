-- ===== src/Websocket/Receive.antt =====
-- What the frames of a peer do to `receive`.
use coro_test.Common.{
  ℕ, zero, suc, ◌+◌, ◌^◌, ◌≤◌, ◌<◌, ◌≡◌, refl, ap, ◌∙◌, List, [], ◌∷◌, ◌++◌, Bytes, true, false,
  none, some, length, arith, All, IsByte, append_assoc, length-append,
}
use coro_test.Common.Error.{ok, err}
use coro_test.Io.{Pieces, flat, IsOpen}
use coro_test.Websocket.Frame.{
  Role, server, client, WsMessageType, text, binary, close_opcode, ping_opcode, pong_opcode,
  continuation_opcode, masks, head_bytes, frame_bytes, message_opcode, close_payload,
}
use coro_test.Websocket.Connection.{
  masking_violation, Host, WsConnection, Outcome, send_frame, shutdown, shut, with_incoming,
  returns, again, dispatch, is_server, differs, with_head, with_body, receive_round, receive_loop,
  receive,
}
use coro_test.Websocket.Head.{head_of, read_head_lem}
use coro_test.Websocket.Body.{body_bytes, read_body_lem}

-- The role at the other end.
abbrev pub opposite : Role → Role
opposite server = client
opposite client = server

masked_right : (r : Role) → differs (masks (opposite r)) (is_server r) ≡ false
masked_right server = refl
masked_right client = refl

masked_wrong : (r : Role) → differs (masks r) (is_server r) ≡ true
masked_wrong server = refl
masked_wrong client = refl

-- One round on a frame from the other end.
receive_round_lem :
    (host : Host) (c : WsConnection) (payload : Bytes) (final rand opcode : ℕ) (bytes more : Bytes)
    → opcode < 16
    → All IsByte bytes
    → length payload + length bytes ≤ host.room
    → host.room < 2 ^ 64
    → IsOpen c.incoming
    → flat c.incoming ≡ frame_bytes (opposite c.role) rand opcode bytes ++ more
    → (rest : Pieces) × (receive_round host c payload final
        ≡ dispatch host
            (with_incoming c rest)
            payload
            final
            (head_of (opposite c.role) opcode (length bytes))
            bytes)
      × (flat rest ≡ more)
      × IsOpen rest
unfolding receive_round with_head with_body frame_bytes
receive_round_lem host c payload final rand opcode bytes more small hb fits room op e =
    let role = opposite c.role in
    let body = body_bytes role rand bytes in
    let (rest, q, left, op') =
      read_head_lem role opcode (length bytes) c.incoming (body ++ more) small (omega arith) op
        (e ∙ append_assoc (head_bytes role opcode (length bytes)) body more) in
    let (rest', q', left', op'') =
      read_body_lem host role rand (length payload) bytes rest more hb fits room op' left in
    (rest', rw (q, receive_round) (rw (masked_right c.role, q') refl), left', op'')

-- Frames of pings, each with its random number, and the pongs to them.
abbrev pub ping_frames : Role → List (ℕ × Bytes) → Bytes
ping_frames role [] = []
ping_frames role ((rand, bytes) ∷ pings) =
    frame_bytes role rand ping_opcode bytes ++ ping_frames role pings

abbrev pub answer_pings : Host → WsConnection → List (ℕ × Bytes) → WsConnection
answer_pings host c [] = c
answer_pings host c ((rand, bytes) ∷ pings) =
    answer_pings host (send_frame host c pong_opcode bytes) pings

abbrev pub PingFits : Host → ℕ × Bytes → Type 0
PingFits host (rand, bytes) = All IsByte bytes × (length bytes ≤ host.room)

-- A frame has a byte at least.
length-frame_bytes :
    (role : Role) (rand opcode : ℕ) (bytes : Bytes)
    → 0 < length (frame_bytes role rand opcode bytes)
unfolding frame_bytes head_bytes
length-frame_bytes role rand opcode bytes = omega arith

message_opcode-small : (type : WsMessageType) → message_opcode type < 16
unfolding message_opcode
message_opcode-small text = omega arith
message_opcode-small binary = omega arith

-- The last frame of a message ends the loop.
dispatch_message :
    (host : Host) (c : WsConnection) (role : Role) (type : WsMessageType) (bytes : Bytes)
    → dispatch host c [] continuation_opcode
        (head_of role (message_opcode type) (length bytes))
        bytes
      ≡ returns (ok (some (record { type = type; payload = bytes })), c)
unfolding dispatch message_opcode
dispatch_message host c role text bytes = refl
dispatch_message host c role binary bytes = refl

dispatch_ping :
    (host : Host) (c : WsConnection) (role : Role) (payload bytes : Bytes) (final : ℕ)
    → dispatch host c payload final (head_of role ping_opcode (length bytes)) bytes
      ≡ again (send_frame host c pong_opcode bytes) payload final
unfolding dispatch
dispatch_ping host c role payload bytes final = refl

-- Pongs do not look at the input.
answer_pings-with_incoming :
    (host : Host) (c : WsConnection) (rest last : Pieces) (pings : List (ℕ × Bytes))
    → with_incoming (answer_pings host (with_incoming c rest) pings) last
      ≡ with_incoming (answer_pings host c pings) last
unfolding send_frame
answer_pings-with_incoming host c rest last [] = refl
answer_pings-with_incoming host c rest last ((rand, bytes) ∷ pings) =
    answer_pings-with_incoming host (send_frame host c pong_opcode bytes) rest last pings

-- What `receive` answers to a message behind pings.
abbrev pub ReceivesMessage :
    Host → WsConnection → List (ℕ × Bytes) → WsMessageType → Bytes → Bytes → Outcome → Type 0
ReceivesMessage host c pings type bytes more outcome =
    (rest : Pieces) × (outcome ≡ (
      ok (some (record { type = type; payload = bytes })),
      with_incoming (answer_pings host c pings) rest,
    ))
    × (flat rest ≡ more)
    × IsOpen rest

receive_loop-ReceivesMessage :
    (fuel : ℕ) (host : Host) (c : WsConnection) (pings : List (ℕ × Bytes)) (rand : ℕ)
    (type : WsMessageType) (bytes more : Bytes)
    → length (flat c.incoming) < fuel
    → All (PingFits host) pings
    → All IsByte bytes
    → length bytes ≤ host.room
    → host.room < 2 ^ 64
    → IsOpen c.incoming
    → flat c.incoming
      ≡ ping_frames (opposite c.role) pings
        ++ (frame_bytes (opposite c.role) rand (message_opcode type) bytes ++ more)
    → ReceivesMessage host c pings type bytes more (receive_loop fuel host c [] continuation_opcode)
unfolding receive_loop send_frame
receive_loop-ReceivesMessage zero host c pings rand type bytes more enough hp hb fits room op e =
    absurd (omega arith)
receive_loop-ReceivesMessage (suc fuel) host c [] rand type bytes more enough hp hb fits room op e =
    let (rest, q, left, op') =
      receive_round_lem host c [] continuation_opcode rand (message_opcode type) bytes more
        (message_opcode-small type) hb (omega arith) room op e in
    let step = q ∙ dispatch_message host (with_incoming c rest) (opposite c.role) type bytes in
    (rest, rw (receive_loop, step) refl, left, op')
receive_loop-ReceivesMessage (suc fuel) host c ((r, p) ∷ pings) rand type bytes more enough
      ((hp, fp), hps) hb fits room op e =
    let role = opposite c.role in
    let later =
      ping_frames role pings ++ (frame_bytes role rand (message_opcode type) bytes ++ more) in
    let e' = e ∙ append_assoc (frame_bytes role r ping_opcode p) (ping_frames role pings) _ in
    let (rest, q, left, op') =
      receive_round_lem host c [] continuation_opcode r ping_opcode p later (omega arith) hp
        (omega arith) room op e' in
    let step = q ∙ dispatch_ping host (with_incoming c rest) role [] p continuation_opcode in
    let next = send_frame host (with_incoming c rest) pong_opcode p in
    let shorter : length (flat rest) < fuel = omega (
      arith,
      enough,
      ap (length {A = ℕ}) e',
      length-append (frame_bytes role r ping_opcode p) later,
      length-frame_bytes role r ping_opcode p,
      ap (length {A = ℕ}) left,
    ) in
    let (last, ends, left', op'') =
      receive_loop-ReceivesMessage fuel host next pings rand type bytes more shorter hps hb fits
        room op' left in
    (
      last,
      rw (receive_loop, step)
          (ends
            ∙ ap (λ (x : WsConnection). (ok (some (record { type = type; payload = bytes })), x))
                (answer_pings-with_incoming host c rest last ((r, p) ∷ pings))),
      left',
      op'',
    )

-- From any cut of the stream into pieces that are not empty, `receive` returns the message that `send`
-- framed at the other end, leaves the bytes behind it, and answers each ping that stands before it, in
-- order, by a pong with its payload. The payloads must be bytes and fit the allocator's room, which is
-- below 2^64.
pub receive-ReceivesMessage :
    (host : Host) (c : WsConnection) (pings : List (ℕ × Bytes)) (rand : ℕ) (type : WsMessageType)
    (bytes more : Bytes)
    → All (PingFits host) pings
    → All IsByte bytes
    → length bytes ≤ host.room
    → host.room < 2 ^ 64
    → IsOpen c.incoming
    → flat c.incoming
      ≡ ping_frames (opposite c.role) pings
        ++ (frame_bytes (opposite c.role) rand (message_opcode type) bytes ++ more)
    → ReceivesMessage host c pings type bytes more (receive host c)
unfolding receive
receive-ReceivesMessage host c pings rand type bytes more hp hb fits room op e =
    receive_loop-ReceivesMessage (suc (length (flat c.incoming))) host c pings rand type bytes more
      (omega arith) hp hb fits room op e

-- Whatever `shutdown` sent makes the other end's `receive` answer that the connection is closed, and
-- leave the bytes behind it, from any cut of the stream, where the payload is bytes and fits the room.
pub receive-shutdown :
    (host : Host) (c : WsConnection) (rand code : ℕ) (reason more : Bytes)
    → All IsByte (close_payload code reason)
    → length (close_payload code reason) ≤ host.room
    → host.room < 2 ^ 64
    → IsOpen c.incoming
    → flat c.incoming
      ≡ frame_bytes (opposite c.role) rand close_opcode (close_payload code reason) ++ more
    → (rest : Pieces) × (receive host c ≡ (ok none, with_incoming c rest)) × (flat rest ≡ more)
unfolding receive receive_loop dispatch
receive-shutdown host c rand code reason more hb fits room op e =
    let (rest, q, left, op') =
      receive_round_lem host c [] continuation_opcode rand close_opcode (close_payload code reason)
        more (omega arith) hb (omega arith) room op e in
    (rest, rw (receive, receive_loop, q) refl, left)

-- A frame from an end of the same role is refused: `receive` sends what `shutdown` sends for the code
-- 1002, shuts the stream down and throws, and the key and the payload are left unread. (The opcode has four
-- bits, and the length is below 2^64.)
pub receive-masking_violation :
    (host : Host) (c : WsConnection) (rand opcode : ℕ) (bytes more : Bytes)
    → opcode < 16
    → length bytes < 2 ^ 64
    → IsOpen c.incoming
    → flat c.incoming ≡ frame_bytes c.role rand opcode bytes ++ more
    → (rest : Pieces) × (receive host c
        ≡ (err masking_violation, shut (shutdown host (with_incoming c rest) 1002 [])))
      × (flat rest ≡ body_bytes c.role rand bytes ++ more)
unfolding receive receive_loop receive_round with_head frame_bytes shutdown close_payload
receive-masking_violation host c rand opcode bytes more small fits op e =
    let body = body_bytes c.role rand bytes in
    let (rest, q, left, op') =
      read_head_lem c.role opcode (length bytes) c.incoming (body ++ more) small fits op
        (e ∙ append_assoc (head_bytes c.role opcode (length bytes)) body more) in
    (rest, rw (receive, receive_loop, receive_round, q) (rw (masked_wrong c.role) refl), left)
