-- ===== src/Websocket/Connection.antt =====
-- extensions/websocket/src/WsConnection.cc: `WsConnection`, with the stream it owns. The input arrives in
-- pieces, the output is what was written so far. `std::rand` is the function from the number of the call
-- to its result, and `room` is the size of the longest string that the allocator can give. After a throw
-- in the middle of a frame, `incoming` is what it was before the frame.
use coro_test.Common.{
  ℕ, zero, suc, ◌+◌, ◌*◌, ◌%◌, ◌^◌, [], ◌∷◌, ◌++◌, Bytes, Bool, true, false, not, Option, none,
  some, bit_and, bit_or, length, ltb, ◌==◌, get_or, if◌then◌else◌,
}
use coro_test.Common.Error.{Result, ok, err, ◌>>=◌, ◌>>◌, throw_if}
use coro_test.Io.{Pieces, flat}
use coro_test.Io.Exact.{read_exact}
use coro_test.Websocket.Frame.{
  Role, server, client, WsMessageType, text, binary, binary_opcode, continuation_opcode,
  close_opcode, ping_opcode, pong_opcode, masks, mask_from, frame_bytes, message_opcode,
  close_payload,
}

pub data WsFault : Type 0 where
  connection_closed masking_violation length_error out_of_bounds out_of_fuel : WsFault

pub record Host : Type 0 where
  pub rand : ℕ → ℕ
  pub room : ℕ

pub record WsConnection : Type 0 where
  pub role : Role
  pub incoming : Pieces
  pub sent : Bytes
  pub is_shut : Bool
  pub rand_calls : ℕ

pub record WsMessage : Type 0 where
  pub type : WsMessageType
  pub payload : Bytes

abbrev pub Outcome : Type 0
Outcome = Result WsFault (Option WsMessage) × WsConnection

unfoldable pub send_frame : Host → WsConnection → ℕ → Bytes → WsConnection
send_frame host c opcode bytes = record {
  role = c.role;
  incoming = c.incoming;
  sent = c.sent ++ frame_bytes c.role (host.rand c.rand_calls) opcode bytes;
  is_shut = c.is_shut;
  rand_calls = if masks c.role then suc c.rand_calls else c.rand_calls;
}

unfoldable pub send : Host → WsConnection → Bytes → WsMessageType → WsConnection
send host c bytes type = send_frame host c (message_opcode type) bytes

unfoldable pub shutdown : Host → WsConnection → ℕ → Bytes → WsConnection
shutdown host c code reason = send_frame host c close_opcode (close_payload code reason)

-- `stream_->shutdown()`
abbrev pub shut : WsConnection → WsConnection
shut c = record {
  role = c.role;
  incoming = c.incoming;
  sent = c.sent;
  is_shut = true;
  rand_calls = c.rand_calls;
}

abbrev pub with_incoming : WsConnection → Pieces → WsConnection
with_incoming c pieces = record {
  role = c.role;
  incoming = pieces;
  sent = c.sent;
  is_shut = c.is_shut;
  rand_calls = c.rand_calls;
}

-- The file's own `readExact`.
unfoldable pub read_or_throw : ℕ → Pieces → Result WsFault (Bytes × Pieces)
read_or_throw len pieces = elim (read_exact len pieces) [
  | none ↦ err connection_closed
  | some got ↦ ok got
]

pub record WsHead : Type 0 where
  pub fin : Bool
  pub opcode : ℕ
  pub masked : Bool
  pub payload_len : ℕ

-- `payloadLen = (payloadLen << 8) | ext[i]`, on 64 bits
unfoldable pub length_loop : ℕ → Bytes → ℕ
length_loop payload_len [] = payload_len
length_loop payload_len (e ∷ ext) = length_loop (bit_or (payload_len * 2 ^ 8 % 2 ^ 64) e) ext

unfoldable pub read_length : ℕ → Pieces → Result WsFault (ℕ × Pieces)
read_length payload_len pieces =
    if payload_len == 126
    then (read_or_throw 2 pieces >>= λ (ext, rest).
        ok (bit_or (get_or ext 0 0 * 2 ^ 8) (get_or ext 1 0), rest))
    else if payload_len == 127
    then (read_or_throw 8 pieces >>= λ (ext, rest). ok (length_loop 0 ext, rest))
    else ok (payload_len, pieces)

unfoldable pub read_head : Pieces → Result WsFault (WsHead × Pieces)
read_head pieces = read_or_throw 2 pieces >>= λ (header, rest).
    read_length (bit_and (get_or header 1 0) 0x7f) rest >>= λ (payload_len, rest'). ok (
      record {
        fin = not (bit_and (get_or header 0 0) 0x80 == 0);
        opcode = bit_and (get_or header 0 0) 0x0f;
        masked = not (bit_and (get_or header 1 0) 0x80 == 0);
        payload_len = payload_len;
      },
      rest',
    )

-- The key and the payload. `payload.resize` takes a sum of 64 bits, and the read is as long as the
-- frame says.
unfoldable pub read_body : Host → Bool → ℕ → ℕ → Pieces → Result WsFault (Bytes × Pieces)
read_body host masked offset payload_len pieces =
    let resized = (offset + payload_len) % 2 ^ 64 in
    (if masked then read_or_throw 4 pieces else ok (0 ∷ 0 ∷ 0 ∷ 0 ∷ [], pieces)) >>= λ (key, rest).
    throw_if (ltb host.room resized) length_error
    >> (throw_if (ltb resized (offset + payload_len)) out_of_bounds
        >> (read_or_throw payload_len rest >>= λ (bytes, rest').
            ok ((if masked then mask_from key 0 bytes else bytes), rest')))

-- One round of the loop: the answer, or the connection, the payload and the opcode for the next.
pub data Round : Type 0 where
  returns : Outcome → Round
  again : WsConnection → Bytes → ℕ → Round

unfoldable pub dispatch : Host → WsConnection → Bytes → ℕ → WsHead → Bytes → Round
dispatch host c payload final_opcode head bytes =
    let opcode' = (if head.opcode == continuation_opcode then final_opcode else head.opcode) in
    if head.opcode == ping_opcode
    then again (send_frame host c pong_opcode bytes) payload final_opcode
    else if head.opcode == close_opcode
    then returns (ok none, c)
    else if head.fin
    then returns (
      ok (
          some (record {
            type = if opcode' == binary_opcode then binary else text;
            payload = payload ++ bytes;
          })),
      c,
    )
    else again c (payload ++ bytes) opcode'

abbrev pub is_server : Role → Bool
is_server server = true
is_server client = false

abbrev pub differs : Bool → Bool → Bool
differs true b = not b
differs false b = b

-- The rest of a round once the payload, or before it the head, is read.
unfoldable pub with_body :
    Host → WsConnection → Bytes → ℕ → WsHead → Result WsFault (Bytes × Pieces) → Round
with_body host c payload final_opcode head (err e) = returns (err e, c)
with_body host c payload final_opcode head (ok (bytes, rest)) =
    dispatch host (with_incoming c rest) payload final_opcode head bytes

unfoldable pub with_head :
    Host → WsConnection → Bytes → ℕ → Result WsFault (WsHead × Pieces) → Round
with_head host c payload final_opcode (err e) = returns (err e, c)
with_head host c payload final_opcode (ok (head, rest)) =
    if differs head.masked (is_server c.role)
    then returns (
      err masking_violation,
      shut (send_frame host (with_incoming c rest) close_opcode (0x03 ∷ 0xea ∷ [])),
    )
    else with_body host c payload final_opcode head
        (read_body host head.masked (length payload) head.payload_len rest)

unfoldable pub receive_round : Host → WsConnection → Bytes → ℕ → Round
receive_round host c payload final_opcode =
    with_head host c payload final_opcode (read_head c.incoming)

unfoldable pub receive_loop : ℕ → Host → WsConnection → Bytes → ℕ → Outcome
receive_loop zero host c payload final_opcode = (err out_of_fuel, c)
receive_loop (suc fuel) host c payload final_opcode =
    elim (receive_round host c payload final_opcode) [
      | returns outcome ↦ outcome
      | again c' payload' final_opcode' ↦ receive_loop fuel host c' payload' final_opcode'
    ]

-- `receive`. A round takes two bytes at least, so that one round a byte and one more are enough.
unfoldable pub receive : Host → WsConnection → Outcome
receive host c = receive_loop (suc (length (flat c.incoming))) host c [] continuation_opcode
