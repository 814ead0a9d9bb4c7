-- ===== src/Tests/Websocket.antt =====
-- extensions/websocket/src/WsConnection.cc: a server that reads a masked ping and a masked text.
use coro_test.Common.{◌≡◌, ◌≢◌, refl, none, [], ◌∷◌, ◌++◌, Bytes, arith, false}
use coro_test.Common.Error.{ok, err}
use coro_test.Io.{Pieces, flat}
use coro_test.Websocket.Frame.{
  server, client, text, binary, frame_bytes, head_bytes, mask_key, mask_from, ping_opcode,
  message_opcode, close_payload, close_opcode,
}
use coro_test.Websocket.Connection.{
  Host, WsConnection, with_incoming, receive, out_of_fuel, masking_violation, shut, shutdown,
}
use coro_test.Websocket.Receive.{
  ReceivesMessage, receive-ReceivesMessage, receive-shutdown, receive-masking_violation,
}
use coro_test.Websocket.Body.{body_bytes}
use coro_test.Websocket.Total.{receive-total}

abbrev host : Host
host = record { rand = λ n. n; room = 1000 }

abbrev at_server : Pieces → WsConnection
at_server pieces = record {
  role = server;
  incoming = pieces;
  sent = [];
  is_shut = false;
  rand_calls = 0;
}

abbrev ping : Bytes
ping = frame_bytes client 0x01020304 ping_opcode (1 ∷ 2 ∷ [])

abbrev message : Bytes
message = frame_bytes client 0x0a0b0c0d (message_opcode text) (72 ∷ 105 ∷ [])

receive-ReceivesMessage_example :
    ReceivesMessage host
      (at_server (ping ∷ message ∷ []))
      ((0x01020304, 1 ∷ 2 ∷ []) ∷ [])
      text
      (72 ∷ 105 ∷ [])
      []
      (receive host (at_server (ping ∷ message ∷ [])))
unfolding frame_bytes head_bytes mask_key mask_from message_opcode
receive-ReceivesMessage_example =
    receive-ReceivesMessage host (at_server (ping ∷ message ∷ [])) ((0x01020304, 1 ∷ 2 ∷ []) ∷ [])
      0x0a0b0c0d text (72 ∷ 105 ∷ []) [] (((omega arith, (omega arith, tt)), omega arith), tt)
      (omega arith, (omega arith, tt)) (omega arith) (omega arith) (omega arith, (omega arith, tt))
      refl

receive-total_example : (receive host (at_server (ping ∷ message ∷ []))).0 ≢ err out_of_fuel
unfolding frame_bytes head_bytes mask_key mask_from message_opcode
receive-total_example =
    receive-total host (at_server (ping ∷ message ∷ [])) (omega arith, (omega arith, tt))

abbrev closing : Bytes
closing = frame_bytes client 0x01020304 close_opcode (close_payload 1000 [])

receive-shutdown_example :
    (rest : Pieces) × (receive host (at_server (closing ∷ []))
      ≡ (ok none, with_incoming (at_server (closing ∷ [])) rest))
    × (flat rest ≡ [])
unfolding frame_bytes head_bytes mask_key mask_from close_payload
receive-shutdown_example =
    receive-shutdown host (at_server (closing ∷ [])) 0x01020304 1000 [] []
      (omega arith, (omega arith, tt)) (omega arith) (omega arith) (omega arith, tt) refl

abbrev unmasked : Bytes
unmasked = frame_bytes server 0 (message_opcode binary) (7 ∷ [])

receive-masking_violation_example :
    (rest : Pieces) × (receive host (at_server (unmasked ∷ [])) ≡ (
      err masking_violation,
      shut (shutdown host (with_incoming (at_server (unmasked ∷ [])) rest) 1002 []),
    ))
    × (flat rest ≡ body_bytes server 0 (7 ∷ []) ++ [])
unfolding frame_bytes head_bytes message_opcode
receive-masking_violation_example =
    receive-masking_violation host (at_server (unmasked ∷ [])) 0 2 (7 ∷ []) [] (omega arith)
      (omega arith) (omega arith, tt) refl
