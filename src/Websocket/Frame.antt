-- ===== src/Websocket/Frame.antt =====
-- extensions/websocket/src/WsConnection.cc: the frames that `sendFrame`, `send` and `shutdown` write.
use coro_test.Common.{
  ℕ, zero, suc, ◌*◌, ◌/◌, ◌%◌, ◌^◌, [], ◌∷◌, ◌++◌, Bytes, Bool, true, false, bit_and, bit_or,
  bit_xor, length, ltb, get_or, if◌then◌else◌,
}

pub data Role : Type 0 where
  server client : Role

pub data WsMessageType : Type 0 where
  text binary : WsMessageType

-- `Opcode`
abbrev pub continuation_opcode : ℕ
continuation_opcode = 0x0

abbrev pub text_opcode : ℕ
text_opcode = 0x1

abbrev pub binary_opcode : ℕ
binary_opcode = 0x2

abbrev pub close_opcode : ℕ
close_opcode = 0x8

abbrev pub ping_opcode : ℕ
ping_opcode = 0x9

abbrev pub pong_opcode : ℕ
pong_opcode = 0xa

-- `mask` of `sendFrame`
abbrev pub masks : Role → Bool
masks client = true
masks server = false

-- `for (int i = n - 1; i >= 0; --i)`: the low `n` bytes of a number, the highest first.
unfoldable pub length_bytes : ℕ → ℕ → Bytes
length_bytes zero len = []
length_bytes (suc i) len = len / 2 ^ (i * 8) % 256 ∷ length_bytes i len

-- The first two bytes, and the length where it needs more.
unfoldable pub head_bytes : Role → ℕ → ℕ → Bytes
head_bytes role opcode len =
    let mask_bit = (if masks role then 0x80 else 0x00) in
    bit_or 0x80 opcode
    ∷ (if ltb len 126
        then bit_or mask_bit len ∷ []
        else if ltb len 65536
        then bit_or mask_bit 126 ∷ length_bytes 2 len
        else bit_or mask_bit 127 ∷ length_bytes 8 len)

-- `maskKey` from what `std::rand` returned
unfoldable pub mask_key : ℕ → Bytes
mask_key rand =
    let r = rand % 2 ^ 32 in
    bit_and r 0xff
    ∷ bit_and (r / 2 ^ 8) 0xff
    ∷ bit_and (r / 2 ^ 16) 0xff
    ∷ bit_and (r / 2 ^ 24) 0xff
    ∷ []

-- `bytes[i] ^ maskKey[i % 4]` from the index `i` on
unfoldable pub mask_from : Bytes → ℕ → Bytes → Bytes
mask_from key i [] = []
mask_from key i (b ∷ bytes) = bit_xor b (get_or key (i % 4) 0) ∷ mask_from key (suc i) bytes

-- What `sendFrame` writes to the stream.
unfoldable pub frame_bytes : Role → ℕ → ℕ → Bytes → Bytes
frame_bytes role rand opcode bytes =
    let key = mask_key rand in
    head_bytes role opcode (length bytes)
    ++ (if masks role then key ++ mask_from key 0 bytes else bytes)

-- The opcode that `send` chooses.
unfoldable pub message_opcode : WsMessageType → ℕ
message_opcode binary = binary_opcode
message_opcode text = text_opcode

-- The payload of the frame that `shutdown` sends.
unfoldable pub close_payload : ℕ → Bytes → Bytes
close_payload code reason = let c = code % 2 ^ 16 in c / 2 ^ 8 % 256 ∷ c % 256 ∷ reason
