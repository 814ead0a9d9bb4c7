-- ===== src/Utils/StringBuffer.antt =====
-- include/nitrocoro/utils/StringBuffer.h: a string with the offsets of what was read and written.
pub mod Queue
pub mod Runs
use coro_test.Common.{
  ℕ, zero, suc, ◌+◌, ◌-◌, List, [], ◌∷◌, ◌++◌, Bytes, Bool, true, false, ◌&&◌, length, take, drop,
  ltb, leb, if◌then◌else◌,
}

pub record StringBuffer : Type 0 where
  pub buffer : Bytes
  pub read_offset : ℕ
  pub write_offset : ℕ

unfoldable pub new_buffer : StringBuffer
new_buffer = record { buffer = []; read_offset = 0; write_offset = 0 }

unfoldable pub view : StringBuffer → Bytes
view b = take (b.write_offset - b.read_offset) (drop b.read_offset b.buffer)

unfoldable pub consume : ℕ → StringBuffer → StringBuffer
consume n b = record b { read_offset = b.read_offset + n }

unfoldable pub zeros : ℕ → Bytes
zeros zero = []
zeros (suc n) = 0 ∷ zeros n

-- `std::string::resize`
unfoldable pub resize : ℕ → Bytes → Bytes
resize n s = take n s ++ zeros (n - length s)

-- A copy of bytes to a position of the string, as `memmove` and the writers of the buffer do it. What
-- goes past the end of the string is not in it.
unfoldable pub overwrite : ℕ → Bytes → Bytes → Bytes
overwrite at bytes s = take at s ++ (take (length s - at) bytes ++ drop (at + length bytes) s)

-- `prepareWrite`; the pointer that it returns is the new `writeOffset_`.
unfoldable pub prepare_write : ℕ → StringBuffer → StringBuffer
prepare_write len b =
    let remaining = b.write_offset - b.read_offset in
    if ltb (length b.buffer - b.write_offset) len
    then (if ltb 0 b.read_offset && leb len (length b.buffer - remaining)
        then record {
          buffer = overwrite 0 (take remaining (drop b.read_offset b.buffer)) b.buffer;
          read_offset = 0;
          write_offset = remaining;
        }
        else record b { buffer = resize (b.write_offset + len) b.buffer })
    else b

unfoldable pub commit_write : ℕ → StringBuffer → StringBuffer
commit_write len b = record b { write_offset = b.write_offset + len }

-- What a reader of the stream does: room for `len` bytes, and a read of some of them.
unfoldable pub append : ℕ → Bytes → StringBuffer → StringBuffer
append len bytes b =
    let room = prepare_write len b in
    commit_write (length bytes)
      (record room { buffer = overwrite room.write_offset bytes room.buffer })

unfoldable pub remain_size : StringBuffer → ℕ
remain_size b = b.write_offset - b.read_offset

unfoldable pub reset : StringBuffer → StringBuffer
reset b = record b { read_offset = 0; write_offset = 0 }

-- `extract`: the string, and the buffer after it. A string that was moved from is empty.
unfoldable pub extract : StringBuffer → Bytes × StringBuffer
extract b =
    if leb b.read_offset 0
    then (resize b.write_offset b.buffer, new_buffer)
    else (take (b.write_offset - b.read_offset) (drop b.read_offset b.buffer), new_buffer)
