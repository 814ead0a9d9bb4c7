-- ===== src/Tests/Hpack.antt =====
-- extensions/http2/src/hpack: runs, and the theorems with a code of eight bits a symbol for the
-- Huffman tables.
use coro_test.Common.{
  ℕ, ◌+◌, ◌*◌, ◌/◌, ◌%◌, ◌^◌, ◌≤◌, ◌<◌, ◌≡◌, ◌≢◌, refl, ap, sym, ◌-◌, false, ◌∙◌, [], ◌∷◌, ◌++◌,
  Bytes, All, IsByte, arith, length, codes, some, append-nil, append_assoc, bit_or, bit_and,
  if◌then◌else◌, ltb, ◌==◌,
}
use Prim.Native.Nat.{bit_or-bitwise}
use coro_test.Common.Bitwise.{and_ones}
use coro_test.Common.Error.{Result, ok, err, ◌>>=◌}
use coro_test.Hpack.Text.{
  past_buffer, HuffmanTables, HuffDecode, huffman_decode, huffman_encode, huffman_loop,
  huffman_nibble, huffman_encode_loop, flush,
}
use native.Mathlib.Decide.{dec_lt}
use coro_test.Common.{bytes_eq}
use coro_test.Common.Order.{lt_wf}
use coro_test.Common.Decimal.{to_string}
use coro_test.Common.Int.{pos, negsuc}
use coro_test.Hpack.Text.{decode_str, encode_str, str_bytes}
use coro_test.Hpack.Text.RoundTrip.{decode_str-str_bytes}
use coro_test.Hpack.Table.{
  HpackTable, new_table, default_max_size, find, scan, insert, set_max_size, entry_size,
}
use coro_test.Hpack.Table.Static.{static_table}
use coro_test.Hpack.Table.Search.{FindLaw, find-FindLaw}
use coro_test.Hpack.Table.Eviction.{
  IsValid, total, fit, dynamic-insert, dynamic-set_max_size, new_table-IsValid,
}
use coro_test.Hpack.Integer.{
  Fault, out_of_bounds, allocation_failed, response_pseudo, int_bytes, encode_int, encode_groups,
  decode_int, decode_groups,
}
use coro_test.Hpack.Integer.RoundTrip.{decode_int-int_bytes}
use coro_test.Hpack.Decoder.{DecodedHeaders, decode, decode_field, no_headers, apply_header}
use coro_test.Hpack.Decoder.Total.{decode-total}
use coro_test.Hpack.Encoder.{
  ResponseHead, literal, encode_found, encode_field, encode_headers, encode_cookies,
  encode_response,
}
use coro_test.Tests.Huffman.{small_tables, small_tables-IsHuffman}
use coro_test.Hpack.Text.Bits.{value_from, run_of}
use coro_test.Hpack.Encoder.Lockstep.{HuffmanAgrees, decode_field-encode_field}
use coro_test.Hpack.Encoder.Response.{decode-encode_response}

-- Each symbol is its own code, in eight bits; the state of the decoder is the first nibble and 1.
abbrev plain_entry : ℕ → ℕ → HuffDecode
plain_entry state nibble =
    if state == 0
    then record { fstate = nibble + 1; flags = 0; sym = 0 }
    else record { fstate = 0; flags = 3; sym = (state - 1) * 16 + nibble }

abbrev plain : HuffmanTables
plain = record {
  decode_entry = plain_entry;
  sym_entry = λ c. record { nbits = 8; code = c * 2 ^ 24 };
}

abbrev start : HuffDecode
start = record { fstate = 0; flags = 1; sym = 0 }

zero_or : (x : ℕ) → bit_or 0 x ≡ x
zero_or x = bit_or-bitwise 0 x

encode_plain : (s out : Bytes) → All IsByte s → huffman_encode_loop plain s 0 0 out ≡ out ++ s
unfolding huffman_encode_loop flush
encode_plain [] out h = sym (append-nil out)
encode_plain (c ∷ s) out h =
    let top : c * 2 ^ 24 * 2 ^ 32 % 2 ^ 64 / 2 ^ 56 ≡ c = omega (arith, h.0) in
    let gone : c * 2 ^ 24 * 2 ^ 32 % 2 ^ 64 * 2 ^ 8 % 2 ^ 64 ≡ 0 = omega (arith, h.0) in
    rw (zero_or (c * 2 ^ 24 * 2 ^ 32 % 2 ^ 64), top, gone)
      (encode_plain s (out ++ (c ∷ [])) h.1 ∙ append_assoc out (c ∷ []) s)

first_nibble :
    (c : ℕ) (r : Bytes) (t : HuffDecode)
    → t.fstate ≡ 0
    → c < 256
    → huffman_nibble plain t r (c / 16) ≡ ok (record { fstate = c / 16 + 1; flags = 0; sym = 0 }, r)
unfolding huffman_nibble
first_nibble c r t h b = let e : (c / 16 + 1 == 0x100) ≡ false = ground arith in rw (h, e)

second_nibble :
    (c : ℕ) (r : Bytes)
    → c < 256
    → huffman_nibble plain (record { fstate = c / 16 + 1; flags = 0; sym = 0 }) r (bit_and c 0xf)
      ≡ ok (record { fstate = 0; flags = 3; sym = c }, r ++ (c ∷ []))
unfolding huffman_nibble
second_nibble c r b =
    let e : (c / 16 + 1 == 0) ≡ false = ground arith in
    let m : (c / 16 + 1 - 1) * 16 + bit_and c 0xf ≡ c = omega (arith, and_ones 4 c) in rw (e, m)

decode_plain :
    (s r : Bytes) (t : HuffDecode)
    → t.fstate ≡ 0
    → bit_and t.flags 1 ≡ 1
    → All IsByte s
    → huffman_loop plain t r s ≡ ok (r ++ s)
unfolding huffman_loop
decode_plain [] r t h f b = rw f (ap ok (sym (append-nil r)))
decode_plain (c ∷ s) r t h f b =
    rw (first_nibble c r t h b.0, second_nibble c r b.0)
      (decode_plain s (r ++ (c ∷ [])) (record { fstate = 0; flags = 3; sym = c }) refl refl b.1
        ∙ ap ok (append_assoc r (c ∷ []) s))

plain-HuffmanAgrees : HuffmanAgrees plain
unfolding huffman_encode huffman_decode
plain-HuffmanAgrees s h = rw (encode_plain s [] h) (decode_plain s [] start refl refl h)

abbrev table : HpackTable
table = new_table default_max_size

abbrev two_entries : HpackTable
two_entries = record {
  max_size = 100;
  current_size = 68;
  dynamic =
      record { name = codes "a"; value = codes "b" }
      ∷ record { name = codes "c"; value = codes "d" }
      ∷ [];
}

two_entries-IsValid : IsValid two_entries
unfolding total entry_size
two_entries-IsValid = record { counted = refl; within = omega arith }

-- The value 1337 of RFC 7541, section C.1.2.
encode_1337 : int_bytes 1337 5 0 ≡ 31 ∷ 154 ∷ 10 ∷ []
unfolding int_bytes encode_groups lt_wf dec_lt
encode_1337 = refl

decode_1337 : decode_int (31 ∷ 154 ∷ 10 ∷ []) 5 ≡ ok (1337, [])
unfolding decode_int decode_groups
decode_1337 = refl

find_get : find table (codes ":method") (codes "GET") ≡ pos 2
unfolding find scan static_table bytes_eq
find_get = refl

find_name_only : find table (codes ":status") (codes "418") ≡ negsuc 7
unfolding find scan static_table bytes_eq new_table
find_name_only = refl

-- A length that wraps the check of the buffer's end.
wrapped_length :
    decode_str plain 12
      (0x7f ∷ 0xf6 ∷ 0xfe ∷ 0xff ∷ 0xff ∷ 0xff ∷ 0xff ∷ 0xff ∷ 0xff ∷ 0xff ∷ 1 ∷ 7 ∷ [])
    ≡ err allocation_failed
unfolding decode_str decode_int decode_groups past_buffer
wrapped_length = refl

decode_int-int_bytes_example :
    decode_int (int_bytes 1337 5 (1 * 2 ^ 5) ++ (9 ∷ [])) 5 ≡ ok (1337, 9 ∷ [])
decode_int-int_bytes_example =
    decode_int-int_bytes 1337 5 1 (9 ∷ []) (omega arith) (omega arith) (omega arith)

dynamic-insert_example :
    ((insert two_entries (codes "e") (codes "f")).dynamic
      ≡ fit 100 (record { name = codes "e"; value = codes "f" } ∷ two_entries.dynamic))
    × IsValid (insert two_entries (codes "e") (codes "f"))
    × ((insert two_entries (codes "e") (codes "f")).max_size ≡ 100)
dynamic-insert_example = dynamic-insert two_entries (codes "e") (codes "f") two_entries-IsValid

dynamic-set_max_size_example :
    ((set_max_size two_entries 40).dynamic ≡ fit 40 two_entries.dynamic)
    × IsValid (set_max_size two_entries 40)
    × ((set_max_size two_entries 40).max_size ≡ 40)
dynamic-set_max_size_example = dynamic-set_max_size two_entries 40 two_entries-IsValid

find-FindLaw_example :
    FindLaw (codes "c") (codes "d") two_entries (find two_entries (codes "c") (codes "d"))
find-FindLaw_example = find-FindLaw (codes "c") (codes "d") two_entries

decode_str-str_bytes_example :
    decode_str plain 9 (str_bytes plain (codes "abc") ++ (1 ∷ 2 ∷ [])) ≡ (
      if ltb (length (huffman_encode plain (codes "abc"))) 3
      then (huffman_decode plain (huffman_encode plain (codes "abc")) >>= λ r. ok (r, 1 ∷ 2 ∷ []))
      else ok (codes "abc", 1 ∷ 2 ∷ []))
decode_str-str_bytes_example =
    decode_str-str_bytes plain 9 (codes "abc") (1 ∷ 2 ∷ []) (omega arith) (
      unfold str_bytes encode_int int_bytes huffman_encode huffman_encode_loop flush in omega arith)

decode-total_example :
    (u : HpackTable) × (r : Result Fault DecodedHeaders) × (decode plain table
        (0x82 ∷ 0x40 ∷ 0x81 ∷ [])
      ≡ some (u, r))
    × IsValid u
    × (u.max_size ≤ table.max_size)
    × (r ≢ err out_of_bounds)
decode-total_example =
    decode-total plain table (0x82 ∷ 0x40 ∷ 0x81 ∷ []) (new_table-IsValid default_max_size)

-- The value has a Huffman form of four bytes, and the name stands as it is.
decode_field-encode_field_example :
    (b : ℕ) × (bs : Bytes) × ((encode_field small_tables two_entries
          (codes "c")
          (codes "aaaaa")
          []).1
        ++ []
      ≡ b ∷ bs)
    × (decode_field small_tables 100 two_entries (no_headers, false) b (b ∷ bs) ≡ (
      (encode_field small_tables two_entries (codes "c") (codes "aaaaa") []).0,
      (apply_header (no_headers, false) (codes "c") (codes "aaaaa") >>= λ a'. ok (a', [])),
    ))
unfolding encode_groups lt_wf dec_lt
decode_field-encode_field_example =
    decode_field-encode_field small_tables small_tables-IsHuffman two_entries (no_headers, false)
      100 (codes "c") (codes "aaaaa") [] (omega arith) (omega arith) two_entries-IsValid
      (omega arith) (omega arith) room
  where
    room : length (encode_field small_tables two_entries (codes "c") (codes "aaaaa") []).1 + 0 ≤ 100
    room =
        unfold encode_field encode_found find scan static_table bytes_eq literal encode_int
          encode_str str_bytes int_bytes huffman_encode huffman_encode_loop flush value_from
          run_of in
        omega arith

-- Its Huffman form: 25 bits of "a", and seven ones.
five_letters : huffman_encode small_tables (codes "aaaaa") ≡ 0 ∷ 0 ∷ 0 ∷ 0x7f ∷ []
unfolding huffman_encode huffman_encode_loop flush value_from run_of
five_letters = refl

-- A page with a status of the static table, a length and no other headers.
abbrev page : ResponseHead
page = record { status_code = 200; headers = []; content_size = 5; cookies = [] }

decode-encode_response_example :
    (u : HpackTable) × (decode plain table (encode_response plain table page).1
      ≡ some (u, err response_pseudo))
unfolding encode_groups lt_wf dec_lt new_table encode_response encode_headers encode_cookies
    encode_field encode_found find scan static_table bytes_eq literal encode_int encode_str
    str_bytes int_bytes huffman_encode huffman_encode_loop flush to_string
decode-encode_response_example =
    decode-encode_response plain plain-HuffmanAgrees table page (new_table-IsValid default_max_size)
      (omega arith) (omega arith)
