-- ===== src/Tests/Utils.antt =====
-- src/utils: the theorems at a path and a component with every kind of byte.
use coro_test.Common.{All, List, refl, ◌≡◌, [], ◌∷◌, Bytes, arith, codes}
use coro_test.Utils.UrlEncode.{url_encode, url_decode, url_encode_component, url_decode_component}
use coro_test.Utils.UrlEncode.RoundTrip.{
  url_decode_component-url_encode_component, url_decode-url_encode,
}
use coro_test.Utils.StringBuffer.{new_buffer}
use coro_test.Utils.StringBuffer.Runs.{
  Operation, appends, consumes, extracts, Agrees, operate_all, expect, expect_all,
  string_buffer-Agrees,
}
use coro_test.Utils.UrlEncode.{decode_impl, decode_plain, decode_escaped, escape, hex_val}
use coro_test.Utils.UrlEncode.Slashes.{
  HasNoSlash, received, protect, join_path, url_decode-join_path,
}

-- "a/+", a blank and a byte beyond ASCII
abbrev text : Bytes
text = 97 ∷ 47 ∷ 43 ∷ 32 ∷ 200 ∷ []

url_decode_component-url_encode_component_example :
    url_decode_component (url_encode_component text) ≡ text
url_decode_component-url_encode_component_example =
    url_decode_component-url_encode_component text
      (omega arith, (omega arith, (omega arith, (omega arith, (omega arith, tt)))))

url_decode-url_encode_example : url_decode (url_encode text) ≡ text
url_decode-url_encode_example =
    url_decode-url_encode text
      (omega arith, (omega arith, (omega arith, (omega arith, (omega arith, tt)))))

url_decode-join_path_example :
    (url_decode (codes "a%2F..%2fb/%41") ≡ codes "a%2F..%2Fb/A")
    × All HasNoSlash (codes "a%2F..%2Fb" ∷ codes "A" ∷ [])
unfolding join_path received protect decode_impl decode_plain decode_escaped escape hex_val
url_decode-join_path_example = url_decode-join_path (codes "a%2F..%2fb") (codes "%41" ∷ []) (
  (refl, (refl, (refl, (refl, (refl, (refl, (refl, (refl, (refl, (refl, tt)))))))))),
  ((refl, (refl, (refl, tt))), tt),
)

-- A write, a read of a part, a write that compacts, and an extraction.
abbrev operations : List Operation
operations =
    appends 4 (1 ∷ 2 ∷ 3 ∷ [])
    ∷ consumes 2
    ∷ appends 3 (4 ∷ 5 ∷ [])
    ∷ extracts
    ∷ appends 2 (6 ∷ [])
    ∷ []

string_buffer-Agrees_example : Agrees (operate_all operations new_buffer) (expect_all operations [])
unfolding expect
string_buffer-Agrees_example =
    string_buffer-Agrees operations
      (omega arith, (omega arith, (omega arith, (tt, (omega arith, tt)))))
