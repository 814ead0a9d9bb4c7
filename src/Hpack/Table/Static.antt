-- ===== src/Hpack/Table/Static.antt =====
-- The static table of extensions/http2/src/hpack/HpackTable.cc (RFC 7541, appendix A).
use coro_test.Common.{ℕ, List, [], ◌∷◌, Bytes, codes, String}

pub record HeaderEntry : Type 0 where
  pub name : Bytes
  pub value : Bytes

entry : String → String → HeaderEntry
entry n v = record { name = codes n; value = codes v }

abbrev pub static_table_size : ℕ
static_table_size = 61

unfoldable pub static_table : List HeaderEntry
unfolding entry
static_table =
    entry ":authority" ""
    ∷ entry ":method" "GET"
    ∷ entry ":method" "POST"
    ∷ entry ":path" "/"
    ∷ entry ":path" "/index.html"
    ∷ entry ":scheme" "http"
    ∷ entry ":scheme" "https"
    ∷ entry ":status" "200"
    ∷ entry ":status" "204"
    ∷ entry ":status" "206"
    ∷ entry ":status" "304"
    ∷ entry ":status" "400"
    ∷ entry ":status" "404"
    ∷ entry ":status" "500"
    ∷ entry "accept-charset" ""
    ∷ entry "accept-encoding" "gzip, deflate"
    ∷ entry "accept-language" ""
    ∷ entry "accept-ranges" ""
    ∷ entry "accept" ""
    ∷ entry "access-control-allow-origin" ""
    ∷ entry "age" ""
    ∷ entry "allow" ""
    ∷ entry "authorization" ""
    ∷ entry "cache-control" ""
    ∷ entry "content-disposition" ""
    ∷ entry "content-encoding" ""
    ∷ entry "content-language" ""
    ∷ entry "content-length" ""
    ∷ entry "content-location" ""
    ∷ entry "content-range" ""
    ∷ entry "content-type" ""
    ∷ entry "cookie" ""
    ∷ entry "date" ""
    ∷ entry "etag" ""
    ∷ entry "expect" ""
    ∷ entry "expires" ""
    ∷ entry "from" ""
    ∷ entry "host" ""
    ∷ entry "if-match" ""
    ∷ entry "if-modified-since" ""
    ∷ entry "if-none-match" ""
    ∷ entry "if-range" ""
    ∷ entry "if-unmodified-since" ""
    ∷ entry "last-modified" ""
    ∷ entry "link" ""
    ∷ entry "location" ""
    ∷ entry "max-forwards" ""
    ∷ entry "proxy-authenticate" ""
    ∷ entry "proxy-authorization" ""
    ∷ entry "range" ""
    ∷ entry "referer" ""
    ∷ entry "refresh" ""
    ∷ entry "retry-after" ""
    ∷ entry "server" ""
    ∷ entry "set-cookie" ""
    ∷ entry "strict-transport-security" ""
    ∷ entry "transfer-encoding" ""
    ∷ entry "user-agent" ""
    ∷ entry "vary" ""
    ∷ entry "via" ""
    ∷ entry "www-authenticate" ""
    ∷ []
