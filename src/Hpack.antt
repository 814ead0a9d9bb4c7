-- ===== src/Hpack.antt =====
-- extensions/http2/src/hpack: header compression for HTTP/2 (RFC 7541).
pub mod Table
pub mod Integer
pub mod Text
pub mod Decoder
pub mod Encoder
