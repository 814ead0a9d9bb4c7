-- ===== src/Http2.antt =====
-- extensions/http2/src: the server's side of HTTP/2 (RFC 7540).
pub mod Frame
pub mod Types
pub mod Session
