-- ===== src/Http.antt =====
-- extensions/http: the HTTP/1.1 messages.
pub mod Header
pub mod Parser
pub mod Router
pub mod Body
