-- ===== src/Tests.antt =====
-- Runs at concrete inputs, and the theorems at inputs that meet their hypotheses.
mod Huffman
mod Hpack
mod Websocket
mod Http2
mod Http2Session
mod Pg
mod Utils
mod Core
mod Http
mod Router
mod Body
