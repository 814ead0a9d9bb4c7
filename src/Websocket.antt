-- ===== src/Websocket.antt =====
-- extensions/websocket/src/WsConnection.cc (RFC 6455): Frame is the writing side, Connection is
-- `receive`, and Receive says what a peer's frames do to it.
pub mod Frame
pub mod Connection
pub mod Head
pub mod Body
pub mod Receive
pub mod Total
