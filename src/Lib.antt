-- ===== src/Lib.antt =====
-- NitroCoro: a runtime for C++20 coroutines with HTTP/1.1, HTTP/2, WebSocket and PostgreSQL
-- extensions. This library models parts of it and proves what makes them correct.
--
-- Hpack (extensions/http2/src/hpack): the header compression of HTTP/2. Hpack/Table is HpackTable
-- (its record, `get`, `find`, `insert`, `set_max_size`, `evict`), Hpack/Integer is `encodeInt` and
-- `decodeInt`, Hpack/Text is `huffmanDecode`, `encodeStr` and `decodeStr`, Hpack/Decoder is HpackDecoder
-- and Hpack/Encoder is HpackEncoder. A byte string is a list of numbers; the cursor `pos` of the decoder
-- is the list of bytes from `pos` on; a throw is a result with the name of what went wrong, and the table
-- stays as it was then. 64-bit arithmetic wraps by `% 2 ^ 64`. The Huffman tables of HuffmanTable.cc are a
-- copy of nghttp2's and a parameter; Text/Code says how the two fit together, and Text/Packing and
-- Text/Unpacking are what `encodeStr` and `huffmanDecode` make of such tables. A request for memory throws
-- where 2^47 bytes of addresses cannot hold it beside the buffer. A shift by 64 bits or more, which is undefined,
-- ends a decoding as `shift_overflow`, and the session with it. `decode` runs on as much fuel as it has bytes.
-- Http/Header (extensions/http) is HttpHeader. Http/Parser (extensions/http/src/HttpParser.cc) is what both
-- parsers share, and Http/Parser/Request is HttpParser<HttpRequest>, fed line by line; the registry of
-- method names is a parameter, and `std::stoul` is written out.
--
-- Io is a byte stream as its reader sees it (include/nitrocoro/io/Stream.h): pieces that the network
-- chooses, read one at a time. Io/Exact is `readExact`, which FrameReader and WsConnection share in two
-- copies; a round takes a byte at least, so that as many rounds as bytes are enough.
-- Http2/Frame (extensions/http2/src/frame): `readFrame` and `writeFrame`.
-- Http2/Types and Http2/Session (extensions/http2/src/Http2Session.cc): the state of a server session, with
-- its streams by number, its decoder and what it wrote. Headers and Control are its handlers, each a function
-- on the state, Run is `run`: a loop over the frames that are read, with what the tasks that answer requests
-- did between two frames as a list of their calls, chosen freely. A handler is one step, so that a task does
-- not run inside it. The loop runs on one round a byte of input and one more, since a frame has nine bytes at
-- least.
-- Http/Router (extensions/http/src/RouterCore.cc and HttpRouter.cc): the exact routes, the radix tree of the
-- patterns, and the regular expressions. Match is `match` and `matchRadix`, whose nesting is 33 calls at most
-- as in the code, Handlers the handlers by route. The names of methods, the order in which an unordered_map
-- gives them, and `std::regex` are parameters.
-- Http/Body (extensions/http/src/body_reader and body_writer): what reads and writes the body of an HTTP/1.1
-- message over the buffer that it shares with the parser, with Create for the readers and writers by transfer
-- mode. The buffer stands by the bytes that wait in it. A line of at most `limit` bytes takes at most one
-- fill a byte, and a drain one round a byte of the body and one more.
-- Websocket (extensions/websocket/src/WsConnection.cc): Frame is the bytes of `sendFrame`, Connection is the
-- state and `receive`, with a fuel of one round a byte of input and one more. `std::rand` and the
-- allocator's limit are parameters.
-- Pg/Pool (extensions/pg/src): the connection pool as a step relation of what happens on its scheduler's
-- thread; the connect itself is libpq's and is an event with either outcome.
-- Core/Mutex (include/nitrocoro/core/Mutex.h): the coroutine mutex as a step relation of atomic accesses,
-- sequentially consistent.
-- Utils/UrlEncode (src/utils/UrlEncode.cc): percent encoding. Utils/StringBuffer
-- (include/nitrocoro/utils/StringBuffer.h): the buffer by its string and offsets; a write past the end of the
-- string is not in it.
-- Common is what the components share, and Tests the runs at concrete inputs.
--
-- Not modelled: the scheduler, epoll and the sockets (system calls), TLS (OpenSSL), libpq, the pipe, futures
-- and timeouts, hashes, cookies, forms and static files, the requests that `dispatchStream` makes, the client
-- of HTTP/2, the handshake of WebSocket, and the HTTP/1.1 server and client around these parts.
pub mod Common
pub mod Hpack
pub mod Core
pub mod Http
pub mod Http2
pub mod Io
pub mod Pg
pub mod Utils
pub mod Websocket
mod Tests
