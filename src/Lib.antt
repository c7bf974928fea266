-- ===== src/Lib.antt =====
-- httpuv: an HTTP and WebSocket server for R on libuv. This library models the parts of src/ that
-- decide what bytes mean: how a WebSocket stream becomes frames and messages and how frames are
-- written, how a connection is closed, how a URL finds its static path and a request its way past
-- a validation pattern, how URIs, base64 and dates are encoded, how the body of a response goes
-- out. A background thread reads the socket and hands the bytes to a parser; the parser calls the
-- connection back, and the connection calls the request, which schedules R code on the main
-- thread. The model follows the same chain: `read` gives a list of events (the parser's calls in
-- order), `on_events` applies them to a connection and gives a list of actions (its calls in
-- order). A file request goes to `static_file_response`, which takes the URL's path to
-- `match_static_path` and the headers to `validate_request_headers`, opens the file and makes the
-- response; `write_response` writes its head, and ExtendedWrite its body, from a data source.
--
-- Files:
--   Base, Base/*: Boolean tests on the native numbers, lists, texts as bytes, association lists
--     for std::map.
--   Headers: src/constants.h, the header containers, `trim`.
--   Application, Application/Status, Application/Guards, Application/Paths, Application/Inside, Application/Cache:
--     `staticFileResponse` of src/webapplication.cpp with its helpers.
--   Base64, Base64/Decode: src/base64/, `b64encode` against a decoder.
--   Uri, Uri/*: src/httpuv.cpp, `doEncodeURI`, `doDecodeURI` and their helpers.
--   Date, Date/Calendar, Date/Printed: src/timegm.cpp and the dates of src/utils.h and
--     src/utils.cpp.
--   Files, Files/Closing, Files/Names: src/fs.cpp and src/filedatasource-unix.cpp.
--   Queue, Queue/Order, Queue/Drain: the queue of callbacks for the background thread, with the
--     interleavings of the threads (src/tqueue.h, src/callbackqueue.cpp).
--   Gzip and its children: GZipDataSource (src/gzipdatasource.cpp); Contract is the manual of zlib,
--     Loop and Streams are about one call of getData, Source and Body about all of them.
--   Request, Request/Steps: the stages of a request in HttpRequest (src/httprequest.cpp), from the
--     data that is read to the response, the close and the switch to WebSocket, as steps of two
--     threads. Closed and InOrder (with Frame and Parsing) are about their runs.
--   Response, Response/Client, Response/Head, Response/Written, Response/Fields: HttpResponse
--     (src/httpresponse.cpp); Client reads heads as a client does.
--   Incoming, Incoming/Fields, Incoming/Commas: the callbacks of HttpRequest
--     (src/httprequest.cpp) that take in the URL and the headers.
--   Output, Output/Order, Output/Memory, Output/Chunked, Output/Whole: ExtendedWrite and
--     InMemoryDataSource of src/uvutil.h and src/uvutil.cpp, over any DataSource; Chunked
--     decodes the chunked coding.
--   Socket, Socket/Emptied: the connections of a Socket and `Socket::close` (src/socket.cpp).
--   Static/Options, Static/Compare: StaticPathOptions of src/staticpath.cpp, and
--     `constant_time_compare` of src/utils.h.
--   Static/Manager, Static/Entries: `get`, `set`, `remove`, `setOptions` of StaticPathManager.
--   Static/Match, Static/Slash, Static/Deepest, Static/Longest: `matchStaticPath`.
--   WebSocket/Proto, WebSocket/Ietf, WebSocket/HyBi03: the two classes derived from
--     WebSocketProto (src/websockets-ietf.cpp, src/websockets-hybi03.cpp) as values of one
--     record, with laws.
--   WebSocket/Frame and its children: `createFrameHeader` (src/websockets-base.cpp) and
--     WSHyBiFrameHeader (src/websockets.cpp).
--   WebSocket/Parser and its children: WSHyBiParser (src/websockets.cpp). Stream is the machine
--     that takes one byte at a time, Header and Runs are about its runs, Refinement and Chunks
--     compare the two, Frames reads what was written.
--   WebSocket/Hixie76 and its children: WSHixie76Parser (src/websockets-hixie76.cpp), built
--     alike.
--   WebSocket/Connection and its children: WebSocketConnection (src/websockets.cpp): its
--     callbacks, sending, closing; Operations lists what may happen to it, Budget counts Close
--     frames.
--   WebSocket/Handshake, WebSocket/Handshake/Accepted: `canHandle` and `handshake` of both
--     protocols, WebSocketConnection::accept; the digests are arguments.
--   Tests/*: runs at concrete inputs, and the results below at concrete arguments.
--
-- Conventions: a byte is a natural number, a hypothesis says where it must be below 256. Integers
-- of 64 bits that the code shifts or multiplies keep their wrap-around. `big_endian` is the
-- machine's answer to `isBigEndian`. A loop that has no structure to recur on takes fuel, and
-- `none` means that it ran out: `WSHyBiParser::read` gets two rounds for each byte and one more,
-- `WSHixie76Parser::read` two more, `matchStaticPath` two more than the path has bytes: a round
-- that takes no byte is followed by one that does, and each round of the last goes to a slash
-- further left. `GZipDataSource::getData` gets one round for each byte that it may write or has to
-- read, and one more: each round does one or the other. Threads are sequences of steps, of which
-- each is one function on its thread, or one access under a mutex. A number is printed with 20
-- decimal or 16 hexadecimal digits at most, which 64 bits never exceed.
--
-- Not modelled: libuv, http-parser, SHA-1, MD5, zlib, Rcpp and R themselves; the conversions from
-- and to R objects; mutexes, the calls under which are atomic here; logging; the addresses of
-- client and server, and the listening sockets. A byte 0 ends a path that is passed
-- to the file system, and no other text, as it would where the code passes one on as a C string.
pub mod Base
pub mod Application
pub mod Base64
pub mod Date
pub mod Files
pub mod Gzip
pub mod Headers
pub mod Incoming
pub mod Uri
pub mod Output
pub mod Queue
pub mod Request
pub mod Response
pub mod Socket
pub mod Static
pub mod WebSocket
pub mod Tests
