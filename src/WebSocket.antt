-- ===== src/WebSocket.antt =====
-- WebSockets (src/websockets*.cpp and .h): the protocols, frame headers, the HyBi parser, and the
-- connection that it calls back.
pub mod Proto
pub mod Ietf
pub mod HyBi03
pub mod Frame
pub mod Parser
pub mod Hixie76
pub mod Connection
pub mod Handshake
