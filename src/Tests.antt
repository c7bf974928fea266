-- ===== src/Tests.antt =====
-- Runs of the models at concrete inputs, and the theorems at concrete arguments.
mod Date
mod Files
mod Incoming
mod Response
mod Application
mod Output
mod Codec
mod Socket
mod Handshake
mod Base64
mod Hixie76
mod Static
mod Gzip
mod Queue
mod Request
mod SocketList
