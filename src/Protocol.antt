-- ===== src/Protocol.antt =====
-- protocol.c: the messages on the wire, one JSON object to a line.
pub mod Json
pub mod Encode
pub mod Find
pub mod Decode
pub mod Transport
pub mod Wire
