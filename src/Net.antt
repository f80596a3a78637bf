-- ===== src/Net.antt =====
-- src/net: the messages between a client and a log server, their serialization
-- (net/serializable.rs) and the buffers in which they are sent and received (net/buffer.rs).
pub mod Outcome
pub mod Utf8
pub mod Serializable
pub mod Messages
pub mod Buffers
pub mod Whitelist
