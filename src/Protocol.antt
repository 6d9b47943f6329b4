-- ===== src/Protocol.antt =====
-- crates/core/src/protocol.rs, with the messages of crates/core/src/proto: the client of the agent.
pub mod Messages
pub mod Rows
pub mod Frames
pub mod Client
