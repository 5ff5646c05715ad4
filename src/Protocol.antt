-- ===== src/Protocol.antt =====
-- include/miniran/protocol and src/protocol: messages, their frames, and the UE's session.
pub mod Message
pub mod Codec
pub mod Session
