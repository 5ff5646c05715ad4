-- ===== src/Nodes.antt =====
-- include/miniran/nodes and src/nodes: the two ends of the link.
pub mod Ue
pub mod AccessNode
pub mod Frames
pub mod Handshake
pub mod Stale
pub mod Traffic
pub mod Counting
pub mod Control
pub mod Carried
pub mod Delivered
pub mod Heartbeat
pub mod Lifetime
mod Examples
