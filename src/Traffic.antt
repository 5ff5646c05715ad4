-- ===== src/Traffic.antt =====
-- include/miniran/traffic and src/traffic: what the UE is to send, and when.
pub mod Profile
pub mod Generator
mod Examples
