-- ===== src/Transport.antt =====
-- include/miniran/transport and src/transport: datagrams and the network that carries them.
pub mod Datagram
pub mod Link
pub mod Network
