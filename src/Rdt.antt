-- ===== src/Rdt.antt =====
-- rdt/: reliable transfer over UDP, by packets with an alternating bit.
pub mod Helper
pub mod Packet
pub mod Transfer
pub mod Link
pub mod Socket
