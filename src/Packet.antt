-- ===== src/Packet.antt =====
-- crates/libreatrust-core/src/transport.rs: the IPv4 packets that the tunnels build and read
-- (checksums and UDP datagrams).
pub mod Checksum
pub mod Udp
