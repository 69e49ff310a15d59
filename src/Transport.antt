-- ===== src/Transport.antt =====
-- securepath/infrastructure/packet_transport: packets on their way through the server.
pub mod PacketStorage
