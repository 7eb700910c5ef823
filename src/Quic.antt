-- ===== src/Quic.antt =====
-- proxy/src/quic_handler: QUIC packets and the handler of one connection.
pub mod Packet
pub mod Parse
pub mod Build
pub mod Handler
