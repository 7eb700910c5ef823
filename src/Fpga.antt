-- ===== src/Fpga.antt =====
-- SatelliteQUICProxy/proxy/src/fpga_interface: the operations of the FPGA in software and on the hardware,
-- and the interface around them.
pub mod Operation
pub mod Compression
pub mod PacketUnit
pub mod Session
pub mod Hardware
pub mod Evp
pub mod Interface
