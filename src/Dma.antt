-- ===== src/Dma.antt =====
-- interface/src: the buffers and transfers between the host and the FPGA.
pub mod Buffers
pub mod Engine
pub mod Controller
