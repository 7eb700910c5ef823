-- ===== src/Lib.antt =====
-- satellite_quic_proxy: a model of the QUIC proxy of SatelliteQUICProxy/, with its proofs.
--
-- The program. A proxy receives UDP datagrams, keeps one QUIC handler for each client, and lets an
-- FPGA do part of the work: framing and compression of packets, through DMA transfers of buffers.
-- The accept loop of the proxy finds or creates the handler of a client and hands it the datagram; the
-- handler parses it, answers through the packet builder or through the accelerator, and sends again
-- what has not been acknowledged. The DMA controller owns a buffer manager and programs DMA engines.
--
-- The files.
-- Base: shared names, tests on numbers, list functions over the native numbers, and the outcome of a
--   call that may leave the defined behaviour of C++.
-- Dma/Buffers: SatelliteQUICProxy/interface/src/buffer_manager.cpp, class BufferManager.
-- Dma/Engine: the engines and registers of SatelliteQUICProxy/interface/src/dma_controller.cpp.
-- Dma/Controller: the rest of class Controller of the same file, transfers and destructor.
-- Quic/Packet, Quic/Parse: packet types and QUICHandler::parsePacket of
--   SatelliteQUICProxy/proxy/src/quic_handler.cpp.
-- Quic/Build: the software path of QUICHandler::sendPacket.
-- Quic/Handler: the rest of class QUICHandler.
-- Fpga/Operation, Fpga/Compression, Fpga/PacketUnit: the operation types, and the simulated compression
--   and packet operations of SatelliteQUICProxy/proxy/src/fpga_interface.cpp. The record PacketUnit is
--   the interface between the handler and the accelerator: an execute function, and the rule that only
--   the processing of an ACK takes empty input. The function packet_unit fills it from
--   executePacketOperation, with the hardware path as a parameter.
-- Fpga/Evp: simulateCryptoOperation of the same file, over a record of the calls of OpenSSL; what
--   OpenSSL documents of each of these calls in GCM mode is the record IsGcm of Fpga/Evp/Gcm.
-- Fpga/Session, Fpga/Hardware: the try blocks of the hardware paths of executeCryptoOperation,
--   executeCompressionOperation and executePacketOperation. A session is a state with exceptions that keep
--   it: register accesses, DMA buffers, copies, and the polls of the status register.
-- Fpga/Interface: class FPGAInterface around them, from its construction to shutdown.
-- Proxy: class QUICProxy of SatelliteQUICProxy/proxy/src/quic_proxy.cpp.
-- Main: the options and the function main of SatelliteQUICProxy/proxy/src/main.cpp, which ties the
--   interface and the proxy together.
-- The children of a component hold its proofs, and its module Tests the examples.
--
-- Conventions. State is a record with the names of the source's fields; an operation takes the state and
-- gives the new one. Bytes, addresses and counters are natural numbers with the wrap-around of the
-- source's type written out. Clocks, random bytes, system calls, the driver and the hardware registers are
-- arguments. An access past the end of an array is the outcome fault.
--
-- Bounds and fuel. The polls for an idle engine count their 1000 rounds down as the source does. The
-- blocking transfer has no timeout in the source, so its polls run on fuel; the theorem about its end
-- takes the poll that shows the end and fuel beyond it. The wait for a pending transfer runs on fuel, of
-- which one round more than the timeout in milliseconds is enough. The polls of the FPGA's status register
-- run on fuel: each round sleeps 100 microseconds and the time-out is 5 seconds, so that 50011 rounds are
-- enough on a clock that keeps that pace.
--
-- Not modelled. Log output, the printed statistics and the usage text; the rounding of processing times,
-- which are doubles in milliseconds in the source and whole microseconds here; failures to allocate
-- memory; and the code in other languages (VHDL, Python). OpenSSL, getopt_long, the driver and the device
-- are parameters. The threads of non-blocking transfers are modelled from their first poll to their end,
-- and the accept loop as one round after the other under its lock; the operations of the FPGA interface
-- are sequences of calls.
pub mod Base
pub mod Dma
pub mod Quic
pub mod Fpga
pub mod Proxy
pub mod Main
