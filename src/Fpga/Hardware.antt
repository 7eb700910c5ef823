-- ===== src/Fpga/Hardware.antt =====
-- SatelliteQUICProxy/proxy/src/fpga_interface.cpp: the hardware paths of executeCompressionOperation,
-- executePacketOperation and executeCryptoOperation, each the inside of its `try` block.
pub mod Inputs
pub mod Compression
pub mod Packets
pub mod CryptoSteps
pub mod Crypto
use satellite_quic_proxy.Base.{
  ℕ, suc, ◌+◌, ◌*◌, ◌/◌, ◌%◌, Bool, true, false, not, Option, none, some, List, [], ◌∷◌, length,
  if◌then◌else◌, u32_mod,
}
use satellite_quic_proxy.Dma.Buffers.{Buffer}
use satellite_quic_proxy.Fpga.Operation.{
  FpgaOperationType, crypto_encrypt, crypto_decrypt, compression, decompression, packet_framing,
  packet_ack_processing, packet_retransmission, unsupported_packet_operation_type,
  failed_to_select_crypto, failed_to_select_compression, failed_to_select_packet,
  failed_to_set_operation_type, failed_to_configure_buffers, failed_to_configure_aad,
  failed_to_clear_aad, failed_to_set_connection, failed_to_configure_input,
  failed_to_set_zero_input, failed_to_configure_output,
}
use satellite_quic_proxy.Fpga.PacketUnit.{is_empty}
use satellite_quic_proxy.Fpga.Session.{
  Device, Session, Action, Ended, pure, raise, bind, ◌>>=◌, ◌>>◌, write_register, require, and_then,
  allocate, deref, copy_in, write_address, write_size, run_started, reg_module_select, reg_op_type,
  reg_data_addr, reg_data_size, reg_key_addr, reg_key_size, reg_nonce_addr, reg_aad_addr,
  reg_aad_size, reg_result_addr, reg_result_size, reg_connection_id_high, reg_connection_id_low,
  reg_packet_number,
}

-- OP_COMPRESSION and OP_DECOMPRESSION.
pub compression_code : FpgaOperationType → ℕ
compression_code compression = 1
compression_code type = 2

-- With room for the metadata of a compression, and for a ratio of 4 : 1 of a decompression.
unfoldable pub compression_output_size : FpgaOperationType → ℕ → ℕ
compression_output_size compression n = n + 1024
compression_output_size type n = n * 4

pub configure_compression :
    Device → FpgaOperationType → ℕ → Option Buffer → Option Buffer → Action (Unit {0})
configure_compression device type size input output = do
  require (write_register device reg_module_select 2) failed_to_select_compression
  require (write_register device reg_op_type (compression_code type)) failed_to_set_operation_type
  require
      (and_then (write_address device reg_data_addr input) (
        and_then (write_register device reg_data_size size) (
          and_then (write_address device reg_result_addr output)
            (write_size device reg_result_size output))))
      failed_to_configure_buffers

-- From the copy of the input on.
pub start_compression :
    Device → ℕ → FpgaOperationType → List ℕ → Option Buffer → Option Buffer → Action (List ℕ × ℕ)
start_compression device fuel type bytes input output = do
  copy_in input bytes
  configure_compression device type (length bytes) input output
  run_started device fuel output

pub run_compression : Device → ℕ → FpgaOperationType → List ℕ → Action (List ℕ × ℕ)
run_compression device fuel type bytes = do
  input ← allocate device (length bytes)
  output ← allocate device (compression_output_size type (length bytes))
  start_compression device fuel type bytes input output

-- OP_PACKET_FRAME, OP_PACKET_ACK and OP_PACKET_RETRANSMIT, and the size of the output buffer; `none` is
-- the `default` of both switches.
pub packet_code : FpgaOperationType → Option ℕ
packet_code packet_framing = some 1
packet_code packet_ack_processing = some 2
packet_code packet_retransmission = some 3
packet_code type = none

pub packet_output_size : FpgaOperationType → ℕ → ℕ
packet_output_size packet_ack_processing n = 128
packet_output_size type n = n + 256

-- No buffer is allocated for an empty input.
pub allocate_input : Device → List ℕ → Action (Option Buffer)
allocate_input device [] = pure none
allocate_input device (b ∷ bytes) = allocate device (length (b ∷ bytes))

pub copy_input : Option Buffer → List ℕ → Action (Unit {0})
copy_input none bytes = pure tt
copy_input (some b) bytes = if is_empty bytes then pure tt else copy_in (some b) bytes

pub configure_input : Device → ℕ → Option Buffer → Action (Unit {0})
configure_input device size none =
    require (write_register device reg_data_size 0) failed_to_set_zero_input
configure_input device size (some b) =
    require
      (and_then (write_address device reg_data_addr (some b))
        (write_register device reg_data_size size))
      failed_to_configure_input

pub configure_packet : Device → ℕ → ℕ → ℕ → ℕ → Option Buffer → Option Buffer → Action (Unit {0})
configure_packet device code size connection number input output = do
  require (write_register device reg_module_select 4) failed_to_select_packet
  require (write_register device reg_op_type code) failed_to_set_operation_type
  require
      (and_then (write_register device reg_connection_id_high (connection / u32_mod)) (
        and_then (write_register device reg_connection_id_low (connection % u32_mod))
          (write_register device reg_packet_number number)))
      failed_to_set_connection
  configure_input device size input
  require
      (and_then (write_address device reg_result_addr output)
        (write_size device reg_result_size output))
      failed_to_configure_output

-- From the copy of the input on.
pub start_packet :
    Device → ℕ → ℕ → List ℕ → ℕ → ℕ → Option Buffer → Option Buffer → Action (List ℕ × ℕ)
start_packet device fuel code bytes connection number input output = do
  copy_input input bytes
  configure_packet device code (length bytes) connection number input output
  run_started device fuel output

pub run_packet : Device → ℕ → FpgaOperationType → List ℕ → ℕ → ℕ → Action (List ℕ × ℕ)
run_packet device fuel type bytes connection number = do
  input ← allocate_input device bytes
  elim (packet_code type) [
    | none ↦ raise unsupported_packet_operation_type
    | some code ↦ do
      output ← allocate device (packet_output_size type (length bytes))
      start_packet device fuel code bytes connection number input output
  ]

-- OP_CRYPTO_ENCRYPT and OP_CRYPTO_DECRYPT.
pub crypto_code : FpgaOperationType → ℕ
crypto_code crypto_encrypt = 1
crypto_code type = 2

-- The additional data, where there is any and its buffer was granted; else its size is cleared.
pub configure_aad : Device → List ℕ → Option Buffer → Action (Unit {0})
configure_aad device aad none = require (write_register device reg_aad_size 0) failed_to_clear_aad
configure_aad device aad (some b) =
    if is_empty aad
    then require (write_register device reg_aad_size 0) failed_to_clear_aad
    else require
        (and_then (write_address device reg_aad_addr (some b))
          (write_register device reg_aad_size (length aad)))
        failed_to_configure_aad

-- What a cryptographic operation works on.
pub record CryptoInput : Type 0 where
  pub bytes : List ℕ
  pub key : List ℕ
  pub nonce : List ℕ
  pub aad : List ℕ

pub record CryptoBuffers : Type 0 where
  pub input : Option Buffer
  pub key : Option Buffer
  pub nonce : Option Buffer
  pub aad : Option Buffer
  pub output : Option Buffer

-- 16 bytes more than the input for the tag.
pub allocate_crypto : Device → CryptoInput → Action CryptoBuffers
allocate_crypto device c = do
  input ← allocate device (length c.bytes)
  key ← allocate device (length c.key)
  nonce ← allocate device (length c.nonce)
  aad ← allocate_input device c.aad
  output ← allocate device (length c.bytes + 16)
  pure (record { input = input; key = key; nonce = nonce; aad = aad; output = output })

pub copy_crypto : CryptoInput → CryptoBuffers → Action (Unit {0})
copy_crypto c b = do
  copy_in b.input c.bytes
  copy_in b.key c.key
  copy_in b.nonce c.nonce
  copy_input b.aad c.aad

pub configure_crypto : Device → FpgaOperationType → CryptoInput → CryptoBuffers → Action (Unit {0})
configure_crypto device type c b = do
  require (write_register device reg_module_select 1) failed_to_select_crypto
  require (write_register device reg_op_type (crypto_code type)) failed_to_set_operation_type
  require
      (and_then (write_address device reg_data_addr b.input) (
        and_then (write_register device reg_data_size (length c.bytes)) (
          and_then (write_address device reg_key_addr b.key) (
            and_then (write_register device reg_key_size (length c.key)) (
              and_then (write_address device reg_nonce_addr b.nonce) (
                and_then (write_address device reg_result_addr b.output)
                  (write_size device reg_result_size b.output)))))))
      failed_to_configure_buffers
  configure_aad device c.aad b.aad

pub start_crypto :
    Device → ℕ → FpgaOperationType → CryptoInput → CryptoBuffers → Action (List ℕ × ℕ)
start_crypto device fuel type c b = do
  copy_crypto c b
  configure_crypto device type c b
  run_started device fuel b.output

pub run_crypto : Device → ℕ → FpgaOperationType → CryptoInput → Action (List ℕ × ℕ)
run_crypto device fuel type c = do b ← allocate_crypto device c; start_crypto device fuel type c b
