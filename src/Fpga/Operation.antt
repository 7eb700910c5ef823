-- ===== src/Fpga/Operation.antt =====
-- SatelliteQUICProxy/proxy/src/fpga_interface.h: operation types and results.
use satellite_quic_proxy.Base.{ℕ, Bool, false, List, []}

pub data FpgaOperationType : Type 0 where
  crypto_encrypt crypto_decrypt compression decompression : FpgaOperationType
  packet_framing packet_ack_processing packet_retransmission : FpgaOperationType

-- The texts of `errorMessage`, in the words of the source.
pub data ErrorMessage : Type 0 where
  no_message empty_input_key_or_nonce key_nonce_or_aad_too_large empty_input : ErrorMessage
  empty_input_for_non_ack invalid_compression_format unsupported_packet_operation : ErrorMessage
  unsupported_packet_operation_type failed_to_select_crypto failed_to_select_compression :
      ErrorMessage
  failed_to_select_packet failed_to_set_operation_type failed_to_configure_buffers : ErrorMessage
  failed_to_configure_aad failed_to_clear_aad failed_to_set_connection : ErrorMessage
  failed_to_configure_input failed_to_set_zero_input failed_to_configure_output : ErrorMessage
  failed_to_start failed_to_read_status reported_error timed_out : ErrorMessage
  failed_to_read_processing_time failed_to_read_error_code failed_to_read_result_size : ErrorMessage
  failed_with_error_code : ℕ → ErrorMessage
  failed_to_create_context unsupported_key_size failed_to_initialize failed_to_set_iv_length :
      ErrorMessage
  failed_to_set_key failed_to_set_aad failed_during_cipher failed_to_finalize : ErrorMessage
  failed_to_get_tag failed_to_set_tag authentication_failed input_too_small : ErrorMessage

-- FPGAOperationResult; the processing time is a number of microseconds.
pub record FpgaOperationResult : Type 0 where
  pub success : Bool
  pub output : List ℕ
  pub bytes_processed : ℕ
  pub processing_time_us : ℕ
  pub error_code : ℕ
  pub error_message : ErrorMessage

-- The constructor of FPGAOperationResult.
abbrev pub empty_result : FpgaOperationResult
empty_result = record {
  success = false;
  output = [];
  bytes_processed = 0;
  processing_time_us = 0;
  error_code = 0;
  error_message = no_message;
}
