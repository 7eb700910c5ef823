-- ===== src/Fpga/Interface/Simulation.antt =====
-- The operations of an interface that simulates, and their statistics.
use satellite_quic_proxy.Base.{
  ℕ, ◌+◌, ◌%◌, ◌<◌, ◌≡◌, refl, true, ◌&&◌, not, some, List, Bool-cases, inl, inr, arith,
  if◌then◌else◌, u64_mod,
}
use satellite_quic_proxy.Base.Outcome.{done}
use satellite_quic_proxy.Fpga.Operation.{
  FpgaOperationType, FpgaOperationResult, crypto_encrypt, crypto_decrypt, compression,
  decompression, packet_framing, packet_ack_processing, packet_retransmission, empty_result,
  empty_input_for_non_ack,
}
use satellite_quic_proxy.Fpga.PacketUnit.{is_ack, is_empty, simulate_packet_operation}
use satellite_quic_proxy.Fpga.PacketUnit
use satellite_quic_proxy.Fpga.Session.{Device}
use satellite_quic_proxy.Fpga.Interface.{
  FpgaInterface, update_stats, simulated, uses_simulation, execute_packet_operation,
}

-- What a simulated operation leaves in the interface: a success is counted, and the bytes are those that
-- the result names.
pub record Accounted (duration : ℕ) (i : FpgaInterface) (r : FpgaOperationResult)
    (j : FpgaInterface) : Type 0 where
  pub packet_ops_count :
      j.packet_ops_count ≡ (i.packet_ops_count + (if r.success then 1 else 0)) % u64_mod
  pub total_bytes_processed :
      j.total_bytes_processed ≡ (i.total_bytes_processed + r.bytes_processed) % u64_mod
  pub total_processing_time_us :
      j.total_processing_time_us ≡ i.total_processing_time_us + r.processing_time_us

counted_lem :
    (type : FpgaOperationType) (bytes : List ℕ) (connection number : ℕ)
    → (simulate_packet_operation type bytes connection number).1
      ≡ (if (simulate_packet_operation type bytes connection number).0.success then 1 else 0)
unfolding simulate_packet_operation
counted_lem packet_framing bytes connection number = refl
counted_lem packet_ack_processing bytes connection number = refl
counted_lem packet_retransmission bytes connection number = refl
counted_lem crypto_encrypt bytes connection number = refl
counted_lem crypto_decrypt bytes connection number = refl
counted_lem compression bytes connection number = refl
counted_lem decompression bytes connection number = refl

pub untimed_lem :
    (type : FpgaOperationType) (bytes : List ℕ) (connection number : ℕ)
    → record (simulate_packet_operation type bytes connection number).0 { processing_time_us = 0 }
      ≡ (simulate_packet_operation type bytes connection number).0
unfolding simulate_packet_operation
untimed_lem packet_framing bytes connection number = refl
untimed_lem packet_ack_processing bytes connection number = refl
untimed_lem packet_retransmission bytes connection number = refl
untimed_lem crypto_encrypt bytes connection number = refl
untimed_lem crypto_decrypt bytes connection number = refl
untimed_lem compression bytes connection number = refl
untimed_lem decompression bytes connection number = refl

abbrev rejected : FpgaOperationResult
rejected = record empty_result { error_code = 1; error_message = empty_input_for_non_ack }

-- An interface that simulates or is not connected always returns from a packet operation. Apart from
-- the processing time the result is that of the packet unit that the handlers of connections use, and
-- it is accounted for, where the statistics fit into 64 bits before: a success counts one operation,
-- and the bytes and the time of the result are added.
pub execute_packet_simulated :
    (device : Device) (fuel duration : ℕ) (i : FpgaInterface) (type : FpgaOperationType)
    (bytes : List ℕ) (connection number : ℕ)
    (hardware : FpgaOperationType → List ℕ → ℕ → ℕ → FpgaOperationResult)
    → uses_simulation i ≡ true
    → i.packet_ops_count < u64_mod
    → i.total_bytes_processed < u64_mod
    → (j : FpgaInterface) × (r : FpgaOperationResult) × (execute_packet_operation device fuel
          duration i type bytes connection number
        ≡ some (done (j, r)))
      × (record r { processing_time_us = 0 }
          ≡ PacketUnit.execute_packet_operation true hardware type bytes connection number)
      × Accounted duration i r j
unfolding execute_packet_operation simulated update_stats PacketUnit.execute_packet_operation
execute_packet_simulated device fuel duration i type bytes connection number hardware sim few
      small =
    elim (Bool-cases (not (is_ack type) && is_empty bytes)) [
      | inl e ↦ (
        i,
        rejected,
        simp e refl,
        simp e refl,
        record {
          packet_ops_count = ground arith;
          total_bytes_processed = ground arith;
          total_processing_time_us = ground arith;
        },
      )
      | inr e ↦
          let (r, counted) = simulate_packet_operation type bytes connection number in
          let (j, timed) =
            simulated duration r
              (record i { packet_ops_count = (i.packet_ops_count + counted) % u64_mod }) in
          (
            j,
            timed,
            simp (e, sim) refl,
            simp e (untimed_lem type bytes connection number),
            record {
              packet_ops_count = rw (counted_lem type bytes connection number) refl;
              total_bytes_processed = refl;
              total_processing_time_us = refl;
            },
          )
    ]
