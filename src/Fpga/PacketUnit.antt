-- ===== src/Fpga/PacketUnit.antt =====
-- SatelliteQUICProxy/proxy/src/fpga_interface.cpp: FPGAInterface::simulatePacketOperation, and the
-- frame of executePacketOperation around it. The simulated delays are left out. The interface
-- `PacketUnit` is what the handler of a connection sees of the accelerator.
mod Tests
pub mod Frames
use satellite_quic_proxy.Base.{
  ℕ, ◌+◌, ◌*◌, ◌/◌, ◌%◌, ◌^◌, ◌≡◌, ◌≢◌, refl, Bool, true, false, ◌&&◌, ◌||◌, not, List, [], ◌∷◌,
  ◌++◌, length, if◌then◌else◌, u32_mod, arith,
}
use satellite_quic_proxy.Fpga.Operation.{
  FpgaOperationType, FpgaOperationResult, empty_result, packet_framing, packet_ack_processing,
  packet_retransmission, unsupported_packet_operation, empty_input_for_non_ack,
}

-- The lowest byte first.
abbrev pub le16 : ℕ → List ℕ
le16 n = (n % 0x100) ∷ (n / 0x100 % 0x100) ∷ []

abbrev pub le32 : ℕ → List ℕ
le32 n = (n % 0x100) ∷ (n / 0x100 % 0x100) ∷ (n / 0x1_0000 % 0x100) ∷ (n / 0x100_0000 % 0x100) ∷ []

abbrev pub le64 : ℕ → List ℕ
le64 n = le32 (n % u32_mod) ++ le32 (n / u32_mod)

-- The framing of a payload: first byte, connection, packet number, STREAM frame header, length.
pub frame : ℕ → ℕ → List ℕ → List ℕ
frame connection number input =
    0xC0
    ∷ (le64 connection
        ++ (le32 number ++ (0x08 ∷ 0x00 ∷ (le16 (length input % 0x1_0000) ++ input))))

-- The simulated ACK frame, with a delay of 10.
unfoldable pub ack_frame : ℕ → List ℕ
ack_frame number = 0x02 ∷ (le32 number ++ (0x0A ∷ 0x00 ∷ 0x00 ∷ 0x00 ∷ []))

abbrev succeeded : List ℕ → List ℕ → FpgaOperationResult
succeeded input output = record empty_result {
  success = true;
  output = output;
  bytes_processed = length input % u32_mod;
}

-- The result, and the number by which `m_packetOpsCount` grows.
unfoldable pub simulate_packet_operation :
    FpgaOperationType → List ℕ → ℕ → ℕ → FpgaOperationResult × ℕ
simulate_packet_operation packet_framing input connection number =
    (succeeded input (frame connection number input), 1)
simulate_packet_operation packet_ack_processing input connection number =
    (succeeded input (ack_frame number), 1)
simulate_packet_operation packet_retransmission input connection number =
    (succeeded input (frame connection ((number + 1) % u32_mod) input), 1)
simulate_packet_operation type input connection number = (
  record empty_result {
    bytes_processed = length input % u32_mod;
    error_message = unsupported_packet_operation;
  },
  0,
)

unfoldable pub is_ack : FpgaOperationType → Bool
is_ack packet_ack_processing = true
is_ack type = false

unfoldable pub is_empty : List ℕ → Bool
is_empty [] = true
is_empty (b ∷ bs) = false

-- executePacketOperation: the check of the parameters, and the choice between the simulation and the
-- hardware, whose path is a parameter.
unfoldable pub execute_packet_operation :
    (simulated : Bool) (hardware : FpgaOperationType → List ℕ → ℕ → ℕ → FpgaOperationResult)
    → FpgaOperationType
    → List ℕ
    → ℕ
    → ℕ
    → FpgaOperationResult
execute_packet_operation simulated hardware type input connection number =
    if not (is_ack type) && is_empty input
    then record empty_result { error_code = 1; error_message = empty_input_for_non_ack }
    else if simulated
    then (simulate_packet_operation type input connection number).0
    else hardware type input connection number

-- What a handler uses of the accelerator: whether it is connected, its packet operation, and the rule
-- that only the processing of an ACK takes empty input.
pub record PacketUnit : Type 0 where
  pub is_connected : Bool
  pub execute : FpgaOperationType → List ℕ → ℕ → ℕ → FpgaOperationResult
  pub rejects_empty :
      (type : FpgaOperationType) (connection number : ℕ)
      → type ≢ packet_ack_processing
      → (execute type [] connection number).success ≡ false

pub execute-rejects_empty :
    (simulated : Bool) (hardware : FpgaOperationType → List ℕ → ℕ → ℕ → FpgaOperationResult)
    (type : FpgaOperationType) (connection number : ℕ)
    → type ≢ packet_ack_processing
    → (execute_packet_operation simulated hardware type [] connection number).success ≡ false
unfolding execute_packet_operation is_ack is_empty
execute-rejects_empty simulated hardware type connection number h = ground arith

-- The interface keeps the rule, simulated or not.
unfoldable pub packet_unit :
    (connected simulated : Bool)
    (hardware : FpgaOperationType → List ℕ → ℕ → ℕ → FpgaOperationResult)
    → PacketUnit
packet_unit connected simulated hardware = record {
  is_connected = connected;
  execute = execute_packet_operation simulated hardware;
  rejects_empty = execute-rejects_empty simulated hardware;
}
