-- ===== src/Fpga/Interface.antt =====
-- SatelliteQUICProxy/proxy/src/fpga_interface.{h,cpp}: FPGAInterface, its life and its operations. The
-- path of the device is left out: an answer stands for the call of open(). The processing times are whole
-- microseconds, and `duration` is the time in milliseconds that an operation took by the clock. A callback
-- only gets the result that is returned, and log lines are left out. `Option` is `none` where the fuel of
-- the polls ran out.
mod Tests
pub mod Connection
pub mod Closing
pub mod Hardware
pub mod Exhaustion
pub mod Safety
pub mod Histories
pub mod Simulation
use satellite_quic_proxy.Base.{
  ℕ, zero, suc, ◌+◌, ◌*◌, ◌%◌, Bool, true, false, ◌&&◌, ◌||◌, not, Option, none, some, List, [],
  ◌∷◌, ◌++◌, length, ltb, if◌then◌else◌, u32_mod, u64_mod,
}
use satellite_quic_proxy.Base.Outcome.{Outcome, done, fault}
use satellite_quic_proxy.Dma.Engine.{DmaInfo}
use satellite_quic_proxy.Dma.Controller.{Controller}
use satellite_quic_proxy.Dma.Controller
use satellite_quic_proxy.Fpga.Operation.{
  FpgaOperationType, FpgaOperationResult, empty_result, ErrorMessage, empty_input,
  empty_input_key_or_nonce, key_nonce_or_aad_too_large, empty_input_for_non_ack,
}
use satellite_quic_proxy.Fpga.Compression.{simulate_compression_operation}
use satellite_quic_proxy.Fpga.PacketUnit.{simulate_packet_operation, is_ack, is_empty}
use satellite_quic_proxy.Fpga.Evp.{Evp, simulate_crypto_operation}
use satellite_quic_proxy.Fpga.Session.{Device, Session, Ended, reg_control}
use satellite_quic_proxy.Fpga.Session
use satellite_quic_proxy.Fpga.Hardware.{CryptoInput, run_compression, run_packet, run_crypto}

-- FPGAInterface, with the descriptors opened and closed so far.
pub record FpgaInterface : Type 0 where
  pub simulation_mode : Bool
  pub device_fd : Option ℕ
  pub connected : Bool
  pub dma_controller : Option Controller
  pub crypto_ops_count : ℕ
  pub compression_ops_count : ℕ
  pub packet_ops_count : ℕ
  pub total_bytes_processed : ℕ
  pub total_processing_time_us : ℕ
  pub opened : List ℕ
  pub closed : List ℕ

pub new : Bool → FpgaInterface
new simulation_mode = record {
  simulation_mode = simulation_mode;
  device_fd = none;
  connected = false;
  dma_controller = none;
  crypto_ops_count = 0;
  compression_ops_count = 0;
  packet_ops_count = 0;
  total_bytes_processed = 0;
  total_processing_time_us = 0;
  opened = [];
  closed = [];
}

-- openDevice; `none` is a failed call of open().
pub open_device : Option ℕ → FpgaInterface → FpgaInterface × Bool
open_device answer i = elim i.device_fd [
  | some fd ↦ (i, true)
  | none ↦ elim answer [
    | none ↦ (i, false)
    | some fd ↦ (record i { device_fd = some fd; opened = i.opened ++ (fd ∷ []) }, true)
  ]
]

pub close_device : FpgaInterface → FpgaInterface
close_device i = elim i.device_fd [
  | none ↦ i
  | some fd ↦ record i { device_fd = none; closed = i.closed ++ (fd ∷ []) }
]

-- The write of CTRL_RESET into the control register.
pub reset_fpga : Device → FpgaInterface → Bool
reset_fpga device i =
    if i.simulation_mode
    then true
    else elim i.device_fd [ none ↦ false | some fd ↦ device.write_ok 0 reg_control 2 ]

-- The part of initialize behind the initialization of the DMA controller.
pub connect : Device → FpgaInterface → Bool → FpgaInterface × Bool
connect device i ok =
    if not ok
    then (close_device i, false)
    else if reset_fpga device i
    then (record i { connected = true }, true)
    else (close_device i, false)

-- The new controller is kept, also where it could not be initialized.
pub connect_with :
    Device → FpgaInterface → Outcome (Controller × Bool) → Outcome (FpgaInterface × Bool)
connect_with device i fault = fault
connect_with device i (done (c, ok)) =
    done (connect device (record i { dma_controller = some c }) ok)

-- What the system and the driver answer to a call of initialize.
pub record Answers : Type 0 where
  pub descriptor : Option ℕ
  pub info : Option DmaInfo
  pub status : ℕ → ℕ → ℕ

pub initialize : Answers → Device → FpgaInterface → Outcome (FpgaInterface × Bool)
initialize answers device i =
    let (j, opened) = open_device answers.descriptor i in
    if i.simulation_mode
    then done (record i { connected = true }, true)
    else if opened
    then connect_with device j
        (Controller.initialize answers.info answers.status (Controller.new j.device_fd))
    else done (j, false)

-- Also the destructor.
pub shutdown : FpgaInterface → FpgaInterface
shutdown i =
    if i.simulation_mode
    then record i { connected = false }
    else record (close_device (record i { dma_controller = none })) { connected = false }

pub is_connected : FpgaInterface → Bool
is_connected i = i.connected

-- updateStats
pub update_stats : ℕ → ℕ → FpgaInterface → FpgaInterface
update_stats bytes time_us i = record i {
  total_bytes_processed = (i.total_bytes_processed + bytes) % u64_mod;
  total_processing_time_us = i.total_processing_time_us + time_us;
}

-- The end of a simulated operation.
pub simulated : ℕ → FpgaOperationResult → FpgaInterface → FpgaInterface × FpgaOperationResult
simulated duration r i = (
  update_stats r.bytes_processed (duration * 1000) i,
  record r { processing_time_us = duration * 1000 },
)

-- The end of an operation of the hardware: the `catch` block reports what was thrown, and the statistics
-- are updated inside the `try` block only.
pub finish :
    ℕ
    → ℕ
    → FpgaInterface
    → Ended (List ℕ × ℕ)
    → Option (Outcome (FpgaInterface × FpgaOperationResult))
finish n duration i (Ended.returned (bytes, time) s) = some (
    done (
      update_stats n time (record i { dma_controller = some s.controller }),
      record empty_result {
        success = true;
        output = bytes;
        bytes_processed = n;
        processing_time_us = time;
      },
    ))
finish n duration i (Ended.raised text s) = some (
    done (
      record i { dma_controller = some s.controller },
      record empty_result { error_message = text; processing_time_us = duration * 1000 },
    ))
finish n duration i Ended.fault = some fault
finish n duration i Ended.unfinished = none

-- Where a `try` block starts.
pub start_session : FpgaInterface → Controller → Session
start_session i c = record {
  device_fd = i.device_fd;
  controller = c;
  accesses = 0;
  writes = [];
  copies = [];
}

-- The `try` block with the controller of the interface: a call through a null pointer without one.
pub on_hardware :
    (Session → Ended (List ℕ × ℕ))
    → ℕ
    → ℕ
    → FpgaInterface
    → Option (Outcome (FpgaInterface × FpgaOperationResult))
on_hardware session n duration i = elim i.dma_controller [
  | none ↦ some fault
  | some c ↦ finish n duration i (session (start_session i c))
]

-- m_simulationMode || !m_connected
pub uses_simulation : FpgaInterface → Bool
uses_simulation i = i.simulation_mode || not i.connected

pub execute_compression_operation :
    Device
    → ℕ
    → ℕ
    → FpgaInterface
    → FpgaOperationType
    → List ℕ
    → Option (Outcome (FpgaInterface × FpgaOperationResult))
execute_compression_operation device fuel duration i type bytes =
    let (r, counted) = simulate_compression_operation type bytes in
    if is_empty bytes
    then some (done (i, record empty_result { error_code = 1; error_message = empty_input }))
    else if uses_simulation i
    then some (
        done (
          simulated duration r
            (record i { compression_ops_count = (i.compression_ops_count + counted) % u64_mod })))
    else on_hardware (run_compression device fuel type bytes) (length bytes % u32_mod) duration i

pub execute_packet_operation :
    Device
    → ℕ
    → ℕ
    → FpgaInterface
    → FpgaOperationType
    → List ℕ
    → ℕ
    → ℕ
    → Option (Outcome (FpgaInterface × FpgaOperationResult))
execute_packet_operation device fuel duration i type bytes connection number =
    let (r, counted) = simulate_packet_operation type bytes connection number in
    if not (is_ack type) && is_empty bytes
    then some
        (done (i, record empty_result { error_code = 1; error_message = empty_input_for_non_ack }))
    else if uses_simulation i
    then some (
        done (
          simulated duration r
            (record i { packet_ops_count = (i.packet_ops_count + counted) % u64_mod })))
    else on_hardware (run_packet device fuel type bytes connection number) (length bytes % u32_mod)
        duration i

-- The limits of a key, a nonce and additional data.
abbrev pub max_key_size : ℕ
max_key_size = 32

abbrev pub max_nonce_size : ℕ
max_nonce_size = 12

abbrev pub max_aad_size : ℕ
max_aad_size = 64

pub execute_crypto_operation :
    {Context : Type 0}
    → Evp Context
    → Device
    → ℕ
    → ℕ
    → FpgaInterface
    → FpgaOperationType
    → CryptoInput
    → Option (Outcome (FpgaInterface × FpgaOperationResult))
execute_crypto_operation evp device fuel duration i type c =
    let (r, counted) = simulate_crypto_operation evp type c in
    if is_empty c.bytes || is_empty c.key || is_empty c.nonce
    then some
        (done (i, record empty_result { error_code = 1; error_message = empty_input_key_or_nonce }))
    else if ltb max_key_size (length c.key)
        || ltb max_nonce_size (length c.nonce)
        || (ltb max_aad_size (length c.aad) && not (is_empty c.aad))
    then some (
        done
          (i, record empty_result { error_code = 2; error_message = key_nonce_or_aad_too_large }))
    else if uses_simulation i
    then some (
        done (
          simulated duration r
            (record i { crypto_ops_count = (i.crypto_ops_count + counted) % u64_mod })))
    else on_hardware (run_crypto device fuel type c) (length c.bytes % u32_mod) duration i
