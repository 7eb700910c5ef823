-- ===== src/Fpga/Interface/Tests.antt =====
-- Examples of interfaces: one that is connected, one that simulates, and one whose driver knows no engine.
use satellite_quic_proxy.Base.{
  ℕ, ◌%◌, ◌≡◌, ◌≢◌, refl, true, false, none, some, List, [], ◌∷◌, arith, ◌==◌, if◌then◌else◌,
}
use satellite_quic_proxy.Base.Outcome.{done}
use satellite_quic_proxy.Dma.Buffers.{Mapping, BufferManager, max_dma_buffers}
use satellite_quic_proxy.Dma.Buffers
use satellite_quic_proxy.Dma.Controller.{Controller}
use satellite_quic_proxy.Dma.Controller
use satellite_quic_proxy.Dma.Engine.{setup_dma_engines}
use satellite_quic_proxy.Fpga.Operation.{
  compression, packet_framing, crypto_encrypt, FpgaOperationResult, FpgaOperationType, empty_result,
}
use satellite_quic_proxy.Fpga.PacketUnit.{frame, simulate_packet_operation, is_ack, is_empty}
use satellite_quic_proxy.Fpga.PacketUnit
use satellite_quic_proxy.Fpga.Evp.{Evp}
use satellite_quic_proxy.Fpga.Session.{Session, Device}
use satellite_quic_proxy.Fpga.Session.Waiting.{Sleeps, enough_polls}
use satellite_quic_proxy.Fpga.Session.Rules.{Ends, Kept}
use satellite_quic_proxy.Fpga.Session.Allocation.{Cause}
use satellite_quic_proxy.Fpga.Hardware.{
  CryptoInput, compression_output_size, run_compression, run_packet, run_crypto,
}
use satellite_quic_proxy.Fpga.Hardware.Compression.{
  compression_needs, Compressed, run_compression-Ends,
}
use satellite_quic_proxy.Fpga.Hardware.Packets.{packet_needs, Framed, run_packet-Ends}
use satellite_quic_proxy.Fpga.Hardware.CryptoSteps.{crypto_needs}
use satellite_quic_proxy.Fpga.Hardware.Crypto.{Ciphered, run_crypto-Ends}
use satellite_quic_proxy.Fpga.Interface.{
  FpgaInterface, Answers, new, initialize, open_device, connect, connect_with, close_device,
  execute_packet_operation, uses_simulation,
}
use satellite_quic_proxy.Fpga.Interface.Connection.{IsValid}
use satellite_quic_proxy.Fpga.Interface.Closing.{initialize_failed}
use satellite_quic_proxy.Fpga.Interface.Hardware.{OnHardware}
use satellite_quic_proxy.Fpga.Interface.Exhaustion.{
  compresses, frames, Timed, Within, execute, execute_all, execute_all-Within,
}
use satellite_quic_proxy.Fpga.Interface.Safety.{IsHealthy, needs_of, execute_returns}
use satellite_quic_proxy.Fpga.Interface.Histories.{constructed, initialized, Reached-IsValid}
use satellite_quic_proxy.Fpga.Interface.Simulation.{Accounted, execute_packet_simulated}

-- A device that is done at once, with 16 bytes.
abbrev fast : Device
fast = record {
  write_ok = λ k address value. true;
  read =
      λ k address. if address == 0x04 then some 2 else if address == 0x30 then some 16 else some 7;
  alloc = λ k size.
      some
        (record { virtual_address = 0x1000; physical_address = 0x2000; device_address = 0x3000 });
  memory = λ address. address % 256;
  elapsed = λ k. k;
}

abbrev manager : BufferManager
manager = record {
  device_fd = some 3;
  initialized = true;
  next_buffer_id = 1;
  buffers = [];
  total_allocated_memory = 0;
}

abbrev controller : Controller
controller = record {
  manager = manager;
  engines = [];
  pending = [];
  next_transfer_id = 1;
  writes = [];
}

abbrev idle : FpgaInterface
idle = record {
  simulation_mode = false;
  device_fd = some 3;
  connected = true;
  dma_controller = some controller;
  crypto_ops_count = 0;
  compression_ops_count = 0;
  packet_ops_count = 0;
  total_bytes_processed = 0;
  total_processing_time_us = 0;
  opened = 3 ∷ [];
  closed = [];
}

idle-OnHardware : OnHardware idle controller
idle-OnHardware = record { connected = refl; simulation_mode = refl; controller = refl }

-- An OpenSSL that gives no context.
abbrev no_evp : Evp (Unit {0})
no_evp = record {
  create = none;
  initialize = λ e n c. none;
  set_iv_length = λ n c. none;
  set_key = λ e k n c. none;
  add_aad = λ e a c. none;
  update = λ e b c. none;
  finalize = λ e c. none;
  get_tag = λ n c. none;
  set_tag = λ t c. none;
}

fast-Sleeps : Sleeps fast
fast-Sleeps k = omega arith

abbrev calls : List Timed
calls =
    record { request = compresses compression (1 ∷ 2 ∷ []); device = fast; duration = 1 }
    ∷ record { request = frames packet_framing (3 ∷ []) 7 8; device = fast; duration = 1 }
    ∷ []

execute_all-Within_example : Within idle (execute_all no_evp enough_polls calls idle)
execute_all-Within_example =
    execute_all-Within no_evp enough_polls calls idle controller (omega arith)
      (fast-Sleeps, (fast-Sleeps, tt)) idle-OnHardware (omega arith)

mapping_given : (k size : ℕ) → fast.alloc k size ≢ none
mapping_given k size h = absurd (cc)

healthy : IsHealthy fast controller (needs_of (compresses compression (1 ∷ 2 ∷ [])))
unfolding compression_output_size
healthy = record {
  initialized = refl;
  some_bytes = λ h. absurd (omega arith);
  small = omega arith;
  room = omega arith;
  grants = mapping_given;
  fits = λ k size h. ground arith;
}

execute_returns_example :
    (j : FpgaInterface) × (r : FpgaOperationResult) × (execute no_evp enough_polls
        (compresses compression (1 ∷ 2 ∷ []))
        fast
        1
        idle
      ≡ some (done (j, r)))
execute_returns_example =
    execute_returns no_evp enough_polls (compresses compression (1 ∷ 2 ∷ [])) fast 1 idle controller
      fast-Sleeps (omega arith) idle-OnHardware healthy

-- The driver gives a descriptor, and knows no engine.
abbrev no_engines : Answers
no_engines = record { descriptor = some 3; info = none; status = λ i k. 0 }

abbrev after_failure : FpgaInterface
after_failure = record {
  simulation_mode = false;
  device_fd = none;
  connected = false;
  dma_controller = some controller;
  crypto_ops_count = 0;
  compression_ops_count = 0;
  packet_ops_count = 0;
  total_bytes_processed = 0;
  total_processing_time_us = 0;
  opened = 3 ∷ [];
  closed = 3 ∷ [];
}

new-IsValid : IsValid (new false)
unfolding new
new-IsValid = record { ready = λ h. absurd (cc); accounted = refl }

initialize_fails : initialize no_engines fast (new false) ≡ done (after_failure, false)
unfolding new initialize open_device connect connect_with close_device Controller.initialize
    Controller.new Controller.with_engines Buffers.new Buffers.initialize Buffers.init_with
    setup_dma_engines
initialize_fails = refl

initialize_failed_example :
    (after_failure.device_fd ≡ none)
    × (after_failure.opened ≡ after_failure.closed)
    × (after_failure.connected ≡ (new false).connected)
initialize_failed_example =
    initialize_failed no_engines fast (new false) after_failure new-IsValid initialize_fails

Reached-IsValid_example : IsValid after_failure
Reached-IsValid_example = Reached-IsValid false after_failure (
    initialized no_engines fast (new false) after_failure false (constructed (new false) refl)
      initialize_fails)

abbrev hardware_unit : FpgaOperationType → List ℕ → ℕ → ℕ → FpgaOperationResult
hardware_unit type bytes connection number = empty_result

abbrev simulates : FpgaInterface
simulates = record idle { simulation_mode = true; device_fd = none; dma_controller = none }

execute_packet_simulated_example :
    (j : FpgaInterface) × (r : FpgaOperationResult) × (execute_packet_operation fast 0 5 simulates
        packet_framing
        (1 ∷ 2 ∷ [])
        7
        8
      ≡ some (done (j, r)))
    × (record r { processing_time_us = 0 }
        ≡ PacketUnit.execute_packet_operation true hardware_unit packet_framing (1 ∷ 2 ∷ []) 7 8)
    × Accounted 5 simulates r j
unfolding uses_simulation
execute_packet_simulated_example =
    execute_packet_simulated fast 0 5 simulates packet_framing (1 ∷ 2 ∷ []) 7 8 hardware_unit refl
      (omega arith) (omega arith)

abbrev session : Session
session = record {
  device_fd = some 3;
  controller = controller;
  accesses = 0;
  writes = [];
  copies = [];
}

run_compression-Ends_example :
    Ends
      (Compressed fast compression (1 ∷ 2 ∷ []) session)
      (Kept session)
      (Cause fast session (compression_needs compression 2))
      (run_compression fast enough_polls compression (1 ∷ 2 ∷ []) session)
run_compression-Ends_example =
    run_compression-Ends fast compression (1 ∷ 2 ∷ []) session enough_polls fast-Sleeps
      (omega arith)

run_packet-Ends_example :
    Ends
      (Framed fast packet_framing (1 ∷ 2 ∷ []) 7 8 session)
      (Kept session)
      (Cause fast session (packet_needs packet_framing (1 ∷ 2 ∷ [])))
      (run_packet fast enough_polls packet_framing (1 ∷ 2 ∷ []) 7 8 session)
run_packet-Ends_example =
    run_packet-Ends fast packet_framing (1 ∷ 2 ∷ []) 7 8 session enough_polls fast-Sleeps
      (omega arith)

abbrev message : CryptoInput
message = record { bytes = 1 ∷ 2 ∷ []; key = 9 ∷ []; nonce = 8 ∷ []; aad = 7 ∷ [] }

run_crypto-Ends_example :
    Ends
      (Ciphered fast crypto_encrypt message session)
      (Kept session)
      (Cause fast session (crypto_needs message))
      (run_crypto fast enough_polls crypto_encrypt message session)
run_crypto-Ends_example =
    run_crypto-Ends fast crypto_encrypt message session enough_polls fast-Sleeps (omega arith)
      (omega arith) (omega arith) (omega arith)
