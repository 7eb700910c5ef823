-- ===== src/Dma/Controller/Tests.antt =====
-- Examples of transfers: a controller with two engines, and polls that end at once.
use satellite_quic_proxy.Base.{
  ℕ, ◌+◌, ◌≤◌, ◌≡◌, ◌⊎◌, inl, refl, true, false, some, List, [], ◌∷◌, arith,
}
use satellite_quic_proxy.Dma.Engine.{
  DmaEngine, host_to_device, device_to_host, get_available_engine, check_complete, is_error,
  is_done, channel_reg, program_engine,
}
use satellite_quic_proxy.Dma.Engine.Idle.{idle_count}
use satellite_quic_proxy.Dma.Controller.{
  Controller, Handle, PendingTransfer, Transferred, TransferResult, blocking, non_blocking,
  succeeded, transfer, run_transfer, run_started, start_transfer, poll_loop, find_pending,
  run_thread, is_transfer_complete, wait_for_transfer, pending_for,
}
use satellite_quic_proxy.Dma.Controller.Leak.{run_blocking_leak, run_blocking}
use satellite_quic_proxy.Dma.Controller.Ending.{Request}
use satellite_quic_proxy.Dma.Controller.Pending.{
  transfer_stale, transfer_lifecycle, wait_for_transfer_ends,
}
use satellite_quic_proxy.Dma.Controller.Errors.{transfer_error_is_success}

abbrev idle : DmaEngine
idle = record { base_address = 0; channel_count = 4; busy = false }

abbrev busy_engine : DmaEngine
busy_engine = record idle { busy = true }

abbrev controller : List DmaEngine → Controller
controller engines = record {
  manager = record {
    device_fd = some 3;
    initialized = true;
    next_buffer_id = 1;
    buffers = [];
    total_allocated_memory = 0;
  };
  engines = engines;
  pending = [];
  next_transfer_id = 1;
  writes = [];
}

abbrev handle : Handle
handle = record {
  pointer = 5;
  buffer = record {
    virtual_address = 0x7000;
    physical_address = 0x9000;
    device_address = 0x100;
    size = 4096;
    id = 1;
  };
}

-- Every register reads 2: done, with two bytes transferred.
abbrev all_done : ℕ → ℕ → ℕ
all_done k address = 2

-- Every register reads 4: an error.
abbrev all_failed : ℕ → ℕ → ℕ
all_failed k address = 4

abbrev request : Request
request = record { polls = all_done; buffer = some handle; size = 1024; direction = host_to_device }

run_blocking_leak_example :
    (n : ℕ) × (c' : Controller) × (run_blocking 10
        (controller (idle ∷ idle ∷ idle ∷ []))
        (request ∷ [])
      ≡ some (n, c'))
    × (n + idle_count c'.engines ≡ idle_count (idle ∷ idle ∷ idle ∷ []))
    × ((n ≡ 0) ⊎ (n + 1 ≤ idle_count (idle ∷ idle ∷ idle ∷ [])))
unfolding check_complete is_error is_done channel_reg
run_blocking_leak_example =
    run_blocking_leak 10 (request ∷ []) (controller (idle ∷ idle ∷ idle ∷ []))
      ((0, 2, omega arith, refl), tt)

transfer_error_is_success_example :
    (t : Transferred) × (transfer 10 all_failed
        (controller (idle ∷ idle ∷ []))
        (some handle)
        1024
        device_to_host
        blocking
        false
      ≡ some t)
    × (t.result ≡ succeeded 0)
unfolding is_error channel_reg
transfer_error_is_success_example =
    transfer_error_is_success 10 all_failed (controller (idle ∷ idle ∷ [])) handle 1024
      device_to_host false 0 (omega arith) (omega arith) (omega arith) (omega arith)
      (λ i below. absurd (omega arith)) (inl refl) (omega arith)

abbrev waits : PendingTransfer
waits = pending_for handle 1024 host_to_device true

-- What a non-blocking transfer leaves: both engines are taken.
abbrev started : Controller
started = record (controller (busy_engine ∷ busy_engine ∷ [])) {
  pending = waits ∷ [];
  next_transfer_id = 2;
  writes = program_engine busy_engine 0 handle.buffer 1024 host_to_device 1;
}

abbrev transferred : Transferred
transferred = record { result = succeeded 0; controller = started; thread_engine = some 0 }

transfer_started :
    transfer 10 all_done
      (controller (idle ∷ idle ∷ []))
      (some handle)
      1024
      host_to_device
      non_blocking
      true
    ≡ some transferred
unfolding transfer run_transfer run_started start_transfer get_available_engine
transfer_started = refl

transfer_lifecycle_example :
    (is_transfer_complete started (some handle) ≡ false)
    × ((c' : Controller) × (run_thread 10 all_done started handle 0 ≡ some (c', some (succeeded 2)))
        × (is_transfer_complete c' (some handle) ≡ true)
        × ((rounds : ℕ) (view : ℕ → PendingTransfer) (elapsed : ℕ → ℕ) (timeout : ℕ)
            → wait_for_transfer rounds view elapsed c' (some handle) timeout ≡ some (succeeded 2)))
unfolding poll_loop check_complete is_error is_done find_pending
transfer_lifecycle_example =
    transfer_lifecycle 10 all_done (controller (idle ∷ idle ∷ [])) handle 1024 host_to_device true
      transferred 0 2 refl transfer_started refl refl

-- The record of a transfer of 64 bytes of the same buffer that has completed.
abbrev old : PendingTransfer
old = record waits { completed = true; result = succeeded 64 }

abbrev reused : Controller
reused = record (controller (idle ∷ idle ∷ [])) { pending = old ∷ [] }

transfer_stale_example :
    (is_transfer_complete (record started { pending = old ∷ waits ∷ [] }) (some handle) ≡ true)
    × ((rounds : ℕ) (view : ℕ → PendingTransfer) (elapsed : ℕ → ℕ) (timeout : ℕ)
        → wait_for_transfer rounds view elapsed
            (record started { pending = old ∷ waits ∷ [] })
            (some handle)
            timeout
          ≡ some (succeeded 64))
unfolding transfer run_transfer run_started start_transfer get_available_engine find_pending
transfer_stale_example =
    transfer_stale 10 all_done reused handle 1024 host_to_device true
      (record transferred { controller = record started { pending = old ∷ waits ∷ [] } }) old refl
      refl refl refl

wait_for_transfer_ends_example :
    (r : TransferResult) × (wait_for_transfer 21 (λ k. waits) (λ k. k) started (some handle) 20
      ≡ some r)
wait_for_transfer_ends_example =
    wait_for_transfer_ends (λ k. waits) (λ k. k) started (some handle) 20 (omega arith)
      (λ j. omega arith)
