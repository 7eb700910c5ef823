-- ===== src/Fpga/Interface/Exhaustion.antt =====
-- Any sequence of operations on the hardware: no DMA buffer is ever given back, so the table of 64 runs
-- out.
use satellite_quic_proxy.Base.{
  ℕ, ◌+◌, ◌≤◌, ◌∙◌, Option, none, some, List, [], ◌∷◌, All, arith, if◌then◌else◌,
}
use satellite_quic_proxy.Base.Outcome.{Outcome, done, fault}
use satellite_quic_proxy.Dma.Buffers.{max_dma_buffers}
use satellite_quic_proxy.Dma.Controller.{Controller}
use satellite_quic_proxy.Fpga.Operation.{FpgaOperationType, FpgaOperationResult}
use satellite_quic_proxy.Fpga.Evp.{Evp}
use satellite_quic_proxy.Fpga.Session.{Device}
use satellite_quic_proxy.Fpga.Session.Waiting.{Sleeps, enough_polls}
use satellite_quic_proxy.Fpga.Hardware.{CryptoInput}
use satellite_quic_proxy.Fpga.Interface.{
  FpgaInterface, execute_compression_operation, execute_packet_operation, execute_crypto_operation,
}
use satellite_quic_proxy.Fpga.Interface.Hardware.{
  buffers, Used, Concludes, succeeds, fails, crashes, OnHardware,
  execute_compression_operation_ends, execute_packet_operation_ends, execute_crypto_operation_ends,
}

-- A call of one of the three execute functions.
pub data Request : Type 0 where
  compresses : FpgaOperationType → List ℕ → Request
  frames : FpgaOperationType → List ℕ → ℕ → ℕ → Request
  ciphers : FpgaOperationType → CryptoInput → Request

-- What its success takes of the table, at least.
abbrev pub cost : Request → ℕ
cost (compresses type bytes) = 2
cost (frames type bytes connection number) = 1
cost (ciphers type c) = 4

-- A call, with the answers of the device to it, and its duration.
pub record Timed : Type 0 where
  pub request : Request
  pub device : Device
  pub duration : ℕ

abbrev add : ℕ → Option (Outcome (FpgaInterface × ℕ)) → Option (Outcome (FpgaInterface × ℕ))
add n none = none
add n (some fault) = some fault
add n (some (done (i, m))) = some (done (i, n + m))

-- The calls behind one that took `n` if it succeeded.
abbrev proceed :
    ℕ
    → Option (Outcome (FpgaInterface × FpgaOperationResult))
    → (FpgaInterface → Option (Outcome (FpgaInterface × ℕ)))
    → Option (Outcome (FpgaInterface × ℕ))
proceed n none rest = none
proceed n (some fault) rest = some fault
proceed n (some (done (j, r))) rest = add (if r.success then n else 0) (rest j)

module _ {Context : Type 0} (evp : Evp Context) (fuel : ℕ) where
  unfoldable pub execute :
      Request → Device → ℕ → FpgaInterface → Option (Outcome (FpgaInterface × FpgaOperationResult))
  execute (compresses type bytes) device duration i =
      execute_compression_operation device fuel duration i type bytes
  execute (frames type bytes connection number) device duration i =
      execute_packet_operation device fuel duration i type bytes connection number
  execute (ciphers type c) device duration i =
      execute_crypto_operation evp device fuel duration i type c

  -- The calls one behind the other, and the sum of the costs of those that succeeded.
  pub execute_all : List Timed → FpgaInterface → Option (Outcome (FpgaInterface × ℕ))
  execute_all [] i = some (done (i, 0))
  execute_all (t ∷ ts) i =
      proceed (cost t.request) (execute t.request t.device t.duration i) (execute_all ts)

-- The calls come to an end, in the table's room for what succeeded, or leave the defined behaviour.
pub data Within (i : FpgaInterface) : Option (Outcome (FpgaInterface × ℕ)) → Type 0 where
  within :
      {j : FpgaInterface} {n : ℕ} → n + buffers i ≤ max_dma_buffers → Within i (some (done (j, n)))
  crashed : Within i (some fault)

-- What one call leaves to the next.
data Next (i : FpgaInterface) (n : ℕ)
    : Option (Outcome (FpgaInterface × FpgaOperationResult)) → Type 0 where
  next :
      {j : FpgaInterface} {r : FpgaOperationResult} (c : Controller)
      → OnHardware j c
      → buffers i + (if r.success then n else 0) ≤ buffers j
      → buffers j ≤ max_dma_buffers
      → Next i n (some (done (j, r)))
  stop : Next i n (some fault)

OnHardware-Used :
    (i j : FpgaInterface) (n : ℕ) (c : Controller)
    → OnHardware i c
    → (u : Used i n j) → OnHardware j u.controller.0
OnHardware-Used i j n c on u = record {
  connected = u.connected ∙ on.connected;
  simulation_mode = u.simulation_mode ∙ on.simulation_mode;
  controller = u.controller.1;
}

after :
    {F : Type 0} (i : FpgaInterface) (c : Controller) (n size : ℕ)
    (o : Option (Outcome (FpgaInterface × FpgaOperationResult)))
    → OnHardware i c
    → buffers i ≤ max_dma_buffers
    → Concludes i n size F o
    → Next i n o
after i c n size _ on room (succeeds {j} {r} ok u total) =
    next u.controller.0 (OnHardware-Used i j n c on u) (rw ok u.grown) (u.bounded room)
after i c n size _ on room (fails {j} {r} bad u total) =
    next u.controller.0 (OnHardware-Used i j 0 c on u) (rw bad u.grown) (u.bounded room)
after i c n size _ on room (crashes f) = stop

module _ {Context : Type 0} (evp : Evp Context) (fuel : ℕ) where
  execute-Next :
      (q : Request) (device : Device) (duration : ℕ) (i : FpgaInterface) (c : Controller)
      → enough_polls ≤ fuel
      → Sleeps device
      → OnHardware i c
      → buffers i ≤ max_dma_buffers
      → Next i (cost q) (execute evp fuel q device duration i)
  unfolding execute
  execute-Next (compresses type bytes) device duration i c enough sleeps on room =
      after i c 2 _ _ on room
        (execute_compression_operation_ends device fuel duration i c type bytes sleeps enough on)
  execute-Next (frames type bytes connection number) device duration i c enough sleeps on room =
      after i c 1 _ _ on room (
        execute_packet_operation_ends device fuel duration i c type bytes connection number sleeps
          enough on)
  execute-Next (ciphers type x) device duration i c enough sleeps on room =
      after i c 4 _ _ on room
        (execute_crypto_operation_ends evp device fuel duration i c type x sleeps enough on)

-- What is left, behind a call that took `n`.
add-Within :
    (i j : FpgaInterface) (n : ℕ) (o : Option (Outcome (FpgaInterface × ℕ)))
    → buffers i + n ≤ buffers j
    → Within j o
    → Within i (add n o)
add-Within i j n _ le (within {n = m} h) = within (omega arith)
add-Within i j n _ le crashed = crashed

proceed-Within :
    (i : FpgaInterface) (n : ℕ) (o : Option (Outcome (FpgaInterface × FpgaOperationResult)))
    (rest : FpgaInterface → Option (Outcome (FpgaInterface × ℕ)))
    → Next i n o
    → ((j : FpgaInterface) (c : Controller)
        → OnHardware j c
        → buffers j ≤ max_dma_buffers
        → Within j (rest j))
    → Within i (proceed n o rest)
proceed-Within i n _ rest (next {j} {r} c on le room) k =
    add-Within i j (if r.success then n else 0) (rest j) le (k j c on room)
proceed-Within i n _ rest stop k = crashed

-- With enough fuel for the time-outs, on clocks that gain the 100 microseconds that each poll sleeps,
-- any sequence of operations on a connected interface with a controller whose table is within its
-- bound comes to an end, or leaves the defined behaviour; and where it ends, the buffers that were
-- there, two for each compression that succeeded, one for each packet operation and four for each
-- cryptographic one are no more than 64.
pub execute_all-Within :
    {Context : Type 0} (evp : Evp Context) (fuel : ℕ) (ts : List Timed) (i : FpgaInterface)
    (c : Controller)
    → enough_polls ≤ fuel
    → All (λ t. Sleeps t.device) ts
    → OnHardware i c
    → buffers i ≤ max_dma_buffers
    → Within i (execute_all evp fuel ts i)
unfolding execute_all
execute_all-Within evp fuel [] i c enough sleeps on room = within (omega arith)
execute_all-Within evp fuel (t ∷ ts) i c enough sleeps on room =
    proceed-Within i (cost t.request) _ (execute_all evp fuel ts)
      (execute-Next evp fuel t.request t.device t.duration i c enough sleeps.0 on room)
      λ j d on' room'. execute_all-Within evp fuel ts j d enough sleeps.1 on' room'
