-- ===== src/Fpga/Interface/Hardware.antt =====
-- The operations of an interface that is connected to the hardware: how each ends.
use satellite_quic_proxy.Base.{
  ℕ, ◌+◌, ◌%◌, ◌≤◌, ◌<◌, ◌≡◌, refl, subst, true, false, ◌&&◌, ◌||◌, not, Option, none, some, List,
  [], ◌∷◌, length, ltb, Bool-cases, inl, inr, arith, u32_mod, u64_mod,
}
use satellite_quic_proxy.Base.Outcome.{Outcome, done, fault}
use satellite_quic_proxy.Dma.Buffers.{max_dma_buffers}
use satellite_quic_proxy.Dma.Controller.{Controller}
use satellite_quic_proxy.Fpga.Operation.{FpgaOperationType, FpgaOperationResult}
use satellite_quic_proxy.Fpga.PacketUnit.{is_ack, is_empty}
use satellite_quic_proxy.Fpga.Evp.{Evp}
use satellite_quic_proxy.Fpga.Session.{Device, Session, Ended}
use satellite_quic_proxy.Fpga.Session.Rules.{
  Ends, returned_with, raised_with, faulted, Did, Kept, count,
}
use satellite_quic_proxy.Fpga.Session.Allocation.{Cause}
use satellite_quic_proxy.Fpga.Session.Waiting.{Sleeps, enough_polls}
use satellite_quic_proxy.Fpga.Hardware.{CryptoInput}
use satellite_quic_proxy.Fpga.Hardware.Compression.{compression_needs, run_compression-Ends}
use satellite_quic_proxy.Fpga.Hardware.Packets.{packet_needs, run_packet-Ends}
use satellite_quic_proxy.Fpga.Hardware.CryptoSteps.{crypto_needs}
use satellite_quic_proxy.Fpga.Hardware.Crypto.{run_crypto-Ends}
use satellite_quic_proxy.Fpga.Interface.{
  FpgaInterface, update_stats, finish, start_session, on_hardware, uses_simulation,
  execute_compression_operation, execute_packet_operation, execute_crypto_operation, max_key_size,
  max_nonce_size, max_aad_size,
}

-- The number of DMA buffers that the interface holds.
abbrev pub buffers : FpgaInterface → ℕ
buffers i = elim i.dma_controller [ none ↦ 0 | some c ↦ length c.manager.buffers ]

-- From `i` to `j` the table of buffers grew by `n` at least and kept its bound, and neither the
-- connection nor one of the counts of operations changed.
pub record Used (i : FpgaInterface) (n : ℕ) (j : FpgaInterface) : Type 0 where
  pub grown : buffers i + n ≤ buffers j
  pub bounded : buffers i ≤ max_dma_buffers → buffers j ≤ max_dma_buffers
  pub controller : (c : Controller) × (j.dma_controller ≡ some c)
  pub connected : j.connected ≡ i.connected
  pub simulation_mode : j.simulation_mode ≡ i.simulation_mode
  pub crypto_ops_count : j.crypto_ops_count ≡ i.crypto_ops_count
  pub compression_ops_count : j.compression_ops_count ≡ i.compression_ops_count
  pub packet_ops_count : j.packet_ops_count ≡ i.packet_ops_count

-- How an operation on `size` bytes ends that takes `n` buffers: by a success that is accounted for with
-- its bytes, by a failure that is not, or, for the reason `F`, not at all.
pub data Concludes (i : FpgaInterface) (n size : ℕ) (F : Type 0)
    : Option (Outcome (FpgaInterface × FpgaOperationResult)) → Type 0 where
  succeeds :
      {j : FpgaInterface} {r : FpgaOperationResult}
      → r.success ≡ true
      → Used i n j
      → j.total_bytes_processed ≡ (i.total_bytes_processed + size) % u64_mod
      → Concludes i n size F (some (done (j, r)))
  fails :
      {j : FpgaInterface} {r : FpgaOperationResult}
      → r.success ≡ false
      → Used i 0 j
      → j.total_bytes_processed ≡ i.total_bytes_processed
      → Concludes i n size F (some (done (j, r)))
  crashes : F → Concludes i n size F (some fault)

buffers_of :
    (i : FpgaInterface) (c : Controller)
    → i.dma_controller ≡ some c
    → buffers i ≡ length c.manager.buffers
buffers_of i c e = rw e refl

-- A session that allocates `n` buffers at least before it returns.
finish_lem :
    {P : List ℕ × ℕ → Session → Type 0} {F : Type 0} (i : FpgaInterface) (c : Controller)
    (n size duration : ℕ) (e : Ended (List ℕ × ℕ))
    → i.dma_controller ≡ some c
    → Ends P (Kept (start_session i c)) F e
    → ((r : List ℕ × ℕ) (s : Session)
        → P r s
        → (count (start_session i c) + n ≤ count s) × Kept (start_session i c) s)
    → Concludes i n size F (finish size duration i e)
unfolding finish update_stats start_session
finish_lem i c n size duration _ d (returned_with {a} {s} p) grows =
    let (grown, kept) = grows a s p in
    let b = buffers_of i c d in
    succeeds refl
      (record {
        grown = omega arith;
        bounded = λ h. kept.1 (omega arith);
        controller = (s.controller, refl);
        connected = refl;
        simulation_mode = refl;
        crypto_ops_count = refl;
        compression_ops_count = refl;
        packet_ops_count = refl;
      })
      refl
finish_lem i c n size duration _ d (raised_with {m} {s} k) grows =
    let b = buffers_of i c d in
    fails refl
      (record {
        grown = omega (arith, k.0);
        bounded = λ h. k.1 (omega arith);
        controller = (s.controller, refl);
        connected = refl;
        simulation_mode = refl;
        crypto_ops_count = refl;
        compression_ops_count = refl;
        packet_ops_count = refl;
      })
      refl
finish_lem i c n size duration _ d (faulted f) grows = crashes f

pub grows_by :
    {s₀ : Session} {m : ℕ} {ws : List (ℕ × ℕ)} {cs : List (ℕ × List ℕ)} {s : Session} (n : ℕ)
    → n ≤ m
    → Did s₀ m ws cs s
    → (count s₀ + n ≤ count s) × Kept s₀ s
grows_by n le d = (omega (arith, d.counted), (omega (arith, d.counted), d.bounded))

on_hardware-some :
    (i : FpgaInterface) (c : Controller) (size duration : ℕ)
    (session : Session → Ended (List ℕ × ℕ))
    → i.dma_controller ≡ some c
    → finish size duration i (session (start_session i c)) ≡ on_hardware session size duration i
unfolding on_hardware
on_hardware-some i c size duration session d = cc

on_hardware_lem :
    {P : List ℕ × ℕ → Session → Type 0} {F : Type 0} (i : FpgaInterface) (c : Controller)
    (n size duration : ℕ) (session : Session → Ended (List ℕ × ℕ))
    → i.dma_controller ≡ some c
    → Ends P (Kept (start_session i c)) F (session (start_session i c))
    → ((r : List ℕ × ℕ) (s : Session)
        → P r s
        → (count (start_session i c) + n ≤ count s) × Kept (start_session i c) s)
    → Concludes i n size F (on_hardware session size duration i)
on_hardware_lem {P} {F} i c n size duration session d ends grows =
    subst (λ o. Concludes i n size F o) (on_hardware-some i c size duration session d)
      (finish_lem i c n size duration (session (start_session i c)) d ends grows)

-- A rejected operation leaves the interface as it was.
unchanged :
    {F : Type 0} (i : FpgaInterface) (c : Controller) (n size : ℕ) (r : FpgaOperationResult)
    → i.dma_controller ≡ some c
    → r.success ≡ false
    → Concludes i n size F (some (done (i, r)))
unchanged i c n size r d e =
    fails e
      (record {
        grown = omega arith;
        bounded = λ h. h;
        controller = (c, d);
        connected = refl;
        simulation_mode = refl;
        crypto_ops_count = refl;
        compression_ops_count = refl;
        packet_ops_count = refl;
      })
      refl

-- The interface is connected to the hardware, with a controller.
pub record OnHardware (i : FpgaInterface) (c : Controller) : Type 0 where
  pub connected : i.connected ≡ true
  pub simulation_mode : i.simulation_mode ≡ false
  pub controller : i.dma_controller ≡ some c

not_simulated : (i : FpgaInterface) (c : Controller) → OnHardware i c → uses_simulation i ≡ false
unfolding uses_simulation
not_simulated i c h = let on = h.connected in let hardware = h.simulation_mode in ground arith

-- On the hardware, with enough fuel for the time-out and a clock that gains the 100 microseconds that
-- each poll sleeps, a compression ends: by a success that leaves two more buffers in the table and
-- counts its bytes, by a failure that counts none, or by leaving the defined behaviour for one of the
-- causes listed. It is never counted as an operation.
pub execute_compression_operation_ends :
    (device : Device) (fuel duration : ℕ) (i : FpgaInterface) (c : Controller)
    (type : FpgaOperationType) (bytes : List ℕ)
    → Sleeps device
    → enough_polls ≤ fuel
    → OnHardware i c
    → Concludes i 2
        (length bytes % u32_mod)
        (Cause device (start_session i c) (compression_needs type (length bytes)))
        (execute_compression_operation device fuel duration i type bytes)
unfolding execute_compression_operation
execute_compression_operation_ends device fuel duration i c type bytes sleeps enough on =
    elim (Bool-cases (is_empty bytes)) [
      | inl e ↦ simp e (unchanged i c 2 (length bytes % u32_mod) _ on.controller refl)
      | inr e ↦
          simp (e, not_simulated i c on)
            (on_hardware_lem i c 2 (length bytes % u32_mod) duration _ on.controller
              (run_compression-Ends device type bytes (start_session i c) fuel sleeps enough)
              λ r s (input, output, fi, fo, fetched, d). grows_by 2 (omega arith) d)
    ]

-- On the hardware, with enough fuel for the time-out and a clock that gains the 100 microseconds that
-- each poll sleeps, a packet operation ends: by a success that leaves at least one buffer more in the
-- table and counts its bytes, by a failure that counts none, or by leaving the defined behaviour for
-- one of the causes listed. It is never counted as an operation.
pub execute_packet_operation_ends :
    (device : Device) (fuel duration : ℕ) (i : FpgaInterface) (c : Controller)
    (type : FpgaOperationType) (bytes : List ℕ) (connection number : ℕ)
    → Sleeps device
    → enough_polls ≤ fuel
    → OnHardware i c
    → Concludes i 1
        (length bytes % u32_mod)
        (Cause device (start_session i c) (packet_needs type bytes))
        (execute_packet_operation device fuel duration i type bytes connection number)
unfolding execute_packet_operation
execute_packet_operation_ends device fuel duration i c type bytes connection number sleeps enough
      on =
    elim (Bool-cases (not (is_ack type) && is_empty bytes)) [
      | inl e ↦ simp e (unchanged i c 1 (length bytes % u32_mod) _ on.controller refl)
      | inr e ↦
          simp (e, not_simulated i c on)
            (on_hardware_lem i c 1 (length bytes % u32_mod) duration _ on.controller
              (run_packet-Ends device type bytes connection number (start_session i c) fuel sleeps
                enough)
              λ r s (code, input, output, known, g, fo, fetched, d). grows_by 1 (omega arith) d)
    ]

not_empty : (bytes : List ℕ) → is_empty bytes ≡ false → 0 < length bytes
unfolding is_empty
not_empty [] e = absurd (cc)
not_empty (b ∷ bytes) e = omega arith

-- On the hardware, with enough fuel for the time-out and a clock that gains the 100 microseconds that
-- each poll sleeps, a cryptographic operation ends: by a success that leaves at least four buffers
-- more in the table and counts its bytes, by a failure that counts none, or by leaving the defined
-- behaviour for one of the causes listed. It is never counted as an operation.
pub execute_crypto_operation_ends :
    {Context : Type 0} (evp : Evp Context) (device : Device) (fuel duration : ℕ) (i : FpgaInterface)
    (c : Controller) (type : FpgaOperationType) (input : CryptoInput)
    → Sleeps device
    → enough_polls ≤ fuel
    → OnHardware i c
    → Concludes i 4
        (length input.bytes % u32_mod)
        (Cause device (start_session i c) (crypto_needs input))
        (execute_crypto_operation evp device fuel duration i type input)
unfolding execute_crypto_operation
execute_crypto_operation_ends evp device fuel duration i c type input sleeps enough on =
    let size : ℕ = length input.bytes % u32_mod in
    elim (Bool-cases (is_empty input.bytes || is_empty input.key || is_empty input.nonce)) [
      | inl e ↦ simp e (unchanged i c 4 size _ on.controller refl)
      | inr e ↦
          elim (Bool-cases (
            ltb max_key_size (length input.key)
            || ltb max_nonce_size (length input.nonce)
            || (ltb max_aad_size (length input.aad) && not (is_empty input.aad)))) [
              | inl f ↦ simp (e, f) (unchanged i c 4 size _ on.controller refl)
              | inr f ↦
                  simp (e, f, not_simulated i c on)
                    (on_hardware_lem i c 4 size duration _ on.controller
                      (run_crypto-Ends device type input (start_session i c) fuel sleeps enough
                        (not_empty input.bytes (ground arith)) (not_empty input.key (ground arith))
                        (not_empty input.nonce (ground arith)))
                      λ r s (b, k, n, a, o, fb, fk, fn, g, fo, fetched, d).
                        grows_by 4 (omega arith) d)
            ]
    ]
