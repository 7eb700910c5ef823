-- ===== src/Fpga/Interface/Safety.antt =====
-- On hardware that keeps to its side, an operation stays within the defined behaviour.
use satellite_quic_proxy.Base.{ℕ, ◌+◌, ◌≤◌, ◌≡◌, ◌≢◌, refl, true, Option, none, some, length, arith}
use satellite_quic_proxy.Base.Outcome.{Outcome, done}
use satellite_quic_proxy.Dma.Buffers.{max_dma_buffers}
use satellite_quic_proxy.Dma.Controller.{Controller, max_dma_transfer_size}
use satellite_quic_proxy.Fpga.Operation.{FpgaOperationResult}
use satellite_quic_proxy.Fpga.Evp.{Evp}
use satellite_quic_proxy.Fpga.Session.{Device, reg_result_size}
use satellite_quic_proxy.Fpga.Session.Allocation.{
  Needs, Cause, not_initialized, too_small, too_large, out_of_buffers, refused, oversized,
}
use satellite_quic_proxy.Fpga.Session.Waiting.{Sleeps, enough_polls}
use satellite_quic_proxy.Fpga.Hardware.Compression.{compression_needs}
use satellite_quic_proxy.Fpga.Hardware.Packets.{packet_needs}
use satellite_quic_proxy.Fpga.Hardware.CryptoSteps.{crypto_needs}
use satellite_quic_proxy.Fpga.Interface.{FpgaInterface, start_session}
use satellite_quic_proxy.Fpga.Interface.Hardware.{
  Concludes, succeeds, fails, crashes, OnHardware, execute_compression_operation_ends,
  execute_packet_operation_ends, execute_crypto_operation_ends,
}
use satellite_quic_proxy.Fpga.Interface.Exhaustion.{Request, compresses, frames, ciphers, execute}

abbrev pub needs_of : Request → Needs
needs_of (compresses type bytes) = compression_needs type (length bytes)
needs_of (frames type bytes connection number) = packet_needs type bytes
needs_of (ciphers type c) = crypto_needs c

-- The table has room for the operation, its sizes are within the limits of the controller, and the
-- driver and the device keep to what they were asked for.
pub record IsHealthy (device : Device) (c : Controller) (needs : Needs) : Type 0 where
  pub initialized : c.manager.initialized ≡ true
  pub some_bytes : needs.least ≢ 0
  pub small : needs.most ≤ max_dma_transfer_size
  pub room : length c.manager.buffers + needs.buffers ≤ max_dma_buffers
  pub grants : (k size : ℕ) → device.alloc k size ≢ none
  pub fits : (k size : ℕ) → device.read k reg_result_size ≡ some size → size ≤ needs.output

no_cause :
    (device : Device) (i : FpgaInterface) (c : Controller) (needs : Needs)
    → IsHealthy device c needs
    → Cause device (start_session i c) needs
    → ⊥
unfolding start_session
no_cause device i c needs h (not_initialized e) = let on = h.initialized in cc
no_cause device i c needs h (too_small e) = h.some_bytes e
no_cause device i c needs h (too_large e) = let small = h.small in absurd (omega arith)
no_cause device i c needs h (out_of_buffers e) = let room = h.room in absurd (omega arith)
no_cause device i c needs h (refused k size e) = h.grants k size e
no_cause device i c needs h (oversized k size e over) = absurd (omega (arith, h.fits k size e))

ends_well :
    {F : Type 0} (i : FpgaInterface) (n size : ℕ)
    (o : Option (Outcome (FpgaInterface × FpgaOperationResult)))
    → (F → ⊥)
    → Concludes i n size F o
    → (j : FpgaInterface) × (r : FpgaOperationResult) × (o ≡ some (done (j, r)))
ends_well i n size _ never (succeeds {j} {r} ok u total) = (j, r, refl)
ends_well i n size _ never (fails {j} {r} bad u total) = (j, r, refl)
ends_well i n size _ never (crashes f) = absurd (never f)

-- On the hardware, with enough fuel for the time-out and a clock that gains the 100 microseconds that
-- each poll sleeps, each of the three operations returns a result, a failure at worst, and never
-- leaves the defined behaviour, where the manager is initialized, the table has room for the buffers
-- of the operation, their sizes are not 0 and within the limit, the driver grants every buffer, and
-- the device reports no more bytes than the output buffer was asked for.
pub execute_returns :
    {Context : Type 0} (evp : Evp Context) (fuel : ℕ) (q : Request) (device : Device) (duration : ℕ)
    (i : FpgaInterface) (c : Controller)
    → Sleeps device
    → enough_polls ≤ fuel
    → OnHardware i c
    → IsHealthy device c (needs_of q)
    → (j : FpgaInterface) × (r : FpgaOperationResult) × (execute evp fuel q device duration i
        ≡ some (done (j, r)))
unfolding execute
execute_returns evp fuel (compresses type bytes) device duration i c sleeps enough on h =
    ends_well i _ _ _ (no_cause device i c _ h)
      (execute_compression_operation_ends device fuel duration i c type bytes sleeps enough on)
execute_returns evp fuel (frames type bytes connection number) device duration i c sleeps enough on
      h =
    ends_well i _ _ _ (no_cause device i c _ h) (
      execute_packet_operation_ends device fuel duration i c type bytes connection number sleeps
        enough on)
execute_returns evp fuel (ciphers type x) device duration i c sleeps enough on h =
    ends_well i _ _ _ (no_cause device i c _ h)
      (execute_crypto_operation_ends evp device fuel duration i c type x sleeps enough on)
