-- ===== src/Dma/Controller/Destruction.antt =====
-- SatelliteQUICProxy/interface/src/dma_controller.cpp: Controller::~Controller and synchronizeBuffer.
-- `status t e channel` answers the polls of the aborts for the transfer at position `t` of the list, made
-- in the turn of the engine at position `e`, on a channel.
use satellite_quic_proxy.Base.{
  ℕ, zero, suc, ◌+◌, ◌%◌, ◌≡◌, refl, Bool, true, false, Option, none, some, List, [], ◌∷◌, ◌++◌,
  map, All, if◌then◌else◌, u64_mod,
}
use satellite_quic_proxy.Dma.Engine.{
  DmaEngine, TransferDirection, host_to_device, device_to_host, Write, abort_loop, reg_control,
}
use satellite_quic_proxy.Dma.Controller.{Controller, PendingTransfer, Handle}

-- The aborts of the channels from number `channel` on; each of them goes over all engines.
pub abort_channels : (ℕ → ℕ → ℕ → ℕ) → ℕ → ℕ → List DmaEngine → List Write
abort_channels status zero channel engines = []
abort_channels status (suc left) channel engines =
    (abort_loop (status channel) 0 engines channel).0
    ++ abort_channels status left (channel + 1) engines

-- The loop over the engines, inside that over the transfers.
pub abort_engines : (ℕ → ℕ → ℕ → ℕ → ℕ) → ℕ → List DmaEngine → List DmaEngine → List Write
abort_engines status e [] engines = []
abort_engines status e (x ∷ xs) engines =
    abort_channels (status e) x.channel_count 0 engines ++ abort_engines status (e + 1) xs engines

pub abort_pending : (ℕ → ℕ → ℕ → ℕ → ℕ → ℕ) → ℕ → List PendingTransfer → List DmaEngine → List Write
abort_pending status t [] engines = []
abort_pending status t (p ∷ ps) engines =
    (if p.completed then [] else abort_engines (status t) 0 engines engines)
    ++ abort_pending status (t + 1) ps engines

-- DMA_CTRL_RESET
pub reset_write : DmaEngine → Write
reset_write e = record { address = (e.base_address + reg_control) % u64_mod; value = 0x04 }

-- The writes of the destructor.
pub destroy : (ℕ → ℕ → ℕ → ℕ → ℕ → ℕ) → Controller → List Write
destroy status c = abort_pending status 0 c.pending c.engines ++ map reset_write c.engines

-- The value of `syncParams.direction`.
pub sync_direction : TransferDirection → ℕ
sync_direction host_to_device = 0
sync_direction device_to_host = 1

-- `sync` tells whether IOCTL_SYNC_DMA_BUFFER succeeds for an address, a size and a direction.
pub synchronize_buffer : (ℕ → ℕ → ℕ → Bool) → Option Handle → TransferDirection → Bool
synchronize_buffer sync none direction = false
synchronize_buffer sync (some h) direction =
    sync h.buffer.virtual_address h.buffer.size (sync_direction direction)

abort_pending_completed :
    (status : ℕ → ℕ → ℕ → ℕ → ℕ → ℕ) (t : ℕ) (ps : List PendingTransfer) (engines : List DmaEngine)
    → All (λ p. p.completed ≡ true) ps
    → abort_pending status t ps engines ≡ []
unfolding abort_pending
abort_pending_completed status t [] engines h = refl
abort_pending_completed status t (p ∷ ps) engines h =
    rw h.0 (abort_pending_completed status (t + 1) ps engines h.1)

-- Where every transfer has completed, the destructor aborts nothing: it resets each engine, just once.
pub destroy_completed :
    (status : ℕ → ℕ → ℕ → ℕ → ℕ → ℕ) (c : Controller)
    → All (λ p. p.completed ≡ true) c.pending
    → destroy status c ≡ map reset_write c.engines
unfolding destroy
destroy_completed status c h = rw (abort_pending_completed status 0 c.pending c.engines h) refl
