-- ===== src/Dma/Engine.antt =====
-- SatelliteQUICProxy/interface/src/dma_controller.{h,cpp}: the DMA engines and their registers.
-- The hardware is a parameter: a read of a register is answered by a function of its address, and
-- of the number of the read where a loop polls. A write is an address and a 32-bit value; the
-- functions return the writes that they make, in order.
mod Tests
pub mod Waiting
pub mod Programming
pub mod Idle
use mathlib.Core.Option
use satellite_quic_proxy.Base.{
  set, resize, ℕ, zero, suc, ◌+◌, ◌*◌, ◌/◌, ◌%◌, Bool, true, false, Option, none, some, List, [],
  ◌∷◌, ◌++◌, get_elem?, ltb, ◌==◌, if◌then◌else◌, u32_mod, u64_mod,
}
use satellite_quic_proxy.Base.Outcome.{Outcome, done, fault}
use satellite_quic_proxy.Dma.Buffers.{Buffer}

pub data TransferDirection : Type 0 where
  host_to_device device_to_host : TransferDirection

-- Controller::DMAEngine
pub record DmaEngine : Type 0 where
  pub base_address : ℕ
  pub channel_count : ℕ
  pub busy : Bool

pub record Write : Type 0 where
  pub address : ℕ
  pub value : ℕ

-- The address of a register of a channel; channels are 256 bytes apart.
unfoldable pub channel_reg : DmaEngine → ℕ → ℕ → ℕ
channel_reg e channel offset = (e.base_address + channel * 0x100 % u32_mod + offset) % u64_mod

abbrev pub reg_control : ℕ
reg_control = 0x00

abbrev pub reg_status : ℕ
reg_status = 0x04

abbrev pub reg_src_addr_low : ℕ
reg_src_addr_low = 0x08

abbrev pub reg_src_addr_high : ℕ
reg_src_addr_high = 0x0C

abbrev pub reg_dst_addr_low : ℕ
reg_dst_addr_low = 0x10

abbrev pub reg_dst_addr_high : ℕ
reg_dst_addr_high = 0x14

abbrev pub reg_transfer_size : ℕ
reg_transfer_size = 0x18

abbrev pub reg_transfer_id : ℕ
reg_transfer_id = 0x1C

abbrev pub reg_transferred_bytes : ℕ
reg_transferred_bytes = 0x20

-- The bits of the status register: 0x1 busy, 0x2 done, 0x4 error.
unfoldable pub is_busy : ℕ → Bool
is_busy status = status % 2 == 1

unfoldable pub is_done : ℕ → Bool
is_done status = status / 2 % 2 == 1

unfoldable pub is_error : ℕ → Bool
is_error status = status / 4 % 2 == 1

-- `while ((*statusReg & BUSY) && timeout-- > 0) sleep;` over the answers to the reads from number `k`
-- on. The value is what is left of `timeout`; 0 stands for -1 too, since only `timeout <= 0` is asked.
pub wait_while_busy : ℕ → (ℕ → ℕ) → ℕ → ℕ
wait_while_busy zero status k = 0
wait_while_busy (suc timeout) status k = elim (is_busy (status k)) [
  | true ↦ wait_while_busy timeout status (k + 1)
  | false ↦ suc timeout
]

-- The wait of setupDMAEngines and abortDMATransfer, of 1000 rounds.
pub wait_idle : (ℕ → ℕ) → Bool
wait_idle status = ltb 0 (wait_while_busy 1000 status 0)

-- MAX_DMA_ENGINES
abbrev pub max_dma_engines : ℕ
max_dma_engines = 4

-- The answer of IOCTL_GET_DMA_INFO: `count`, and the entries of an array by their positions, of which
-- those below MAX_DMA_ENGINES are in the array.
pub record DmaInfo : Type 0 where
  pub count : ℕ
  pub engines : ℕ → ℕ × ℕ

-- What setupDMAEngines leaves: the engines, the writes made, and what it returns.
pub record Setup : Type 0 where
  pub engines : List DmaEngine
  pub writes : List Write
  pub ok : Bool

abbrev pub blank_engine : DmaEngine
blank_engine = record { base_address = 0; channel_count = 0; busy = false }

-- One round of the loop: the fields of an engine are set, and it is reset (DMA_CTRL_RESET).
pub reset_engine : ℕ → ℕ × ℕ → List DmaEngine × List Write → List DmaEngine × List Write
reset_engine i (base, channels) (engines, writes) = (
  set engines i (record { base_address = base; channel_count = channels; busy = false }),
  writes ++ (record { address = (base + reg_control) % u64_mod; value = 0x04 } ∷ []),
)

-- The loop of setupDMAEngines, with `left` rounds to go from engine `i` on. `status i` answers the
-- reads of the status register of engine `i`. A read past the array leaves the defined behaviour.
pub setup_loop : ℕ → ℕ → (ℕ → ℕ × ℕ) → (ℕ → ℕ → ℕ) → List DmaEngine × List Write → Outcome Setup
unfolding reset_engine
setup_loop zero i infos status (engines, writes) =
    done (record { engines = engines; writes = writes; ok = true })
setup_loop (suc left) i infos status s = elim (ltb i max_dma_engines) [
  | false ↦ fault
  | true ↦ elim (wait_idle (status i)) [
    | true ↦ setup_loop left (i + 1) infos status (reset_engine i (infos i) s)
    | false ↦ done (record {
      engines = (reset_engine i (infos i) s).0;
      writes = (reset_engine i (infos i) s).1;
      ok = false;
    })
  ]
]

-- setupDMAEngines on the engines that the controller has; `none` is a failed ioctl.
unfoldable pub setup_dma_engines : Option DmaInfo → (ℕ → ℕ → ℕ) → List DmaEngine → Outcome Setup
setup_dma_engines none status old = done (record { engines = old; writes = []; ok = false })
setup_dma_engines (some info) status old =
    if info.count == 0
    then done (record { engines = old; writes = []; ok = false })
    else setup_loop info.count 0 info.engines status (resize info.count blank_engine old, [])

-- getAvailableDMAEngine: the position of the first idle engine, and the engines with it busy.
unfoldable pub get_available_engine : List DmaEngine → Option (ℕ × List DmaEngine)
get_available_engine [] = none
get_available_engine (e ∷ es) =
    if e.busy
    then Option.map (λ r. (suc r.0, e ∷ r.1)) (get_available_engine es)
    else some (0, record e { busy = true } ∷ es)

-- `engine->busy.store(false)` through a pointer to the engine at a position.
unfoldable pub set_idle : ℕ → List DmaEngine → List DmaEngine
set_idle i [] = []
set_idle zero (e ∷ es) = record e { busy = false } ∷ es
set_idle (suc i) (e ∷ es) = e ∷ set_idle i es

abbrev low32 : ℕ → ℕ
low32 x = x % u32_mod

abbrev high32 : ℕ → ℕ
high32 x = x / u32_mod % u32_mod

source : TransferDirection → Buffer → ℕ
source host_to_device b = b.physical_address
source device_to_host b = b.device_address

destination : TransferDirection → Buffer → ℕ
destination host_to_device b = b.device_address
destination device_to_host b = b.physical_address

-- DMA_CTRL_START | DMA_CTRL_IRQ_EN, and DMA_CTRL_DIR_D2H for the way back.
control_value : TransferDirection → ℕ
control_value host_to_device = 0x09
control_value device_to_host = 0x19

-- The register writes of startDMATransfer on one engine.
unfoldable pub program_engine : DmaEngine → ℕ → Buffer → ℕ → TransferDirection → ℕ → List Write
unfolding source destination control_value
program_engine e channel b size dir transfer_id =
    (at reg_src_addr_low (low32 (source dir b)))
    ∷ (at reg_src_addr_high (high32 (source dir b)))
    ∷ (at reg_dst_addr_low (low32 (destination dir b)))
    ∷ (at reg_dst_addr_high (high32 (destination dir b)))
    ∷ (at reg_transfer_size (low32 size))
    ∷ (at reg_transfer_id transfer_id)
    ∷ (at reg_control (control_value dir))
    ∷ []
  where
    at : ℕ → ℕ → Write
    at offset value = record { address = channel_reg e channel offset; value = value }

-- checkDMATransferComplete: `some bytes` where it returns true. The first engine that shows an error
-- or the end of a transfer answers for all.
unfoldable pub check_complete : (ℕ → ℕ) → List DmaEngine → ℕ → Option ℕ
check_complete read [] channel = none
check_complete read (e ∷ es) channel =
    let status = read (channel_reg e channel reg_status) in
    if is_error status
    then some 0
    else if is_done status
    then some (read (channel_reg e channel reg_transferred_bytes))
    else check_complete read es channel

-- abortDMATransfer: the writes, and what it returns. `status i` answers the polls of engine `i`.
pub abort_loop : (ℕ → ℕ → ℕ) → ℕ → List DmaEngine → ℕ → List Write × Bool
abort_loop status i [] channel = ([], true)
abort_loop status i (e ∷ es) channel =
    let (writes, ok) = abort_loop status (i + 1) es channel in
    if wait_idle (status i) then (abort ∷ writes, ok) else (abort ∷ [], false)
  where
    abort : Write
    abort = record { address = channel_reg e channel reg_control; value = 0x02 }
