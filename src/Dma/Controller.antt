-- ===== src/Dma/Controller.antt =====
-- SatelliteQUICProxy/interface/src/dma_controller.{h,cpp}: transfers.
-- `polls k` answers the register reads of the k-th poll of a transfer. The blocking loop has no
-- timeout of its own, so it takes fuel, and `none` means that no poll within it showed an end.
-- A shared pointer to a buffer is a handle: the buffer with the identity of the pointer.
mod Tests
pub mod Ending
pub mod Leak
pub mod Pending
pub mod Errors
pub mod Granting
pub mod Destruction
use mathlib.Core.Option
use satellite_quic_proxy.Base.{
  ℕ, zero, suc, ◌+◌, ◌*◌, ◌%◌, Bool, true, false, ◌&&◌, ◌||◌, not, Option, none, some, List, [],
  ◌∷◌, ◌++◌, get_elem?, ltb, leb, ◌==◌, if◌then◌else◌, u32_mod,
}
use satellite_quic_proxy.Dma.Buffers.{Buffer, BufferManager, Mapping}
use satellite_quic_proxy.Dma.Buffers
use satellite_quic_proxy.Base.Outcome.{Outcome, done, fault}
use satellite_quic_proxy.Dma.Engine.{
  DmaEngine, DmaInfo, TransferDirection, Write, Setup, get_available_engine, set_idle,
  program_engine, check_complete, setup_dma_engines,
}

pub data TransferType : Type 0 where
  blocking non_blocking : TransferType

pub data Message : Type 0 where
  no_message invalid_buffer_or_size transfer_size_out_of_range no_available_dma_engines : Message
  failed_to_start invalid_buffer no_pending_transfer timeout_waiting : Message

pub record TransferResult : Type 0 where
  pub success : Bool
  pub bytes_transferred : ℕ
  pub error_code : ℕ
  pub error_message : Message

pub record Handle : Type 0 where
  pub pointer : ℕ
  pub buffer : Buffer

-- Controller::PendingTransfer; of the callback only its presence matters.
pub record PendingTransfer : Type 0 where
  pub buffer : Handle
  pub size : ℕ
  pub direction : TransferDirection
  pub callback : Bool
  pub completed : Bool
  pub result : TransferResult

-- Controller, with the static counter of startDMATransfer and the register writes made so far.
pub record Controller : Type 0 where
  pub manager : BufferManager
  pub engines : List DmaEngine
  pub pending : List PendingTransfer
  pub next_transfer_id : ℕ
  pub writes : List Write

abbrev pub min_dma_transfer_size : ℕ
min_dma_transfer_size = 64

abbrev pub max_dma_transfer_size : ℕ
max_dma_transfer_size = 16 * 1024 * 1024

abbrev pub failed : Message → TransferResult
failed m = record { success = false; bytes_transferred = 0; error_code = 0; error_message = m }

abbrev pub succeeded : ℕ → TransferResult
succeeded n = record {
  success = true;
  bytes_transferred = n;
  error_code = 0;
  error_message = no_message;
}

unfoldable pub new : Option ℕ → Controller
new fd = record {
  manager = Buffers.new fd;
  engines = [];
  pending = [];
  next_transfer_id = 1;
  writes = [];
}

unfoldable pub with_engines : Controller → Outcome Setup → Outcome (Controller × Bool)
with_engines c fault = fault
with_engines c (done s) =
    done (record c { engines = s.engines; writes = c.writes ++ s.writes }, s.ok)

unfoldable pub initialize : Option DmaInfo → (ℕ → ℕ → ℕ) → Controller → Outcome (Controller × Bool)
unfolding with_engines
initialize info status c =
    let (manager, ok) = Buffers.initialize c.manager in
    let c' = record c { manager = manager } in
    if ok then with_engines c' (setup_dma_engines info status c.engines) else done (c', false)

pub allocate_buffer : (ℕ → Option Mapping) → Controller → ℕ → Controller × Option Buffer
allocate_buffer alloc c size =
    if size == 0 || ltb max_dma_transfer_size size
    then (c, none)
    else let (manager, b) = Buffers.allocate_buffer alloc c.manager size in
      (record c { manager = manager }, b)

-- startDMATransfer takes an idle engine of its own; the value is `none` where it returns false.
pub start_transfer : Controller → Buffer → ℕ → TransferDirection → ℕ → Option Controller
start_transfer c b size dir channel = elim (get_available_engine c.engines) [
  | none ↦ none
  | some (j, engines) ↦ elim (get_elem? engines j) [
    | none ↦ none
    | some e ↦ some (record c {
      engines = engines;
      writes = c.writes ++ program_engine e channel b size dir c.next_transfer_id;
      next_transfer_id = (c.next_transfer_id + 1) % u32_mod;
    })
  ]
]

-- `while (true) { if (checkDMATransferComplete(...)) break; sleep; }`
pub poll_loop : ℕ → (ℕ → ℕ → ℕ) → ℕ → List DmaEngine → ℕ → Option ℕ
poll_loop zero polls k engines channel = none
poll_loop (suc fuel) polls k engines channel = elim (check_complete (polls k) engines channel) [
  | none ↦ poll_loop fuel polls (k + 1) engines channel
  | some bytes ↦ some bytes
]

-- What a call of `transfer` leaves: its result, the controller, and for a transfer that goes on in a
-- thread the engine that the thread will mark as idle.
pub record Transferred : Type 0 where
  pub result : TransferResult
  pub controller : Controller
  pub thread_engine : Option ℕ

abbrev pub returns : TransferResult → Controller → Transferred
returns r c = record { result = r; controller = c; thread_engine = none }

abbrev pub release_engine : ℕ → Controller → Controller
release_engine i c = record c { engines = set_idle i c.engines }

abbrev pub pending_for : Handle → ℕ → TransferDirection → Bool → PendingTransfer
pending_for h size dir callback = record {
  buffer = h;
  size = size;
  direction = dir;
  callback = callback;
  completed = false;
  result = failed no_message;
}

-- The part of `transfer` behind startDMATransfer; `i` is the engine that `transfer` itself took.
pub run_started :
    ℕ
    → (ℕ → ℕ → ℕ)
    → Controller
    → ℕ
    → Handle
    → ℕ
    → TransferDirection
    → TransferType
    → Bool
    → Option Transferred
run_started fuel polls c i h size dir blocking callback =
    Option.map (λ bytes. returns (succeeded bytes) (release_engine i c))
      (poll_loop fuel polls 0 c.engines 0)
run_started fuel polls c i h size dir non_blocking callback = some (record {
  result = succeeded 0;
  controller = record c { pending = c.pending ++ (pending_for h size dir callback ∷ []) };
  thread_engine = some i;
})

-- The part behind the checks of the parameters.
pub run_transfer :
    ℕ
    → (ℕ → ℕ → ℕ)
    → Controller
    → Handle
    → ℕ
    → TransferDirection
    → TransferType
    → Bool
    → Option Transferred
run_transfer fuel polls c h size dir type callback = elim (get_available_engine c.engines) [
  | none ↦ some (returns (failed no_available_dma_engines) c)
  | some (i, engines) ↦ elim (start_transfer (record c { engines = engines }) h.buffer size dir 0) [
    | none ↦ some (returns (failed failed_to_start) (record c { engines = set_idle i engines }))
    | some c' ↦ run_started fuel polls c' i h size dir type callback
  ]
]

pub transfer :
    ℕ
    → (ℕ → ℕ → ℕ)
    → Controller
    → Option Handle
    → ℕ
    → TransferDirection
    → TransferType
    → Bool
    → Option Transferred
transfer fuel polls c none size dir type callback = some (returns (failed invalid_buffer_or_size) c)
transfer fuel polls c (some h) size dir type callback =
    if size == 0 || ltb h.buffer.size size
    then some (returns (failed invalid_buffer_or_size) c)
    else if ltb size min_dma_transfer_size || ltb max_dma_transfer_size size
    then some (returns (failed transfer_size_out_of_range) c)
    else run_transfer fuel polls c h size dir type callback

-- The first pending transfer of a buffer.
pub find_pending : ℕ → List PendingTransfer → Option PendingTransfer
find_pending pointer [] = none
find_pending pointer (p ∷ ps) =
    if p.buffer.pointer == pointer then some p else find_pending pointer ps

-- The loop of the detached thread over the list, and what it hands to the callback.
pub complete_first :
    ℕ → TransferResult → List PendingTransfer → List PendingTransfer × Option TransferResult
complete_first pointer r [] = ([], none)
complete_first pointer r (p ∷ ps) =
    let (rest, called) = complete_first pointer r ps in
    if p.buffer.pointer == pointer && not p.completed
    then (record p { completed = true; result = r } ∷ ps, if p.callback then some r else none)
    else (p ∷ rest, called)

-- The detached thread of a non-blocking transfer, from its first poll to its end.
pub run_thread :
    ℕ → (ℕ → ℕ → ℕ) → Controller → Handle → ℕ → Option (Controller × Option TransferResult)
run_thread fuel polls c h i = elim (poll_loop fuel polls 0 c.engines 0) [
  | none ↦ none
  | some bytes ↦
      let (pending, called) = complete_first h.pointer (succeeded bytes) c.pending in
      some (record c { engines = set_idle i c.engines; pending = pending }, called)
]

pub is_transfer_complete : Controller → Option Handle → Bool
is_transfer_complete c none = false
is_transfer_complete c (some h) = elim (find_pending h.pointer c.pending) [
  | none ↦ true
  | some p ↦ p.completed
]

-- The loop of waitForTransfer: `view k` is the pending transfer as round `k` sees it, `elapsed k` the
-- milliseconds since the start. `none` means that the fuel ran out.
pub wait_loop : ℕ → (ℕ → PendingTransfer) → (ℕ → ℕ) → ℕ → ℕ → Option TransferResult
wait_loop zero view elapsed timeout k = none
wait_loop (suc fuel) view elapsed timeout k = elim (view k).completed [
  | true ↦ some (view k).result
  | false ↦ elim (ltb 0 timeout && leb timeout (elapsed k)) [
    | true ↦ some (failed timeout_waiting)
    | false ↦ wait_loop fuel view elapsed timeout (k + 1)
  ]
]

pub wait_for_transfer :
    ℕ → (ℕ → PendingTransfer) → (ℕ → ℕ) → Controller → Option Handle → ℕ → Option TransferResult
wait_for_transfer fuel view elapsed c none timeout = some (failed invalid_buffer)
wait_for_transfer fuel view elapsed c (some h) timeout = elim (find_pending h.pointer c.pending) [
  | none ↦ some (failed no_pending_transfer)
  | some p ↦ elim p.completed [
    | true ↦ some p.result
    | false ↦ wait_loop fuel view elapsed timeout 0
  ]
]
