-- ===== src/Fpga/Session.antt =====
-- SatelliteQUICProxy/proxy/src/fpga_interface.cpp: what the hardware paths of the three execute functions
-- share. A session is the inside of their `try`: register accesses by ioctl, DMA buffers, copies, and
-- exceptions. The driver, the device and the clock answer as a `Device` says.
pub mod Rules
pub mod Accesses
pub mod Allocation
pub mod Waiting
use satellite_quic_proxy.Base.{
  ℕ, zero, suc, ◌+◌, ◌*◌, ◌/◌, ◌%◌, Bool, true, false, ◌&&◌, Option, none, some, List, [], ◌∷◌,
  ◌++◌, length, ltb, ◌==◌, if◌then◌else◌, u32_mod,
}
use satellite_quic_proxy.Dma.Buffers.{Buffer, Mapping}
use satellite_quic_proxy.Dma.Controller.{Controller}
use satellite_quic_proxy.Dma.Controller
use satellite_quic_proxy.Fpga.Operation.{
  ErrorMessage, failed_to_start, failed_to_read_status, reported_error, timed_out,
  failed_to_read_processing_time, failed_to_read_error_code, failed_to_read_result_size,
  failed_with_error_code,
}

-- What the driver and the device answer. The first number of an access counts the
-- register accesses and allocations of a session so far.
pub record Device : Type 0 where
  pub write_ok : ℕ → ℕ → ℕ → Bool
  pub read : ℕ → ℕ → Option ℕ
  pub alloc : ℕ → ℕ → Option Mapping
  pub memory : ℕ → ℕ
  pub elapsed : ℕ → ℕ

-- What a session reads and changes: the descriptor, the DMA controller, the number of register accesses
-- and allocations so far, the register writes that succeeded, and the copies into DMA memory.
pub record Session : Type 0 where
  pub device_fd : Option ℕ
  pub controller : Controller
  pub accesses : ℕ
  pub writes : List (ℕ × ℕ)
  pub copies : List (ℕ × List ℕ)

-- How a part of a session ends: with a value, by an exception, by an access through a null pointer or past
-- the end of a buffer, or not within the fuel.
pub data Ended (A : Type 0) : Type 0 where
  returned : A → Session → Ended A
  raised : ErrorMessage → Session → Ended A
  fault unfinished : Ended A

abbrev pub Action : Type 0 → Type 0
Action A = Session → Ended A

abbrev pub pure : {A : Type 0} → A → Action A
pure a s = returned a s

abbrev pub raise : {A : Type 0} → ErrorMessage → Action A
raise m s = raised m s

abbrev pub bind : {A B : Type 0} → Ended A → (A → Action B) → Ended B
bind (returned a s) f = f a s
bind (raised m s) f = raised m s
bind fault f = fault
bind unfinished f = unfinished

infixl 5 ◌>>=◌ ◌>>◌
abbrev pub ◌>>=◌ : {A B : Type 0} → Action A → (A → Action B) → Action B
◌>>=◌ m f s = bind (m s) f

abbrev pub ◌>>◌ : {B : Type 0} → Action (Unit {0}) → Action B → Action B
m >> k = m >>= λ _. k

-- The registers.
abbrev pub reg_control : ℕ
reg_control = 0x00

abbrev pub reg_status : ℕ
reg_status = 0x04

abbrev pub reg_module_select : ℕ
reg_module_select = 0x08

abbrev pub reg_op_type : ℕ
reg_op_type = 0x0C

abbrev pub reg_data_addr : ℕ
reg_data_addr = 0x10

abbrev pub reg_data_size : ℕ
reg_data_size = 0x14

abbrev pub reg_key_addr : ℕ
reg_key_addr = 0x18

abbrev pub reg_key_size : ℕ
reg_key_size = 0x1C

abbrev pub reg_nonce_addr : ℕ
reg_nonce_addr = 0x20

abbrev pub reg_aad_addr : ℕ
reg_aad_addr = 0x24

abbrev pub reg_aad_size : ℕ
reg_aad_size = 0x28

abbrev pub reg_result_addr : ℕ
reg_result_addr = 0x2C

abbrev pub reg_result_size : ℕ
reg_result_size = 0x30

abbrev pub reg_connection_id_high : ℕ
reg_connection_id_high = 0x34

abbrev pub reg_connection_id_low : ℕ
reg_connection_id_low = 0x38

abbrev pub reg_packet_number : ℕ
reg_packet_number = 0x3C

abbrev pub reg_processing_time : ℕ
reg_processing_time = 0x40

abbrev pub reg_error_code : ℕ
reg_error_code = 0x44

-- STATUS_DONE and STATUS_ERROR.
unfoldable pub is_done : ℕ → Bool
is_done status = status / 2 % 2 == 1

unfoldable pub is_error : ℕ → Bool
is_error status = status / 4 % 2 == 1

abbrev pub operation_timeout_ms : ℕ
operation_timeout_ms = 5000

-- The value goes through a parameter of 32 bits.
pub write_register : Device → ℕ → ℕ → Action Bool
write_register device address value s = elim s.device_fd [
  | none ↦ returned false s
  | some fd ↦
      if device.write_ok s.accesses address (value % u32_mod)
      then returned true (record s {
        accesses = s.accesses + 1;
        writes = s.writes ++ ((address, value % u32_mod) ∷ []);
      })
      else returned false (record s { accesses = s.accesses + 1 })
]

pub read_register : Device → ℕ → Action (Option ℕ)
read_register device address s = elim s.device_fd [
  | none ↦ returned none s
  | some fd ↦ returned (device.read s.accesses address) (record s { accesses = s.accesses + 1 })
]

-- `if (!m) throw std::runtime_error(message)`
pub require : Action Bool → ErrorMessage → Action (Unit {0})
require m message = do ok ← m; if ok then pure tt else raise message

-- `!m || ...`: the next access is made where this one went well.
pub and_then : Action Bool → Action Bool → Action Bool
and_then m next = do ok ← m; if ok then next else pure false

pub or_raise : Action (Option ℕ) → ErrorMessage → Action ℕ
or_raise m message = do answer ← m; elim answer [ none ↦ raise message | some value ↦ pure value ]

-- `m_dmaController->allocateBuffer(size)`, one ioctl; `none` is the null pointer.
pub allocate : Device → ℕ → Action (Option Buffer)
allocate device size s =
    let (controller, buffer) =
      Controller.allocate_buffer (device.alloc s.accesses) s.controller size in
    returned buffer (record s { controller = controller; accesses = s.accesses + 1 })

-- An access through a pointer to a buffer.
pub deref : Option Buffer → Action Buffer
deref none s = fault
deref (some b) s = returned b s

-- `memcpy` into a buffer: past its end it leaves the defined behaviour.
pub copy_in : Option Buffer → List ℕ → Action (Unit {0})
copy_in buffer bytes = do
  b ← deref buffer
  λ s.
      if ltb b.size (length bytes)
      then fault
      else returned tt (record s { copies = s.copies ++ ((b.virtual_address, bytes) ∷ []) })

pub write_address : Device → ℕ → Option Buffer → Action Bool
write_address device address buffer = do
  b ← deref buffer
  write_register device address b.physical_address

pub write_size : Device → ℕ → Option Buffer → Action Bool
write_size device address buffer = do b ← deref buffer; write_register device address b.size

-- The polls of the status register from number `k` on: `device.elapsed k` is the number of
-- milliseconds since the start at that poll.
pub wait_until_done : Device → ℕ → ℕ → Action ℕ
wait_until_done device zero k = λ s. unfinished
wait_until_done device (suc fuel) k = do
  status ← or_raise (read_register device reg_status) failed_to_read_status
  elim (is_done status) [
    | true ↦ pure status
    | false ↦ elim (is_error status) [
      | true ↦ raise reported_error
      | false ↦ elim (ltb operation_timeout_ms (device.elapsed k)) [
        | true ↦ raise timed_out
        | false ↦ wait_until_done device fuel (k + 1)
      ]
    ]
  ]

-- `result.data` from the memory of a buffer, from an address on.
pub bytes_at : Device → ℕ → ℕ → List ℕ
bytes_at device zero address = []
bytes_at device (suc n) address = device.memory address ∷ bytes_at device n (address + 1)

pub copy_out : Device → Option Buffer → ℕ → Action (List ℕ)
copy_out device buffer size = do
  b ← deref buffer
  if ltb b.size size then (λ s. fault) else pure (bytes_at device size b.virtual_address)

-- The check of the error bit behind the polls: the device may report an end and an error at once.
pub check_error : Device → ℕ → Action (Unit {0})
check_error device status =
    if is_error status
    then (do
      code ← or_raise (read_register device reg_error_code) failed_to_read_error_code
      raise (failed_with_error_code code))
    else pure tt

-- From CTRL_START to the result: its bytes, and the processing time in microseconds.
pub run_started : Device → ℕ → Option Buffer → Action (List ℕ × ℕ)
run_started device fuel output = do
  require (write_register device reg_control 1) failed_to_start
  status ← wait_until_done device fuel 0
  time ← or_raise (read_register device reg_processing_time) failed_to_read_processing_time
  check_error device status
  size ← or_raise (read_register device reg_result_size) failed_to_read_result_size
  bytes ← copy_out device output size
  pure (bytes, time)
