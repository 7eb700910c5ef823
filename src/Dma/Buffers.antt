-- ===== src/Dma/Buffers.antt =====
-- SatelliteQUICProxy/interface/src/buffer_manager.{h,cpp}: the table of DMA buffers.
-- The driver behind `ioctl` is a parameter: `alloc` answers IOCTL_ALLOC_DMA_BUFFER for a size, and
-- `free` tells for an address and a size whether IOCTL_FREE_DMA_BUFFER succeeds. An address is a
-- number, and 0 is the null pointer; a descriptor is `none` where the source has a negative one.
mod Tests
pub mod Invariant
pub mod Laws
pub mod Granting
use satellite_quic_proxy.Base.{
  ℕ, ◌+◌, ◌-◌, ◌*◌, ◌/◌, ◌%◌, Bool, true, false, ◌&&◌, ◌||◌, not, Option, none, some, List, [], ◌∷◌,
  ◌++◌, length, leb, ◌==◌, if◌then◌else◌, u32_mod, u64_mod, map,
}

-- Buffer
pub record Buffer : Type 0 where
  pub virtual_address : ℕ
  pub physical_address : ℕ
  pub device_address : ℕ
  pub size : ℕ
  pub id : ℕ

-- BufferManager::BufferInfo
pub record BufferInfo : Type 0 where
  pub virtual_address : ℕ
  pub physical_address : ℕ
  pub device_address : ℕ
  pub size : ℕ
  pub id : ℕ
  pub allocated : Bool

-- BufferManager; the mutex is held for the whole of each call.
pub record BufferManager : Type 0 where
  pub device_fd : Option ℕ
  pub initialized : Bool
  pub next_buffer_id : ℕ
  pub buffers : List BufferInfo
  pub total_allocated_memory : ℕ

-- What the driver writes back for an allocation.
pub record Mapping : Type 0 where
  pub virtual_address : ℕ
  pub physical_address : ℕ
  pub device_address : ℕ

abbrev pub dma_buffer_alignment : ℕ
dma_buffer_alignment = 4096

abbrev pub max_dma_buffers : ℕ
max_dma_buffers = 64

unfoldable pub new : Option ℕ → BufferManager
new fd = record {
  device_fd = fd;
  initialized = false;
  next_buffer_id = 1;
  buffers = [];
  total_allocated_memory = 0;
}

unfoldable pub init_with : Option ℕ → BufferManager → BufferManager × Bool
init_with none m = (m, false)
init_with (some fd) m = (record m { initialized = true }, true)

unfoldable pub initialize : BufferManager → BufferManager × Bool
initialize m = if m.initialized then (m, true) else init_with m.device_fd m

-- `(size + 4096 - 1) & ~4095` on a 64-bit size_t: the sum wraps, and the mask clears 12 bits.
pub align : ℕ → ℕ
align size =
    (size + dma_buffer_alignment - 1) % u64_mod / dma_buffer_alignment * dma_buffer_alignment

-- allocatePhysicalBuffer, with the identifier and the flag that allocateBuffer then fills in.
pub allocate_physical_buffer : (ℕ → Option Mapping) → ℕ → ℕ → Option BufferInfo
allocate_physical_buffer alloc size id = elim (alloc size) [
  | none ↦ none
  | some p ↦ some (record {
    virtual_address = p.virtual_address;
    physical_address = p.physical_address;
    device_address = p.device_address;
    size = size;
    id = id;
    allocated = true;
  })
]

pub to_buffer : BufferInfo → Buffer
to_buffer i = record {
  virtual_address = i.virtual_address;
  physical_address = i.physical_address;
  device_address = i.device_address;
  size = i.size;
  id = i.id;
}

pub track : BufferManager → Option BufferInfo → BufferManager × Option Buffer
unfolding to_buffer
track m none = (m, none)
track m (some i) = (
  record m {
    next_buffer_id = (m.next_buffer_id + 1) % u32_mod;
    buffers = m.buffers ++ (i ∷ []);
    total_allocated_memory = (m.total_allocated_memory + i.size) % u64_mod;
  },
  some (to_buffer i),
)

-- `none` is the null pointer.
pub allocate_buffer : (ℕ → Option Mapping) → BufferManager → ℕ → BufferManager × Option Buffer
allocate_buffer alloc m size =
    if not m.initialized || size == 0 || leb max_dma_buffers (length m.buffers)
    then (m, none)
    else track m (allocate_physical_buffer alloc (align size) m.next_buffer_id)

-- freePhysicalBuffer: the record as it is left, and whether it was freed.
pub free_physical_buffer : (ℕ → ℕ → Bool) → BufferInfo → BufferInfo × Bool
free_physical_buffer free i =
    if not i.allocated || i.virtual_address == 0 || not (free i.virtual_address i.size)
    then (i, false)
    else (
      record i { virtual_address = 0; physical_address = 0; device_address = 0; allocated = false },
      true,
    )

-- The `find_if` of freeBuffer.
pub find : ℕ → List BufferInfo → Option BufferInfo
find id [] = none
find id (i ∷ is) = if i.allocated && i.id == id then some i else find id is

-- `m_buffers.erase(it)`, at the position that `find` stops at.
pub erase : ℕ → List BufferInfo → List BufferInfo
erase id [] = []
erase id (i ∷ is) = if i.allocated && i.id == id then is else i ∷ erase id is

pub release : (ℕ → ℕ → Bool) → BufferManager → ℕ → Option BufferInfo → BufferManager × Bool
release free m id none = (m, false)
release free m id (some i) =
    if (free_physical_buffer free i).1
    then (
      record m {
        buffers = erase id m.buffers;
        total_allocated_memory = (m.total_allocated_memory + u64_mod - i.size) % u64_mod;
      },
      true,
    )
    else (m, false)

pub free_buffer : (ℕ → ℕ → Bool) → BufferManager → Option Buffer → BufferManager × Bool
free_buffer free m none = (m, false)
free_buffer free m (some b) =
    if m.initialized then release free m b.id (find b.id m.buffers) else (m, false)

pub get_allocated_buffer_count : BufferManager → ℕ
get_allocated_buffer_count m = length m.buffers

pub get_total_allocated_memory : BufferManager → ℕ
get_total_allocated_memory m = m.total_allocated_memory

-- One call on the manager, with the answers that the driver gives to it.
pub data Call : Type 0 where
  allocates : (ℕ → Option Mapping) → ℕ → Call
  frees : (ℕ → ℕ → Bool) → Option Buffer → Call

pub step : BufferManager → Call → BufferManager
step m (allocates alloc size) = (allocate_buffer alloc m size).0
step m (frees free b) = (free_buffer free m b).0

pub run : BufferManager → List Call → BufferManager
run m [] = m
run m (c ∷ cs) = run (step m c) cs

-- The records as ~BufferManager leaves them.
pub destroy : (ℕ → ℕ → Bool) → BufferManager → List BufferInfo
unfolding free_physical_buffer
destroy free m = map (λ i. if i.allocated then (free_physical_buffer free i).0 else i) m.buffers
