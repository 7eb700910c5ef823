-- ===== src/Dma/Buffers/Tests.antt =====
-- Examples of the buffer table: a manager that has just been initialized, and one with one buffer.
use satellite_quic_proxy.Base.{ℕ, ◌≡◌, refl, Bool, true, Option, some, [], ◌∷◌, arith}
use satellite_quic_proxy.Dma.Buffers.{
  init_with, Buffer, BufferManager, Mapping, init_with, new, initialize, align, allocate_buffer,
  allocate_physical_buffer, track, to_buffer, free_buffer, allocates, frees, run,
}
use satellite_quic_proxy.Dma.Buffers.Invariant.{IsValid, run-IsValid}
use satellite_quic_proxy.Dma.Buffers.Laws.{free-allocate}

abbrev mapping : Mapping
mapping = record { virtual_address = 0x7000; physical_address = 0x9000; device_address = 0x100 }

abbrev grants : ℕ → Option Mapping
grants size = some mapping

abbrev frees_all : ℕ → ℕ → Bool
frees_all address size = true

abbrev ready : BufferManager
ready = record {
  device_fd = some 3;
  initialized = true;
  next_buffer_id = 1;
  buffers = [];
  total_allocated_memory = 0;
}

initialize-new : initialize (new (some 3)) ≡ (ready, true)
unfolding initialize new init_with
initialize-new = refl

ready-IsValid : IsValid ready
ready-IsValid = record { bounded = omega arith; live = tt; accounted = refl; ordered = omega arith }

abbrev first : Buffer
first = record {
  virtual_address = 0x7000;
  physical_address = 0x9000;
  device_address = 0x100;
  size = 4096;
  id = 1;
}

abbrev holding : BufferManager
holding = record ready {
  next_buffer_id = 2;
  buffers =
      (record {
        virtual_address = 0x7000;
        physical_address = 0x9000;
        device_address = 0x100;
        size = 4096;
        id = 1;
        allocated = true;
      })
      ∷ [];
  total_allocated_memory = 4096;
}

allocate_first : allocate_buffer grants ready 100 ≡ (holding, some first)
unfolding allocate_buffer allocate_physical_buffer track to_buffer align
allocate_first = refl

run-IsValid_example :
    IsValid
      (run ready (allocates grants 100 ∷ frees frees_all (some first) ∷ allocates grants 1 ∷ []))
run-IsValid_example =
    run-IsValid (allocates grants 100 ∷ frees frees_all (some first) ∷ allocates grants 1 ∷ [])
      ready ready-IsValid (omega arith)

free-allocate_example :
    free_buffer frees_all holding (some first) ≡ (record ready { next_buffer_id = 2 }, true)
free-allocate_example =
    free-allocate grants frees_all ready holding 100 first ready-IsValid (omega arith)
      allocate_first (omega arith) refl
