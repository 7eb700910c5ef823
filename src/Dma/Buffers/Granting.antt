-- ===== src/Dma/Buffers/Granting.antt =====
-- What a call of allocateBuffer of the manager leaves, granted or refused.
use satellite_quic_proxy.Base.{
  ℕ, ◌+◌, ◌≤◌, ◌≡◌, refl, ap, ◌⊎◌, inl, inr, true, false, Option, none, some, [], ◌∷◌, length,
  length-append, arith, u64_mod, Option-cases, Bool-cases, leb, ◌==◌,
}
use satellite_quic_proxy.Dma.Buffers.{
  Buffer, BufferInfo, to_buffer, BufferManager, Mapping, max_dma_buffers, dma_buffer_alignment,
  align, allocate_physical_buffer, track, allocate_buffer,
}
use satellite_quic_proxy.Dma.Buffers.Laws.{allocate_size}

-- Why there is no buffer.
pub data Refusal (alloc : ℕ → Option Mapping) (m : BufferManager) (size : ℕ) : Type 0 where
  uninitialized : m.initialized ≡ false → Refusal alloc m size
  no_bytes : size ≡ 0 → Refusal alloc m size
  table_full : max_dma_buffers ≤ length m.buffers → Refusal alloc m size
  driver_refused : alloc (align size) ≡ none → Refusal alloc m size

-- What a granted buffer is, and the table with it.
pub record Grant (m : BufferManager) (size : ℕ) (b : Buffer) (m' : BufferManager) : Type 0 where
  pub initialized : m'.initialized ≡ m.initialized
  pub counted : length m'.buffers ≡ length m.buffers + 1
  pub bounded : length m'.buffers ≤ max_dma_buffers
  pub holds : size ≤ b.size

physical_cases :
    (alloc : ℕ → Option Mapping) (size id : ℕ)
    → ((allocate_physical_buffer alloc size id ≡ none) × (alloc size ≡ none))
      ⊎ ((i : BufferInfo) × (allocate_physical_buffer alloc size id ≡ some i))
unfolding allocate_physical_buffer
physical_cases alloc size id = elim (Option-cases (alloc size)) [
  | inl no_ ↦ inl (rw (no_, allocate_physical_buffer), no_)
  | inr h ↦ inr (
    record {
      virtual_address = h.0.virtual_address;
      physical_address = h.0.physical_address;
      device_address = h.0.device_address;
      size = size;
      id = id;
      allocated = true;
    },
    rw (h.1, allocate_physical_buffer),
  )
]

pub allocate_buffer_cases :
    (alloc : ℕ → Option Mapping) (m : BufferManager) (size : ℕ)
    → size + dma_buffer_alignment ≤ u64_mod
    → ((allocate_buffer alloc m size ≡ (m, none)) × Refusal alloc m size)
      ⊎ ((m' : BufferManager) × (b : Buffer) × (allocate_buffer alloc m size ≡ (m', some b))
          × Grant m size b m')
unfolding allocate_buffer track
allocate_buffer_cases alloc m size fits = elim (Bool-cases m.initialized) [
  | inr off ↦ inl (ground arith, uninitialized off)
  | inl on ↦ elim (Bool-cases (size == 0)) [
    | inl nil ↦ inl (ground arith, no_bytes (ground arith))
    | inr some_ ↦ elim (Bool-cases (leb max_dma_buffers (length m.buffers))) [
      | inl full ↦ inl (ground arith, table_full (ground arith))
      | inr room ↦ elim (physical_cases alloc (align size) m.next_buffer_id) [
        | inl no_ ↦ inl (simp (on, some_, room, no_.0) refl, driver_refused no_.1)
        | inr (i, granted) ↦
            let e : allocate_buffer alloc m size ≡ track m (some i) =
              simp (on, some_, room, granted) refl in
            inr (
              (track m (some i)).0,
              to_buffer i,
              e,
              record {
                initialized = refl;
                counted = length-append {0} m.buffers (i ∷ []);
                bounded = let n = length-append {0} m.buffers (i ∷ []) in ground arith;
                holds =
                    (allocate_size alloc m size (to_buffer i) fits
                      (ap (λ (r : BufferManager × Option Buffer). r.1) e)).0;
              },
            )
      ]
    ]
  ]
]
