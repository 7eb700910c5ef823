-- ===== src/Dma/Controller/Granting.antt =====
-- What a call of allocateBuffer of the controller leaves, granted or refused.
use satellite_quic_proxy.Base.{
  ℕ, ◌<◌, ◌≡◌, refl, ◌⊎◌, inl, inr, Option, none, some, arith, Bool-cases, ltb, ◌==◌,
}
use satellite_quic_proxy.Dma.Buffers.{Buffer, BufferManager, Mapping}
use satellite_quic_proxy.Dma.Buffers.Granting.{Refusal, no_bytes, Grant, allocate_buffer_cases}
use satellite_quic_proxy.Dma.Controller.{Controller, max_dma_transfer_size, allocate_buffer}

-- A refusal leaves the controller as it was, and a grant changes only the table of buffers.
pub allocate_buffer_cases_lem :
    (alloc : ℕ → Option Mapping) (c : Controller) (size : ℕ)
    → ((allocate_buffer alloc c size ≡ (c, none))
        × ((max_dma_transfer_size < size) ⊎ Refusal alloc c.manager size))
      ⊎ ((m : BufferManager) × (b : Buffer) × (allocate_buffer alloc c size
            ≡ (record c { manager = m }, some b))
          × Grant c.manager size b m)
unfolding allocate_buffer
allocate_buffer_cases_lem alloc c size = elim (Bool-cases (size == 0)) [
  | inl nil ↦ inl (simp nil refl, inr (no_bytes (ground arith)))
  | inr some_ ↦ elim (Bool-cases (ltb max_dma_transfer_size size)) [
    | inl over ↦ inl (simp (some_, over) refl, inl (ground arith))
    | inr fits ↦ elim (allocate_buffer_cases alloc c.manager size (ground arith)) [
      | inl (e, why) ↦ inl (simp (some_, fits, e) refl, inr why)
      | inr (m, b, e, g) ↦ inr (m, b, simp (some_, fits, e) refl, g)
    ]
  ]
]
