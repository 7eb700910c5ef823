-- ===== src/Fpga/Session/Allocation.antt =====
-- Rules for the allocations of a session: when a buffer is granted, and what its refusal means.
use satellite_quic_proxy.Base.{
  ℕ, ◌+◌, ◌≤◌, ◌<◌, ◌≡◌, sym, ◌∙◌, ◌⊎◌, inl, inr, false, Option, none, some, List, arith,
}
use satellite_quic_proxy.Dma.Buffers.{Buffer, max_dma_buffers, align}
use satellite_quic_proxy.Dma.Buffers.Granting.{
  Refusal, uninitialized, no_bytes, table_full, driver_refused,
}
use satellite_quic_proxy.Dma.Controller.{max_dma_transfer_size}
use satellite_quic_proxy.Dma.Controller.Granting.{allocate_buffer_cases_lem}
use satellite_quic_proxy.Fpga.Session.{Device, Session, allocate, reg_result_size}
use satellite_quic_proxy.Fpga.Session.Rules.{Ends, returned_with, Did, Kept, count}

-- What an operation asks for: the number of buffers, the least and the greatest of their sizes, and the
-- size of the output buffer.
pub record Needs : Type 0 where
  pub buffers : ℕ
  pub least : ℕ
  pub most : ℕ
  pub output : ℕ

-- Why an operation may leave the defined behaviour: a buffer that it did not get, or a device that
-- reports more bytes than it was given room for.
pub data Cause (device : Device) (s : Session) (needs : Needs) : Type 0 where
  not_initialized : s.controller.manager.initialized ≡ false → Cause device s needs
  too_small : needs.least ≡ 0 → Cause device s needs
  too_large : max_dma_transfer_size < needs.most → Cause device s needs
  out_of_buffers : max_dma_buffers < count s + needs.buffers → Cause device s needs
  refused : (k size : ℕ) → device.alloc k size ≡ none → Cause device s needs
  oversized :
      (k size : ℕ)
      → device.read k reg_result_size ≡ some size
      → needs.output < size
      → Cause device s needs

module _ (device : Device) (s₀ : Session) (needs : Needs) where
  -- A buffer for so many bytes and one buffer more in the table, or a cause for having none.
  abbrev pub Answered : ℕ → ℕ → List (ℕ × ℕ) → List (ℕ × List ℕ) → Option Buffer → Session → Type 0
  Answered size n ws cs none s = Cause device s₀ needs × Did s₀ n ws cs s
  Answered size n ws cs (some b) s = (size ≤ b.size) × Did s₀ (n + 1) ws cs s

  refusal :
      (size n k : ℕ) (ws : List (ℕ × ℕ)) (cs : List (ℕ × List ℕ)) (s : Session)
      → needs.least ≤ size
      → size ≤ needs.most
      → n < needs.buffers
      → Did s₀ n ws cs s
      → (max_dma_transfer_size < size) ⊎ Refusal (device.alloc k) s.controller.manager size
      → Cause device s₀ needs
  refusal size n k ws cs s least most room d (inl over) = too_large (omega arith)
  refusal size n k ws cs s least most room d (inr (uninitialized e)) =
      not_initialized (sym d.initialized ∙ e)
  refusal size n k ws cs s least most room d (inr (no_bytes e)) = too_small (omega arith)
  refusal size n k ws cs s least most room d (inr (table_full h)) =
      out_of_buffers (omega (arith, d.counted))
  refusal size n k ws cs s least most room d (inr (driver_refused e)) = refused k (align size) e

  pub allocate_lem :
      {F : Type 0} (size n : ℕ) (ws : List (ℕ × ℕ)) (cs : List (ℕ × List ℕ)) (s : Session)
      → needs.least ≤ size
      → size ≤ needs.most
      → n < needs.buffers
      → Did s₀ n ws cs s
      → Ends (Answered size n ws cs) (Kept s₀) F (allocate device size s)
  unfolding allocate
  allocate_lem size n ws cs s least most room d =
      elim (allocate_buffer_cases_lem (device.alloc s.accesses) s.controller size) [
        | inl (e, why) ↦ rw e (
            returned_with (
              refusal size n s.accesses ws cs s least most room d why,
              record {
                initialized = d.initialized;
                counted = d.counted;
                bounded = d.bounded;
                device_fd = d.device_fd;
                writes = d.writes;
                copies = d.copies;
              },
            ))
        | inr (m, b, e, g) ↦ rw e (
            returned_with (
              g.holds,
              record {
                initialized = g.initialized ∙ d.initialized;
                counted = omega (arith, g.counted, d.counted);
                bounded = λ _. g.bounded;
                device_fd = d.device_fd;
                writes = d.writes;
                copies = d.copies;
              },
            ))
      ]
