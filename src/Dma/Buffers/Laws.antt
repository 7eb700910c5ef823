-- ===== src/Dma/Buffers/Laws.antt =====
-- What single calls of the buffer manager promise to their callers.
use satellite_quic_proxy.Base.{
  ℕ, ◌+◌, ◌%◌, ◌≤◌, ◌<◌, ◌≡◌, ◌≢◌, ◌↔◌, refl, Bool, true, false, Option, none, some, List, [], ◌∷◌,
  ◌++◌, length, arith, u32_mod, All, All-map, u64_mod, Option-cases, inl, inr,
}
use satellite_quic_proxy.Dma.Buffers.{
  Buffer, BufferInfo, BufferManager, Mapping, max_dma_buffers, dma_buffer_alignment, align,
  allocate_physical_buffer, track, to_buffer, allocate_buffer, find, erase, release,
  free_physical_buffer, free_buffer,
}
use satellite_quic_proxy.Dma.Buffers.Invariant.{IsValid, Ascending}

-- A call for `size` bytes gives a buffer exactly when the manager is initialized, the size is not 0,
-- the table has room and the driver grants the aligned size.
pub allocate-some_iff :
    (alloc : ℕ → Option Mapping) (m : BufferManager) (size : ℕ)
    → ((b : Buffer) × ((allocate_buffer alloc m size).1 ≡ some b)) ↔ (
        (p : Mapping) × (alloc (align size) ≡ some p)
        × (m.initialized ≡ true)
        × (size ≢ 0)
        × (length m.buffers < max_dma_buffers))
unfolding allocate_buffer allocate_physical_buffer track
allocate-some_iff alloc m size = (
  (λ h. to h.0 h.1),
  λ h. (
    to_buffer (record {
      virtual_address = h.0.virtual_address;
      physical_address = h.0.physical_address;
      device_address = h.0.device_address;
      size = align size;
      id = m.next_buffer_id;
      allocated = true;
    }),
    let granted = h.1 in let on = h.2 in ground arith,
  ),
)
  where
    to :
        (b : Buffer)
        → (allocate_buffer alloc m size).1 ≡ some b
        → (p : Mapping) × (alloc (align size) ≡ some p)
          × (m.initialized ≡ true)
          × (size ≢ 0)
          × (length m.buffers < max_dma_buffers)
    to b h = elim (Option-cases (alloc (align size))) [
      | inl e ↦ absurd (ground arith)
      | inr (p, e) ↦ (p, e, ground arith, ground arith, ground arith)
    ]

-- A granted buffer holds the bytes asked for and less than one alignment more, in whole multiples
-- of the alignment, unless rounding up would pass 2^64.
pub allocate_size :
    (alloc : ℕ → Option Mapping) (m : BufferManager) (size : ℕ) (b : Buffer)
    → size + dma_buffer_alignment ≤ u64_mod
    → (allocate_buffer alloc m size).1 ≡ some b
    → (size ≤ b.size) × (b.size < size + dma_buffer_alignment) × (b.size % dma_buffer_alignment ≡ 0)
unfolding allocate_buffer allocate_physical_buffer track align to_buffer
allocate_size alloc m size b fits h = elim (Option-cases (alloc (align size))) [
  | inl e ↦ absurd (ground arith)
  | inr (p, e) ↦ ground arith
]

Ascending-le : (lo : ℕ) (xs : List BufferInfo) (hi : ℕ) → Ascending lo xs hi → lo ≤ hi
Ascending-le lo [] hi h = h
Ascending-le lo (x ∷ xs) hi h = omega (arith, Ascending-le (x.id + 1) xs hi h.1)

find_fresh :
    (lo : ℕ) (xs : List BufferInfo) (i : BufferInfo)
    → Ascending lo xs i.id
    → i.allocated ≡ true
    → find i.id (xs ++ (i ∷ [])) ≡ some i
unfolding find
find_fresh lo [] i h live = ground arith
find_fresh lo (x ∷ xs) i h live =
    ground (arith, find_fresh (x.id + 1) xs i h.1 live, Ascending-le (x.id + 1) xs i.id h.1)

erase_fresh :
    (lo : ℕ) (xs : List BufferInfo) (i : BufferInfo)
    → Ascending lo xs i.id
    → i.allocated ≡ true
    → erase i.id (xs ++ (i ∷ [])) ≡ xs
unfolding erase
erase_fresh lo [] i h live = ground arith
erase_fresh lo (x ∷ xs) i h live =
    ground (arith, erase_fresh (x.id + 1) xs i h.1 live, Ascending-le (x.id + 1) xs i.id h.1)

free-track :
    (free : ℕ → ℕ → Bool) (m : BufferManager) (i : BufferInfo)
    → IsValid m
    → m.next_buffer_id + 1 < u32_mod
    → i.allocated ≡ true
    → i.id ≡ m.next_buffer_id
    → i.size < u64_mod
    → i.virtual_address ≢ 0
    → free i.virtual_address i.size ≡ true
    → release free (track m (some i)).0 i.id (some i)
      ≡ (record m { next_buffer_id = m.next_buffer_id + 1 }, true)
unfolding release track free_physical_buffer
free-track free m i v fits live e small va ok =
    ground (arith, erase_fresh 1 m.buffers i (rw e v.ordered) live, v.accounted)

-- What a successful allocation has done.
allocate_inv :
    (alloc : ℕ → Option Mapping) (m m' : BufferManager) (size : ℕ) (b : Buffer)
    → allocate_buffer alloc m size ≡ (m', some b)
    → (i : BufferInfo) × (m.initialized ≡ true)
      × (m' ≡ (track m (some i)).0)
      × (b ≡ to_buffer i)
      × (i.allocated ≡ true)
      × (i.id ≡ m.next_buffer_id)
      × (i.size < u64_mod)
unfolding allocate_buffer allocate_physical_buffer track align
allocate_inv alloc m m' size b h = elim (Option-cases (alloc (align size))) [
  | inl e ↦ absurd (ground arith)
  | inr (p, e) ↦ (
    record {
      virtual_address = p.virtual_address;
      physical_address = p.physical_address;
      device_address = p.device_address;
      size = align size;
      id = m.next_buffer_id;
      allocated = true;
    },
    ground arith,
    ground arith,
    ground arith,
    refl,
    refl,
    omega arith,
  )
]

-- Freeing a buffer just allocated in a valid table, at an address other than 0, takes its record
-- out again and restores the total, if the driver frees it and the identifiers do not wrap: only
-- the next identifier has moved.
pub free-allocate :
    (alloc : ℕ → Option Mapping) (free : ℕ → ℕ → Bool) (m m' : BufferManager) (size : ℕ)
    (b : Buffer)
    → IsValid m
    → m.next_buffer_id + 1 < u32_mod
    → allocate_buffer alloc m size ≡ (m', some b)
    → b.virtual_address ≢ 0
    → free b.virtual_address b.size ≡ true
    → free_buffer free m' (some b) ≡ (record m { next_buffer_id = m.next_buffer_id + 1 }, true)
unfolding free_buffer to_buffer
free-allocate alloc free m m' size b v fits h va ok =
    let (i, on, em, eb, live, e, small) = allocate_inv alloc m m' size b h in
    let found : find i.id (m.buffers ++ (i ∷ [])) ≡ some i =
      find_fresh 1 m.buffers i (rw e v.ordered) live in
    rw (em, eb)
      (unfold track in
        ground
          (arith, found, on, free-track free m i v fits live e small (rw eb at va) (rw eb at ok)))

find_below :
    (id lo : ℕ) (xs : List BufferInfo) (hi : ℕ) → Ascending lo xs hi → id < lo → find id xs ≡ none
unfolding find
find_below id lo [] hi h below = refl
find_below id lo (x ∷ xs) hi h below = ground (arith, find_below id (x.id + 1) xs hi h.1)

find-erase :
    (id lo : ℕ) (xs : List BufferInfo) (hi : ℕ)
    → Ascending lo xs hi
    → All (λ i. i.allocated ≡ true) xs
    → find id (erase id xs) ≡ none
unfolding find erase
find-erase id lo [] hi h live = refl
find-erase id lo (x ∷ xs) hi h live =
    ground (arith, find-erase id (x.id + 1) xs hi h.1 live.1, find_below id (x.id + 1) xs hi h.1)

-- From a valid table a buffer is freed once: whatever the driver answers to a second call for it,
-- that call fails and changes nothing.
pub free_twice :
    (free again : ℕ → ℕ → Bool) (m m' : BufferManager) (b : Buffer)
    → IsValid m
    → free_buffer free m (some b) ≡ (m', true)
    → free_buffer again m' (some b) ≡ (m', false)
unfolding free_buffer
free_twice free again m m' b v h = elim (Option-cases (find b.id m.buffers)) [
  | inl e ↦ absurd (unfold release in ground arith)
  | inr (i, e) ↦
      unfold release in
      ground (
        arith,
        find-erase b.id 1 m.buffers m.next_buffer_id v.ordered
            (All-map _ _ (λ i l. l.0) m.buffers v.live),
      )
]
