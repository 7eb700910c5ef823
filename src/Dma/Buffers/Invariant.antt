-- ===== src/Dma/Buffers/Invariant.antt =====
-- What every history of calls of the buffer manager keeps.
use satellite_quic_proxy.Base.{
  ℕ, ◌+◌, ◌%◌, ◌≤◌, ◌<◌, ◌≡◌, refl, Bool, true, Option, none, some, List, [], ◌∷◌, ◌++◌, length,
  length-append, arith, All, All-append, u32_mod, u64_mod, Option-cases, Bool-cases, inl, inr, not,
  ◌||◌, ◌==◌, leb, ◌&&◌, subst,
}
use satellite_quic_proxy.Dma.Buffers.{
  Buffer, BufferInfo, BufferManager, Mapping, max_dma_buffers, dma_buffer_alignment, align,
  allocate_physical_buffer, track, allocate_buffer, find, erase, release, free_physical_buffer,
  free_buffer, Call, allocates, frees, step, run,
}

abbrev pub sum_sizes : List BufferInfo → ℕ
sum_sizes [] = 0
sum_sizes (i ∷ is) = i.size + sum_sizes is

-- The identifiers lie between two bounds and grow along the table.
abbrev pub Ascending : ℕ → List BufferInfo → ℕ → Type 0
Ascending lo [] hi = lo ≤ hi
Ascending lo (i ∷ is) hi = (lo ≤ i.id) × Ascending (i.id + 1) is hi

abbrev pub IsLive : BufferInfo → Type 0
IsLive i = (i.allocated ≡ true) × (i.size % dma_buffer_alignment ≡ 0) × (i.size < u64_mod)

pub record IsValid (m : BufferManager) : Type 0 where
  pub bounded : length m.buffers ≤ max_dma_buffers
  pub live : All IsLive m.buffers
  pub accounted : m.total_allocated_memory ≡ sum_sizes m.buffers % u64_mod
  pub ordered : Ascending 1 m.buffers m.next_buffer_id

pub sum_sizes-append :
    (xs ys : List BufferInfo) → sum_sizes (xs ++ ys) ≡ sum_sizes xs + sum_sizes ys
sum_sizes-append [] ys = omega arith
sum_sizes-append (x ∷ xs) ys = omega (arith, sum_sizes-append xs ys)

Ascending-append :
    (lo : ℕ) (xs : List BufferInfo) (i : BufferInfo) (hi : ℕ)
    → Ascending lo xs hi
    → i.id ≡ hi
    → Ascending lo (xs ++ (i ∷ [])) (hi + 1)
Ascending-append lo [] i hi h e = omega arith
Ascending-append lo (x ∷ xs) i hi h e = (h.0, Ascending-append (x.id + 1) xs i hi h.1 e)

Ascending-weaken :
    (lo lo' : ℕ) (xs : List BufferInfo) (hi : ℕ)
    → lo ≤ lo'
    → Ascending lo' xs hi
    → Ascending lo xs hi
Ascending-weaken lo lo' [] hi p h = omega arith
Ascending-weaken lo lo' (x ∷ xs) hi p h = (omega arith, h.1)

erase-Ascending :
    (id lo : ℕ) (xs : List BufferInfo) (hi : ℕ) → Ascending lo xs hi → Ascending lo (erase id xs) hi
unfolding erase
erase-Ascending id lo [] hi h = h
erase-Ascending id lo (x ∷ xs) hi h =
    ground (arith, Ascending-weaken lo (x.id + 1) xs hi, erase-Ascending id (x.id + 1) xs hi h.1)

erase-All {κ} :
    (P : BufferInfo → Type κ) (id : ℕ) (xs : List BufferInfo) → All P xs → All P (erase id xs)
unfolding erase
erase-All P id [] h = h
erase-All P id (x ∷ xs) h = ground (arith, erase-All P id xs h.1)

length-erase : (id : ℕ) (xs : List BufferInfo) → length (erase id xs) ≤ length xs
unfolding erase
length-erase id [] = omega arith
length-erase id (x ∷ xs) = ground (arith, length-erase id xs)

-- What `find` finds is what `erase` takes out.
sum_sizes-erase :
    (id : ℕ) (xs : List BufferInfo) (i : BufferInfo)
    → find id xs ≡ some i
    → sum_sizes xs ≡ i.size + sum_sizes (erase id xs)
unfolding find erase
sum_sizes-erase id [] i e = ground arith
sum_sizes-erase id (x ∷ xs) i e = ground (arith, sum_sizes-erase id xs i)

pub find-All {κ} :
    (P : BufferInfo → Type κ) (id : ℕ) (xs : List BufferInfo) (i : BufferInfo)
    → All P xs
    → find id xs ≡ some i
    → P i
unfolding find
find-All P id [] i h e = cc
find-All P id (x ∷ xs) i h e = elim (Bool-cases (x.allocated && x.id == id)) [
  | inl hit ↦ let same : x ≡ i = ground arith in subst P same h.0
  | inr miss ↦ find-All P id xs i h.1 (rw miss at e)
]

align_divides : (s : ℕ) → (align s % dma_buffer_alignment ≡ 0) × (align s < u64_mod)
unfolding align
align_divides s = omega arith

track-IsValid :
    (m : BufferManager) (i : BufferInfo)
    → IsValid m
    → length m.buffers < max_dma_buffers
    → IsLive i
    → i.id ≡ m.next_buffer_id
    → m.next_buffer_id + 1 < u32_mod
    → IsValid (track m (some i)).0
unfolding track
track-IsValid m i v room l e fits = record {
  bounded = omega (arith, length-append m.buffers (i ∷ []));
  live = All-append IsLive m.buffers (i ∷ []) v.live (l, tt);
  accounted = omega (arith, v.accounted, sum_sizes-append m.buffers (i ∷ []));
  ordered =
      let wraps : (m.next_buffer_id + 1) % u32_mod ≡ m.next_buffer_id + 1 = omega arith in
      ground (arith, wraps, Ascending-append 1 m.buffers i m.next_buffer_id v.ordered e);
}

-- An allocation fails and changes nothing, or tracks one new record; that is all it can do.
pub allocate_cases {ℓ} :
    (P : BufferManager × Option Buffer → Type ℓ) (alloc : ℕ → Option Mapping) (m : BufferManager)
    (size : ℕ)
    → P (m, none)
    → ((i : BufferInfo)
        → length m.buffers < max_dma_buffers
        → IsLive i
        → i.id ≡ m.next_buffer_id
        → P (track m (some i)))
    → P (allocate_buffer alloc m size)
unfolding allocate_buffer allocate_physical_buffer
allocate_cases P alloc m size refused tracked =
    elim (Bool-cases (not m.initialized || size == 0 || leb max_dma_buffers (length m.buffers))) [
      | inl e ↦ rw e refused
      | inr e ↦ elim (Option-cases (alloc (align size))) [
        | inl a ↦ rw e (rw (a, allocate_physical_buffer) (unfold track in refused))
        | inr (p, a) ↦ rw e (
            rw (a, allocate_physical_buffer)
              (tracked _ (ground arith) (refl, (align_divides size).0, (align_divides size).1)
                refl))
      ]
    ]

allocate-IsValid :
    (alloc : ℕ → Option Mapping) (m : BufferManager) (size : ℕ)
    → IsValid m
    → m.next_buffer_id + 1 < u32_mod
    → IsValid (allocate_buffer alloc m size).0
allocate-IsValid alloc m size v fits =
    allocate_cases (λ r. IsValid r.0) alloc m size v λ i room l e. track-IsValid m i v room l e fits

release-IsValid :
    (free : ℕ → ℕ → Bool) (m : BufferManager) (id : ℕ) (o : Option BufferInfo)
    → find id m.buffers ≡ o
    → IsValid m
    → IsValid (release free m id o).0
unfolding release
release-IsValid free m id none e v = v
release-IsValid free m id (some i) e v = elim (Bool-cases (free_physical_buffer free i).1) [
  | inl freed ↦ rw freed (record {
    bounded = omega (arith, v.bounded, length-erase id m.buffers);
    live = erase-All IsLive id m.buffers v.live;
    accounted = omega (
      arith,
      v.accounted,
      sum_sizes-erase id m.buffers i e,
      (find-All IsLive id m.buffers i v.live e).2,
    );
    ordered = erase-Ascending id 1 m.buffers m.next_buffer_id v.ordered;
  })
  | inr kept ↦ rw kept v
]

free-IsValid :
    (free : ℕ → ℕ → Bool) (m : BufferManager) (b : Option Buffer)
    → IsValid m
    → IsValid (free_buffer free m b).0
unfolding free_buffer
free-IsValid free m none v = v
free-IsValid free m (some b) v = ground (arith, release-IsValid free m b.id _ refl v)

step-IsValid :
    (m : BufferManager) (c : Call) → IsValid m → m.next_buffer_id + 1 < u32_mod → IsValid (step m c)
unfolding step
step-IsValid m (allocates alloc size) v fits = allocate-IsValid alloc m size v fits
step-IsValid m (frees free b) v fits = free-IsValid free m b v

release-next_buffer_id :
    (free : ℕ → ℕ → Bool) (m : BufferManager) (id : ℕ) (o : Option BufferInfo)
    → (release free m id o).0.next_buffer_id ≡ m.next_buffer_id
unfolding release
release-next_buffer_id free m id none = refl
release-next_buffer_id free m id (some i) = ground arith

next_buffer_id-step :
    (m : BufferManager) (c : Call)
    → m.next_buffer_id + 1 < u32_mod
    → (step m c).next_buffer_id ≤ m.next_buffer_id + 1
unfolding step free_buffer
next_buffer_id-step m (allocates alloc size) fits =
    allocate_cases (λ r. r.0.next_buffer_id ≤ m.next_buffer_id + 1) alloc m size (omega arith)
      λ i room l e. unfold track in omega arith
next_buffer_id-step m (frees free none) fits = omega arith
next_buffer_id-step m (frees free (some b)) fits =
    ground (arith, release-next_buffer_id free m b.id (find b.id m.buffers))

-- Every history of calls on a valid table keeps it within 64 records, all of them allocated, in
-- multiples of the alignment and under growing identifiers, and the total equal to the sum of the
-- sizes, as long as the identifiers do not wrap.
pub run-IsValid :
    (cs : List Call) (m : BufferManager)
    → IsValid m
    → m.next_buffer_id + length cs < u32_mod
    → IsValid (run m cs)
unfolding run
run-IsValid [] m v fits = v
run-IsValid (c ∷ cs) m v fits =
    run-IsValid cs (step m c) (step-IsValid m c v (omega arith))
      (omega (arith, next_buffer_id-step m c (omega arith)))
