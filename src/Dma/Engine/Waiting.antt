-- ===== src/Dma/Engine/Waiting.antt =====
-- The polling loops: how long they wait, and what setting the engines up needs.
use native.Mathlib.Decide.{dec_lt}
use satellite_quic_proxy.Base.{
  get_elem?-set_self, get_elem?-set_above, length-set, length-resize, ℕ, zero, suc, ◌+◌, ◌≤◌, ◌<◌,
  ◌≡◌, ◌↔◌, ◌≢◌, refl, true, false, List, [], ◌∷◌, some, arith, ltb, get_elem?, length, resize,
  Bool-cases, inl, inr, ◌⊎◌,
}
use satellite_quic_proxy.Base.Outcome.{done, fault}
use satellite_quic_proxy.Dma.Engine.{
  is_error, is_done, channel_reg, reg_status, check_complete, DmaEngine, DmaInfo, Setup, Write,
  is_busy, wait_while_busy, wait_idle, reset_engine, setup_loop, setup_dma_engines, blank_engine,
  max_dma_engines,
}

wait_while_busy_ready :
    (t : ℕ) (status : ℕ → ℕ) (k j : ℕ)
    → k ≤ j
    → j < k + t
    → is_busy (status j) ≡ false
    → 0 < wait_while_busy t status k
unfolding wait_while_busy
wait_while_busy_ready zero status k j lo hi e = absurd (omega arith)
wait_while_busy_ready (suc t) status k j lo hi e = elim (Bool-cases (is_busy (status k))) [
  | inl busy ↦
      rw (busy, wait_while_busy)
        (wait_while_busy_ready t status (k + 1) j (ground arith) (omega arith) e)
  | inr idle ↦ rw (idle, wait_while_busy) (omega arith)
]

wait_while_busy_found :
    (t : ℕ) (status : ℕ → ℕ) (k : ℕ)
    → 0 < wait_while_busy t status k
    → (j : ℕ) × (k ≤ j) × (j < k + t) × (is_busy (status j) ≡ false)
unfolding wait_while_busy
wait_while_busy_found zero status k h = absurd (omega arith)
wait_while_busy_found (suc t) status k h = elim (Bool-cases (is_busy (status k))) [
  | inl busy ↦
      let (j, lo, hi, e) =
        wait_while_busy_found t status (k + 1) (rw (busy, wait_while_busy) at h) in
      (j, omega arith, omega arith, e)
  | inr idle ↦ (k, omega arith, omega arith, idle)
]

-- A wait ends well exactly when one of the first 1000 reads of the status register shows the engine
-- idle. An engine that is idle only from the 1001st read on counts as not reset in time.
pub wait_idle_iff :
    (status : ℕ → ℕ)
    → (wait_idle status ≡ true) ↔ ((j : ℕ) × (j < 1000) × (is_busy (status j) ≡ false))
unfolding wait_idle
wait_idle_iff status = (
  (λ h. let (j, lo, hi, e) = wait_while_busy_found 1000 status 0 (ground arith) in (j, hi, e)),
  λ h. let p = wait_while_busy_ready 1000 status 0 h.0 (omega arith) h.1 h.2 in ground arith,
)

-- Each of the first `n` engines shows itself idle within the first 1000 reads of its status.
abbrev pub AllReady : ℕ → (ℕ → ℕ → ℕ) → Type 0
AllReady n status = (i : ℕ) → i < n → (j : ℕ) × (j < 1000) × (is_busy (status i j) ≡ false)

-- The engine that an entry of the driver's answer describes.
abbrev pub engine_of : ℕ × ℕ → DmaEngine
engine_of (base, channels) = record { base_address = base; channel_count = channels; busy = false }

-- The first `n` engines are those of the answer, and idle.
abbrev pub SetUp : ℕ → (ℕ → ℕ × ℕ) → List DmaEngine → Type 0
SetUp n infos engines = (j : ℕ) → j < n → get_elem? engines j ≡ some (engine_of (infos j))

reset_engine-SetUp :
    (i : ℕ) (infos : ℕ → ℕ × ℕ) (s : List DmaEngine × List Write)
    → i < length s.0
    → SetUp i infos s.0
    → SetUp (i + 1) infos (reset_engine i (infos i) s).0
unfolding reset_engine
reset_engine-SetUp i infos (engines, writes) room h j below = elim (dec_lt j i) [
  | yes p ↦ rw (get_elem?-set_above engines i j _ p) (h j p)
  | no p ↦ let same : j ≡ i = omega arith in rw same (rw (get_elem?-set_self engines i _ room) refl)
]

length-reset_engine :
    (i : ℕ) (info : ℕ × ℕ) (s : List DmaEngine × List Write)
    → length (reset_engine i info s).0 ≡ length s.0
unfolding reset_engine
length-reset_engine i (base, channels) (engines, writes) = length-set engines i _

setup_loop_ok :
    (left i : ℕ) (infos : ℕ → ℕ × ℕ) (status : ℕ → ℕ → ℕ) (s : List DmaEngine × List Write)
    → i + left ≤ max_dma_engines
    → AllReady (i + left) status
    → i + left ≡ length s.0
    → SetUp i infos s.0
    → (r : Setup) × (setup_loop left i infos status s ≡ done r)
      × (r.ok ≡ true)
      × (length r.engines ≡ i + left)
      × SetUp (i + left) infos r.engines
unfolding setup_loop
setup_loop_ok zero i infos status s fits ready room h =
    (_, refl, refl, omega arith, λ j p. h j (omega arith))
setup_loop_ok (suc left) i infos status s fits ready room h =
    let inside : ltb i max_dma_engines ≡ true = ground arith in
    let idle : wait_idle (status i) ≡ true = (wait_idle_iff (status i)).1 (ready i (omega arith)) in
    let (r, er, ok, len, up) =
      setup_loop_ok left (i + 1) infos status (reset_engine i (infos i) s) (omega arith)
        (λ j p. ready j (omega arith)) (omega (arith, length-reset_engine i (infos i) s))
        (reset_engine-SetUp i infos s (omega arith) h) in
    (r, rw (inside, idle, setup_loop) er, ok, omega arith, λ j p. up j (omega arith))

setup_loop_fault :
    (left i : ℕ) (infos : ℕ → ℕ × ℕ) (status : ℕ → ℕ → ℕ) (s : List DmaEngine × List Write)
    → max_dma_engines < i + left
    → i ≤ max_dma_engines
    → AllReady max_dma_engines status
    → setup_loop left i infos status s ≡ fault
unfolding setup_loop
setup_loop_fault zero i infos status s over start ready = absurd (omega arith)
setup_loop_fault (suc left) i infos status s over start ready =
    elim (Bool-cases (ltb i max_dma_engines)) [
      | inl p ↦
          let idle : wait_idle (status i) ≡ true =
            (wait_idle_iff (status i)).1 (ready i (ground arith)) in
          rw (p, idle, setup_loop)
            (setup_loop_fault left (i + 1) infos status (reset_engine i (infos i) s) (omega arith)
              (ground arith) ready)
      | inr p ↦ rw (p, setup_loop)
    ]

-- Where the driver reports at least one engine and no more than the 4 that its array has room for, and
-- each of these engines gets idle within 1000 reads, setting up ends well with exactly as many engines as
-- were reported, each with the address and the channels of its entry, and idle, whatever engines the
-- controller had.
pub setup_dma_engines_ok :
    (info : DmaInfo) (status : ℕ → ℕ → ℕ) (old : List DmaEngine)
    → info.count ≢ 0
    → info.count ≤ max_dma_engines
    → AllReady info.count status
    → (r : Setup) × (setup_dma_engines (some info) status old ≡ done r)
      × (r.ok ≡ true)
      × (length r.engines ≡ info.count)
      × SetUp info.count info.engines r.engines
unfolding setup_dma_engines
setup_dma_engines_ok info status old some_ fits ready =
    let (r, er, ok, len, up) =
      setup_loop_ok info.count 0 info.engines status (resize info.count blank_engine old, [])
        (omega arith) (λ i p. ready i (omega arith))
        (omega (arith, length-resize info.count blank_engine old)) (λ j h. absurd (omega arith)) in
    (r, ground arith, ok, omega arith, λ j p. up j (omega arith))

-- A driver that reports more engines than the 4 that its array has room for makes the loop read past the
-- array, where the engines of the array get idle within 1000 reads: nothing checks the count against
-- MAX_DMA_ENGINES.
pub setup_dma_engines_fault :
    (info : DmaInfo) (status : ℕ → ℕ → ℕ) (old : List DmaEngine)
    → max_dma_engines < info.count
    → AllReady max_dma_engines status
    → setup_dma_engines (some info) status old ≡ fault
unfolding setup_dma_engines
setup_dma_engines_fault info status old over ready = ground (
  arith,
  setup_loop_fault info.count 0 info.engines status (resize info.count blank_engine old, []),
  ready,
)

-- The first engine that shows an end of a transfer shows an error.
abbrev pub ErrorFirst : (ℕ → ℕ) → List DmaEngine → Type 0
ErrorFirst read [] = ⊥
ErrorFirst read (e ∷ es) =
    let status = read (channel_reg e 0 reg_status) in
    (is_error status ≡ true)
    ⊎ ((is_error status ≡ false) × (is_done status ≡ false) × ErrorFirst read es)

pub check_complete_error :
    (read : ℕ → ℕ) (es : List DmaEngine) → ErrorFirst read es → check_complete read es 0 ≡ some 0
unfolding check_complete
check_complete_error read [] h = absurd h
check_complete_error read (e ∷ es) (inl h) = ground arith
check_complete_error read (e ∷ es) (inr h) = ground (arith, check_complete_error read es h.2)
