-- ===== src/Dma/Controller/Ending.antt =====
-- The end of a blocking transfer: polls, fuel, and what they leave of the engines.
use satellite_quic_proxy.Base.{
  ℕ, zero, suc, ◌+◌, ◌≤◌, ◌<◌, ◌≡◌, ◌≢◌, ◌∙◌, refl, false, ◌||◌, Option, none, some, List, arith,
  ltb, ◌==◌, Bool-cases, Option-cases, inl, inr,
}
use satellite_quic_proxy.Dma.Buffers.{Buffer}
use satellite_quic_proxy.Dma.Engine.{
  DmaEngine, TransferDirection, get_available_engine, check_complete,
}
use satellite_quic_proxy.Dma.Engine.Idle.{
  get_available_engine-IsBusyAt, check_complete-taken, check_complete-set_idle,
}
use satellite_quic_proxy.Dma.Controller.{
  Controller, Handle, blocking, Transferred, start_transfer, poll_loop, run_started, run_transfer,
  transfer, max_dma_transfer_size,
}

-- One request for a blocking transfer, with the answers of the hardware to its polls.
pub record Request : Type 0 where
  pub polls : ℕ → ℕ → ℕ
  pub buffer : Option Handle
  pub size : ℕ
  pub direction : TransferDirection

-- The first poll that sees an end decides a transfer.
pub poll_loop_first :
    (fuel : ℕ) (polls : ℕ → ℕ → ℕ) (k j : ℕ) (es : List DmaEngine) (channel bytes : ℕ)
    → ((i : ℕ) → k ≤ i → i < k + j → check_complete (polls i) es channel ≡ none)
    → check_complete (polls (k + j)) es channel ≡ some bytes
    → j < fuel
    → poll_loop fuel polls k es channel ≡ some bytes
unfolding poll_loop
poll_loop_first zero polls k j es channel bytes before at room = absurd (omega arith)
poll_loop_first (suc fuel) polls k zero es channel bytes before at room =
    let here : k + 0 ≡ k = omega arith in rw (rw here at at, poll_loop)
poll_loop_first (suc fuel) polls k (suc j) es channel bytes before at room =
    let there : k + suc j ≡ k + 1 + j = omega arith in
    rw (before k (omega arith) (omega arith), poll_loop)
      (poll_loop_first fuel polls (k + 1) j es channel bytes
        (λ i lo hi. before i (omega arith) (omega arith)) (rw there at at) (omega arith))

-- One of the polls that the fuel leaves room for shows an end of the transfer.
abbrev pub ShowsEnd : ℕ → List DmaEngine → Request → Type 0
ShowsEnd fuel es r =
    (j : ℕ) × (bytes : ℕ) × (j < fuel) × (check_complete (r.polls j) es 0 ≡ some bytes)

-- The polls see the same registers.
abbrev pub SameRegisters : List DmaEngine → List DmaEngine → Type 0
SameRegisters es es' = (read : ℕ → ℕ) → check_complete read es' 0 ≡ check_complete read es 0

poll_loop-some :
    (fuel : ℕ) (polls : ℕ → ℕ → ℕ) (k j : ℕ) (es : List DmaEngine) (bytes : ℕ)
    → k ≤ j
    → j < k + fuel
    → check_complete (polls j) es 0 ≡ some bytes
    → (b : ℕ) × (poll_loop fuel polls k es 0 ≡ some b)
unfolding poll_loop
poll_loop-some zero polls k j es bytes lo hi e = absurd (omega arith)
poll_loop-some (suc fuel) polls k j es bytes lo hi e =
    elim (Option-cases (check_complete (polls k) es 0)) [
      | inr (b, now) ↦ (b, rw (now, poll_loop) refl)
      | inl later ↦
          let other : k ≢ j = λ (same : k ≡ j). cc in
          let (b, h) = poll_loop-some fuel polls (k + 1) j es bytes (omega arith) (omega arith) e in
          (b, rw (later, poll_loop) h)
    ]

start_transfer-SameRegisters :
    (c : Controller) (b : Buffer) (size : ℕ) (dir : TransferDirection) (channel : ℕ)
    (c' : Controller)
    → start_transfer c b size dir channel ≡ some c'
    → SameRegisters c.engines c'.engines
unfolding start_transfer
start_transfer-SameRegisters c b size dir channel c' h read =
    elim (Option-cases (get_available_engine c.engines)) [
      | inl n ↦ absurd (ground arith)
      | inr ((j, es), n) ↦
          let (d, at, busy) = get_available_engine-IsBusyAt c.engines j es n in
          let same : c'.engines ≡ es = ground arith in
          rw same (check_complete-taken read c.engines j es 0 n)
    ]

-- A blocking transfer whose polls show an end returns, and leaves the registers where they are.
abbrev pub Returns : List DmaEngine → Option Transferred → Type 0
Returns es o = (t : Transferred) × (o ≡ some t) × SameRegisters es t.controller.engines

run_transfer-Returns :
    (fuel : ℕ) (r : Request) (c : Controller) (h : Handle) (size : ℕ) (dir : TransferDirection)
    → ShowsEnd fuel c.engines r
    → Returns c.engines (run_transfer fuel r.polls c h size dir blocking false)
unfolding run_transfer run_started
run_transfer-Returns fuel r c h size dir (j, bytes, soon, shown) =
    elim (Option-cases (get_available_engine c.engines)) [
      | inl n ↦ rw (n, run_transfer) (_, refl, λ read. refl)
      | inr ((i, es), n) ↦
          let c1 : Controller = record c { engines = es } in
          elim (Option-cases (start_transfer c1 h.buffer size dir 0)) [
            | inl f ↦
                rw (n, f, run_transfer)
                  (
                    _,
                    refl,
                    λ read.
                        check_complete-set_idle read i es 0
                        ∙ check_complete-taken read c.engines i es 0 n,
                  )
            | inr (c2, f) ↦
                let same : SameRegisters c.engines c2.engines = λ read.
                  start_transfer-SameRegisters c1 h.buffer size dir 0 c2 f read
                  ∙ check_complete-taken read c.engines i es 0 n in
                let (b, p) =
                  poll_loop-some fuel r.polls 0 j c2.engines bytes (omega arith) (omega arith)
                    (same (r.polls j) ∙ shown) in
                rw (n, f, p, run_transfer, run_started)
                  (_, refl, λ read. check_complete-set_idle read i c2.engines 0 ∙ same read)
          ]
    ]

pub transfer-Returns :
    (fuel : ℕ) (r : Request) (c : Controller)
    → ShowsEnd fuel c.engines r
    → Returns c.engines (transfer fuel r.polls c r.buffer r.size r.direction blocking false)
unfolding transfer
transfer-Returns fuel r c shown = go r.buffer
  where
    go :
        (h : Option Handle)
        → Returns c.engines (transfer fuel r.polls c h r.size r.direction blocking false)
    go none = (_, refl, λ read. refl)
    go (some h) = elim (Bool-cases (r.size == 0 || ltb h.buffer.size r.size)) [
      | inl bad ↦ rw bad (_, refl, λ read. refl)
      | inr good ↦ elim (Bool-cases (ltb r.size 64 || ltb max_dma_transfer_size r.size)) [
        | inl bad ↦ rw (good, bad) (_, refl, λ read. refl)
        | inr fine ↦ rw (good, fine) (run_transfer-Returns fuel r c h r.size r.direction shown)
      ]
    ]
