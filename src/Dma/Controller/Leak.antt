-- ===== src/Dma/Controller/Leak.antt =====
-- The engines that transfers take and give back: `transfer` takes one, startDMATransfer takes another
-- one, and only the first is ever marked idle again.
use mathlib.Core.Option
use satellite_quic_proxy.Base.{
  ℕ, ◌+◌, ◌≤◌, ◌≡◌, ◌∙◌, All, All-map, refl, Bool, true, false, ◌||◌, Option, none, some, List, [],
  ◌∷◌, arith, ltb, ◌==◌, if◌then◌else◌, Bool-cases, Option-cases, inl, inr, ◌⊎◌,
}
use satellite_quic_proxy.Dma.Buffers.{Buffer}
use satellite_quic_proxy.Dma.Engine.{DmaEngine, TransferDirection, get_available_engine}
use satellite_quic_proxy.Dma.Engine.Idle.{
  idle_count, IsBusyAt, get_available_engine-none, get_available_engine-idle_count,
  get_available_engine-IsBusyAt, get_available_engine-keeps, set_idle-idle_count,
}
use satellite_quic_proxy.Dma.Controller.{
  Controller, Handle, TransferType, blocking, Transferred, start_transfer, poll_loop, run_started,
  run_transfer, transfer, max_dma_transfer_size,
}
use satellite_quic_proxy.Dma.Controller.Ending.{Request, ShowsEnd, transfer-Returns}

-- A start takes one idle engine more, if there is one, and leaves the busy ones busy.
start_transfer-idle_count :
    (c : Controller) (b : Buffer) (size : ℕ) (dir : TransferDirection) (channel : ℕ)
    (c' : Controller)
    → start_transfer c b size dir channel ≡ some c'
    → idle_count c.engines ≡ idle_count c'.engines + 1
unfolding start_transfer
start_transfer-idle_count c b size dir channel c' h =
    elim (Option-cases (get_available_engine c.engines)) [
      | inl n ↦ absurd (ground arith)
      | inr ((j, es), n) ↦
          let (d, at, busy) = get_available_engine-IsBusyAt c.engines j es n in
          ground (arith, get_available_engine-idle_count c.engines j es n)
    ]

start_transfer-IsBusyAt :
    (c : Controller) (b : Buffer) (size : ℕ) (dir : TransferDirection) (channel : ℕ)
    (c' : Controller) (k : ℕ)
    → start_transfer c b size dir channel ≡ some c'
    → IsBusyAt k c.engines
    → IsBusyAt k c'.engines
unfolding start_transfer
start_transfer-IsBusyAt c b size dir channel c' k h busy_at =
    elim (Option-cases (get_available_engine c.engines)) [
      | inl n ↦ absurd (ground arith)
      | inr ((j, es), n) ↦
          let (d, at, busy) = get_available_engine-IsBusyAt c.engines j es n in
          let same : c'.engines ≡ es = ground arith in
          rw same (get_available_engine-keeps c.engines j es k n busy_at)
    ]

start_transfer-none :
    (c : Controller) (b : Buffer) (size : ℕ) (dir : TransferDirection) (channel : ℕ)
    → start_transfer c b size dir channel ≡ none
    → idle_count c.engines ≡ 0
unfolding start_transfer
start_transfer-none c b size dir channel h = elim (Option-cases (get_available_engine c.engines)) [
  | inl n ↦ get_available_engine-none c.engines n
  | inr ((j, es), n) ↦
      let (d, at, busy) = get_available_engine-IsBusyAt c.engines j es n in absurd (ground arith)
]

-- What a transfer does to the engines: a blocking one that succeeds costs one idle engine for good,
-- and one that fails costs none. It fails for want of engines exactly where at most one is idle.
abbrev Cost : List DmaEngine → Transferred → Type 0
Cost es t =
    ((t.result.success ≡ true)
      × (2 ≤ idle_count es)
      × (idle_count t.controller.engines + 1 ≡ idle_count es))
    ⊎ ((t.result.success ≡ false) × (idle_count t.controller.engines ≡ idle_count es))

run_transfer-Cost :
    (fuel : ℕ) (polls : ℕ → ℕ → ℕ) (c : Controller) (h : Handle) (size : ℕ)
    (dir : TransferDirection) (callback : Bool) (t : Transferred)
    → run_transfer fuel polls c h size dir blocking callback ≡ some t
    → Cost c.engines t
unfolding run_transfer run_started
run_transfer-Cost fuel polls c h size dir callback t e =
    elim (Option-cases (get_available_engine c.engines)) [
      | inl n ↦ inr (ground arith, ground arith)
      | inr ((i, es), n) ↦
          let taken = get_available_engine-idle_count c.engines i es n in
          let busy_i = get_available_engine-IsBusyAt c.engines i es n in
          let c1 : Controller = record c { engines = es } in
          elim (Option-cases (start_transfer c1 h.buffer size dir 0)) [
            | inl f ↦ inr (ground arith, ground (arith, set_idle-idle_count i es busy_i, taken))
            | inr (c2, f) ↦
                let more = start_transfer-idle_count c1 h.buffer size dir 0 c2 f in
                let back =
                  set_idle-idle_count i c2.engines
                    (start_transfer-IsBusyAt c1 h.buffer size dir 0 c2 i f busy_i) in
                elim (Option-cases (poll_loop fuel polls 0 c2.engines 0)) [
                  | inl p ↦ absurd (ground arith)
                  | inr (bytes, p) ↦
                      inl (
                        ground arith,
                        omega (arith, taken, more),
                        ground (arith, taken, more, back),
                      )
                ]
          ]
    ]

transfer-Cost :
    (fuel : ℕ) (polls : ℕ → ℕ → ℕ) (c : Controller) (h : Option Handle) (size : ℕ)
    (dir : TransferDirection) (callback : Bool) (t : Transferred)
    → transfer fuel polls c h size dir blocking callback ≡ some t
    → Cost c.engines t
unfolding transfer
transfer-Cost fuel polls c none size dir callback t e = inr (ground arith, ground arith)
transfer-Cost fuel polls c (some h) size dir callback t e =
    elim (Bool-cases (size == 0 || ltb h.buffer.size size)) [
      | inl bad ↦ inr (ground arith, ground arith)
      | inr good ↦ elim (Bool-cases (ltb size 64 || ltb max_dma_transfer_size size)) [
        | inl bad ↦ inr (ground arith, ground arith)
        | inr fine ↦ run_transfer-Cost fuel polls c h size dir callback t (ground arith)
      ]
    ]

-- A call that returns a failure, starts nothing and writes no register.
abbrev pub FailsQuietly : Controller → Option Transferred → Type 0
FailsQuietly c o =
    (t : Transferred) × (o ≡ some t)
    × (t.result.success ≡ false)
    × (t.controller.pending ≡ c.pending)
    × (t.controller.writes ≡ c.writes)

run_transfer-FailsQuietly :
    (fuel : ℕ) (polls : ℕ → ℕ → ℕ) (c : Controller) (h : Handle) (size : ℕ)
    (dir : TransferDirection) (type : TransferType) (callback : Bool)
    → idle_count c.engines ≤ 1
    → FailsQuietly c (run_transfer fuel polls c h size dir type callback)
unfolding run_transfer
run_transfer-FailsQuietly fuel polls c h size dir type callback few =
    elim (Option-cases (get_available_engine c.engines)) [
      | inl n ↦ rw (n, run_transfer) (_, refl, refl, refl, refl)
      | inr ((i, es), n) ↦
          let c1 : Controller = record c { engines = es } in
          elim (Option-cases (start_transfer c1 h.buffer size dir 0)) [
            | inl f ↦ rw (n, f, run_transfer) (_, refl, refl, refl, refl)
            | inr (c2, f) ↦
                let taken = get_available_engine-idle_count c.engines i es n in
                let more = start_transfer-idle_count c1 h.buffer size dir 0 c2 f in
                absurd (omega (arith, taken, more))
          ]
    ]

-- With at most one engine idle no transfer succeeds, blocking or not, whatever it asks for, and
-- nothing is programmed: with a single engine the controller cannot make any transfer.
pub transfer_needs_two :
    (fuel : ℕ) (polls : ℕ → ℕ → ℕ) (c : Controller) (h : Option Handle) (size : ℕ)
    (dir : TransferDirection) (type : TransferType) (callback : Bool)
    → idle_count c.engines ≤ 1
    → FailsQuietly c (transfer fuel polls c h size dir type callback)
unfolding transfer
transfer_needs_two fuel polls c none size dir type callback few = (_, refl, refl, refl, refl)
transfer_needs_two fuel polls c (some h) size dir type callback few =
    elim (Bool-cases (size == 0 || ltb h.buffer.size size)) [
      | inl bad ↦ rw bad (_, refl, refl, refl, refl)
      | inr good ↦ elim (Bool-cases (ltb size 64 || ltb max_dma_transfer_size size)) [
        | inl bad ↦ rw (good, bad) (_, refl, refl, refl, refl)
        | inr fine ↦
            rw (good, fine) (run_transfer-FailsQuietly fuel polls c h size dir type callback few)
      ]
    ]

-- Blocking transfers one after the other: how many succeed, and the controller after the last.
unfoldable pub run_blocking : ℕ → Controller → List Request → Option (ℕ × Controller)
run_blocking fuel c [] = some (0, c)
run_blocking fuel c (r ∷ rs) =
    elim (transfer fuel r.polls c r.buffer r.size r.direction blocking false) [
      | none ↦ none
      | some t ↦
          Option.map (λ s. ((if t.result.success then s.0 + 1 else s.0), s.1))
            (run_blocking fuel t.controller rs)
    ]

-- Any sequence of blocking transfers, each of which has a poll within the fuel that shows an end, comes
-- to its end; the number of successes is the number of engines lost, and while there are any, an idle
-- engine is left: k idle engines serve at most k - 1 transfers, ever.
pub run_blocking_leak :
    (fuel : ℕ) (rs : List Request) (c : Controller)
    → All (ShowsEnd fuel c.engines) rs
    → (n : ℕ) × (c' : Controller) × (run_blocking fuel c rs ≡ some (n, c'))
      × (n + idle_count c'.engines ≡ idle_count c.engines)
      × ((n ≡ 0) ⊎ (n + 1 ≤ idle_count c.engines))
unfolding run_blocking
run_blocking_leak fuel [] c shown = (0, c, refl, omega arith, inl refl)
run_blocking_leak fuel (r ∷ rs) c (first, rest) =
    let (t, et, same) = transfer-Returns fuel r c first in
    let next =
      All-map (ShowsEnd fuel c.engines) (ShowsEnd fuel t.controller.engines)
        (λ q (j, bytes, soon, e). (j, bytes, soon, same (q.polls j) ∙ e)) rs rest in
    let (k, d, er, lost, few) = run_blocking_leak fuel rs t.controller next in
    let cost = transfer-Cost fuel r.polls c r.buffer r.size r.direction false t et in
    (
      (if t.result.success then k + 1 else k),
      d,
      rw (et, er, run_blocking) refl,
      ground arith,
      ground arith,
    )
