-- ===== src/Dma/Controller/Errors.antt =====
-- What a blocking transfer reports about the end that its polls see.
use satellite_quic_proxy.Base.{
  ℕ, ◌+◌, ◌≤◌, ◌<◌, ◌≡◌, refl, ◌∙◌, Bool, none, some, List, ◌++◌, arith, ◌%◌, u32_mod,
}
use satellite_quic_proxy.Dma.Engine.{
  DmaEngine, TransferDirection, get_available_engine, check_complete, program_engine,
}
use satellite_quic_proxy.Dma.Engine.Idle.{
  idle_count, get_available_engine-some, get_available_engine-idle_count,
  get_available_engine-IsBusyAt, check_complete-taken,
}
use satellite_quic_proxy.Dma.Engine.Waiting.{ErrorFirst, check_complete_error}
use satellite_quic_proxy.Dma.Controller.{
  Controller, Handle, blocking, Transferred, succeeded, start_transfer, poll_loop, run_started,
  TransferType, returns, release_engine, run_transfer, transfer, min_dma_transfer_size,
  max_dma_transfer_size,
}
use satellite_quic_proxy.Dma.Controller.Ending.{poll_loop_first}

start_transfer-check_complete :
    (c : Controller) (h : Handle) (size : ℕ) (dir : TransferDirection)
    → 0 < idle_count c.engines
    → (c' : Controller) × (start_transfer c h.buffer size dir 0 ≡ some c')
      × ((read : ℕ → ℕ) → check_complete read c'.engines 0 ≡ check_complete read c.engines 0)
unfolding start_transfer
start_transfer-check_complete c h size dir some_ =
    let ((j, es), n) = get_available_engine-some c.engines some_ in
    let (d, at, busy) = get_available_engine-IsBusyAt c.engines j es n in
    (
      record c {
        engines = es;
        writes = c.writes ++ program_engine d 0 h.buffer size dir c.next_transfer_id;
        next_transfer_id = (c.next_transfer_id + 1) % u32_mod;
      },
      rw (n, at, start_transfer) refl,
      λ read. check_complete-taken read c.engines j es 0 n,
    )

run_transfer_found :
    (fuel : ℕ) (polls : ℕ → ℕ → ℕ) (c : Controller) (h : Handle) (size : ℕ)
    (dir : TransferDirection) (callback : Bool) (i : ℕ) (es : List DmaEngine) (c2 : Controller)
    (bytes : ℕ)
    → get_available_engine c.engines ≡ some (i, es)
    → start_transfer (record c { engines = es }) h.buffer size dir 0 ≡ some c2
    → poll_loop fuel polls 0 c2.engines 0 ≡ some bytes
    → run_transfer fuel polls c h size dir blocking callback
      ≡ some (returns (succeeded bytes) (release_engine i c2))
unfolding run_transfer run_started
run_transfer_found fuel polls c h size dir callback i es c2 bytes n f found = ground arith

transfer_admitted :
    (fuel : ℕ) (polls : ℕ → ℕ → ℕ) (c : Controller) (h : Handle) (size : ℕ)
    (dir : TransferDirection) (type : TransferType) (callback : Bool)
    → size ≤ h.buffer.size
    → min_dma_transfer_size ≤ size
    → size ≤ max_dma_transfer_size
    → transfer fuel polls c (some h) size dir type callback
      ≡ run_transfer fuel polls c h size dir type callback
unfolding transfer
transfer_admitted fuel polls c h size dir type callback fits low high = ground arith

-- With two idle engines and a size that the buffer and the limits admit, a blocking transfer returns
-- success with the bytes of the first poll that sees an end, on the engines as they were.
pub transfer_ends :
    (fuel : ℕ) (polls : ℕ → ℕ → ℕ) (c : Controller) (h : Handle) (size : ℕ)
    (dir : TransferDirection) (callback : Bool) (j bytes : ℕ)
    → 2 ≤ idle_count c.engines
    → size ≤ h.buffer.size
    → min_dma_transfer_size ≤ size
    → size ≤ max_dma_transfer_size
    → ((i : ℕ) → i < j → check_complete (polls i) c.engines 0 ≡ none)
    → check_complete (polls j) c.engines 0 ≡ some bytes
    → j < fuel
    → (t : Transferred) × (transfer fuel polls c (some h) size dir blocking callback ≡ some t)
      × (t.result ≡ succeeded bytes)
transfer_ends fuel polls c h size dir callback j bytes two fits low high before at room =
    let ((i, es), n) = get_available_engine-some c.engines (omega arith) in
    let c1 : Controller = record c { engines = es } in
    let (c2, f, same) =
      start_transfer-check_complete c1 h size dir
        (omega (arith, get_available_engine-idle_count c.engines i es n)) in
    let seen = λ (k : ℕ). same (polls k) ∙ check_complete-taken (polls k) c.engines i es 0 n in
    let shifted : 0 + j ≡ j = omega arith in
    let found : poll_loop fuel polls 0 c2.engines 0 ≡ some bytes =
      poll_loop_first fuel polls 0 j c2.engines 0 bytes (λ k lo hi. seen k ∙ before k (omega arith))
        (rw shifted (seen j ∙ at)) room in
    (
      returns (succeeded bytes) (release_engine i c2),
      transfer_admitted fuel polls c h size dir blocking callback fits low high
          ∙ run_transfer_found fuel polls c h size dir callback i es c2 bytes n f found,
      refl,
    )

-- A blocking transfer of a permitted size, with two engines idle, that the hardware ends with an
-- error is reported as a success of 0 bytes, with error code 0 and no message, given fuel beyond
-- the poll that shows the error: the branch that reads the error register is never taken.
pub transfer_error_is_success :
    (fuel : ℕ) (polls : ℕ → ℕ → ℕ) (c : Controller) (h : Handle) (size : ℕ)
    (dir : TransferDirection) (callback : Bool) (j : ℕ)
    → 2 ≤ idle_count c.engines
    → size ≤ h.buffer.size
    → min_dma_transfer_size ≤ size
    → size ≤ max_dma_transfer_size
    → ((i : ℕ) → i < j → check_complete (polls i) c.engines 0 ≡ none)
    → ErrorFirst (polls j) c.engines
    → j < fuel
    → (t : Transferred) × (transfer fuel polls c (some h) size dir blocking callback ≡ some t)
      × (t.result ≡ succeeded 0)
transfer_error_is_success fuel polls c h size dir callback j two fits low high before err room =
    transfer_ends fuel polls c h size dir callback j 0 two fits low high before
      (check_complete_error (polls j) c.engines err) room
