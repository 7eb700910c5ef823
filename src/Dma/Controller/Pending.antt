-- ===== src/Dma/Controller/Pending.antt =====
-- The list of pending transfers: from the start of a non-blocking transfer to its end, and what
-- `isTransferComplete` and `waitForTransfer` say in between.
use satellite_quic_proxy.Base.{
  ℕ, zero, suc, ◌+◌, ◌≤◌, ◌<◌, ◌≡◌, refl, Bool, true, false, ◌&&◌, Option, none, some, List, [],
  ◌∷◌, ◌++◌, arith, ltb, leb, if◌then◌else◌, Bool-cases, Option-cases, inl, inr, ◌∙◌,
}
use satellite_quic_proxy.Dma.Engine.{TransferDirection, get_available_engine, set_idle}
use satellite_quic_proxy.Dma.Controller.{
  Controller, Handle, PendingTransfer, non_blocking, TransferResult, Transferred, failed, succeeded,
  timeout_waiting, pending_for, start_transfer, poll_loop, run_started, run_transfer, transfer,
  find_pending, complete_first, run_thread, is_transfer_complete, wait_loop, wait_for_transfer,
}

start_transfer-pending :
    (c : Controller) (h : Handle) (size : ℕ) (dir : TransferDirection) (c' : Controller)
    → start_transfer c h.buffer size dir 0 ≡ some c'
    → c'.pending ≡ c.pending
unfolding start_transfer
start_transfer-pending c h size dir c' e = ground arith

-- A non-blocking transfer that starts puts its record at the end of the list.
transfer-pending :
    (fuel : ℕ) (polls : ℕ → ℕ → ℕ) (c : Controller) (h : Handle) (size : ℕ)
    (dir : TransferDirection) (callback : Bool) (t : Transferred)
    → transfer fuel polls c (some h) size dir non_blocking callback ≡ some t
    → t.result.success ≡ true
    → t.controller.pending ≡ c.pending ++ (pending_for h size dir callback ∷ [])
unfolding transfer run_transfer run_started
transfer-pending fuel polls c h size dir callback t e ok =
    elim (Option-cases (get_available_engine c.engines)) [
      | inl n ↦ absurd (ground arith)
      | inr ((i, es), n) ↦
          let c1 : Controller = record c { engines = es } in
          elim (Option-cases (start_transfer c1 h.buffer size dir 0)) [
            | inl f ↦ absurd (ground arith)
            | inr (c2, f) ↦ ground (arith, start_transfer-pending c1 h size dir c2 f)
          ]
    ]

find_pending-append_some :
    (pointer : ℕ) (ps qs : List PendingTransfer) (p : PendingTransfer)
    → find_pending pointer ps ≡ some p
    → find_pending pointer (ps ++ qs) ≡ some p
unfolding find_pending
find_pending-append_some pointer [] qs p e = absurd (ground arith)
find_pending-append_some pointer (x ∷ ps) qs p e =
    ground (arith, find_pending-append_some pointer ps qs p)

find_pending-append_none :
    (pointer : ℕ) (ps qs : List PendingTransfer)
    → find_pending pointer ps ≡ none
    → find_pending pointer (ps ++ qs) ≡ find_pending pointer qs
unfolding find_pending
find_pending-append_none pointer [] qs e = refl
find_pending-append_none pointer (x ∷ ps) qs e =
    ground (arith, find_pending-append_none pointer ps qs)

-- Records are never removed, and the first one answers: once a transfer of a buffer has completed,
-- a new non-blocking transfer on the same buffer that starts well counts as complete from its start
-- on, and waiting for it returns the result of the old one at once.
pub transfer_stale :
    (fuel : ℕ) (polls : ℕ → ℕ → ℕ) (c : Controller) (h : Handle) (size : ℕ)
    (dir : TransferDirection) (callback : Bool) (t : Transferred) (p : PendingTransfer)
    → find_pending h.pointer c.pending ≡ some p
    → p.completed ≡ true
    → transfer fuel polls c (some h) size dir non_blocking callback ≡ some t
    → t.result.success ≡ true
    → (is_transfer_complete t.controller (some h) ≡ true)
      × ((rounds : ℕ) (view : ℕ → PendingTransfer) (elapsed : ℕ → ℕ) (timeout : ℕ)
          → wait_for_transfer rounds view elapsed t.controller (some h) timeout ≡ some p.result)
unfolding is_transfer_complete wait_for_transfer
transfer_stale fuel polls c h size dir callback t p old over e ok =
    let queued : find_pending h.pointer t.controller.pending ≡ some p =
      rw (transfer-pending fuel polls c h size dir callback t e ok)
        (find_pending-append_some h.pointer c.pending _ p old) in
    (ground arith, λ rounds view elapsed timeout. ground arith)

complete_first-find :
    (pointer : ℕ) (r : TransferResult) (ps : List PendingTransfer) (p : PendingTransfer)
    → find_pending pointer ps ≡ some p
    → p.completed ≡ false
    → find_pending pointer (complete_first pointer r ps).0
      ≡ some (record p { completed = true; result = r })
unfolding find_pending complete_first
complete_first-find pointer r [] p e open_ = absurd (ground arith)
complete_first-find pointer r (x ∷ ps) p e open_ =
    ground (arith, complete_first-find pointer r ps p)

complete_first-called :
    (pointer : ℕ) (r : TransferResult) (ps : List PendingTransfer) (p : PendingTransfer)
    → find_pending pointer ps ≡ some p
    → p.completed ≡ false
    → (complete_first pointer r ps).1 ≡ (if p.callback then some r else none)
unfolding find_pending complete_first
complete_first-called pointer r [] p e open_ = absurd (ground arith)
complete_first-called pointer r (x ∷ ps) p e open_ =
    ground (arith, complete_first-called pointer r ps p)

-- A non-blocking transfer of a buffer that has no transfer on record: it is not complete when it
-- has started well, and when its thread has ended it is complete, waiting returns the bytes of the
-- poll that ended it, and a callback that was given is called with just that result.
pub transfer_lifecycle :
    (fuel : ℕ) (polls : ℕ → ℕ → ℕ) (c : Controller) (h : Handle) (size : ℕ)
    (dir : TransferDirection) (callback : Bool) (t : Transferred) (i bytes : ℕ)
    → find_pending h.pointer c.pending ≡ none
    → transfer fuel polls c (some h) size dir non_blocking callback ≡ some t
    → t.result.success ≡ true
    → poll_loop fuel polls 0 t.controller.engines 0 ≡ some bytes
    → (is_transfer_complete t.controller (some h) ≡ false)
      × ((c' : Controller) × (run_thread fuel polls t.controller h i
            ≡ some (c', (if callback then some (succeeded bytes) else none)))
          × (is_transfer_complete c' (some h) ≡ true)
          × ((rounds : ℕ) (view : ℕ → PendingTransfer) (elapsed : ℕ → ℕ) (timeout : ℕ)
              → wait_for_transfer rounds view elapsed c' (some h) timeout ≡ some (succeeded bytes)))
unfolding is_transfer_complete wait_for_transfer run_thread
transfer_lifecycle fuel polls c h size dir callback t i bytes fresh e ok ends =
    let p : PendingTransfer = pending_for h size dir callback in
    let alone : find_pending h.pointer (p ∷ []) ≡ some p = unfold find_pending in ground arith in
    let queued : find_pending h.pointer t.controller.pending ≡ some p =
      rw (transfer-pending fuel polls c h size dir callback t e ok)
        (find_pending-append_none h.pointer c.pending (p ∷ []) fresh ∙ alone) in
    let found =
      complete_first-find h.pointer (succeeded bytes) t.controller.pending p queued refl in
    let called =
      complete_first-called h.pointer (succeeded bytes) t.controller.pending p queued refl in
    (
      ground arith,
      (
        record t.controller {
          engines = set_idle i t.controller.engines;
          pending = (complete_first h.pointer (succeeded bytes) t.controller.pending).0;
        },
        ground arith,
        ground arith,
        λ rounds view elapsed timeout. ground arith,
      ),
    )

wait_loop_ends :
    (fuel : ℕ) (view : ℕ → PendingTransfer) (elapsed : ℕ → ℕ) (timeout k : ℕ)
    → 0 < timeout
    → ((j : ℕ) → j ≤ elapsed j)
    → k ≤ timeout
    → timeout < fuel + k
    → (r : TransferResult) × (wait_loop fuel view elapsed timeout k ≡ some r)
unfolding wait_loop
wait_loop_ends zero view elapsed timeout k pos clock start room = absurd (omega arith)
wait_loop_ends (suc fuel) view elapsed timeout k pos clock start room =
    elim (Bool-cases (view k).completed) [
      | inl over ↦ ((view k).result, rw (over, wait_loop) refl)
      | inr open_ ↦ elim (Bool-cases (ltb 0 timeout && leb timeout (elapsed k))) [
        | inl late ↦ (failed timeout_waiting, rw (open_, late, wait_loop) refl)
        | inr early ↦
            rw (open_, early, wait_loop)
              (wait_loop_ends fuel view elapsed timeout (k + 1) pos clock (ground (arith, clock k))
                (omega arith))
      ]
    ]

-- Waiting with a timeout always returns: on a clock that gains at least the millisecond that each
-- round sleeps, `timeout + 1` rounds are enough, whatever becomes of the transfer.
pub wait_for_transfer_ends :
    (view : ℕ → PendingTransfer) (elapsed : ℕ → ℕ) (c : Controller) (h : Option Handle)
    (timeout : ℕ)
    → 0 < timeout
    → ((j : ℕ) → j ≤ elapsed j)
    → (r : TransferResult) × (wait_for_transfer (timeout + 1) view elapsed c h timeout ≡ some r)
unfolding wait_for_transfer
wait_for_transfer_ends view elapsed c none timeout pos clock = (_, refl)
wait_for_transfer_ends view elapsed c (some h) timeout pos clock =
    elim (Option-cases (find_pending h.pointer c.pending)) [
      | inl n ↦ rw (n, wait_for_transfer) (_, refl)
      | inr (p, n) ↦ elim (Bool-cases p.completed) [
        | inl over ↦ (p.result, ground arith)
        | inr open_ ↦
            let (r, e) =
              wait_loop_ends (timeout + 1) view elapsed timeout 0 pos clock (omega arith)
                (omega arith) in
            (r, ground arith)
      ]
    ]
