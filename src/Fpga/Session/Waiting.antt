-- ===== src/Fpga/Session/Waiting.antt =====
-- The polls of the status register end, and what a session does from CTRL_START to the result.
use satellite_quic_proxy.Base.{
  ℕ, zero, suc, ◌+◌, ◌*◌, ◌≡◌, ◌≤◌, ◌<◌, refl, true, false, some, List, [], ◌∷◌, ◌++◌, ltb, ltb→le,
  ltb→lt, Bool-cases, inl, inr, arith,
}
use satellite_quic_proxy.Dma.Buffers.{Buffer}
use satellite_quic_proxy.Fpga.Session.{
  Device, Session, read_register, or_raise, deref, copy_out, is_done, is_error,
  operation_timeout_ms, wait_until_done, check_error, bytes_at, run_started, reg_control,
  reg_status, reg_processing_time, reg_error_code, reg_result_size,
}
use satellite_quic_proxy.Fpga.Operation.{
  failed_to_read_status, failed_to_start, failed_to_read_processing_time, failed_to_read_error_code,
  failed_to_read_result_size,
}
use satellite_quic_proxy.Fpga.Session.Rules.{
  Ends, returned_with, raised_with, faulted, Ends-bind, Did, Kept, Did-Kept,
}
use satellite_quic_proxy.Fpga.Session.Accesses.{require_lem, write_register_lem, read_register_lem}

-- Every poll but the first comes at least 100 microseconds after the one before it.
abbrev pub Sleeps : Device → Type 0
Sleeps device = (k : ℕ) → k ≤ 10 * device.elapsed k + 9

-- The rounds that the time-out of 5 seconds leaves room for.
abbrev pub enough_polls : ℕ
enough_polls = 50011

-- The bytes that a copy returns are those of the output buffer, and it holds them all.
abbrev pub Fetched : Device → Buffer → List ℕ → Type 0
Fetched device b bytes = (n : ℕ) × (n ≤ b.size) × (bytes ≡ bytes_at device n b.virtual_address)

module _ (device : Device) (s₀ : Session) (F : Type 0) (n : ℕ) (ws : List (ℕ × ℕ))
    (cs : List (ℕ × List ℕ)) where
  -- The wait ends, and by a value only if that has the bit of an end.
  pub wait_until_done_lem :
      (fuel k : ℕ) (s : Session)
      → Sleeps device
      → 0 < fuel
      → enough_polls ≤ fuel + k
      → Did s₀ n ws cs s
      → Ends
          (λ status s'. (is_done status ≡ true) × Did s₀ n ws cs s')
          (Kept s₀)
          F
          (wait_until_done device fuel k s)
  unfolding wait_until_done
  wait_until_done_lem zero k s sleeps some_ enough w = absurd (omega arith)
  wait_until_done_lem (suc fuel) k s sleeps some_ enough w =
      Ends-bind (or_raise (read_register device reg_status) failed_to_read_status s) _
        (read_register_lem device s₀ F n reg_status failed_to_read_status ws cs s w)
        λ status s' w'. elim (Bool-cases (is_done status)) [
          | inl e ↦ rw e (returned_with (e, w'.1))
          | inr e ↦ elim (Bool-cases (is_error status)) [
            | inl bad ↦ rw (e, bad) (raised_with (Did-Kept w'.1))
            | inr good ↦ elim (Bool-cases (ltb operation_timeout_ms (device.elapsed k))) [
              | inl late ↦ rw (e, good, late) (raised_with (Did-Kept w'.1))
              | inr early ↦
                  let soon : device.elapsed k ≤ 5000 = ltb→le 5000 (device.elapsed k) early in
                  rw (e, good, early)
                    (wait_until_done_lem fuel (k + 1) s' sleeps (omega (arith, sleeps k))
                      (omega arith) w'.1)
            ]
          ]
        ]

  -- An error that the device reports together with the end is an exception.
  pub check_error_lem :
      (status : ℕ) (s : Session)
      → Did s₀ n ws cs s
      → Ends
          (λ _ s'. (is_error status ≡ false) × Did s₀ n ws cs s')
          (Kept s₀)
          F
          (check_error device status s)
  unfolding check_error
  check_error_lem status s w = elim (Bool-cases (is_error status)) [
    | inl e ↦ rw e (
        Ends-bind (or_raise (read_register device reg_error_code) failed_to_read_error_code s) _
          (read_register_lem device s₀ F n reg_error_code failed_to_read_error_code ws cs s w)
          λ code s' w'. raised_with (Did-Kept w'.1))
    | inr e ↦ rw e (returned_with (refl, w))
  ]

  pub copy_out_lem :
      (b : Buffer) (size : ℕ) (s : Session)
      → (b.size < size → F)
      → Did s₀ n ws cs s
      → Ends
          (λ bytes s'. Fetched device b bytes × Did s₀ n ws cs s')
          (Kept s₀)
          F
          (copy_out device (some b) size s)
  unfolding copy_out deref
  copy_out_lem b size s big w = elim (Bool-cases (ltb b.size size)) [
    | inl e ↦ rw e (faulted (big (ltb→lt b.size size e)))
    | inr e ↦ rw e (returned_with ((size, ltb→le b.size size e, refl), w))
  ]

-- From CTRL_START on one register is written, and what is returned comes from the output buffer.
pub run_started_lem :
    (device : Device) (s₀ : Session) (F : Type 0) (n : ℕ) (ws : List (ℕ × ℕ))
    (cs : List (ℕ × List ℕ)) (b : Buffer) (fuel : ℕ) (s : Session)
    → Sleeps device
    → enough_polls ≤ fuel
    → ((k size : ℕ) → device.read k reg_result_size ≡ some size → b.size < size → F)
    → Did s₀ n ws cs s
    → Ends
        (λ r s'. Fetched device b r.0 × Did s₀ n (ws ++ ((reg_control, 1) ∷ [])) cs s')
        (Kept s₀)
        F
        (run_started device fuel (some b) s)
unfolding run_started
run_started_lem device s₀ F n ws cs b fuel s sleeps enough big w =
    let ws' : List (ℕ × ℕ) = ws ++ ((reg_control, 1) ∷ []) in
    Ends-bind _ _
      (require_lem _ failed_to_start s (write_register_lem device s₀ F n reg_control 1 ws cs s w))
      λ _ s₁ w₁.
        Ends-bind _ _
          (wait_until_done_lem device s₀ F n ws' cs fuel 0 s₁ sleeps (omega arith) (omega arith) w₁)
          λ status s₂ w₂.
            Ends-bind _ _
              (read_register_lem device s₀ F n reg_processing_time failed_to_read_processing_time
                ws' cs s₂ w₂.1)
              λ time s₃ w₃.
                Ends-bind _ _ (check_error_lem device s₀ F n ws' cs status s₃ w₃.1) λ _ s₄ w₄.
                  Ends-bind _ _
                    (read_register_lem device s₀ F n reg_result_size failed_to_read_result_size ws'
                      cs s₄ w₄.1)
                    λ size s₅ w₅.
                      Ends-bind _ _
                        (copy_out_lem device s₀ F n ws' cs b size s₅ (big w₅.0.0 size w₅.0.1) w₅.1)
                        λ bytes s₆ w₆. returned_with w₆
