-- ===== src/Fpga/Hardware/Compression.antt =====
-- The hardware path of executeCompressionOperation: which registers it writes, and how it ends.
use satellite_quic_proxy.Base.{
  ℕ, ◌%◌, ◌≤◌, Option, none, some, List, [], ◌∷◌, ◌++◌, length, arith, u32_mod,
}
use satellite_quic_proxy.Dma.Buffers.{Buffer}
use satellite_quic_proxy.Fpga.Operation.{
  FpgaOperationType, failed_to_select_compression, failed_to_set_operation_type,
  failed_to_configure_buffers,
}
use satellite_quic_proxy.Fpga.Session.{
  Device, Session, Ended, ◌>>=◌, allocate, reg_control, reg_module_select, reg_op_type,
  reg_data_addr, reg_data_size,
}
use satellite_quic_proxy.Fpga.Session.Rules.{Ends, Ends-bind, Ends-weaken, Did, Did-refl, Kept}
use satellite_quic_proxy.Fpga.Session.Accesses.{
  Known, With, output_program, write_output_lem, require_lem, and_then_lem, copy_in_null,
  write_register_lem, write_address_lem, copy_in_lem,
}
use satellite_quic_proxy.Fpga.Session.Allocation.{Needs, Cause, oversized, Answered, allocate_lem}
use satellite_quic_proxy.Fpga.Session.Waiting.{Sleeps, enough_polls, Fetched, run_started_lem}
use satellite_quic_proxy.Fpga.Hardware.{
  compression_code, compression_output_size, configure_compression, start_compression,
  run_compression,
}

-- The registers that describe an operation, with the low 32 bits of each address and size.
abbrev pub compression_program : FpgaOperationType → ℕ → Buffer → Buffer → List (ℕ × ℕ)
compression_program type n input output =
    (reg_module_select, 2 % u32_mod)
    ∷ (reg_op_type, compression_code type % u32_mod)
    ∷ (reg_data_addr, input.physical_address % u32_mod)
    ∷ (reg_data_size, n % u32_mod)
    ∷ output_program output

abbrev pub compression_needs : FpgaOperationType → ℕ → Needs
compression_needs type n = record {
  buffers = 2;
  least = n;
  most = compression_output_size type n;
  output = compression_output_size type n;
}

le_output_size : (type : FpgaOperationType) (n : ℕ) → n ≤ compression_output_size type n
unfolding compression_output_size
le_output_size type n = ground arith

configure_compression_lem :
    (device : Device) (s₀ : Session) (F : Type 0) (n : ℕ) (cs : List (ℕ × List ℕ))
    (type : FpgaOperationType) (size : ℕ) (input : Buffer) (output : Option Buffer) (s : Session)
    → Known F output
    → Did s₀ n [] cs s
    → Ends
        (λ _. With (λ b. Did s₀ n (compression_program type size input b) cs) output)
        (Kept s₀)
        F
        (configure_compression device type size (some input) output s)
unfolding configure_compression
configure_compression_lem device s₀ F n cs type size input output s c d =
    Ends-bind _ _
      (require_lem _ failed_to_select_compression s
        (write_register_lem device s₀ F n reg_module_select 2 [] cs s d))
      λ _ s₁ d₁.
        Ends-bind _ _
          (require_lem _ failed_to_set_operation_type s₁
            (write_register_lem device s₀ F n reg_op_type (compression_code type) _ cs s₁ d₁))
          λ _ s₂ d₂. require_lem _ failed_to_configure_buffers s₂ (
            and_then_lem _ _ s₂ (write_address_lem device s₀ F n reg_data_addr input _ cs s₂ d₂)
              λ s₃ d₃.
                and_then_lem _ _ s₃ (write_register_lem device s₀ F n reg_data_size size _ cs s₃ d₃)
                  λ s₄ d₄. write_output_lem device s₀ F n _ cs output s₄ c d₄)

-- What a compression that returns has done.
abbrev pub Compressed :
    Device → FpgaOperationType → List ℕ → Session → List ℕ × ℕ → Session → Type 0
Compressed device type bytes s r s' =
    (input : Buffer) × (output : Buffer) × (length bytes ≤ input.size)
    × (compression_output_size type (length bytes) ≤ output.size)
    × Fetched device output r.0
    × Did s 2 (compression_program type (length bytes) input output ++ ((reg_control, 1) ∷ []))
        ((input.virtual_address, bytes) ∷ []) s'

abbrev Compressing : Device → FpgaOperationType → List ℕ → Session → Ended (List ℕ × ℕ) → Type 0
Compressing device type bytes s₀ =
    Ends (Compressed device type bytes s₀) (Kept s₀)
      (Cause device s₀ (compression_needs type (length bytes)))

start_compression_lem :
    (device : Device) (type : FpgaOperationType) (bytes : List ℕ) (s₀ : Session) (fuel : ℕ)
    (i : Buffer) (output : Option Buffer) (s : Session)
    → Sleeps device
    → enough_polls ≤ fuel
    → length bytes ≤ i.size
    → Answered device s₀
        (compression_needs type (length bytes))
        (compression_output_size type (length bytes))
        1
        []
        []
        output
        s
    → Compressing device type bytes s₀ (start_compression device fuel type bytes (some i) output s)
unfolding start_compression
start_compression_lem device type bytes s₀ fuel i none s sleeps enough fits h =
    let F : Type 0 = Cause device s₀ (compression_needs type (length bytes)) in
    Ends-bind _ _ (copy_in_lem device s₀ F 1 i bytes [] [] s fits h.1) λ _ s₁ d₁.
      Ends-bind _ _ (configure_compression_lem device s₀ F 1 _ type (length bytes) i none s₁ h.0 d₁)
        λ _ s₂ d₂. absurd d₂
start_compression_lem device type bytes s₀ fuel i (some o) s sleeps enough fits h =
    let F : Type 0 = Cause device s₀ (compression_needs type (length bytes)) in
    Ends-bind _ _ (copy_in_lem device s₀ F 2 i bytes [] [] s fits h.1) λ _ s₁ d₁.
      Ends-bind _ _
        (configure_compression_lem device s₀ F 2 _ type (length bytes) i (some o) s₁ tt d₁)
        λ _ s₂ d₂.
          Ends-weaken _
            (run_started_lem device s₀ F 2 _ _ o fuel s₂ sleeps enough
              (λ k size e over. oversized k size e (omega (arith, h.0))) d₂)
            λ r s₃ d₃. (i, o, fits, h.0, d₃.0, d₃.1)

null_input :
    (device : Device) (type : FpgaOperationType) (bytes : List ℕ) (s₀ : Session) (fuel : ℕ)
    (output : Option Buffer) (s : Session)
    → Cause device s₀ (compression_needs type (length bytes))
    → Compressing device type bytes s₀ (start_compression device fuel type bytes none output s)
unfolding start_compression
null_input device type bytes s₀ fuel output s c =
    Ends-bind _ _ (copy_in_null {P = λ _ _. ⊥} bytes s c) λ _ s₁ never. absurd never

-- With enough fuel for the time-out and a clock that gains the 100 microseconds that each poll
-- sleeps, a session of a compression ends in one of three ways. It returns, and then it has allocated
-- two buffers of the sizes asked for, copied the input into the first, and written the registers of
-- the operation in order, with the start behind them; and what it returns are bytes of the second
-- buffer, no more than that holds. Or it ends by an exception, and the table of buffers has not
-- shrunk nor passed its bound. Or it leaves the defined behaviour, for one of the causes listed.
pub run_compression-Ends :
    (device : Device) (type : FpgaOperationType) (bytes : List ℕ) (s₀ : Session) (fuel : ℕ)
    → Sleeps device
    → enough_polls ≤ fuel
    → Ends
        (Compressed device type bytes s₀)
        (Kept s₀)
        (Cause device s₀ (compression_needs type (length bytes)))
        (run_compression device fuel type bytes s₀)
unfolding run_compression
run_compression-Ends device type bytes s₀ fuel sleeps enough =
    let needs : Needs = compression_needs type (length bytes) in
    let room = le_output_size type (length bytes) in
    Ends-bind _ _
      (allocate_lem device s₀ needs (length bytes) 0 [] [] s₀ (omega arith) room (omega arith)
        (Did-refl s₀))
      go
  where
    go :
        (input : Option Buffer) (s₁ : Session)
        → Answered device s₀ (compression_needs type (length bytes)) (length bytes) 0 [] [] input s₁
        → Compressing device type bytes s₀ (
            (allocate device (compression_output_size type (length bytes)) >>= λ output.
            start_compression device fuel type bytes input output)
              s₁)
    go none s₁ h =
        Ends-bind _ _
          (allocate_lem device s₀ (compression_needs type (length bytes)) _ 0 [] [] s₁
            (le_output_size type (length bytes)) (omega arith) (omega arith) h.1)
          λ output s₂ h₂. null_input device type bytes s₀ fuel output s₂ h.0
    go (some i) s₁ h =
        Ends-bind _ _
          (allocate_lem device s₀ (compression_needs type (length bytes)) _ 1 [] [] s₁
            (le_output_size type (length bytes)) (omega arith) (omega arith) h.1)
          λ output s₂ h₂.
            start_compression_lem device type bytes s₀ fuel i output s₂ sleeps enough h.0 h₂
