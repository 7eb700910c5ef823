-- ===== src/Fpga/Hardware/Packets.antt =====
-- The hardware path of executePacketOperation: which registers it writes, and how it ends.
use satellite_quic_proxy.Base.{
  ℕ, ◌+◌, ◌/◌, ◌%◌, ◌≤◌, ◌<◌, ◌≡◌, inl, inr, Option, none, some, List, [], ◌∷◌, ◌++◌, length, arith,
  u32_mod, Option-cases,
}
use satellite_quic_proxy.Dma.Buffers.{Buffer}
use satellite_quic_proxy.Fpga.Operation.{
  FpgaOperationType, failed_to_select_packet, failed_to_set_operation_type,
  failed_to_set_connection, failed_to_configure_input, failed_to_set_zero_input,
  failed_to_configure_output,
}
use satellite_quic_proxy.Fpga.Session.{
  Device, Session, Ended, reg_control, reg_module_select, reg_op_type, reg_data_addr, reg_data_size,
  reg_connection_id_high, reg_connection_id_low, reg_packet_number,
}
use satellite_quic_proxy.Fpga.Session.Rules.{
  Ends, raised_with, Ends-bind, Ends-weaken, Did, Did-refl, Did-Kept, Did-count, Kept,
}
use satellite_quic_proxy.Fpga.Session.Accesses.{
  Known, With, output_program, write_output_lem, require_lem, and_then_lem, two_writes,
  write_register_lem, write_address_lem,
}
use satellite_quic_proxy.Fpga.Session.Allocation.{Needs, Cause, oversized, Answered, allocate_lem}
use satellite_quic_proxy.Fpga.Session.Waiting.{Sleeps, enough_polls, Fetched, run_started_lem}
use satellite_quic_proxy.Fpga.Hardware.{
  packet_code, packet_output_size, configure_input, configure_packet, start_packet, run_packet,
}
use satellite_quic_proxy.Fpga.Hardware.Inputs.{
  input_copies, given, Given, allocate_input_lem, copy_input_lem,
}

-- What is programmed of an input: a size of 0 where it has no buffer.
abbrev pub input_program : ℕ → Option Buffer → List (ℕ × ℕ)
input_program n none = (reg_data_size, 0 % u32_mod) ∷ []
input_program n (some b) =
    (reg_data_addr, b.physical_address % u32_mod) ∷ (reg_data_size, n % u32_mod) ∷ []

abbrev pub packet_head : ℕ → ℕ → ℕ → List (ℕ × ℕ)
packet_head code connection number =
    (reg_module_select, 4 % u32_mod)
    ∷ (reg_op_type, code % u32_mod)
    ∷ (reg_connection_id_high, connection / u32_mod % u32_mod)
    ∷ (reg_connection_id_low, connection % u32_mod % u32_mod)
    ∷ (reg_packet_number, number % u32_mod)
    ∷ []

-- The registers that describe an operation, with the low 32 bits of each address and size; the
-- identifier of the connection goes in two halves.
abbrev pub packet_program : ℕ → ℕ → ℕ → ℕ → Option Buffer → Buffer → List (ℕ × ℕ)
packet_program code n connection number input output =
    (packet_head code connection number ++ input_program n input) ++ output_program output

abbrev pub input_buffers : List ℕ → ℕ
input_buffers [] = 0
input_buffers (x ∷ bytes) = 1

abbrev pub packet_needs : FpgaOperationType → List ℕ → Needs
packet_needs type bytes = record {
  buffers = input_buffers bytes + 1;
  least = 1;
  most = length bytes + 256;
  output = packet_output_size type (length bytes);
}

configure_input_lem :
    (device : Device) (s₀ : Session) (F : Type 0) (n : ℕ) (ws : List (ℕ × ℕ))
    (cs : List (ℕ × List ℕ)) (size : ℕ) (input : Option Buffer) (s : Session)
    → Did s₀ n ws cs s
    → Ends
        (λ _. Did s₀ n (ws ++ input_program size input) cs)
        (Kept s₀)
        F
        (configure_input device size input s)
unfolding configure_input
configure_input_lem device s₀ F n ws cs size none s d =
    require_lem _ failed_to_set_zero_input s
      (write_register_lem device s₀ F n reg_data_size 0 ws cs s d)
configure_input_lem device s₀ F n ws cs size (some b) s d =
    require_lem _ failed_to_configure_input s (
      two_writes ws cs _ _ _ (
        and_then_lem _ _ s (write_address_lem device s₀ F n reg_data_addr b ws cs s d)
          λ s' d'. write_register_lem device s₀ F n reg_data_size size _ cs s' d'))

configure_packet_lem :
    (device : Device) (s₀ : Session) (F : Type 0) (n : ℕ) (cs : List (ℕ × List ℕ))
    (code size connection number : ℕ) (input output : Option Buffer) (s : Session)
    → Known F output
    → Did s₀ n [] cs s
    → Ends
        (λ _. With (λ b. Did s₀ n (packet_program code size connection number input b) cs) output)
        (Kept s₀)
        F
        (configure_packet device code size connection number input output s)
unfolding configure_packet
configure_packet_lem device s₀ F n cs code size connection number input output s c d =
    Ends-bind _ _
      (require_lem _ failed_to_select_packet s
        (write_register_lem device s₀ F n reg_module_select 4 [] cs s d))
      λ _ s₁ d₁.
        Ends-bind _ _
          (require_lem _ failed_to_set_operation_type s₁
            (write_register_lem device s₀ F n reg_op_type code _ cs s₁ d₁))
          λ _ s₂ d₂.
            Ends-bind _ _
              (require_lem _ failed_to_set_connection s₂ (
                and_then_lem _ _ s₂
                  (write_register_lem device s₀ F n reg_connection_id_high (connection / u32_mod) _
                    cs s₂ d₂)
                  λ s₃ d₃.
                    and_then_lem _ _ s₃
                      (write_register_lem device s₀ F n reg_connection_id_low (connection % u32_mod)
                        _ cs s₃ d₃)
                      λ s₄ d₄.
                        write_register_lem device s₀ F n reg_packet_number number _ cs s₄ d₄))
              λ _ s₅ d₅.
                Ends-bind _ _
                  (configure_input_lem device s₀ F n (packet_head code connection number) cs size
                    input s₅ d₅)
                  λ _ s₆ d₆.
                    require_lem _ failed_to_configure_output s₆
                      (write_output_lem device s₀ F n _ cs output s₆ c d₆)

-- What a packet operation that returns has done.
abbrev pub Framed :
    Device → FpgaOperationType → List ℕ → ℕ → ℕ → Session → List ℕ × ℕ → Session → Type 0
Framed device type bytes connection number s r s' =
    (code : ℕ) × (input : Option Buffer) × (output : Buffer) × (packet_code type ≡ some code)
    × Given (Cause device s (packet_needs type bytes)) bytes input
    × (packet_output_size type (length bytes) ≤ output.size)
    × Fetched device output r.0
    × Did s (given input + 1)
        (packet_program code (length bytes) connection number input output
          ++ ((reg_control, 1) ∷ []))
        (input_copies bytes input) s'

abbrev Framing : Device → FpgaOperationType → List ℕ → ℕ → ℕ → Session → Ended (List ℕ × ℕ) → Type 0
Framing device type bytes connection number s₀ =
    Ends (Framed device type bytes connection number s₀) (Kept s₀)
      (Cause device s₀ (packet_needs type bytes))

start_packet_lem :
    (device : Device) (type : FpgaOperationType) (bytes : List ℕ) (connection number : ℕ)
    (s₀ : Session) (fuel code : ℕ) (input output : Option Buffer) (s : Session)
    → Sleeps device
    → enough_polls ≤ fuel
    → packet_code type ≡ some code
    → Given (Cause device s₀ (packet_needs type bytes)) bytes input
    → Answered device s₀
        (packet_needs type bytes)
        (packet_output_size type (length bytes))
        (given input)
        []
        []
        output
        s
    → Framing device type bytes connection number s₀
        (start_packet device fuel code bytes connection number input output s)
unfolding start_packet
start_packet_lem device type bytes connection number s₀ fuel code input none s sleeps enough e g h =
    let F : Type 0 = Cause device s₀ (packet_needs type bytes) in
    Ends-bind _ _ (copy_input_lem device s₀ F F (given input) [] [] bytes input s g h.1) λ _ s₁ d₁.
      Ends-bind _ _
        (configure_packet_lem device s₀ F (given input) _ code (length bytes) connection number
          input none s₁ h.0 d₁)
        λ _ s₂ never. absurd never
start_packet_lem device type bytes connection number s₀ fuel code input (some o) s sleeps enough e g
      h =
    let F : Type 0 = Cause device s₀ (packet_needs type bytes) in
    Ends-bind _ _ (copy_input_lem device s₀ F F (given input + 1) [] [] bytes input s g h.1)
      λ _ s₁ d₁.
        Ends-bind _ _
          (configure_packet_lem device s₀ F (given input + 1) _ code (length bytes) connection
            number input (some o) s₁ tt d₁)
          λ _ s₂ d₂.
            Ends-weaken _
              (run_started_lem device s₀ F (given input + 1) _ _ o fuel s₂ sleeps enough
                (λ k size e' over. oversized k size e' (omega (arith, h.0))) d₂)
              λ r s₃ d₃. (code, input, o, e, g, h.0, d₃.0, d₃.1)

packet_size_bounds :
    (type : FpgaOperationType) (n : ℕ)
    → (1 ≤ packet_output_size type n) × (packet_output_size type n ≤ n + 256)
unfolding packet_output_size
packet_size_bounds type n = ground arith

given_lt :
    (C : Type 0) (bytes : List ℕ) (input : Option Buffer)
    → Given C bytes input
    → given input < input_buffers bytes + 1
given_lt C [] none g = omega arith
given_lt C [] (some b) g = absurd (cc)
given_lt C (x ∷ bytes) none g = omega arith
given_lt C (x ∷ bytes) (some b) g = omega arith

-- With enough fuel for the time-out and a clock that gains the 100 microseconds that each poll
-- sleeps, a session of a packet operation ends in one of three ways. It returns, and then the type is
-- one that the unit knows, and it has allocated the output buffer and, for an input with bytes that
-- was not refused one, the input buffer, copied the input into that, and written the registers of the
-- operation in order, with the start behind them; and what it returns are bytes of the output buffer,
-- no more than that holds. Or it ends by an exception, and the table of buffers has not shrunk nor
-- passed its bound. Or it leaves the defined behaviour, for one of the causes listed.
pub run_packet-Ends :
    (device : Device) (type : FpgaOperationType) (bytes : List ℕ) (connection number : ℕ)
    (s₀ : Session) (fuel : ℕ)
    → Sleeps device
    → enough_polls ≤ fuel
    → Ends
        (Framed device type bytes connection number s₀)
        (Kept s₀)
        (Cause device s₀ (packet_needs type bytes))
        (run_packet device fuel type bytes connection number s₀)
unfolding run_packet
run_packet-Ends device type bytes connection number s₀ fuel sleeps enough =
    let needs : Needs = packet_needs type bytes in
    let F : Type 0 = Cause device s₀ needs in
    let (low, high) = packet_size_bounds type (length bytes) in
    Ends-bind _ _
      (allocate_input_lem device s₀ needs F bytes 0 s₀ (omega arith) (omega arith) (omega arith)
        (Did-refl s₀))
      λ input s₁ h₁. elim (Option-cases (packet_code type)) [
        | inl e ↦ rw e (raised_with (Did-Kept h₁.1))
        | inr (code, e) ↦ rw e (
            Ends-bind _ _
              (allocate_lem device s₀ needs (packet_output_size type (length bytes)) (given input)
                [] [] s₁ low high (given_lt F bytes input h₁.0)
                (Did-count (given input) (omega arith) h₁.1))
              λ output s₂ h₂.
                start_packet_lem device type bytes connection number s₀ fuel code input output s₂
                  sleeps enough e h₁.0 h₂)
      ]
