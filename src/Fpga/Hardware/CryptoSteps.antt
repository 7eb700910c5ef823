-- ===== src/Fpga/Hardware/CryptoSteps.antt =====
-- The steps of the hardware path of executeCryptoOperation: allocations, copies and registers.
use satellite_quic_proxy.Base.{
  ℕ, ◌+◌, ◌%◌, ◌≤◌, ◌<◌, ◌≡◌, refl, Option, none, some, List, [], ◌∷◌, ◌++◌, length, arith, u32_mod,
}
use satellite_quic_proxy.Dma.Buffers.{Buffer}
use satellite_quic_proxy.Fpga.Operation.{
  FpgaOperationType, failed_to_select_crypto, failed_to_set_operation_type,
  failed_to_configure_buffers, failed_to_configure_aad, failed_to_clear_aad,
}
use satellite_quic_proxy.Fpga.PacketUnit.{is_empty}
use satellite_quic_proxy.Fpga.Session.{
  Device, Session, allocate, copy_in, write_address, reg_module_select, reg_op_type, reg_data_addr,
  reg_data_size, reg_key_addr, reg_key_size, reg_nonce_addr, reg_aad_addr, reg_aad_size,
}
use satellite_quic_proxy.Fpga.Session.Rules.{Ends, Ends-bind, Ends-weaken, Did, Did-count, Kept}
use satellite_quic_proxy.Fpga.Session.Accesses.{
  Known, With, Writes, output_program, write_output_lem, require_lem, and_then_lem, two_writes,
  write_register_lem, write_address_lem, copy_in_lem, copy_in_null,
}
use satellite_quic_proxy.Fpga.Session.Allocation.{Needs, Cause, Answered, allocate_lem}
use satellite_quic_proxy.Fpga.Hardware.{
  CryptoInput, CryptoBuffers, crypto_code, configure_aad, configure_crypto,
}
use satellite_quic_proxy.Fpga.Hardware.Inputs.{given, Given}

-- What is programmed of the additional data: a size of 0 where they have no buffer.
abbrev pub aad_program : ℕ → Option Buffer → List (ℕ × ℕ)
aad_program n none = (reg_aad_size, 0 % u32_mod) ∷ []
aad_program n (some b) =
    (reg_aad_addr, b.physical_address % u32_mod) ∷ (reg_aad_size, n % u32_mod) ∷ []

abbrev pub crypto_head : FpgaOperationType → CryptoInput → Buffer → Buffer → Buffer → List (ℕ × ℕ)
crypto_head type c input key nonce =
    (reg_module_select, 1 % u32_mod)
    ∷ (reg_op_type, crypto_code type % u32_mod)
    ∷ (reg_data_addr, input.physical_address % u32_mod)
    ∷ (reg_data_size, length c.bytes % u32_mod)
    ∷ (reg_key_addr, key.physical_address % u32_mod)
    ∷ (reg_key_size, length c.key % u32_mod)
    ∷ (reg_nonce_addr, nonce.physical_address % u32_mod)
    ∷ []

-- The registers that describe an operation, with the low 32 bits of each address and size.
abbrev pub crypto_program :
    FpgaOperationType
    → CryptoInput
    → Buffer
    → Buffer
    → Buffer
    → Option Buffer
    → Buffer
    → List (ℕ × ℕ)
crypto_program type c input key nonce aad output =
    (crypto_head type c input key nonce ++ output_program output) ++ aad_program (length c.aad) aad

abbrev pub crypto_needs : CryptoInput → Needs
crypto_needs c = record {
  buffers = 5;
  least = 1;
  most = length c.bytes + 16 + length c.key + length c.nonce + length c.aad;
  output = length c.bytes + 16;
}

-- A buffer that holds so many bytes, or a cause for its absence.
abbrev pub Sized : Type 0 → ℕ → Option Buffer → Type 0
Sized C n none = C
Sized C n (some b) = n ≤ b.size

pub allocate_sized_lem :
    (device : Device) (s₀ : Session) (needs : Needs) (F : Type 0) (size n : ℕ) (s : Session)
    → needs.least ≤ size
    → size ≤ needs.most
    → n < needs.buffers
    → Did s₀ n [] [] s
    → Ends
        (λ o s'. Sized (Cause device s₀ needs) size o × Did s₀ (n + given o) [] [] s')
        (Kept s₀)
        F
        (allocate device size s)
allocate_sized_lem device s₀ needs F size n s least most room d =
    Ends-weaken _ (allocate_lem device s₀ needs size n [] [] s least most room d) go
  where
    go :
        (o : Option Buffer) (s' : Session)
        → Answered device s₀ needs size n [] [] o s'
        → Sized (Cause device s₀ needs) size o × Did s₀ (n + given o) [] [] s'
    go none s' h = (h.0, Did-count (n + 0) (omega arith) h.1)
    go (some b) s' h = h

pub given_le : (o : Option Buffer) → given o ≤ 1
given_le none = omega arith
given_le (some b) = omega arith

pub copy_sized_lem :
    (device : Device) (s₀ : Session) (F : Type 0) (n : ℕ) (cs : List (ℕ × List ℕ)) (bytes : List ℕ)
    (o : Option Buffer) (s : Session)
    → Sized F (length bytes) o
    → Did s₀ n [] cs s
    → Ends
        (λ _ s'.
          (b : Buffer) × (o ≡ some b)
          × (length bytes ≤ b.size)
          × Did s₀ n [] (cs ++ ((b.virtual_address, bytes) ∷ [])) s')
        (Kept s₀)
        F
        (copy_in o bytes s)
copy_sized_lem device s₀ F n cs bytes none s h d = copy_in_null bytes s h
copy_sized_lem device s₀ F n cs bytes (some b) s h d =
    Ends-weaken _ (copy_in_lem device s₀ F n b bytes [] cs s h d) λ _ s' d'. (b, refl, h, d')

pub write_known_lem :
    (device : Device) (s₀ : Session) (F : Type 0) (n : ℕ) (address : ℕ) (o : Option Buffer)
    (b : Buffer) (ws : List (ℕ × ℕ)) (cs : List (ℕ × List ℕ)) (s : Session)
    → o ≡ some b
    → Did s₀ n ws cs s
    → Writes device s₀ F n
        (ws ++ ((address, b.physical_address % u32_mod) ∷ []))
        cs
        (write_address device address o s)
write_known_lem device s₀ F n address o b ws cs s e d =
    rw e (write_address_lem device s₀ F n address b ws cs s d)

pub configure_aad_lem :
    (device : Device) (s₀ : Session) (F C : Type 0) (n : ℕ) (ws : List (ℕ × ℕ))
    (cs : List (ℕ × List ℕ)) (aad : List ℕ) (b : Option Buffer) (s : Session)
    → Given C aad b
    → Did s₀ n ws cs s
    → Ends
        (λ _. Did s₀ n (ws ++ aad_program (length aad) b) cs)
        (Kept s₀)
        F
        (configure_aad device aad b s)
unfolding configure_aad is_empty
configure_aad_lem device s₀ F C n ws cs aad none s g d =
    require_lem _ failed_to_clear_aad s (write_register_lem device s₀ F n reg_aad_size 0 ws cs s d)
configure_aad_lem device s₀ F C n ws cs [] (some b) s g d = absurd (cc)
configure_aad_lem device s₀ F C n ws cs (x ∷ aad) (some b) s g d =
    require_lem _ failed_to_configure_aad s (
      two_writes ws cs _ _ _ (
        and_then_lem _ _ s (write_address_lem device s₀ F n reg_aad_addr b ws cs s d)
          λ s' d'. write_register_lem device s₀ F n reg_aad_size (length (x ∷ aad)) _ cs s' d'))

pub aad_behind_output :
    (device : Device) (s₀ : Session) (F C : Type 0) (n : ℕ) (ws : Buffer → List (ℕ × ℕ))
    (cs : List (ℕ × List ℕ)) (aad : List ℕ) (b output : Option Buffer) (s : Session)
    → Given C aad b
    → With (λ o. Did s₀ n (ws o) cs) output s
    → Ends
        (λ _. With (λ o. Did s₀ n (ws o ++ aad_program (length aad) b) cs) output)
        (Kept s₀)
        F
        (configure_aad device aad b s)
aad_behind_output device s₀ F C n ws cs aad b none s g never = absurd never
aad_behind_output device s₀ F C n ws cs aad b (some o) s g d =
    configure_aad_lem device s₀ F C n (ws o) cs aad b s g d

pub configure_crypto_lem :
    (device : Device) (s₀ : Session) (F C : Type 0) (n : ℕ) (cs : List (ℕ × List ℕ))
    (type : FpgaOperationType) (c : CryptoInput) (b : CryptoBuffers) (input key nonce : Buffer)
    (s : Session)
    → b.input ≡ some input
    → b.key ≡ some key
    → b.nonce ≡ some nonce
    → Given C c.aad b.aad
    → Known F b.output
    → Did s₀ n [] cs s
    → Ends
        (λ _. With (λ o. Did s₀ n (crypto_program type c input key nonce b.aad o) cs) b.output)
        (Kept s₀)
        F
        (configure_crypto device type c b s)
unfolding configure_crypto
configure_crypto_lem device s₀ F C n cs type c b input key nonce s ei ek en g k d =
    Ends-bind _ _
      (require_lem _ failed_to_select_crypto s
        (write_register_lem device s₀ F n reg_module_select 1 [] cs s d))
      λ _ s₁ d₁.
        Ends-bind _ _
          (require_lem _ failed_to_set_operation_type s₁
            (write_register_lem device s₀ F n reg_op_type (crypto_code type) _ cs s₁ d₁))
          λ _ s₂ d₂.
            Ends-bind _ _
              (require_lem _ failed_to_configure_buffers s₂ (
                and_then_lem _ _ s₂
                  (write_known_lem device s₀ F n reg_data_addr b.input input _ cs s₂ ei d₂)
                  λ s₃ d₃.
                    and_then_lem _ _ s₃
                      (write_register_lem device s₀ F n reg_data_size (length c.bytes) _ cs s₃ d₃)
                      λ s₄ d₄.
                        and_then_lem _ _ s₄
                          (write_known_lem device s₀ F n reg_key_addr b.key key _ cs s₄ ek d₄)
                          λ s₅ d₅.
                            and_then_lem _ _ s₅
                              (write_register_lem device s₀ F n reg_key_size (length c.key) _ cs s₅
                                d₅)
                              λ s₆ d₆.
                                and_then_lem _ _ s₆
                                  (write_known_lem device s₀ F n reg_nonce_addr b.nonce nonce _ cs
                                    s₆ en d₆)
                                  λ s₇ d₇.
                                    write_output_lem device s₀ F n
                                      (crypto_head type c input key nonce) cs b.output s₇ k d₇))
              λ _ s₈ d₈.
                aad_behind_output device s₀ F C n
                  (λ o. crypto_head type c input key nonce ++ output_program o) cs c.aad b.aad
                  b.output s₈ g d₈
