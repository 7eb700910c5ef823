-- ===== src/Fpga/Hardware/Crypto.antt =====
-- The hardware path of executeCryptoOperation: which registers it writes, and how it ends.
use satellite_quic_proxy.Base.{
  ℕ, ◌+◌, ◌≤◌, ◌<◌, ◌≡◌, refl, ap, Option, none, some, List, [], ◌∷◌, ◌++◌, length, arith,
}
use satellite_quic_proxy.Dma.Buffers.{Buffer}
use satellite_quic_proxy.Fpga.Operation.{FpgaOperationType}
use satellite_quic_proxy.Fpga.Session.{Device, Session, run_started, reg_control}
use satellite_quic_proxy.Fpga.Session.Rules.{
  Ends, returned_with, Ends-bind, Ends-weaken, Did, Did-refl, Did-count, Kept,
}
use satellite_quic_proxy.Fpga.Session.Accesses.{Known, With}
use satellite_quic_proxy.Fpga.Session.Allocation.{Needs, Cause, oversized}
use satellite_quic_proxy.Fpga.Session.Waiting.{Sleeps, enough_polls, Fetched, run_started_lem}
use satellite_quic_proxy.Fpga.Hardware.{
  CryptoInput, CryptoBuffers, allocate_crypto, copy_crypto, start_crypto, run_crypto,
}
use satellite_quic_proxy.Fpga.Hardware.Inputs.{
  input_copies, given, Given, allocate_input_lem, copy_input_lem,
}
use satellite_quic_proxy.Fpga.Hardware.CryptoSteps.{
  crypto_program, crypto_needs, Sized, allocate_sized_lem, given_le, copy_sized_lem,
  configure_crypto_lem,
}

-- What the five allocations leave: sizes, or causes, and so many buffers more in the table.
abbrev Granted : Device → CryptoInput → Session → CryptoBuffers → Session → Type 0
Granted device c s₀ b s =
    Sized (Cause device s₀ (crypto_needs c)) (length c.bytes) b.input
    × Sized (Cause device s₀ (crypto_needs c)) (length c.key) b.key
    × Sized (Cause device s₀ (crypto_needs c)) (length c.nonce) b.nonce
    × Given (Cause device s₀ (crypto_needs c)) c.aad b.aad
    × Sized (Cause device s₀ (crypto_needs c)) (length c.bytes + 16) b.output
    × Did s₀ (given b.input + given b.key + given b.nonce + given b.aad + given b.output) [] [] s

allocate_crypto_lem :
    (device : Device) (s₀ : Session) (c : CryptoInput)
    → 0 < length c.bytes
    → 0 < length c.key
    → 0 < length c.nonce
    → Ends
        (Granted device c s₀)
        (Kept s₀)
        (Cause device s₀ (crypto_needs c))
        (allocate_crypto device c s₀)
unfolding allocate_crypto
allocate_crypto_lem device s₀ c bytes key nonce =
    let needs : Needs = crypto_needs c in
    let F : Type 0 = Cause device s₀ needs in
    Ends-bind _ _
      (allocate_sized_lem device s₀ needs F (length c.bytes) 0 s₀ (omega arith) (omega arith)
        (omega arith) (Did-refl s₀))
      λ i s₁ h₁.
        Ends-bind _ _
          (allocate_sized_lem device s₀ needs F (length c.key) (given i) s₁ (omega arith)
            (omega arith) (omega (arith, given_le i)) (Did-count (given i) (omega arith) h₁.1))
          λ k s₂ h₂.
            Ends-bind _ _
              (allocate_sized_lem device s₀ needs F (length c.nonce) _ s₂ (omega arith)
                (omega arith) (omega (arith, given_le i, given_le k)) h₂.1)
              λ n s₃ h₃.
                Ends-bind _ _
                  (allocate_input_lem device s₀ needs F c.aad _ s₃ (omega arith) (omega arith)
                    (omega (arith, given_le i, given_le k, given_le n)) h₃.1)
                  λ a s₄ h₄.
                    Ends-bind _ _
                      (allocate_sized_lem device s₀ needs F (length c.bytes + 16) _ s₄ (omega arith)
                        (omega arith)
                        (omega (arith, given_le i, given_le k, given_le n, given_le a)) h₄.1)
                      λ o s₅ h₅. returned_with (h₁.0, h₂.0, h₃.0, h₄.0, h₅.0, h₅.1)

Known-Sized : (C : Type 0) (n : ℕ) (o : Option Buffer) → Sized C n o → Known C o
Known-Sized C n none h = h
Known-Sized C n (some b) h = tt

run_behind :
    (device : Device) (s₀ : Session) (c : CryptoInput) (n fuel : ℕ) (ws : Buffer → List (ℕ × ℕ))
    (cs : List (ℕ × List ℕ)) (output : Option Buffer) (s : Session)
    → Sleeps device
    → enough_polls ≤ fuel
    → Sized (Cause device s₀ (crypto_needs c)) (length c.bytes + 16) output
    → With (λ o. Did s₀ n (ws o) cs) output s
    → Ends
        (λ r s'.
          (o : Buffer) × (output ≡ some o)
          × (length c.bytes + 16 ≤ o.size)
          × Fetched device o r.0
          × Did s₀ n (ws o ++ ((reg_control, 1) ∷ [])) cs s')
        (Kept s₀)
        (Cause device s₀ (crypto_needs c))
        (run_started device fuel output s)
run_behind device s₀ c n fuel ws cs none s sleeps enough h never = absurd never
run_behind device s₀ c n fuel ws cs (some o) s sleeps enough h d =
    Ends-weaken _
      (run_started_lem device s₀ (Cause device s₀ (crypto_needs c)) n (ws o) cs o fuel s sleeps
        enough (λ k size e over. oversized k size e (omega (arith, h))) d)
      λ r s' d'. (o, refl, h, d'.0, d'.1)

-- What a cryptographic operation that returns has done.
abbrev pub Ciphered :
    Device → FpgaOperationType → CryptoInput → Session → List ℕ × ℕ → Session → Type 0
Ciphered device type c s r s' =
    (input : Buffer) × (key : Buffer) × (nonce : Buffer) × (aad : Option Buffer) × (output : Buffer)
    × (length c.bytes ≤ input.size)
    × (length c.key ≤ key.size)
    × (length c.nonce ≤ nonce.size)
    × Given (Cause device s (crypto_needs c)) c.aad aad
    × (length c.bytes + 16 ≤ output.size)
    × Fetched device output r.0
    × Did s (4 + given aad)
        (crypto_program type c input key nonce aad output ++ ((reg_control, 1) ∷ []))
        ((input.virtual_address, c.bytes)
          ∷ (key.virtual_address, c.key)
          ∷ (nonce.virtual_address, c.nonce)
          ∷ input_copies c.aad aad)
        s'

-- What the four copies leave.
abbrev Copied : CryptoInput → Session → CryptoBuffers → Unit {0} → Session → Type 0
Copied c s₀ b _ s =
    (input : Buffer) × (key : Buffer) × (nonce : Buffer) × (b.input ≡ some input)
    × (b.key ≡ some key)
    × (b.nonce ≡ some nonce)
    × (length c.bytes ≤ input.size)
    × (length c.key ≤ key.size)
    × (length c.nonce ≤ nonce.size)
    × Did s₀ (given b.input + given b.key + given b.nonce + given b.aad + given b.output) []
        ((input.virtual_address, c.bytes)
          ∷ (key.virtual_address, c.key)
          ∷ (nonce.virtual_address, c.nonce)
          ∷ input_copies c.aad b.aad)
        s

copy_crypto_lem :
    (device : Device) (s₀ : Session) (c : CryptoInput) (b : CryptoBuffers) (s : Session)
    → Granted device c s₀ b s
    → Ends (Copied c s₀ b) (Kept s₀) (Cause device s₀ (crypto_needs c)) (copy_crypto c b s)
unfolding copy_crypto
copy_crypto_lem device s₀ c b s (hi, hk, hn, ha, ho, d) =
    let F : Type 0 = Cause device s₀ (crypto_needs c) in
    let n : ℕ = given b.input + given b.key + given b.nonce + given b.aad + given b.output in
    Ends-bind _ _ (copy_sized_lem device s₀ F n [] c.bytes b.input s hi d) λ _ s₁ h₁.
      Ends-bind _ _ (copy_sized_lem device s₀ F n _ c.key b.key s₁ hk h₁.3) λ _ s₂ h₂.
        Ends-bind _ _ (copy_sized_lem device s₀ F n _ c.nonce b.nonce s₂ hn h₂.3) λ _ s₃ h₃.
          Ends-weaken _ (copy_input_lem device s₀ F F n [] _ c.aad b.aad s₃ ha h₃.3)
            λ _ s₄ d₄. (h₁.0, h₂.0, h₃.0, h₁.1, h₂.1, h₃.1, h₁.2, h₂.2, h₃.2, d₄)

start_crypto_lem :
    (device : Device) (type : FpgaOperationType) (c : CryptoInput) (s₀ : Session) (fuel : ℕ)
    (b : CryptoBuffers) (s : Session)
    → Sleeps device
    → enough_polls ≤ fuel
    → Granted device c s₀ b s
    → Ends
        (Ciphered device type c s₀)
        (Kept s₀)
        (Cause device s₀ (crypto_needs c))
        (start_crypto device fuel type c b s)
unfolding start_crypto
start_crypto_lem device type c s₀ fuel b s sleeps enough (hi, hk, hn, ha, ho, d) =
    let F : Type 0 = Cause device s₀ (crypto_needs c) in
    let n : ℕ = given b.input + given b.key + given b.nonce + given b.aad + given b.output in
    Ends-bind _ _ (copy_crypto_lem device s₀ c b s (hi, hk, hn, ha, ho, d))
      λ _ s₁ (input, key, nonce, ei, ek, en, fi, fk, fn, d₁).
        Ends-bind _ _
          (configure_crypto_lem device s₀ F F n _ type c b input key nonce s₁ ei ek en ha
            (Known-Sized F (length c.bytes + 16) b.output ho) d₁)
          λ _ s₂ d₂.
            Ends-weaken _ (run_behind device s₀ c n fuel _ _ b.output s₂ sleeps enough ho d₂)
              λ r s₃ (o, eo, fo, fetched, d₃). (
                input,
                key,
                nonce,
                b.aad,
                o,
                fi,
                fk,
                fn,
                ha,
                fo,
                fetched,
                Did-count (4 + given b.aad)
                    (omega (arith, ap given ei, ap given ek, ap given en, ap given eo)) d₃,
              )

-- With enough fuel for the time-out, a clock that gains the 100 microseconds that each poll sleeps,
-- and an input, a key and a nonce that are not empty, a session of a cryptographic operation ends in
-- one of three ways. It returns, and then it has allocated its buffers, copied each input into its
-- own, and written the registers of the operation in order, with the start behind them, where
-- additional data whose buffer was refused are left out; and what it returns are bytes of the output
-- buffer, no more than that holds. Or it ends by an exception, and the table of buffers has not
-- shrunk nor passed its bound. Or it leaves the defined behaviour, for one of the causes listed.
pub run_crypto-Ends :
    (device : Device) (type : FpgaOperationType) (c : CryptoInput) (s₀ : Session) (fuel : ℕ)
    → Sleeps device
    → enough_polls ≤ fuel
    → 0 < length c.bytes
    → 0 < length c.key
    → 0 < length c.nonce
    → Ends
        (Ciphered device type c s₀)
        (Kept s₀)
        (Cause device s₀ (crypto_needs c))
        (run_crypto device fuel type c s₀)
unfolding run_crypto
run_crypto-Ends device type c s₀ fuel sleeps enough bytes key nonce =
    Ends-bind _ _ (allocate_crypto_lem device s₀ c bytes key nonce)
      λ b s₁ h. start_crypto_lem device type c s₀ fuel b s₁ sleeps enough h
