-- ===== src/Fpga/Hardware/Inputs.antt =====
-- The inputs that may be empty, and so have no buffer: the payload of a packet operation, and the
-- additional data of a cryptographic one.
use satellite_quic_proxy.Base.{
  ℕ, ◌+◌, ◌≤◌, ◌<◌, ◌≡◌, refl, sym, Option, none, some, List, [], ◌∷◌, ◌++◌, length, append-nil,
  arith,
}
use satellite_quic_proxy.Dma.Buffers.{Buffer}
use satellite_quic_proxy.Fpga.PacketUnit.{is_empty}
use satellite_quic_proxy.Fpga.Session.{Device, Session}
use satellite_quic_proxy.Fpga.Session.Rules.{
  Ends, returned_with, Ends-weaken, Did, Did-count, Did-copies, Kept,
}
use satellite_quic_proxy.Fpga.Session.Accesses.{copy_in_lem}
use satellite_quic_proxy.Fpga.Session.Allocation.{Needs, Cause, Answered, allocate_lem}
use satellite_quic_proxy.Fpga.Hardware.{allocate_input, copy_input}

-- What is copied of an input, and how many buffers it takes.
abbrev pub input_copies : List ℕ → Option Buffer → List (ℕ × List ℕ)
input_copies bytes none = []
input_copies bytes (some b) = (b.virtual_address, bytes) ∷ []

abbrev pub given : Option Buffer → ℕ
given none = 0
given (some b) = 1

-- An input without bytes has no buffer. One with bytes has a buffer that holds them, or there is a cause
-- for its absence.
abbrev pub Given : Type 0 → List ℕ → Option Buffer → Type 0
Given C [] input = input ≡ none
Given C (x ∷ bytes) none = C
Given C (x ∷ bytes) (some b) = length (x ∷ bytes) ≤ b.size

pub allocate_input_lem :
    (device : Device) (s₀ : Session) (needs : Needs) (F : Type 0) (bytes : List ℕ) (n : ℕ)
    (s : Session)
    → needs.least ≤ 1
    → length bytes ≤ needs.most
    → n < needs.buffers
    → Did s₀ n [] [] s
    → Ends
        (λ input s'. Given (Cause device s₀ needs) bytes input × Did s₀ (n + given input) [] [] s')
        (Kept s₀)
        F
        (allocate_input device bytes s)
unfolding allocate_input
allocate_input_lem device s₀ needs F [] n s least most room d =
    returned_with (refl, Did-count (n + 0) (omega arith) d)
allocate_input_lem device s₀ needs F (x ∷ bytes) n s least most room d =
    Ends-weaken _
      (allocate_lem device s₀ needs (length (x ∷ bytes)) n [] [] s (omega arith) most room d) go
  where
    go :
        (input : Option Buffer) (s' : Session)
        → Answered device s₀ needs (length (x ∷ bytes)) n [] [] input s'
        → Given (Cause device s₀ needs) (x ∷ bytes) input × Did s₀ (n + given input) [] [] s'
    go none s' h = (h.0, Did-count (n + 0) (omega arith) h.1)
    go (some b) s' h = h

pub copy_input_lem :
    (device : Device) (s₀ : Session) (F C : Type 0) (n : ℕ) (ws : List (ℕ × ℕ))
    (cs : List (ℕ × List ℕ)) (bytes : List ℕ) (input : Option Buffer) (s : Session)
    → Given C bytes input
    → Did s₀ n ws cs s
    → Ends
        (λ _. Did s₀ n ws (cs ++ input_copies bytes input))
        (Kept s₀)
        F
        (copy_input input bytes s)
unfolding copy_input is_empty
copy_input_lem device s₀ F C n ws cs bytes none s g d =
    returned_with (Did-copies (cs ++ []) (sym (append-nil cs)) d)
copy_input_lem device s₀ F C n ws cs [] (some b) s g d = absurd (cc)
copy_input_lem device s₀ F C n ws cs (x ∷ bytes) (some b) s g d =
    copy_in_lem device s₀ F n b (x ∷ bytes) ws cs s g d
