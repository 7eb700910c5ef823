-- ===== src/Fpga/Session/Accesses.antt =====
-- Rules for the register accesses and copies of a session, from any point of it on.
use satellite_quic_proxy.Base.{
  ℕ, ◌%◌, ◌≡◌, ◌≤◌, sym, ap, subst, ◌∙◌, Bool, true, false, Option, none, some, List, [], ◌∷◌, ◌++◌,
  length, append_assoc, ltb, Bool-cases, Option-cases, inl, inr, u32_mod, arith, if◌then◌else◌,
}
use satellite_quic_proxy.Dma.Buffers.{Buffer}
use satellite_quic_proxy.Fpga.Operation.{ErrorMessage}
use satellite_quic_proxy.Fpga.Session.{
  Device, Session, Ended, Action, pure, raise, write_register, read_register, require, and_then,
  or_raise, deref, copy_in, write_address, write_size, reg_result_addr, reg_result_size,
}
use satellite_quic_proxy.Fpga.Session.Rules.{
  Ends, returned_with, raised_with, faulted, Ends-bind, Did, Kept, Did-Kept,
}

-- What holds of the session behind a Boolean answer.
abbrev pub OnTrue : (Session → Type 0) → (Session → Type 0) → Bool → Session → Type 0
OnTrue P E true = P
OnTrue P E false = E

pub require_lem :
    {P E : Session → Type 0} {F : Type 0} (m : Action Bool) (text : ErrorMessage) (s : Session)
    → Ends (OnTrue P E) E F (m s)
    → Ends (λ _. P) E F (require m text s)
unfolding require
require_lem {P} {E} {F} m text s h =
    let next : (ok : Bool) (s' : Session)
        → OnTrue P E ok s'
        → Ends (λ _. P) E F ((if ok then pure tt else raise text) s') =
      λ ok.
        elim ok
          as (λ ok.
            (s' : Session)
            → OnTrue P E ok s'
            → Ends (λ _. P) E F ((if ok then pure tt else raise text) s')) [
              | true ↦ λ s' p. returned_with p
              | false ↦ λ s' e. raised_with e
            ] in
    Ends-bind (m s) _ h next

pub and_then_lem :
    {P Q E : Session → Type 0} {F : Type 0} (m next : Action Bool) (s : Session)
    → Ends (OnTrue P E) E F (m s)
    → ((s' : Session) → P s' → Ends (OnTrue Q E) E F (next s'))
    → Ends (OnTrue Q E) E F (and_then m next s)
unfolding and_then
and_then_lem {P} {Q} {E} {F} m next s h k =
    let rest : (ok : Bool) (s' : Session)
        → OnTrue P E ok s'
        → Ends (OnTrue Q E) E F ((if ok then next else pure false) s') =
      λ ok.
        elim ok
          as (λ ok.
            (s' : Session)
            → OnTrue P E ok s'
            → Ends (OnTrue Q E) E F ((if ok then next else pure false) s')) [
              | true ↦ k
              | false ↦ λ s' e. returned_with e
            ] in
    Ends-bind (m s) _ h rest

module _ (device : Device) (s₀ : Session) (F : Type 0) (n : ℕ) where
  -- What is written by the answer true, and in any case nothing is allocated.
  abbrev pub Writes : List (ℕ × ℕ) → List (ℕ × List ℕ) → Ended Bool → Type 0
  Writes ws cs = Ends (OnTrue (Did s₀ n ws cs) (Kept s₀)) (Kept s₀) F

  pub write_register_lem :
      (address value : ℕ) (ws : List (ℕ × ℕ)) (cs : List (ℕ × List ℕ)) (s : Session)
      → Did s₀ n ws cs s
      → Writes (ws ++ ((address, value % u32_mod) ∷ [])) cs (write_register device address value s)
  unfolding write_register
  write_register_lem address value ws cs s w = elim (Option-cases s.device_fd) [
    | inl e ↦ rw e (returned_with (Did-Kept w))
    | inr h ↦ elim (Bool-cases (device.write_ok s.accesses address (value % u32_mod))) [
      | inl ok ↦
          rw (h.1, ok)
            (returned_with (record {
              initialized = w.initialized;
              counted = w.counted;
              bounded = w.bounded;
              device_fd = sym h.1 ∙ w.device_fd;
              writes =
                  ap (λ (l : List (ℕ × ℕ)). l ++ ((address, value % u32_mod) ∷ [])) w.writes
                  ∙ append_assoc s₀.writes ws ((address, value % u32_mod) ∷ []);
              copies = w.copies;
            }))
      | inr bad ↦ rw (h.1, bad) (returned_with (Did-Kept w))
    ]
  ]

  pub write_address_lem :
      (address : ℕ) (b : Buffer) (ws : List (ℕ × ℕ)) (cs : List (ℕ × List ℕ)) (s : Session)
      → Did s₀ n ws cs s
      → Writes
          (ws ++ ((address, b.physical_address % u32_mod) ∷ []))
          cs
          (write_address device address (some b) s)
  unfolding write_address deref
  write_address_lem address b ws cs s w = write_register_lem address b.physical_address ws cs s w

  pub write_size_lem :
      (address : ℕ) (b : Buffer) (ws : List (ℕ × ℕ)) (cs : List (ℕ × List ℕ)) (s : Session)
      → Did s₀ n ws cs s
      → Writes (ws ++ ((address, b.size % u32_mod) ∷ [])) cs (write_size device address (some b) s)
  unfolding write_size deref
  write_size_lem address b ws cs s w = write_register_lem address b.size ws cs s w

  -- What is read leaves no trace in what the code reads.
  pub read_register_lem :
      (address : ℕ) (text : ErrorMessage) (ws : List (ℕ × ℕ)) (cs : List (ℕ × List ℕ)) (s : Session)
      → Did s₀ n ws cs s
      → Ends
          (λ value s'. ((k : ℕ) × (device.read k address ≡ some value)) × Did s₀ n ws cs s')
          (Kept s₀)
          F
          (or_raise (read_register device address) text s)
  unfolding read_register or_raise
  read_register_lem address text ws cs s w = elim (Option-cases s.device_fd) [
    | inl e ↦ rw e (raised_with (Did-Kept w))
    | inr h ↦ elim (Option-cases (device.read s.accesses address)) [
      | inl e ↦ rw (h.1, e) (raised_with (Did-Kept w))
      | inr r ↦
          rw (h.1, r.1)
            (returned_with (
              (s.accesses, r.1),
              record {
                initialized = w.initialized;
                counted = w.counted;
                bounded = w.bounded;
                device_fd = sym h.1 ∙ w.device_fd;
                writes = w.writes;
                copies = w.copies;
              },
            ))
    ]
  ]

  -- A copy of bytes that fit into the buffer.
  pub copy_in_lem :
      (b : Buffer) (bytes : List ℕ) (ws : List (ℕ × ℕ)) (cs : List (ℕ × List ℕ)) (s : Session)
      → length bytes ≤ b.size
      → Did s₀ n ws cs s
      → Ends
          (λ _. Did s₀ n ws (cs ++ ((b.virtual_address, bytes) ∷ [])))
          (Kept s₀)
          F
          (copy_in (some b) bytes s)
  unfolding copy_in deref
  copy_in_lem b bytes ws cs s fits w =
      let e : ltb b.size (length bytes) ≡ false = ground arith in
      rw e (
        returned_with (record {
          initialized = w.initialized;
          counted = w.counted;
          bounded = w.bounded;
          device_fd = w.device_fd;
          writes = w.writes;
          copies =
              ap (λ (l : List (ℕ × List ℕ)). l ++ ((b.virtual_address, bytes) ∷ [])) w.copies
              ∙ append_assoc s₀.copies cs ((b.virtual_address, bytes) ∷ []);
        }))

-- One register behind another, as one list.
pub two_writes :
    {s₀ : Session} {F : Type 0} {n : ℕ} (ws : List (ℕ × ℕ)) (cs : List (ℕ × List ℕ)) (x y : ℕ × ℕ)
    (r : Ended Bool)
    → Ends (OnTrue (Did s₀ n ((ws ++ (x ∷ [])) ++ (y ∷ [])) cs) (Kept s₀)) (Kept s₀) F r
    → Ends (OnTrue (Did s₀ n (ws ++ (x ∷ y ∷ [])) cs) (Kept s₀)) (Kept s₀) F r
two_writes {s₀} {F} {n} ws cs x y r h =
    subst (λ l. Ends (OnTrue (Did s₀ n l cs) (Kept s₀)) (Kept s₀) F r)
      (append_assoc ws (x ∷ []) (y ∷ [])) h

-- The copy into a buffer that was not granted.
pub copy_in_null :
    {P : Unit {0} → Session → Type 0} {E : Session → Type 0} {F : Type 0} (bytes : List ℕ)
    (s : Session)
    → F
    → Ends P E F (copy_in none bytes s)
unfolding copy_in deref
copy_in_null bytes s c = faulted c

-- What a null pointer is worth: a cause, and no further session.
abbrev pub Known : Type 0 → Option Buffer → Type 0
Known F none = F
Known F (some b) = Unit {0}

abbrev pub With : (Buffer → Session → Type 0) → Option Buffer → Session → Type 0
With P none s = ⊥
With P (some b) s = P b s

-- The last two registers that each operation writes, of the output buffer.
abbrev pub output_program : Buffer → List (ℕ × ℕ)
output_program b =
    (reg_result_addr, b.physical_address % u32_mod) ∷ (reg_result_size, b.size % u32_mod) ∷ []

pub write_output_lem :
    (device : Device) (s₀ : Session) (F : Type 0) (n : ℕ) (ws : List (ℕ × ℕ))
    (cs : List (ℕ × List ℕ)) (output : Option Buffer) (s : Session)
    → Known F output
    → Did s₀ n ws cs s
    → Ends
        (OnTrue (With (λ b. Did s₀ n (ws ++ output_program b) cs) output) (Kept s₀))
        (Kept s₀)
        F
        (and_then
          (write_address device reg_result_addr output)
          (write_size device reg_result_size output)
          s)
unfolding and_then write_address deref
write_output_lem device s₀ F n ws cs none s c d = faulted c
write_output_lem device s₀ F n ws cs (some b) s c d = two_writes ws cs _ _ _ (
    and_then_lem (write_address device reg_result_addr (some b)) _ s
      (write_address_lem device s₀ F n reg_result_addr b ws cs s d)
      λ s' d'. write_size_lem device s₀ F n reg_result_size b _ cs s' d')
