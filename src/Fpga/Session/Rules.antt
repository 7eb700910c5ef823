-- ===== src/Fpga/Session/Rules.antt =====
-- Rules for what a session does: one for each way to build an action, and one for each register access.
use satellite_quic_proxy.Base.{
  ℕ, ◌+◌, ◌≡◌, ◌≤◌, arith, refl, sym, subst, List, [], ◌++◌, length, append-nil,
}
use satellite_quic_proxy.Dma.Buffers.{max_dma_buffers}
use satellite_quic_proxy.Fpga.Operation.{ErrorMessage}
use satellite_quic_proxy.Fpga.Session.{Session, Ended, returned, raised, fault, Action, bind}

-- The run ends, with `P` of the value and the session, or by an exception with `E` of the session, or by
-- a fault for the reason `F`.
pub data Ends {A : Type 0} (P : A → Session → Type 0) (E : Session → Type 0) (F : Type 0)
    : Ended A → Type 0 where
  returned_with : {a : A} {s : Session} → P a s → Ends P E F (returned a s)
  raised_with : {m : ErrorMessage} {s : Session} → E s → Ends P E F (raised m s)
  faulted : F → Ends P E F fault

pub Ends-bind :
    {A B : Type 0} {P : A → Session → Type 0} {Q : B → Session → Type 0} {E : Session → Type 0}
    {F : Type 0} (r : Ended A) (f : A → Action B)
    → Ends P E F r
    → ((a : A) (s : Session) → P a s → Ends Q E F (f a s))
    → Ends Q E F (bind r f)
Ends-bind _ f (returned_with {a} {s} p) k = k a s p
Ends-bind _ f (raised_with e) k = raised_with e
Ends-bind _ f (faulted c) k = faulted c

pub Ends-weaken :
    {A : Type 0} {P Q : A → Session → Type 0} {E : Session → Type 0} {F : Type 0} (r : Ended A)
    → Ends P E F r
    → ((a : A) (s : Session) → P a s → Q a s)
    → Ends Q E F r
Ends-weaken _ (returned_with {a} {s} p) f = returned_with (f a s p)
Ends-weaken _ (raised_with e) f = raised_with e
Ends-weaken _ (faulted c) f = faulted c

-- How many buffers the table of the DMA controller holds.
abbrev pub count : Session → ℕ
count s = length s.controller.manager.buffers

-- What a part of a session did from `s` to `s'`: `n` buffers more in the table, the registers that were
-- written, in order, and the copies.
pub record Did (s : Session) (n : ℕ) (ws : List (ℕ × ℕ)) (cs : List (ℕ × List ℕ)) (s' : Session)
    : Type 0 where
  pub initialized : s'.controller.manager.initialized ≡ s.controller.manager.initialized
  pub counted : count s' ≡ count s + n
  pub bounded : count s ≤ max_dma_buffers → count s' ≤ max_dma_buffers
  pub device_fd : s'.device_fd ≡ s.device_fd
  pub writes : s'.writes ≡ s.writes ++ ws
  pub copies : s'.copies ≡ s.copies ++ cs

pub Did-refl : (s : Session) → Did s 0 [] [] s
Did-refl s = record {
  initialized = refl;
  counted = omega arith;
  bounded = λ h. h;
  device_fd = refl;
  writes = sym (append-nil s.writes);
  copies = sym (append-nil s.copies);
}

-- What holds where an exception ends a session: the table did not shrink, nor pass its bound.
abbrev pub Kept : Session → Session → Type 0
Kept s s' = (count s ≤ count s') × (count s ≤ max_dma_buffers → count s' ≤ max_dma_buffers)

pub Did-Kept :
    {s : Session} {n : ℕ} {ws : List (ℕ × ℕ)} {cs : List (ℕ × List ℕ)} {s' : Session}
    → Did s n ws cs s'
    → Kept s s'
Did-Kept d = (omega (arith, d.counted), d.bounded)

pub Did-count :
    {s : Session} {n : ℕ} {ws : List (ℕ × ℕ)} {cs : List (ℕ × List ℕ)} {s' : Session} (m : ℕ)
    → n ≡ m
    → Did s n ws cs s'
    → Did s m ws cs s'
Did-count {s} {n} {ws} {cs} {s'} m e d = subst (λ k. Did s k ws cs s') e d

pub Did-copies :
    {s : Session} {n : ℕ} {ws : List (ℕ × ℕ)} {cs : List (ℕ × List ℕ)} {s' : Session}
    (ds : List (ℕ × List ℕ))
    → cs ≡ ds
    → Did s n ws cs s'
    → Did s n ws ds s'
Did-copies {s} {n} {ws} {cs} {s'} ds e d = subst (λ l. Did s n ws l s') e d
