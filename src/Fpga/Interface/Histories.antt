-- ===== src/Fpga/Interface/Histories.antt =====
-- Every history of calls of an interface, from its construction on.
use satellite_quic_proxy.Base.{
  ℕ, ◌≡◌, ◌≢◌, refl, sym, subst, ◌∙◌, inl, inr, Bool, ◌&&◌, ◌||◌, not, Option, none, some, List,
  length, ltb, Bool-cases, Option-cases,
}
use satellite_quic_proxy.Base.Outcome.{Outcome, done, fault}
use satellite_quic_proxy.Fpga.Operation.{FpgaOperationResult}
use satellite_quic_proxy.Fpga.PacketUnit.{is_ack, is_empty}
use satellite_quic_proxy.Fpga.Evp.{Evp}
use satellite_quic_proxy.Fpga.Session.{Device, Session, Ended}
use satellite_quic_proxy.Fpga.Interface.{
  FpgaInterface, Answers, new, initialize, shutdown, update_stats, simulated, finish, on_hardware,
  start_session, uses_simulation, execute_compression_operation, execute_packet_operation,
  execute_crypto_operation, max_key_size, max_nonce_size, max_aad_size,
}
use satellite_quic_proxy.Fpga.Interface.Connection.{
  IsValid, new-IsValid, initialize-IsValid, shutdown-IsValid,
}
use satellite_quic_proxy.Fpga.Interface.Exhaustion.{Request, compresses, frames, ciphers, execute}

-- What an operation leaves alone.
record Same (i j : FpgaInterface) : Type 0 where
  connected : j.connected ≡ i.connected
  simulation_mode : j.simulation_mode ≡ i.simulation_mode
  device_fd : j.device_fd ≡ i.device_fd
  opened : j.opened ≡ i.opened
  closed : j.closed ≡ i.closed
  controller : i.dma_controller ≢ none → j.dma_controller ≢ none

-- An end of an operation that is not a fault.
data EndedSame (i : FpgaInterface)
    : Option (Outcome (FpgaInterface × FpgaOperationResult)) → Type 0 where
  same : {j : FpgaInterface} {r : FpgaOperationResult} → Same i j → EndedSame i (some (done (j, r)))
  crashed : EndedSame i (some fault)
  starved : EndedSame i none

unchanged : (i : FpgaInterface) → Same i i
unchanged i = record {
  connected = refl;
  simulation_mode = refl;
  device_fd = refl;
  opened = refl;
  closed = refl;
  controller = λ h. h;
}

finish_same :
    (size duration : ℕ) (i : FpgaInterface) (e : Ended (List ℕ × ℕ))
    → EndedSame i (finish size duration i e)
unfolding finish update_stats
finish_same size duration i (Ended.returned (bytes, time) s) = same (record {
  connected = refl;
  simulation_mode = refl;
  device_fd = refl;
  opened = refl;
  closed = refl;
  controller = λ _ q. cc;
})
finish_same size duration i (Ended.raised text s) = same (record {
  connected = refl;
  simulation_mode = refl;
  device_fd = refl;
  opened = refl;
  closed = refl;
  controller = λ _ q. cc;
})
finish_same size duration i Ended.fault = crashed
finish_same size duration i Ended.unfinished = starved

on_hardware_same :
    (session : Session → Ended (List ℕ × ℕ)) (size duration : ℕ) (i : FpgaInterface)
    → EndedSame i (on_hardware session size duration i)
unfolding on_hardware
on_hardware_same session size duration i = elim (Option-cases i.dma_controller) [
  | inl e ↦
      let none_there : some fault ≡ on_hardware session size duration i = cc in
      subst (λ o. EndedSame i o) none_there crashed
  | inr (c, e) ↦
      let there : finish size duration i (session (start_session i c))
          ≡ on_hardware session size duration i =
        cc in
      subst (λ o. EndedSame i o) there (finish_same size duration i (session (start_session i c)))
]

counts-Same :
    (i : FpgaInterface) (crypto compression packet bytes time : ℕ)
    → Same i (record i {
      crypto_ops_count = crypto;
      compression_ops_count = compression;
      packet_ops_count = packet;
      total_bytes_processed = bytes;
      total_processing_time_us = time;
    })
counts-Same i crypto compression packet bytes time = record {
  connected = refl;
  simulation_mode = refl;
  device_fd = refl;
  opened = refl;
  closed = refl;
  controller = λ h. h;
}

execute_same :
    {Context : Type 0} (evp : Evp Context) (fuel : ℕ) (q : Request) (device : Device) (duration : ℕ)
    (i : FpgaInterface)
    → EndedSame i (execute evp fuel q device duration i)
unfolding execute execute_compression_operation execute_packet_operation execute_crypto_operation
    simulated update_stats
execute_same evp fuel (compresses type bytes) device duration i =
    elim (Bool-cases (is_empty bytes)) [
      | inl e ↦ simp e (same (unchanged i))
      | inr e ↦ elim (Bool-cases (uses_simulation i)) [
        | inl s ↦ simp (e, s) (same (counts-Same i _ _ _ _ _))
        | inr s ↦ simp (e, s) (on_hardware_same _ _ _ i)
      ]
    ]
execute_same evp fuel (frames type bytes connection number) device duration i =
    elim (Bool-cases (not (is_ack type) && is_empty bytes)) [
      | inl e ↦ simp e (same (unchanged i))
      | inr e ↦ elim (Bool-cases (uses_simulation i)) [
        | inl s ↦ simp (e, s) (same (counts-Same i _ _ _ _ _))
        | inr s ↦ simp (e, s) (on_hardware_same _ _ _ i)
      ]
    ]
execute_same evp fuel (ciphers type x) device duration i =
    elim (Bool-cases (is_empty x.bytes || is_empty x.key || is_empty x.nonce)) [
      | inl e ↦ simp e (same (unchanged i))
      | inr e ↦
          elim (Bool-cases (
            ltb max_key_size (length x.key)
            || ltb max_nonce_size (length x.nonce)
            || (ltb max_aad_size (length x.aad) && not (is_empty x.aad)))) [
              | inl f ↦ simp (e, f) (same (unchanged i))
              | inr f ↦ elim (Bool-cases (uses_simulation i)) [
                | inl s ↦ simp (e, f, s) (same (counts-Same i _ _ _ _ _))
                | inr s ↦ simp (e, f, s) (on_hardware_same _ _ _ i)
              ]
            ]
    ]

Same-of :
    {i j : FpgaInterface} {r : FpgaOperationResult}
    (o : Option (Outcome (FpgaInterface × FpgaOperationResult)))
    → o ≡ some (done (j, r))
    → EndedSame i o
    → Same i j
Same-of {i} {j} {r} _ e (same {j = j'} s) = let h : j' ≡ j = cc in subst (λ k. Same i k) h s
Same-of _ e crashed = absurd (cc)
Same-of _ e starved = absurd (cc)

execute-IsValid :
    {Context : Type 0} (evp : Evp Context) (fuel : ℕ) (q : Request) (device : Device) (duration : ℕ)
    (i j : FpgaInterface) (r : FpgaOperationResult)
    → execute evp fuel q device duration i ≡ some (done (j, r))
    → IsValid i
    → IsValid j
execute-IsValid evp fuel q device duration i j r e v =
    let s = Same-of _ e (execute_same evp fuel q device duration i) in
    record {
      ready = λ on hardware.
          s.controller (v.ready (sym s.connected ∙ on) (sym s.simulation_mode ∙ hardware));
      accounted = rw (s.opened, s.closed, s.device_fd) v.accounted;
    }

-- The interfaces that a history of calls leads to: it starts with the constructor, and ends before a call
-- that leaves the defined behaviour.
pub data Reached (simulation_mode : Bool) : FpgaInterface → Type 1 where
  constructed : (i : FpgaInterface) → i ≡ new simulation_mode → Reached simulation_mode i
  initialized :
      (answers : Answers) (device : Device) (i j : FpgaInterface) (ok : Bool)
      → Reached simulation_mode i
      → initialize answers device i ≡ done (j, ok)
      → Reached simulation_mode j
  shut_down :
      (i j : FpgaInterface) → Reached simulation_mode i → j ≡ shutdown i → Reached simulation_mode j
  executed :
      {Context : Type 0} (evp : Evp Context) (fuel : ℕ) (q : Request) (device : Device)
      (duration : ℕ) (i j : FpgaInterface) (r : FpgaOperationResult)
      → Reached simulation_mode i
      → execute evp fuel q device duration i ≡ some (done (j, r))
      → Reached simulation_mode j

-- After every history of calls, an interface that is connected and does not simulate has a DMA
-- controller, and each descriptor that was opened has been closed, just once, or is the present one.
pub Reached-IsValid :
    (simulation_mode : Bool) (i : FpgaInterface) → Reached simulation_mode i → IsValid i
Reached-IsValid simulation_mode i (constructed _ e) = rw e (new-IsValid simulation_mode)
Reached-IsValid simulation_mode j (initialized answers device i _ ok h e) =
    initialize-IsValid answers device i j ok (Reached-IsValid simulation_mode i h) e
Reached-IsValid simulation_mode j (shut_down i _ h e) =
    rw e (shutdown-IsValid i (Reached-IsValid simulation_mode i h))
Reached-IsValid simulation_mode j (executed evp fuel q device duration i _ r h e) =
    execute-IsValid evp fuel q device duration i j r e (Reached-IsValid simulation_mode i h)
