-- ===== src/Fpga/Interface/Closing.antt =====
-- What stays open of the device: after a call of initialize that fails, and after shutdown.
use satellite_quic_proxy.Base.{
  ℕ, ◌≡◌, refl, sym, ap, ◌∙◌, inl, inr, Bool, true, false, Option, none, some, ◌++◌, append-nil,
  Bool-cases, arith,
}
use satellite_quic_proxy.Base.Outcome.{done}
use satellite_quic_proxy.Dma.Controller.{Controller}
use satellite_quic_proxy.Dma.Controller
use satellite_quic_proxy.Fpga.Session.{Device}
use satellite_quic_proxy.Fpga.Interface.{
  FpgaInterface, Answers, open_device, close_device, reset_fpga, connect, connect_with, initialize,
  shutdown, new,
}
use satellite_quic_proxy.Fpga.Interface.Connection.{
  current, IsValid, initialize-IsValid, Outcome-cases, open_device-SameUse, close_device-SameUse,
  close_device-accounted, new-IsValid,
}

nothing_open :
    (i : FpgaInterface)
    → i.device_fd ≡ none
    → i.opened ≡ i.closed ++ current i.device_fd
    → i.opened ≡ i.closed
nothing_open i e h = h ∙ ap (λ (o : Option ℕ). i.closed ++ current o) e ∙ append-nil i.closed

close_device-none : (i : FpgaInterface) → (close_device i).device_fd ≡ none
unfolding close_device
close_device-none i = ground arith

connect_failed :
    (device : Device) (i j : FpgaInterface) (ok : Bool)
    → connect device i ok ≡ (j, false)
    → j ≡ close_device i
unfolding connect
connect_failed device i j false h = cc
connect_failed device i j true h = elim (Bool-cases (reset_fpga device i)) [
  | inl ok ↦ absurd (cc)
  | inr bad ↦ cc
]

open_device_failed :
    (answer : Option ℕ) (i : FpgaInterface)
    → (open_device answer i).1 ≡ false
    → (open_device answer i).0.device_fd ≡ none
unfolding open_device
open_device_failed answer i h = ground arith

failed_steps :
    (answers : Answers) (device : Device) (i j : FpgaInterface)
    → initialize answers device i ≡ done (j, false)
    → (j.device_fd ≡ none) × (j.connected ≡ i.connected)
unfolding initialize connect_with
failed_steps answers device i j h =
    let opened : FpgaInterface = (open_device answers.descriptor i).0 in
    let (c, s, d) = open_device-SameUse answers.descriptor i in
    elim (Bool-cases i.simulation_mode) [
      | inl sim ↦ absurd (cc)
      | inr hardware ↦ elim (Bool-cases (open_device answers.descriptor i).1) [
        | inr no_ ↦ let e : j ≡ opened = cc in rw e (open_device_failed answers.descriptor i no_, c)
        | inl yes_ ↦
            elim (Outcome-cases (
              Controller.initialize answers.info answers.status
                (Controller.new opened.device_fd))) [
                  | inl out ↦ absurd (cc)
                  | inr ((k, good), r) ↦
                      let with : FpgaInterface = record opened { dma_controller = some k } in
                      let e : j ≡ close_device with = connect_failed device with j good (cc) in
                      rw e (close_device-none with, (close_device-SameUse with).0 ∙ c)
                ]
      ]
    ]

-- Where each opened descriptor was closed or the present one, and a connected interface that does not
-- simulate had a controller, a call of initialize that fails, in whatever step, leaves no device
-- open, and every descriptor that was opened is closed; but an interface that was connected before
-- still counts as connected.
pub initialize_failed :
    (answers : Answers) (device : Device) (i j : FpgaInterface)
    → IsValid i
    → initialize answers device i ≡ done (j, false)
    → (j.device_fd ≡ none) × (j.opened ≡ j.closed) × (j.connected ≡ i.connected)
initialize_failed answers device i j v h =
    let w = initialize-IsValid answers device i j false v h in
    let (none_open, same) = failed_steps answers device i j h in
    (none_open, nothing_open j none_open w.accounted, same)

-- Nothing of the device is held any more.
pub record IsClosed (i : FpgaInterface) : Type 0 where
  pub device_fd : i.device_fd ≡ none
  pub dma_controller : i.dma_controller ≡ none
  pub accounted : i.opened ≡ i.closed
  pub connected : i.connected ≡ false

-- The histories after which a call of shutdown closes all: in simulation nothing may be open.
pub record Closes (i : FpgaInterface) : Type 0 where
  pub valid : i.opened ≡ i.closed ++ current i.device_fd
  pub detached :
      i.simulation_mode ≡ true
      → (i.device_fd ≡ none) × (i.dma_controller ≡ none) × (i.opened ≡ i.closed)

new-Closes : (simulation_mode : Bool) → Closes (new simulation_mode)
unfolding new
new-Closes simulation_mode = record { valid = refl; detached = λ _. (refl, refl, refl) }

pub shutdown-IsClosed : (i : FpgaInterface) → Closes i → IsClosed (shutdown i)
unfolding shutdown close_device
shutdown-IsClosed i c = elim (Bool-cases i.simulation_mode) [
  | inl sim ↦
      let (fd, controller, accounted) = c.detached sim in
      simp sim (record {
        device_fd = fd;
        dma_controller = controller;
        accounted = accounted;
        connected = refl;
      })
  | inr hardware ↦
      let bare : FpgaInterface = record i { dma_controller = none } in
      simp hardware (record {
        device_fd = close_device-none bare;
        dma_controller = (close_device-SameUse bare).2;
        accounted =
            nothing_open (close_device bare) (close_device-none bare)
              (close_device-accounted bare c.valid);
        connected = refl;
      })
]

pub IsClosed-Closes : (i : FpgaInterface) → IsClosed i → Closes i
IsClosed-Closes i h = record {
  valid =
      h.accounted
      ∙ sym (append-nil i.closed)
      ∙ ap (λ (o : Option ℕ). i.closed ++ current o) (sym h.device_fd);
  detached = λ _. (h.device_fd, h.dma_controller, h.accounted);
}

connect_mode :
    (device : Device) (i : FpgaInterface) (ok : Bool)
    → (connect device i ok).0.simulation_mode ≡ i.simulation_mode
unfolding connect
connect_mode device i false = (close_device-SameUse i).1
connect_mode device i true = elim (Bool-cases (reset_fpga device i)) [
  | inl ok ↦ rw ok refl
  | inr bad ↦ rw bad (close_device-SameUse i).1
]

initialize_mode :
    (answers : Answers) (device : Device) (i j : FpgaInterface) (ok : Bool)
    → i.simulation_mode ≡ false
    → initialize answers device i ≡ done (j, ok)
    → j.simulation_mode ≡ false
unfolding initialize connect_with
initialize_mode answers device i j ok hardware h =
    let opened : FpgaInterface = (open_device answers.descriptor i).0 in
    let (c, s, d) = open_device-SameUse answers.descriptor i in
    elim (Bool-cases (open_device answers.descriptor i).1) [
      | inr no_ ↦ let e : j ≡ opened = cc in rw e (s ∙ hardware)
      | inl yes_ ↦
          elim (Outcome-cases
            (Controller.initialize answers.info answers.status (Controller.new opened.device_fd))) [
              | inl out ↦ absurd (cc)
              | inr ((k, good), r) ↦
                  let with : FpgaInterface = record opened { dma_controller = some k } in
                  let e : j ≡ (connect device with good).0 = cc in
                  rw e (connect_mode device with good ∙ s ∙ hardware)
            ]
    ]

-- A new interface, initialized, well or not, closes by shutdown.
pub initialize-Closes :
    (answers : Answers) (device : Device) (simulation_mode : Bool) (j : FpgaInterface) (ok : Bool)
    → initialize answers device (new simulation_mode) ≡ done (j, ok)
    → Closes j
unfolding new initialize
initialize-Closes answers device true j ok h =
    let e : j ≡ record (new true) { connected = true } = cc in
    rw e (record { valid = refl; detached = λ _. (refl, refl, refl) })
initialize-Closes answers device false j ok h =
    let v = initialize-IsValid answers device (new false) j ok (new-IsValid false) h in
    let hardware = initialize_mode answers device (new false) j ok refl h in
    record { valid = v.accounted; detached = λ sim. absurd (cc) }
