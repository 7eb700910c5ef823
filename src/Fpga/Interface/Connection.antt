-- ===== src/Fpga/Interface/Connection.antt =====
-- Connecting to the device, and what every history of calls keeps of the connection.
use satellite_quic_proxy.Base.{
  ℕ, ◌≡◌, ◌≢◌, refl, sym, ◌∙◌, ◌⊎◌, inl, inr, Bool, true, false, Option, none, some, List, [], ◌∷◌,
  ◌++◌, append-nil, Bool-cases, arith,
}
use satellite_quic_proxy.Base.Outcome.{Outcome, done, fault}
use satellite_quic_proxy.Dma.Controller.{Controller}
use satellite_quic_proxy.Dma.Controller
use satellite_quic_proxy.Fpga.Session.{Device}
use satellite_quic_proxy.Fpga.Interface.{
  FpgaInterface, Answers, open_device, close_device, reset_fpga, connect, connect_with, initialize,
  shutdown, new,
}

abbrev pub current : Option ℕ → List ℕ
current none = []
current (some fd) = fd ∷ []

-- A connected interface that does not simulate has a DMA controller, and each descriptor that was opened
-- is closed again or the present one.
pub record IsValid (i : FpgaInterface) : Type 0 where
  pub ready : i.connected ≡ true → i.simulation_mode ≡ false → i.dma_controller ≢ none
  pub accounted : i.opened ≡ i.closed ++ current i.device_fd

pub new-IsValid : (simulation_mode : Bool) → IsValid (new simulation_mode)
unfolding new
new-IsValid simulation_mode = record { ready = λ h. absurd (cc); accounted = refl }

open_device-accounted :
    (answer : Option ℕ) (i : FpgaInterface)
    → i.opened ≡ i.closed ++ current i.device_fd
    → (open_device answer i).0.opened
      ≡ (open_device answer i).0.closed ++ current (open_device answer i).0.device_fd
unfolding open_device
open_device-accounted answer i h = ground (arith, append-nil i.closed)

pub close_device-accounted :
    (i : FpgaInterface)
    → i.opened ≡ i.closed ++ current i.device_fd
    → (close_device i).opened ≡ (close_device i).closed ++ current (close_device i).device_fd
unfolding close_device
close_device-accounted i h =
    ground (arith, append-nil i.closed, append-nil (i.closed ++ current i.device_fd))

pub Outcome-cases : {A : Type 0} (o : Outcome A) → (o ≡ fault) ⊎ ((a : A) × (o ≡ done a))
Outcome-cases fault = inl refl
Outcome-cases (done a) = inr (a, refl)

-- Opening and closing touch neither the flags nor the controller.
abbrev pub SameUse : FpgaInterface → FpgaInterface → Type 0
SameUse i j =
    (j.connected ≡ i.connected)
    × (j.simulation_mode ≡ i.simulation_mode)
    × (j.dma_controller ≡ i.dma_controller)

pub open_device-SameUse :
    (answer : Option ℕ) (i : FpgaInterface) → SameUse i (open_device answer i).0
unfolding open_device
open_device-SameUse answer i = (ground arith, ground arith, ground arith)

pub close_device-SameUse : (i : FpgaInterface) → SameUse i (close_device i)
unfolding close_device
close_device-SameUse i = (ground arith, ground arith, ground arith)

open_device-IsValid :
    (answer : Option ℕ) (i : FpgaInterface) → IsValid i → IsValid (open_device answer i).0
open_device-IsValid answer i v =
    let (c, s, d) = open_device-SameUse answer i in
    record {
      ready = λ on hardware. rw d (v.ready (sym c ∙ on) (sym s ∙ hardware));
      accounted = open_device-accounted answer i v.accounted;
    }

close_device-IsValid : (i : FpgaInterface) → IsValid i → IsValid (close_device i)
close_device-IsValid i v =
    let (c, s, d) = close_device-SameUse i in
    record {
      ready = λ on hardware. rw d (v.ready (sym c ∙ on) (sym s ∙ hardware));
      accounted = close_device-accounted i v.accounted;
    }

connect-IsValid :
    (device : Device) (i : FpgaInterface) (ok : Bool)
    → i.dma_controller ≢ none
    → i.opened ≡ i.closed ++ current i.device_fd
    → IsValid (connect device i ok).0
unfolding connect
connect-IsValid device i false h e =
    close_device-IsValid i (record { ready = λ _ _. h; accounted = e })
connect-IsValid device i true h e = elim (Bool-cases (reset_fpga device i)) [
  | inl ok ↦ rw ok (record { ready = λ _ _. h; accounted = e })
  | inr bad ↦ rw bad (close_device-IsValid i (record { ready = λ _ _. h; accounted = e }))
]

pub initialize-IsValid :
    (answers : Answers) (device : Device) (i j : FpgaInterface) (ok : Bool)
    → IsValid i
    → initialize answers device i ≡ done (j, ok)
    → IsValid j
unfolding initialize connect_with
initialize-IsValid answers device i j ok v h =
    let opened : FpgaInterface = (open_device answers.descriptor i).0 in
    let w = open_device-IsValid answers.descriptor i v in
    elim (Bool-cases i.simulation_mode) [
      | inl sim ↦
          let e : j ≡ record i { connected = true } = cc in
          rw e (record { ready = λ _ hardware. absurd (cc); accounted = v.accounted })
      | inr hardware ↦ elim (Bool-cases (open_device answers.descriptor i).1) [
        | inr no_ ↦ let e : j ≡ opened = cc in rw e w
        | inl yes_ ↦
            elim (Outcome-cases (
              Controller.initialize answers.info answers.status
                (Controller.new opened.device_fd))) [
                  | inl out ↦ absurd (cc)
                  | inr ((c, good), r) ↦
                      let e : j
                          ≡ (connect device (record opened { dma_controller = some c }) good).0 =
                        cc in
                      rw e (
                        connect-IsValid device (record opened { dma_controller = some c }) good
                          (λ q. cc) w.accounted)
                ]
      ]
    ]

pub shutdown-IsValid : (i : FpgaInterface) → IsValid i → IsValid (shutdown i)
unfolding shutdown close_device
shutdown-IsValid i v = elim (Bool-cases i.simulation_mode) [
  | inl sim ↦ simp sim (record { ready = λ on. absurd (cc); accounted = v.accounted })
  | inr hardware ↦ simp hardware (record {
    ready = λ on. absurd (cc);
    accounted = close_device-accounted (record i { dma_controller = none }) v.accounted;
  })
]
