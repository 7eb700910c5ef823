-- ===== src/Main/Closing.antt =====
-- What the program leaves behind when main returns.
use satellite_quic_proxy.Base.{ℕ, ◌≡◌, false, none, some, List}
use satellite_quic_proxy.Base.Outcome.{Outcome, done, fault}
use satellite_quic_proxy.Fpga.Session.{Device}
use satellite_quic_proxy.Fpga.Interface.{FpgaInterface, Answers}
use satellite_quic_proxy.Fpga.Interface
use satellite_quic_proxy.Fpga.Interface.Closing.{IsClosed}
use satellite_quic_proxy.Proxy.{QuicProxy}
use satellite_quic_proxy.Main.{Flag, Configuration, runs, parse_options, defaults, Exit, exit_with}

-- The threads of the proxy do not stop it, and neither open nor close its socket.
pub record KeepServing (threads : QuicProxy → QuicProxy) : Type 0 where
  pub running : (p : QuicProxy) → (threads p).running ≡ p.running
  pub server_socket : (p : QuicProxy) → (threads p).server_socket ≡ p.server_socket
  pub closed_sockets : (p : QuicProxy) → (threads p).closed_sockets ≡ p.closed_sockets

-- A proxy that does not run and has no socket, and has closed just those that it opened, each once.
pub record IsStopped (opened : List ℕ) (p : QuicProxy) : Type 0 where
  pub running : p.running ≡ false
  pub server_socket : p.server_socket ≡ none
  pub closed_sockets : p.closed_sockets ≡ opened

-- All that main created is closed; `opened` are the sockets that it opened if it had a proxy.
pub data Left (opened : List ℕ) : Exit → Type 0 where
  nothing : {code : ℕ} → Left opened (exit_with code)
  interface :
      {code : ℕ} {i : FpgaInterface}
      → IsClosed i
      → Left opened (record { code = code; fpga = some i; proxy = none })
  both :
      {code : ℕ} {i : FpgaInterface} {p : QuicProxy}
      → IsClosed i
      → IsStopped opened p
      → Left opened (record { code = code; fpga = some i; proxy = some p })

-- Nothing is left open where main returns; `Crash` holds where it does not.
pub data LeavesNothing (opened : List ℕ) (Crash : Type 0) : Outcome Exit → Type 0 where
  leaves : {e : Exit} → Left opened e → LeavesNothing opened Crash (done e)
  crashed : Crash → LeavesNothing opened Crash fault

-- The options let main run, and the initialization of its interface leaves the defined behaviour.
abbrev pub Crashes : Answers → Device → List Flag → Type 0
Crashes answers d flags =
    (c : Configuration) × (parse_options flags defaults ≡ runs c)
    × (Interface.initialize answers d (Interface.new c.simulation_mode) ≡ fault)
