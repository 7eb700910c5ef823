-- ===== src/Main.antt =====
-- SatelliteQUICProxy/proxy/src/main.cpp: the command line and the life of the program. getopt_long is a
-- parameter, by the options that it returns in order; a text is the list of its bytes, and the number of a
-- port is what atoi gives, negative numbers left out. What the threads of the proxy do until a signal
-- comes is a function of the proxy. Lines that are printed are left out.
mod Tests
pub mod Options
pub mod Closing
use satellite_quic_proxy.Base.{
  ℕ, Bool, true, false, Option, none, some, List, [], ◌∷◌, if◌then◌else◌,
}
use satellite_quic_proxy.Base.Outcome.{Outcome, done, fault}
use satellite_quic_proxy.Fpga.Session.{Device}
use satellite_quic_proxy.Fpga.Interface.{FpgaInterface, Answers}
use satellite_quic_proxy.Fpga.Interface
use satellite_quic_proxy.Proxy.{QuicProxy, SocketAnswers, set_acceleration_enabled, start, stop}
use satellite_quic_proxy.Proxy

-- What getopt_long returns; `unknown` is every other answer.
pub data Flag : Type 0 where
  port : ℕ → Flag
  bind device : List ℕ → Flag
  acceleration simulation verbose help unknown : Flag

-- The variables of main.
pub record Configuration : Type 0 where
  pub port : ℕ
  pub bind_address : List ℕ
  pub device_path : List ℕ
  pub enable_acceleration : Bool
  pub simulation_mode : Bool
  pub verbose_logging : Bool

-- "0.0.0.0" and "/dev/fpga0".
pub defaults : Configuration
defaults = record {
  port = 8443;
  bind_address = 0x30 ∷ 0x2E ∷ 0x30 ∷ 0x2E ∷ 0x30 ∷ 0x2E ∷ 0x30 ∷ [];
  device_path = 0x2F ∷ 0x64 ∷ 0x65 ∷ 0x76 ∷ 0x2F ∷ 0x66 ∷ 0x70 ∷ 0x67 ∷ 0x61 ∷ 0x30 ∷ [];
  enable_acceleration = true;
  simulation_mode = false;
  verbose_logging = false;
}

-- What the loop over the options leads to: a configuration to run with, or the value of a `return`.
pub data Parsed : Type 0 where
  runs : Configuration → Parsed
  exits : ℕ → Parsed

pub parse_options : List Flag → Configuration → Parsed
parse_options [] c = runs c
parse_options (port n ∷ flags) c = parse_options flags (record c { port = n })
parse_options (bind text ∷ flags) c = parse_options flags (record c { bind_address = text })
parse_options (device text ∷ flags) c = parse_options flags (record c { device_path = text })
parse_options (acceleration ∷ flags) c =
    parse_options flags (record c { enable_acceleration = true })
parse_options (simulation ∷ flags) c = parse_options flags (record c { simulation_mode = true })
parse_options (verbose ∷ flags) c = parse_options flags (record c { verbose_logging = true })
parse_options (help ∷ flags) c = exits 0
parse_options (unknown ∷ flags) c = exits 1

-- The value that main returns, and the objects as their destructors leave them; there is none where main
-- returns before its construction.
pub record Exit : Type 0 where
  pub code : ℕ
  pub fpga : Option FpgaInterface
  pub proxy : Option QuicProxy

abbrev pub exit_with : ℕ → Exit
exit_with code = record { code = code; fpga = none; proxy = none }

-- From proxy.start() on. The destructor of the proxy stops it, and runs before that of the interface.
pub serve : (QuicProxy → QuicProxy) → FpgaInterface → QuicProxy × Bool → Exit
serve threads fpga (proxy, started) =
    if started
    then record {
      code = 0;
      fpga = some (Interface.shutdown (Interface.shutdown fpga));
      proxy = some (stop (stop (threads proxy)));
    }
    else record { code = 1; fpga = some (Interface.shutdown fpga); proxy = some (stop proxy) }

-- From the answer of fpgaInterface.initialize() on.
pub run_with :
    (QuicProxy → QuicProxy)
    → SocketAnswers
    → Configuration
    → Outcome (FpgaInterface × Bool)
    → Outcome Exit
run_with threads sockets c fault = fault
run_with threads sockets c (done (fpga, ok)) =
    if ok
    then done (
        serve threads fpga
          (start sockets (set_acceleration_enabled c.enable_acceleration Proxy.new)))
    else done (record { code = 1; fpga = some (Interface.shutdown fpga); proxy = none })

pub main : (QuicProxy → QuicProxy) → SocketAnswers → Answers → Device → List Flag → Outcome Exit
main threads sockets answers d flags = elim (parse_options flags defaults) [
  | exits code ↦ done (exit_with code)
  | runs c ↦
      run_with threads sockets c (Interface.initialize answers d (Interface.new c.simulation_mode))
]
