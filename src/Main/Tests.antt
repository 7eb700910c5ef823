-- ===== src/Main/Tests.antt =====
-- Examples of runs of the program.
use satellite_quic_proxy.Base.{◌≡◌, true, none, some, List, [], ◌∷◌}
use satellite_quic_proxy.Fpga.Session.{Device}
use satellite_quic_proxy.Fpga.Interface.{Answers}
use satellite_quic_proxy.Proxy.{QuicProxy, SocketAnswers}
use satellite_quic_proxy.Main.{Flag, port, simulation, acceleration, defaults, parse_options}
use satellite_quic_proxy.Main.Options.{expected, parse_options_lem}

abbrev flags : List Flag
flags = port 4433 ∷ simulation ∷ acceleration ∷ port 443 ∷ []

parse_options_lem_example : parse_options flags defaults ≡ expected defaults flags
parse_options_lem_example = parse_options_lem flags

abbrev silent : Device
silent = record {
  write_ok = λ k address value. true;
  read = λ k address. none;
  alloc = λ k size. none;
  memory = λ address. 0;
  elapsed = λ k. k;
}

abbrev granted : SocketAnswers
granted = record {
  socket = some 5;
  reuse_address_ok = true;
  address_ok = true;
  bind_ok = true;
  get_flags_ok = true;
  set_flags_ok = true;
}

abbrev unopened : Answers
unopened = record { descriptor = none; info = none; status = λ i k. 0 }

abbrev quiet : QuicProxy → QuicProxy
quiet p = p
