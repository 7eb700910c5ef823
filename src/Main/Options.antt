-- ===== src/Main/Options.antt =====
-- What the options of the command line come to.
use satellite_quic_proxy.Base.{
  ℕ, ◌≡◌, refl, ap, ◌∙◌, Bool, true, false, Option, none, some, List, [], ◌∷◌, ◌||◌,
}
use satellite_quic_proxy.Main.{
  Flag, port, bind, device, acceleration, simulation, verbose, help, unknown, Configuration,
  defaults, Parsed, runs, exits, parse_options,
}

-- The value of the first option that ends the program.
abbrev pub first_stop : List Flag → Option ℕ
first_stop [] = none
first_stop (help ∷ flags) = some 0
first_stop (unknown ∷ flags) = some 1
first_stop (port n ∷ flags) = first_stop flags
first_stop (bind text ∷ flags) = first_stop flags
first_stop (device text ∷ flags) = first_stop flags
first_stop (acceleration ∷ flags) = first_stop flags
first_stop (simulation ∷ flags) = first_stop flags
first_stop (verbose ∷ flags) = first_stop flags

-- The last argument of an option, or what there was before.
abbrev pub last_some {ℓ} : {A : Type ℓ} → (Flag → Option A) → A → List Flag → A
last_some argument a [] = a
last_some argument a (f ∷ flags) =
    last_some argument (elim (argument f) [ none ↦ a | some b ↦ b ]) flags

abbrev pub has : (Flag → Bool) → List Flag → Bool
has test [] = false
has test (f ∷ flags) = test f || has test flags

abbrev pub port_of : Flag → Option ℕ
port_of (port n) = some n
port_of f = none

abbrev pub address_of : Flag → Option (List ℕ)
address_of (bind text) = some text
address_of f = none

abbrev pub device_of : Flag → Option (List ℕ)
device_of (device text) = some text
device_of f = none

abbrev pub is_simulation : Flag → Bool
is_simulation simulation = true
is_simulation f = false

abbrev pub is_verbose : Flag → Bool
is_verbose verbose = true
is_verbose f = false

abbrev pub options_of : Configuration → List Flag → Configuration
options_of c flags = record {
  port = last_some port_of c.port flags;
  bind_address = last_some address_of c.bind_address flags;
  device_path = last_some device_of c.device_path flags;
  enable_acceleration = true;
  simulation_mode = c.simulation_mode || has is_simulation flags;
  verbose_logging = c.verbose_logging || has is_verbose flags;
}

abbrev pub expected : Configuration → List Flag → Parsed
expected c flags = elim (first_stop flags) [
  | none ↦ runs (options_of c flags)
  | some code ↦ exits code
]

or_true : (b : Bool) → true ≡ b || true
or_true true = refl
or_true false = refl

or_false : (b : Bool) → b ≡ b || false
or_false true = refl
or_false false = refl

-- The outcome with other values of the three switches.
abbrev switched : Configuration → List Flag → Bool → Bool → Bool → Parsed
switched c flags accelerates simulates logs = elim (first_stop flags) [
  | none ↦ runs (record (options_of c flags) {
    enable_acceleration = accelerates;
    simulation_mode = simulates;
    verbose_logging = logs;
  })
  | some code ↦ exits code
]

parse_from :
    (flags : List Flag) (c : Configuration)
    → c.enable_acceleration ≡ true
    → parse_options flags c ≡ expected c flags
unfolding parse_options
parse_from [] c on =
    λ i. switched c [] (on i) (or_false c.simulation_mode i) (or_false c.verbose_logging i)
parse_from (port n ∷ flags) c on = parse_from flags (record c { port = n }) on
parse_from (bind text ∷ flags) c on = parse_from flags (record c { bind_address = text }) on
parse_from (device text ∷ flags) c on = parse_from flags (record c { device_path = text }) on
parse_from (acceleration ∷ flags) c on =
    parse_from flags (record c { enable_acceleration = true }) refl
parse_from (simulation ∷ flags) c on =
    parse_from flags (record c { simulation_mode = true }) on
    ∙ ap (λ b. switched c flags true b (c.verbose_logging || has is_verbose flags))
        (or_true c.simulation_mode)
parse_from (verbose ∷ flags) c on =
    parse_from flags (record c { verbose_logging = true }) on
    ∙ ap (λ b. switched c flags true (c.simulation_mode || has is_simulation flags) b)
        (or_true c.verbose_logging)
parse_from (help ∷ flags) c on = refl
parse_from (unknown ∷ flags) c on = refl

-- The first option that asks for help or is not known ends the program. Without one the last port,
-- address and device count, simulation and logging are on where they are asked for, and acceleration is
-- on whatever the options are.
pub parse_options_lem : (flags : List Flag) → parse_options flags defaults ≡ expected defaults flags
unfolding defaults
parse_options_lem flags = parse_from flags defaults refl
