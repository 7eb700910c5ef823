-- ===== src/Dma/Engine/Idle.antt =====
-- How many engines are idle, and how taking and releasing one changes that.
use satellite_quic_proxy.Base.{
  ℕ, zero, suc, ◌+◌, ◌≡◌, refl, true, none, some, List, [], ◌∷◌, arith, get_elem?, if◌then◌else◌,
  Bool-cases, Option-cases, inl, inr, ◌<◌,
}
use satellite_quic_proxy.Dma.Engine.{
  DmaEngine, get_available_engine, set_idle, check_complete, channel_reg,
}

-- How many engines are idle.
abbrev pub idle_count : List DmaEngine → ℕ
idle_count [] = 0
idle_count (e ∷ es) = (if e.busy then 0 else 1) + idle_count es

abbrev pub IsBusyAt : ℕ → List DmaEngine → Type 0
IsBusyAt i es = (e : DmaEngine) × (get_elem? es i ≡ some e) × (e.busy ≡ true)

-- Taking an engine: there is one exactly while one is idle, it was idle, and it is busy afterwards.
pub get_available_engine-none :
    (es : List DmaEngine) → get_available_engine es ≡ none → idle_count es ≡ 0
unfolding get_available_engine
get_available_engine-none [] h = refl
get_available_engine-none (e ∷ es) h = ground (arith, get_available_engine-none es)

pub get_available_engine-idle_count :
    (es : List DmaEngine) (i : ℕ) (es' : List DmaEngine)
    → get_available_engine es ≡ some (i, es')
    → idle_count es ≡ idle_count es' + 1
unfolding get_available_engine
get_available_engine-idle_count [] i es' h = absurd (ground arith)
get_available_engine-idle_count (e ∷ es) i es' h = elim (Option-cases (get_available_engine es)) [
  | inl n ↦ ground arith
  | inr ((j, ds), n) ↦ ground (arith, get_available_engine-idle_count es j ds n)
]

pub get_available_engine-IsBusyAt :
    (es : List DmaEngine) (i : ℕ) (es' : List DmaEngine)
    → get_available_engine es ≡ some (i, es')
    → IsBusyAt i es'
unfolding get_available_engine
get_available_engine-IsBusyAt [] i es' h = absurd (ground arith)
get_available_engine-IsBusyAt (e ∷ es) i es' h = elim (Bool-cases e.busy) [
  | inl b ↦ elim (Option-cases (get_available_engine es)) [
    | inl n ↦ absurd (ground arith)
    | inr ((j, ds), n) ↦
        let (d, at, busy) = get_available_engine-IsBusyAt es j ds n in (d, ground arith, busy)
  ]
  | inr b ↦ (record e { busy = true }, ground arith, refl)
]

-- An engine that is busy stays busy while another one is taken.
pub get_available_engine-keeps :
    (es : List DmaEngine) (i : ℕ) (es' : List DmaEngine) (k : ℕ)
    → get_available_engine es ≡ some (i, es')
    → IsBusyAt k es
    → IsBusyAt k es'
unfolding get_available_engine
get_available_engine-keeps [] i es' k h b = absurd (ground arith)
get_available_engine-keeps (e ∷ es) i es' zero h (d, at, busy) = (e, ground arith, ground arith)
get_available_engine-keeps (e ∷ es) i es' (suc k) h (d, at, busy) = elim (Bool-cases e.busy) [
  | inl b ↦ elim (Option-cases (get_available_engine es)) [
    | inl n ↦ absurd (ground arith)
    | inr ((j, ds), n) ↦
        let (d', at', busy') = get_available_engine-keeps es j ds k n (d, at, busy) in
        (d', ground arith, busy')
  ]
  | inr b ↦ (d, ground arith, busy)
]

pub set_idle-idle_count :
    (i : ℕ) (es : List DmaEngine) → IsBusyAt i es → idle_count (set_idle i es) ≡ idle_count es + 1
unfolding set_idle
set_idle-idle_count i [] (d, at, busy) = absurd (ground arith)
set_idle-idle_count zero (e ∷ es) (d, at, busy) = ground arith
set_idle-idle_count (suc i) (e ∷ es) (d, at, busy) =
    omega (arith, set_idle-idle_count i es (d, at, busy))

-- Taking an engine changes no address, so the polls see the same registers.
pub check_complete-taken :
    (read : ℕ → ℕ) (es : List DmaEngine) (i : ℕ) (es' : List DmaEngine) (channel : ℕ)
    → get_available_engine es ≡ some (i, es')
    → check_complete read es' channel ≡ check_complete read es channel
unfolding get_available_engine check_complete channel_reg
check_complete-taken read [] i es' channel h = absurd (ground arith)
check_complete-taken read (e ∷ es) i es' channel h = elim (Bool-cases e.busy) [
  | inl b ↦ elim (Option-cases (get_available_engine es)) [
    | inl n ↦ absurd (ground arith)
    | inr ((j, ds), n) ↦
        let same : es' ≡ e ∷ ds = ground arith in
        rw same (rw (check_complete-taken read es j ds channel n, check_complete) refl)
  ]
  | inr b ↦ let same : es' ≡ record e { busy = true } ∷ es = ground arith in rw same refl
]

pub get_available_engine-some :
    (es : List DmaEngine)
    → 0 < idle_count es
    → (r : ℕ × List DmaEngine) × (get_available_engine es ≡ some r)
get_available_engine-some es h = elim (Option-cases (get_available_engine es)) [
  | inl n ↦ absurd (omega (arith, get_available_engine-none es n))
  | inr (r, n) ↦ (r, n)
]

pub check_complete-set_idle :
    (read : ℕ → ℕ) (i : ℕ) (es : List DmaEngine) (channel : ℕ)
    → check_complete read (set_idle i es) channel ≡ check_complete read es channel
unfolding set_idle check_complete channel_reg
check_complete-set_idle read i [] channel = refl
check_complete-set_idle read zero (e ∷ es) channel = refl
check_complete-set_idle read (suc i) (e ∷ es) channel =
    rw (check_complete-set_idle read i es channel, check_complete) refl
