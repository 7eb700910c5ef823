-- ===== src/Proxy/Connections.antt =====
-- The connections as a table from client keys to handlers.
use satellite_quic_proxy.Base.{
  ℕ, ◌%◌, ◌≡◌, ◌≢◌, refl, sym, false, some, List, [], ◌∷◌, ◌++◌, All, All-append, length,
  length-append, Bool-cases, Option-cases, inl, inr, ◌-◌, ◌/◌, ltb, ◌==◌, u64_mod, arith,
}
use satellite_quic_proxy.Quic.Handler.{is_active}
use satellite_quic_proxy.Quic.Handler.Invariant.{new-IsValid}
use satellite_quic_proxy.Quic.Handler.Invariant
use satellite_quic_proxy.Proxy.{
  Connection, QuicProxy, keep_active, remove_inactive, cleanup_inactive_connections, has_key,
  new_connection, find_or_create,
}

-- No two connections have one client key.
unfoldable pub HasDistinctKeys : List Connection → Type 0
HasDistinctKeys [] = Unit
HasDistinctKeys (c ∷ cs) = All (λ d. d.client_key ≢ c.client_key) cs × HasDistinctKeys cs

abbrev IsSound : List Connection → Type 0
IsSound cs = HasDistinctKeys cs × All (λ c. Invariant.IsValid c.handler) cs

-- The keys are distinct, every handler is in a valid state, and the count of active connections is
-- their number on 64 bits.
abbrev pub IsValid : QuicProxy → Type 0
IsValid p =
    HasDistinctKeys p.connections
    × All (λ c. Invariant.IsValid c.handler) p.connections
    × (p.active_connections ≡ length p.connections % u64_mod)

keep_active-All :
    (P : Connection → Type 0) (now : ℕ) (cs : List Connection)
    → All P cs
    → All P (keep_active now cs)
unfolding keep_active
keep_active-All P now [] h = h
keep_active-All P now (c ∷ cs) h = elim (Bool-cases (is_active now c.handler)) [
  | inl e ↦ rw e (h.0, keep_active-All P now cs h.1)
  | inr e ↦ rw e (keep_active-All P now cs h.1)
]

keep_active-HasDistinctKeys :
    (now : ℕ) (cs : List Connection) → HasDistinctKeys cs → HasDistinctKeys (keep_active now cs)
unfolding keep_active HasDistinctKeys
keep_active-HasDistinctKeys now [] h = h
keep_active-HasDistinctKeys now (c ∷ cs) h = elim (Bool-cases (is_active now c.handler)) [
  | inl e ↦ rw e (
    keep_active-All (λ d. d.client_key ≢ c.client_key) now cs h.0,
    keep_active-HasDistinctKeys now cs h.1,
  )
  | inr e ↦ rw e (keep_active-HasDistinctKeys now cs h.1)
]

remove_inactive-IsValid : (now : ℕ) (p : QuicProxy) → IsValid p → IsValid (remove_inactive now p)
unfolding remove_inactive
remove_inactive-IsValid now p v =
    elim (Bool-cases (length (keep_active now p.connections) == length p.connections)) [
      | inl e ↦ rw e v
      | inr e ↦ rw e (
        keep_active-HasDistinctKeys now p.connections v.0,
        keep_active-All (λ c. Invariant.IsValid c.handler) now p.connections v.1,
        refl,
      )
    ]

pub cleanup-IsValid :
    (now : ℕ) (p : QuicProxy) → IsValid p → IsValid (cleanup_inactive_connections now p)
unfolding cleanup_inactive_connections
cleanup-IsValid now p v = elim (Option-cases p.last_cleanup) [
  | inl e ↦ rw (cleanup_inactive_connections, e) v
  | inr (last, e) ↦ elim (Bool-cases (ltb ((now - last) / 1000) 5)) [
    | inl soon ↦ rw (cleanup_inactive_connections, e, soon) v
    | inr late ↦
        rw (cleanup_inactive_connections, e, late)
          (remove_inactive-IsValid now (record p { last_cleanup = some now }) v)
  ]
]

has_key-All :
    (key : ℕ) (cs : List Connection) → has_key key cs ≡ false → All (λ c. c.client_key ≢ key) cs
unfolding has_key
has_key-All key [] h = tt
has_key-All key (c ∷ cs) h = (ground arith, has_key-All key cs (ground arith))

HasDistinctKeys-append :
    (cs : List Connection) (c : Connection)
    → HasDistinctKeys cs
    → All (λ d. d.client_key ≢ c.client_key) cs
    → HasDistinctKeys (cs ++ (c ∷ []))
unfolding HasDistinctKeys
HasDistinctKeys-append [] c h apart = (tt, tt)
HasDistinctKeys-append (d ∷ cs) c h apart = (
  All-append (λ e. e.client_key ≢ d.client_key) cs (c ∷ []) h.0 ((λ e. apart.0 (sym e)), tt),
  HasDistinctKeys-append cs c h.1 apart.1,
)

pub find_or_create-IsValid :
    (key : ℕ) (random : List ℕ) (now : ℕ) (p : QuicProxy)
    → length random ≡ 8
    → IsValid p
    → IsValid (find_or_create key random now p)
unfolding find_or_create new_connection
find_or_create-IsValid key random now p eight v = elim (Bool-cases (has_key key p.connections)) [
  | inl e ↦ rw e v
  | inr e ↦
      let c = new_connection p.acceleration_enabled key random now in
      rw e (
        HasDistinctKeys-append p.connections c v.0 (has_key-All key p.connections e),
        All-append (λ d. Invariant.IsValid d.handler) p.connections (c ∷ []) v.1
            (new-IsValid p.acceleration_enabled random now eight, tt),
        omega (arith, v.2, length-append p.connections (c ∷ [])),
      )
]
