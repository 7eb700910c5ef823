-- ===== src/Proxy/Routing.antt =====
-- Which handler a packet reaches, and which handlers a cleanup removes.
use native.Mathlib.Decide.{ℕ_discrete}
use satellite_quic_proxy.Base.{
  ℕ, ◌+◌, ◌-◌, ◌/◌, ◌≤◌, ◌≡◌, ◌≢◌, refl, sym, subst, ◌∙◌, Bool, true, false, Option, none, some,
  List, [], ◌∷◌, ◌++◌, All, length, if◌then◌else◌, Bool-cases, inl, inr, ltb, ◌==◌, arith,
}
use satellite_quic_proxy.Base.Outcome.{Outcome, done, fault, ◌>>=◌}
use satellite_quic_proxy.Fpga.PacketUnit.{PacketUnit}
use satellite_quic_proxy.Quic.Handler.{QuicHandler, process_incoming_packet, is_active}
use satellite_quic_proxy.Quic.Handler
use satellite_quic_proxy.Proxy.Connections.{HasDistinctKeys}
use satellite_quic_proxy.Proxy.{
  Connection, QuicProxy, keep_active, remove_inactive, cleanup_inactive_connections, count_received,
  has_key, new_connection, find_or_create, deliver, receive,
}

-- The handler of a client, as a table from keys.
unfoldable pub handler_of : ℕ → List Connection → Option QuicHandler
handler_of key [] = none
handler_of key (c ∷ cs) = if c.client_key == key then some c.handler else handler_of key cs

-- What a client has when its packet is processed: its handler, or a new one.
abbrev pub handler_or_new : ℕ → List ℕ → ℕ → QuicProxy → QuicHandler
handler_or_new key random now p = elim (handler_of key p.connections) [
  | none ↦ Handler.new p.acceleration_enabled random now
  | some h ↦ h
]

-- After the delivery of an outcome's handler under a key: that handler, and for each other key what
-- was there before.
IsUpdate : ℕ → List Connection → Outcome (QuicHandler × Bool) → Outcome (List Connection) → Type 0
IsUpdate key cs (done r) (done ds) =
    (handler_of key ds ≡ some r.0)
    × ((other : ℕ) → other ≢ key → handler_of other ds ≡ handler_of other cs)
IsUpdate key cs fault fault = Unit
IsUpdate key cs (done r) fault = ⊥
IsUpdate key cs fault (done ds) = ⊥

IsUpdate-here :
    (key : ℕ) (c : Connection) (cs : List Connection) (o : Outcome (QuicHandler × Bool))
    → c.client_key ≡ key
    → IsUpdate key (c ∷ cs) o (o >>= (λ r. done (record c { handler = r.0 } ∷ cs)))
unfolding IsUpdate handler_of
IsUpdate-here key c cs (done r) e = (ground arith, λ other apart. ground arith)
IsUpdate-here key c cs fault e = tt

IsUpdate-later :
    (key : ℕ) (c : Connection) (cs : List Connection) (o : Outcome (QuicHandler × Bool))
    (later : Outcome (List Connection))
    → c.client_key ≢ key
    → IsUpdate key cs o later
    → IsUpdate key (c ∷ cs) o (later >>= (λ ds. done (c ∷ ds)))
unfolding IsUpdate handler_of
IsUpdate-later key c cs (done r) (done ds) e h =
    (ground (arith, h.0), λ other apart. let same = h.1 other apart in ground arith)
IsUpdate-later key c cs (done r) fault e h = absurd h
IsUpdate-later key c cs fault (done ds) e h = absurd h
IsUpdate-later key c cs fault fault e h = tt

deliver-IsUpdate :
    (process : QuicHandler → Outcome (QuicHandler × Bool)) (key : ℕ) (cs : List Connection)
    (h : QuicHandler)
    → handler_of key cs ≡ some h
    → IsUpdate key cs (process h) (deliver process key cs)
unfolding deliver handler_of
deliver-IsUpdate process key [] h e = absurd (ground arith)
deliver-IsUpdate process key (c ∷ cs) h e = elim (ℕ_discrete c.client_key key) [
  | yes same ↦
      let found : c.handler ≡ h = ground arith in
      rw (← found) (
        subst (IsUpdate key (c ∷ cs) (process c.handler)) (ground arith)
          (IsUpdate-here key c cs (process c.handler) same))
  | no apart ↦
      let rest : handler_of key cs ≡ some h = ground arith in
      subst (IsUpdate key (c ∷ cs) (process h)) (ground arith) (
        IsUpdate-later key c cs (process h) (deliver process key cs) apart
          (deliver-IsUpdate process key cs h rest))
]

has_key-none : (key : ℕ) (cs : List Connection) → has_key key cs ≡ false → handler_of key cs ≡ none
unfolding has_key handler_of
has_key-none key [] e = refl
has_key-none key (c ∷ cs) e = ground (arith, has_key-none key cs)

has_key-some :
    (key : ℕ) (cs : List Connection)
    → has_key key cs ≡ true
    → (h : QuicHandler) × (handler_of key cs ≡ some h)
unfolding has_key handler_of
has_key-some key [] e = absurd (ground arith)
has_key-some key (c ∷ cs) e = elim (ℕ_discrete c.client_key key) [
  | yes same ↦ (c.handler, ground arith)
  | no apart ↦ let (h, found) = has_key-some key cs (ground arith) in (h, ground arith)
]

handler_of-append :
    (key : ℕ) (cs : List Connection) (c : Connection)
    → handler_of key cs ≡ none
    → c.client_key ≡ key
    → handler_of key (cs ++ (c ∷ [])) ≡ some c.handler
unfolding handler_of
handler_of-append key [] c e same = ground arith
handler_of-append key (d ∷ cs) c e same = ground (arith, handler_of-append key cs c)

handler_of-append_other :
    (other : ℕ) (cs : List Connection) (c : Connection)
    → c.client_key ≢ other
    → handler_of other (cs ++ (c ∷ [])) ≡ handler_of other cs
unfolding handler_of
handler_of-append_other other [] c apart = ground arith
handler_of-append_other other (d ∷ cs) c apart =
    ground (arith, handler_of-append_other other cs c apart)

find_or_create-handler_of :
    (key : ℕ) (random : List ℕ) (now : ℕ) (p : QuicProxy)
    → handler_of key (find_or_create key random now p).connections
      ≡ some (handler_or_new key random now p)
unfolding find_or_create new_connection
find_or_create-handler_of key random now p = elim (Bool-cases (has_key key p.connections)) [
  | inl e ↦ let (h, found) = has_key-some key p.connections e in ground arith
  | inr e ↦
      let fresh = has_key-none key p.connections e in
      rw (e, handler_or_new, fresh)
        (handler_of-append key p.connections (new_connection p.acceleration_enabled key random now)
          fresh refl)
]

find_or_create-other :
    (key : ℕ) (random : List ℕ) (now : ℕ) (p : QuicProxy) (other : ℕ)
    → other ≢ key
    → handler_of other (find_or_create key random now p).connections
      ≡ handler_of other p.connections
unfolding find_or_create new_connection
find_or_create-other key random now p other apart =
    let kept =
      handler_of-append_other other p.connections
        (new_connection p.acceleration_enabled key random now) (λ e. apart (sym e)) in
    ground arith

routed :
    (key : ℕ) (p1 p' : QuicProxy) (o : Outcome (QuicHandler × Bool))
    (later : Outcome (List Connection))
    → IsUpdate key p1.connections o later
    → (later >>= (λ cs. done (record p1 { connections = cs }))) ≡ done p'
    → (r : QuicHandler × Bool) × (o ≡ done r)
      × (handler_of key p'.connections ≡ some r.0)
      × ((other : ℕ)
          → other ≢ key
          → handler_of other p'.connections ≡ handler_of other p1.connections)
unfolding IsUpdate
routed key p1 p' (done r) (done ds) u e =
    let same : ds ≡ p'.connections = ground arith in
    (r, refl, rw (← same) u.0, λ other apart. rw (← same) (u.1 other apart))
routed key p1 p' (done r) fault u e = absurd u
routed key p1 p' fault (done ds) u e = absurd u
routed key p1 p' fault fault u e = absurd (ground arith)

-- Where the call for a packet of a client ends, the packet was processed by that client's handler,
-- or by a new one where there was none, and the result is kept as that client's handler; the
-- handlers of all other clients stay as they are.
pub receive-routes :
    (unit : PacketUnit) (now key : ℕ) (random body : List ℕ) (p p' : QuicProxy)
    → receive unit now key random body p ≡ done p'
    → (r : QuicHandler × Bool) × (process_incoming_packet unit now body
          (handler_or_new key random now p)
        ≡ done r)
      × (handler_of key p'.connections ≡ some r.0)
      × ((other : ℕ)
          → other ≢ key
          → handler_of other p'.connections ≡ handler_of other p.connections)
unfolding receive count_received
receive-routes unit now key random body p p' e =
    let p0 = count_received body p in
    let p1 = find_or_create key random now p0 in
    let h = handler_or_new key random now p0 in
    let (r, ends, kept, others) =
      routed key p1 p' (process_incoming_packet unit now body h)
        (deliver (process_incoming_packet unit now body) key p1.connections)
        (deliver-IsUpdate (process_incoming_packet unit now body) key p1.connections h
          (find_or_create-handler_of key random now p0))
        e in
    (
      r,
      ends,
      kept,
      λ other apart. others other apart ∙ find_or_create-other key random now p0 other apart,
    )

keep_active-none :
    (now key : ℕ) (cs : List Connection)
    → All (λ c. c.client_key ≢ key) cs
    → handler_of key (keep_active now cs) ≡ none
unfolding keep_active handler_of
keep_active-none now key [] h = refl
keep_active-none now key (c ∷ cs) h = ground (arith, keep_active-none now key cs h.1, h.0)

handler_of-keep_active :
    (now key : ℕ) (cs : List Connection)
    → HasDistinctKeys cs
    → handler_of key (keep_active now cs)
      ≡ elim (handler_of key cs) [ none ↦ none | some h ↦ if is_active now h then some h else none ]
unfolding keep_active handler_of HasDistinctKeys
handler_of-keep_active now key [] d = refl
handler_of-keep_active now key (c ∷ cs) d = elim (ℕ_discrete c.client_key key) [
  | yes same ↦
      let gone : handler_of key (keep_active now cs) ≡ none =
        keep_active-none now key cs (rw (← same) d.0) in
      elim (Bool-cases (is_active now c.handler)) [ inl e ↦ ground arith | inr e ↦ ground arith ]
  | no apart ↦
      let rest = handler_of-keep_active now key cs d.1 in
      elim (Bool-cases (is_active now c.handler)) [ inl e ↦ ground arith | inr e ↦ ground arith ]
]

keep_active-shorter : (now : ℕ) (cs : List Connection) → length (keep_active now cs) ≤ length cs
unfolding keep_active
keep_active-shorter now [] = omega arith
keep_active-shorter now (c ∷ cs) = ground (arith, keep_active-shorter now cs)

keep_active-all :
    (now : ℕ) (cs : List Connection)
    → length (keep_active now cs) ≡ length cs
    → keep_active now cs ≡ cs
unfolding keep_active
keep_active-all now [] e = refl
keep_active-all now (c ∷ cs) e =
    let shorter = keep_active-shorter now cs in
    elim (Bool-cases (is_active now c.handler)) [
      | inl active ↦ let rest = keep_active-all now cs (ground arith) in ground arith
      | inr idle ↦ absurd (ground arith)
    ]

remove_inactive-keep_active :
    (now : ℕ) (p : QuicProxy) → (remove_inactive now p).connections ≡ keep_active now p.connections
unfolding remove_inactive
remove_inactive-keep_active now p = let all = keep_active-all now p.connections in ground arith

-- Five seconds after the last one or later, and where no client has two connections, a cleanup leaves
-- each client its handler if that is active, and nothing otherwise.
pub cleanup-keeps_active :
    (now last key : ℕ) (p : QuicProxy)
    → HasDistinctKeys p.connections
    → p.last_cleanup ≡ some last
    → last + 5000 ≤ now
    → handler_of key (cleanup_inactive_connections now p).connections
      ≡ elim (handler_of key p.connections) [
        | none ↦ none
        | some h ↦ if is_active now h then some h else none
      ]
unfolding cleanup_inactive_connections
cleanup-keeps_active now last key p distinct e late =
    let due : ltb ((now - last) / 1000) 5 ≡ false = ground arith in
    rw (cleanup_inactive_connections, e, due)
      (rw (remove_inactive-keep_active now (record p { last_cleanup = some now }))
        (handler_of-keep_active now key p.connections distinct))
