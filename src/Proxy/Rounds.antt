-- ===== src/Proxy/Rounds.antt =====
-- What the rounds of the accept loop keep true.
use satellite_quic_proxy.Base.{
  ℕ, suc, ◌≡◌, ◌≢◌, refl, sym, subst, ap, ◌∙◌, Bool, true, false, List, [], ◌∷◌, All, length,
  if◌then◌else◌, Bool-cases, inl, inr, ◌==◌,
}
use satellite_quic_proxy.Base.Outcome.{Outcome, done, fault, ◌>>=◌}
use satellite_quic_proxy.Fpga.PacketUnit.{PacketUnit}
use satellite_quic_proxy.Quic.Handler.{QuicHandler, process_incoming_packet}
use satellite_quic_proxy.Quic.Handler.Invariant.{new-IsValid}
use satellite_quic_proxy.Quic.Handler.Invariant
use satellite_quic_proxy.Quic.Handler.Safety.{process_incoming_packet-IsValid}
use satellite_quic_proxy.Proxy.Connections.{
  HasDistinctKeys, IsValid, cleanup-IsValid, find_or_create-IsValid,
}
use satellite_quic_proxy.Proxy.{
  Connection, QuicProxy, cleanup_inactive_connections, update_connection_stats, count_received,
  find_or_create, deliver, Arrival, select_failed, nothing, receive_failed, received, receive,
  round, accept_loop,
}

-- A new handler gets as many bytes as it asks for.
abbrev pub HasRandom : Arrival → Type 0
HasRandom select_failed = Unit
HasRandom nothing = Unit
HasRandom receive_failed = Unit
HasRandom (received key random body) = length random ≡ 8

-- Delivery changes handlers only: the connections keep their keys, each under its place.
SameKeys : List Connection → List Connection → Type 0
SameKeys [] [] = Unit
SameKeys [] (d ∷ ds) = ⊥
SameKeys (c ∷ cs) [] = ⊥
SameKeys (c ∷ cs) (d ∷ ds) = (d.client_key ≡ c.client_key) × SameKeys cs ds

SameKeys-refl : (cs : List Connection) → SameKeys cs cs
unfolding SameKeys
SameKeys-refl [] = tt
SameKeys-refl (c ∷ cs) = (refl, SameKeys-refl cs)

SameKeys-All :
    (key : ℕ) (cs ds : List Connection)
    → SameKeys cs ds
    → All (λ c. c.client_key ≢ key) cs
    → All (λ c. c.client_key ≢ key) ds
unfolding SameKeys
SameKeys-All key [] [] same h = tt
SameKeys-All key [] (d ∷ ds) same h = absurd same
SameKeys-All key (c ∷ cs) [] same h = tt
SameKeys-All key (c ∷ cs) (d ∷ ds) same h =
    (λ e. h.0 (sym same.0 ∙ e), SameKeys-All key cs ds same.1 h.1)

SameKeys-HasDistinctKeys :
    (cs ds : List Connection) → SameKeys cs ds → HasDistinctKeys cs → HasDistinctKeys ds
unfolding SameKeys HasDistinctKeys
SameKeys-HasDistinctKeys [] [] same h = h
SameKeys-HasDistinctKeys [] (d ∷ ds) same h = absurd same
SameKeys-HasDistinctKeys (c ∷ cs) [] same h = absurd same
SameKeys-HasDistinctKeys (c ∷ cs) (d ∷ ds) same h = (
  rw same.0 (SameKeys-All c.client_key cs ds same.1 h.0),
  SameKeys-HasDistinctKeys cs ds same.1 h.1,
)

SameKeys-length : (cs ds : List Connection) → SameKeys cs ds → length ds ≡ length cs
unfolding SameKeys
SameKeys-length [] [] same = refl
SameKeys-length [] (d ∷ ds) same = absurd same
SameKeys-length (c ∷ cs) [] same = absurd same
SameKeys-length (c ∷ cs) (d ∷ ds) same = ap suc (SameKeys-length cs ds same.1)

-- The outcome of a delivery, where it ends: the same keys, and each handler in a valid state.
Delivered : List Connection → Outcome (List Connection) → Type 0
Delivered cs (done ds) = SameKeys cs ds × All (λ c. Invariant.IsValid c.handler) ds
Delivered cs fault = Unit

deliver_here :
    (c : Connection) (cs : List Connection) (o : Outcome (QuicHandler × Bool))
    → ((r : QuicHandler × Bool) → o ≡ done r → Invariant.IsValid r.0)
    → All (λ d. Invariant.IsValid d.handler) cs
    → Delivered (c ∷ cs) (o >>= (λ r. done (record c { handler = r.0 } ∷ cs)))
unfolding Delivered SameKeys
deliver_here c cs (done r) ends v = ((refl, SameKeys-refl cs), (ends r refl, v))
deliver_here c cs fault ends v = tt

deliver_later :
    (c : Connection) (cs : List Connection) (o : Outcome (List Connection))
    → Invariant.IsValid c.handler
    → Delivered cs o
    → Delivered (c ∷ cs) (o >>= (λ ds. done (c ∷ ds)))
unfolding Delivered SameKeys
deliver_later c cs (done ds) v h = ((refl, h.0), (v, h.1))
deliver_later c cs fault v h = tt

deliver-Delivered :
    (process : QuicHandler → Outcome (QuicHandler × Bool)) (key : ℕ) (cs : List Connection)
    → ((h : QuicHandler) (r : QuicHandler × Bool)
        → Invariant.IsValid h
        → process h ≡ done r
        → Invariant.IsValid r.0)
    → All (λ c. Invariant.IsValid c.handler) cs
    → Delivered cs (deliver process key cs)
unfolding deliver
deliver-Delivered process key [] keeps v = unfold Delivered in unfold SameKeys in (tt, tt)
deliver-Delivered process key (c ∷ cs) keeps v =
    let later =
      deliver_later c cs (deliver process key cs) v.0
        (deliver-Delivered process key cs keeps v.1) in
    let here = deliver_here c cs (process c.handler) (λ r. keeps c.handler r v.0) v.1 in
    elim (Bool-cases (c.client_key == key)) [ inl e ↦ rw e here | inr e ↦ rw e later ]

-- What is said of a proxy where a call ends.
Ends : Outcome QuicProxy → Type 0
Ends (done p) = IsValid p
Ends fault = Unit

deliver-Ends :
    (p : QuicProxy) (o : Outcome (List Connection))
    → IsValid p
    → Delivered p.connections o
    → Ends (o >>= (λ cs. done (record p { connections = cs })))
unfolding Ends Delivered
deliver-Ends p (done cs) v h = (
  SameKeys-HasDistinctKeys p.connections cs h.0 v.0,
  h.1,
  rw (SameKeys-length p.connections cs h.0) v.2,
)
deliver-Ends p fault v h = tt

receive-Ends :
    (unit : PacketUnit) (now key : ℕ) (random body : List ℕ) (p : QuicProxy)
    → length random ≡ 8
    → IsValid p
    → Ends (receive unit now key random body p)
unfolding receive count_received
receive-Ends unit now key random body p eight v =
    let p1 = find_or_create key random now (count_received body p) in
    let v1 = find_or_create-IsValid key random now (count_received body p) eight v in
    deliver-Ends p1 (deliver (process_incoming_packet unit now body) key p1.connections) v1 (
      deliver-Delivered (process_incoming_packet unit now body) key p1.connections
        (λ h r. process_incoming_packet-IsValid unit now body h r.0 r.1) v1.1)

RoundEnds : Outcome (QuicProxy × Bool) → Type 0
RoundEnds (done r) = IsValid r.0
RoundEnds fault = Unit

RoundEnds-bind :
    (o : Outcome QuicProxy) (go_on : Bool) → Ends o → RoundEnds (o >>= (λ p. done (p, go_on)))
unfolding Ends RoundEnds
RoundEnds-bind (done p) go_on v = v
RoundEnds-bind fault go_on v = tt

Ends-bind :
    (o : Outcome (QuicProxy × Bool)) (f : QuicProxy × Bool → Outcome QuicProxy)
    → RoundEnds o
    → ((r : QuicProxy × Bool) → IsValid r.0 → Ends (f r))
    → Ends (o >>= f)
unfolding RoundEnds
Ends-bind (done r) f v next = next r v
Ends-bind fault f v next = unfold Ends in tt

round-RoundEnds :
    (unit : PacketUnit) (now : ℕ) (arrival : Arrival) (p : QuicProxy)
    → HasRandom arrival
    → IsValid p
    → RoundEnds (round unit now arrival p)
unfolding round update_connection_stats RoundEnds
round-RoundEnds unit now select_failed p random v = cleanup-IsValid now p v
round-RoundEnds unit now nothing p random v = cleanup-IsValid now p v
round-RoundEnds unit now receive_failed p random v = cleanup-IsValid now p v
round-RoundEnds unit now (received key random body) p eight v =
    let p1 = update_connection_stats (cleanup_inactive_connections now p) in
    RoundEnds-bind (receive unit now key random body p1) true
      (receive-Ends unit now key random body p1 eight (cleanup-IsValid now p v))

Ends-if : (b : Bool) (x y : Outcome QuicProxy) → Ends x → Ends y → Ends (if b then x else y)
Ends-if true x y h k = h
Ends-if false x y h k = k

accept_loop-Ends :
    (unit : PacketUnit) (rounds : List (ℕ × Arrival)) (p : QuicProxy)
    → All (λ r. HasRandom r.1) rounds
    → IsValid p
    → Ends (accept_loop unit rounds p)
unfolding accept_loop Ends
accept_loop-Ends unit [] p random v = v
accept_loop-Ends unit ((now, arrival) ∷ rounds) p random v =
    Ends-if p.running _ _
      (Ends-bind (round unit now arrival p) _ (round-RoundEnds unit now arrival p random.0 v)
        (λ r w. Ends-if r.1 _ _ (accept_loop-Ends unit rounds r.0 random.1 w) w))
      v

-- From a proxy in a valid state, whatever comes in and however the system calls answer, as long as
-- new handlers get 8 random bytes: where the accept loop ends, no client has two connections, every
-- handler is in a valid state, and the count of active connections is the number of connections.
pub accept_loop-IsValid :
    (unit : PacketUnit) (rounds : List (ℕ × Arrival)) (p p' : QuicProxy)
    → All (λ r. HasRandom r.1) rounds
    → IsValid p
    → accept_loop unit rounds p ≡ done p'
    → IsValid p'
unfolding Ends
accept_loop-IsValid unit rounds p p' random v e =
    subst Ends e (accept_loop-Ends unit rounds p random v)
