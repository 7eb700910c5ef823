-- ===== src/Proxy/Lifecycle.antt =====
-- Starting and stopping the proxy, and what becomes of its sockets and counts.
use satellite_quic_proxy.Base.{
  ℕ, ◌≡◌, ◌↔◌, ◌≢◌, refl, Bool, true, false, none, some, List, [], ◌∷◌, ◌++◌, append-nil,
  Option-cases, inl, inr, arith,
}
use satellite_quic_proxy.Proxy.{
  QuicProxy, SocketAnswers, abandon, setup_with_socket, setup_server_socket, start, stop,
  close_server_socket, set_acceleration_enabled, new,
}

-- Every call that setupServerSocket makes is answered well.
abbrev pub AllGranted : SocketAnswers → Type 0
AllGranted a =
    (a.socket ≢ none)
    × (a.reuse_address_ok ≡ true)
    × (a.address_ok ≡ true)
    × (a.bind_ok ≡ true)
    × (a.get_flags_ok ≡ true)
    × (a.set_flags_ok ≡ true)

-- A proxy starts exactly when it is not running yet and every system call for its socket is answered well.
pub start_iff :
    (a : SocketAnswers) (p : QuicProxy)
    → ((start a p).1 ≡ true) ↔ ((p.running ≡ false) × AllGranted a)
unfolding start setup_server_socket setup_with_socket abandon
start_iff a p = elim (Option-cases a.socket) [
  | inl e ↦ (λ h. absurd (ground arith), λ h. absurd (h.1.0 e))
  | inr (s, e) ↦ (λ h. ground arith, λ h. ground arith)
]

-- A failed start of a proxy that does not run leaves no socket behind: the one that was opened, if any,
-- is closed again, just once, and nothing else is closed.
pub start_failed :
    (a : SocketAnswers) (p : QuicProxy)
    → p.running ≡ false
    → (start a p).1 ≡ false
    → ((start a p).0.server_socket ≡ none)
      × ((start a p).0.closed_sockets
          ≡ p.closed_sockets ++ elim a.socket [ none ↦ [] | some s ↦ s ∷ [] ])
unfolding start setup_server_socket setup_with_socket abandon
start_failed a p idle failed = elim (Option-cases a.socket) [
  | inl e ↦ ground (arith, append-nil p.closed_sockets)
  | inr (s, e) ↦ ground arith
]

-- Stopping a running proxy closes its socket and drops all connections, but keeps their count: the
-- number of active connections is still that from before.
pub stop-stale :
    (p : QuicProxy) (socket : ℕ)
    → p.running ≡ true
    → p.server_socket ≡ some socket
    → ((stop p).running ≡ false)
      × ((stop p).server_socket ≡ none)
      × ((stop p).closed_sockets ≡ p.closed_sockets ++ (socket ∷ []))
      × ((stop p).connections ≡ [])
      × ((stop p).active_connections ≡ p.active_connections)
unfolding stop close_server_socket
stop-stale p socket on open_ =
    rw (stop, on, close_server_socket, open_) (refl, refl, refl, refl, refl)

pub stop_idle : (p : QuicProxy) → p.running ≡ false → p ≡ stop p
unfolding stop
stop_idle p off = cc

pub start_running :
    (a : SocketAnswers) (p : QuicProxy) → (start a p).1 ≡ true → (start a p).0.running ≡ true
unfolding start
start_running a p ok = ground arith

-- The socket that a start opens, if any.
abbrev pub opened_sockets : SocketAnswers → List ℕ
opened_sockets a = elim a.socket [ none ↦ [] | some s ↦ s ∷ [] ]

pub start_opens :
    (a : SocketAnswers) (p : QuicProxy)
    → (start a p).1 ≡ true
    → (s : ℕ) × (opened_sockets a ≡ s ∷ [])
      × ((start a p).0.server_socket ≡ some s)
      × ((start a p).0.closed_sockets ≡ p.closed_sockets)
unfolding start setup_server_socket setup_with_socket abandon
start_opens a p ok = elim (Option-cases a.socket) [
  | inl e ↦ absurd (ground arith)
  | inr (s, e) ↦ (s, rw e refl, ground arith, ground arith)
]

pub new_idle :
    (enabled : Bool)
    → ((set_acceleration_enabled enabled new).running ≡ false)
      × ((set_acceleration_enabled enabled new).closed_sockets ≡ [])
unfolding set_acceleration_enabled new
new_idle enabled = (refl, refl)

pub start_idle :
    (a : SocketAnswers) (p : QuicProxy)
    → p.running ≡ false
    → (start a p).1 ≡ false
    → (start a p).0.running ≡ false
unfolding start setup_server_socket setup_with_socket abandon
start_idle a p off bad = ground arith
