-- ===== src/Proxy.antt =====
-- SatelliteQUICProxy/proxy/src/quic_proxy.{h,cpp}: the proxy over its connections.
-- The answers of the system calls and the clock are arguments. A round is one turn of acceptLoop under
-- the lock; the text that getClientKey and inet_ntop give for a client is a number here, one for each
-- text. Log lines are left out.
mod Tests
pub mod Connections
pub mod Rounds
pub mod Routing
pub mod Lifecycle
use satellite_quic_proxy.Base.{
  ℕ, zero, suc, ◌+◌, ◌-◌, ◌/◌, ◌%◌, Bool, true, false, ◌&&◌, not, Option, none, some, List, [], ◌∷◌,
  ◌++◌, length, map, ltb, ◌==◌, if◌then◌else◌, u64_mod,
}
use satellite_quic_proxy.Base.Outcome.{Outcome, done, fault, ◌>>=◌}
use satellite_quic_proxy.Fpga.PacketUnit.{PacketUnit}
use satellite_quic_proxy.Quic.Handler.{QuicHandler, process_incoming_packet, is_active}
use satellite_quic_proxy.Quic.Handler

pub record Connection : Type 0 where
  pub client_key : ℕ
  pub handler : QuicHandler

-- QUICProxy, with `lastCleanupTime`, which is set by the first cleanup, and the sockets closed so far.
pub record QuicProxy : Type 0 where
  pub acceleration_enabled : Bool
  pub running : Bool
  pub server_socket : Option ℕ
  pub closed_sockets : List ℕ
  pub total_bytes_received : ℕ
  pub total_bytes_sent : ℕ
  pub total_packets_received : ℕ
  pub total_packets_sent : ℕ
  pub total_connections : ℕ
  pub active_connections : ℕ
  pub last_cleanup : Option ℕ
  pub connections : List Connection

pub new : QuicProxy
new = record {
  acceleration_enabled = true;
  running = false;
  server_socket = none;
  closed_sockets = [];
  total_bytes_received = 0;
  total_bytes_sent = 0;
  total_packets_received = 0;
  total_packets_sent = 0;
  total_connections = 0;
  active_connections = 0;
  last_cleanup = none;
  connections = [];
}

-- What socket, setsockopt, inet_pton, bind and the two calls of fcntl answer.
pub record SocketAnswers : Type 0 where
  pub socket : Option ℕ
  pub reuse_address_ok : Bool
  pub address_ok : Bool
  pub bind_ok : Bool
  pub get_flags_ok : Bool
  pub set_flags_ok : Bool

-- `close(m_serverSocket); m_serverSocket = -1; return false`
pub abandon : ℕ → QuicProxy → QuicProxy × Bool
abandon socket p =
    (record p { server_socket = none; closed_sockets = p.closed_sockets ++ (socket ∷ []) }, false)

pub setup_with_socket : SocketAnswers → ℕ → QuicProxy → QuicProxy × Bool
setup_with_socket a socket p =
    if not a.reuse_address_ok
    then abandon socket p
    else if not a.address_ok
    then abandon socket p
    else if not a.bind_ok
    then abandon socket p
    else if not a.get_flags_ok
    then abandon socket p
    else if not a.set_flags_ok
    then abandon socket p
    else (p, true)

pub setup_server_socket : SocketAnswers → QuicProxy → QuicProxy × Bool
setup_server_socket a p = elim a.socket [
  | none ↦ (record p { server_socket = none }, false)
  | some s ↦ setup_with_socket a s (record p { server_socket = some s })
]

pub start : SocketAnswers → QuicProxy → QuicProxy × Bool
start a p =
    let (p', ok) = setup_server_socket a p in
    if p.running
    then (p, false)
    else if ok
    then (record p' { running = true }, true)
    else (p', false)

close_server_socket : QuicProxy → QuicProxy
close_server_socket p = elim p.server_socket [
  | none ↦ p
  | some s ↦ record p { server_socket = none; closed_sockets = p.closed_sockets ++ (s ∷ []) }
]

pub stop : QuicProxy → QuicProxy
unfolding close_server_socket
stop p =
    if p.running
    then record (close_server_socket (record p { running = false })) { connections = [] }
    else p

pub set_handler_acceleration : Bool → Connection → Connection
set_handler_acceleration enabled c = record c {
  handler = Handler.set_acceleration_enabled enabled c.handler;
}

pub set_acceleration_enabled : Bool → QuicProxy → QuicProxy
set_acceleration_enabled enabled p = record p {
  acceleration_enabled = enabled;
  connections = map (set_handler_acceleration enabled) p.connections;
}

-- `remove_if` with `erase`.
pub keep_active : ℕ → List Connection → List Connection
keep_active now [] = []
keep_active now (c ∷ cs) =
    if is_active now c.handler then c ∷ keep_active now cs else keep_active now cs

pub remove_inactive : ℕ → QuicProxy → QuicProxy
remove_inactive now p =
    let kept = keep_active now p.connections in
    if length kept == length p.connections
    then p
    else record p { connections = kept; active_connections = length kept % u64_mod }

pub cleanup_inactive_connections : ℕ → QuicProxy → QuicProxy
cleanup_inactive_connections now p = elim p.last_cleanup [
  | none ↦ record p { last_cleanup = some now }
  | some last ↦
      if ltb ((now - last) / 1000) 5
      then p
      else remove_inactive now (record p { last_cleanup = some now })
]

pub sum_sent : (QuicHandler → ℕ) → List Connection → ℕ
sum_sent sent [] = 0
sum_sent sent (c ∷ cs) = (sent c.handler + sum_sent sent cs) % u64_mod

pub update_connection_stats : QuicProxy → QuicProxy
update_connection_stats p = record p {
  total_bytes_sent = sum_sent (λ h. h.bytes_sent) p.connections;
  total_packets_sent = sum_sent (λ h. h.packets_sent) p.connections;
}

pub count_received : List ℕ → QuicProxy → QuicProxy
count_received body p = record p {
  total_bytes_received = (p.total_bytes_received + length body) % u64_mod;
  total_packets_received = (p.total_packets_received + 1) % u64_mod;
}

pub has_key : ℕ → List Connection → Bool
has_key key [] = false
has_key key (c ∷ cs) = if c.client_key == key then true else has_key key cs

pub new_connection : Bool → ℕ → List ℕ → ℕ → Connection
new_connection acceleration key random now = record {
  client_key = key;
  handler = Handler.new acceleration random now;
}

-- `random` is what RAND_bytes gives to a new handler.
pub find_or_create : ℕ → List ℕ → ℕ → QuicProxy → QuicProxy
find_or_create key random now p = if has_key key p.connections then p else record p {
  connections = p.connections ++ (new_connection p.acceleration_enabled key random now ∷ []);
  total_connections = (p.total_connections + 1) % u64_mod;
  active_connections = (p.active_connections + 1) % u64_mod;
}

-- The first connection of the key gets the packet.
pub deliver :
    (QuicHandler → Outcome (QuicHandler × Bool)) → ℕ → List Connection → Outcome (List Connection)
deliver process key [] = done []
deliver process key (c ∷ cs) =
    let rest = deliver process key cs in
    if c.client_key == key
    then (do (h, ok) ← process c.handler; done (record c { handler = h } ∷ cs))
    else (do cs' ← rest; done (c ∷ cs'))

-- What select and recvfrom answer in a round.
pub data Arrival : Type 0 where
  select_failed nothing receive_failed : Arrival
  received : (key : ℕ) → (random body : List ℕ) → Arrival

pub receive : PacketUnit → ℕ → ℕ → List ℕ → List ℕ → QuicProxy → Outcome QuicProxy
receive unit now key random body p = do
  let p1 = find_or_create key random now (count_received body p)
  cs ← deliver (process_incoming_packet unit now body) key p1.connections
  done (record p1 { connections = cs })

-- One turn of the loop, and whether the loop goes on.
pub round : PacketUnit → ℕ → Arrival → QuicProxy → Outcome (QuicProxy × Bool)
round unit now arrival p =
    let p1 = update_connection_stats (cleanup_inactive_connections now p) in
    elim arrival [
      | select_failed ↦ done (p1, false)
      | nothing ↦ done (p1, true)
      | receive_failed ↦ done (p1, true)
      | received key random body ↦ do p2 ← receive unit now key random body p1; done (p2, true)
    ]

-- acceptLoop over the rounds that come: it ends when the proxy does not run or a select fails.
pub accept_loop : PacketUnit → List (ℕ × Arrival) → QuicProxy → Outcome QuicProxy
accept_loop unit [] p = done p
accept_loop unit ((now, arrival) ∷ rounds) p =
    if p.running
    then (do
      (p', go_on) ← round unit now arrival p
      if go_on then accept_loop unit rounds p' else done p')
    else done p
