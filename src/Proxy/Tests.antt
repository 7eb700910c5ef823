-- ===== src/Proxy/Tests.antt =====
-- Examples of a proxy that runs with one connection.
use satellite_quic_proxy.Base.{
  ℕ, ◌≡◌, ◌≢◌, refl, Bool, true, false, none, some, List, [], ◌∷◌, arith,
}
use satellite_quic_proxy.Base.Outcome.{done}
use satellite_quic_proxy.Fpga.Operation.{empty_result}
use satellite_quic_proxy.Fpga.PacketUnit.{PacketUnit, packet_unit, is_empty}
use satellite_quic_proxy.Quic.Handler.{QuicHandler, process_incoming_packet, is_active}
use satellite_quic_proxy.Quic.Handler
use satellite_quic_proxy.Quic.Handler.Invariant.{IsNumbered, total_length}
use satellite_quic_proxy.Proxy.{
  QuicProxy, SocketAnswers, Arrival, select_failed, nothing, received, new, new_connection, receive,
  find_or_create, has_key, count_received, deliver, round, accept_loop, update_connection_stats,
  sum_sent, cleanup_inactive_connections, remove_inactive, keep_active,
}
use satellite_quic_proxy.Proxy.Connections.{IsValid, HasDistinctKeys}
use satellite_quic_proxy.Proxy.Rounds.{accept_loop-IsValid}
use satellite_quic_proxy.Proxy.Routing.{
  handler_of, handler_or_new, receive-routes, cleanup-keeps_active,
}

abbrev unit : PacketUnit
unit = packet_unit false true (λ type input connection number. empty_result)

abbrev random : List ℕ
random = 1 ∷ 2 ∷ 3 ∷ 4 ∷ 5 ∷ 6 ∷ 7 ∷ 8 ∷ []

-- Running since time 0, with one connection that was last active at time 100.
abbrev running : QuicProxy
running = record new {
  running = true;
  server_socket = some 3;
  total_connections = 1;
  active_connections = 1;
  last_cleanup = some 0;
  connections = new_connection true 77 random 100 ∷ [];
}

running-IsValid : IsValid running
unfolding new new_connection HasDistinctKeys Handler.new Handler.connection_id_of IsNumbered
    total_length
running-IsValid = ((tt, tt), ((refl, refl, refl, refl), tt), refl)

-- An empty datagram of a second client, and then a failed select.
abbrev rounds : List (ℕ × Arrival)
rounds = (200, received 78 random []) ∷ (40000, nothing) ∷ (40100, select_failed) ∷ []

abbrev at_end : QuicProxy
at_end = record running {
  total_packets_received = 1;
  total_connections = 2;
  active_connections = 0;
  last_cleanup = some 40000;
  connections = [];
}

accept_rounds : accept_loop unit rounds running ≡ done at_end
unfolding accept_loop round receive find_or_create has_key count_received deliver
    update_connection_stats sum_sent cleanup_inactive_connections remove_inactive keep_active new
    new_connection Handler.new Handler.connection_id_of process_incoming_packet is_active is_empty
accept_rounds = refl

accept_loop-IsValid_example : IsValid at_end
accept_loop-IsValid_example =
    accept_loop-IsValid unit rounds running at_end (refl, (tt, (tt, tt))) running-IsValid
      accept_rounds

abbrev with_two : QuicProxy
with_two = record running {
  total_packets_received = 1;
  total_connections = 2;
  active_connections = 2;
  connections = new_connection true 77 random 100 ∷ new_connection true 78 random 200 ∷ [];
}

receive_empty : receive unit 200 78 random [] running ≡ done with_two
unfolding receive find_or_create has_key count_received deliver new new_connection Handler.new
    Handler.connection_id_of process_incoming_packet is_empty
receive_empty = refl

receive-routes_example :
    (r : QuicHandler × Bool) × (process_incoming_packet unit 200 []
        (handler_or_new 78 random 200 running)
      ≡ done r)
    × (handler_of 78 with_two.connections ≡ some r.0)
    × ((other : ℕ)
        → other ≢ 78
        → handler_of other with_two.connections ≡ handler_of other running.connections)
receive-routes_example = receive-routes unit 200 78 random [] running with_two receive_empty

cleanup-keeps_active_example :
    handler_of 77 (cleanup_inactive_connections 40000 with_two).connections ≡ none
unfolding handler_of HasDistinctKeys new_connection is_active new Handler.new
cleanup-keeps_active_example =
    cleanup-keeps_active 40000 0 77 with_two (ground arith) refl (omega arith)

-- The port is taken.
abbrev refused : SocketAnswers
refused = record {
  socket = some 5;
  reuse_address_ok = true;
  address_ok = true;
  bind_ok = false;
  get_flags_ok = true;
  set_flags_ok = true;
}
