-- ===== src/Quic/Handler/Tests.antt =====
-- Examples of a handler that has sent two packets, with and without the simulated accelerator.
use satellite_quic_proxy.Base.{
  ℕ, ◌≡◌, ◌≢◌, refl, inr, Bool, true, false, some, List, [], ◌∷◌, ◌++◌, All, replicate, arith,
}
use satellite_quic_proxy.Base.Outcome.{done, fault}
use satellite_quic_proxy.Fpga.Operation.{empty_result}
use satellite_quic_proxy.Fpga.PacketUnit.{
  PacketUnit, packet_unit, execute_packet_operation, simulate_packet_operation, is_ack, is_empty,
  ack_frame,
}
use satellite_quic_proxy.Quic.Packet.{QuicPacketHeader, handshake}
use satellite_quic_proxy.Quic.Parse.{parse_packet, parse_short, read_u32, read_bytes, type_of}
use satellite_quic_proxy.Quic.Parse.Printing.{print_long}
use satellite_quic_proxy.Quic.Handler.{
  QuicHandler, PacketInfo, due, is_due, acknowledge, largest, send_ack_packet, process_frames,
  process_frames_from, check_for_retransmissions, retransmit_all, process_incoming_packet,
  process_parsed, count_received, keep_dest, handle, handle_one_rtt_packet, receive_number,
  transmit, ack_payload,
}
use satellite_quic_proxy.Quic.Handler.Retransmission.{HasDistinctNumbers, check-sends_due}
use satellite_quic_proxy.Quic.Handler.Acknowledgement.{send_ack_packet-read_back, due-acknowledge}
use satellite_quic_proxy.Quic.Handler.Invariant.{IsValid, IsNumbered, total_length}
use satellite_quic_proxy.Quic.Handler.Safety.{
  dest_in_use, process_incoming_packet-IsValid, process_incoming_packet-done,
}
use satellite_quic_proxy.Quic.Handler.Overflow.{process_incoming_packet-fault}

-- The accelerator in simulation.
abbrev unit : PacketUnit
unit = packet_unit true true (λ type input connection number. empty_result)

abbrev identifier : List ℕ
identifier = 1 ∷ 2 ∷ 3 ∷ 4 ∷ 5 ∷ 6 ∷ 7 ∷ 8 ∷ []

-- A packet of a number that was sent at a time.
abbrev sent : ℕ → ℕ → PacketInfo
sent number time = record {
  packet_number = number;
  sent_time = time;
  acknowledged = false;
  packet_data = 0x40 ∷ number ∷ [];
}

abbrev handler : QuicHandler
handler = record {
  acceleration_enabled = true;
  connected = true;
  last_activity = 900;
  bytes_sent = 4;
  bytes_received = 0;
  packets_sent = 2;
  packets_received = 0;
  connection_id = 7;
  next_packet_number = 2;
  dest_conn_id = identifier;
  src_conn_id = identifier;
  sent_packets = sent 0 100 ∷ sent 1 900 ∷ [];
  received_packets = [];
  datagrams = (0x40 ∷ 0 ∷ []) ∷ (0x40 ∷ 1 ∷ []) ∷ [];
}

handler-HasDistinctNumbers : HasDistinctNumbers handler.sent_packets
unfolding HasDistinctNumbers
handler-HasDistinctNumbers = ground arith

handler-IsValid : IsValid handler
unfolding IsNumbered total_length
handler-IsValid = ((refl, (refl, refl)), refl, refl, refl)

check-sends_due_example :
    (check_for_retransmissions unit 1000 handler).datagrams
    ≡ handler.datagrams ++ ((0x40 ∷ 0 ∷ []) ∷ [])
unfolding due is_due
check-sends_due_example = check-sends_due unit 1000 handler

due-acknowledge_example :
    All (λ p. p.packet_number ≢ 0) (due 1000 (acknowledge 0 handler.sent_packets))
due-acknowledge_example = due-acknowledge 1000 0 handler.sent_packets handler-HasDistinctNumbers

abbrev plain_handler : QuicHandler
plain_handler = record handler { acceleration_enabled = false }

send_ack_packet-read_back_example :
    (h' : QuicHandler) × (d : List ℕ) × (header : QuicPacketHeader) × (payload : List ℕ)
    × (send_ack_packet unit 1000 (3 ∷ 1 ∷ []) plain_handler ≡ done (h', true))
    × (h'.datagrams ≡ handler.datagrams ++ (d ∷ []))
    × (parse_packet d ≡ some (header, payload))
    × (process_frames unit 1050 payload handler
        ≡ done (
          record handler { sent_packets = acknowledge (largest (3 ∷ 1 ∷ [])) handler.sent_packets },
          true,
        ))
send_ack_packet-read_back_example =
    send_ack_packet-read_back unit unit 1000 1050 3 (1 ∷ []) plain_handler handler refl refl
      (omega arith) (omega arith)

-- A 1-RTT packet of number 9 that carries a PING.
abbrev ping : List ℕ
ping = 0x40 ∷ 1 ∷ 2 ∷ 3 ∷ 4 ∷ 5 ∷ 6 ∷ 7 ∷ 8 ∷ 0 ∷ 0 ∷ 0 ∷ 9 ∷ 1 ∷ []

abbrev pinged : QuicHandler
pinged = record handler {
  last_activity = 550;
  bytes_sent = 13;
  bytes_received = 14;
  packets_sent = 3;
  packets_received = 1;
  sent_packets = handler.sent_packets;
  received_packets = 9 ∷ [];
  datagrams = handler.datagrams ++ (ack_frame 9 ∷ []);
}

process_ping : process_incoming_packet unit 550 ping handler ≡ done (pinged, true)
unfolding process_incoming_packet process_parsed count_received keep_dest handle
    handle_one_rtt_packet receive_number process_frames process_frames_from send_ack_packet largest
    ack_payload transmit check_for_retransmissions retransmit_all due is_due parse_packet
    parse_short read_u32 read_bytes is_empty packet_unit execute_packet_operation
    simulate_packet_operation is_ack ack_frame
process_ping = refl

process_incoming_packet-IsValid_example : IsValid pinged
process_incoming_packet-IsValid_example =
    process_incoming_packet-IsValid unit 550 ping handler pinged true handler-IsValid process_ping

process_incoming_packet-done_example :
    (r : QuicHandler × Bool) × (process_incoming_packet unit 550 ping plain_handler ≡ done r)
unfolding dest_in_use parse_packet parse_short read_u32 read_bytes is_empty IsNumbered total_length
process_incoming_packet-done_example =
    process_incoming_packet-done unit 550 ping plain_handler handler-IsValid (omega arith)

-- A Handshake packet whose destination identifier has 50 bytes.
abbrev long_header : QuicPacketHeader
long_header = record {
  type = handshake;
  version = 1;
  dest_conn_id = replicate 50 7;
  src_conn_id = [];
  token = [];
  length = 0;
  packet_number = 0;
}

process_incoming_packet-fault_example :
    process_incoming_packet unit 550
      (print_long 0xE0 long_header ++ (1 ∷ []))
      (record plain_handler { dest_conn_id = [] })
    ≡ fault
unfolding type_of
process_incoming_packet-fault_example =
    process_incoming_packet-fault unit 550 0xE0 long_header (1 ∷ [])
      (record plain_handler { dest_conn_id = [] })
      (record {
        form = refl;
        typed = refl;
        version_fits = omega arith;
        dest_fits = omega arith;
        src_fits = omega arith;
        token_fits = omega arith;
        token_place = inr refl;
        length_fits = omega arith;
        number_fits = omega arith;
      })
      (inr refl) refl refl refl (omega arith)
