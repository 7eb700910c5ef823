-- ===== src/Quic/Handler/Overflow.antt =====
-- The first packet of a client chooses the destination identifier, and with it whether the answer fits.
use satellite_quic_proxy.Base.{
  ℕ, ◌<◌, ◌≡◌, refl, subst, false, List, [], ◌++◌, length, ◌⊎◌, inl, inr, arith,
}
use satellite_quic_proxy.Base.Outcome.{fault}
use satellite_quic_proxy.Fpga.PacketUnit.{PacketUnit, is_empty}
use satellite_quic_proxy.Quic.Packet.{QuicPacketHeader, QuicPacketType, initial, handshake}
use satellite_quic_proxy.Quic.Parse.Printing.{print_long, IsLong, parse-print_long}
use satellite_quic_proxy.Quic.Build.Layout.{IsSendable}
use satellite_quic_proxy.Quic.Build.Room.{dest_room, build_packet-fault_iff}
use satellite_quic_proxy.Quic.Handler.{
  QuicHandler, accelerated, finish_send, send_packet, receive_number, crypto_payload,
  handle_initial_packet, handle_handshake_packet, handle, count_received, keep_dest, process_parsed,
  process_incoming_packet,
}
use satellite_quic_proxy.Quic.Handler.Acknowledgement.{try_framing-plain}

send_packet-fault :
    (unit : PacketUnit) (now : ℕ) (type : QuicPacketType) (payload : List ℕ) (h : QuicHandler)
    → IsSendable type
    → accelerated unit h ≡ false
    → length h.src_conn_id ≡ 8
    → dest_room type < length h.dest_conn_id
    → send_packet unit now type payload h ≡ fault
unfolding send_packet finish_send
send_packet-fault unit now type payload h s plain eight over =
    let e =
      (build_packet-fault_iff type h.dest_conn_id h.src_conn_id h.next_packet_number payload s
          eight).1
        over in
    rw (send_packet, try_framing-plain unit now payload h plain, e) refl

handle-fault :
    (unit : PacketUnit) (now : ℕ) (type : QuicPacketType) (header : QuicPacketHeader)
    (payload : List ℕ) (h : QuicHandler)
    → (type ≡ initial) ⊎ (type ≡ handshake)
    → accelerated unit h ≡ false
    → length h.src_conn_id ≡ 8
    → dest_room type < length h.dest_conn_id
    → handle unit now type header payload h ≡ fault
unfolding handle handle_initial_packet handle_handshake_packet receive_number
handle-fault unit now type header payload h (inl e) plain eight over =
    let h1 = receive_number header.packet_number h in
    rw (e, handle_initial_packet, try_framing-plain unit now (crypto_payload 0x01) h1 plain)
      (send_packet-fault unit now initial (crypto_payload 0x01) h1
        (λ e. ground arith, λ e. ground arith) plain eight
        (subst (λ t. dest_room t < length h.dest_conn_id) e over))
handle-fault unit now type header payload h (inr e) plain eight over =
    let h1 = receive_number header.packet_number h in
    rw
      (
        e,
        handle_handshake_packet,
        send_packet-fault unit now handshake (crypto_payload 0x11) h1
            (λ e. ground arith, λ e. ground arith) plain eight
            (subst (λ t. dest_room t < length h.dest_conn_id) e over),
      )
      refl

-- A handler without acceleration that has a source identifier of 8 bytes and no destination
-- identifier yet writes past its packet buffer when the first packet is a well-formed Initial or
-- Handshake packet with an identifier that is longer than the room: from 43 bytes on for an Initial
-- packet and from 44 on for a Handshake packet.
pub process_incoming_packet-fault :
    (unit : PacketUnit) (now first : ℕ) (header : QuicPacketHeader) (payload : List ℕ)
    (h : QuicHandler)
    → IsLong first header
    → (header.type ≡ initial) ⊎ (header.type ≡ handshake)
    → accelerated unit h ≡ false
    → length h.src_conn_id ≡ 8
    → h.dest_conn_id ≡ []
    → dest_room header.type < length header.dest_conn_id
    → process_incoming_packet unit now (print_long first header ++ payload) h ≡ fault
unfolding process_incoming_packet process_parsed count_received keep_dest is_empty print_long
process_incoming_packet-fault unit now first header payload h long type plain eight fresh over =
    let body = print_long first header ++ payload in
    rw
      (
        parse-print_long first header payload long,
        handle-fault unit now header.type header payload
            (keep_dest header.dest_conn_id (count_received now body h)) type plain eight
            (rw fresh over),
      )
      refl
