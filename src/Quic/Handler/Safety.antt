-- ===== src/Quic/Handler/Safety.antt =====
-- An incoming packet keeps the handler's invariant, and the one way it can write out of bounds.
use satellite_quic_proxy.Base.{
  ℕ, ◌<◌, ◌≤◌, ◌≡◌, refl, subst, ◌∙◌, Bool, ◌&&◌, Option, none, some, List, [], ◌∷◌, length,
  if◌then◌else◌, Bool-cases, Option-cases, inl, inr, ltb, leb, arith,
}
use satellite_quic_proxy.Base.Outcome.{Outcome, done, fault, ◌>>=◌}
use satellite_quic_proxy.Fpga.PacketUnit.{PacketUnit, is_empty}
use satellite_quic_proxy.Fpga.Operation.{packet_ack_processing, packet_framing}
use satellite_quic_proxy.Quic.Packet.{
  QuicPacketHeader, QuicPacketType, initial, handshake, zero_rtt, one_rtt, retry,
  version_negotiation,
}
use satellite_quic_proxy.Quic.Parse.{parse_packet, read_u32}
use satellite_quic_proxy.Quic.Parse.Printing.{parse_packet-nil}
use satellite_quic_proxy.Quic.Build
use satellite_quic_proxy.Quic.Build.{Built, built, unsupported, build_packet}
use satellite_quic_proxy.Quic.Build.Layout.{IsSendable}
use satellite_quic_proxy.Quic.Build.Room.{dest_room, build_packet-fault_iff}
use satellite_quic_proxy.Quic.Handler.{
  QuicHandler, PacketInfo, due, accelerated, transmit, remember, receive_number, try_framing,
  finish_send, send_packet, largest, ack_payload, send_ack_packet, process_ack, process_frames_from,
  process_frames, crypto_payload, handle_initial_packet, handle_handshake_packet,
  handle_one_rtt_packet, handle, check_for_retransmissions, retransmit_all, retransmit, resend,
  count_received, keep_dest, process_parsed, process_incoming_packet,
}
use satellite_quic_proxy.Quic.Handler.Retransmission.{retransmit-resend}
use satellite_quic_proxy.Quic.Handler.Invariant.{
  IsValid, transmit-IsValid, remember-IsValid, process_ack-IsValid,
  check_for_retransmissions-IsValid,
}

abbrev Kept : List ℕ → QuicHandler → Type 0
Kept dest h = IsValid h × (h.dest_conn_id ≡ dest)

-- A call that starts with a destination identifier ends in a valid handler with that identifier, or
-- faults, and then the identifier has more than 42 bytes.
abbrev Safe : List ℕ → Outcome (QuicHandler × Bool) → Type 0
Safe dest (done r) = Kept dest r.0
Safe dest fault = 42 < length dest

Safe-done :
    (dest : List ℕ) (o : Outcome (QuicHandler × Bool))
    → length dest ≤ 42
    → Safe dest o
    → (r : QuicHandler × Bool) × (o ≡ done r)
Safe-done dest (done r) small h = (r, refl)
Safe-done dest fault small h = absurd (omega arith)

Safe-bind :
    (dest : List ℕ) (o : Outcome (QuicHandler × Bool))
    (f : QuicHandler × Bool → Outcome (QuicHandler × Bool))
    → Safe dest o
    → ((r : QuicHandler × Bool) → Kept dest r.0 → Safe dest (f r))
    → Safe dest (o >>= f)
Safe-bind dest (done r) f h next = next r h
Safe-bind dest fault f h next = h

sent-Kept :
    (dest : List ℕ) (now : ℕ) (p : List ℕ) (h : QuicHandler)
    → Kept dest h
    → Kept dest (remember now p (transmit p h))
unfolding remember transmit
sent-Kept dest now p h k = (remember-IsValid now p (transmit p h) (transmit-IsValid p h k.0), k.1)

transmit-Kept :
    (dest : List ℕ) (p : List ℕ) (h : QuicHandler) → Kept dest h → Kept dest (transmit p h)
unfolding transmit
transmit-Kept dest p h k = (transmit-IsValid p h k.0, k.1)

try_framing-Kept :
    (dest : List ℕ) (unit : PacketUnit) (now : ℕ) (payload : List ℕ) (h h' : QuicHandler)
    → Kept dest h
    → try_framing unit now payload h ≡ some h'
    → Kept dest h'
unfolding try_framing
try_framing-Kept dest unit now payload h h' k e =
    let result = unit.execute packet_framing payload h.connection_id h.next_packet_number in
    elim (Bool-cases (accelerated unit h && result.success)) [
      | inl on ↦
          let same : remember now result.output (transmit result.output h) ≡ h' = ground arith in
          rw (← same) (sent-Kept dest now result.output h k)
      | inr off ↦ absurd (ground arith)
    ]

finish_send-Safe :
    (dest : List ℕ) (now : ℕ) (h : QuicHandler) (b : Built (List ℕ))
    → Kept dest h
    → (b ≡ Build.fault → 42 < length dest)
    → Safe dest (finish_send now h b)
unfolding finish_send
finish_send-Safe dest now h (built p) k out = sent-Kept dest now p h k
finish_send-Safe dest now h unsupported k out = k
finish_send-Safe dest now h Build.fault k out = out refl

dest_room_low : (type : QuicPacketType) → IsSendable type → 42 ≤ dest_room type
dest_room_low initial s = omega arith
dest_room_low handshake s = omega arith
dest_room_low zero_rtt s = omega arith
dest_room_low one_rtt s = omega arith
dest_room_low retry s = absurd (s.0 refl)
dest_room_low version_negotiation s = absurd (s.1 refl)

send_packet-Safe :
    (dest : List ℕ) (unit : PacketUnit) (now : ℕ) (type : QuicPacketType) (payload : List ℕ)
    (h : QuicHandler)
    → IsSendable type
    → Kept dest h
    → Safe dest (send_packet unit now type payload h)
unfolding send_packet
send_packet-Safe dest unit now type payload h s k =
    elim (Option-cases (try_framing unit now payload h)) [
      | inl e ↦
          rw (send_packet, e)
            (finish_send-Safe dest now h
              (build_packet type h.dest_conn_id h.src_conn_id h.next_packet_number payload) k
              (λ f.
                let over =
                  (build_packet-fault_iff type h.dest_conn_id h.src_conn_id h.next_packet_number
                      payload s k.0.1).0
                    f in
                let room = dest_room_low type s in rw (← k.1) (omega arith)))
      | inr (h', e) ↦ rw (send_packet, e) (try_framing-Kept dest unit now payload h h' k e)
    ]

one_rtt_sendable : IsSendable one_rtt
one_rtt_sendable = (λ e. ground arith, λ e. ground arith)

send_ack_packet-Safe :
    (dest : List ℕ) (unit : PacketUnit) (now : ℕ) (ns : List ℕ) (h : QuicHandler)
    → Kept dest h
    → Safe dest (send_ack_packet unit now ns h)
unfolding send_ack_packet
send_ack_packet-Safe dest unit now [] h k = k
send_ack_packet-Safe dest unit now (n ∷ ns) h k =
    let n' = largest (n ∷ ns) in
    let result = unit.execute packet_ack_processing (ack_payload n') h.connection_id n' in
    elim (Bool-cases (accelerated unit h && result.success)) [
      | inl on ↦ rw on (transmit-Kept dest result.output h k)
      | inr off ↦
          rw off (send_packet-Safe dest unit now one_rtt (ack_payload n') h one_rtt_sendable k)
    ]

process_ack-Kept :
    (dest : List ℕ) (o : Option (ℕ × List ℕ)) (h : QuicHandler)
    → Kept dest h
    → Kept dest (process_ack o h)
unfolding process_ack
process_ack-Kept dest none h k = k
process_ack-Kept dest (some r) h k = (process_ack-IsValid (some r) h k.0, k.1)

process_frames_from-Safe :
    (dest : List ℕ) (unit : PacketUnit) (now : ℕ) (payload rest : List ℕ) (h : QuicHandler)
    → Kept dest h
    → Safe dest (process_frames_from unit now payload rest h)
unfolding process_frames_from
process_frames_from-Safe dest unit now payload [] h k = k
process_frames_from-Safe dest unit now payload (type ∷ rest) h k = elim (Bool-cases (ltb type 2)) [
  | inl e ↦ rw e (process_frames_from-Safe dest unit now payload rest h k)
  | inr e1 ↦ elim (Bool-cases (ltb type 4)) [
    | inl e ↦ rw (e1, e) (process_ack-Kept dest (read_u32 rest) h k)
    | inr e2 ↦ elim (Bool-cases (leb 0x08 type && leb type 0x0F)) [
      | inl e ↦ rw (e1, e2, e) (send_packet-Safe dest unit now one_rtt payload h one_rtt_sendable k)
      | inr e ↦ rw (e1, e2, e) k
    ]
  ]
]

handle_initial_packet-Safe :
    (dest : List ℕ) (unit : PacketUnit) (now : ℕ) (header : QuicPacketHeader) (h : QuicHandler)
    → Kept dest h
    → Safe dest (handle_initial_packet unit now header h)
unfolding handle_initial_packet receive_number
handle_initial_packet-Safe dest unit now header h k =
    let h1 = receive_number header.packet_number h in
    elim (Option-cases (try_framing unit now (crypto_payload 0x01) h1)) [
      | inl e ↦
          rw (handle_initial_packet, e)
            (send_packet-Safe dest unit now initial (crypto_payload 0x01) h1
              (λ e. ground arith, λ e. ground arith) k)
      | inr (h2, e) ↦
          rw (handle_initial_packet, e)
            (try_framing-Kept dest unit now (crypto_payload 0x01) h1 h2 k e)
    ]

handle_handshake_packet-Safe :
    (dest : List ℕ) (unit : PacketUnit) (now : ℕ) (header : QuicPacketHeader) (h : QuicHandler)
    → Kept dest h
    → Safe dest (handle_handshake_packet unit now header h)
unfolding handle_handshake_packet receive_number
handle_handshake_packet-Safe dest unit now header h k =
    Safe-bind dest _ _
      (send_packet-Safe dest unit now handshake (crypto_payload 0x11)
        (receive_number header.packet_number h) (λ e. ground arith, λ e. ground arith) k)
      (λ r k1.
        Safe-bind dest _ _
          (send_packet-Safe dest unit now one_rtt (0x1E ∷ []) r.0 one_rtt_sendable k1)
          (λ r' k2. k2))

handle_one_rtt_packet-Safe :
    (dest : List ℕ) (unit : PacketUnit) (now : ℕ) (header : QuicPacketHeader) (payload : List ℕ)
    (h : QuicHandler)
    → Kept dest h
    → Safe dest (handle_one_rtt_packet unit now header payload h)
unfolding handle_one_rtt_packet receive_number process_frames
handle_one_rtt_packet-Safe dest unit now header payload h k =
    Safe-bind dest _ _
      (process_frames_from-Safe dest unit now payload payload
        (receive_number header.packet_number h) k)
      (λ (h1, ok) k1. elim (Bool-cases ok) [
        | inl e ↦ rw e (send_ack_packet-Safe dest unit now h1.received_packets h1 k1)
        | inr e ↦ rw e k1
      ])

handle-Safe :
    (dest : List ℕ) (unit : PacketUnit) (now : ℕ) (type : QuicPacketType)
    (header : QuicPacketHeader) (payload : List ℕ) (h : QuicHandler)
    → Kept dest h
    → Safe dest (handle unit now type header payload h)
unfolding handle
handle-Safe dest unit now initial header payload h k =
    handle_initial_packet-Safe dest unit now header h k
handle-Safe dest unit now handshake header payload h k =
    handle_handshake_packet-Safe dest unit now header h k
handle-Safe dest unit now one_rtt header payload h k =
    handle_one_rtt_packet-Safe dest unit now header payload h k
handle-Safe dest unit now zero_rtt header payload h k = k
handle-Safe dest unit now retry header payload h k = k
handle-Safe dest unit now version_negotiation header payload h k = k

check-dest_conn_id :
    (unit : PacketUnit) (now : ℕ) (ps : List PacketInfo) (h : QuicHandler)
    → (retransmit_all unit now ps h).dest_conn_id ≡ h.dest_conn_id
unfolding retransmit_all
check-dest_conn_id unit now [] h = refl
check-dest_conn_id unit now (p ∷ ps) h =
    check-dest_conn_id unit now ps (retransmit unit now p h)
    ∙ rw (retransmit-resend unit now p h) (unfold resend in unfold transmit in refl)

check-Kept :
    (dest : List ℕ) (unit : PacketUnit) (now : ℕ) (h : QuicHandler)
    → Kept dest h
    → Kept dest (check_for_retransmissions unit now h)
check-Kept dest unit now h k = (
  check_for_retransmissions-IsValid unit now h k.0,
  unfold check_for_retransmissions in
      (check-dest_conn_id unit now (due now h.sent_packets) h ∙ k.1),
)

-- The destination identifier that a handler has when it answers a packet: its own, or the packet's.
unfoldable pub dest_in_use : QuicHandler → List ℕ → List ℕ
dest_in_use h body = elim (parse_packet body) [
  | none ↦ h.dest_conn_id
  | some r ↦ if is_empty h.dest_conn_id then r.0.dest_conn_id else h.dest_conn_id
]

process_incoming_packet-Safe :
    (unit : PacketUnit) (now : ℕ) (body : List ℕ) (h : QuicHandler)
    → IsValid h
    → Safe (dest_in_use h body) (process_incoming_packet unit now body h)
unfolding process_incoming_packet process_parsed count_received keep_dest dest_in_use is_empty
process_incoming_packet-Safe unit now [] h v = rw (dest_in_use, parse_packet-nil) (v, refl)
process_incoming_packet-Safe unit now (b ∷ body) h v =
    elim (Option-cases (parse_packet (b ∷ body))) [
      | inl e ↦ rw (dest_in_use, e) (v, refl)
      | inr ((header, payload), e) ↦
          rw (dest_in_use, e)
            (Safe-bind _ _ _
              (handle-Safe _ unit now header.type header payload
                (keep_dest header.dest_conn_id (count_received now (b ∷ body) h)) (v, refl))
              (λ r k. check-Kept _ unit now r.0 k))
    ]

-- Whatever bytes arrive at a handler in a valid state, and whatever the accelerator does: where the
-- call ends, the state is valid, so the packets sent are numbered without a gap, and the counts of
-- packets and of bytes are those of what was sent.
pub process_incoming_packet-IsValid :
    (unit : PacketUnit) (now : ℕ) (body : List ℕ) (h h' : QuicHandler) (ok : Bool)
    → IsValid h
    → process_incoming_packet unit now body h ≡ done (h', ok)
    → IsValid h'
process_incoming_packet-IsValid unit now body h h' ok v e =
    (subst (Safe (dest_in_use h body)) e (process_incoming_packet-Safe unit now body h v)).0

-- Whatever bytes arrive, a handler in a valid state answers them without a write out of bounds, as
-- long as the destination identifier that it answers with has at most 42 bytes.
pub process_incoming_packet-done :
    (unit : PacketUnit) (now : ℕ) (body : List ℕ) (h : QuicHandler)
    → IsValid h
    → length (dest_in_use h body) ≤ 42
    → (r : QuicHandler × Bool) × (process_incoming_packet unit now body h ≡ done r)
process_incoming_packet-done unit now body h v small =
    Safe-done (dest_in_use h body) (process_incoming_packet unit now body h) small
      (process_incoming_packet-Safe unit now body h v)
