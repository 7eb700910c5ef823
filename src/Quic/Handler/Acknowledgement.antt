-- ===== src/Quic/Handler/Acknowledgement.antt =====
-- The way of an acknowledgement from the handler that sends it to the handler that reads it.
use native.Mathlib.Decide.{ℕ_discrete}
use satellite_quic_proxy.Base.{
  ℕ, zero, suc, ◌<◌, ◌≡◌, ◌≢◌, refl, true, false, none, some, List, [], ◌∷◌, ◌++◌, All, replicate,
  length, Bool-cases, inl, inr, u32_mod, arith,
}
use satellite_quic_proxy.Base.Outcome.{done}
use satellite_quic_proxy.Fpga.PacketUnit.{PacketUnit}
use satellite_quic_proxy.Quic.Packet.{QuicPacketHeader, one_rtt}
use satellite_quic_proxy.Quic.Parse.{parse_packet}
use satellite_quic_proxy.Quic.Parse.Printing.{read_u32-print}
use satellite_quic_proxy.Quic.Build.{build_packet, built}
use satellite_quic_proxy.Quic.Build.RoundTrip.{parse-build_one_rtt}
use satellite_quic_proxy.Quic.Handler.{
  QuicHandler, PacketInfo, accelerated, ack_payload, largest, acknowledge, process_ack,
  process_frames_from, process_frames, send_ack_packet, send_packet, try_framing, finish_send,
  transmit, remember, due, is_due,
}
use satellite_quic_proxy.Quic.Handler.Retransmission.{HasDistinctNumbers, due-All}

process_frames_from-ack :
    (unit : PacketUnit) (now k n : ℕ) (whole : List ℕ) (h : QuicHandler)
    → n < u32_mod
    → process_frames_from unit now whole (replicate k 0 ++ ack_payload n) h
      ≡ done (record h { sent_packets = acknowledge n h.sent_packets }, true)
unfolding process_frames_from ack_payload process_ack
process_frames_from-ack unit now zero n whole h fits =
    rw (read_u32-print n (0 ∷ 0 ∷ 0 ∷ 0 ∷ []) fits) refl
process_frames_from-ack unit now (suc k) n whole h fits =
    process_frames_from-ack unit now k n whole h fits

-- Behind any number of PADDING bytes, an ACK frame that a handler builds is read as the number it was
-- built from: the handler that reads it marks its packet of that number, and changes nothing else.
pub process_frames-ack_payload :
    (unit : PacketUnit) (now k n : ℕ) (h : QuicHandler)
    → n < u32_mod
    → process_frames unit now (replicate k 0 ++ ack_payload n) h
      ≡ done (record h { sent_packets = acknowledge n h.sent_packets }, true)
unfolding process_frames
process_frames-ack_payload unit now k n h fits =
    process_frames_from-ack unit now k n (replicate k 0 ++ ack_payload n) h fits

largest-All : (m : ℕ) (ns : List ℕ) → 0 < m → All (λ n. n < m) ns → largest ns < m
unfolding largest
largest-All m [] pos h = pos
largest-All m (n ∷ ns) pos h = omega (arith, largest-All m ns pos h.1, h.0)

pub try_framing-plain :
    (unit : PacketUnit) (now : ℕ) (payload : List ℕ) (h : QuicHandler)
    → accelerated unit h ≡ false
    → try_framing unit now payload h ≡ none
unfolding try_framing
try_framing-plain unit now payload h plain = ground arith

send_packet-plain :
    (unit : PacketUnit) (now : ℕ) (payload p : List ℕ) (h : QuicHandler)
    → accelerated unit h ≡ false
    → build_packet one_rtt h.dest_conn_id h.src_conn_id h.next_packet_number payload ≡ built p
    → send_packet unit now one_rtt payload h ≡ done (remember now p (transmit p h), true)
unfolding send_packet finish_send
send_packet-plain unit now payload p h plain e =
    rw (send_packet, try_framing-plain unit now payload h plain, e) refl

-- Without acceleration, a handler whose peer's identifier has 8 bytes acknowledges the 32-bit
-- numbers that it has received by one datagram, and a handler that gets this datagram parses it and
-- marks its packet of the largest of these numbers.
pub send_ack_packet-read_back :
    (unit unit' : PacketUnit) (now now' n : ℕ) (ns : List ℕ) (h peer : QuicHandler)
    → accelerated unit h ≡ false
    → length h.dest_conn_id ≡ 8
    → h.next_packet_number < u32_mod
    → All (λ m. m < u32_mod) (n ∷ ns)
    → (h' : QuicHandler) × (d : List ℕ) × (header : QuicPacketHeader) × (payload : List ℕ)
      × (send_ack_packet unit now (n ∷ ns) h ≡ done (h', true))
      × (h'.datagrams ≡ h.datagrams ++ (d ∷ []))
      × (parse_packet d ≡ some (header, payload))
      × (process_frames unit' now' payload peer
          ≡ done (
            record peer { sent_packets = acknowledge (largest (n ∷ ns)) peer.sent_packets },
            true,
          ))
unfolding send_ack_packet
send_ack_packet-read_back unit unit' now now' n ns h peer plain eight number fits =
    let payload = ack_payload (largest (n ∷ ns)) in
    let (p, e, parsed) =
      parse-build_one_rtt h.dest_conn_id h.src_conn_id h.next_packet_number payload eight number in
    (
      remember now p (transmit p h),
      p,
      _,
      payload,
      rw plain (send_packet-plain unit now payload p h plain e),
      unfold remember in unfold transmit in refl,
      parsed,
      process_frames-ack_payload unit' now' 0 (largest (n ∷ ns)) peer
          (largest-All u32_mod (n ∷ ns) (omega arith) fits),
    )

acknowledge-same :
    (n : ℕ) (p : PacketInfo) (ps : List PacketInfo)
    → p.packet_number ≡ n
    → acknowledge n (p ∷ ps) ≡ record p { acknowledged = true } ∷ ps
unfolding acknowledge
acknowledge-same n p ps e = ground arith

acknowledge-other :
    (n : ℕ) (p : PacketInfo) (ps : List PacketInfo)
    → p.packet_number ≢ n
    → acknowledge n (p ∷ ps) ≡ p ∷ acknowledge n ps
unfolding acknowledge
acknowledge-other n p ps e = ground arith

-- Where no two sent packets have one number, a packet that has been acknowledged is not due again at
-- any time.
pub due-acknowledge :
    (now n : ℕ) (s : List PacketInfo)
    → HasDistinctNumbers s
    → All (λ p. p.packet_number ≢ n) (due now (acknowledge n s))
unfolding due HasDistinctNumbers
due-acknowledge now n [] h = unfold acknowledge in tt
due-acknowledge now n (p ∷ ps) h = elim (ℕ_discrete p.packet_number n) [
  | yes e ↦
      rw (acknowledge-same n p ps e) (due-All (λ q. q.packet_number ≢ n) now ps (rw (← e) h.0))
  | no ne ↦
      let rest = due-acknowledge now n ps h.1 in
      elim (Bool-cases (is_due now p)) [
        | inl is ↦ rw (acknowledge-other n p ps ne, due, is) (ne, rest)
        | inr e ↦ rw (acknowledge-other n p ps ne, due, e) rest
      ]
]
