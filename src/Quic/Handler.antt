-- ===== src/Quic/Handler.antt =====
-- SatelliteQUICProxy/proxy/src/quic_handler.{h,cpp}: the handler of one connection.
-- Times are milliseconds of the steady clock, handed in by the caller. The socket is the list of the
-- datagrams handed to `sendto`, whose result the code ignores. A fault is the write past the end of
-- the packet buffer that `build_packet` describes.
mod Tests
pub mod Retransmission
pub mod Acknowledgement
pub mod Invariant
pub mod Safety
pub mod Overflow
use satellite_quic_proxy.Base.{
  ℕ, zero, suc, ◌+◌, ◌-◌, ◌*◌, ◌/◌, ◌%◌, Bool, true, false, ◌&&◌, ◌||◌, not, Option, none, some,
  List, [], ◌∷◌, ◌++◌, length, ltb, leb, ◌==◌, if◌then◌else◌, u32_mod, u64_mod, max, map,
}
use satellite_quic_proxy.Base.Outcome.{Outcome, done, fault, ◌>>=◌}
use satellite_quic_proxy.Fpga.Operation.{
  FpgaOperationResult, packet_framing, packet_ack_processing, packet_retransmission,
}
use satellite_quic_proxy.Fpga.PacketUnit.{PacketUnit, is_empty}
use satellite_quic_proxy.Quic.Packet.{
  QuicPacketType, QuicPacketHeader, initial, handshake, zero_rtt, one_rtt, retry,
  version_negotiation, u32_bytes,
}
use satellite_quic_proxy.Quic.Parse.{parse_packet, read_u32}
use satellite_quic_proxy.Quic.Build.{Built, built, unsupported, build_packet}
use satellite_quic_proxy.Quic.Build

-- QUICHandler::PacketInfo
pub record PacketInfo : Type 0 where
  pub packet_number : ℕ
  pub sent_time : ℕ
  pub acknowledged : Bool
  pub packet_data : List ℕ

-- QUICHandler; the secrets are never read or written and are left out.
pub record QuicHandler : Type 0 where
  pub acceleration_enabled : Bool
  pub connected : Bool
  pub last_activity : ℕ
  pub bytes_sent : ℕ
  pub bytes_received : ℕ
  pub packets_sent : ℕ
  pub packets_received : ℕ
  pub connection_id : ℕ
  pub next_packet_number : ℕ
  pub dest_conn_id : List ℕ
  pub src_conn_id : List ℕ
  pub sent_packets : List PacketInfo
  pub received_packets : List ℕ
  pub datagrams : List (List ℕ)

abbrev pub idle_timeout_ms : ℕ
idle_timeout_ms = 30000

abbrev pub retransmit_timeout_ms : ℕ
retransmit_timeout_ms = 500

-- `id = (id << 8) | b` over the bytes, on 64 bits.
unfoldable pub connection_id_of : ℕ → List ℕ → ℕ
connection_id_of id [] = id
connection_id_of id (b ∷ bs) = connection_id_of ((id * 0x100 + b) % u64_mod) bs

-- The constructor, with the bytes that RAND_bytes gives.
unfoldable pub new : Bool → List ℕ → ℕ → QuicHandler
new acceleration random now = record {
  acceleration_enabled = acceleration;
  connected = true;
  last_activity = now;
  bytes_sent = 0;
  bytes_received = 0;
  packets_sent = 0;
  packets_received = 0;
  connection_id = connection_id_of 0 random;
  next_packet_number = 0;
  dest_conn_id = [];
  src_conn_id = random;
  sent_packets = [];
  received_packets = [];
  datagrams = [];
}

-- `sendto`, and the statistics behind it.
pub transmit : List ℕ → QuicHandler → QuicHandler
transmit p h = record h {
  bytes_sent = (h.bytes_sent + length p) % u64_mod;
  packets_sent = (h.packets_sent + 1) % u64_mod;
  datagrams = h.datagrams ++ (p ∷ []);
}

-- The record for a retransmission, and the step to the next packet number.
pub remember : ℕ → List ℕ → QuicHandler → QuicHandler
remember now p h = record h {
  sent_packets = h.sent_packets ++ (info ∷ []);
  next_packet_number = (h.next_packet_number + 1) % u32_mod;
}
  where
    info : PacketInfo
    info = record {
      packet_number = h.next_packet_number;
      sent_time = now;
      acknowledged = false;
      packet_data = p;
    }

pub receive_number : ℕ → QuicHandler → QuicHandler
receive_number n h = record h { received_packets = h.received_packets ++ (n ∷ []) }

-- `m_accelerationEnabled && m_fpgaInterface.isConnected()`
abbrev pub accelerated : PacketUnit → QuicHandler → Bool
accelerated unit h = h.acceleration_enabled && unit.is_connected

-- The way through the FPGA in sendPacket and handleInitialPacket: `none` where it is not taken.
pub try_framing : PacketUnit → ℕ → List ℕ → QuicHandler → Option QuicHandler
try_framing unit now payload h =
    let result = unit.execute packet_framing payload h.connection_id h.next_packet_number in
    if accelerated unit h && result.success
    then some (remember now result.output (transmit result.output h))
    else none

pub finish_send : ℕ → QuicHandler → Built (List ℕ) → Outcome (QuicHandler × Bool)
finish_send now h (built p) = done (remember now p (transmit p h), true)
finish_send now h unsupported = done (h, false)
finish_send now h Build.fault = fault

pub send_packet :
    PacketUnit → ℕ → QuicPacketType → List ℕ → QuicHandler → Outcome (QuicHandler × Bool)
send_packet unit now type payload h = elim (try_framing unit now payload h) [
  | some h' ↦ done (h', true)
  | none ↦
      finish_send now h
        (build_packet type h.dest_conn_id h.src_conn_id h.next_packet_number payload)
]

pub largest : List ℕ → ℕ
largest [] = 0
largest (n ∷ ns) = max n (largest ns)

-- The ACK frame: the largest number in four bytes, and zeros for delay, range count and first range.
pub ack_payload : ℕ → List ℕ
ack_payload n = 0x02 ∷ (u32_bytes n ++ (0 ∷ 0 ∷ 0 ∷ 0 ∷ []))

pub send_ack_packet : PacketUnit → ℕ → List ℕ → QuicHandler → Outcome (QuicHandler × Bool)
send_ack_packet unit now [] h = done (h, true)
send_ack_packet unit now (n ∷ ns) h =
    let n' = largest (n ∷ ns) in
    let result = unit.execute packet_ack_processing (ack_payload n') h.connection_id n' in
    if accelerated unit h && result.success
    then done (transmit result.output h, true)
    else send_packet unit now one_rtt (ack_payload n') h

-- The first sent packet of a number is marked.
pub acknowledge : ℕ → List PacketInfo → List PacketInfo
acknowledge n [] = []
acknowledge n (p ∷ ps) =
    if p.packet_number == n then record p { acknowledged = true } ∷ ps else p ∷ acknowledge n ps

pub process_ack : Option (ℕ × List ℕ) → QuicHandler → QuicHandler
process_ack none h = h
process_ack (some (n, rest)) h = record h { sent_packets = acknowledge n h.sent_packets }

-- The loop of processFrames, from an offset on; `payload` is the whole payload.
pub process_frames_from :
    PacketUnit → ℕ → List ℕ → List ℕ → QuicHandler → Outcome (QuicHandler × Bool)
process_frames_from unit now payload [] h = done (h, true)
process_frames_from unit now payload (type ∷ rest) h =
    if ltb type 2
    then process_frames_from unit now payload rest h
    else if ltb type 4
    then done (process_ack (read_u32 rest) h, true)
    else if leb 0x08 type && leb type 0x0F
    then send_packet unit now one_rtt payload h
    else done (h, true)

pub process_frames : PacketUnit → ℕ → List ℕ → QuicHandler → Outcome (QuicHandler × Bool)
process_frames unit now payload h = process_frames_from unit now payload payload h

-- The CRYPTO frame of 16 bytes from `first` on.
crypto_payload : ℕ → List ℕ
crypto_payload first = 0x06 ∷ 0x00 ∷ 0x10 ∷ count 16 first
  where
    count : ℕ → ℕ → List ℕ
    count zero n = []
    count (suc k) n = n ∷ count k (n + 1)

pub handle_initial_packet :
    PacketUnit → ℕ → QuicPacketHeader → QuicHandler → Outcome (QuicHandler × Bool)
handle_initial_packet unit now header h =
    let h1 = receive_number header.packet_number h in
    elim (try_framing unit now (crypto_payload 0x01) h1) [
      | some h2 ↦ done (h2, true)
      | none ↦ send_packet unit now initial (crypto_payload 0x01) h1
    ]

pub handle_handshake_packet :
    PacketUnit → ℕ → QuicPacketHeader → QuicHandler → Outcome (QuicHandler × Bool)
handle_handshake_packet unit now header h = do
  (h1, ok1) ←
      send_packet unit now handshake (crypto_payload 0x11) (receive_number header.packet_number h)
  (h2, ok2) ← send_packet unit now one_rtt (0x1E ∷ []) h1
  done (h2, ok1 && ok2)

pub handle_one_rtt_packet :
    PacketUnit → ℕ → QuicPacketHeader → List ℕ → QuicHandler → Outcome (QuicHandler × Bool)
handle_one_rtt_packet unit now header payload h = do
  (h1, ok) ← process_frames unit now payload (receive_number header.packet_number h)
  if ok then send_ack_packet unit now h1.received_packets h1 else done (h1, false)

pub is_due : ℕ → PacketInfo → Bool
is_due now p = not p.acknowledged && ltb retransmit_timeout_ms (now - p.sent_time)

-- The copies that checkForRetransmissions takes of the packets that are due.
pub due : ℕ → List PacketInfo → List PacketInfo
unfolding is_due
due now [] = []
due now (p ∷ ps) = if is_due now p then p ∷ due now ps else due now ps

-- The first sent packet of a number gets a new time.
pub touch : ℕ → ℕ → List PacketInfo → List PacketInfo
touch now n [] = []
touch now n (p ∷ ps) =
    if p.packet_number == n then record p { sent_time = now } ∷ ps else p ∷ touch now n ps

pub resend : ℕ → ℕ → List ℕ → QuicHandler → QuicHandler
resend now n p h = let h' = transmit p h in record h' { sent_packets = touch now n h'.sent_packets }

pub retransmit : PacketUnit → ℕ → PacketInfo → QuicHandler → QuicHandler
retransmit unit now p h =
    let result = unit.execute packet_retransmission [] h.connection_id p.packet_number in
    if accelerated unit h && (result.success && not (is_empty result.output))
    then resend now p.packet_number result.output h
    else resend now p.packet_number p.packet_data h

pub retransmit_all : PacketUnit → ℕ → List PacketInfo → QuicHandler → QuicHandler
retransmit_all unit now [] h = h
retransmit_all unit now (p ∷ ps) h = retransmit_all unit now ps (retransmit unit now p h)

pub check_for_retransmissions : PacketUnit → ℕ → QuicHandler → QuicHandler
check_for_retransmissions unit now h = retransmit_all unit now (due now h.sent_packets) h

-- The switch of processIncomingPacket; the types that it does not support give false.
pub handle :
    PacketUnit
    → ℕ
    → QuicPacketType
    → QuicPacketHeader
    → List ℕ
    → QuicHandler
    → Outcome (QuicHandler × Bool)
handle unit now initial header payload h = handle_initial_packet unit now header h
handle unit now handshake header payload h = handle_handshake_packet unit now header h
handle unit now one_rtt header payload h = handle_one_rtt_packet unit now header payload h
handle unit now type header payload h = done (h, false)

pub count_received : ℕ → List ℕ → QuicHandler → QuicHandler
count_received now body h = record h {
  last_activity = now;
  bytes_received = (h.bytes_received + length body) % u64_mod;
  packets_received = (h.packets_received + 1) % u64_mod;
}

-- The first packet's destination identifier is kept.
pub keep_dest : List ℕ → QuicHandler → QuicHandler
keep_dest dest h = record h {
  dest_conn_id = if is_empty h.dest_conn_id then dest else h.dest_conn_id;
}

pub process_parsed :
    PacketUnit → ℕ → Option (QuicPacketHeader × List ℕ) → QuicHandler → Outcome (QuicHandler × Bool)
process_parsed unit now none h = done (h, false)
process_parsed unit now (some (header, payload)) h = do
  (h1, ok) ← handle unit now header.type header payload (keep_dest header.dest_conn_id h)
  done (check_for_retransmissions unit now h1, ok)

-- All of one call happens at one time of the clock. No packet is an empty list.
unfoldable pub process_incoming_packet :
    PacketUnit → ℕ → List ℕ → QuicHandler → Outcome (QuicHandler × Bool)
process_incoming_packet unit now body h =
    if is_empty body
    then done (h, false)
    else process_parsed unit now (parse_packet body) (count_received now body h)

unfoldable pub is_active : ℕ → QuicHandler → Bool
is_active now h = h.connected && ltb (now - h.last_activity) idle_timeout_ms

pub set_acceleration_enabled : Bool → QuicHandler → QuicHandler
set_acceleration_enabled enabled h = record h { acceleration_enabled = enabled }
