-- ===== src/Quic/Build/Room.antt =====
-- Which packets fit the packet buffer.
use satellite_quic_proxy.Base.{
  ℕ, ◌+◌, ◌%◌, ◌<◌, ◌≡◌, refl, List, ◌∷◌, ◌++◌, arith, length, length-append, ◌↔◌,
}
use satellite_quic_proxy.Quic.Packet.{
  QuicPacketType, initial, handshake, zero_rtt, one_rtt, retry, version_negotiation, u32_bytes,
}
use satellite_quic_proxy.Quic.Build.{fault, build_packet}
use satellite_quic_proxy.Quic.Build.Writes.{token_bytes, long_prefix, long_suffix}
use satellite_quic_proxy.Quic.Build.Layout.{packet, long_body, IsSendable, build_packet-packet}

-- The longest destination identifier that the 64 bytes of the buffer leave room for, beside one of 8 bytes.
abbrev pub dest_room : QuicPacketType → ℕ
dest_room initial = 42
dest_room handshake = 43
dest_room zero_rtt = 43
dest_room one_rtt = 59
dest_room retry = 0
dest_room version_negotiation = 0

length-long_body :
    (type : QuicPacketType) (dest src : List ℕ) (number : ℕ) (payload : List ℕ)
    → length (long_body type dest src number payload)
      ≡ 12 + length dest + length src + length (token_bytes type) + length payload
length-long_body type dest src number payload = omega (
  arith,
  length-append (long_prefix type dest src) (long_suffix (4 + length payload) number payload),
  length-append dest ((length src % 0x100) ∷ (src ++ token_bytes type)),
  length-append src (token_bytes type),
)

pub length-packet :
    (type : QuicPacketType) (dest src : List ℕ) (number : ℕ) (payload : List ℕ)
    → IsSendable type
    → length src ≡ 8
    → length (packet type dest src number payload) + dest_room type
      ≡ length payload + 64 + length dest
unfolding packet
length-packet one_rtt dest src number payload s l =
    omega (arith, length-append dest (u32_bytes number ++ payload))
length-packet initial dest src number payload s l =
    omega (arith, length-long_body initial dest src number payload)
length-packet handshake dest src number payload s l =
    omega (arith, length-long_body handshake dest src number payload)
length-packet zero_rtt dest src number payload s l =
    omega (arith, length-long_body zero_rtt dest src number payload)
length-packet retry dest src number payload s l = absurd (s.0 refl)
length-packet version_negotiation dest src number payload s l = absurd (s.1 refl)

-- For each type that can be sent, and a source identifier of 8 bytes, as every handler has, sending
-- writes past the buffer exactly where the destination identifier is longer than the room of the
-- type, whatever the payload.
pub build_packet-fault_iff :
    (type : QuicPacketType) (dest src : List ℕ) (number : ℕ) (payload : List ℕ)
    → IsSendable type
    → length src ≡ 8
    → (build_packet type dest src number payload ≡ fault) ↔ (dest_room type < length dest)
build_packet-fault_iff type dest src number payload s l =
    rw (build_packet-packet type dest src number payload s)
      (ground (arith, length-packet type dest src number payload s l))
