-- ===== src/Quic/Build/Layout.antt =====
-- The packets that the builder makes, as lists of bytes.
use satellite_quic_proxy.Base.{
  ℕ, suc, ◌+◌, ◌≡◌, refl, List, [], ◌∷◌, ◌++◌, arith, length, length-replicate, replicate, leb,
  if◌then◌else◌, ◌≢◌,
}
use satellite_quic_proxy.Quic.Packet.{
  QuicPacketType, initial, handshake, zero_rtt, one_rtt, retry, version_negotiation, u32_bytes,
}
use satellite_quic_proxy.Quic.Build.{
  Built, built, fault, ◌>>=◌, Writer, put, put_first, build_rest, fresh, build_packet,
}
use satellite_quic_proxy.Quic.Build.Writes.{
  at, put-at, build_short-at, build_long-at, long_prefix, long_suffix,
}

-- All of a long packet but its first byte.
abbrev pub long_body : QuicPacketType → List ℕ → List ℕ → ℕ → List ℕ → List ℕ
long_body type dest src number payload =
    long_prefix type dest src ++ long_suffix (4 + length payload) number payload

-- The packet that each type is meant to give: the first byte, the fields of its header in order, and
-- the payload. A long packet counts in its two-byte length field the packet number and the payload.
unfoldable pub packet : QuicPacketType → List ℕ → List ℕ → ℕ → List ℕ → List ℕ
packet one_rtt dest src number payload = 0x40 ∷ (dest ++ (u32_bytes number ++ payload))
packet initial dest src number payload = 0xC3 ∷ long_body initial dest src number payload
packet handshake dest src number payload = 0xE3 ∷ long_body handshake dest src number payload
packet zero_rtt dest src number payload = 0xD3 ∷ long_body zero_rtt dest src number payload
packet retry dest src number payload = []
packet version_negotiation dest src number payload = []

abbrev pub IsSendable : QuicPacketType → Type 0
IsSendable type = (type ≢ retry) × (type ≢ version_negotiation)

-- The first byte goes to the front of the fresh buffer.
put-fresh :
    (b : ℕ) (payload : List ℕ)
    → put b (fresh (length payload + 64)) ≡ built (at (b ∷ []) (replicate (length payload + 63) 0))
unfolding fresh
put-fresh b payload =
    let e : length payload + 64 ≡ suc (length payload + 63) = omega arith in
    rw e (put-at b [] 0 (replicate (length payload + 63) 0))

-- A packet is its first byte and what is written behind it, where that fits.
first_then :
    (b : ℕ) (payload bytes : List ℕ) (rest : Writer → Built (List ℕ))
    → ((pre post : List ℕ)
        → rest (at pre post)
          ≡ (if leb (length bytes) (length post) then built (pre ++ bytes) else fault))
    → (put b (fresh (length payload + 64)) >>= rest)
      ≡ (if leb (length (b ∷ bytes)) (length payload + 64) then built (b ∷ bytes) else fault)
first_then b payload bytes rest h =
    let zeros : List ℕ = replicate (length payload + 63) 0 in
    rw (put-fresh b payload, h (b ∷ []) zeros)
      (ground (arith, length-replicate {A = ℕ} (length payload + 63) 0))

-- For each type that can be sent, the writes put exactly the packet described as a list of bytes
-- together if it fits the buffer of 64 bytes more than the payload, and otherwise write past the end of
-- the buffer.
pub build_packet-packet :
    (type : QuicPacketType) (dest src : List ℕ) (number : ℕ) (payload : List ℕ)
    → IsSendable type
    → build_packet type dest src number payload ≡ (
        if leb (length (packet type dest src number payload)) (length payload + 64)
        then built (packet type dest src number payload)
        else fault)
unfolding build_packet put_first build_rest packet
build_packet-packet one_rtt dest src number payload s =
    first_then 0x40 payload (dest ++ (u32_bytes number ++ payload)) _
      (build_short-at dest number payload)
build_packet-packet initial dest src number payload s =
    first_then 0xC3 payload (long_body initial dest src number payload) _
      (build_long-at initial dest src number payload)
build_packet-packet handshake dest src number payload s =
    first_then 0xE3 payload (long_body handshake dest src number payload) _
      (build_long-at handshake dest src number payload)
build_packet-packet zero_rtt dest src number payload s =
    first_then 0xD3 payload (long_body zero_rtt dest src number payload) _
      (build_long-at zero_rtt dest src number payload)
build_packet-packet retry dest src number payload s = absurd (s.0 refl)
build_packet-packet version_negotiation dest src number payload s = absurd (s.1 refl)
