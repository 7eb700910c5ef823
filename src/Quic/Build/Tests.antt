-- ===== src/Quic/Build/Tests.antt =====
-- Examples of packets that are built, with identifiers of 8 and of 60 bytes.
use satellite_quic_proxy.Base.{
  ℕ, ◌+◌, ◌<◌, ◌≡◌, ◌↔◌, refl, some, List, [], ◌∷◌, length, replicate, leb, if◌then◌else◌, arith,
}
use satellite_quic_proxy.Quic.Packet.{initial, handshake, one_rtt}
use satellite_quic_proxy.Quic.Parse.{parse_packet}
use satellite_quic_proxy.Quic.Build.{build_packet, Built, built}
use satellite_quic_proxy.Quic.Build
use satellite_quic_proxy.Quic.Build.Layout.{packet, build_packet-packet}
use satellite_quic_proxy.Quic.Build.Room.{dest_room, build_packet-fault_iff}
use satellite_quic_proxy.Quic.Build.RoundTrip.{
  parse-build_one_rtt, parse-build_long, short_header, misread_header,
}

abbrev identifier : List ℕ
identifier = 1 ∷ 2 ∷ 3 ∷ 4 ∷ 5 ∷ 6 ∷ 7 ∷ 8 ∷ []

abbrev payload : List ℕ
payload = 6 ∷ 0 ∷ 2 ∷ 9 ∷ 9 ∷ []

build_packet-packet_example : build_packet handshake identifier identifier 3 payload ≡ (
    if leb (length (packet handshake identifier identifier 3 payload)) (length payload + 64)
    then built (packet handshake identifier identifier 3 payload)
    else Build.fault)
build_packet-packet_example =
    build_packet-packet handshake identifier identifier 3 payload
      (λ e. ground arith, λ e. ground arith)

build_packet-fault_iff_example :
    (build_packet initial (replicate 60 7) identifier 0 payload ≡ Build.fault)
    ↔ (dest_room initial < length (replicate {A = ℕ} 60 7))
build_packet-fault_iff_example =
    build_packet-fault_iff initial (replicate 60 7) identifier 0 payload
      (λ e. ground arith, λ e. ground arith) refl

parse-build_one_rtt_example :
    (p : List ℕ) × (build_packet one_rtt identifier identifier 3 payload ≡ built p)
    × (parse_packet p ≡ some (short_header identifier 3 payload, payload))
parse-build_one_rtt_example = parse-build_one_rtt identifier identifier 3 payload refl (omega arith)

parse-build_long_example :
    (p : List ℕ) × (build_packet handshake identifier identifier 3 payload ≡ built p)
    × (parse_packet p
        ≡ some (misread_header handshake identifier identifier 3 payload, 3 ∷ payload))
parse-build_long_example =
    parse-build_long handshake identifier identifier 3 payload
      (λ e. ground arith, λ e. ground arith, λ e. ground arith) (omega arith) refl (omega arith)
      (omega arith)
