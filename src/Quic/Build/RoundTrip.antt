-- ===== src/Quic/Build/RoundTrip.antt =====
-- What `parsePacket` reads from the packets that `sendPacket` writes.
use satellite_quic_proxy.Base.{
  ℕ, ◌+◌, ◌*◌, ◌/◌, ◌%◌, ◌≤◌, ◌<◌, ◌≡◌, ◌≢◌, refl, ◌∙◌, some, List, [], ◌∷◌, ◌++◌, append_assoc,
  arith, length, length-append, u32_mod, inr,
}
use satellite_quic_proxy.Quic.Packet.{
  QuicPacketType, QuicPacketHeader, initial, handshake, zero_rtt, one_rtt, retry,
  version_negotiation, u32_bytes,
}
use satellite_quic_proxy.Quic.Parse.{parse_packet, type_of}
use satellite_quic_proxy.Quic.Parse.Printing.{
  token_field, print_long, print_short, IsLong, parse-print_long, parse-print_short,
}
use satellite_quic_proxy.Quic.Build.{built, build_packet}
use satellite_quic_proxy.Quic.Build.Writes.{long_suffix, token_bytes}
use satellite_quic_proxy.Quic.Build.Layout.{packet, long_body, build_packet-packet, IsSendable}
use satellite_quic_proxy.Quic.Build.Room.{dest_room, length-packet}

-- The header of a 1-RTT packet.
abbrev pub short_header : List ℕ → ℕ → List ℕ → QuicPacketHeader
short_header dest number payload = record {
  type = one_rtt;
  version = 0;
  dest_conn_id = dest;
  src_conn_id = [];
  token = [];
  length = length payload;
  packet_number = number;
}

-- A 1-RTT packet with a destination identifier of 8 bytes and a 32-bit packet number is built
-- without a fault, and the parser reads the identifier, the packet number and the payload back.
pub parse-build_one_rtt :
    (dest src : List ℕ) (number : ℕ) (payload : List ℕ)
    → length dest ≡ 8
    → number < u32_mod
    → (p : List ℕ) × (build_packet one_rtt dest src number payload ≡ built p)
      × (parse_packet p ≡ some (short_header dest number payload, payload))
unfolding packet
parse-build_one_rtt dest src number payload l fits =
    let p = packet one_rtt dest src number payload in
    let size : length p ≤ length payload + 64 =
      omega (arith, length-append dest (u32_bytes number ++ payload), l) in
    let shape : print_short 0x40 (short_header dest number payload) ++ payload ≡ p =
      unfold print_short in append_assoc (0x40 ∷ dest) (u32_bytes number) payload in
    (
      p,
      build_packet-packet one_rtt dest src number payload ((λ e. cc), (λ e. cc))
          ∙ ground (arith, size),
      rw (← shape) (
          parse-print_short 0x40 (short_header dest number payload) payload (record {
            form = refl;
            typed = refl;
            no_version = refl;
            dest_size = l;
            no_src = refl;
            no_token = refl;
            rest_length = refl;
            number_fits = fits;
          })),
    )

-- What the parser makes of a long packet: the high byte of the two-byte length is taken for the whole
-- length, and the low byte for the first byte of the packet number.
abbrev pub misread_header : QuicPacketType → List ℕ → List ℕ → ℕ → List ℕ → QuicPacketHeader
misread_header type dest src number payload = record {
  type = type;
  version = 1;
  dest_conn_id = dest;
  src_conn_id = src;
  token = [];
  length = (length payload + 4) / 0x100;
  packet_number = (length payload + 4) % 0x100 * 0x100_0000 + number / 0x100;
}

abbrev pub IsLongType : QuicPacketType → Type 0
IsLongType type = (type ≢ one_rtt) × (type ≢ retry) × (type ≢ version_negotiation)

misread_header-IsLong :
    (first : ℕ) (type : QuicPacketType) (dest src : List ℕ) (number : ℕ) (payload : List ℕ)
    → first / 128 % 2 ≡ 1
    → type_of first 1 ≡ type
    → length dest < 256
    → length src < 256
    → length payload + 4 < 0x4000
    → number < u32_mod
    → IsLong first (misread_header type dest src number payload)
misread_header-IsLong first type dest src number payload form typed d s l n = record {
  form = form;
  typed = typed;
  version_fits = omega arith;
  dest_fits = d;
  src_fits = s;
  token_fits = omega arith;
  token_place = inr refl;
  length_fits = omega arith;
  number_fits = omega arith;
}

misread_tail :
    (number : ℕ) (payload : List ℕ)
    → length payload + 4 < 0x4000
    → number < u32_mod
    → let h = misread_header initial [] [] number payload in
      long_suffix (4 + length payload) number payload
      ≡ h.length ∷ (u32_bytes h.packet_number ++ ((number % 0x100) ∷ payload))
misread_tail number payload l n = ground arith

-- A long packet as bytes is the misread header printed, with one byte more than the payload.
packet-misread :
    (first : ℕ) (type : QuicPacketType) (dest src : List ℕ) (number : ℕ) (payload : List ℕ)
    → token_bytes type ≡ token_field type []
    → length dest < 256
    → length src < 256
    → length payload + 4 < 0x4000
    → number < u32_mod
    → first ∷ long_body type dest src number payload
      ≡ print_long first (misread_header type dest src number payload)
        ++ ((number % 0x100) ∷ payload)
unfolding print_long
packet-misread first type dest src number payload t d s l n =
    let small_dest : length dest % 0x100 ≡ length dest = omega arith in
    let small_src : length src % 0x100 ≡ length src = omega arith in
    simp append_assoc (rw (small_dest, small_src, t, misread_tail number payload l n) refl)

misread :
    (first : ℕ) (type : QuicPacketType) (dest src : List ℕ) (number : ℕ) (payload : List ℕ)
    → first / 128 % 2 ≡ 1
    → type_of first 1 ≡ type
    → token_bytes type ≡ token_field type []
    → packet type dest src number payload ≡ first ∷ long_body type dest src number payload
    → IsSendable type
    → length dest ≤ 43
    → length dest ≤ dest_room type
    → length src ≡ 8
    → length payload + 4 < 0x4000
    → number < u32_mod
    → (p : List ℕ) × (build_packet type dest src number payload ≡ built p)
      × (parse_packet p
          ≡ some (misread_header type dest src number payload, (number % 0x100) ∷ payload))
misread first type dest src number payload form typed t shape sendable small d s l n =
    let printed =
      packet-misread first type dest src number payload t (omega arith) (omega arith) l n in
    (
      packet type dest src number payload,
      build_packet-packet type dest src number payload sendable
          ∙ ground (arith, length-packet type dest src number payload sendable s),
      rw (shape, printed)
          (parse-print_long first (misread_header type dest src number payload)
            ((number % 0x100) ∷ payload)
            (misread_header-IsLong first type dest src number payload form typed (omega arith)
              (omega arith) l n)),
    )

-- No long packet that the proxy sends can be read back by its own parser, for a destination
-- identifier that fits, a source identifier of 8 bytes, a payload below 2^14 - 4 bytes and a 32-bit
-- packet number: the type, version and identifiers are read right, but the parser finds one byte
-- more of payload, the low byte of the packet number, and a packet number made of the low byte of
-- the length and the rest of the number.
pub parse-build_long :
    (type : QuicPacketType) (dest src : List ℕ) (number : ℕ) (payload : List ℕ)
    → IsLongType type
    → length dest ≤ dest_room type
    → length src ≡ 8
    → length payload + 4 < 0x4000
    → number < u32_mod
    → (p : List ℕ) × (build_packet type dest src number payload ≡ built p)
      × (parse_packet p
          ≡ some (misread_header type dest src number payload, (number % 0x100) ∷ payload))
unfolding packet type_of
parse-build_long one_rtt dest src number payload t d s l n = absurd (t.0 refl)
parse-build_long retry dest src number payload t d s l n = absurd (t.1 refl)
parse-build_long version_negotiation dest src number payload t d s l n = absurd (t.2 refl)
parse-build_long initial dest src number payload t d s l n =
    misread 0xC3 initial dest src number payload refl refl refl refl (t.1, t.2) (omega arith) d s l
      n
parse-build_long handshake dest src number payload t d s l n =
    misread 0xE3 handshake dest src number payload refl refl refl refl (t.1, t.2) (omega arith) d s
      l n
parse-build_long zero_rtt dest src number payload t d s l n =
    misread 0xD3 zero_rtt dest src number payload refl refl refl refl (t.1, t.2) (omega arith) d s l
      n
