-- ===== src/Quic/Parse/Tests.antt =====
-- Examples of packets: a Handshake packet and a 1-RTT packet as bytes.
use satellite_quic_proxy.Base.{ℕ, ◌≡◌, refl, inr, some, List, [], ◌∷◌, ◌++◌, arith}
use satellite_quic_proxy.Quic.Packet.{QuicPacketHeader, handshake, one_rtt}
use satellite_quic_proxy.Quic.Parse.{
  parse_packet, parse_long, parse_short, read_u8, read_u32, read_bytes, read_token,
  read_short_length, type_of,
}
use satellite_quic_proxy.Quic.Parse.Printing.{print_long, IsLong, parse-print_long}
use satellite_quic_proxy.Quic.Parse.Consumption.{parse_packet-IsLong}

abbrev long_header : QuicPacketHeader
long_header = record {
  type = handshake;
  version = 1;
  dest_conn_id = 0xAA ∷ 0xBB ∷ [];
  src_conn_id = 0xCC ∷ [];
  token = [];
  length = 6;
  packet_number = 258;
}

abbrev payload : List ℕ
payload = 1 ∷ 2 ∷ []

long_header-IsLong : IsLong 0xE0 long_header
unfolding type_of
long_header-IsLong = record {
  form = refl;
  typed = refl;
  version_fits = omega arith;
  dest_fits = omega arith;
  src_fits = omega arith;
  token_fits = omega arith;
  token_place = inr refl;
  length_fits = omega arith;
  number_fits = omega arith;
}

parse-print_long_example :
    parse_packet (print_long 0xE0 long_header ++ payload) ≡ some (long_header, payload)
parse-print_long_example = parse-print_long 0xE0 long_header payload long_header-IsLong

abbrev long_body : List ℕ
long_body = 0 ∷ 0 ∷ 0 ∷ 1 ∷ 2 ∷ 0xAA ∷ 0xBB ∷ 1 ∷ 0xCC ∷ 6 ∷ 0 ∷ 0 ∷ 1 ∷ 2 ∷ 1 ∷ 2 ∷ []

parse_long_body : parse_packet (0xE0 ∷ long_body) ≡ some (long_header, payload)
unfolding parse_packet parse_long read_u8 read_u32 read_bytes read_token read_short_length type_of
parse_long_body = refl

parse_packet-IsLong_example :
    (0xE0 ∷ long_body ≡ print_long 0xE0 long_header ++ payload) × IsLong 0xE0 long_header
parse_packet-IsLong_example =
    parse_packet-IsLong 0xE0 long_body long_header payload (omega arith) refl parse_long_body

abbrev short_header : QuicPacketHeader
short_header = record {
  type = one_rtt;
  version = 0;
  dest_conn_id = 1 ∷ 2 ∷ 3 ∷ 4 ∷ 5 ∷ 6 ∷ 7 ∷ 8 ∷ [];
  src_conn_id = [];
  token = [];
  length = 2;
  packet_number = 9;
}

abbrev short_body : List ℕ
short_body = 1 ∷ 2 ∷ 3 ∷ 4 ∷ 5 ∷ 6 ∷ 7 ∷ 8 ∷ 0 ∷ 0 ∷ 0 ∷ 9 ∷ 1 ∷ 2 ∷ []

parse_short_body : parse_packet (0x40 ∷ short_body) ≡ some (short_header, payload)
unfolding parse_packet parse_short read_u32 read_bytes
parse_short_body = refl
