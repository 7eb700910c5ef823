-- ===== src/Fpga/PacketUnit/Tests.antt =====
-- Examples of simulated frames.
use satellite_quic_proxy.Base.{ℕ, ◌≡◌, ◌⊎◌, refl, some, [], ◌∷◌, arith}
use satellite_quic_proxy.Fpga.PacketUnit.{frame}
use satellite_quic_proxy.Fpga.PacketUnit.Frames.{parse-frame}
use satellite_quic_proxy.Quic.Packet.{QuicPacketHeader, initial, version_negotiation}
use satellite_quic_proxy.Quic.Parse.{
  parse_packet, parse_long, read_u8, read_u32, read_bytes, read_token, read_short_length, type_of,
}

abbrev connection : ℕ
connection = 5

abbrev number : ℕ
number = 7

-- A frame of connection 0 and packet number 7, as the parser of the proxy reads it.
abbrev misread : QuicPacketHeader
misread = record {
  type = version_negotiation;
  version = 0;
  dest_conn_id = [];
  src_conn_id = [];
  token = [];
  length = 0;
  packet_number = 0x7_0000;
}

parse_frame : parse_packet (frame 0 7 (1 ∷ 2 ∷ [])) ≡ some (misread, 0 ∷ 8 ∷ 0 ∷ 2 ∷ 0 ∷ 1 ∷ 2 ∷ [])
unfolding frame parse_packet parse_long read_u8 read_u32 read_bytes read_token read_short_length
    type_of
parse_frame = refl

parse-frame_example : (misread.type ≡ initial) ⊎ (misread.type ≡ version_negotiation)
parse-frame_example =
    parse-frame 0 7 (1 ∷ 2 ∷ []) misread (0 ∷ 8 ∷ 0 ∷ 2 ∷ 0 ∷ 1 ∷ 2 ∷ []) (omega arith) parse_frame
