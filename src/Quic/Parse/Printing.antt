-- ===== src/Quic/Parse/Printing.antt =====
-- The packets that `parse_packet` accepts, written out by an independent printer, in both directions.
use satellite_quic_proxy.Base.{
  none, refl, ℕ, ◌/◌, ◌%◌, ◌≤◌, ◌<◌, ◌≡◌, some, List, [], ◌∷◌, ◌++◌, append_assoc, arith, length,
  take_length-append, drop_length-append, length-append, u32_mod, ◌⊎◌,
}
use satellite_quic_proxy.Quic.Packet.{
  QuicPacketType, QuicPacketHeader, initial, handshake, zero_rtt, one_rtt, retry,
  version_negotiation, u32_bytes,
}
use satellite_quic_proxy.Quic.Parse.{
  read_u8, read_u32, read_bytes, read_short_length, read_token, type_of, parse_long, parse_short,
  parse_packet,
}

abbrev pub token_field : QuicPacketType → List ℕ → List ℕ
token_field initial token = length token ∷ token
token_field type token = []

pub parse_packet-nil : parse_packet [] ≡ none
unfolding parse_packet
parse_packet-nil = refl

-- A long header: version, both connection identifiers behind their lengths, the token of an initial
-- packet behind its length, the length of the payload in one byte, and the packet number.
unfoldable pub print_long : ℕ → QuicPacketHeader → List ℕ
print_long first h =
    first
    ∷ (u32_bytes h.version
        ++ (length h.dest_conn_id
            ∷ (h.dest_conn_id
                ++ (length h.src_conn_id
                    ∷ (h.src_conn_id
                        ++ (token_field h.type h.token
                            ++ (h.length ∷ u32_bytes h.packet_number)))))))

unfoldable pub print_short : ℕ → QuicPacketHeader → List ℕ
print_short first h = first ∷ (h.dest_conn_id ++ u32_bytes h.packet_number)

-- The headers that a long header with a given first byte can carry.
pub record IsLong (first : ℕ) (h : QuicPacketHeader) : Type 0 where
  pub form : first / 128 % 2 ≡ 1
  pub typed : type_of first h.version ≡ h.type
  pub version_fits : h.version < u32_mod
  pub dest_fits : length h.dest_conn_id < 256
  pub src_fits : length h.src_conn_id < 256
  pub token_fits : length h.token ≤ 63
  pub token_place : (h.type ≡ initial) ⊎ (h.token ≡ [])
  pub length_fits : h.length ≤ 63
  pub number_fits : h.packet_number < u32_mod

pub read_u32-print :
    (n : ℕ) (rest : List ℕ) → n < u32_mod → read_u32 (u32_bytes n ++ rest) ≡ some (n, rest)
unfolding read_u32
read_u32-print n rest h = ground arith

read_bytes-print : (xs rest : List ℕ) → read_bytes (length xs) (xs ++ rest) ≡ some (xs, rest)
unfolding read_bytes
read_bytes-print xs rest =
    ground (arith, length-append xs rest, take_length-append xs rest, drop_length-append xs rest)

read_short_length-print :
    (n : ℕ) (rest : List ℕ) → n ≤ 63 → read_short_length (n ∷ rest) ≡ some (n, rest)
unfolding read_short_length read_u8
read_short_length-print n rest h = ground arith

read_token-print :
    (type : QuicPacketType) (token rest : List ℕ)
    → length token ≤ 63
    → (type ≡ initial) ⊎ (token ≡ [])
    → read_token type (token_field type token ++ rest) ≡ some (token, rest)
unfolding read_token
read_token-print initial token rest h p =
    rw (read_short_length-print (length token) (token ++ rest) h) (read_bytes-print token rest)
read_token-print handshake token rest h p = ground arith
read_token-print zero_rtt token rest h p = ground arith
read_token-print one_rtt token rest h p = ground arith
read_token-print retry token rest h p = ground arith
read_token-print version_negotiation token rest h p = ground arith

-- The reads of `parse_long` one after the other, each from what the one before left.
parse_long-reads :
    (first : ℕ) (h : QuicPacketHeader) (payload d1 d3 d5 d6 d7 : List ℕ)
    → type_of first h.version ≡ h.type
    → (d0 : List ℕ) → read_u32 d0 ≡ some (h.version, length h.dest_conn_id ∷ d1)
    → read_bytes (length h.dest_conn_id) d1 ≡ some (h.dest_conn_id, length h.src_conn_id ∷ d3)
    → read_bytes (length h.src_conn_id) d3 ≡ some (h.src_conn_id, d5)
    → read_token h.type d5 ≡ some (h.token, d6)
    → read_short_length d6 ≡ some (h.length, d7)
    → read_u32 d7 ≡ some (h.packet_number, payload)
    → parse_long first d0 ≡ some (h, payload)
unfolding parse_long read_u8
parse_long-reads first h payload d1 d3 d5 d6 d7 t d0 e0 e1 e2 e3 e4 e5 = ground arith

-- Whatever header a long packet can carry, within the ranges of its fields, the parser reads it
-- back with the payload behind it.
pub parse-print_long :
    (first : ℕ) (h : QuicPacketHeader) (payload : List ℕ)
    → IsLong first h
    → parse_packet (print_long first h ++ payload) ≡ some (h, payload)
unfolding parse_packet print_long
parse-print_long first h payload p =
    let d7 = u32_bytes h.packet_number ++ payload in
    let d6 = h.length ∷ d7 in
    let d5 = token_field h.type h.token ++ d6 in
    let d3 = h.src_conn_id ++ d5 in
    let d1 = h.dest_conn_id ++ (length h.src_conn_id ∷ d3) in
    let body : parse_long first (u32_bytes h.version ++ (length h.dest_conn_id ∷ d1))
        ≡ some (h, payload) =
      parse_long-reads first h payload d1 d3 d5 d6 d7 p.typed _
        (read_u32-print h.version (length h.dest_conn_id ∷ d1) p.version_fits)
        (read_bytes-print h.dest_conn_id (length h.src_conn_id ∷ d3))
        (read_bytes-print h.src_conn_id d5)
        (read_token-print h.type h.token d6 p.token_fits p.token_place)
        (read_short_length-print h.length d7 p.length_fits)
        (read_u32-print h.packet_number payload p.number_fits) in
    simp append_assoc (ground (arith, body, p.form))

-- The headers that a short header can carry: a destination identifier of 8 bytes, a packet number,
-- and the length of the payload; the other fields stay empty.
pub record IsShort (first : ℕ) (h : QuicPacketHeader) (payload : List ℕ) : Type 0 where
  pub form : first / 128 % 2 ≡ 0
  pub typed : h.type ≡ one_rtt
  pub no_version : h.version ≡ 0
  pub dest_size : length h.dest_conn_id ≡ 8
  pub no_src : h.src_conn_id ≡ []
  pub no_token : h.token ≡ []
  pub rest_length : h.length ≡ length payload
  pub number_fits : h.packet_number < u32_mod

-- Whatever identifier of 8 bytes, 32-bit packet number and payload a short packet carries, the
-- parser reads them back, with the length field as the size of the payload.
pub parse-print_short :
    (first : ℕ) (h : QuicPacketHeader) (payload : List ℕ)
    → IsShort first h payload
    → parse_packet (print_short first h ++ payload) ≡ some (h, payload)
unfolding parse_packet print_short parse_short
parse-print_short first h payload p =
    let read_dest : read_bytes 8 (h.dest_conn_id ++ (u32_bytes h.packet_number ++ payload))
        ≡ some (h.dest_conn_id, u32_bytes h.packet_number ++ payload) =
      rw (← p.dest_size) (read_bytes-print h.dest_conn_id (u32_bytes h.packet_number ++ payload)) in
    let read_number = read_u32-print h.packet_number payload p.number_fits in
    simp append_assoc (
      ground (
        arith,
        read_dest,
        read_number,
        length-append h.dest_conn_id (u32_bytes h.packet_number ++ payload),
        p,
      ))
