-- ===== src/Quic/Parse.antt =====
-- SatelliteQUICProxy/proxy/src/quic_handler.cpp: QUICHandler::parsePacket.
-- The bytes from `data + offset` on are a list, so that `offset + n > length` reads as fewer than `n`
-- bytes left. `none` is the result false; the header is then left alone by every caller.
mod Tests
pub mod Printing
pub mod Consumption
use satellite_quic_proxy.Base.{
  ℕ, suc, ◌+◌, ◌-◌, ◌*◌, ◌/◌, ◌%◌, Bool, true, false, Option, none, some, List, [], ◌∷◌, length,
  take, drop, ltb, leb, ◌==◌, if◌then◌else◌,
}
use satellite_quic_proxy.Quic.Packet.{
  QuicPacketType, QuicPacketHeader, initial, handshake, zero_rtt, one_rtt, retry,
  version_negotiation, from_bytes,
}

infixl 5 ◌>>=◌
abbrev pub ◌>>=◌ {ℓ κ} : {A : Type ℓ} {B : Type κ} → Option A → (A → Option B) → Option B
none >>= f = none
some a >>= f = f a

-- `data[offset++]`, behind its check.
unfoldable pub read_u8 : List ℕ → Option (ℕ × List ℕ)
read_u8 [] = none
read_u8 (b ∷ rest) = some (b, rest)

unfoldable pub read_u32 : List ℕ → Option (ℕ × List ℕ)
read_u32 (a ∷ b ∷ c ∷ d ∷ rest) = some (from_bytes a b c d, rest)
read_u32 rest = none

-- `assign(data + offset, data + offset + n)`, behind its check.
unfoldable pub read_bytes : ℕ → List ℕ → Option (List ℕ × List ℕ)
read_bytes n rest = if ltb (length rest) n then none else some (take n rest, drop n rest)

-- The one-byte form of a variable-length integer; longer forms are refused.
unfoldable pub read_short_length : List ℕ → Option (ℕ × List ℕ)
read_short_length rest = do (n, rest') ← read_u8 rest; if ltb 0x3F n then none else some (n, rest')

-- Bits 5 and 4 of the first byte.
pub long_type : ℕ → QuicPacketType
long_type bits =
    if bits == 0
    then initial
    else if bits == 1
    then zero_rtt
    else if bits == 2
    then handshake
    else retry

-- A version of 0 makes the packet a version negotiation.
unfoldable pub type_of : ℕ → ℕ → QuicPacketType
unfolding long_type
type_of first version = if version == 0 then version_negotiation else long_type (first / 16 % 4)

-- Only an initial packet has a token.
unfoldable pub read_token : QuicPacketType → List ℕ → Option (List ℕ × List ℕ)
read_token initial rest = do (n, rest') ← read_short_length rest; read_bytes n rest'
read_token type rest = some ([], rest)

unfoldable pub parse_long : ℕ → List ℕ → Option (QuicPacketHeader × List ℕ)
parse_long first data0 = do
  (version, data1) ← read_u32 data0
  (dest_len, data2) ← read_u8 data1
  (dest, data3) ← read_bytes dest_len data2
  (src_len, data4) ← read_u8 data3
  (src, data5) ← read_bytes src_len data4
  (token, data6) ← read_token (type_of first version) data5
  (payload_len, data7) ← read_short_length data6
  (number, payload) ← read_u32 data7
  some (
    record {
      type = type_of first version;
      version = version;
      dest_conn_id = dest;
      src_conn_id = src;
      token = token;
      length = payload_len;
      packet_number = number;
    },
    payload,
  )

-- The fields that a short header does not set keep their value; the caller's header starts empty.
unfoldable pub parse_short : List ℕ → Option (QuicPacketHeader × List ℕ)
parse_short data0 = do
  (dest, data1) ← read_bytes 8 data0
  (number, payload) ← read_u32 data1
  some (
    record {
      type = one_rtt;
      version = 0;
      dest_conn_id = dest;
      src_conn_id = [];
      token = [];
      length = length payload;
      packet_number = number;
    },
    payload,
  )

-- The most significant bit tells a long header from a short one.
unfoldable pub parse_packet : List ℕ → Option (QuicPacketHeader × List ℕ)
parse_packet [] = none
parse_packet (first ∷ rest) =
    if ltb (length (first ∷ rest)) 4
    then none
    else if first / 128 % 2 == 1
    then parse_long first rest
    else parse_short rest
