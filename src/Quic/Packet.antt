-- ===== src/Quic/Packet.antt =====
-- SatelliteQUICProxy/proxy/src/quic_handler.{h,cpp}: packet types, headers, and numbers as bytes.
use satellite_quic_proxy.Base.{ℕ, ◌+◌, ◌*◌, ◌/◌, ◌%◌, List, [], ◌∷◌}

pub data QuicPacketType : Type 0 where
  initial handshake zero_rtt one_rtt retry version_negotiation : QuicPacketType

pub record QuicPacketHeader : Type 0 where
  pub type : QuicPacketType
  pub version : ℕ
  pub dest_conn_id : List ℕ
  pub src_conn_id : List ℕ
  pub token : List ℕ
  pub length : ℕ
  pub packet_number : ℕ

abbrev pub quic_version_1 : ℕ
quic_version_1 = 1

-- `(a << 24) | (b << 16) | (c << 8) | d` on bytes: their places are disjoint, so the sum is the same.
abbrev pub from_bytes : ℕ → ℕ → ℕ → ℕ → ℕ
from_bytes a b c d = a * 0x100_0000 + b * 0x1_0000 + c * 0x100 + d

-- The four bytes `(n >> 24) & 0xFF`, ..., `n & 0xFF`.
abbrev pub u32_bytes : ℕ → List ℕ
u32_bytes n =
    (n / 0x100_0000 % 0x100) ∷ (n / 0x1_0000 % 0x100) ∷ (n / 0x100 % 0x100) ∷ (n % 0x100) ∷ []
