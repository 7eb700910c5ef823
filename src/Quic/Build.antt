-- ===== src/Quic/Build.antt =====
-- SatelliteQUICProxy/proxy/src/quic_handler.cpp: the software path of QUICHandler::sendPacket, up to
-- the bytes handed to sendto. The vector `packetData` is allocated with 64 bytes more than the
-- payload, and written through an offset; a write past its end is a fault, which C++ leaves
-- undefined.
mod Tests
pub mod Writes
pub mod Layout
pub mod Room
pub mod RoundTrip
use satellite_quic_proxy.Base.{
  ℕ, zero, suc, ◌+◌, ◌-◌, ◌/◌, ◌%◌, Bool, true, false, List, [], ◌∷◌, ◌++◌, length, set, take,
  replicate, ltb, if◌then◌else◌,
}
use satellite_quic_proxy.Quic.Packet.{
  QuicPacketType, initial, handshake, zero_rtt, one_rtt, retry, version_negotiation, quic_version_1,
}

pub data Built {ℓ} (A : Type ℓ) : Type ℓ where
  built : A → Built A
  unsupported : Built A
  fault : Built A

infixl 5 ◌>>=◌
abbrev pub ◌>>=◌ {ℓ κ} : {A : Type ℓ} {B : Type κ} → Built A → (A → Built B) → Built B
built a >>= f = f a
unsupported >>= f = unsupported
fault >>= f = fault

-- `packetData` and `offset`.
pub record Writer : Type 0 where
  pub buffer : List ℕ
  pub offset : ℕ

-- `packetData[offset++] = b`
pub put : ℕ → Writer → Built Writer
put b w =
    if ltb w.offset (length w.buffer)
    then built (record { buffer = set w.buffer w.offset b; offset = w.offset + 1 })
    else fault

-- `std::copy` of a range to the offset, and the step of the offset over it.
pub copy : List ℕ → Writer → Built Writer
copy [] w = built w
copy (b ∷ bs) w = put b w >>= copy bs

-- The switch on the packet type.
pub put_first : QuicPacketType → Writer → Built Writer
put_first initial w = put 0xC3 w
put_first handshake w = put 0xE3 w
put_first zero_rtt w = put 0xD3 w
put_first one_rtt w = put 0x40 w
put_first retry w = unsupported
put_first version_negotiation w = unsupported

-- Four bytes, the most significant first.
pub put_u32 : ℕ → Writer → Built Writer
put_u32 n w = do
  w1 ← put (n / 0x100_0000 % 0x100) w
  w2 ← put (n / 0x1_0000 % 0x100) w1
  w3 ← put (n / 0x100 % 0x100) w2
  put (n % 0x100) w3

pub put_token : QuicPacketType → Writer → Built Writer
put_token initial w = put 0 w
put_token type w = built w

-- `packetData[lengthOffset] = ...`, in a range that is written already.
abbrev fill_length : ℕ → ℕ → List ℕ → List ℕ
fill_length at n buffer = set (set buffer at (n / 0x100 % 0x100)) (at + 1) (n % 0x100)

pub build_long : QuicPacketType → List ℕ → List ℕ → ℕ → List ℕ → Writer → Built (List ℕ)
build_long type dest src number payload w0 = do
  w1 ← put_u32 quic_version_1 w0
  w2 ← put (length dest % 0x100) w1
  w3 ← copy dest w2
  w4 ← put (length src % 0x100) w3
  w5 ← copy src w4
  w6 ← put_token type w5
  w7 ← put 0 w6
  w8 ← put 0 w7
  w9 ← put_u32 number w8
  w10 ← copy payload w9
  built (take w10.offset (fill_length w6.offset (w10.offset - w6.offset - 2) w10.buffer))

pub build_short : List ℕ → ℕ → List ℕ → Writer → Built (List ℕ)
build_short dest number payload w0 = do
  w1 ← copy dest w0
  w2 ← put_u32 number w1
  w3 ← copy payload w2
  built (take w3.offset w3.buffer)

pub build_rest : QuicPacketType → List ℕ → List ℕ → ℕ → List ℕ → Writer → Built (List ℕ)
build_rest one_rtt dest src number payload w = build_short dest number payload w
build_rest type dest src number payload w = build_long type dest src number payload w

pub fresh : ℕ → Writer
fresh n = record { buffer = replicate n 0; offset = 0 }

-- The packet of a type with the destination and source identifiers, the packet number and a payload.
pub build_packet : QuicPacketType → List ℕ → List ℕ → ℕ → List ℕ → Built (List ℕ)
build_packet type dest src number payload =
    put_first type (fresh (length payload + 64)) >>= build_rest type dest src number payload
