-- ===== src/Fpga/PacketUnit/Frames.antt =====
-- What the simulated frames say, and how the proxy's own parser would read them.
use satellite_quic_proxy.Base.{
  ℕ, ◌%◌, ◌<◌, ◌≡◌, ◌⊎◌, inl, inr, refl, some, List, ◌∷◌, ◌++◌, arith, length, u32_mod, u64_mod,
  All, IsByte, All-append, Bool-cases, ◌==◌, ◌∙◌, sym,
}
use satellite_quic_proxy.Quic.Packet.{QuicPacketHeader, initial, version_negotiation}
use satellite_quic_proxy.Quic.Parse.{parse_packet, type_of}
use satellite_quic_proxy.Quic.Parse.Consumption.{parse_packet-IsLong}
use satellite_quic_proxy.Fpga.PacketUnit.{frame, le16, le32, le64}

-- A frame tells the connection, the packet number and the payload: for 64-bit connections and
-- 32-bit packet numbers, two frames are the same bytes only for the same three.
pub frame-injective :
    (c c' n n' : ℕ) (xs ys : List ℕ)
    → c < u64_mod
    → c' < u64_mod
    → n < u32_mod
    → n' < u32_mod
    → frame c n xs ≡ frame c' n' ys
    → (c ≡ c') × (n ≡ n') × (xs ≡ ys)
unfolding frame
frame-injective c c' n n' xs ys hc hc' hn hn' e = ground arith

first_type :
    (version : ℕ) → (type_of 0xC0 version ≡ initial) ⊎ (type_of 0xC0 version ≡ version_negotiation)
unfolding type_of
first_type version = elim (Bool-cases (version == 0)) [
  | inl z ↦ inr (ground arith)
  | inr z ↦ inl (ground arith)
]

frame_tail-IsByte :
    (c n : ℕ) (input : List ℕ)
    → All IsByte input
    → All IsByte (le64 c ++ (le32 n ++ (0x08 ∷ 0x00 ∷ (le16 (length input % 0x1_0000) ++ input))))
frame_tail-IsByte c n input b =
    All-append IsByte (le64 c ++ (le32 n ++ (0x08 ∷ 0x00 ∷ le16 (length input % 0x1_0000)))) input
      (omega arith) b

-- The first byte 0xC0 of a frame makes a long header: the parser takes the simulated frame of a
-- payload of bytes, which is meant as a 1-RTT packet, for an initial packet or a version
-- negotiation, or refuses it.
pub parse-frame :
    (c n : ℕ) (input : List ℕ) (h : QuicPacketHeader) (payload : List ℕ)
    → All IsByte input
    → parse_packet (frame c n input) ≡ some (h, payload)
    → (h.type ≡ initial) ⊎ (h.type ≡ version_negotiation)
unfolding frame
parse-frame c n input h payload b e =
    let long = (parse_packet-IsLong 0xC0 _ h payload (frame_tail-IsByte c n input b) refl e).1 in
    elim (first_type h.version) [
      | inl i ↦ inl (sym long.typed ∙ i)
      | inr v ↦ inr (sym long.typed ∙ v)
    ]
