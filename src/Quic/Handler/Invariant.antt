-- ===== src/Quic/Handler/Invariant.antt =====
-- What every incoming packet keeps true of a handler, and where it makes the handler fail.
use satellite_quic_proxy.Base.{
  Bool, ℕ, ◌+◌, ◌%◌, ◌<◌, ◌≤◌, ◌≡◌, ◌≢◌, refl, Option, none, some, List, [], ◌∷◌, ◌++◌, All, length,
  length-append, u32_mod, u64_mod, arith,
}
use satellite_quic_proxy.Fpga.PacketUnit.{PacketUnit}
use satellite_quic_proxy.Quic.Handler.Retransmission.{HasDistinctNumbers, retransmit-resend}
use satellite_quic_proxy.Quic.Handler.{
  new, QuicHandler, PacketInfo, acknowledge, process_ack, due, touch, transmit, remember, resend,
  retransmit, retransmit_all, check_for_retransmissions,
}

-- The numbers of the packets are k, k + 1, ... on 32 bits, and `next` is the one behind the last.
unfoldable pub IsNumbered : ℕ → List PacketInfo → ℕ → Type 0
IsNumbered k [] next = next ≡ k % u32_mod
IsNumbered k (p ∷ ps) next = (p.packet_number ≡ k % u32_mod) × IsNumbered (k + 1) ps next

unfoldable pub total_length : List (List ℕ) → ℕ
total_length [] = 0
total_length (d ∷ ds) = length d + total_length ds

-- The packets sent are numbered from 0 on, the identifier of the handler has 8 bytes, and the
-- statistics count the datagrams and their bytes on 64 bits.
abbrev pub IsValid : QuicHandler → Type 0
IsValid h =
    IsNumbered 0 h.sent_packets h.next_packet_number
    × (length h.src_conn_id ≡ 8)
    × (h.packets_sent ≡ length h.datagrams % u64_mod)
    × (h.bytes_sent ≡ total_length h.datagrams % u64_mod)

pub new-IsValid :
    (acceleration : Bool) (random : List ℕ) (now : ℕ)
    → length random ≡ 8
    → IsValid (new acceleration random now)
unfolding new IsNumbered total_length
new-IsValid acceleration random now eight = (refl, eight, refl, refl)

IsNumbered-append :
    (k : ℕ) (ps : List PacketInfo) (next : ℕ) (p : PacketInfo)
    → IsNumbered k ps next
    → p.packet_number ≡ next
    → IsNumbered k (ps ++ (p ∷ [])) ((next + 1) % u32_mod)
unfolding IsNumbered
IsNumbered-append k [] next p v e = omega arith
IsNumbered-append k (q ∷ ps) next p v e = (v.0, IsNumbered-append (k + 1) ps next p v.1 e)

IsNumbered-acknowledge :
    (k n : ℕ) (ps : List PacketInfo) (next : ℕ)
    → IsNumbered k ps next
    → IsNumbered k (acknowledge n ps) next
unfolding IsNumbered acknowledge
IsNumbered-acknowledge k n [] next v = v
IsNumbered-acknowledge k n (p ∷ ps) next v =
    ground (arith, IsNumbered-acknowledge (k + 1) n ps next v.1)

IsNumbered-touch :
    (k now n : ℕ) (ps : List PacketInfo) (next : ℕ)
    → IsNumbered k ps next
    → IsNumbered k (touch now n ps) next
unfolding IsNumbered touch
IsNumbered-touch k now n [] next v = v
IsNumbered-touch k now n (p ∷ ps) next v =
    ground (arith, IsNumbered-touch (k + 1) now n ps next v.1)

total_length-append :
    (ds es : List (List ℕ)) → total_length (ds ++ es) ≡ total_length ds + total_length es
unfolding total_length
total_length-append [] es = omega arith
total_length-append (d ∷ ds) es = omega (arith, total_length-append ds es)

pub transmit-IsValid : (p : List ℕ) (h : QuicHandler) → IsValid h → IsValid (transmit p h)
unfolding transmit total_length
transmit-IsValid p h (numbers, src, packets, bytes) = (
  numbers,
  src,
  omega (arith, length-append h.datagrams (p ∷ [])),
  omega (arith, total_length-append h.datagrams (p ∷ [])),
)

pub remember-IsValid :
    (now : ℕ) (p : List ℕ) (h : QuicHandler) → IsValid h → IsValid (remember now p h)
unfolding remember
remember-IsValid now p h (numbers, src, packets, bytes) =
    (IsNumbered-append 0 h.sent_packets h.next_packet_number _ numbers refl, src, packets, bytes)

with_sent-IsValid :
    (ps : List PacketInfo) (h : QuicHandler)
    → IsNumbered 0 ps h.next_packet_number
    → IsValid h
    → IsValid (record h { sent_packets = ps })
with_sent-IsValid ps h numbers (old, src, packets, bytes) = (numbers, src, packets, bytes)

pub process_ack-IsValid :
    (o : Option (ℕ × List ℕ)) (h : QuicHandler) → IsValid h → IsValid (process_ack o h)
unfolding process_ack
process_ack-IsValid none h v = v
process_ack-IsValid (some (n, rest)) h v =
    with_sent-IsValid (acknowledge n h.sent_packets) h
      (IsNumbered-acknowledge 0 n h.sent_packets h.next_packet_number v.0) v

resend-IsValid : (now n : ℕ) (p : List ℕ) (h : QuicHandler) → IsValid h → IsValid (resend now n p h)
unfolding resend
resend-IsValid now n p h v =
    let v' = transmit-IsValid p h v in
    let h' = transmit p h in
    with_sent-IsValid (touch now n h'.sent_packets) h'
      (IsNumbered-touch 0 now n h'.sent_packets h'.next_packet_number v'.0) v'

retransmit_all-IsValid :
    (unit : PacketUnit) (now : ℕ) (ps : List PacketInfo) (h : QuicHandler)
    → IsValid h
    → IsValid (retransmit_all unit now ps h)
unfolding retransmit_all
retransmit_all-IsValid unit now [] h v = v
retransmit_all-IsValid unit now (p ∷ ps) h v =
    retransmit_all-IsValid unit now ps (retransmit unit now p h)
      (rw (retransmit-resend unit now p h) (resend-IsValid now p.packet_number p.packet_data h v))

pub check_for_retransmissions-IsValid :
    (unit : PacketUnit) (now : ℕ) (h : QuicHandler)
    → IsValid h
    → IsValid (check_for_retransmissions unit now h)
unfolding check_for_retransmissions
check_for_retransmissions-IsValid unit now h v =
    retransmit_all-IsValid unit now (due now h.sent_packets) h v

IsNumbered-apart :
    (j k : ℕ) (ps : List PacketInfo) (next n : ℕ)
    → IsNumbered k ps next
    → n ≡ j % u32_mod
    → j < k
    → k + length ps ≤ j + u32_mod
    → All (λ q. q.packet_number ≢ n) ps
unfolding IsNumbered
IsNumbered-apart j k [] next n v e lo hi = tt
IsNumbered-apart j k (p ∷ ps) next n v e lo hi =
    (λ same. omega arith, IsNumbered-apart j (k + 1) ps next n v.1 e (omega arith) (omega arith))

-- Packets that are numbered one after the other have distinct numbers, up to 2^32 of them.
pub IsNumbered-HasDistinctNumbers :
    (k : ℕ) (ps : List PacketInfo) (next : ℕ)
    → IsNumbered k ps next
    → length ps ≤ u32_mod
    → HasDistinctNumbers ps
unfolding IsNumbered HasDistinctNumbers
IsNumbered-HasDistinctNumbers k [] next v few = tt
IsNumbered-HasDistinctNumbers k (p ∷ ps) next v few = (
  IsNumbered-apart k (k + 1) ps next p.packet_number v.1 v.0 (omega arith) (omega arith),
  IsNumbered-HasDistinctNumbers (k + 1) ps next v.1 (omega arith),
)
