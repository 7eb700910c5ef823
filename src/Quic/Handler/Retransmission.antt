-- ===== src/Quic/Handler/Retransmission.antt =====
-- What a check for retransmissions sends: the accelerator has no part in it.
use satellite_quic_proxy.Base.{
  ℕ, ◌≡◌, refl, sym, ◌∙◌, ap, false, List, [], ◌∷◌, ◌++◌, map, All, ◌≢◌, if◌then◌else◌, Bool-cases,
  inl, inr, append-nil, append_assoc, arith,
}
use satellite_quic_proxy.Fpga.Operation.{packet_retransmission}
use satellite_quic_proxy.Fpga.PacketUnit.{PacketUnit}
use satellite_quic_proxy.Quic.Handler.{
  QuicHandler, PacketInfo, due, transmit, touch, resend, is_due, retransmit, retransmit_all,
  check_for_retransmissions,
}

-- Every resent packet is the stored one: the accelerator gets no input and refuses it.
pub retransmit-resend :
    (unit : PacketUnit) (now : ℕ) (p : PacketInfo) (h : QuicHandler)
    → retransmit unit now p h ≡ resend now p.packet_number p.packet_data h
unfolding retransmit
retransmit-resend unit now p h =
    let refused =
      unit.rejects_empty packet_retransmission h.connection_id p.packet_number
        (λ e. ground arith) in
    ground arith

resend-datagrams :
    (now n : ℕ) (p : List ℕ) (h : QuicHandler)
    → (resend now n p h).datagrams ≡ h.datagrams ++ (p ∷ [])
unfolding resend transmit
resend-datagrams now n p h = refl

retransmit_all-datagrams :
    (unit : PacketUnit) (now : ℕ) (ps : List PacketInfo) (h : QuicHandler)
    → (retransmit_all unit now ps h).datagrams ≡ h.datagrams ++ map (λ p. p.packet_data) ps
unfolding retransmit_all
retransmit_all-datagrams unit now [] h = sym (append-nil h.datagrams)
retransmit_all-datagrams unit now (p ∷ ps) h =
    retransmit_all-datagrams unit now ps (retransmit unit now p h)
    ∙ rw (retransmit-resend unit now p h, resend-datagrams now p.packet_number p.packet_data h)
        (append_assoc h.datagrams (p.packet_data ∷ []) (map (λ q. q.packet_data) ps))

-- Whatever the accelerator and its setting, a check for retransmissions sends the stored bytes of the
-- packets that are due, each once, in the order in which they were first sent, and nothing else.
pub check-sends_due :
    (unit : PacketUnit) (now : ℕ) (h : QuicHandler)
    → (check_for_retransmissions unit now h).datagrams
      ≡ h.datagrams ++ map (λ p. p.packet_data) (due now h.sent_packets)
unfolding check_for_retransmissions
check-sends_due unit now h = retransmit_all-datagrams unit now (due now h.sent_packets) h

-- No two packets of the list have one number.
unfoldable pub HasDistinctNumbers : List PacketInfo → Type 0
HasDistinctNumbers [] = Unit
HasDistinctNumbers (p ∷ ps) =
    All (λ q. q.packet_number ≢ p.packet_number) ps × HasDistinctNumbers ps

-- The packets after a check at a time: those that were due have it as their time of sending.
unfoldable pub refreshed : ℕ → List PacketInfo → List PacketInfo
refreshed now [] = []
refreshed now (p ∷ ps) =
    (if is_due now p then record p { sent_time = now } else p) ∷ refreshed now ps

touch_all : ℕ → List PacketInfo → List PacketInfo → List PacketInfo
touch_all now [] s = s
touch_all now (p ∷ ps) s = touch_all now ps (touch now p.packet_number s)

touch-other :
    (now n : ℕ) (p : PacketInfo) (s : List PacketInfo)
    → p.packet_number ≢ n
    → touch now n (p ∷ s) ≡ p ∷ touch now n s
unfolding touch
touch-other now n p s h = ground arith

touch-same :
    (now : ℕ) (p : PacketInfo) (s : List PacketInfo)
    → touch now p.packet_number (p ∷ s) ≡ record p { sent_time = now } ∷ s
unfolding touch
touch-same now p s = ground arith

touch_all-skip :
    (now : ℕ) (p : PacketInfo) (ps s : List PacketInfo)
    → All (λ q. q.packet_number ≢ p.packet_number) ps
    → touch_all now ps (p ∷ s) ≡ p ∷ touch_all now ps s
unfolding touch_all touch
touch_all-skip now p [] s h = refl
touch_all-skip now p (q ∷ ps) s h =
    let rest = touch_all-skip now p ps (touch now q.packet_number s) h.1 in
    let apart = h.0 in rw (touch-other now q.packet_number p s (λ e. apart (sym e)), rest) refl

pub due-All :
    (P : PacketInfo → Type 0) (now : ℕ) (ps : List PacketInfo) → All P ps → All P (due now ps)
unfolding due
due-All P now [] h = h
due-All P now (p ∷ ps) h = elim (Bool-cases (is_due now p)) [
  | inl is ↦ rw is (h.0, due-All P now ps h.1)
  | inr e ↦ rw e (due-All P now ps h.1)
]

touch_all-refreshed :
    (now : ℕ) (s : List PacketInfo)
    → HasDistinctNumbers s
    → touch_all now (due now s) s ≡ refreshed now s
unfolding touch_all due HasDistinctNumbers refreshed
touch_all-refreshed now [] h = refl
touch_all-refreshed now (p ∷ ps) h =
    let rest = touch_all-refreshed now ps h.1 in
    let apart = due-All (λ q. q.packet_number ≢ p.packet_number) now ps h.0 in
    elim (Bool-cases (is_due now p)) [
      | inl is ↦
          rw
            (
              is,
              if◌then◌else◌,
              touch_all,
              touch-same now p ps,
              touch_all-skip now (record p { sent_time = now }) (due now ps) ps apart,
              rest,
            )
            refl
      | inr e ↦ rw (e, touch_all-skip now p (due now ps) ps apart, rest) refl
    ]

resend-touch :
    (now n : ℕ) (p : List ℕ) (h : QuicHandler)
    → (resend now n p h).sent_packets ≡ touch now n h.sent_packets
unfolding resend transmit
resend-touch now n p h = refl

retransmit_all-touch_all :
    (unit : PacketUnit) (now : ℕ) (ps : List PacketInfo) (h : QuicHandler)
    → (retransmit_all unit now ps h).sent_packets ≡ touch_all now ps h.sent_packets
unfolding retransmit_all touch_all
retransmit_all-touch_all unit now [] h = refl
retransmit_all-touch_all unit now (p ∷ ps) h =
    retransmit_all-touch_all unit now ps (retransmit unit now p h)
    ∙ ap (λ g. touch_all now ps g.sent_packets) (retransmit-resend unit now p h)
    ∙ ap (touch_all now ps) (resend-touch now p.packet_number p.packet_data h)

-- Where no two sent packets have one number, a check changes the times of sending of just the packets
-- that were due, which become the time of the check.
pub check-refreshes :
    (unit : PacketUnit) (now : ℕ) (h : QuicHandler)
    → HasDistinctNumbers h.sent_packets
    → (check_for_retransmissions unit now h).sent_packets ≡ refreshed now h.sent_packets
unfolding check_for_retransmissions
check-refreshes unit now h distinct =
    retransmit_all-touch_all unit now (due now h.sent_packets) h
    ∙ touch_all-refreshed now h.sent_packets distinct

is_due-now : (now : ℕ) (p : PacketInfo) → is_due now (record p { sent_time = now }) ≡ false
unfolding is_due
is_due-now now p = ground arith

due-refreshed : (now : ℕ) (s : List PacketInfo) → due now (refreshed now s) ≡ []
unfolding due refreshed
due-refreshed now [] = refl
due-refreshed now (p ∷ ps) =
    let rest = due-refreshed now ps in
    elim (Bool-cases (is_due now p)) [
      | inl is ↦ rw (is, is_due-now now p, rest) refl
      | inr e ↦ rw (e, e, rest) refl
    ]

-- Where no two sent packets have one number, a second check at the same time sends nothing.
pub check_twice :
    (unit : PacketUnit) (now : ℕ) (h : QuicHandler)
    → HasDistinctNumbers h.sent_packets
    → (check_for_retransmissions unit now (check_for_retransmissions unit now h)).datagrams
      ≡ (check_for_retransmissions unit now h).datagrams
check_twice unit now h distinct =
    check-sends_due unit now (check_for_retransmissions unit now h)
    ∙ rw (check-refreshes unit now h distinct, due-refreshed now h.sent_packets)
        (append-nil (check_for_retransmissions unit now h).datagrams)
