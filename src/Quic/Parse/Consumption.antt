-- ===== src/Quic/Parse/Consumption.antt =====
-- What a packet that `parse_packet` accepts looks like: every byte of it is accounted for.
use mathlib.Core.Option.{some-injective}
use satellite_quic_proxy.Base.{
  ℕ, ◌/◌, ◌%◌, ◌≤◌, ◌<◌, ◌≡◌, refl, sym, ap, ◌∙◌, Option, none, some, List, [], ◌∷◌, ◌++◌,
  append_assoc, arith, length, take, drop, u32_mod, IsByte, All, inl, inr, ◌⊎◌, length-take,
  take-append-drop, All-drop, subst,
}
use satellite_quic_proxy.Quic.Packet.{
  QuicPacketType, QuicPacketHeader, initial, handshake, zero_rtt, one_rtt, retry,
  version_negotiation, u32_bytes,
}
use satellite_quic_proxy.Quic.Parse.{
  ◌>>=◌, read_u8, read_u32, read_bytes, read_short_length, read_token, type_of, parse_long,
  parse_short, parse_packet,
}
use satellite_quic_proxy.Quic.Parse.Printing.{token_field, print_long, print_short, IsLong, IsShort}

>>=-eq-some {ℓ κ} :
    {A : Type ℓ} {B : Type κ} (m : Option A) (f : A → Option B) {b : B}
    → (m >>= f) ≡ some b
    → (a : A) × (m ≡ some a) × (f a ≡ some b)
>>=-eq-some none f h = cc
>>=-eq-some (some a) f h = (a, refl, h)

abbrev Bytes : List ℕ → Type 0
Bytes = All IsByte

read_u8-inv :
    (d : List ℕ) (n : ℕ) (r : List ℕ)
    → read_u8 d ≡ some (n, r)
    → Bytes d
    → (d ≡ n ∷ r) × (n < 256) × Bytes r
unfolding read_u8
read_u8-inv [] n r e b = cc
read_u8-inv (x ∷ d) n r e b =
    let same : d ≡ r = ground arith in (ground arith, ground arith, subst Bytes same b.1)

read_u32-inv :
    (d : List ℕ) (n : ℕ) (r : List ℕ)
    → read_u32 d ≡ some (n, r)
    → Bytes d
    → (d ≡ u32_bytes n ++ r) × (n < u32_mod) × Bytes r
unfolding read_u32
read_u32-inv [] n r e by = cc
read_u32-inv (a ∷ []) n r e by = cc
read_u32-inv (a ∷ b ∷ []) n r e by = cc
read_u32-inv (a ∷ b ∷ c ∷ []) n r e by = cc
read_u32-inv (a ∷ b ∷ c ∷ d ∷ rest) n r e by =
    let same : rest ≡ r = ground arith in (ground arith, ground arith, subst Bytes same by.1.1.1.1)

read_bytes-inv :
    (k : ℕ) (d xs r : List ℕ)
    → read_bytes k d ≡ some (xs, r)
    → Bytes d
    → (d ≡ xs ++ r) × (length xs ≡ k) × Bytes r
unfolding read_bytes
read_bytes-inv k d xs r e b =
    let front : take k d ≡ xs = ground arith in
    let back : drop k d ≡ r = ground arith in
    (
      rw (← front, ← back) (sym (take-append-drop k d)),
      rw (← front) (ground (arith, length-take k d)),
      subst Bytes back (All-drop IsByte k d b),
    )

read_short_length-inv :
    (d : List ℕ) (n : ℕ) (r : List ℕ)
    → read_short_length d ≡ some (n, r)
    → Bytes d
    → (d ≡ n ∷ r) × (n ≤ 63) × Bytes r
unfolding read_short_length
read_short_length-inv d n r e b =
    let ((x, rest), e1, e2) = >>=-eq-some (read_u8 d) _ e in
    let (shape, small, bytes) = read_u8-inv d x rest e1 b in
    let same : rest ≡ r = ground arith in
    (ground (arith, shape), ground arith, subst Bytes same bytes)

no_token :
    (d token r : List ℕ) (type : QuicPacketType)
    → ◌≡◌ {A = Option (List ℕ × List ℕ)} (some ([], d)) (some (token, r))
    → Bytes d
    → (d ≡ r) × (length token ≤ 63) × ((type ≡ initial) ⊎ (token ≡ [])) × Bytes r
no_token d token r type e b =
    let same : d ≡ r = ground arith in (same, ground arith, inr (ground arith), subst Bytes same b)

read_token-inv :
    (type : QuicPacketType) (d token r : List ℕ)
    → read_token type d ≡ some (token, r)
    → Bytes d
    → (d ≡ token_field type token ++ r)
      × (length token ≤ 63)
      × ((type ≡ initial) ⊎ (token ≡ []))
      × Bytes r
unfolding read_token
read_token-inv initial d token r e b =
    let ((n, d'), e1, e2) = >>=-eq-some (read_short_length d) _ e in
    let (shape, small, bytes) = read_short_length-inv d n d' e1 b in
    let (shape', len, bytes') = read_bytes-inv n d' token r e2 bytes in
    (ground (arith, shape, shape', len), omega arith, inl refl, bytes')
read_token-inv handshake d token r e b = no_token d token r _ e b
read_token-inv zero_rtt d token r e b = no_token d token r _ e b
read_token-inv one_rtt d token r e b = no_token d token r _ e b
read_token-inv retry d token r e b = no_token d token r _ e b
read_token-inv version_negotiation d token r e b = no_token d token r _ e b

bind_inv {ℓ κ μ} :
    {A : Type ℓ} {B : Type κ} {P : Type μ} (m : Option A) (f : A → Option B) {b : B}
    → ((a : A) → m ≡ some a → f a ≡ some b → P)
    → (m >>= f) ≡ some b
    → P
bind_inv none f k h = cc
bind_inv (some a) f k h = k a refl h

-- The bytes of a header, put together from what each read took.
print_long-parts :
    (first version len number : ℕ) (dest src token d0 d1 d2 d3 d4 d5 d6 d7 payload : List ℕ)
    → d0 ≡ u32_bytes version ++ d1
    → d1 ≡ length dest ∷ d2
    → d2 ≡ dest ++ d3
    → d3 ≡ length src ∷ d4
    → d4 ≡ src ++ d5
    → d5 ≡ token_field (type_of first version) token ++ d6
    → d6 ≡ len ∷ d7
    → d7 ≡ u32_bytes number ++ payload
    → first ∷ d0
      ≡ print_long first (record {
        type = type_of first version;
        version = version;
        dest_conn_id = dest;
        src_conn_id = src;
        token = token;
        length = len;
        packet_number = number;
      })
        ++ payload
unfolding print_long
print_long-parts first version len number dest src token d0 d1 d2 d3 d4 d5 d6 d7 payload s0 s1 s2 s3
      s4 s5 s6 s7 =
    simp append_assoc (rw (s0, s1, s2, s3, s4, s5, s6, s7) refl)

Accepted : ℕ → List ℕ → QuicPacketHeader × List ℕ → Type 0
Accepted first d0 r = (first ∷ d0 ≡ print_long first r.0 ++ r.1) × IsLong first r.0

parse_long-inv :
    (first : ℕ) (d0 : List ℕ) (h : QuicPacketHeader) (payload : List ℕ)
    → Bytes d0
    → first / 128 % 2 ≡ 1
    → parse_long first d0 ≡ some (h, payload)
    → Accepted first d0 (h, payload)
unfolding parse_long Accepted
parse_long-inv first d0 h payload b0 form = bind_inv (read_u32 d0) _ λ (version, d1) e0.
    let (s0, version_fits, b1) = read_u32-inv d0 version d1 e0 b0 in
    bind_inv (read_u8 d1) _ λ (dest_len, d2) e1.
      let (s1, dest_fits, b2) = read_u8-inv d1 dest_len d2 e1 b1 in
      bind_inv (read_bytes dest_len d2) _ λ (dest, d3) e2.
        let (s2, l2, b3) = read_bytes-inv dest_len d2 dest d3 e2 b2 in
        bind_inv (read_u8 d3) _ λ (src_len, d4) e3.
          let (s3, src_fits, b4) = read_u8-inv d3 src_len d4 e3 b3 in
          bind_inv (read_bytes src_len d4) _ λ (src, d5) e4.
            let (s4, l4, b5) = read_bytes-inv src_len d4 src d5 e4 b4 in
            bind_inv (read_token (type_of first version) d5) _ λ (token, d6) e5.
              let (s5, token_fits, place, b6) =
                read_token-inv (type_of first version) d5 token d6 e5 b5 in
              bind_inv (read_short_length d6) _ λ (len, d7) e6.
                let (s6, length_fits, b7) = read_short_length-inv d6 len d7 e6 b6 in
                bind_inv (read_u32 d7) _ λ (number, rest) e7 end.
                  let (s7, number_fits, b8) = read_u32-inv d7 number rest e7 b7 in
                  let same = some-injective _ _ end in
                  subst (Accepted first d0) same (
                    print_long-parts first version len number dest src token d0 d1 d2 d3 d4 d5 d6 d7
                        rest s0 (s1 ∙ ap (λ k. k ∷ d2) (sym l2)) s2 (s3 ∙ ap (λ k. k ∷ d4) (sym l4))
                        s4 s5 s6 s7,
                    record {
                      form = form;
                      typed = refl;
                      version_fits = version_fits;
                      dest_fits = omega arith;
                      src_fits = omega arith;
                      token_fits = token_fits;
                      token_place = place;
                      length_fits = length_fits;
                      number_fits = number_fits;
                    },
                  )

-- A long packet of bytes that the parser accepts is its header printed, with the payload behind it;
-- nothing is skipped, and the lengths, identifiers and numbers are in their ranges.
pub parse_packet-IsLong :
    (first : ℕ) (body : List ℕ) (h : QuicPacketHeader) (payload : List ℕ)
    → All IsByte body
    → first / 128 % 2 ≡ 1
    → parse_packet (first ∷ body) ≡ some (h, payload)
    → (first ∷ body ≡ print_long first h ++ payload) × IsLong first h
unfolding parse_packet Accepted
parse_packet-IsLong first body h payload b form e =
    let long : parse_long first body ≡ some (h, payload) = ground arith in
    parse_long-inv first body h payload b form long

AcceptedShort : ℕ → List ℕ → QuicPacketHeader × List ℕ → Type 0
AcceptedShort first body r = (first ∷ body ≡ print_short first r.0 ++ r.1) × IsShort first r.0 r.1

parse_short-inv :
    (first : ℕ) (body : List ℕ) (h : QuicPacketHeader) (payload : List ℕ)
    → Bytes body
    → first / 128 % 2 ≡ 0
    → parse_short body ≡ some (h, payload)
    → AcceptedShort first body (h, payload)
unfolding parse_short AcceptedShort print_short
parse_short-inv first body h payload b form = bind_inv (read_bytes 8 body) _ λ (dest, d1) e0.
    let (s0, l0, b1) = read_bytes-inv 8 body dest d1 e0 b in
    bind_inv (read_u32 d1) _ λ (number, rest) e1 end.
      let (s1, number_fits, b2) = read_u32-inv d1 number rest e1 b1 in
      subst (AcceptedShort first body) (some-injective _ _ end) (
        simp append_assoc (rw (s0, s1) refl),
        record {
          form = form;
          typed = refl;
          no_version = refl;
          dest_size = l0;
          no_src = refl;
          no_token = refl;
          rest_length = refl;
          number_fits = number_fits;
        },
      )

-- A short packet of bytes that the parser accepts is 8 bytes of identifier, the packet number and
-- the payload, and the length field is the size of that payload.
pub parse_packet-IsShort :
    (first : ℕ) (body : List ℕ) (h : QuicPacketHeader) (payload : List ℕ)
    → All IsByte body
    → first / 128 % 2 ≡ 0
    → parse_packet (first ∷ body) ≡ some (h, payload)
    → (first ∷ body ≡ print_short first h ++ payload) × IsShort first h payload
unfolding parse_packet AcceptedShort
parse_packet-IsShort first body h payload b form e =
    let short : parse_short body ≡ some (h, payload) = ground arith in
    parse_short-inv first body h payload b form short
