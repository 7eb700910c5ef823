-- ===== src/Quic/Build/Writes.antt =====
-- Where the writes into the packet buffer put their bytes.
use satellite_quic_proxy.Base.{
  ℕ, ◌+◌, ◌-◌, ◌/◌, ◌%◌, ◌≤◌, ◌<◌, ◌≡◌, refl, sym, ap, ◌∙◌, List, [], ◌∷◌, ◌++◌, append_assoc,
  append-nil, arith, length, length-append, length-drop, set, take, drop, take_length-append, leb,
  if◌then◌else◌,
}
use mathlib.Core.Path.{fun_ext}
use native.Mathlib.Decide.{dec_le}
use satellite_quic_proxy.Quic.Packet.{
  QuicPacketType, initial, handshake, zero_rtt, one_rtt, retry, version_negotiation, u32_bytes,
  quic_version_1,
}
use satellite_quic_proxy.Quic.Build.{
  Built, built, unsupported, fault, ◌>>=◌, Writer, put, copy, put_u32, put_token, fill_length,
  build_long, build_short,
}

-- The writer behind `pre`, with `post` still to be overwritten.
abbrev pub at : List ℕ → List ℕ → Writer
at pre post = record { buffer = pre ++ post; offset = length pre }

set-append {ℓ} :
    {A : Type ℓ} (pre : List A) (x : A) (post : List A) (b : A)
    → set (pre ++ (x ∷ post)) (length pre) b ≡ pre ++ (b ∷ post)
set-append [] x post b = refl
set-append (a ∷ pre) x post b = ap (◌∷◌ a) (set-append pre x post b)

pub put-at :
    (b : ℕ) (pre : List ℕ) (x : ℕ) (post : List ℕ)
    → put b (at pre (x ∷ post)) ≡ built (at (pre ++ (b ∷ [])) post)
unfolding put
put-at b pre x post =
    let grown = append_assoc pre (b ∷ []) post in
    ground (
      arith,
      set-append pre x post b,
      length-append pre (x ∷ post),
      length-append pre (b ∷ []),
      grown,
    )

put-at_end : (b : ℕ) (pre : List ℕ) → put b (at pre []) ≡ fault
unfolding put
put-at_end b pre = rw append-nil (ground arith)

copy-at :
    (bs pre post : List ℕ)
    → length bs ≤ length post
    → copy bs (at pre post) ≡ built (at (pre ++ bs) (drop (length bs) post))
unfolding copy
copy-at [] pre post h = rw (append-nil pre) refl
copy-at (b ∷ bs) pre [] h = elim h [ ]
copy-at (b ∷ bs) pre (x ∷ post) h = rw (put-at b pre x post) (
    copy-at bs (pre ++ (b ∷ [])) post (omega arith)
    ∙ ap (λ (p : List ℕ). built (at p (drop (length bs) post))) (append_assoc pre (b ∷ []) bs))

copy-at_end : (bs pre post : List ℕ) → length post < length bs → copy bs (at pre post) ≡ fault
unfolding copy
copy-at_end [] pre post h = elim h [ ]
copy-at_end (b ∷ bs) pre [] h = rw (put-at_end b pre) refl
copy-at_end (b ∷ bs) pre (x ∷ post) h =
    rw (put-at b pre x post) (copy-at_end bs (pre ++ (b ∷ [])) post (omega arith))

-- Single writes are copies, and copies one after the other are one.
>>=-built {ℓ} : {A : Type ℓ} (m : Built A) → (m >>= built) ≡ m
>>=-built (built a) = refl
>>=-built unsupported = refl
>>=-built fault = refl

>>=-assoc {ℓ κ μ} :
    {A : Type ℓ} {B : Type κ} {C : Type μ} (m : Built A) (f : A → Built B) (g : B → Built C)
    → ((m >>= f) >>= g) ≡ (m >>= λ a. f a >>= g)
>>=-assoc (built a) f g = refl
>>=-assoc unsupported f g = refl
>>=-assoc fault f g = refl

copy-append : (xs ys : List ℕ) (w : Writer) → copy (xs ++ ys) w ≡ (copy xs w >>= copy ys)
unfolding copy
copy-append [] ys w = refl
copy-append (x ∷ xs) ys w =
    ap (λ k. put x w >>= k) (fun_ext (copy-append xs ys))
    ∙ sym (>>=-assoc (put x w) (copy xs) (copy ys))

-- A token length of 0 stands in initial packets only.
abbrev pub token_bytes : QuicPacketType → List ℕ
token_bytes initial = 0 ∷ []
token_bytes type = []

put_token-copy : (type : QuicPacketType) (w : Writer) → put_token type w ≡ copy (token_bytes type) w
unfolding put_token copy
put_token-copy initial w = sym (>>=-built (put 0 w))
put_token-copy handshake w = refl
put_token-copy zero_rtt w = refl
put_token-copy one_rtt w = refl
put_token-copy retry w = refl
put_token-copy version_negotiation w = refl

ruleset copies = (copy-append, >>=-assoc, >>=-built)

abbrev cut : Writer → Built (List ℕ)
cut w = built (take w.offset w.buffer)

build_short-copy :
    (dest : List ℕ) (number : ℕ) (payload : List ℕ) (w : Writer)
    → build_short dest number payload w ≡ (copy (dest ++ (u32_bytes number ++ payload)) w >>= cut)
unfolding build_short copy put_u32
build_short-copy dest number payload w = simp copies

-- All bytes of a long packet between the first one and the length field.
abbrev pub long_prefix : QuicPacketType → List ℕ → List ℕ → List ℕ
long_prefix type dest src =
    u32_bytes quic_version_1
    ++ ((length dest % 0x100) ∷ (dest ++ ((length src % 0x100) ∷ (src ++ token_bytes type))))

build_long-copy :
    (type : QuicPacketType) (dest src : List ℕ) (number : ℕ) (payload : List ℕ) (w : Writer)
    → build_long type dest src number payload w ≡ (
        copy (long_prefix type dest src) w >>= λ w6.
        (copy (0 ∷ 0 ∷ (u32_bytes number ++ payload)) w6 >>= λ w10.
        built (take w10.offset (fill_length w6.offset (w10.offset - w6.offset - 2) w10.buffer))))
unfolding build_long copy put_u32
build_long-copy type dest src number payload w = simp (put_token-copy, copies)

pub build_short-at :
    (dest : List ℕ) (number : ℕ) (payload pre post : List ℕ)
    → let bytes = dest ++ (u32_bytes number ++ payload) in
      build_short dest number payload (at pre post)
      ≡ (if leb (length bytes) (length post) then built (pre ++ bytes) else fault)
build_short-at dest number payload pre post =
    let bytes = dest ++ (u32_bytes number ++ payload) in
    build_short-copy dest number payload (at pre post)
    ∙ elim (dec_le (length bytes) (length post)) [
      | yes p ↦
          rw
            (copy-at bytes pre post p, take_length-append (pre ++ bytes) (drop (length bytes) post))
            (ground arith)
      | no p ↦ rw (copy-at_end bytes pre post (omega arith)) (ground arith)
    ]

-- The length field and what follows it.
abbrev pub long_suffix : ℕ → ℕ → List ℕ → List ℕ
long_suffix n number payload = (n / 0x100 % 0x100) ∷ (n % 0x100) ∷ (u32_bytes number ++ payload)

fill_length_at :
    (pre rest : List ℕ) (n : ℕ)
    → fill_length (length pre) n (pre ++ (0 ∷ 0 ∷ rest))
      ≡ pre ++ ((n / 0x100 % 0x100) ∷ (n % 0x100) ∷ rest)
fill_length_at pre rest n =
    let hi = n / 0x100 % 0x100 in
    let lo = n % 0x100 in
    let one_more : length pre + 1 ≡ length (pre ++ (hi ∷ [])) =
      omega (arith, length-append pre (hi ∷ [])) in
    rw (set-append pre 0 (0 ∷ rest) hi, one_more)
      (ap (λ l. set l (length (pre ++ (hi ∷ []))) lo) (sym (append_assoc pre (hi ∷ []) (0 ∷ rest)))
        ∙ set-append (pre ++ (hi ∷ [])) 0 rest lo
        ∙ append_assoc pre (hi ∷ []) (lo ∷ rest))

-- The end of the long form: the length field is filled in, and the buffer cut.
finish_at :
    (pre post : List ℕ) (number : ℕ) (payload : List ℕ)
    → let bytes = 0 ∷ 0 ∷ (u32_bytes number ++ payload) in
      let w = at (pre ++ bytes) post in
      take w.offset (fill_length (length pre) (w.offset - length pre - 2) w.buffer)
      ≡ pre ++ long_suffix (4 + length payload) number payload
finish_at pre post number payload =
    let bytes = 0 ∷ 0 ∷ (u32_bytes number ++ payload) in
    let final = pre ++ long_suffix (4 + length payload) number payload in
    let n : length (pre ++ bytes) - length pre - 2 ≡ 4 + length payload =
      omega (arith, length-append pre bytes) in
    let size : length (pre ++ bytes) ≡ length final = omega (
      arith,
      length-append pre bytes,
      length-append pre (long_suffix (4 + length payload) number payload),
    ) in
    let suffix = long_suffix (4 + length payload) number payload in
    rw (n, append_assoc pre bytes post)
      (ap (take (length (pre ++ bytes)))
          (fill_length_at pre ((u32_bytes number ++ payload) ++ post) (4 + length payload))
        ∙ rw (size, ← append_assoc pre suffix post) (take_length-append final post))

pub build_long-at :
    (type : QuicPacketType) (dest src : List ℕ) (number : ℕ) (payload pre post : List ℕ)
    → let bytes = long_prefix type dest src ++ long_suffix (4 + length payload) number payload in
      build_long type dest src number payload (at pre post)
      ≡ (if leb (length bytes) (length post) then built (pre ++ bytes) else fault)
build_long-at type dest src number payload pre post =
    let front = long_prefix type dest src in
    let suffix = long_suffix (4 + length payload) number payload in
    let back = 0 ∷ 0 ∷ (u32_bytes number ++ payload) in
    let total = length-append front suffix in
    build_long-copy type dest src number payload (at pre post)
    ∙ elim (dec_le (length front) (length post)) [
      | no p ↦ rw (copy-at_end front pre post (omega arith)) (ground (arith, total))
      | yes p ↦
          rw (copy-at front pre post p)
            (elim (dec_le (length back) (length (drop (length front) post))) [
              | no q ↦
                  rw (copy-at_end back (pre ++ front) (drop (length front) post) (omega arith))
                    (ground (arith, total, length-drop (length front) post))
              | yes q ↦
                  rw
                    (
                      copy-at back (pre ++ front) (drop (length front) post) q,
                      finish_at (pre ++ front) (drop (length back) (drop (length front) post))
                          number payload,
                      append_assoc pre front suffix,
                    )
                    (ground (arith, total, length-drop (length front) post))
            ])
    ]
