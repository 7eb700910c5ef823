-- ===== src/Fpga/Compression/RoundTrip.antt =====
-- Which inputs survive compression and decompression, and how long the output is.
use satellite_quic_proxy.Base.{
  ℕ, zero, suc, ◌+◌, ◌≤◌, ◌<◌, ◌≡◌, ◌≢◌, refl, ap, ◌∙◌, true, false, some, List, [], ◌∷◌, ◌++◌,
  arith, length, length-append, length-drop, length-replicate, drop, replicate, leb, ◌==◌, All,
  IsByte, inl, inr, ◌⊎◌, append-nil, All-append,
}
use native.Mathlib.Decide.{dec_le}
use satellite_quic_proxy.Fpga.Compression.{
  count_repeats, encode_run, compress_loop, header, compress, decompress_loop, decompress,
}

-- The bytes counted are copies of the one given.
count_repeats-replicate :
    (limit b : ℕ) (xs : List ℕ)
    → replicate (count_repeats limit b xs) b ++ drop (count_repeats limit b xs) xs ≡ xs
unfolding count_repeats
count_repeats-replicate zero b xs = refl
count_repeats-replicate (suc limit) b [] = refl
count_repeats-replicate (suc limit) b (x ∷ xs) = ground (arith, count_repeats-replicate limit b xs)

count_repeats-le :
    (limit b : ℕ) (xs : List ℕ)
    → (count_repeats limit b xs ≤ limit) × (count_repeats limit b xs ≤ length xs)
unfolding count_repeats
count_repeats-le zero b xs = omega arith
count_repeats-le (suc limit) b [] = omega arith
count_repeats-le (suc limit) b (x ∷ xs) = ground (arith, count_repeats-le limit b xs)

decompress_loop_literal :
    (b : ℕ) (ys : List ℕ) → b ≢ 0xFF → decompress_loop (b ∷ ys) ≡ b ∷ decompress_loop ys
unfolding decompress_loop
decompress_loop_literal b [] h = refl
decompress_loop_literal b (c ∷ []) h = refl
decompress_loop_literal b (c ∷ v ∷ ys) h = ground arith

decompress_loop-replicate :
    (n b : ℕ) (ys : List ℕ)
    → b ≢ 0xFF
    → decompress_loop (replicate n b ++ ys) ≡ replicate n b ++ decompress_loop ys
decompress_loop-replicate zero b ys h = refl
decompress_loop-replicate (suc n) b ys h =
    decompress_loop_literal b (replicate n b ++ ys) h
    ∙ ap (◌∷◌ b) (decompress_loop-replicate n b ys h)

-- A run that is long enough for the marker, or not of the marker itself, is read back.
decompress_loop-encode_run :
    (n b : ℕ) (ys : List ℕ)
    → (b ≢ 0xFF) ⊎ (4 ≤ n)
    → decompress_loop (encode_run n b ++ ys) ≡ replicate n b ++ decompress_loop ys
unfolding encode_run
decompress_loop-encode_run n b ys h = elim (dec_le 4 n) [
  | yes p ↦ unfold decompress_loop in ground arith
  | no p ↦
      let short : leb 4 n ≡ false = ground arith in
      rw short (decompress_loop-replicate n b ys (ground arith))
]

length-encode_run : (n b : ℕ) → length (encode_run n b) ≤ n
unfolding encode_run
length-encode_run n b = ground (arith, length-replicate n b)

-- No byte of the input is the marker.
abbrev pub NoMarker : List ℕ → Type 0
NoMarker = All (λ b. b ≢ 0xFF)

decompress_loop-compress_loop :
    (skip : ℕ) (xs : List ℕ) → NoMarker xs → decompress_loop (compress_loop skip xs) ≡ drop skip xs
unfolding compress_loop
decompress_loop-compress_loop zero [] h = unfold decompress_loop in refl
decompress_loop-compress_loop (suc skip) [] h = unfold decompress_loop in refl
decompress_loop-compress_loop (suc skip) (b ∷ xs) h = decompress_loop-compress_loop skip xs h.1
decompress_loop-compress_loop zero (b ∷ xs) h =
    let n = count_repeats 254 b xs in
    decompress_loop-encode_run (suc n) b (compress_loop n xs) (inl h.0)
    ∙ ap (λ ys. b ∷ (replicate n b ++ ys)) (decompress_loop-compress_loop n xs h.1)
    ∙ ap (◌∷◌ b) (count_repeats-replicate 254 b xs)

-- An input without the byte 0xFF is read back from its compressed form.
pub decompress-compress :
    (input : List ℕ) → NoMarker input → decompress (compress input) ≡ some input
unfolding decompress compress header
decompress-compress input h = ap some (decompress_loop-compress_loop 0 input h)

count_repeats_run : (limit m b : ℕ) → m ≤ limit → count_repeats limit b (replicate m b) ≡ m
unfolding count_repeats
count_repeats_run zero zero b h = refl
count_repeats_run zero (suc m) b h = elim h [ ]
count_repeats_run (suc limit) zero b h = refl
count_repeats_run (suc limit) (suc m) b h =
    let same : (b == b) ≡ true = ground arith in ground (arith, count_repeats_run limit m b, same)

compress_loop_run : (m b : ℕ) → compress_loop m (replicate m b) ≡ []
unfolding compress_loop
compress_loop_run zero b = refl
compress_loop_run (suc m) b = compress_loop_run m b

-- A run of 4 to 255 bytes is read back whatever the byte, the marker included.
pub decompress-compress_run :
    (n b : ℕ) → 4 ≤ n → n ≤ 255 → decompress (compress (replicate n b)) ≡ some (replicate n b)
unfolding decompress compress header compress_loop
decompress-compress_run zero b low high = elim low [ ]
decompress-compress_run (suc n) b low high = ap some (
    rw (count_repeats_run 254 n b (omega arith), compress_loop_run n b)
      (decompress_loop-encode_run (suc n) b [] (inr low)
        ∙ unfold decompress_loop in append-nil (replicate (suc n) b)))

replicate_marker : (n x y : ℕ) → replicate n y ≡ 0xFF ∷ x ∷ y ∷ [] → x ≡ 0xFF
replicate_marker zero x y e = cc
replicate_marker (suc zero) x y e = ground arith
replicate_marker (suc (suc n)) x y e = ground arith

-- A marker byte in front of two bytes, the first of them no marker, decompresses to a run of the third
-- byte, as long as the second byte says, which is never the input.
pub decompress-compress_marker :
    (x y : ℕ)
    → x ≢ 0xFF
    → (decompress (compress (0xFF ∷ x ∷ y ∷ [])) ≡ some (replicate x y))
      × (replicate x y ≢ 0xFF ∷ x ∷ y ∷ [])
unfolding decompress compress header compress_loop count_repeats encode_run decompress_loop
decompress-compress_marker x y h =
    (ground (arith, append-nil (replicate x y)), λ e. h (replicate_marker x x y e))

compress_loop-bounded :
    (skip : ℕ) (xs : List ℕ) → length (compress_loop skip xs) ≤ length (drop skip xs)
unfolding compress_loop
compress_loop-bounded zero [] = omega arith
compress_loop-bounded (suc skip) [] = omega arith
compress_loop-bounded (suc skip) (b ∷ xs) = compress_loop-bounded skip xs
compress_loop-bounded zero (b ∷ xs) =
    let n = count_repeats 254 b xs in
    omega (
      arith,
      length-append (encode_run (suc n) b) (compress_loop n xs),
      length-encode_run (suc n) b,
      compress_loop-bounded n xs,
      length-drop n xs,
      count_repeats-le 254 b xs,
    )

All-replicate : (n b : ℕ) → IsByte b → All IsByte (replicate n b)
All-replicate zero b h = tt
All-replicate (suc n) b h = (h, All-replicate n b h)

encode_run-IsByte : (n b : ℕ) → n < 256 → IsByte b → All IsByte (encode_run n b)
unfolding encode_run
encode_run-IsByte n b hn hb = ground (arith, All-replicate n b hb)

compress_loop-IsByte : (skip : ℕ) (xs : List ℕ) → All IsByte xs → All IsByte (compress_loop skip xs)
unfolding compress_loop
compress_loop-IsByte zero [] h = tt
compress_loop-IsByte (suc skip) [] h = tt
compress_loop-IsByte (suc skip) (b ∷ xs) h = compress_loop-IsByte skip xs h.1
compress_loop-IsByte zero (b ∷ xs) h =
    let n = count_repeats 254 b xs in
    All-append IsByte (encode_run (suc n) b) (compress_loop n xs)
      (encode_run-IsByte (suc n) b (omega (arith, count_repeats-le 254 b xs)) h.0)
      (compress_loop-IsByte n xs h.1)

header-IsByte : (n : ℕ) → All IsByte (header n)
unfolding header
header-IsByte n = omega arith

-- Compressing bytes adds the 8 bytes of the header at most, and gives bytes.
pub compress_bounded :
    (input : List ℕ)
    → All IsByte input
    → (length (compress input) ≤ length input + 8) × All IsByte (compress input)
unfolding compress header
compress_bounded input b = (
  omega (arith, compress_loop-bounded 0 input),
  All-append IsByte (header (length input)) (compress_loop 0 input) (header-IsByte (length input))
      (compress_loop-IsByte 0 input b),
)
