-- ===== src/Fpga/Evp/Tests.antt =====
-- Examples of cryptographic operations in simulation, with a toy mode that leaves the bytes as they are
-- and takes the length of the additional data for each byte of the tag.
use satellite_quic_proxy.Base.{
  ℕ, ◌≡◌, ◌≢◌, ◌∙◌, sym, ap, refl, Bool, true, false, Option, none, some, List, [], ◌∷◌, ◌++◌,
  length, replicate, ◌==◌, ◌&&◌, if◌then◌else◌, arith, Bool-cases, inl, inr,
}
use satellite_quic_proxy.Fpga.Operation.{crypto_decrypt, authentication_failed}
use satellite_quic_proxy.Fpga.Hardware.{CryptoInput}
use satellite_quic_proxy.Fpga.Evp.{
  Evp, select_cipher, provide_aad, prepare, encrypt, cipher, finish, is_encrypt,
  simulate_crypto_operation,
}
use satellite_quic_proxy.Fpga.Evp.Gcm.{
  Gcm, Stage, IsGcm, fresh, chosen, sized, keyed, sealing, sealed, tagged, opening,
}
use satellite_quic_proxy.Fpga.Evp.RoundTrip.{decrypt-encrypt, decrypt_tampered}

-- The additional data and the tag that a context was given.
record Given : Type 0 where
  aad : List ℕ
  tag : List ℕ

same_bytes : List ℕ → List ℕ → Bool
same_bytes [] [] = true
same_bytes [] (y ∷ ys) = false
same_bytes (x ∷ xs) [] = false
same_bytes (x ∷ xs) (y ∷ ys) = x == y && same_bytes xs ys

same_bytes_refl : (xs : List ℕ) → same_bytes xs xs ≡ true
unfolding same_bytes
same_bytes_refl [] = refl
same_bytes_refl (x ∷ xs) = let rest = same_bytes_refl xs in ground arith

same_bytes_sound : (xs ys : List ℕ) → same_bytes xs ys ≡ true → xs ≡ ys
unfolding same_bytes
same_bytes_sound [] [] h = refl
same_bytes_sound [] (y ∷ ys) h = absurd (cc)
same_bytes_sound (x ∷ xs) [] h = absurd (cc)
same_bytes_sound (x ∷ xs) (y ∷ ys) h =
    let rest : same_bytes xs ys ≡ true = ground arith in
    let first : x ≡ y = ground arith in let tails = same_bytes_sound xs ys rest in cc

toy_tag : List ℕ → List ℕ
toy_tag aad = replicate 16 (length aad)

length-toy_tag : (aad : List ℕ) → length (toy_tag aad) ≡ 16
unfolding toy_tag
length-toy_tag aad = refl

-- The check compares the tag that was set with that of the additional data.
toy_check : Given → Option (List ℕ × Given)
toy_check x = if same_bytes x.tag (toy_tag x.aad) then some ([], x) else none

toy_check_right :
    (x : Given) (aad : List ℕ) → x.aad ≡ aad → x.tag ≡ toy_tag aad → toy_check x ≡ some ([], x)
unfolding toy_check
toy_check_right x aad a t =
    let same = t ∙ ap toy_tag (sym a) in
    let good : same_bytes x.tag (toy_tag x.aad) ≡ true =
      ap (λ l. same_bytes l (toy_tag x.aad)) same ∙ same_bytes_refl (toy_tag x.aad) in
    rw good refl

toy_check_wrong :
    (x : Given) (aad : List ℕ) → x.aad ≡ aad → x.tag ≢ toy_tag aad → toy_check x ≡ none
unfolding toy_check
toy_check_wrong x aad a t = elim (Bool-cases (same_bytes x.tag (toy_tag x.aad))) [
  | inl good ↦ absurd (t (same_bytes_sound x.tag (toy_tag x.aad) good ∙ ap toy_tag a))
  | inr bad ↦ rw bad refl
]

abbrev toy_gcm : Gcm
toy_gcm = record {
  encipher = λ k plain. plain;
  decipher = λ k text. text;
  tag_of = λ k text. toy_tag k.aad;
  deciphers = λ k plain. refl;
  text_size = λ k plain. refl;
  tag_size = λ k text. length-toy_tag k.aad;
}

abbrev toy_evp : Evp Given
toy_evp = record {
  create = some (record { aad = []; tag = [] });
  initialize = λ e n x. some x;
  set_iv_length = λ n x. some x;
  set_key = λ e k n x. some x;
  add_aad = λ e a x. some (record x { aad = x.aad ++ a });
  update = λ e b x. some (b, x);
  finalize = λ e x. if e then some ([], x) else toy_check x;
  get_tag = λ n x. some (toy_tag x.aad);
  set_tag = λ t x. some (record x { tag = t });
}

abbrev ToyHolds : Given → Stage → Type 0
ToyHolds x fresh = x.aad ≡ []
ToyHolds x (chosen e n) = x.aad ≡ []
ToyHolds x (sized e n m) = x.aad ≡ []
ToyHolds x (keyed e k) = x.aad ≡ k.aad
ToyHolds x (sealing k p) = x.aad ≡ k.aad
ToyHolds x (sealed k p) = x.aad ≡ k.aad
ToyHolds x (tagged k t) = (x.aad ≡ k.aad) × (x.tag ≡ t)
ToyHolds x (opening k t c) = (x.aad ≡ k.aad) × (x.tag ≡ t)

kept : (x y : Given) (aad : List ℕ) → x.aad ≡ aad → some x ≡ some y → y.aad ≡ aad
kept x y aad h e = let same : x ≡ y = cc in ap (λ (g : Given). g.aad) (sym same) ∙ h

wrote :
    (x y : Given) (aad l m : List ℕ)
    → x.aad ≡ aad
    → ◌≡◌ {A = Option (List ℕ × Given)} (some (l, x)) (some (m, y))
    → (m ≡ l) × (y.aad ≡ aad)
wrote x y aad l m h e = let same : x ≡ y = cc in (cc, ap (λ (g : Given). g.aad) (sym same) ∙ h)

toy-IsGcm : IsGcm toy_gcm toy_evp ToyHolds
toy-IsGcm = record {
  creates = λ x e. kept (record { aad = []; tag = [] }) x [] refl e;
  initializes = λ e n x y h s. kept x y [] h s;
  sets_iv_length = λ e n m x y h s. kept x y [] h s;
  sets_key = λ e n key nonce x y h s. kept x y [] h s;
  adds_aad = λ e k aad x y h s.
      kept (record x { aad = x.aad ++ aad }) y (k.aad ++ aad) (ap (λ (l : List ℕ). l ++ aad) h) s;
  initializes_both = λ n x x' y h h' e. (x', refl);
  sets_iv_length_both = λ n m x x' y h h' e. (x', refl);
  sets_key_both = λ n key nonce x x' y h h' e. (x', refl);
  adds_aad_both = λ k aad x x' y h h' e. (_, refl);
  enciphers = λ k plain text x y h e. wrote x y k.aad plain text h e;
  seals = λ k plain rest x y h e. wrote x y k.aad [] rest h e;
  gets_tag = λ k plain tag x h e. let same : toy_tag x.aad ≡ tag = cc in sym same ∙ ap toy_tag h;
  sets_tag = λ k tag x h n. (_, refl, (h, refl));
  opens = λ k tag text x h. (x, refl, h);
  accepts = λ k tag text x h right. (x, toy_check_right x k.aad h.0 (h.1 ∙ right));
  refuses = λ k tag text x h wrong.
      toy_check_wrong x k.aad h.0 (λ (e : x.tag ≡ toy_tag k.aad). wrong (sym h.1 ∙ e));
}

abbrev message : CryptoInput
message = record { bytes = 1 ∷ 2 ∷ []; key = replicate 16 9; nonce = 8 ∷ []; aad = 7 ∷ [] }

abbrev sealed_message : CryptoInput
sealed_message = record message { bytes = 1 ∷ 2 ∷ replicate 16 1 }

decrypt-encrypt_example :
    ((simulate_crypto_operation toy_evp crypto_decrypt sealed_message).0.success ≡ true)
    × ((simulate_crypto_operation toy_evp crypto_decrypt sealed_message).0.output ≡ 1 ∷ 2 ∷ [])
unfolding simulate_crypto_operation cipher finish prepare select_cipher provide_aad is_encrypt
    encrypt toy_tag
decrypt-encrypt_example = decrypt-encrypt toy_gcm toy_evp ToyHolds message toy-IsGcm refl

abbrev tampered : CryptoInput
tampered = record message { bytes = 1 ∷ 2 ∷ replicate 16 3 }

abbrev ones : List ℕ
ones = replicate 16 1

abbrev threes : List ℕ
threes = replicate 16 3

threes-ones : threes ≢ ones
threes-ones e = absurd (cc)

decrypt_tampered_example :
    ((simulate_crypto_operation toy_evp crypto_decrypt tampered).0.success ≡ false)
    × ((simulate_crypto_operation toy_evp crypto_decrypt tampered).0.error_message
        ≡ authentication_failed)
    × ((simulate_crypto_operation toy_evp crypto_decrypt tampered).1 ≡ 1)
    × ((simulate_crypto_operation toy_evp crypto_decrypt tampered).0.output
        ≡ 1 ∷ 2 ∷ replicate 32 0)
unfolding simulate_crypto_operation cipher finish prepare select_cipher provide_aad is_encrypt
    encrypt toy_tag
decrypt_tampered_example =
    decrypt_tampered toy_gcm toy_evp ToyHolds message (1 ∷ 2 ∷ []) ones threes toy-IsGcm refl refl
      refl refl threes-ones
