-- ===== src/Fpga/Evp/RoundTrip.antt =====
-- Encryption and decryption in simulation: the way back, and what a wrong tag leaves.
use satellite_quic_proxy.Base.{
  ◌⊎◌, ℕ, ◌+◌, ◌-◌, ◌≡◌, ◌≢◌, refl, ap, sym, ◌∙◌, inl, inr, true, false, some, List, ◌++◌, length,
  length-append, replicate, drop, take, suc, zero, Option-cases, arith,
}
use satellite_quic_proxy.Fpga.Operation.{
  ErrorMessage, crypto_encrypt, crypto_decrypt, authentication_failed,
}
use satellite_quic_proxy.Fpga.Hardware.{CryptoInput}
use satellite_quic_proxy.Fpga.Evp.{
  Evp, Attempt, got, threw, blank, over, is_encrypt, prepare, encrypt, decrypt, cipher, finish,
  simulate_crypto_operation,
}
use satellite_quic_proxy.Fpga.Evp.Gcm.{Keys, Gcm, Stage, IsGcm, keyed}
use satellite_quic_proxy.Fpga.Evp.Calls.{
  split_tag, prepare_both, encrypt_got, decrypt_got, decrypt_threw,
}

Attempt-cases :
    {A : Type 0} (a : Attempt A)
    → ((x : A) × (a ≡ got x)) ⊎ ((text : ErrorMessage) × (held : List ℕ) × (a ≡ threw text held))
Attempt-cases (got x) = inl (x, refl)
Attempt-cases (threw text held) = inr (text, held, refl)

-- What an encryption that succeeds has given: the keys, the context of a decryption with them, the output.
record Sealed {Context : Type 0} (gcm : Gcm) (evp : Evp Context) (Holds : Context → Stage → Type 0)
    (c : CryptoInput) (output : List ℕ) : Type 0 where
  keys : Keys
  context : Context
  prepared : Context
  created : evp.create ≡ some context
  prepares :
      (bytes : List ℕ) → prepare evp false (record c { bytes = bytes }) context ≡ got prepared
  holds : Holds prepared (keyed false keys)
  output_is : output ≡ gcm.encipher keys c.bytes ++ gcm.tag_of keys (gcm.encipher keys c.bytes)

bytes_unused :
    {Context : Type 0} (evp : Evp Context) (c : CryptoInput) (x y : Context)
    → prepare evp false c x ≡ got y
    → (bytes : List ℕ) → prepare evp false (record c { bytes = bytes }) x ≡ got y
unfolding prepare
bytes_unused evp c x y h bytes = h

seals :
    {Context : Type 0} (gcm : Gcm) (evp : Evp Context) (Holds : Context → Stage → Type 0)
    (c : CryptoInput)
    → IsGcm gcm evp Holds
    → (simulate_crypto_operation evp crypto_encrypt c).0.success ≡ true
    → Sealed gcm evp Holds c (simulate_crypto_operation evp crypto_encrypt c).0.output
unfolding simulate_crypto_operation finish cipher is_encrypt
seals gcm evp Holds c laws h = elim (Option-cases evp.create) [
  | inl e ↦ absurd (cc)
  | inr (context, e) ↦ elim (Attempt-cases (prepare evp true c context)) [
    | inr (text, held, p) ↦ absurd (cc)
    | inl (x, p) ↦ elim (Attempt-cases (encrypt evp c.bytes x)) [
      | inr (text, held, q) ↦ absurd (cc)
      | inl (output, q) ↦
          let (k, holds, y, prepares, opens) =
            prepare_both gcm evp Holds laws c c.bytes context x e p in
          let right = encrypt_got gcm evp Holds laws k c.bytes x output holds q in
          record {
            keys = k;
            context = context;
            prepared = y;
            created = e;
            prepares = bytes_unused evp c context y prepares;
            holds = opens;
            output_is = cc;
          }
    ]
  ]
]

decrypts :
    {Context : Type 0} (evp : Evp Context) (d : CryptoInput) (context u : Context)
    (a : Attempt (List ℕ))
    → evp.create ≡ some context
    → prepare evp false d context ≡ got u
    → decrypt evp d.bytes u ≡ a
    → simulate_crypto_operation evp crypto_decrypt d ≡ (finish d.bytes a, 1)
unfolding simulate_crypto_operation cipher is_encrypt
decrypts evp d context u a e p q = cc

-- In simulation, where OpenSSL keeps to what it documents of each call in GCM mode, decrypting the output
-- of an encryption that succeeded, with the same key, nonce and additional data, succeeds and gives the
-- bytes back.
pub decrypt-encrypt :
    {Context : Type 0} (gcm : Gcm) (evp : Evp Context) (Holds : Context → Stage → Type 0)
    (c : CryptoInput)
    → IsGcm gcm evp Holds
    → (simulate_crypto_operation evp crypto_encrypt c).0.success ≡ true
    → let d : CryptoInput = record c {
      bytes = (simulate_crypto_operation evp crypto_encrypt c).0.output;
    } in
      ((simulate_crypto_operation evp crypto_decrypt d).0.success ≡ true)
      × ((simulate_crypto_operation evp crypto_decrypt d).0.output ≡ c.bytes)
unfolding finish
decrypt-encrypt gcm evp Holds c laws h =
    let s = seals gcm evp Holds c laws h in
    let output = (simulate_crypto_operation evp crypto_encrypt c).0.output in
    let text = gcm.encipher s.keys c.bytes in
    let opened =
      decrypt_got gcm evp Holds laws s.keys text (gcm.tag_of s.keys text) s.prepared s.holds
        (gcm.tag_size s.keys text) refl in
    let run =
      decrypts evp (record c { bytes = output }) s.context s.prepared
        (got (gcm.decipher s.keys text)) s.created (s.prepares output)
        (ap (λ (l : List ℕ). decrypt evp l s.prepared) s.output_is ∙ opened) in
    (rw run refl, rw run (gcm.deciphers s.keys c.bytes))

-- The output of an encryption is split in one way.
split_unique :
    (text right body tag : List ℕ)
    → length right ≡ 16
    → length tag ≡ 16
    → text ++ right ≡ body ++ tag
    → (text ≡ body) × (right ≡ tag)
split_unique text right body tag n m e =
    let (_, back, front) = split_tag text right n in
    let (_, back', front') = split_tag body tag m in
    (
      sym front ∙ ap (λ (l : List ℕ). take (length l - 16) l) e ∙ front',
      sym back ∙ ap (λ (l : List ℕ). drop (length l - 16) l) e ∙ back',
    )

abbrev zeros : ℕ → List ℕ
zeros n = replicate n 0

drop-zeros : (n m : ℕ) → drop n (zeros (n + m)) ≡ zeros m
drop-zeros zero m = ap zeros (omega arith)
drop-zeros (suc n) m = let e : suc n + m ≡ suc (n + m) = omega arith in rw e (drop-zeros n m)

over-blank :
    (plain text tag : List ℕ)
    → length text ≡ length plain
    → length tag ≡ 16
    → over plain (blank (text ++ tag)) ≡ plain ++ zeros 32
unfolding over blank
over-blank plain text tag n m =
    let size : length (text ++ tag) + 16 ≡ length plain + 32 =
      omega (arith, length-append {0} text tag) in
    ap (λ (l : List ℕ). plain ++ l)
      (ap (λ k. drop (length plain) (zeros k)) size ∙ drop-zeros (length plain) 32)

-- In simulation, where OpenSSL keeps to what it documents of each call in GCM mode, decrypting the output
-- of an encryption that succeeded, with any other 16 bytes in place of its tag, fails with the message of a
-- failed authentication and counts as an operation; and yet its result holds the whole plaintext, with 32
-- zeros behind it.
pub decrypt_tampered :
    {Context : Type 0} (gcm : Gcm) (evp : Evp Context) (Holds : Context → Stage → Type 0)
    (c : CryptoInput) (body tag other : List ℕ)
    → IsGcm gcm evp Holds
    → (simulate_crypto_operation evp crypto_encrypt c).0.success ≡ true
    → (simulate_crypto_operation evp crypto_encrypt c).0.output ≡ body ++ tag
    → length tag ≡ 16
    → length other ≡ 16
    → other ≢ tag
    → let d : CryptoInput = record c { bytes = body ++ other } in
      ((simulate_crypto_operation evp crypto_decrypt d).0.success ≡ false)
      × ((simulate_crypto_operation evp crypto_decrypt d).0.error_message ≡ authentication_failed)
      × ((simulate_crypto_operation evp crypto_decrypt d).1 ≡ 1)
      × ((simulate_crypto_operation evp crypto_decrypt d).0.output ≡ c.bytes ++ replicate 32 0)
unfolding finish
decrypt_tampered gcm evp Holds c body tag other laws h o n m wrong =
    let s = seals gcm evp Holds c laws h in
    let text = gcm.encipher s.keys c.bytes in
    let (same, right) =
      split_unique text (gcm.tag_of s.keys text) body tag (gcm.tag_size s.keys text) n
        (sym s.output_is ∙ o) in
    let threw =
      decrypt_threw gcm evp Holds laws s.keys text other s.prepared s.holds m
        (λ (e : other ≡ gcm.tag_of s.keys text). wrong (e ∙ right)) in
    let run =
      decrypts evp (record c { bytes = body ++ other }) s.context s.prepared _ s.created
        (s.prepares (body ++ other))
        (ap (λ (l : List ℕ). decrypt evp (l ++ other) s.prepared) (sym same) ∙ threw) in
    let held =
      over-blank (gcm.decipher s.keys text) text other
        (gcm.text_size s.keys c.bytes
          ∙ ap (λ (l : List ℕ). length l) (sym (gcm.deciphers s.keys c.bytes)))
        m in
    (
      rw run refl,
      rw run refl,
      rw run refl,
      rw run (held ∙ ap (λ (l : List ℕ). l ++ replicate 32 0) (gcm.deciphers s.keys c.bytes)),
    )
