-- ===== src/Fpga/Evp/Gcm.antt =====
-- What OpenSSL documents of the calls of simulateCryptoOperation in GCM mode, call by call.
use satellite_quic_proxy.Base.{ℕ, ◌≡◌, ◌≢◌, Bool, true, false, none, some, List, [], ◌++◌, length}
use satellite_quic_proxy.Fpga.Evp.{Evp}

-- What a message is sealed with: the size of the key in bits, the key, the nonce, the additional data.
pub record Keys : Type 0 where
  pub bits : ℕ
  pub key : List ℕ
  pub nonce : List ℕ
  pub aad : List ℕ

-- The mode itself: the ciphertext of a plaintext and back, and the tag of a ciphertext.
pub record Gcm : Type 0 where
  pub encipher : Keys → List ℕ → List ℕ
  pub decipher : Keys → List ℕ → List ℕ
  pub tag_of : Keys → List ℕ → List ℕ
  pub deciphers : (k : Keys) (plain : List ℕ) → decipher k (encipher k plain) ≡ plain
  pub text_size : (k : Keys) (plain : List ℕ) → length (encipher k plain) ≡ length plain
  pub tag_size : (k : Keys) (text : List ℕ) → length (tag_of k text) ≡ 16

-- How far the calls on a context have come; the flag is true for encryption.
pub data Stage : Type 0 where
  fresh : Stage
  chosen : (encrypts : Bool) → (bits : ℕ) → Stage
  sized : (encrypts : Bool) → (bits size : ℕ) → Stage
  keyed : (encrypts : Bool) → Keys → Stage
  sealing sealed : Keys → (plain : List ℕ) → Stage
  tagged : Keys → (tag : List ℕ) → Stage
  opening : Keys → (tag text : List ℕ) → Stage

-- Each call, on a context of the right stage. A call that sets up a context may fail, but what succeeds
-- for encryption succeeds for decryption, too. Behind the set-up, decryption fails at a wrong tag only. An
-- update writes as many bytes as it is given, so that nothing is left for the end.
pub record IsGcm {Context : Type 0} (gcm : Gcm) (evp : Evp Context)
    (Holds : Context → Stage → Type 0) : Type 0 where
  pub creates : (x : Context) → evp.create ≡ some x → Holds x fresh
  pub initializes :
      (encrypts : Bool) (bits : ℕ) (x y : Context)
      → Holds x fresh
      → evp.initialize encrypts bits x ≡ some y
      → Holds y (chosen encrypts bits)
  pub sets_iv_length :
      (encrypts : Bool) (bits size : ℕ) (x y : Context)
      → Holds x (chosen encrypts bits)
      → evp.set_iv_length size x ≡ some y
      → Holds y (sized encrypts bits size)
  pub sets_key :
      (encrypts : Bool) (bits : ℕ) (key nonce : List ℕ) (x y : Context)
      → Holds x (sized encrypts bits (length nonce))
      → evp.set_key encrypts key nonce x ≡ some y
      → Holds y (keyed encrypts (record { bits = bits; key = key; nonce = nonce; aad = [] }))
  pub adds_aad :
      (encrypts : Bool) (k : Keys) (aad : List ℕ) (x y : Context)
      → Holds x (keyed encrypts k)
      → evp.add_aad encrypts aad x ≡ some y
      → Holds y (keyed encrypts (record k { aad = k.aad ++ aad }))
  pub initializes_both :
      (bits : ℕ) (x x' y : Context)
      → Holds x fresh
      → Holds x' fresh
      → evp.initialize true bits x ≡ some y
      → (y' : Context) × (evp.initialize false bits x' ≡ some y')
  pub sets_iv_length_both :
      (bits size : ℕ) (x x' y : Context)
      → Holds x (chosen true bits)
      → Holds x' (chosen false bits)
      → evp.set_iv_length size x ≡ some y
      → (y' : Context) × (evp.set_iv_length size x' ≡ some y')
  pub sets_key_both :
      (bits : ℕ) (key nonce : List ℕ) (x x' y : Context)
      → Holds x (sized true bits (length nonce))
      → Holds x' (sized false bits (length nonce))
      → evp.set_key true key nonce x ≡ some y
      → (y' : Context) × (evp.set_key false key nonce x' ≡ some y')
  pub adds_aad_both :
      (k : Keys) (aad : List ℕ) (x x' y : Context)
      → Holds x (keyed true k)
      → Holds x' (keyed false k)
      → evp.add_aad true aad x ≡ some y
      → (y' : Context) × (evp.add_aad false aad x' ≡ some y')
  pub enciphers :
      (k : Keys) (plain text : List ℕ) (x y : Context)
      → Holds x (keyed true k)
      → evp.update true plain x ≡ some (text, y)
      → (text ≡ gcm.encipher k plain) × Holds y (sealing k plain)
  pub seals :
      (k : Keys) (plain rest : List ℕ) (x y : Context)
      → Holds x (sealing k plain)
      → evp.finalize true x ≡ some (rest, y)
      → (rest ≡ []) × Holds y (sealed k plain)
  pub gets_tag :
      (k : Keys) (plain tag : List ℕ) (x : Context)
      → Holds x (sealed k plain)
      → evp.get_tag 16 x ≡ some tag
      → tag ≡ gcm.tag_of k (gcm.encipher k plain)
  pub sets_tag :
      (k : Keys) (tag : List ℕ) (x : Context)
      → Holds x (keyed false k)
      → length tag ≡ 16
      → (y : Context) × (evp.set_tag tag x ≡ some y) × Holds y (tagged k tag)
  pub opens :
      (k : Keys) (tag text : List ℕ) (x : Context)
      → Holds x (tagged k tag)
      → (y : Context) × (evp.update false text x ≡ some (gcm.decipher k text, y))
        × Holds y (opening k tag text)
  pub accepts :
      (k : Keys) (tag text : List ℕ) (x : Context)
      → Holds x (opening k tag text)
      → tag ≡ gcm.tag_of k text
      → (y : Context) × (evp.finalize false x ≡ some ([], y))
  pub refuses :
      (k : Keys) (tag text : List ℕ) (x : Context)
      → Holds x (opening k tag text)
      → tag ≢ gcm.tag_of k text
      → evp.finalize false x ≡ none
