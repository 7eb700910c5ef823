-- ===== src/Fpga/Evp/Calls.antt =====
-- The calls of a simulated cryptographic operation, over the laws of the single calls.
use satellite_quic_proxy.Base.{
  ℕ, ◌-◌, ◌≡◌, ◌≢◌, refl, ap, ◌∙◌, true, false, Option, none, some, List, [], ◌∷◌, ◌++◌, length,
  length-append, take, drop, take_length-append, drop_length-append, ltb, append-nil, arith, subst,
}
use satellite_quic_proxy.Fpga.Operation.{ErrorMessage, authentication_failed}
use satellite_quic_proxy.Fpga.Hardware.{CryptoInput}
use satellite_quic_proxy.Fpga.Evp.{
  Evp, Attempt, got, threw, ◌>>=◌, or_throw, blank, over, select_cipher, provide_aad, prepare,
  encrypt, decrypt,
}
use satellite_quic_proxy.Fpga.Evp.Gcm.{Keys, Gcm, Stage, IsGcm, keyed}

bind_got :
    {A B : Type 0} (a : Attempt A) (f : A → Attempt B) (y : B)
    → a >>= f ≡ got y
    → (x : A) × (a ≡ got x) × (f x ≡ got y)
bind_got (got x) f y h = (x, refl, h)
bind_got (threw text held) f y h = absurd (cc)

or_throw_got :
    {A : Type 0} (o : Option A) (text : ErrorMessage) (held : List ℕ) (y : A)
    → or_throw o text held ≡ got y
    → o ≡ some y
or_throw_got none text held y h = absurd (cc)
or_throw_got (some x) text held y h = cc

-- The two together: a step that did not throw.
step_got :
    {A B : Type 0} (o : Option A) (text : ErrorMessage) (held : List ℕ) (f : A → Attempt B) (y : B)
    → or_throw o text held >>= f ≡ got y
    → (x : A) × (o ≡ some x) × (f x ≡ got y)
step_got none text held f y h = absurd (cc)
step_got (some x) text held f y h = (x, refl, h)

-- The tag is split off where it was put.
pub split_tag :
    (body tag : List ℕ)
    → length tag ≡ 16
    → (ltb (length (body ++ tag)) 16 ≡ false)
      × (drop (length (body ++ tag) - 16) (body ++ tag) ≡ tag)
      × (take (length (body ++ tag) - 16) (body ++ tag) ≡ body)
split_tag body tag h =
    let e : length (body ++ tag) - 16 ≡ length body = omega (arith, length-append {0} body tag) in
    (
      let l = length-append {0} body tag in ground arith,
      rw e (drop_length-append body tag),
      rw e (take_length-append body tag),
    )

abbrev keys : ℕ → CryptoInput → List ℕ → Keys
keys bits c aad = record { bits = bits; key = c.key; nonce = c.nonce; aad = aad }

module _ {Context : Type 0} (gcm : Gcm) (evp : Evp Context) (Holds : Context → Stage → Type 0)
    (laws : IsGcm gcm evp Holds) where
  provide_both :
      (c : CryptoInput) (bits : ℕ) (aad : List ℕ) (x x' y : Context)
      → Holds x (keyed true (keys bits c []))
      → Holds x' (keyed false (keys bits c []))
      → provide_aad evp true aad x ≡ got y
      → Holds y (keyed true (keys bits c aad))
        × (y' : Context) × (provide_aad evp false aad x' ≡ got y')
        × Holds y' (keyed false (keys bits c aad))
  unfolding provide_aad
  provide_both c bits [] x x' y hx hx' h =
      (subst (λ u. Holds u (keyed true (keys bits c []))) (cc) hx, x', refl, hx')
  provide_both c bits (a ∷ aad) x x' y hx hx' h =
      let e = or_throw_got _ _ _ y h in
      let (y', e') = laws.adds_aad_both (keys bits c []) (a ∷ aad) x x' y hx hx' e in
      (
        laws.adds_aad true (keys bits c []) (a ∷ aad) x y hx e,
        y',
        rw e' refl,
        laws.adds_aad false (keys bits c []) (a ∷ aad) x' y' hx' e',
      )

  prepare_steps :
      (c : CryptoInput) (bytes : List ℕ) (bits : ℕ) (x x1 x2 x3 y : Context)
      → select_cipher (length c.key) ≡ got bits
      → evp.initialize false bits x ≡ some x1
      → evp.set_iv_length (length c.nonce) x1 ≡ some x2
      → evp.set_key false c.key c.nonce x2 ≡ some x3
      → provide_aad evp false c.aad x3 ≡ got y
      → prepare evp false (record c { bytes = bytes }) x ≡ got y
  unfolding prepare
  prepare_steps c bytes bits x x1 x2 x3 y s e1 e2 e3 e4 = rw (s, e1, e2, e3) e4

  -- What could be prepared for encryption can be prepared for decryption, with the same keys.
  pub prepare_both :
      (c : CryptoInput) (bytes : List ℕ) (x y : Context)
      → evp.create ≡ some x
      → prepare evp true c x ≡ got y
      → (k : Keys) × Holds y (keyed true k)
        × (y' : Context) × (prepare evp false (record c { bytes = bytes }) x ≡ got y')
        × Holds y' (keyed false k)
  unfolding prepare
  prepare_both c bytes x y created h =
      let new = laws.creates x created in
      let (bits, s, h1) = bind_got (select_cipher (length c.key)) _ y h in
      let (x1, e1, h2) = step_got (evp.initialize true bits x) _ _ _ y h1 in
      let (x2, e2, h3) = step_got (evp.set_iv_length (length c.nonce) x1) _ _ _ y h2 in
      let (x3, e3, h4) = step_got (evp.set_key true c.key c.nonce x2) _ _ _ y h3 in
      let k1 = laws.initializes true bits x x1 new e1 in
      let k2 = laws.sets_iv_length true bits (length c.nonce) x1 x2 k1 e2 in
      let k3 = laws.sets_key true bits c.key c.nonce x2 x3 k2 e3 in
      let (z1, f1) = laws.initializes_both bits x x x1 new new e1 in
      let l1 = laws.initializes false bits x z1 new f1 in
      let (z2, f2) = laws.sets_iv_length_both bits (length c.nonce) x1 z1 x2 k1 l1 e2 in
      let l2 = laws.sets_iv_length false bits (length c.nonce) z1 z2 l1 f2 in
      let (z3, f3) = laws.sets_key_both bits c.key c.nonce x2 z2 x3 k2 l2 e3 in
      let l3 = laws.sets_key false bits c.key c.nonce z2 z3 l2 f3 in
      let (held, y', provided, held') = provide_both c bits c.aad x3 z3 y k3 l3 h4 in
      (
        keys bits c c.aad,
        held,
        y',
        prepare_steps c bytes bits x z1 z2 z3 y' s f1 f2 f3 provided,
        held',
      )

  -- An encryption that does not throw gives the ciphertext with its tag.
  pub encrypt_got :
      (k : Keys) (bytes : List ℕ) (x : Context) (output : List ℕ)
      → Holds x (keyed true k)
      → encrypt evp bytes x ≡ got output
      → output ≡ gcm.encipher k bytes ++ gcm.tag_of k (gcm.encipher k bytes)
  unfolding encrypt
  encrypt_got k bytes x output holds h =
      let ((body, y), e, h1) = step_got (evp.update true bytes x) _ _ _ output h in
      let ((rest, z), f, h2) = step_got (evp.finalize true y) _ _ _ output h1 in
      let (tag, g, h3) = step_got (evp.get_tag 16 z) _ _ _ output h2 in
      let (text, sealing) = laws.enciphers k bytes body x y holds e in
      let (last, sealed) = laws.seals k bytes rest y z sealing f in
      let right = laws.gets_tag k bytes tag z sealed g in
      let none_left : body ++ rest ≡ body = ap (λ (l : List ℕ). body ++ l) last ∙ append-nil body in
      cc

  -- Decryption with the right tag gives the plaintext.
  pub decrypt_got :
      (k : Keys) (text tag : List ℕ) (x : Context)
      → Holds x (keyed false k)
      → length tag ≡ 16
      → tag ≡ gcm.tag_of k text
      → decrypt evp (text ++ tag) x ≡ got (gcm.decipher k text)
  unfolding decrypt
  decrypt_got k text tag x holds size right =
      let (large, back, front) = split_tag text tag size in
      let (y, s, tagged) = laws.sets_tag k tag x holds size in
      let (z, u, opening) = laws.opens k tag text y tagged in
      let (w, f) = laws.accepts k tag text z opening right in
      rw (large, back, front, s, u, f) (ap got (append-nil (gcm.decipher k text)))

  -- With another tag it throws, and holds what it has deciphered.
  pub decrypt_threw :
      (k : Keys) (text tag : List ℕ) (x : Context)
      → Holds x (keyed false k)
      → length tag ≡ 16
      → tag ≢ gcm.tag_of k text
      → decrypt evp (text ++ tag) x
        ≡ threw authentication_failed (over (gcm.decipher k text) (blank (text ++ tag)))
  unfolding decrypt
  decrypt_threw k text tag x holds size wrong =
      let (large, back, front) = split_tag text tag size in
      let (y, s, tagged) = laws.sets_tag k tag x holds size in
      let (z, u, opening) = laws.opens k tag text y tagged in
      let f = laws.refuses k tag text z opening wrong in rw (large, back, front, s, u, f) refl
