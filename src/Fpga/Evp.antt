-- ===== src/Fpga/Evp.antt =====
-- SatelliteQUICProxy/proxy/src/fpga_interface.cpp: FPGAInterface::simulateCryptoOperation. OpenSSL is a
-- parameter: a context is opaque, and a call that answers `none` has failed. In GCM mode a call writes no
-- more bytes than it was given, so the output is the concatenation of what the calls write. The simulated
-- delay is left out.
mod Tests
pub mod Gcm
pub mod Calls
pub mod RoundTrip
use satellite_quic_proxy.Base.{
  ℕ, zero, suc, ◌+◌, ◌-◌, ◌%◌, Bool, true, false, Option, none, some, List, [], ◌∷◌, ◌++◌, length,
  take, drop, replicate, ltb, ◌==◌, if◌then◌else◌, u32_mod,
}
use satellite_quic_proxy.Fpga.Operation.{
  FpgaOperationType, FpgaOperationResult, empty_result, crypto_encrypt, ErrorMessage,
  failed_to_create_context, unsupported_key_size, failed_to_initialize, failed_to_set_iv_length,
  failed_to_set_key, failed_to_set_aad, failed_during_cipher, failed_to_finalize, failed_to_get_tag,
  failed_to_set_tag, authentication_failed, input_too_small,
}
use satellite_quic_proxy.Fpga.PacketUnit.{is_empty}
use satellite_quic_proxy.Fpga.Hardware.{CryptoInput}

-- The calls of OpenSSL that the source makes; the flag is true for those named EVP_Encrypt..., and
-- false for those named EVP_Decrypt....
pub record Evp (Context : Type 0) : Type 0 where
  pub create : Option Context
  pub initialize : Bool → ℕ → Context → Option Context
  pub set_iv_length : ℕ → Context → Option Context
  pub set_key : Bool → List ℕ → List ℕ → Context → Option Context
  pub add_aad : Bool → List ℕ → Context → Option Context
  pub update : Bool → List ℕ → Context → Option (List ℕ × Context)
  pub finalize : Bool → Context → Option (List ℕ × Context)
  pub get_tag : ℕ → Context → Option (List ℕ)
  pub set_tag : List ℕ → Context → Option Context

-- A value, or the text of the exception and what `result.data` holds then.
pub data Attempt (A : Type 0) : Type 0 where
  got : A → Attempt A
  threw : ErrorMessage → List ℕ → Attempt A

infixl 5 ◌>>=◌
abbrev pub ◌>>=◌ : {A B : Type 0} → Attempt A → (A → Attempt B) → Attempt B
got a >>= f = f a
threw text held >>= f = threw text held

-- `if (1 != ...) throw std::runtime_error(text)`
abbrev pub or_throw : {A : Type 0} → Option A → ErrorMessage → List ℕ → Attempt A
or_throw none text held = threw text held
or_throw (some a) text held = got a

-- `result.data.resize(inputData.size() + 16)`
pub blank : List ℕ → List ℕ
blank bytes = replicate (length bytes + 16) 0

-- Bytes written over the first ones of a buffer.
pub over : List ℕ → List ℕ → List ℕ
over body buffer = body ++ drop (length body) buffer

-- The three sizes of a key, in bytes.
pub select_cipher : ℕ → Attempt ℕ
select_cipher n =
    if n == 16
    then got 128
    else if n == 24
    then got 192
    else if n == 32
    then got 256
    else threw unsupported_key_size []

pub is_encrypt : FpgaOperationType → Bool
is_encrypt crypto_encrypt = true
is_encrypt type = false

-- The end of the function behind the `try` block.
pub finish : List ℕ → Attempt (List ℕ) → FpgaOperationResult
finish bytes (got output) = record empty_result {
  success = true;
  output = output;
  bytes_processed = length bytes % u32_mod;
}
finish bytes (threw text held) = record empty_result {
  output = held;
  bytes_processed = length bytes % u32_mod;
  error_message = text;
}

module _ {Context : Type 0} (evp : Evp Context) where
  -- No call is made for additional data without bytes.
  pub provide_aad : Bool → List ℕ → Context → Attempt Context
  provide_aad encrypts [] context = got context
  provide_aad encrypts (a ∷ aad) context =
      or_throw (evp.add_aad encrypts (a ∷ aad) context) failed_to_set_aad []

  -- Up to the additional data, the same calls for both directions.
  pub prepare : Bool → CryptoInput → Context → Attempt Context
  prepare encrypts c context = do
    size ← select_cipher (length c.key)
    x ← or_throw (evp.initialize encrypts size context) failed_to_initialize []
    y ← or_throw (evp.set_iv_length (length c.nonce) x) failed_to_set_iv_length []
    z ← or_throw (evp.set_key encrypts c.key c.nonce y) failed_to_set_key []
    provide_aad encrypts c.aad z

  -- The ciphertext with the tag of 16 bytes behind it.
  pub encrypt : List ℕ → Context → Attempt (List ℕ)
  encrypt bytes context = do
    (body, x) ← or_throw (evp.update true bytes context) failed_during_cipher (blank bytes)
    (rest, y) ← or_throw (evp.finalize true x) failed_to_finalize (over body (blank bytes))
    tag ← or_throw (evp.get_tag 16 y) failed_to_get_tag (over (body ++ rest) (blank bytes))
    got ((body ++ rest) ++ tag)

  -- The last 16 bytes of the input are the tag. The check of the tag comes behind the decryption.
  pub decrypt : List ℕ → Context → Attempt (List ℕ)
  decrypt bytes context = if ltb (length bytes) 16 then threw input_too_small (blank bytes) else (do
    x ←
        or_throw (evp.set_tag (drop (length bytes - 16) bytes) context) failed_to_set_tag
          (blank bytes)
    (body, y) ←
        or_throw (evp.update false (take (length bytes - 16) bytes) x) failed_during_cipher
          (blank bytes)
    (rest, z) ← or_throw (evp.finalize false y) authentication_failed (over body (blank bytes))
    got (body ++ rest))

  -- The `try` block.
  pub cipher : FpgaOperationType → CryptoInput → Context → Attempt (List ℕ)
  cipher type c context = do
    x ← prepare (is_encrypt type) c context
    if is_encrypt type then encrypt c.bytes x else decrypt c.bytes x

  -- The result, and the number by which `m_cryptoOpsCount` grows: it counts what failed, too.
  pub simulate_crypto_operation : FpgaOperationType → CryptoInput → FpgaOperationResult × ℕ
  simulate_crypto_operation type c = elim evp.create [
    | none ↦ (
      record empty_result {
        bytes_processed = length c.bytes % u32_mod;
        error_message = failed_to_create_context;
      },
      0,
    )
    | some context ↦ (finish c.bytes (cipher type c context), 1)
  ]
