-- ===== src/Llm/Crypto.antt =====
-- Encryption of stored secrets (app/llm/crypto.py). AES-GCM, base64 and UTF-8 are the parameter
-- `Cipher`; the random nonce is an argument.
pub mod Laws
use oss_us_web_design_system.Base.{
  ℕ, suc, ◌-◌, ◌≡◌, ◌≢◌, refl, Bool, true, false, not, ◌&&◌, Option, none, some, List, [], ◌∷◌,
  ◌++◌, length, Result, ok, err, ◌==◌, leb, ◌||◌, if◌then◌else◌, arith, Bool-cases, Option-cases,
  inl, inr, Text, text_eq, take, drop, Result-cases,
}

pub data CryptoError : Type 0 where
  decryption_error : CryptoError
  insecure_key_error : CryptoError
  value_error : CryptoError

-- What the program takes from `cryptography`, `base64` and the codecs: a token that base64 wrote is
-- read back, a text that UTF-8 encodes is decoded from its bytes, and AES-GCM opens what it sealed
-- under the same key and nonce; what it seals is not empty, since it ends in the tag. `none` is an
-- exception.
pub record Cipher : Type 0 where
  pub fromhex : Text → Option (List ℕ)
  pub b64encode : List ℕ → Text
  pub b64decode : Text → Option (List ℕ)
  pub utf8_encode : Text → Option (List ℕ)
  pub utf8_decode : List ℕ → Option Text
  pub seal : List ℕ → List ℕ → List ℕ → List ℕ
  pub open_sealed : List ℕ → List ℕ → List ℕ → Option (List ℕ)
  pub b64decode-b64encode : (b : List ℕ) → b64decode (b64encode b) ≡ some b
  pub utf8_decode-utf8_encode :
      (t : Text) (b : List ℕ) → utf8_encode t ≡ some b → utf8_decode b ≡ some t
  pub open_sealed-seal : (key nonce b : List ℕ) → open_sealed key nonce (seal key nonce b) ≡ some b
  pub seal_nonempty : (key nonce b : List ℕ) → seal key nonce b ≢ []

-- The settings that the key depends on (app/config.py).
pub record CryptoSettings : Type 0 where
  pub is_prod : Bool
  pub llm_encryption_key : Text
  pub llm_enc_key_dev_default : Text

abbrev pub nonce_bytes : ℕ
nonce_bytes = 12

abbrev is_nil : List ℕ → Bool
is_nil [] = true
is_nil (_ ∷ _) = false

module _ (cipher : Cipher) (s : CryptoSettings) where
  -- `_load_key`.
  unfoldable pub load_key : Result CryptoError (List ℕ)
  load_key =
      if s.is_prod && text_eq s.llm_encryption_key s.llm_enc_key_dev_default
      then err insecure_key_error
      else elim (cipher.fromhex s.llm_encryption_key) [
        | none ↦ err value_error
        | some raw ↦ if not (length raw == 32) then err value_error else ok raw
      ]

  unfoldable pub encrypt : List ℕ → Text → Result CryptoError Text
  unfolding load_key
  encrypt nonce plaintext = elim load_key [
    | err e ↦ err e
    | ok key ↦ elim (cipher.utf8_encode plaintext) [
      | none ↦ err value_error
      | some bytes ↦ ok (cipher.b64encode (nonce ++ cipher.seal key nonce bytes))
    ]
  ]

  -- `AESGCM(_load_key()).decrypt(nonce, ct, None).decode("utf-8")`, with the errors that the handler
  -- turns into `DecryptionError`.
  unfoldable pub open_blob : List ℕ → List ℕ → Result CryptoError Text
  unfolding load_key
  open_blob nonce ct = elim load_key [
    | err e ↦ elim e [
      | insecure_key_error ↦ err insecure_key_error
      | decryption_error ↦ err decryption_error
      | value_error ↦ err decryption_error
    ]
    | ok key ↦ elim (cipher.open_sealed key nonce ct) [
      | none ↦ err decryption_error
      | some bytes ↦ elim (cipher.utf8_decode bytes) [ none ↦ err decryption_error | some t ↦ ok t ]
    ]
  ]

  unfoldable pub decrypt : Text → Result CryptoError Text
  unfolding open_blob
  decrypt token = elim (cipher.b64decode token) [
    | none ↦ err decryption_error
    | some blob ↦
        let nonce = take nonce_bytes blob in
        let ct = drop nonce_bytes blob in
        if not (length nonce == nonce_bytes) || is_nil ct
        then err decryption_error
        else open_blob nonce ct
  ]

-- The last characters of a key, `plaintext[-4:]`, after four bullets.
unfoldable pub mask : Text → Text
mask plaintext =
    let bullets = 8226 ∷ 8226 ∷ 8226 ∷ 8226 ∷ [] in
    if leb (length plaintext) 4 then bullets else bullets ++ drop (length plaintext - 4) plaintext
