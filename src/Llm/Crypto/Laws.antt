-- ===== src/Llm/Crypto/Laws.antt =====
-- What is encrypted is decrypted under the same settings.
use oss_us_web_design_system.Base.{
  ℕ, ◌≡◌, ◌≢◌, refl, ap, false, List, [], ◌∷◌, ◌++◌, length, ok, arith, Text, take, drop,
  Result-cases, Option-cases, inl, inr,
}
use oss_us_web_design_system.Llm.Crypto.{
  Cipher, CryptoSettings, nonce_bytes, is_nil, load_key, encrypt, open_blob, decrypt,
}

take-prefix : (xs ys : List ℕ) → take (length xs) (xs ++ ys) ≡ xs
take-prefix [] ys = refl
take-prefix (x ∷ xs) ys = ap (λ zs. x ∷ zs) (take-prefix xs ys)

drop-prefix : (xs ys : List ℕ) → drop (length xs) (xs ++ ys) ≡ ys
drop-prefix [] ys = refl
drop-prefix (x ∷ xs) ys = drop-prefix xs ys

is_nil-false : (xs : List ℕ) → xs ≢ [] → is_nil xs ≡ false
is_nil-false [] h = absurd (h refl)
is_nil-false (x ∷ xs) h = refl

-- A text that is encrypted under a nonce of twelve bytes decrypts to itself.
pub decrypt-encrypt :
    (cipher : Cipher) (s : CryptoSettings) (nonce : List ℕ) (plaintext : Text) {token : Text}
    → length nonce ≡ nonce_bytes
    → encrypt cipher s nonce plaintext ≡ ok token
    → decrypt cipher s token ≡ ok plaintext
unfolding encrypt decrypt open_blob
decrypt-encrypt cipher s nonce plaintext {token} n e = elim (Result-cases (load_key cipher s)) [
  | inr (x, f) ↦ absurd (ground (arith, f))
  | inl (key, f) ↦ elim (Option-cases (cipher.utf8_encode plaintext)) [
    | inl g ↦ absurd (ground (arith, f, g))
    | inr (bytes, g) ↦
        let blob = nonce ++ cipher.seal key nonce bytes in
        let t : cipher.b64encode blob ≡ token = ground (arith, f, g) in
        let a : take nonce_bytes blob ≡ nonce =
          rw (← n) (take-prefix nonce (cipher.seal key nonce bytes)) in
        let b : drop nonce_bytes blob ≡ cipher.seal key nonce bytes =
          rw (← n) (drop-prefix nonce (cipher.seal key nonce bytes)) in
        rw (
          ← t,
          cipher.b64decode-b64encode blob,
          decrypt,
          a,
          b,
          n,
          is_nil-false (cipher.seal key nonce bytes) (cipher.seal_nonempty key nonce bytes),
          open_blob,
          f,
          a,
          b,
          cipher.open_sealed-seal key nonce bytes,
          cipher.utf8_decode-utf8_encode plaintext bytes g,
        )
  ]
]
