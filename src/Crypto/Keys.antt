-- ===== src/Crypto/Keys.antt =====
-- Symmetric keys as texts and encryption under a PIN; with them crypto.rs keeps what the daemon assumes
-- of its primitives.
use sshwarden.Base.{
  ℕ, ◌≡◌, refl, inl, inr, true, ◌++◌, arith, Text, length, take, drop, take-append, drop-append,
  length-append, is_utf8, ok, Result-cases,
}
use sshwarden.Crypto.{
  SymmetricKey, CryptoLib, split_key, encode_symmetric_key, decode_symmetric_key,
  derive_pin_key_with_salt, pin_encrypt_with_salt, pin_decrypt_with_salt,
}
use sshwarden.Crypto.EncString.{IsLawful, decrypt-encrypt}

pub record IsKey (key : SymmetricKey) : Type 0 where
  pub enc_length : length key.enc_key ≡ 32
  pub mac_length : length key.mac_key ≡ 32

take-enc_key : (n : ℕ) (a b : Text) → length a ≡ n → (take n (a ++ b) ≡ a) × (drop n (a ++ b) ≡ b)
take-enc_key n a b e = rw (← e) (take-append a b, drop-append a b)

pub split_key-append :
    (key : SymmetricKey) → IsKey key → split_key (key.enc_key ++ key.mac_key) ≡ ok key
split_key-append key k =
    let parts = take-enc_key 32 key.enc_key key.mac_key k.enc_length in
    let size : length (key.enc_key ++ key.mac_key) ≡ 64 =
      omega (arith, length-append key.enc_key key.mac_key, k.enc_length, k.mac_length) in
    rw (size, parts.0, parts.1) refl

module _ (lib : CryptoLib) (laws : IsLawful lib) where
  -- A key with two halves of 32 bytes is read back from its text.
  pub decode-encode_symmetric_key :
      (key : SymmetricKey)
      → IsKey key
      → decode_symmetric_key lib (encode_symmetric_key lib key) ≡ ok key
  unfolding decode_symmetric_key encode_symmetric_key
  decode-encode_symmetric_key key k =
      rw (laws.base64 (key.enc_key ++ key.mac_key)) (split_key-append key k)

  -- What was encrypted under a PIN and a salt is read back with both.
  pub pin_decrypt-encrypt :
      (iv plain pin salt encrypted : Text)
      → is_utf8 plain ≡ true
      → pin_encrypt_with_salt lib iv plain pin salt ≡ ok encrypted
      → pin_decrypt_with_salt lib encrypted pin salt ≡ ok plain
  unfolding pin_encrypt_with_salt pin_decrypt_with_salt
  pin_decrypt-encrypt iv plain pin salt encrypted u e =
      elim (Result-cases (derive_pin_key_with_salt lib pin salt)) [
        | inl (failure, f) ↦ absurd (ground (arith, f))
        | inr (key, f) ↦
            ground
              (arith, f, u, decrypt-encrypt lib laws iv plain key encrypted (ground (arith, f)))
      ]
