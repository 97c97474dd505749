-- ===== src/Vault/Primitives.antt =====
-- The daemon's primitives as crates/sshwarden-api/src/crypto.rs has them: what the vault assumes of
-- them is what that file keeps.
use sshwarden.Base.{
  ◌≡◌, ap, ◌∙◌, true, ◌++◌, Option, none, some, arith, Text, length, take, drop, take-append-drop,
  length-take, length-append, is_utf8, Result, ok, err,
}
use sshwarden.Crypto
use sshwarden.Crypto.{CryptoLib, symmetric_key_of}
use sshwarden.Crypto.EncString.{decrypt-encrypt}
use sshwarden.Crypto.EncString
use sshwarden.Crypto.Keys.{IsKey, decode-encode_symmetric_key, pin_decrypt-encrypt}
use sshwarden.Vault.{World}
use sshwarden.Vault.RoundTrip.{IsLawful}

-- `Result::ok`.
abbrev pub answer : {E A : Type 0} → Result E A → Option A
answer r = elim r [ err failure ↦ none | ok value ↦ some value ]

abbrev key_of : Crypto.Fallible Crypto.SymmetricKey → Option Text
key_of r = elim r [ err failure ↦ none | ok key ↦ some (key.enc_key ++ key.mac_key) ]

-- The rest of the world, with the crates, the random bytes of a vector, a salt and a key.
abbrev pub with_crypto : CryptoLib → Text → Text → Text → World → World
with_crypto lib iv salt key w = record w {
  decode_base64 = lib.decode_base64;
  encode_base64 = lib.encode_base64;
  pin_decrypt_with_salt =
      λ encrypted pin salt. answer (Crypto.pin_decrypt_with_salt lib encrypted pin salt);
  pin_encrypt_with_salt =
      λ plain pin salt. answer (Crypto.pin_encrypt_with_salt lib iv plain pin salt);
  legacy_pin_salt = Crypto.legacy_pin_salt lib;
  random_pin_salt = salt;
  random_symmetric_key = key;
  decode_symmetric_key = λ encoded. key_of (Crypto.decode_symmetric_key lib encoded);
  encode_symmetric_key = λ k. Crypto.encode_symmetric_key lib (symmetric_key_of k);
  decrypt_enc_string =
      λ encrypted k. answer (Crypto.decrypt_enc_string lib encrypted (symmetric_key_of k));
  encrypt_enc_string =
      λ plain k. answer (Crypto.encrypt_enc_string lib iv plain (symmetric_key_of k));
}

symmetric_key_of-IsKey : (k : Text) → length k ≡ 64 → IsKey (symmetric_key_of k)
symmetric_key_of-IsKey k e = record {
  enc_length = omega (arith, length-take 32 k, e);
  mac_length = omega (
    arith,
    length-take 32 k,
    e,
    length-append (take 32 k) (drop 32 k),
    ap length (take-append-drop 32 k),
  );
}

answer-ok : {E A : Type 0} (r : Result E A) (a : A) → answer r ≡ some a → r ≡ ok a
answer-ok (err failure) a e = ground (arith, e)
answer-ok (ok value) a e = ground (arith, e)

key_text :
    (lib : CryptoLib) (k : Text)
    → ((bytes : Text) → is_utf8 (lib.encode_base64 bytes) ≡ true)
    → is_utf8 (Crypto.encode_symmetric_key lib (symmetric_key_of k)) ≡ true
unfolding Crypto.encode_symmetric_key
key_text lib k texts = texts _

-- The primitives of crypto.rs are lawful, with crates that keep their promises and base64 whose output
-- is a text: the caches of the vault are read back by them as they were written.
pub with_crypto-IsLawful :
    (lib : CryptoLib) (iv salt key : Text) (w : World)
    → EncString.IsLawful lib
    → ((bytes : Text) → is_utf8 (lib.encode_base64 bytes) ≡ true)
    → IsLawful (with_crypto lib iv salt key w)
with_crypto-IsLawful lib iv salt key w laws texts = record {
  base64 = laws.base64;
  symmetric_key = λ k size.
      ap key_of
        (decode-encode_symmetric_key lib laws (symmetric_key_of k) (symmetric_key_of-IsKey k size))
      ∙ ap some (take-append-drop 32 k);
  pin = λ k pin salt' encrypted e. ap answer (
      pin_decrypt-encrypt lib laws iv _ pin salt' encrypted (key_text lib k texts)
        (answer-ok _ encrypted e));
  payload = λ plain k encrypted e.
      ap answer (
        decrypt-encrypt lib laws iv plain (symmetric_key_of k) encrypted (answer-ok _ encrypted e));
}
