-- ===== src/Crypto.antt =====
-- crates/sshwarden-api/src/crypto.rs: the text form of encrypted values, the keys behind them, and the
-- encryption under a PIN. A `&[u8]` and a `String` are lists of bytes, a `String` in UTF-8. What the
-- crates aes, cbc, hmac, hkdf, pbkdf2, argon2, sha2 and base64 compute is the record `CryptoLib`, and
-- the bytes that are drawn at random are arguments.
pub mod EncString
pub mod Keys
pub mod Example
mod Tests
use sshwarden.Base.{
  ℕ, ◌+◌, ◌*◌, ◌-◌, ◌%◌, ◌^◌, Bool, true, false, not, ◌||◌, List, [], ◌∷◌, ◌++◌, Option, none, some,
  ltb, leb, ◌==◌, if◌then◌else◌, Text, codes, text_eq, length, take, drop, is_utf8, trim, Result,
  ok, err, ensure, ◌>>=◌, ◌>>◌,
}

pub record SymmetricKey : Type 0 where
  pub enc_key : Text
  pub mac_key : Text

pub data KdfType : Type 0 where
  pbkdf2 argon2id : KdfType

pub record PreloginResponse : Type 0 where
  pub kdf : KdfType
  pub kdf_iterations : ℕ
  pub kdf_memory : Option ℕ
  pub kdf_parallelism : Option ℕ

pub data CryptoError : Type 0 where
  no_separator invalid_type wrong_parts bad_base64 bad_key bad_padding bad_mac : CryptoError
  not_utf8 no_kdf_memory no_kdf_parallelism bad_argon2 : CryptoError
  unsupported_type unexpected_length : ℕ → CryptoError

-- The crates: a function that can refuse its key or its parameters gives nothing then.
pub record CryptoLib : Type 0 where
  pub encode_base64 : Text → Text
  pub decode_base64 : Text → Option Text
  -- whether AES-256-CBC takes a key and an initialisation vector, and what it does with them
  pub cbc_accepts : Text → Text → Bool
  pub cbc_encrypt : Text → Text → Text → Text
  pub cbc_decrypt : Text → Text → Text → Option Text
  pub hmac_sha256 : Text → Text → Option Text
  pub hkdf_expand : Text → Text → Option Text
  pub pbkdf2_hmac : Text → Text → ℕ → Text
  pub sha256 : Text → Text
  -- password, salt, memory, iterations, parallelism, length of the result
  pub argon2 : Text → Text → ℕ → ℕ → ℕ → ℕ → Option Text
  pub to_lowercase : Text → Text

abbrev pub Fallible : Type 0 → Type 0
Fallible A = Result CryptoError A

-- `ok_or_else`, `context` and `map_err`.
abbrev pub or_err : {A : Type 0} → Option A → CryptoError → Fallible A
or_err o failure = elim o [ none ↦ err failure | some value ↦ ok value ]

-- `str::split_once` and `str::split`, with a character.
unfoldable pub split_once : ℕ → Text → Option (Text × Text)
split_once separator [] = none
split_once separator (c ∷ s) =
    let rest = split_once separator s in
    if c == separator
    then some ([], s)
    else elim rest [ none ↦ none | some (before, behind) ↦ some (c ∷ before, behind) ]

abbrev pub put_first : ℕ → List Text → List Text
put_first c [] = (c ∷ []) ∷ []
put_first c (part ∷ parts) = (c ∷ part) ∷ parts

unfoldable pub split : ℕ → Text → List Text
split separator [] = [] ∷ []
split separator (c ∷ s) =
    let parts = split separator s in if c == separator then [] ∷ parts else put_first c parts

-- `u8::from_str`: decimal digits behind an optional `+`, of a value below 256.
unfoldable pub digits_from : ℕ → Text → Option ℕ
digits_from value [] = some value
digits_from value (c ∷ s) =
    let value' = value * 10 + (c - b'0') in
    let rest = digits_from value' s in
    if leb b'0' c
    then (if leb c b'9' then (if ltb value' 256 then rest else none) else none)
    else none

unfoldable pub parse_digits : Text → Option ℕ
unfolding digits_from
parse_digits [] = none
parse_digits (c ∷ s) = digits_from 0 (c ∷ s)

unfoldable pub parse_u8 : Text → Option ℕ
unfolding parse_digits
parse_u8 [] = none
parse_u8 (c ∷ s) = if c == b'+' then parse_digits s else parse_digits (c ∷ s)

abbrev pub symmetric_key_of : Text → SymmetricKey
symmetric_key_of material = record { enc_key = take 32 material; mac_key = drop 32 material }

-- The 64 bytes of a key, or how many there were instead.
abbrev pub split_key : Text → Fallible SymmetricKey
split_key material =
    ensure (length material == 64) (unexpected_length (length material))
    >> ok (symmetric_key_of material)

abbrev pub from_utf8 : Text → Fallible Text
from_utf8 bytes = ensure (is_utf8 bytes) not_utf8 >> ok bytes

module _ (lib : CryptoLib) where
  open lib use {
    encode_base64, decode_base64, cbc_accepts, cbc_encrypt, cbc_decrypt, hmac_sha256, hkdf_expand,
    pbkdf2_hmac, sha256, argon2, to_lowercase,
  }

  unfoldable pub derive_master_key : Text → Text → PreloginResponse → Fallible Text
  derive_master_key password email prelogin = elim prelogin.kdf [
    | pbkdf2 ↦ ok (pbkdf2_hmac password (to_lowercase (trim email)) prelogin.kdf_iterations)
    | argon2id ↦ do
      memory ← or_err prelogin.kdf_memory no_kdf_memory
      parallelism ← or_err prelogin.kdf_parallelism no_kdf_parallelism
      or_err
          (argon2 password (sha256 (to_lowercase (trim email))) (memory * 1024 % 2 ^ 32)
            prelogin.kdf_iterations parallelism 32)
          bad_argon2
  ]

  unfoldable pub derive_password_hash : Text → Text → Text
  derive_password_hash master_key password = encode_base64 (pbkdf2_hmac master_key password 1)

  unfoldable pub stretch_master_key : Text → Fallible SymmetricKey
  stretch_master_key master_key = do
    enc_key ← or_err (hkdf_expand master_key (codes "enc")) bad_key
    mac_key ← or_err (hkdf_expand master_key (codes "mac")) bad_key
    ok (record { enc_key = enc_key; mac_key = mac_key })

  abbrev pub decrypt_cbc : SymmetricKey → Text → Text → Fallible Text
  decrypt_cbc key iv bytes =
      ensure (cbc_accepts key.enc_key iv) bad_key
      >> or_err (cbc_decrypt key.enc_key iv bytes) bad_padding

  -- The parts of a payload, each behind the separator of the one before.
  unfoldable pub decrypt_type0 : List Text → SymmetricKey → Fallible Text
  decrypt_type0 (a ∷ b ∷ []) key = do
    iv ← or_err (decode_base64 a) bad_base64
    bytes ← or_err (decode_base64 b) bad_base64
    decrypt_cbc key iv bytes
  decrypt_type0 parts key = err wrong_parts

  unfoldable pub decrypt_type2 : List Text → SymmetricKey → Fallible Text
  decrypt_type2 (a ∷ b ∷ c ∷ []) key = do
    iv ← or_err (decode_base64 a) bad_base64
    bytes ← or_err (decode_base64 b) bad_base64
    mac ← or_err (decode_base64 c) bad_base64
    expected ← or_err (hmac_sha256 key.mac_key (iv ++ bytes)) bad_key
    ensure (text_eq expected mac) bad_mac
    decrypt_cbc key iv bytes
  decrypt_type2 parts key = err wrong_parts

  abbrev pub decrypt_type : ℕ → Text → SymmetricKey → Fallible Text
  decrypt_type enc_type payload key =
      if enc_type == 0
      then decrypt_type0 (split b'|' payload) key
      else if enc_type == 2
      then decrypt_type2 (split b'|' payload) key
      else err (unsupported_type enc_type)

  unfoldable pub decrypt_enc_string : Text → SymmetricKey → Fallible Text
  unfolding split_once
  decrypt_enc_string enc_string key = do
    parts ← or_err (split_once b'.' enc_string) no_separator
    enc_type ← or_err (parse_u8 parts.0) invalid_type
    decrypt_type enc_type parts.1 key

  unfoldable pub decrypt_enc_string_to_string : Text → SymmetricKey → Fallible Text
  decrypt_enc_string_to_string enc_string key = decrypt_enc_string enc_string key >>= from_utf8

  -- The text form: the type, and the parts in base64.
  abbrev pub enc_string_of : Text → Text → Text → Text
  enc_string_of iv ciphertext mac =
      b'2'
      ∷ b'.'
      ∷ (encode_base64 iv ++ (b'|' ∷ (encode_base64 ciphertext ++ (b'|' ∷ encode_base64 mac))))

  unfoldable pub encrypt_enc_string : Text → Text → SymmetricKey → Fallible Text
  encrypt_enc_string iv plain key = do
    ensure (cbc_accepts key.enc_key iv) bad_key
    let ciphertext = cbc_encrypt key.enc_key iv plain
    mac ← or_err (hmac_sha256 key.mac_key (iv ++ ciphertext)) bad_key
    ok (enc_string_of iv ciphertext mac)

  unfoldable pub decrypt_user_key : Text → Text → Fallible SymmetricKey
  unfolding stretch_master_key
  decrypt_user_key encrypted_key master_key = do
    stretched ← stretch_master_key master_key
    decrypted ← decrypt_enc_string encrypted_key stretched
    split_key decrypted

  unfoldable pub legacy_pin_salt : Text
  legacy_pin_salt = sha256 (codes "sshwarden-pin-key-derivation")

  unfoldable pub derive_pin_key_with_salt : Text → Text → Fallible SymmetricKey
  derive_pin_key_with_salt pin salt = do
    material ← or_err (argon2 pin salt (64 * 1024) 3 1 64) bad_argon2
    ok (symmetric_key_of material)

  unfoldable pub derive_pin_key : Text → Fallible SymmetricKey
  unfolding legacy_pin_salt
  derive_pin_key pin = derive_pin_key_with_salt pin legacy_pin_salt

  unfoldable pub encode_symmetric_key : SymmetricKey → Text
  encode_symmetric_key key = encode_base64 (key.enc_key ++ key.mac_key)

  unfoldable pub decode_symmetric_key : Text → Fallible SymmetricKey
  decode_symmetric_key encoded = or_err (decode_base64 encoded) bad_base64 >>= split_key

  unfoldable pub pin_encrypt_with_salt : Text → Text → Text → Text → Fallible Text
  pin_encrypt_with_salt iv plain pin salt =
      derive_pin_key_with_salt pin salt >>= encrypt_enc_string iv plain

  unfoldable pub pin_decrypt_with_salt : Text → Text → Text → Fallible Text
  pin_decrypt_with_salt enc_string pin salt =
      derive_pin_key_with_salt pin salt >>= λ key. decrypt_enc_string enc_string key >>= from_utf8

  unfoldable pub pin_encrypt : Text → Text → Text → Fallible Text
  unfolding legacy_pin_salt
  pin_encrypt iv plain pin = pin_encrypt_with_salt iv plain pin legacy_pin_salt

  unfoldable pub pin_decrypt : Text → Text → Fallible Text
  unfolding legacy_pin_salt
  pin_decrypt enc_string pin = pin_decrypt_with_salt enc_string pin legacy_pin_salt
