-- ===== src/Vault/RoundTrip.antt =====
-- The caches that src/cache.rs writes, refreshes and migrates, as the PIN opens them.
use sshwarden.Base.{
  ◌≡◌, refl, sym, ap, ◌∙◌, inl, inr, false, List, none, some, arith, Text, Option-cases, length,
}
use sshwarden.Agent.{KeyTuple}
use sshwarden.Vault.{SymmetricKey, LocalKeyCacheFile, LocalCacheKeySlots, World}
use sshwarden.Vault.Cache.{
  build_envelope_local_key_cache, encrypt_local_cache_key_with_pin,
  write_envelope_local_key_cache_with_key, refresh_envelope_local_key_cache,
  decrypt_envelope_payload, open_with, pin_salt_of, enroll_native_for_local_key_cache,
  keep_platform_slot, save, decrypt_envelope_local_key_cache_with_pin, needs_pin_salt_migration,
  migrate_pin_salt_to_v3,
}

-- What the cryptographic primitives and the encodings promise: each decryption undoes its encryption
-- under the same key, PIN and salt, and each decoding its encoding;
-- a key has 64 bytes, and is what a PIN encrypts.
pub record IsLawful (w : World) : Type 0 where
  pub base64 : (t : Text) → w.decode_base64 (w.encode_base64 t) ≡ some t
  pub symmetric_key :
      (k : SymmetricKey)
      → length k ≡ 64
      → w.decode_symmetric_key (w.encode_symmetric_key k) ≡ some k
  pub pin :
      (k : SymmetricKey) (pin salt encrypted : Text)
      → w.pin_encrypt_with_salt (w.encode_symmetric_key k) pin salt ≡ some encrypted
      → w.pin_decrypt_with_salt encrypted pin salt ≡ some (w.encode_symmetric_key k)
  pub payload :
      (plain : Text) (k : SymmetricKey) (encrypted : Text)
      → w.encrypt_enc_string plain k ≡ some encrypted
      → w.decrypt_enc_string encrypted k ≡ some plain

-- The slots of a cache decide what a PIN opens it with.
decrypt_slots :
    (w : World) (cache other : LocalKeyCacheFile) (pin json : Text) (key : SymmetricKey)
    → decrypt_envelope_local_key_cache_with_pin w cache pin ≡ some (json, key)
    → other.local_cache_key.pin_encrypted ≡ cache.local_cache_key.pin_encrypted
    → other.local_cache_key.pin_salt ≡ cache.local_cache_key.pin_salt
    → decrypt_envelope_local_key_cache_with_pin w other pin ≡ decrypt_envelope_payload w other key
unfolding decrypt_envelope_local_key_cache_with_pin open_with decrypt_envelope_payload
decrypt_slots w cache other pin json key e f g = ground arith

decrypt-payload :
    (w : World) (cache : LocalKeyCacheFile) (pin json : Text) (key : SymmetricKey)
    → decrypt_envelope_local_key_cache_with_pin w cache pin ≡ some (json, key)
    → decrypt_envelope_payload w cache key ≡ some (json, key)
unfolding decrypt_envelope_local_key_cache_with_pin open_with decrypt_envelope_payload
decrypt-payload w cache pin json key e = ground arith

-- The slots of a cache that is written anew, and of one that is refreshed.
abbrev written_slots : World → SymmetricKey → Text → Text → LocalCacheKeySlots
written_slots w key slot salt = record {
  pin_encrypted = some slot;
  pin_salt = some salt;
  hello_challenge = none;
  hello_encrypted = none;
  native_encrypted = enroll_native_for_local_key_cache w key;
}

abbrev refreshed_slots : World → LocalCacheKeySlots → LocalCacheKeySlots
refreshed_slots w slots = record {
  pin_encrypted = slots.pin_encrypted;
  pin_salt = slots.pin_salt;
  hello_challenge = keep_platform_slot w slots.hello_challenge;
  hello_encrypted = keep_platform_slot w slots.hello_encrypted;
  native_encrypted = keep_platform_slot w slots.native_encrypted;
}

-- A cache whose PIN slot has been moved.
abbrev moved : LocalKeyCacheFile → Text → Text → LocalKeyCacheFile
moved cache slot salt = record cache {
  version = 3;
  local_cache_key = record cache.local_cache_key {
    pin_encrypted = some slot;
    pin_salt = some salt;
  };
}

save-eq : (w : World) (c d : LocalKeyCacheFile) → save w c ≡ some d → c ≡ d
save-eq w c d e = ground arith

module _ (w : World) (laws : IsLawful w) where
  build_payload :
      (keys : List KeyTuple) (email server_url : Text) (key : SymmetricKey)
      (slots : LocalCacheKeySlots) (cache : LocalKeyCacheFile)
      → build_envelope_local_key_cache w keys email server_url key slots ≡ some cache
      → (w.decrypt_enc_string cache.encrypted_payload key ≡ some (w.keys_to_json keys))
        × (cache.local_cache_key ≡ slots)
        × (cache.version ≡ 3)
  unfolding build_envelope_local_key_cache
  build_payload keys email server_url key slots cache e =
      elim (Option-cases (w.encrypt_enc_string (w.keys_to_json keys) key)) [
        | inl missing ↦ absurd (ground (arith, missing))
        | inr (payload, f) ↦ ground (arith, f, laws.payload (w.keys_to_json keys) key payload f)
      ]

  open-decrypt :
      (cache : LocalKeyCacheFile) (key : SymmetricKey) (slot salt pin : Text)
      → length key ≡ 64
      → encrypt_local_cache_key_with_pin w key pin ≡ some (slot, salt)
      → cache.local_cache_key.pin_encrypted ≡ some slot
      → cache.local_cache_key.pin_salt ≡ some salt
      → decrypt_envelope_local_key_cache_with_pin w cache pin ≡ decrypt_envelope_payload w cache key
  unfolding decrypt_envelope_local_key_cache_with_pin encrypt_local_cache_key_with_pin open_with
      pin_salt_of
  open-decrypt cache key slot salt pin size e f g =
      elim (Option-cases
        (w.pin_encrypt_with_salt (w.encode_symmetric_key key) pin w.random_pin_salt)) [
          | inl missing ↦ absurd (ground (arith, missing))
          | inr (encrypted, h) ↦ ground (
            arith,
            h,
            laws.pin key pin w.random_pin_salt encrypted h,
            laws.base64 w.random_pin_salt,
            laws.symmetric_key key size,
          )
        ]

  -- A cache written under a PIN, with a cache key of 64 bytes, opens with that PIN, and gives back the keys and the cache key that it
  -- was written with.
  pub write-decrypt :
      (keys : List KeyTuple) (pin : Text) (key key' : SymmetricKey) (cache : LocalKeyCacheFile)
      → length key ≡ 64
      → write_envelope_local_key_cache_with_key w keys pin key ≡ some (cache, key')
      → decrypt_envelope_local_key_cache_with_pin w cache pin ≡ some (w.keys_to_json keys, key)
  unfolding write_envelope_local_key_cache_with_key decrypt_envelope_payload
  write-decrypt keys pin key key' cache size e =
      elim (Option-cases (encrypt_local_cache_key_with_pin w key pin)) [
        | inl missing ↦ absurd (ground (arith, missing))
        | inr ((slot, salt), f) ↦
            elim (Option-cases (
              build_envelope_local_key_cache w keys w.email w.server_url key
                (written_slots w key slot salt))) [
                  | inl missing ↦ absurd (ground (arith, f, missing))
                  | inr (built, g) ↦
                      let (payload, slots, _) =
                        build_payload keys w.email w.server_url key (written_slots w key slot salt)
                          built g in
                      let opened =
                        open-decrypt built key slot salt pin size f
                          (ap (λ l. l.pin_encrypted) slots) (ap (λ l. l.pin_salt) slots) in
                      ground (arith, f, g, payload, opened)
                ]
      ]

  -- A cache that was refreshed after a sync opens with the PIN that opened the old one, and gives back
  -- the new keys.
  pub refresh-decrypt :
      (keys : List KeyTuple) (pin json : Text) (key : SymmetricKey)
      (existing cache : LocalKeyCacheFile)
      → decrypt_envelope_local_key_cache_with_pin w existing pin ≡ some (json, key)
      → refresh_envelope_local_key_cache w keys existing key ≡ some cache
      → decrypt_envelope_local_key_cache_with_pin w cache pin ≡ some (w.keys_to_json keys, key)
  unfolding refresh_envelope_local_key_cache decrypt_envelope_payload open_with
  refresh-decrypt keys pin json key existing cache e f =
      elim (Option-cases (
        build_envelope_local_key_cache w keys existing.header.email existing.header.server_url key
          (refreshed_slots w existing.local_cache_key))) [
            | inl missing ↦ absurd (ground (arith, missing))
            | inr (built, g) ↦
                let (payload, slots, _) =
                  build_payload keys existing.header.email existing.header.server_url key
                    (refreshed_slots w existing.local_cache_key) built g in
                let opened =
                  decrypt_slots w existing built pin json key e (ap (λ l. l.pin_encrypted) slots)
                    (ap (λ l. l.pin_salt) slots) in
                ground (arith, g, payload, opened)
          ]

  -- Moving the PIN slot of a cache that a PIN opened to a random salt, with a key of 64 bytes, leaves the cache open to the same
  -- PIN with the same keys, and in no need of another move.
  pub migrate_lem :
      (pin json : Text) (key : SymmetricKey) (cache migrated : LocalKeyCacheFile)
      → length key ≡ 64
      → decrypt_envelope_local_key_cache_with_pin w cache pin ≡ some (json, key)
      → migrate_pin_salt_to_v3 w cache key pin ≡ some migrated
      → (decrypt_envelope_local_key_cache_with_pin w migrated pin ≡ some (json, key))
        × (needs_pin_salt_migration migrated ≡ false)
  unfolding migrate_pin_salt_to_v3 needs_pin_salt_migration
  migrate_lem pin json key cache migrated size e f =
      elim (Option-cases (encrypt_local_cache_key_with_pin w key pin)) [
        | inl missing ↦ absurd (ground (arith, missing))
        | inr ((slot, salt), g) ↦
            let opened = open-decrypt (moved cache slot salt) key slot salt pin size g refl refl in
            let same = save-eq w (moved cache slot salt) migrated (sym (saved slot salt g) ∙ f) in
            rw (← same) (opened ∙ moved-payload slot salt, refl)
      ]
    where
      saved :
          (slot salt : Text)
          → encrypt_local_cache_key_with_pin w key pin ≡ some (slot, salt)
          → migrate_pin_salt_to_v3 w cache key pin ≡ save w (moved cache slot salt)
      saved slot salt g = rw (migrate_pin_salt_to_v3, g)

      moved-payload :
          (slot salt : Text)
          → decrypt_envelope_payload w (moved cache slot salt) key ≡ some (json, key)
      moved-payload slot salt =
          unfold decrypt_envelope_payload in decrypt-payload w cache pin json key e
