-- ===== src/Vault/Cache.antt =====
-- src/cache.rs: building, opening and refreshing the local key cache.
use sshwarden.Base.{
  Bool, true, false, not, ◌&&◌, ◌||◌, List, [], ◌∷◌, map, Option, none, some, Text, is_some,
  is_none, or_else, if◌then◌else◌, ltb, Map, lookup, insert, text_eq, retain, ok, err,
}
use sshwarden.Agent.{KeyTuple}
use sshwarden.Vault.{
  SymmetricKey, KeyIdentity, LocalKeyCacheFile, LocalCacheKeySlots, World, VaultState,
}

unfoldable pub key_identities_from_tuples : World → List KeyTuple → List KeyIdentity
key_identities_from_tuples w = map λ k. record {
  name = k.1;
  vault_item_id = k.2;
  public_key_openssh = w.public_key_openssh_from_pem k.0;
}

unfoldable pub build_envelope_local_key_cache :
    World
    → List KeyTuple
    → Text
    → Text
    → SymmetricKey
    → LocalCacheKeySlots
    → Option LocalKeyCacheFile
build_envelope_local_key_cache w keys email server_url local_cache_key slots =
    elim (w.encrypt_enc_string (w.keys_to_json keys) local_cache_key) [
      | none ↦ none
      | some payload ↦ some (record {
        version = 3;
        header = record {
          email = email;
          server_url = server_url;
          keys = key_identities_from_tuples w keys;
        };
        encrypted_payload = payload;
        local_cache_key = slots;
      })
    ]

-- The PIN slot and its salt.
unfoldable pub encrypt_local_cache_key_with_pin : World → SymmetricKey → Text → Option (Text × Text)
encrypt_local_cache_key_with_pin w local_cache_key pin =
    elim (w.pin_encrypt_with_salt (w.encode_symmetric_key local_cache_key) pin w.random_pin_salt) [
      | none ↦ none
      | some slot ↦ some (slot, w.encode_base64 w.random_pin_salt)
    ]

-- The native slot that `enroll_native_for_local_key_cache` leaves in the cache; a failure to enroll
-- is passed over.
unfoldable pub enroll_native_for_local_key_cache : World → SymmetricKey → Option Text
enroll_native_for_local_key_cache w local_cache_key =
    if w.multi_device then none else w.native_encrypt (w.encode_symmetric_key local_cache_key)

abbrev pub save : World → LocalKeyCacheFile → Option LocalKeyCacheFile
save w cache = if w.can_save then some cache else none

unfoldable pub write_envelope_local_key_cache_with_key :
    World → List KeyTuple → Text → SymmetricKey → Option (LocalKeyCacheFile × SymmetricKey)
write_envelope_local_key_cache_with_key w keys pin local_cache_key =
    elim (encrypt_local_cache_key_with_pin w local_cache_key pin) [
      | none ↦ none
      | some (slot, salt) ↦
          elim (build_envelope_local_key_cache w keys w.email w.server_url local_cache_key (record {
            pin_encrypted = some slot;
            pin_salt = some salt;
            hello_challenge = none;
            hello_encrypted = none;
            native_encrypted = enroll_native_for_local_key_cache w local_cache_key;
          })) [
            | none ↦ none
            | some cache ↦ if w.can_save then some (cache, local_cache_key) else none
          ]
    ]

unfoldable pub write_envelope_local_key_cache :
    World → List KeyTuple → Text → Option (LocalKeyCacheFile × SymmetricKey)
write_envelope_local_key_cache w keys pin =
    write_envelope_local_key_cache_with_key w keys pin w.random_symmetric_key

-- `keep_platform_slots_in_shared_cache.then(..).flatten()`
abbrev pub keep_platform_slot : World → Option Text → Option Text
keep_platform_slot w slot = if not w.multi_device then slot else none

unfoldable pub refresh_envelope_local_key_cache :
    World → List KeyTuple → LocalKeyCacheFile → SymmetricKey → Option LocalKeyCacheFile
refresh_envelope_local_key_cache w keys existing local_cache_key =
    elim (build_envelope_local_key_cache w keys existing.header.email existing.header.server_url
      local_cache_key
      (record {
        pin_encrypted = existing.local_cache_key.pin_encrypted;
        pin_salt = existing.local_cache_key.pin_salt;
        hello_challenge = keep_platform_slot w existing.local_cache_key.hello_challenge;
        hello_encrypted = keep_platform_slot w existing.local_cache_key.hello_encrypted;
        native_encrypted = keep_platform_slot w existing.local_cache_key.native_encrypted;
      })) [ none ↦ none | some cache ↦ save w cache ]

unfoldable pub current_native_unlock_slot : World → LocalKeyCacheFile → Option Text
current_native_unlock_slot w cache =
    if w.multi_device
    then w.device_native_slot
    else or_else w.device_native_slot cache.local_cache_key.native_encrypted

-- The keys as JSON, with the key that opened the payload.
unfoldable pub decrypt_envelope_payload :
    World → LocalKeyCacheFile → SymmetricKey → Option (Text × SymmetricKey)
decrypt_envelope_payload w cache local_cache_key =
    elim (w.decrypt_enc_string cache.encrypted_payload local_cache_key) [
      | none ↦ none
      | some keys_json ↦ some (keys_json, local_cache_key)
    ]

-- The two ways to open a cache end alike.
unfoldable pub open_with : World → LocalKeyCacheFile → Option Text → Option (Text × SymmetricKey)
open_with w cache none = none
open_with w cache (some encoded_lck) = elim (w.decode_symmetric_key encoded_lck) [
  | none ↦ none
  | some local_cache_key ↦ decrypt_envelope_payload w cache local_cache_key
]

unfoldable pub decrypt_envelope_local_key_cache_with_native :
    World → LocalKeyCacheFile → Option (Text × SymmetricKey)
decrypt_envelope_local_key_cache_with_native w cache = elim (current_native_unlock_slot w cache) [
  | none ↦ none
  | some slot ↦ open_with w cache (w.native_decrypt slot)
]

-- The salt of the PIN slot: the fixed one where the cache has none.
unfoldable pub pin_salt_of : World → Option Text → Option Text
pin_salt_of w none = some w.legacy_pin_salt
pin_salt_of w (some salt_b64) = w.decode_base64 salt_b64

unfoldable pub decrypt_envelope_local_key_cache_with_pin :
    World → LocalKeyCacheFile → Text → Option (Text × SymmetricKey)
decrypt_envelope_local_key_cache_with_pin w cache pin = elim cache.local_cache_key.pin_encrypted [
  | none ↦ none
  | some encrypted_lck ↦ elim (pin_salt_of w cache.local_cache_key.pin_salt) [
    | none ↦ none
    | some salt ↦ open_with w cache (w.pin_decrypt_with_salt encrypted_lck pin salt)
  ]
]

unfoldable pub needs_pin_salt_migration : LocalKeyCacheFile → Bool
needs_pin_salt_migration cache =
    is_some cache.local_cache_key.pin_encrypted
    && (ltb cache.version 3 || is_none cache.local_cache_key.pin_salt)

unfoldable pub migrate_pin_salt_to_v3 :
    World → LocalKeyCacheFile → SymmetricKey → Text → Option LocalKeyCacheFile
migrate_pin_salt_to_v3 w cache local_cache_key pin =
    elim (encrypt_local_cache_key_with_pin w local_cache_key pin) [
      | none ↦ none
      | some (slot, salt) ↦ save w (record cache {
        version = 3;
        local_cache_key = record cache.local_cache_key {
          pin_encrypted = some slot;
          pin_salt = some salt;
        };
      })
    ]

unfoldable pub key_material_fingerprints_from_tuples : World → List KeyTuple → Map Text
key_material_fingerprints_from_tuples w [] = []
key_material_fingerprints_from_tuples w ((pem, name, vault_item_id) ∷ keys) =
    let later = key_material_fingerprints_from_tuples w keys in
    if is_some (lookup vault_item_id later)
    then later
    else insert vault_item_id (w.fingerprint pem) later

-- Two optional fingerprints that are the same.
unfoldable pub same_fingerprint : Option Text → Option Text → Bool
same_fingerprint none none = true
same_fingerprint (some a) (some b) = text_eq a b
same_fingerprint _ _ = false

-- An item whose key changed, came or went. Its memory is cleared.
unfoldable pub is_changed : Map Text → Map Text → Text → Bool
is_changed old new id = not (same_fingerprint (lookup id old) (lookup id new))

unfoldable pub clear_authorization_memory_for_changed_keys :
    Map Text → Map Text → List (Text × Text) → List (Text × Text)
clear_authorization_memory_for_changed_keys old new =
    retain (λ entry. not (is_changed old new entry.0))

unfoldable pub key_tuples_from_cache_header : LocalKeyCacheFile → List KeyTuple
key_tuples_from_cache_header cache =
    map (λ k. (k.public_key_openssh, k.name, k.vault_item_id)) cache.header.keys

-- What was read from the cache file replaces the copy in memory; a missing or unreadable file does not.
unfoldable pub reload_shared_local_cache_from_disk_if_multi_device : World → VaultState → VaultState
reload_shared_local_cache_from_disk_if_multi_device w s =
    if not w.multi_device then s else elim w.loaded_cache [
      | err e ↦ s
      | ok none ↦ s
      | ok (some cache) ↦ record s { local_key_cache_data = some cache }
    ]
