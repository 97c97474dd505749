-- ===== src/Vault/Secrets.antt =====
-- What the commands of src/control.rs and a sync of src/sync.rs leave in memory.
use sshwarden.Base.{
  ◌≤◌, ◌≡◌, refl, inl, inr, Bool, true, false, List, [], Option, none, some, arith, Text, length,
  ok,
}
use sshwarden.Agent.{SshKeyLib, KeyTuple, signable_key_count, clear_keys}
use sshwarden.Agent.History.{
  lock_lem, set_public_identities-HasNoPrivateKey, HasNoPrivateKey, signable-zero,
}
use sshwarden.Bindings.{is_empty}
use sshwarden.Vault.{
  World, VaultState, BitwardenClient, LocalKeyCacheFile, SymmetricKey, locked, pin_set,
  synced_to_cache,
}
use sshwarden.Vault.Cache.{
  key_material_fingerprints_from_tuples, clear_authorization_memory_for_changed_keys,
}
use sshwarden.Vault.Sync.{
  lock_vault, refresh_cache, reconcile_synced_key_state, reload_agent, apply_sync, do_sync,
}
use sshwarden.Vault.Control.{
  keep_shared, handle_lock, report_sync, handle_sync, forget_state, handle_forget, write_with_pin,
  handle_set_pin,
}

-- What a lock leaves behind.
pub record IsLocked (s : VaultState) : Type 0 where
  pub closed : s.vault_locked ≡ true
  pub no_keys : s.cached_key_tuples ≡ []
  pub no_cache_key : s.local_cache_key_state ≡ none
  pub no_memory : s.authorization_memory ≡ []
  pub unable : signable_key_count s.agent ≡ 0

-- `lock` on an unlocked vault with a running agent clears the decrypted keys, the key of the cache and
-- the authorization memory, leaves no key that can sign, and says so.
pub handle_lock_lem :
    (s : VaultState)
    → s.vault_locked ≡ false
    → s.agent.is_running ≡ true
    → IsLocked (handle_lock s).0 × ((handle_lock s).1 ≡ ok locked)
unfolding handle_lock lock_vault
handle_lock_lem s is_open on = elim (lock_lem s.agent) [
  | inl (off, _) ↦ absurd (ground (arith, on, off))
  | inr (b, done, _, none_left, _, _) ↦
      rw (handle_lock, lock_vault, is_open, done)
        (
          record {
            closed = refl;
            no_keys = refl;
            no_cache_key = refl;
            no_memory = refl;
            unable = none_left;
          },
          refl,
        )
]

-- What the refresh of the cache does not touch.
refresh_cache_frame :
    (w : World) (keys : List KeyTuple) (s : VaultState)
    → ((refresh_cache w keys s).authorization_memory ≡ s.authorization_memory)
      × ((refresh_cache w keys s).key_material_fingerprints ≡ s.key_material_fingerprints)
      × ((refresh_cache w keys s).cached_key_tuples ≡ s.cached_key_tuples)
      × ((refresh_cache w keys s).vault_locked ≡ s.vault_locked)
      × ((refresh_cache w keys s).pin_failures ≡ s.pin_failures)
unfolding refresh_cache
refresh_cache_frame w keys s = ground arith

-- A `sync` while the vault is locked keeps every key that it decrypted in the daemon's memory, private
-- parts included, although the vault stays locked.
pub handle_sync_locked :
    (lib : SshKeyLib) (w : World) (s : VaultState) (client : BitwardenClient) (keys : List KeyTuple)
    → s.vault_locked ≡ true
    → s.api_client ≡ some client
    → client.has_user_key ≡ true
    → w.sync_ssh_keys client ≡ ok keys
    → ((handle_sync lib w s).0.cached_key_tuples ≡ keys)
      × ((handle_sync lib w s).0.vault_locked ≡ true)
      × ((handle_sync lib w s).1 ≡ ok (synced_to_cache (length keys)))
unfolding handle_sync do_sync apply_sync reload_agent report_sync reconcile_synced_key_state
handle_sync_locked lib w s client keys closed session able reply = ground (
  arith,
  reply,
  session,
  able,
  refresh_cache_frame w keys (record s {
    authorization_memory =
        clear_authorization_memory_for_changed_keys s.key_material_fingerprints
          (key_material_fingerprints_from_tuples w keys) s.authorization_memory;
    public_key_identity_tuples = keys;
    cached_key_tuples = keys;
    key_material_fingerprints = key_material_fingerprints_from_tuples w keys;
  }),
)

-- A new PIN is set without the old one, locked or not: keys in memory and a long enough PIN are enough,
-- once the cache can be written. The vault stays as it was, and the cache is the one under the new PIN.
pub handle_set_pin_lem :
    (w : World) (pin : Text) (s : VaultState) (cache : LocalKeyCacheFile) (key : SymmetricKey)
    → 4 ≤ length pin
    → is_empty s.cached_key_tuples ≡ false
    → write_with_pin w pin s ≡ some (cache, key)
    → ((handle_set_pin w pin s).1 ≡ ok pin_set)
      × ((handle_set_pin w pin s).0.local_key_cache_data ≡ some cache)
      × ((handle_set_pin w pin s).0.vault_locked ≡ s.vault_locked)
unfolding handle_set_pin
handle_set_pin_lem w pin s cache key long loaded written = ground (arith, written)

-- What `forget` leaves behind.
pub record IsForgotten (s : VaultState) : Type 0 where
  pub closed : s.vault_locked ≡ true
  pub no_keys : s.cached_key_tuples ≡ []
  pub no_cache_key : s.local_cache_key_state ≡ none
  pub no_memory : s.authorization_memory ≡ []
  pub no_session : s.api_client ≡ none
  pub nothing_pending : s.pending_sync ≡ false
  pub unable : signable_key_count s.agent ≡ 0

keep_shared-IsForgotten :
    (lib : SshKeyLib) (cache : Option LocalKeyCacheFile) (s : VaultState)
    → HasNoPrivateKey s.agent.keystore
    → IsForgotten s
    → IsForgotten (keep_shared lib cache s)
unfolding keep_shared signable_key_count
keep_shared-IsForgotten lib none s h f = f
keep_shared-IsForgotten lib (some cache) s h f = record {
  closed = f.closed;
  no_keys = f.no_keys;
  no_cache_key = f.no_cache_key;
  no_memory = f.no_memory;
  no_session = f.no_session;
  nothing_pending = f.nothing_pending;
  unable = signable-zero _ (set_public_identities-HasNoPrivateKey lib s.agent _ h);
}

-- `forget` always locks the vault and clears the decrypted keys, the key of the cache, the session, the
-- pending sync and the authorization memory, and leaves no key that can sign, whatever could not be
-- deleted from the disk.
pub handle_forget_lem :
    (lib : SshKeyLib) (w : World) (shared : Bool) (s : VaultState)
    → IsForgotten (handle_forget lib w shared s).0
unfolding handle_forget forget_state clear_keys signable_key_count
handle_forget_lem lib w shared s = keep_shared-IsForgotten lib _ _ tt (record {
  closed = refl;
  no_keys = refl;
  no_cache_key = refl;
  no_memory = refl;
  no_session = refl;
  nothing_pending = refl;
  unable = signable-zero [] tt;
})
