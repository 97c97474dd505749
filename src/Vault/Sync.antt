-- ===== src/Vault/Sync.antt =====
-- src/sync.rs, and `lock_vault` of src/control.rs.
use sshwarden.Base.{
  ℕ, Bool, true, false, not, List, [], ◌∷◌, none, some, Text, if◌then◌else◌, Map, insert, length,
  Result, ok, err,
}
use sshwarden.Agent.{SshKeyLib, KeyTuple, set_keys, lock}
use sshwarden.Vault.{
  BitwardenClient, Failure, not_authenticated, no_user_key, sync_failed, reload_failed, World,
  VaultState,
}
use sshwarden.Vault.Cache.{
  refresh_envelope_local_key_cache, key_material_fingerprints_from_tuples,
  clear_authorization_memory_for_changed_keys,
}

-- `names.clear()` and one `insert` for each key.
unfoldable pub names_of : Map Text → List KeyTuple → Map Text
names_of names [] = names
names_of names ((_, name, cipher_id) ∷ keys) = names_of (insert cipher_id name names) keys

-- What `lock_vault` does, and whether the agent could be locked.
unfoldable pub lock_vault : VaultState → VaultState × Bool
lock_vault s = elim (lock s.agent) [
  | err e ↦ (s, false)
  | ok agent ↦ (
    record s {
      agent = agent;
      vault_locked = true;
      cached_key_tuples = [];
      local_cache_key_state = none;
      authorization_memory = [];
    },
    true,
  )
]

-- The refresh of the local key cache, where there is a cache and a key for it.
unfoldable pub refresh_cache : World → List KeyTuple → VaultState → VaultState
refresh_cache w keys s = elim s.local_key_cache_data [
  | none ↦ s
  | some existing_cache ↦ elim s.local_cache_key_state [
    | none ↦ s
    | some local_cache_key ↦
        elim (refresh_envelope_local_key_cache w keys existing_cache local_cache_key) [
          | some cache ↦ record s {
            local_key_cache_data = some cache;
            local_cache_key_state = some local_cache_key;
            stale_cache = false;
          }
          | none ↦ record s { stale_cache = true }
        ]
  ]
]

unfoldable pub reconcile_synced_key_state : World → List KeyTuple → VaultState → VaultState
reconcile_synced_key_state w key_tuples s =
    let new_fingerprints = key_material_fingerprints_from_tuples w key_tuples in
    refresh_cache w key_tuples (record s {
      authorization_memory =
          clear_authorization_memory_for_changed_keys s.key_material_fingerprints new_fingerprints
            s.authorization_memory;
      public_key_identity_tuples = key_tuples;
      cached_key_tuples = key_tuples;
      key_material_fingerprints = new_fingerprints;
    })

-- The keys of a sync reach the agent only while the vault is unlocked.
unfoldable pub reload_agent :
    SshKeyLib → ℕ → List KeyTuple → VaultState → VaultState × Result Failure ℕ
reload_agent lib now key_tuples s =
    if not s.vault_locked
    then elim (set_keys lib s.agent key_tuples) [
      | err e ↦ (s, err reload_failed)
      | ok agent ↦ (record s { agent = agent; last_sync_at = some now }, ok (length key_tuples))
    ]
    else (record s { last_sync_at = some now }, ok (length key_tuples))

-- `do_sync`, for the server's reply.
unfoldable pub apply_sync :
    SshKeyLib → World → Result Text (List KeyTuple) → VaultState → VaultState × Result Failure ℕ
apply_sync lib w (err e) s = (s, err (sync_failed e))
apply_sync lib w (ok key_tuples) s =
    reload_agent lib w.now key_tuples
      (record (reconcile_synced_key_state w key_tuples s) { key_names = names_of [] key_tuples })

unfoldable pub do_sync :
    SshKeyLib
    → World
    → (BitwardenClient → Result Text (List KeyTuple))
    → VaultState
    → VaultState × Result Failure ℕ
do_sync lib w sync_ssh_keys s = elim s.api_client [
  | none ↦ (s, err not_authenticated)
  | some client ↦
      if not client.has_user_key
      then (s, err no_user_key)
      else apply_sync lib w (sync_ssh_keys client) s
]

-- A sync that fails stays pending.
unfoldable pub keep_pending : VaultState × Result Failure ℕ → VaultState
keep_pending (s, ok count) = s
keep_pending (s, err e) = record s { pending_sync = true }

unfoldable pub resolve_pending_sync : SshKeyLib → World → VaultState → VaultState
resolve_pending_sync lib w s =
    if not s.pending_sync
    then s
    else keep_pending (do_sync lib w w.pending_ssh_keys (record s { pending_sync = false }))
