-- ===== src/Vault/Locked.antt =====
-- The invariant of the locked vault, for src/sync.rs and src/unlock.rs.
pub mod Commands
pub mod Requests
pub mod Histories
use sshwarden.Base.{
  ℕ, ◌≡◌, refl, ◌⊎◌, inl, inr, Bool, true, false, List, [], ◌∷◌, Option, none, some, arith, Text,
  Result, ok, err, Bool-cases, Option-cases, Result-cases, if◌then◌else◌, is_some, not, ◌&&◌,
}
use sshwarden.Agent.{
  SshKeyLib, SshAgentUiRequest, SshWardenAgent, KeyTuple, set_keys, lock, signable_key_count,
  clear_keys, clear_needs_unlock,
}
use sshwarden.Agent.History.{
  HasNoPrivateKey, signable-zero, forget-HasNoPrivateKey, set_public_identities-HasNoPrivateKey,
}
use sshwarden.Vault.{
  World, VaultState, BitwardenClient, LocalKeyCacheFile, ControlResponse, SymmetricKey, Failure,
}
use sshwarden.Vault.Cache.{
  decrypt_envelope_local_key_cache_with_native, reload_shared_local_cache_from_disk_if_multi_device,
}
use sshwarden.Vault.Sync.{
  lock_vault, refresh_cache, reconcile_synced_key_state, reload_agent, apply_sync, do_sync,
  keep_pending, resolve_pending_sync,
}
use sshwarden.Vault.Unlock.{
  load_decrypted, finish_unlock_with_json, finish_native_unlock_response, try_restore_api_session,
  recover_local_cache_key, ensure_with_cache, ensure_local_cache_key_for_manual_sync,
}

-- Either the vault is unlocked or the agent holds no private key.
abbrev pub IsSafe : VaultState → Type 0
IsSafe s = (s.vault_locked ≡ false) ⊎ HasNoPrivateKey s.agent.keystore

lock-agent : (a b : SshWardenAgent) → lock a ≡ ok b → HasNoPrivateKey b.keystore
unfolding lock
lock-agent a b e = ground (arith, forget-HasNoPrivateKey a.keystore)

pub lock_vault-IsSafe : (s : VaultState) → IsSafe s → IsSafe (lock_vault s).0
unfolding lock_vault
lock_vault-IsSafe s h = elim (Result-cases (lock s.agent)) [
  | inl (e, failed) ↦ rw (failed, lock_vault) h
  | inr (b, done) ↦ rw (done, lock_vault) (inr (lock-agent s.agent b done))
]

module _ (lib : SshKeyLib) (w : World) where
  refresh_cache-IsSafe :
      (keys : List KeyTuple) (s : VaultState) → IsSafe s → IsSafe (refresh_cache w keys s)
  unfolding refresh_cache
  refresh_cache-IsSafe keys s h = ground arith

  pub reconcile-IsSafe :
      (keys : List KeyTuple) (s : VaultState)
      → IsSafe s
      → IsSafe (reconcile_synced_key_state w keys s)
  unfolding reconcile_synced_key_state
  reconcile-IsSafe keys s h = refresh_cache-IsSafe keys _ h

  reload_agent-IsSafe :
      (now : ℕ) (keys : List KeyTuple) (s : VaultState)
      → IsSafe s
      → IsSafe (reload_agent lib now keys s).0
  unfolding reload_agent
  reload_agent-IsSafe now keys s h = ground arith

  apply_sync-IsSafe :
      (reply : Result Text (List KeyTuple)) (s : VaultState)
      → IsSafe s
      → IsSafe (apply_sync lib w reply s).0
  unfolding apply_sync
  apply_sync-IsSafe (err e) s h = h
  apply_sync-IsSafe (ok keys) s h = reload_agent-IsSafe w.now keys _ (reconcile-IsSafe keys s h)

  pub do_sync-IsSafe :
      (reply : BitwardenClient → Result Text (List KeyTuple)) (s : VaultState)
      → IsSafe s
      → IsSafe (do_sync lib w reply s).0
  unfolding do_sync
  do_sync-IsSafe reply s h = elim (Option-cases s.api_client) [
    | inl e ↦ ground (arith, e)
    | inr (client, e) ↦ ground (arith, apply_sync-IsSafe (reply client) s h)
  ]

  pub keep_pending-IsSafe :
      (r : VaultState × Result Failure ℕ) → IsSafe r.0 → IsSafe (keep_pending r)
  unfolding keep_pending
  keep_pending-IsSafe (s, ok n) h = h
  keep_pending-IsSafe (s, err e) h = h

  pub resolve_pending_sync-IsSafe :
      (s : VaultState) → IsSafe s → IsSafe (resolve_pending_sync lib w s)
  unfolding resolve_pending_sync
  resolve_pending_sync-IsSafe s h = elim (Bool-cases s.pending_sync) [
    | inl due ↦ rw due (keep_pending-IsSafe _ (do_sync-IsSafe w.pending_ssh_keys _ h))
    | inr none_due ↦ rw none_due h
  ]

  load_decrypted-IsSafe :
      (keys : List KeyTuple) (s : VaultState) → IsSafe s → IsSafe (load_decrypted lib keys s).0
  unfolding load_decrypted
  load_decrypted-IsSafe keys s h = ground arith

  pub finish_unlock-IsSafe :
      (keys_json : Text) (s : VaultState)
      → IsSafe s
      → IsSafe (finish_unlock_with_json lib w keys_json s).0
  unfolding finish_unlock_with_json
  finish_unlock-IsSafe keys_json s h = elim (Option-cases (w.keys_from_json keys_json)) [
    | inl e ↦ rw (e, finish_unlock_with_json) h
    | inr (keys, e) ↦ rw (e, finish_unlock_with_json) (load_decrypted-IsSafe keys s h)
  ]

  pub finish_native-IsSafe :
      (cache : LocalKeyCacheFile) (s : VaultState)
      → IsSafe s
      → IsSafe (finish_native_unlock_response lib w cache s).0
  unfolding finish_native_unlock_response
  finish_native-IsSafe cache s h =
      elim (Option-cases (decrypt_envelope_local_key_cache_with_native w cache)) [
        | inl e ↦ rw (e, finish_native_unlock_response) h
        | inr ((keys_json, key), e) ↦
            rw (e, finish_native_unlock_response) (finish_unlock-IsSafe keys_json _ h)
      ]

  pub restore-IsSafe : (s : VaultState) → IsSafe s → IsSafe (try_restore_api_session w s)
  unfolding try_restore_api_session
  restore-IsSafe s h = ground arith

  recover-IsSafe :
      (cache : LocalKeyCacheFile) (s : VaultState)
      → IsSafe s
      → IsSafe (recover_local_cache_key w cache s).0
  unfolding recover_local_cache_key
  recover-IsSafe cache s h = ground arith

  ensure_with_cache-IsSafe : (s : VaultState) → IsSafe s → IsSafe (ensure_with_cache w s).0
  unfolding ensure_with_cache
  ensure_with_cache-IsSafe s h = elim (Option-cases s.local_key_cache_data) [
    | inl e ↦ ground (arith, e)
    | inr (cache, e) ↦ ground (
      arith,
      recover-IsSafe cache s h,
      recover-IsSafe cache (record s { local_cache_key_state = none }) h,
    )
  ]

  pub reload-IsSafe :
      (s : VaultState) → IsSafe s → IsSafe (reload_shared_local_cache_from_disk_if_multi_device w s)
  unfolding reload_shared_local_cache_from_disk_if_multi_device
  reload-IsSafe s h = ground arith

  pub ensure-IsSafe :
      (s : VaultState) → IsSafe s → IsSafe (ensure_local_cache_key_for_manual_sync w s).0
  unfolding ensure_local_cache_key_for_manual_sync
  ensure-IsSafe s h = ensure_with_cache-IsSafe _ (reload-IsSafe s h)
