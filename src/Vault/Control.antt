-- ===== src/Vault/Control.antt =====
-- src/control.rs, `handle_control_command`: one function for each arm of the match. A PIN is kept as
-- its UTF-8 bytes, which is what its length counts.
use sshwarden.Base.{
  ℕ, Bool, true, false, not, ◌&&◌, ◌||◌, List, [], Option, none, some, Text, if◌then◌else◌, ltb,
  length, Result, ok, err,
}
use sshwarden.Agent.{SshKeyLib, KeyTuple, set_keys, set_public_identities, clear_keys, after}
use sshwarden.Bindings.{is_empty}
use sshwarden.Vault.{
  SymmetricKey, LocalKeyCacheFile, BitwardenClient, Failure, lock_failed, no_email, load_failed,
  pin_too_short, no_keys_loaded, save_failed, login_failed, sync_failed_after_login, not_deleted,
  stopping, already_locked, locked, forgot_shared, forgot_device, pin_set, bindings_updated,
  dialog_closed, status_report, synced, synced_to_cache, keys_loaded, session_refreshed,
  ControlResponse, World, VaultState,
}
use sshwarden.Vault.Cache.{
  write_envelope_local_key_cache, write_envelope_local_key_cache_with_key,
  key_tuples_from_cache_header, reload_shared_local_cache_from_disk_if_multi_device,
}
use sshwarden.Vault.Sync.{
  names_of, lock_vault, reconcile_synced_key_state, do_sync, resolve_pending_sync,
}
use sshwarden.Vault.Unlock.{ensure_local_cache_key_for_manual_sync}
use sshwarden.Vault.Unlocking.{
  handle_unlock, handle_unlock_native, handle_unlock_hello, handle_unlock_pin,
}

pub data ControlAction : Type 0 where
  locks unlocks unlocks_hello unlocks_native syncs stops binds_hosts : ControlAction
  unlocks_pin unlocks_password sets_pin : Text → ControlAction
  status forgets : Bool → ControlAction

unfoldable pub handle_lock : VaultState → VaultState × ControlResponse
handle_lock s =
    if s.vault_locked
    then (s, ok already_locked)
    else let (s', done) = lock_vault s in (s', if done then ok locked else err lock_failed)

-- The keys that came with a fresh login.
unfoldable pub load_login :
    SshKeyLib
    → World
    → BitwardenClient
    → Bool
    → List KeyTuple
    → VaultState
    → VaultState × ControlResponse
load_login lib w client was_locked key_tuples s = elim (set_keys lib s.agent key_tuples) [
  | err e ↦ (s, err load_failed)
  | ok agent ↦ (
    resolve_pending_sync lib w
        (record s { agent = agent; vault_locked = false; api_client = some client }),
    ok (
        if was_locked
        then keys_loaded (length key_tuples)
        else session_refreshed (length key_tuples)),
  )
]

unfoldable pub handle_unlock_password :
    SshKeyLib → World → Text → VaultState → VaultState × ControlResponse
handle_unlock_password lib w password s =
    if is_empty w.email then (s, err no_email) else elim (w.login_password w.email password) [
      | err e ↦ (s, err (login_failed e))
      | ok client ↦ elim (w.sync_ssh_keys client) [
        | err e ↦ (s, err (sync_failed_after_login e))
        | ok key_tuples ↦
            load_login lib w client s.vault_locked key_tuples
              (record (reconcile_synced_key_state w key_tuples s) {
                key_names = names_of [] key_tuples;
              })
      ]
    ]

-- What the command says about a sync, and that one made while locked stays pending.
unfoldable pub report_sync : Bool → VaultState × Result Failure ℕ → VaultState × ControlResponse
report_sync true (s, ok count) = (record s { pending_sync = true }, ok (synced_to_cache count))
report_sync false (s, ok count) = (s, ok (synced count))
report_sync was_locked (s, err e) = (s, err e)

-- The sync itself, where the cache key that it needs could be had.
unfoldable pub sync_if_ready :
    SshKeyLib → World → Bool → VaultState × Result Failure (Unit {0}) → VaultState × ControlResponse
sync_if_ready lib w was_locked (s, err e) = (s, err e)
sync_if_ready lib w was_locked (s, ok done) =
    report_sync was_locked (do_sync lib w w.sync_ssh_keys s)

unfoldable pub handle_sync : SshKeyLib → World → VaultState → VaultState × ControlResponse
handle_sync lib w s =
    if not s.vault_locked && w.multi_device
    then sync_if_ready lib w s.vault_locked (ensure_local_cache_key_for_manual_sync w s)
    else report_sync s.vault_locked (do_sync lib w w.sync_ssh_keys s)

-- What `forget` keeps of a shared cache: the public identities that its header lists.
unfoldable pub keep_shared : SshKeyLib → Option LocalKeyCacheFile → VaultState → VaultState
keep_shared lib none s = s
keep_shared lib (some cache) s =
    let identities = key_tuples_from_cache_header cache in
    record s {
      agent = after s.agent (set_public_identities lib s.agent identities);
      public_key_identity_tuples = identities;
      key_names = names_of [] identities;
    }

-- `load().ok().flatten()`
abbrev pub loaded_or_none : World → Option LocalKeyCacheFile
loaded_or_none w = elim w.loaded_cache [ err e ↦ none | ok cache ↦ cache ]

-- The state that `forget` leaves; `remove_shared_cache` says whether the cache file goes too.
unfoldable pub forget_state : SshKeyLib → World → Bool → VaultState → VaultState
forget_state lib w remove_shared_cache s =
    let cache = if remove_shared_cache then none else loaded_or_none w in
    keep_shared lib cache (record s {
      agent = clear_keys s.agent;
      local_cache_key_state = none;
      authorization_memory = [];
      cached_key_tuples = [];
      api_client = none;
      pending_sync = false;
      stale_cache = false;
      last_sync_at = none;
      vault_locked = true;
      local_key_cache_data = cache;
      public_key_identity_tuples = [];
      key_names = [];
    })

unfoldable pub handle_forget : SshKeyLib → World → Bool → VaultState → VaultState × ControlResponse
handle_forget lib w shared s =
    let remove_shared_cache = shared || not w.multi_device in
    let failures = w.delete_failures remove_shared_cache in
    (
      forget_state lib w remove_shared_cache s,
      if is_empty failures
          then ok (if remove_shared_cache then forgot_shared else forgot_device)
          else err (not_deleted failures),
    )

-- The cache under a new PIN: with the key in memory if there is one, else with a fresh one.
unfoldable pub write_with_pin :
    World → Text → VaultState → Option (LocalKeyCacheFile × SymmetricKey)
write_with_pin w pin s = elim s.local_cache_key_state [
  | none ↦ write_envelope_local_key_cache w s.cached_key_tuples pin
  | some local_cache_key ↦
      write_envelope_local_key_cache_with_key w s.cached_key_tuples pin local_cache_key
]

unfoldable pub handle_set_pin : World → Text → VaultState → VaultState × ControlResponse
handle_set_pin w pin s =
    if ltb (length pin) 4
    then (s, err pin_too_short)
    else if is_empty s.cached_key_tuples
    then (s, err no_keys_loaded)
    else elim (write_with_pin w pin s) [
      | none ↦ (s, err save_failed)
      | some (cache, local_cache_key) ↦ (
        record s {
          local_key_cache_data = some cache;
          local_cache_key_state = some local_cache_key;
        },
        ok pin_set,
      )
    ]

-- The dialog for host bindings is not part of this state.
unfoldable pub handle_bind_hosts : World → VaultState → VaultState × ControlResponse
handle_bind_hosts w s = elim w.bind_dialog [
  | err e ↦ (s, err e)
  | ok saved ↦ (s, ok (if saved then bindings_updated else dialog_closed))
]

-- Which commands read the shared cache again first.
unfoldable pub reloads : ControlAction → Bool
reloads unlocks = true
reloads unlocks_native = true
reloads unlocks_hello = true
reloads (unlocks_pin pin) = true
reloads syncs = true
reloads _ = false

unfoldable pub dispatch :
    SshKeyLib → World → ControlAction → VaultState → VaultState × ControlResponse
dispatch lib w stops s = (s, ok stopping)
dispatch lib w locks s = handle_lock s
dispatch lib w unlocks s = handle_unlock lib w s
dispatch lib w unlocks_native s = handle_unlock_native lib w s
dispatch lib w unlocks_hello s = handle_unlock_hello s
dispatch lib w (status json) s = (s, ok status_report)
dispatch lib w (unlocks_pin pin) s = handle_unlock_pin lib w pin s
dispatch lib w (unlocks_password password) s = handle_unlock_password lib w password s
dispatch lib w syncs s = handle_sync lib w s
dispatch lib w (forgets shared) s = handle_forget lib w shared s
dispatch lib w (sets_pin pin) s = handle_set_pin w pin s
dispatch lib w binds_hosts s = handle_bind_hosts w s

unfoldable pub handle_control_command :
    SshKeyLib → World → ControlAction → VaultState → VaultState × ControlResponse
handle_control_command lib w action s =
    dispatch lib w action
      (if reloads action then reload_shared_local_cache_from_disk_if_multi_device w s else s)
