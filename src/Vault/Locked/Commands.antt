-- ===== src/Vault/Locked/Commands.antt =====
-- The invariant of the locked vault, for the control commands of src/control.rs.
use sshwarden.Base.{
  ℕ, refl, inl, inr, Bool, true, false, List, Option, none, some, arith, Text, Result, ok, err,
  Bool-cases, Option-cases, Result-cases, not, ◌&&◌,
}
use sshwarden.Agent.{SshKeyLib, KeyTuple, set_keys, clear_keys}
use sshwarden.PinLockout.{pin_lockout_remaining}
use sshwarden.Bindings.{is_empty}
use sshwarden.Agent.History.{HasNoPrivateKey, set_public_identities-HasNoPrivateKey}
use sshwarden.Vault.{
  World, VaultState, BitwardenClient, LocalKeyCacheFile, ControlResponse, SymmetricKey, Failure,
}
use sshwarden.Vault.Cache.{decrypt_envelope_local_key_cache_with_pin}
use sshwarden.Vault.Control.{
  ControlAction, locks, unlocks, unlocks_hello, unlocks_native, syncs, stops, binds_hosts,
  unlocks_pin, unlocks_password, sets_pin, status, forgets, handle_lock, load_login,
  handle_unlock_password, report_sync, sync_if_ready, handle_sync, keep_shared, forget_state,
  handle_forget, handle_set_pin, handle_bind_hosts, dispatch, reloads, handle_control_command,
}
use sshwarden.Vault.Unlocking.{
  and_then_sync, and_then_restore, pin_cache, after_pin_dialog, unlock_by_dialog, or_dialog,
  handle_unlock, handle_unlock_native, handle_unlock_hello, migrate, unlock_with_pin,
  record_outcome, handle_unlock_pin,
}
use sshwarden.Vault.Locked.{
  IsSafe, lock_vault-IsSafe, resolve_pending_sync-IsSafe, finish_unlock-IsSafe,
  finish_native-IsSafe, reconcile-IsSafe, do_sync-IsSafe, restore-IsSafe, reload-IsSafe,
  ensure-IsSafe,
}

handle_lock-IsSafe : (s : VaultState) → IsSafe s → IsSafe (handle_lock s).0
unfolding handle_lock
handle_lock-IsSafe s h = ground (arith, lock_vault-IsSafe s h)

module _ (lib : SshKeyLib) (w : World) where
  and_then_sync-IsSafe :
      (r : VaultState × ControlResponse) → IsSafe r.0 → IsSafe (and_then_sync lib w r).0
  unfolding and_then_sync
  and_then_sync-IsSafe (s, ok n) h = resolve_pending_sync-IsSafe lib w s h
  and_then_sync-IsSafe (s, err e) h = h

  and_then_restore-IsSafe :
      (r : VaultState × ControlResponse) → IsSafe r.0 → IsSafe (and_then_restore lib w r).0
  unfolding and_then_restore
  and_then_restore-IsSafe (s, ok n) h =
      resolve_pending_sync-IsSafe lib w _ (restore-IsSafe lib w s h)
  and_then_restore-IsSafe (s, err e) h = h

  after_pin_dialog-IsSafe :
      (cache : LocalKeyCacheFile) (pin : Option Text) (s : VaultState)
      → IsSafe s
      → IsSafe (after_pin_dialog lib w cache pin s).0
  unfolding after_pin_dialog
  after_pin_dialog-IsSafe cache none s h = h
  after_pin_dialog-IsSafe cache (some pin) s h =
      elim (Option-cases (decrypt_envelope_local_key_cache_with_pin w cache pin)) [
        | inl e ↦ rw (after_pin_dialog, e) h
        | inr ((keys_json, key), e) ↦
            rw (after_pin_dialog, e)
              (and_then_restore-IsSafe _ (finish_unlock-IsSafe lib w keys_json _ h))
      ]

  unlock_by_dialog-IsSafe : (s : VaultState) → IsSafe s → IsSafe (unlock_by_dialog lib w s).0
  unfolding unlock_by_dialog
  unlock_by_dialog-IsSafe s h = elim (Bool-cases w.auto_unlock) [
    | inr off ↦ rw (unlock_by_dialog, off) h
    | inl on ↦ elim (Option-cases (pin_cache s.local_key_cache_data)) [
      | inl e ↦ rw (unlock_by_dialog, on, e) h
      | inr (cache, e) ↦ rw (unlock_by_dialog, on, e) (after_pin_dialog-IsSafe cache _ _ h)
    ]
  ]

  or_dialog-IsSafe : (r : VaultState × ControlResponse) → IsSafe r.0 → IsSafe (or_dialog lib w r).0
  unfolding or_dialog
  or_dialog-IsSafe (s, ok n) h = resolve_pending_sync-IsSafe lib w s h
  or_dialog-IsSafe (s, err e) h = unlock_by_dialog-IsSafe s h

  handle_unlock-IsSafe : (s : VaultState) → IsSafe s → IsSafe (handle_unlock lib w s).0
  unfolding handle_unlock
  handle_unlock-IsSafe s h = elim (Bool-cases s.vault_locked) [
    | inr unlocked ↦ rw (handle_unlock, unlocked) (inl refl)
    | inl closed ↦ elim (Option-cases s.local_key_cache_data) [
      | inl e ↦ rw (handle_unlock, closed, e) (unlock_by_dialog-IsSafe s h)
      | inr (cache, e) ↦
          rw (handle_unlock, closed, e) (or_dialog-IsSafe _ (finish_native-IsSafe lib w cache s h))
    ]
  ]

  handle_unlock_native-IsSafe :
      (s : VaultState) → IsSafe s → IsSafe (handle_unlock_native lib w s).0
  unfolding handle_unlock_native
  handle_unlock_native-IsSafe s h = elim (Bool-cases s.vault_locked) [
    | inr unlocked ↦ rw (handle_unlock_native, unlocked) (inl refl)
    | inl closed ↦ elim (Option-cases s.local_key_cache_data) [
      | inl e ↦ rw (handle_unlock_native, closed, e) h
      | inr (cache, e) ↦
          rw (handle_unlock_native, closed, e)
            (and_then_sync-IsSafe _ (finish_native-IsSafe lib w cache s h))
    ]
  ]

  handle_unlock_hello-IsSafe : (s : VaultState) → IsSafe s → IsSafe (handle_unlock_hello s).0
  unfolding handle_unlock_hello
  handle_unlock_hello-IsSafe s h = ground arith

  migrate-IsSafe :
      (cache : LocalKeyCacheFile) (key : SymmetricKey) (pin : Text) (s : VaultState)
      → IsSafe s
      → IsSafe (migrate w cache key pin s)
  unfolding migrate
  migrate-IsSafe cache key pin s h = ground arith

  unlock_with_pin-IsSafe :
      (pin : Text) (s : VaultState) → IsSafe s → IsSafe (unlock_with_pin lib w pin s).0
  unfolding unlock_with_pin
  unlock_with_pin-IsSafe pin s h = elim (Option-cases s.local_key_cache_data) [
    | inl e ↦ rw (unlock_with_pin, e) h
    | inr (cache, e) ↦ elim (Option-cases (decrypt_envelope_local_key_cache_with_pin w cache pin)) [
      | inl f ↦ rw (unlock_with_pin, e, f) h
      | inr ((keys_json, key), f) ↦
          rw (unlock_with_pin, e, f)
            (and_then_restore-IsSafe _
              (finish_unlock-IsSafe lib w keys_json _ (migrate-IsSafe cache key pin s h)))
    ]
  ]

  record_outcome-IsSafe :
      (r : VaultState × ControlResponse) → IsSafe r.0 → IsSafe (record_outcome w r).0
  unfolding record_outcome
  record_outcome-IsSafe (s, response) h = h

  handle_unlock_pin-IsSafe :
      (pin : Text) (s : VaultState) → IsSafe s → IsSafe (handle_unlock_pin lib w pin s).0
  unfolding handle_unlock_pin
  handle_unlock_pin-IsSafe pin s h = elim (Bool-cases s.vault_locked) [
    | inr unlocked ↦ rw (handle_unlock_pin, unlocked) (inl refl)
    | inl closed ↦ elim (Option-cases (pin_lockout_remaining w.now s.pin_failures).1) [
      | inl e ↦
          rw (handle_unlock_pin, closed, e)
            (record_outcome-IsSafe _ (unlock_with_pin-IsSafe pin _ h))
      | inr (wait, e) ↦ rw (handle_unlock_pin, closed, e) h
    ]
  ]

  load_login-IsSafe :
      (client : BitwardenClient) (was_locked : Bool) (keys : List KeyTuple) (s : VaultState)
      → IsSafe s
      → IsSafe (load_login lib w client was_locked keys s).0
  unfolding load_login
  load_login-IsSafe client was_locked keys s h = elim (Result-cases (set_keys lib s.agent keys)) [
    | inl (e, failed) ↦ rw (failed, load_login) h
    | inr (agent, loaded) ↦ rw (loaded, load_login) (resolve_pending_sync-IsSafe lib w _ (inl refl))
  ]

  handle_unlock_password-IsSafe :
      (password : Text) (s : VaultState)
      → IsSafe s
      → IsSafe (handle_unlock_password lib w password s).0
  unfolding handle_unlock_password
  handle_unlock_password-IsSafe password s h = elim (Bool-cases (is_empty w.email)) [
    | inl missing ↦ rw (handle_unlock_password, missing) h
    | inr given ↦ elim (Result-cases (w.login_password w.email password)) [
      | inl (e, f) ↦ rw (handle_unlock_password, given, f) h
      | inr (client, f) ↦ elim (Result-cases (w.sync_ssh_keys client)) [
        | inl (e, g) ↦ rw (handle_unlock_password, given, f, g) h
        | inr (keys, g) ↦
            rw (handle_unlock_password, given, f, g)
              (load_login-IsSafe client s.vault_locked keys _ (reconcile-IsSafe lib w keys s h))
      ]
    ]
  ]

  report_sync-IsSafe :
      (was_locked : Bool) (r : VaultState × Result Failure ℕ)
      → IsSafe r.0
      → IsSafe (report_sync was_locked r).0
  unfolding report_sync
  report_sync-IsSafe true (s, ok n) h = h
  report_sync-IsSafe false (s, ok n) h = h
  report_sync-IsSafe true (s, err e) h = h
  report_sync-IsSafe false (s, err e) h = h

  sync_if_ready-IsSafe :
      (was_locked : Bool) (r : VaultState × Result Failure (Unit {0}))
      → IsSafe r.0
      → IsSafe (sync_if_ready lib w was_locked r).0
  unfolding sync_if_ready
  sync_if_ready-IsSafe was_locked (s, err e) h = h
  sync_if_ready-IsSafe was_locked (s, ok u) h =
      report_sync-IsSafe was_locked _ (do_sync-IsSafe lib w w.sync_ssh_keys s h)

  handle_sync-IsSafe : (s : VaultState) → IsSafe s → IsSafe (handle_sync lib w s).0
  unfolding handle_sync
  handle_sync-IsSafe s h = elim (Bool-cases (not s.vault_locked && w.multi_device)) [
    | inl prepare ↦
        rw (handle_sync, prepare) (sync_if_ready-IsSafe s.vault_locked _ (ensure-IsSafe lib w s h))
    | inr plain ↦
        rw (handle_sync, plain)
          (report_sync-IsSafe s.vault_locked _ (do_sync-IsSafe lib w w.sync_ssh_keys s h))
  ]

  keep_shared-IsSafe :
      (cache : Option LocalKeyCacheFile) (s : VaultState)
      → HasNoPrivateKey s.agent.keystore
      → IsSafe (keep_shared lib cache s)
  unfolding keep_shared
  keep_shared-IsSafe none s h = inr h
  keep_shared-IsSafe (some cache) s h = inr (set_public_identities-HasNoPrivateKey lib s.agent _ h)

  handle_forget-IsSafe : (shared : Bool) (s : VaultState) → IsSafe (handle_forget lib w shared s).0
  unfolding handle_forget forget_state clear_keys
  handle_forget-IsSafe shared s = keep_shared-IsSafe _ _ tt

  handle_set_pin-IsSafe :
      (pin : Text) (s : VaultState) → IsSafe s → IsSafe (handle_set_pin w pin s).0
  unfolding handle_set_pin
  handle_set_pin-IsSafe pin s h = ground arith

  handle_bind_hosts-IsSafe : (s : VaultState) → IsSafe s → IsSafe (handle_bind_hosts w s).0
  unfolding handle_bind_hosts
  handle_bind_hosts-IsSafe s h = ground arith

  dispatch-IsSafe :
      (action : ControlAction) (s : VaultState) → IsSafe s → IsSafe (dispatch lib w action s).0
  unfolding dispatch
  dispatch-IsSafe stops s h = h
  dispatch-IsSafe locks s h = handle_lock-IsSafe s h
  dispatch-IsSafe unlocks s h = handle_unlock-IsSafe s h
  dispatch-IsSafe unlocks_native s h = handle_unlock_native-IsSafe s h
  dispatch-IsSafe unlocks_hello s h = handle_unlock_hello-IsSafe s h
  dispatch-IsSafe (status json) s h = h
  dispatch-IsSafe (unlocks_pin pin) s h = handle_unlock_pin-IsSafe pin s h
  dispatch-IsSafe (unlocks_password password) s h = handle_unlock_password-IsSafe password s h
  dispatch-IsSafe syncs s h = handle_sync-IsSafe s h
  dispatch-IsSafe (forgets shared) s h = handle_forget-IsSafe shared s
  dispatch-IsSafe (sets_pin pin) s h = handle_set_pin-IsSafe pin s h
  dispatch-IsSafe binds_hosts s h = handle_bind_hosts-IsSafe s h

  pub control-IsSafe :
      (action : ControlAction) (s : VaultState)
      → IsSafe s
      → IsSafe (handle_control_command lib w action s).0
  unfolding handle_control_command
  control-IsSafe action s h = elim (Bool-cases (reloads action)) [
    | inl first ↦
        rw (handle_control_command, first) (dispatch-IsSafe action _ (reload-IsSafe lib w s h))
    | inr plain ↦ rw (handle_control_command, plain) (dispatch-IsSafe action s h)
  ]
