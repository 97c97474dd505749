-- ===== src/Vault/Locked/Histories.antt =====
-- The invariant of the locked vault, for the turns of the main loop of src/daemon.rs.
use sshwarden.Base.{ℕ, ◌≡◌, inl, inr, true, List, [], ◌∷◌, arith}
use sshwarden.Agent.{SshKeyLib, signable_key_count}
use sshwarden.Agent.History.{signable-zero}
use sshwarden.Vault.{World, VaultState}
use sshwarden.Vault.Sync.{do_sync}
use sshwarden.Vault.Signing.{RuntimeEvent, auto_unlocked_native, auto_unlocked_pin}
use sshwarden.Vault.Daemon.{
  SyncEvent, cipher_changed, log_out, fallback_sync_due, handle_runtime_event, sync_or_put_off,
  handle_sync_event, lock_check, Turn, commands, requests, events, notifications, ticks, step, run,
}
use sshwarden.Vault.Locked.{
  IsSafe, lock_vault-IsSafe, resolve_pending_sync-IsSafe, do_sync-IsSafe, keep_pending-IsSafe,
  restore-IsSafe,
}
use sshwarden.Vault.Locked.Commands.{control-IsSafe}
use sshwarden.Vault.Locked.Requests.{ui-IsSafe}

module _ (lib : SshKeyLib) (w : World) where
  runtime-IsSafe :
      (event : RuntimeEvent) (s : VaultState)
      → IsSafe s
      → IsSafe (handle_runtime_event lib w event s)
  unfolding handle_runtime_event
  runtime-IsSafe auto_unlocked_native s h = resolve_pending_sync-IsSafe lib w s h
  runtime-IsSafe (auto_unlocked_pin pin) s h =
      resolve_pending_sync-IsSafe lib w _ (restore-IsSafe lib w s h)

  put_off-IsSafe : (s : VaultState) → IsSafe s → IsSafe (sync_or_put_off lib w s)
  unfolding sync_or_put_off
  put_off-IsSafe s h = ground (
    arith,
    keep_pending-IsSafe lib w (do_sync lib w w.sync_ssh_keys s)
        (do_sync-IsSafe lib w w.sync_ssh_keys s h),
  )

  sync_event-IsSafe :
      (event : SyncEvent) (s : VaultState) → IsSafe s → IsSafe (handle_sync_event lib w event s)
  unfolding handle_sync_event
  sync_event-IsSafe cipher_changed s h = put_off-IsSafe s h
  sync_event-IsSafe log_out s h = lock_vault-IsSafe s h
  sync_event-IsSafe fallback_sync_due s h = put_off-IsSafe s h

lock_check-IsSafe : (t p idle : ℕ) (s : VaultState) → IsSafe s → IsSafe (lock_check t p idle s)
unfolding lock_check
lock_check-IsSafe t p idle s h = ground (arith, lock_vault-IsSafe s h)

module _ (lib : SshKeyLib) where
  step-IsSafe : (s : VaultState) (t : Turn) → IsSafe s → IsSafe (step lib s t)
  unfolding step
  step-IsSafe s (commands w action) h = control-IsSafe lib w action s h
  step-IsSafe s (requests w user behavior request) h = ui-IsSafe lib w user behavior request s h
  step-IsSafe s (events w event) h = runtime-IsSafe lib w event s h
  step-IsSafe s (notifications w event) h = sync_event-IsSafe lib w event s h
  step-IsSafe s (ticks t p idle) h = lock_check-IsSafe t p idle s h

  pub run-IsSafe : (s : VaultState) (ts : List Turn) → IsSafe s → IsSafe (run lib s ts)
  unfolding run
  run-IsSafe s [] h = h
  run-IsSafe s (t ∷ ts) h = run-IsSafe (step lib s t) ts (step-IsSafe s t h)

  -- After any history of commands, sign requests, notifications, runtime events and ticks, whatever the
  -- server, the file system and the user answer: while the vault is locked, no key of the agent can
  -- sign. It starts from a state in which the vault is unlocked or the agent holds no private key.
  pub run-locked_signable :
      (s : VaultState) (ts : List Turn)
      → IsSafe s
      → (run lib s ts).vault_locked ≡ true
      → signable_key_count (run lib s ts).agent ≡ 0
  unfolding signable_key_count
  run-locked_signable s ts h closed = elim (run-IsSafe s ts h) [
    | inl is_open ↦ absurd (cc)
    | inr clean ↦ signable-zero _ clean
  ]
