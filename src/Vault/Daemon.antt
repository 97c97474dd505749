-- ===== src/Vault/Daemon.antt =====
-- src/daemon.rs: the turns of the main loop that change the vault's state, and their histories.
use sshwarden.Base.{ℕ, true, not, ◌&&◌, List, [], ◌∷◌, if◌then◌else◌, ltb, leb, ◌==◌}
use sshwarden.Agent.{SshKeyLib, SshAgentUiRequest}
use sshwarden.Vault.{World, VaultState}
use sshwarden.Vault.Sync.{lock_vault, do_sync, resolve_pending_sync, keep_pending}
use sshwarden.Vault.Unlock.{try_restore_api_session}
use sshwarden.Vault.Control.{
  ControlAction, unlocks, unlocks_hello, unlocks_native, binds_hosts, handle_control_command,
}
use sshwarden.Vault.Signing.{
  PromptBehavior, RuntimeEvent, auto_unlocked_native, auto_unlocked_pin, User, handle_ui_request,
}

pub data SyncEvent : Type 0 where
  cipher_changed log_out fallback_sync_due : SyncEvent

unfoldable pub handle_runtime_event : SshKeyLib → World → RuntimeEvent → VaultState → VaultState
handle_runtime_event lib w auto_unlocked_native s = resolve_pending_sync lib w s
handle_runtime_event lib w (auto_unlocked_pin pin) s =
    resolve_pending_sync lib w (try_restore_api_session w s)

-- A change on the server: synced at once, or put off until the unlock.
unfoldable pub sync_or_put_off : SshKeyLib → World → VaultState → VaultState
sync_or_put_off lib w s =
    if s.vault_locked
    then record s { pending_sync = true }
    else keep_pending (do_sync lib w w.sync_ssh_keys s)

unfoldable pub handle_sync_event : SshKeyLib → World → SyncEvent → VaultState → VaultState
handle_sync_event lib w cipher_changed s = sync_or_put_off lib w s
handle_sync_event lib w log_out s = (lock_vault s).0
handle_sync_event lib w fallback_sync_due s = sync_or_put_off lib w s

-- The tick of the auto-lock check: the timeout, the prompts in flight, and the seconds of inactivity.
unfoldable pub lock_check : ℕ → ℕ → ℕ → VaultState → VaultState
lock_check lock_timeout in_flight_prompts idle s =
    if ltb 0 lock_timeout && not s.vault_locked && in_flight_prompts == 0 && leb lock_timeout idle
    then (lock_vault s).0
    else s

-- One turn of the loop.
pub data Turn : Type 0 where
  commands : World → ControlAction → Turn
  requests : World → User → PromptBehavior → SshAgentUiRequest → Turn
  events : World → RuntimeEvent → Turn
  notifications : World → SyncEvent → Turn
  ticks : ℕ → ℕ → ℕ → Turn

unfoldable pub step : SshKeyLib → VaultState → Turn → VaultState
step lib s (commands w action) = (handle_control_command lib w action s).0
step lib s (requests w user behavior request) =
    (handle_ui_request lib w user behavior request s).state
step lib s (events w event) = handle_runtime_event lib w event s
step lib s (notifications w event) = handle_sync_event lib w event s
step lib s (ticks lock_timeout in_flight_prompts idle) =
    lock_check lock_timeout in_flight_prompts idle s

unfoldable pub run : SshKeyLib → VaultState → List Turn → VaultState
run lib s [] = s
run lib s (t ∷ ts) = run lib (step lib s t) ts

-- The watchdog's budget for a control action, in seconds: long for those that wait for the user.
unfoldable pub control_action_timeout : ControlAction → ℕ
control_action_timeout unlocks = 900
control_action_timeout unlocks_hello = 900
control_action_timeout unlocks_native = 900
control_action_timeout binds_hosts = 900
control_action_timeout _ = 120
