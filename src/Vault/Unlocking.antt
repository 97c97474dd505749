-- ===== src/Vault/Unlocking.antt =====
-- src/control.rs, the arms of `handle_control_command` that unlock without a login. A PIN is kept as
-- its UTF-8 bytes, which is what its length counts.
use sshwarden.Base.{◌+◌, ◌/◌, not, Option, none, some, Text, if◌then◌else◌, ok, err, is_ok, is_some}
use sshwarden.Agent.{SshKeyLib}
use sshwarden.PinLockout.{pin_lockout_remaining, record_pin_attempt}
use sshwarden.Vault.{
  SymmetricKey, LocalKeyCacheFile, no_cache, hello_unsupported, invalid_pin, no_pin_configured,
  pin_cache_empty, unlock_cancelled, auto_unlock_disabled, too_many_attempts, already_unlocked,
  ControlResponse, World, VaultState,
}
use sshwarden.Vault.Cache.{
  decrypt_envelope_local_key_cache_with_pin, needs_pin_salt_migration, migrate_pin_salt_to_v3,
}
use sshwarden.Vault.Sync.{resolve_pending_sync}
use sshwarden.Vault.Unlock.{
  finish_unlock_with_json, finish_native_unlock_response, request_pin_dialog, opens,
  try_restore_api_session,
}

-- After an unlock that worked, what was put off is synced.
unfoldable pub and_then_sync :
    SshKeyLib → World → VaultState × ControlResponse → VaultState × ControlResponse
and_then_sync lib w (s, ok notice) = (resolve_pending_sync lib w s, ok notice)
and_then_sync lib w (s, err e) = (s, err e)

-- The same, with the session restored first.
unfoldable pub and_then_restore :
    SshKeyLib → World → VaultState × ControlResponse → VaultState × ControlResponse
and_then_restore lib w (s, ok notice) =
    (resolve_pending_sync lib w (try_restore_api_session w s), ok notice)
and_then_restore lib w (s, err e) = (s, err e)

-- The cache if it has a slot for a PIN.
abbrev pub pin_cache : Option LocalKeyCacheFile → Option LocalKeyCacheFile
pin_cache none = none
pin_cache (some cache) = if is_some cache.local_cache_key.pin_encrypted then some cache else none

-- What the closed PIN dialog leads to.
unfoldable pub after_pin_dialog :
    SshKeyLib → World → LocalKeyCacheFile → Option Text → VaultState → VaultState × ControlResponse
after_pin_dialog lib w cache none s = (s, err unlock_cancelled)
after_pin_dialog lib w cache (some entered_pin) s =
    elim (decrypt_envelope_local_key_cache_with_pin w cache entered_pin) [
      | none ↦ (s, err pin_cache_empty)
      | some (keys_json, local_cache_key) ↦ and_then_restore lib w (
          finish_unlock_with_json lib w keys_json
            (record s { local_cache_key_state = some local_cache_key }))
    ]

unfoldable pub unlock_by_dialog : SshKeyLib → World → VaultState → VaultState × ControlResponse
unlock_by_dialog lib w s =
    if not w.auto_unlock
    then (s, err auto_unlock_disabled)
    else elim (pin_cache s.local_key_cache_data) [
      | none ↦ (s, err unlock_cancelled)
      | some cache ↦
          let (st, entered_pin) = request_pin_dialog (opens w cache) w.entered s.pin_failures in
          after_pin_dialog lib w cache entered_pin (record s { pin_failures = st })
    ]

-- A native unlock that failed gives way to the dialog, with what it had set.
unfoldable pub or_dialog :
    SshKeyLib → World → VaultState × ControlResponse → VaultState × ControlResponse
or_dialog lib w (s, ok notice) = (resolve_pending_sync lib w s, ok notice)
or_dialog lib w (s, err e) = unlock_by_dialog lib w s

unfoldable pub handle_unlock : SshKeyLib → World → VaultState → VaultState × ControlResponse
handle_unlock lib w s =
    if not s.vault_locked then (s, ok already_unlocked) else elim s.local_key_cache_data [
      | none ↦ unlock_by_dialog lib w s
      | some cache ↦ or_dialog lib w (finish_native_unlock_response lib w cache s)
    ]

unfoldable pub handle_unlock_native : SshKeyLib → World → VaultState → VaultState × ControlResponse
handle_unlock_native lib w s =
    if not s.vault_locked then (s, ok already_unlocked) else elim s.local_key_cache_data [
      | none ↦ (s, err no_cache)
      | some cache ↦ and_then_sync lib w (finish_native_unlock_response lib w cache s)
    ]

unfoldable pub handle_unlock_hello : VaultState → VaultState × ControlResponse
handle_unlock_hello s =
    if not s.vault_locked then (s, ok already_unlocked) else (s, err hello_unsupported)

-- The move of an old PIN slot to a random salt; a failure is passed over.
unfoldable pub migrate : World → LocalKeyCacheFile → SymmetricKey → Text → VaultState → VaultState
migrate w cache local_cache_key pin s =
    if needs_pin_salt_migration cache
    then elim (migrate_pin_salt_to_v3 w cache local_cache_key pin) [
      | none ↦ s
      | some migrated ↦ record s { local_key_cache_data = some migrated }
    ]
    else s

unfoldable pub unlock_with_pin :
    SshKeyLib → World → Text → VaultState → VaultState × ControlResponse
unlock_with_pin lib w pin s = elim s.local_key_cache_data [
  | none ↦ (s, err no_pin_configured)
  | some cache ↦ elim (decrypt_envelope_local_key_cache_with_pin w cache pin) [
    | none ↦ (s, err invalid_pin)
    | some (keys_json, local_cache_key) ↦ and_then_restore lib w (
        finish_unlock_with_json lib w keys_json (record (migrate w cache local_cache_key pin s) {
          local_cache_key_state = some local_cache_key;
        }))
  ]
]

-- The outcome is recorded, whatever it was.
unfoldable pub record_outcome : World → VaultState × ControlResponse → VaultState × ControlResponse
record_outcome w (s, response) = (
  record s { pin_failures = (record_pin_attempt w.recorded s.pin_failures (is_ok response)).0 },
  response,
)

unfoldable pub handle_unlock_pin :
    SshKeyLib → World → Text → VaultState → VaultState × ControlResponse
handle_unlock_pin lib w pin s =
    if not s.vault_locked
    then (s, ok already_unlocked)
    else let (st, remaining) = pin_lockout_remaining w.now s.pin_failures in
      elim remaining [
        | some wait ↦ (record s { pin_failures = st }, err (too_many_attempts (wait / 1000 + 1)))
        | none ↦ record_outcome w (unlock_with_pin lib w pin (record s { pin_failures = st }))
      ]
