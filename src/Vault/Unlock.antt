-- ===== src/Vault/Unlock.antt =====
-- src/unlock.rs and `finish_native_unlock_response` of src/cache.rs: what an unlock does.
use sshwarden.Base.{
  Bool, false, not, List, [], ◌∷◌, Option, none, some, Text, if◌then◌else◌, is_some, Result, ok,
  err,
}
use sshwarden.Agent.{SshKeyLib, KeyTuple, set_keys}
use sshwarden.PinLockout.{PinFailureState, Attempt, gate_pin_validator}
use sshwarden.Vault.{
  LocalKeyCacheFile, Failure, unreadable_keys, reload_failed, native_failed, key_not_recovered,
  sync_cancelled, unlocked, ControlResponse, World, VaultState,
}
use sshwarden.Vault.Cache.{
  decrypt_envelope_payload, decrypt_envelope_local_key_cache_with_native,
  decrypt_envelope_local_key_cache_with_pin, reload_shared_local_cache_from_disk_if_multi_device,
}
use sshwarden.Vault.Sync.{names_of}

-- The names and the cached tuples are set before the agent takes the keys.
unfoldable pub load_decrypted :
    SshKeyLib → List KeyTuple → VaultState → VaultState × ControlResponse
load_decrypted lib keys s =
    let s' = record s { key_names = names_of [] keys; cached_key_tuples = keys } in
    elim (set_keys lib s.agent keys) [
      | err e ↦ (s', err reload_failed)
      | ok agent ↦ (record s' { agent = agent; vault_locked = false }, ok unlocked)
    ]

unfoldable pub finish_unlock_with_json :
    SshKeyLib → World → Text → VaultState → VaultState × ControlResponse
finish_unlock_with_json lib w keys_json s = elim (w.keys_from_json keys_json) [
  | none ↦ (s, err unreadable_keys)
  | some keys ↦ load_decrypted lib keys s
]

unfoldable pub finish_native_unlock_response :
    SshKeyLib → World → LocalKeyCacheFile → VaultState → VaultState × ControlResponse
finish_native_unlock_response lib w cache s =
    elim (decrypt_envelope_local_key_cache_with_native w cache) [
      | none ↦ (s, err native_failed)
      | some (keys_json, local_cache_key) ↦
          finish_unlock_with_json lib w keys_json
            (record s { local_cache_key_state = some local_cache_key })
    ]

-- The PIN dialog: each PIN entered goes through the gated validator, and the first that passes closes
-- the dialog.
unfoldable pub request_pin_dialog :
    (Text → Bool) → List Attempt → PinFailureState → PinFailureState × Option Text
request_pin_dialog inner [] st = (st, none)
request_pin_dialog inner (a ∷ later) st =
    let (st', accepted) = gate_pin_validator inner a.checked a.recorded st a.pin in
    let rest = request_pin_dialog inner later st' in if accepted then (st', some a.pin) else rest

-- The validator that both dialogs use.
abbrev pub opens : World → LocalKeyCacheFile → Text → Bool
opens w cache pin = is_some (decrypt_envelope_local_key_cache_with_pin w cache pin)

-- A session is restored only where there is none; the client that comes back is the world's.
unfoldable pub try_restore_api_session : World → VaultState → VaultState
try_restore_api_session w s = elim s.api_client [
  | some client ↦ s
  | none ↦ record s { api_client = w.restored_client }
]

-- The part of `ensure_local_cache_key_for_manual_sync` that asks for the PIN.
unfoldable pub recover_local_cache_key :
    World → LocalKeyCacheFile → VaultState → VaultState × Result Failure (Unit {0})
recover_local_cache_key w cache s =
    if not (is_some cache.local_cache_key.pin_encrypted)
    then (s, ok tt)
    else let (st, entered_pin) = request_pin_dialog (opens w cache) w.entered s.pin_failures in
      let s' = record s { pin_failures = st } in
      elim entered_pin [
        | none ↦ (s', err sync_cancelled)
        | some pin ↦ elim (decrypt_envelope_local_key_cache_with_pin w cache pin) [
          | none ↦ (s', err key_not_recovered)
          | some (_, local_cache_key) ↦
              (record s' { local_cache_key_state = some local_cache_key }, ok tt)
        ]
      ]

unfoldable pub ensure_with_cache : World → VaultState → VaultState × Result Failure (Unit {0})
ensure_with_cache w s = elim s.local_key_cache_data [
  | none ↦ (s, ok tt)
  | some cache ↦ elim s.local_cache_key_state [
    | none ↦ recover_local_cache_key w cache s
    | some local_cache_key ↦
        if is_some (decrypt_envelope_payload w cache local_cache_key)
        then (s, ok tt)
        else recover_local_cache_key w cache (record s { local_cache_key_state = none })
  ]
]

unfoldable pub ensure_local_cache_key_for_manual_sync :
    World → VaultState → VaultState × Result Failure (Unit {0})
ensure_local_cache_key_for_manual_sync w s =
    ensure_with_cache w (reload_shared_local_cache_from_disk_if_multi_device w s)
