-- ===== src/Vault/Locked/Requests.antt =====
-- The invariant of the locked vault, for the sign requests of src/ui.rs.
use sshwarden.Base.{refl, inl, inr, Option, none, some, arith, Text, Option-cases, Result-cases}
use sshwarden.Agent.{SshKeyLib, SshAgentUiRequest, set_keys, clear_needs_unlock}
use sshwarden.Vault.{World, VaultState, LocalKeyCacheFile, SymmetricKey}
use sshwarden.Vault.Cache.{
  decrypt_envelope_local_key_cache_with_pin, decrypt_envelope_local_key_cache_with_native,
}
use sshwarden.Vault.Unlocking.{pin_cache}
use sshwarden.Vault.Signing.{
  PromptBehavior, User, RuntimeEvent, auto_unlocked_native, auto_unlock, apply_decrypted_keys_state,
  try_native, after_dialog, authorize_unlocked, unlock_by_pin, or_pin, remember, sign_unlocked,
  handle_ui_request,
}
use sshwarden.Vault.Locked.{IsSafe}

module _ (lib : SshKeyLib) (w : World) where
  auto_unlock-IsSafe :
      (request : SshAgentUiRequest) (keys_json : Text) (key : SymmetricKey) (s : VaultState)
      → IsSafe s
      → IsSafe (auto_unlock lib w request keys_json key s).0
  unfolding auto_unlock apply_decrypted_keys_state
  auto_unlock-IsSafe request keys_json key s h = elim (Option-cases (w.keys_from_json keys_json)) [
    | inl e ↦ rw (auto_unlock, e) h
    | inr (keys, e) ↦ elim (Result-cases (set_keys lib s.agent keys)) [
      | inl (_, failed) ↦ rw (auto_unlock, e, failed) h
      | inr (agent, loaded) ↦ rw (auto_unlock, e, loaded) (inl refl)
    ]
  ]

  try_native-IsSafe :
      (request : SshAgentUiRequest) (s : VaultState)
      → IsSafe s
      → IsSafe (try_native lib w request s).0
  unfolding try_native
  try_native-IsSafe request s h = elim (Option-cases s.local_key_cache_data) [
    | inl e ↦ ground (arith, e)
    | inr (cache, e) ↦ elim (Option-cases (decrypt_envelope_local_key_cache_with_native w cache)) [
      | inl f ↦ ground (arith, e, f)
      | inr ((keys_json, key), f) ↦
          ground (arith, e, f, auto_unlock-IsSafe request keys_json key s h)
    ]
  ]

  after_dialog-IsSafe :
      (request : SshAgentUiRequest) (cache : LocalKeyCacheFile) (pin : Option Text) (s : VaultState)
      → IsSafe s
      → IsSafe (after_dialog lib w request cache pin s).0
  unfolding after_dialog
  after_dialog-IsSafe request cache none s h = h
  after_dialog-IsSafe request cache (some pin) s h =
      elim (Option-cases (decrypt_envelope_local_key_cache_with_pin w cache pin)) [
        | inl e ↦ rw (after_dialog, e) h
        | inr ((keys_json, key), e) ↦
            rw (after_dialog, e) (auto_unlock-IsSafe request keys_json key s h)
      ]

  module _ (user : User) (behavior : PromptBehavior) (request : SshAgentUiRequest) where
    authorize-IsSafe :
        (event : RuntimeEvent) (r : VaultState × Option Text)
        → IsSafe r.0
        → IsSafe (authorize_unlocked user behavior request event r).state
    unfolding authorize_unlocked
    authorize-IsSafe event (s, none) h = h
    authorize-IsSafe event (s, some name) h = h

    unlock_by_pin-IsSafe :
        (s : VaultState) → IsSafe s → IsSafe (unlock_by_pin lib w user behavior request s).state
    unfolding unlock_by_pin
    unlock_by_pin-IsSafe s h = elim (Option-cases (pin_cache s.local_key_cache_data)) [
      | inl e ↦ rw (unlock_by_pin, e) h
      | inr (cache, e) ↦
          rw (unlock_by_pin, e) (authorize-IsSafe _ _ (after_dialog-IsSafe request cache _ _ h))
    ]

    or_pin-IsSafe :
        (r : VaultState × Option Text)
        → IsSafe r.0
        → IsSafe (or_pin lib w user behavior request r).state
    unfolding or_pin
    or_pin-IsSafe (s, some name) h = authorize-IsSafe auto_unlocked_native (s, some name) h
    or_pin-IsSafe (s, none) h = unlock_by_pin-IsSafe s h

    remember-IsSafe : (s : VaultState) → IsSafe s → IsSafe (remember behavior request s)
    unfolding remember
    remember-IsSafe s h = ground arith

    sign_unlocked-IsSafe :
        (s : VaultState) → IsSafe s → IsSafe (sign_unlocked user behavior request s).state
    unfolding sign_unlocked
    sign_unlocked-IsSafe s h = ground (arith, remember-IsSafe s h)

    pub ui-IsSafe :
        (s : VaultState) → IsSafe s → IsSafe (handle_ui_request lib w user behavior request s).state
    unfolding handle_ui_request clear_needs_unlock
    ui-IsSafe s h = ground (
      arith,
      or_pin-IsSafe (try_native lib w request s) (try_native-IsSafe request s h),
      sign_unlocked-IsSafe s h,
    )
