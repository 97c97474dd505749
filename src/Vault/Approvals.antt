-- ===== src/Vault/Approvals.antt =====
-- The answers of `handle_ui_request` in src/ui.rs to sign requests.
use sshwarden.Base.{
  ◌≡◌, refl, ◌⊎◌, inl, inr, true, false, Option, none, some, arith, Text, Bool-cases, Option-cases,
  Result-cases,
}
use sshwarden.Agent.{SshKeyLib, SshAgentUiRequest, set_keys}
use sshwarden.Vault.{World, VaultState, LocalKeyCacheFile, SymmetricKey}
use sshwarden.Vault.Cache.{
  decrypt_envelope_local_key_cache_with_pin, decrypt_envelope_local_key_cache_with_native,
}
use sshwarden.Vault.Unlocking.{pin_cache}
use sshwarden.Vault.Signing.{
  PromptBehavior, User, RuntimeEvent, auto_unlocked_native, Answer, needs_prompt,
  prompt_authorization_with_bind_flow, run_authorization_prompt, apply_decrypted_keys_state,
  auto_unlock, try_native, after_dialog, authorize_unlocked, unlock_by_pin, or_pin, is_remembered,
  remember, known_name, sign_unlocked, handle_ui_request,
}

-- An unlock that names a key has opened the vault.
abbrev Opens : VaultState × Option Text → Type 0
Opens r = (r.1 ≡ none) ⊎ (r.0.vault_locked ≡ false)

module _ (lib : SshKeyLib) (w : World) (request : SshAgentUiRequest) where
  auto_unlock-Opens :
      (keys_json : Text) (key : SymmetricKey) (s : VaultState)
      → Opens (auto_unlock lib w request keys_json key s)
  unfolding auto_unlock apply_decrypted_keys_state
  auto_unlock-Opens keys_json key s = elim (Option-cases (w.keys_from_json keys_json)) [
    | inl e ↦ rw (auto_unlock, e) (inl refl)
    | inr (keys, e) ↦ elim (Result-cases (set_keys lib s.agent keys)) [
      | inl (_, failed) ↦ rw (auto_unlock, e, failed) (inl refl)
      | inr (agent, loaded) ↦ rw (auto_unlock, e, loaded) (inr refl)
    ]
  ]

  try_native-Opens : (s : VaultState) → Opens (try_native lib w request s)
  unfolding try_native
  try_native-Opens s = elim (Option-cases s.local_key_cache_data) [
    | inl e ↦ rw (try_native, e) (inl refl)
    | inr (cache, e) ↦ elim (Option-cases (decrypt_envelope_local_key_cache_with_native w cache)) [
      | inl f ↦ rw (try_native, e, f) (inl refl)
      | inr ((keys_json, key), f) ↦ rw (try_native, e, f) (auto_unlock-Opens keys_json key s)
    ]
  ]

  after_dialog-Opens :
      (cache : LocalKeyCacheFile) (pin : Option Text) (s : VaultState)
      → Opens (after_dialog lib w request cache pin s)
  unfolding after_dialog
  after_dialog-Opens cache none s = inl refl
  after_dialog-Opens cache (some pin) s =
      elim (Option-cases (decrypt_envelope_local_key_cache_with_pin w cache pin)) [
        | inl e ↦ rw (after_dialog, e) (inl refl)
        | inr ((keys_json, key), e) ↦ rw (after_dialog, e) (auto_unlock-Opens keys_json key s)
      ]

  module _ (user : User) (behavior : PromptBehavior) where
    -- What a positive answer to an unlock shows: the vault is open, and the user was asked where that
    -- is due.
    record IsGranted (a : Answer) : Type 0 where
      unlocked : a.state.vault_locked ≡ false
      asked :
          (needs_prompt behavior request ≡ false)
          ⊎ ((name : Text) × (prompt_authorization_with_bind_flow user request name ≡ true))

    authorize-IsGranted :
        (event : RuntimeEvent) (r : VaultState × Option Text)
        → Opens r
        → (authorize_unlocked user behavior request event r).response ≡ true
        → IsGranted (authorize_unlocked user behavior request event r)
    unfolding authorize_unlocked run_authorization_prompt
    authorize-IsGranted event (s, none) h e = cc
    authorize-IsGranted event (s, some name) h e = record {
      unlocked = ground arith;
      asked = elim (Bool-cases (needs_prompt behavior request)) [
        | inl due ↦ inr (name, ground arith)
        | inr free ↦ inl free
      ];
    }

    unlock_by_pin-IsGranted :
        (s : VaultState)
        → (unlock_by_pin lib w user behavior request s).response ≡ true
        → IsGranted (unlock_by_pin lib w user behavior request s)
    unfolding unlock_by_pin
    unlock_by_pin-IsGranted s = elim (Option-cases (pin_cache s.local_key_cache_data)) [
      | inl c ↦ rw (unlock_by_pin, c) (λ e. cc)
      | inr (cache, c) ↦
          rw (unlock_by_pin, c) (authorize-IsGranted _ _ (after_dialog-Opens cache _ _))
    ]

    or_pin-IsGranted :
        (r : VaultState × Option Text)
        → Opens r
        → (or_pin lib w user behavior request r).response ≡ true
        → IsGranted (or_pin lib w user behavior request r)
    unfolding or_pin
    or_pin-IsGranted (s, some name) h e =
        authorize-IsGranted auto_unlocked_native (s, some name) h e
    or_pin-IsGranted (s, none) h e = unlock_by_pin-IsGranted s e

    remember_locked : (s : VaultState) → (remember behavior request s).vault_locked ≡ s.vault_locked
    unfolding remember
    remember_locked s = ground arith

    -- What a positive answer to a sign request shows, from state `s`.
    pub record IsAllowed (s : VaultState) : Type 0 where
      pub unlocked : (handle_ui_request lib w user behavior request s).state.vault_locked ≡ false
      pub reason :
          (needs_prompt behavior request ≡ false)
          ⊎ (is_remembered behavior request s.authorization_memory ≡ true)
          ⊎ ((name : Text) × (prompt_authorization_with_bind_flow user request name ≡ true))

    sign_unlocked_cases :
        (s : VaultState)
        → s.vault_locked ≡ false
        → (sign_unlocked user behavior request s).response ≡ true
        → ((sign_unlocked user behavior request s).state.vault_locked ≡ false)
          × ((needs_prompt behavior request ≡ false)
              ⊎ (is_remembered behavior request s.authorization_memory ≡ true)
              ⊎ (prompt_authorization_with_bind_flow user request (known_name s request) ≡ true))
    unfolding sign_unlocked
    sign_unlocked_cases s open_now e = ground (arith, remember_locked s)

    pub handle_ui_request-IsAllowed :
        (s : VaultState)
        → request.is_list ≡ false
        → (handle_ui_request lib w user behavior request s).response ≡ true
        → IsAllowed s
    unfolding handle_ui_request
    handle_ui_request-IsAllowed s sign e = elim (Bool-cases s.vault_locked) [
      | inl closed ↦
          let granted =
            or_pin-IsGranted (try_native lib w request s) (try_native-Opens s) (ground arith) in
          record {
            unlocked = ground (arith, granted.unlocked);
            reason = elim granted.asked [ inl free ↦ inl free | inr asked ↦ inr (inr asked) ];
          }
      | inr is_open ↦
          let (after, reasons) = sign_unlocked_cases s is_open (ground arith) in
          record {
            unlocked = ground arith;
            reason = elim reasons [
              | inl free ↦ inl free
              | inr (inl remembered) ↦ inr (inl remembered)
              | inr (inr asked) ↦ inr (inr (known_name s request, asked))
            ];
          }
    ]

    -- Whatever is configured or remembered, a request that comes over a forwarded agent is approved only
    -- by the user.
    pub handle_ui_request-forwarding :
        (s : VaultState)
        → request.is_list ≡ false
        → request.is_forwarding ≡ true
        → (handle_ui_request lib w user behavior request s).response ≡ true
        → (name : Text) × (prompt_authorization_with_bind_flow user request name ≡ true)
    handle_ui_request-forwarding s sign forwarded e =
        elim (handle_ui_request-IsAllowed s sign e).reason [
          | inl free ↦ absurd (unfold needs_prompt in ground arith)
          | inr (inl remembered) ↦ absurd (unfold is_remembered in ground arith)
          | inr (inr asked) ↦ asked
        ]
