-- ===== src/Vault/Signing.antt =====
-- src/ui.rs, `handle_ui_request`: what is answered to a request of the agent. The answer goes back with
-- the request's id; the event for the main loop is the third part of the result.
use sshwarden.Base.{
  ℕ, Bool, true, false, not, ◌&&◌, ◌||◌, List, [], ◌∷◌, Option, none, some, Text, codes,
  if◌then◌else◌, text_eq, any, ok, err, lookup,
}
use sshwarden.RequestParser.{as_str}
use sshwarden.Agent.{SshKeyLib, SshAgentUiRequest, KeyTuple, set_keys, clear_needs_unlock}
use sshwarden.Vault.{SymmetricKey, LocalKeyCacheFile, World, VaultState}
use sshwarden.Vault.Cache.{
  decrypt_envelope_local_key_cache_with_native, decrypt_envelope_local_key_cache_with_pin,
}
use sshwarden.Vault.Sync.{names_of}
use sshwarden.Vault.Unlock.{request_pin_dialog, opens}
use sshwarden.Vault.Unlocking.{pin_cache}

pub data PromptBehavior : Type 0 where
  always never remember_until_lock : PromptBehavior

pub data AuthorizationResult : Type 0 where
  approved denied timeout bind_requested : AuthorizationResult

pub data RuntimeEvent : Type 0 where
  auto_unlocked_native : RuntimeEvent
  auto_unlocked_pin : Text → RuntimeEvent

-- The user in front of the dialogs: what is chosen for a request under a key's name, and whether the
-- dialog for host bindings ends with bindings that could be saved.
pub record User : Type 0 where
  pub request_authorization : SshAgentUiRequest → Text → AuthorizationResult
  pub run_bind_hosts_flow : ℕ → Option Text → Bool

-- `find` on the decrypted keys.
unfoldable pub find_name : Text → List KeyTuple → Option Text
find_name cid [] = none
find_name cid ((_, name, id) ∷ keys) =
    let rest = find_name cid keys in if text_eq id cid then some name else rest

abbrev unknown_key : Text
unknown_key = codes "Unknown key"

abbrev name_or_unknown : Option Text → Text
name_or_unknown none = unknown_key
name_or_unknown (some name) = name

unfoldable pub key_name_for_request : SshAgentUiRequest → List KeyTuple → Text
key_name_for_request request keys = elim request.cipher_id [
  | none ↦ unknown_key
  | some cid ↦ name_or_unknown (find_name cid keys)
]

unfoldable pub prompt_authorization_with_bind_flow : User → SshAgentUiRequest → Text → Bool
prompt_authorization_with_bind_flow user request key_name =
    elim (user.request_authorization request key_name) [
      | approved ↦ true
      | denied ↦ false
      | timeout ↦ false
      | bind_requested ↦ user.run_bind_hosts_flow request.pid request.cipher_id
    ]

-- Forwarding is always prompted for.
unfoldable pub needs_prompt : PromptBehavior → SshAgentUiRequest → Bool
needs_prompt always request = true
needs_prompt never request = request.is_forwarding
needs_prompt remember_until_lock request = true

unfoldable pub run_authorization_prompt : User → PromptBehavior → SshAgentUiRequest → Text → Bool
run_authorization_prompt user behavior request key_name =
    if not (needs_prompt behavior request)
    then true
    else prompt_authorization_with_bind_flow user request key_name

unfoldable pub apply_decrypted_keys_state : List KeyTuple → VaultState → VaultState
apply_decrypted_keys_state keys s = record s {
  key_names = names_of [] keys;
  cached_key_tuples = keys;
}

-- The state, the answer, and the event sent to the main loop.
pub record Answer : Type 0 where
  pub state : VaultState
  pub response : Bool
  pub event : Option RuntimeEvent

abbrev pub answer : VaultState → Bool → Answer
answer s response = record { state = s; response = response; event = none }

-- An unlock for a request, by what the cache was opened with: the state, and the name of the key if the
-- agent took the keys.
unfoldable pub auto_unlock :
    SshKeyLib
    → World
    → SshAgentUiRequest
    → Text
    → SymmetricKey
    → VaultState
    → VaultState × Option Text
auto_unlock lib w request keys_json local_cache_key s = elim (w.keys_from_json keys_json) [
  | none ↦ (s, none)
  | some keys ↦
      let s' = apply_decrypted_keys_state keys s in
      elim (set_keys lib s.agent keys) [
        | err e ↦ (s', none)
        | ok agent ↦ (
          record s' {
            agent = agent;
            local_cache_key_state = some local_cache_key;
            vault_locked = false;
          },
          some (key_name_for_request request keys),
        )
      ]
]

-- The native unlock, tried where the device or the cache has a slot for it.
unfoldable pub try_native :
    SshKeyLib → World → SshAgentUiRequest → VaultState → VaultState × Option Text
try_native lib w request s = elim s.local_key_cache_data [
  | none ↦ (s, none)
  | some cache ↦ elim (decrypt_envelope_local_key_cache_with_native w cache) [
    | none ↦ (s, none)
    | some (keys_json, local_cache_key) ↦ auto_unlock lib w request keys_json local_cache_key s
  ]
]

-- The PIN dialog: the PIN that was accepted, and the name of the key if the agent took the keys.
unfoldable pub after_dialog :
    SshKeyLib
    → World
    → SshAgentUiRequest
    → LocalKeyCacheFile
    → Option Text
    → VaultState
    → VaultState × Option Text
after_dialog lib w request cache none s = (s, none)
after_dialog lib w request cache (some pin) s =
    elim (decrypt_envelope_local_key_cache_with_pin w cache pin) [
      | none ↦ (s, none)
      | some (keys_json, local_cache_key) ↦ auto_unlock lib w request keys_json local_cache_key s
    ]

-- An unlock that succeeded goes on to the prompt, one that failed to the denial.
unfoldable pub authorize_unlocked :
    User → PromptBehavior → SshAgentUiRequest → RuntimeEvent → VaultState × Option Text → Answer
authorize_unlocked user behavior request event (s, none) = answer s false
authorize_unlocked user behavior request event (s, some key_name) = record {
  state = s;
  response = run_authorization_prompt user behavior request key_name;
  event = some event;
}

unfoldable pub unlock_by_pin :
    SshKeyLib → World → User → PromptBehavior → SshAgentUiRequest → VaultState → Answer
unlock_by_pin lib w user behavior request s = elim (pin_cache s.local_key_cache_data) [
  | none ↦ answer s false
  | some cache ↦
      let (st, pin) = request_pin_dialog (opens w cache) w.entered s.pin_failures in
      authorize_unlocked user behavior request
        (elim pin [ none ↦ auto_unlocked_native | some p ↦ auto_unlocked_pin p ])
        (after_dialog lib w request cache pin (record s { pin_failures = st }))
]

-- Native first, then the dialog, with what the native attempt has set.
unfoldable pub or_pin :
    SshKeyLib
    → World
    → User
    → PromptBehavior
    → SshAgentUiRequest
    → VaultState × Option Text
    → Answer
or_pin lib w user behavior request (s, some key_name) =
    authorize_unlocked user behavior request auto_unlocked_native (s, some key_name)
or_pin lib w user behavior request (s, none) = unlock_by_pin lib w user behavior request s

-- The entry of the authorization memory for a request.
abbrev pub memory_key : SshAgentUiRequest → Option (Text × Text)
memory_key request = elim request.cipher_id [
  | none ↦ none
  | some cid ↦ some (cid, as_str request.operation_kind)
]

unfoldable pub remembers : List (Text × Text) → Text × Text → Bool
remembers memory (id, operation) = any (λ e. text_eq e.0 id && text_eq e.1 operation) memory

unfoldable pub is_remembered : PromptBehavior → SshAgentUiRequest → List (Text × Text) → Bool
is_remembered remember_until_lock request memory = elim (memory_key request) [
  | none ↦ false
  | some key ↦ not request.is_forwarding && remembers memory key
]
is_remembered _ request memory = false

-- An approval is remembered until the vault is locked, but never one for a forwarded agent.
unfoldable pub remember : PromptBehavior → SshAgentUiRequest → VaultState → VaultState
remember remember_until_lock request s = elim (memory_key request) [
  | none ↦ s
  | some key ↦
      if request.is_forwarding || remembers s.authorization_memory key
      then s
      else record s { authorization_memory = key ∷ s.authorization_memory }
]
remember _ request s = s

abbrev pub known_name : VaultState → SshAgentUiRequest → Text
known_name s request = elim request.cipher_id [
  | none ↦ unknown_key
  | some cid ↦ name_or_unknown (lookup cid s.key_names)
]

unfoldable pub sign_unlocked : User → PromptBehavior → SshAgentUiRequest → VaultState → Answer
sign_unlocked user behavior request s =
    if is_remembered behavior request s.authorization_memory || not (needs_prompt behavior request)
    then answer s true
    else if prompt_authorization_with_bind_flow user request (known_name s request)
    then answer (remember behavior request s) true
    else answer s false

unfoldable pub handle_ui_request :
    SshKeyLib → World → User → PromptBehavior → SshAgentUiRequest → VaultState → Answer
handle_ui_request lib w user behavior request s =
    if request.is_list
    then answer (record s { agent = clear_needs_unlock s.agent }) true
    else if s.vault_locked && w.auto_unlock
    then or_pin lib w user behavior request (try_native lib w request s)
    else if s.vault_locked
    then answer s false
    else sign_unlocked user behavior request s
