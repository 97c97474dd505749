-- ===== src/Vault.antt =====
-- The daemon's shared state (src/runtime.rs, src/daemon.rs) and what it meets outside: the values
-- behind the locks of the source are the fields of one record, and each command, event or request runs
-- to its end before the next. The server, the file system, the platform's secret store, the dialogs
-- and the cryptographic primitives answer through a `World`, a new one for each step. The model is of
-- the builds for Linux and macOS: the branches for Windows Hello are left out.
pub mod Cache
pub mod RoundTrip
pub mod Primitives
pub mod Approvals
pub mod Secrets
pub mod PinUnlock
mod Tests
pub mod Sync
pub mod Unlock
pub mod Unlocking
pub mod Control
pub mod Signing
pub mod Daemon
pub mod Locked
use sshwarden.Base.{ℕ, Bool, List, Option, none, Text, Map, Result}
use sshwarden.Agent.{SshWardenAgent, KeyTuple}
use sshwarden.PinLockout.{PinFailureState, Attempt}

-- `sshwarden_api::crypto::SymmetricKey`, as its bytes.
abbrev pub SymmetricKey : Type 0
SymmetricKey = Text

pub record KeyIdentity : Type 0 where
  pub name : Text
  pub vault_item_id : Text
  pub public_key_openssh : Text

pub record LocalKeyCacheHeader : Type 0 where
  pub email : Text
  pub server_url : Text
  pub keys : List KeyIdentity

pub record LocalCacheKeySlots : Type 0 where
  pub pin_encrypted : Option Text
  pub pin_salt : Option Text
  pub hello_challenge : Option Text
  pub hello_encrypted : Option Text
  pub native_encrypted : Option Text

pub record LocalKeyCacheFile : Type 0 where
  pub version : ℕ
  pub header : LocalKeyCacheHeader
  pub encrypted_payload : Text
  pub local_cache_key : LocalCacheKeySlots

-- A client of the server: what the daemon asks of it.
pub record BitwardenClient : Type 0 where
  pub id : Text
  pub has_user_key : Bool

-- Why a request failed; the texts of the source are told apart by name.
pub data Failure : Type 0 where
  not_authenticated no_user_key reload_failed unreadable_keys native_failed no_cache : Failure
  hello_unsupported invalid_pin no_pin_configured pin_cache_empty unlock_cancelled : Failure
  auto_unlock_disabled lock_failed no_email load_failed pin_too_short no_keys_loaded : Failure
  save_failed key_not_recovered sync_cancelled dialog_failed : Failure
  sync_failed login_failed sync_failed_after_login : Text → Failure
  too_many_attempts : ℕ → Failure
  not_deleted : List Text → Failure

-- What a request that succeeded says.
pub data Notice : Type 0 where
  stopping already_locked locked already_unlocked unlocked forgot_shared forgot_device : Notice
  pin_set bindings_updated dialog_closed status_report : Notice
  synced synced_to_cache keys_loaded session_refreshed : ℕ → Notice

-- `ControlResponse`: its `ok` flag and its text.
abbrev pub ControlResponse : Type 0
ControlResponse = Result Failure Notice

-- The replies of everything outside the daemon's memory.
pub record World : Type 0 where
  -- the crates behind sshwarden_api::crypto, base64, serde_json, sha2 and ssh_key
  pub decode_base64 : Text → Option Text
  pub encode_base64 : Text → Text
  pub pin_decrypt_with_salt : Text → Text → Text → Option Text
  pub pin_encrypt_with_salt : Text → Text → Text → Option Text
  pub legacy_pin_salt : Text
  pub random_pin_salt : Text
  pub random_symmetric_key : SymmetricKey
  pub decode_symmetric_key : Text → Option SymmetricKey
  pub encode_symmetric_key : SymmetricKey → Text
  pub decrypt_enc_string : Text → SymmetricKey → Option Text
  pub encrypt_enc_string : Text → SymmetricKey → Option Text
  pub keys_from_json : Text → Option (List KeyTuple)
  pub keys_to_json : List KeyTuple → Text
  pub fingerprint : Text → Text
  pub public_key_openssh_from_pem : Text → Text
  -- the configuration
  pub multi_device : Bool
  pub auto_unlock : Bool
  pub email : Text
  pub server_url : Text
  -- the platform's secret store and the device's slots file
  pub device_native_slot : Option Text
  pub native_decrypt : Text → Option Text
  pub native_encrypt : Text → Option Text
  -- the cache file: what it holds, and whether it can be written
  pub loaded_cache : Result Text (Option LocalKeyCacheFile)
  pub can_save : Bool
  -- which files could not be deleted
  pub delete_failures : Bool → List Text
  -- the server
  pub login_password : Text → Text → Result Text BitwardenClient
  pub sync_ssh_keys : BitwardenClient → Result Text (List KeyTuple)
  pub pending_ssh_keys : BitwardenClient → Result Text (List KeyTuple)
  pub restored_client : Option BitwardenClient
  -- the clock, and the PINs entered into the dialog before it is closed
  pub now : ℕ
  pub recorded : ℕ
  pub entered : List Attempt
  -- the dialog for host bindings
  pub bind_dialog : Result Failure Bool

pub record VaultState : Type 0 where
  pub agent : SshWardenAgent
  pub vault_locked : Bool
  pub cached_key_tuples : List KeyTuple
  pub public_key_identity_tuples : List KeyTuple
  pub api_client : Option BitwardenClient
  pub local_key_cache_data : Option LocalKeyCacheFile
  pub local_cache_key_state : Option SymmetricKey
  pub key_material_fingerprints : Map Text
  pub key_names : Map Text
  pub pending_sync : Bool
  pub stale_cache : Bool
  pub last_sync_at : Option ℕ
  pub authorization_memory : List (Text × Text)
  pub pin_failures : PinFailureState
