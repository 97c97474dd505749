-- ===== src/Vault/Tests.antt =====
-- A concrete world and vault for the daemon's operations. The cryptography of this world leaves its
-- input as it is, so that each run can be followed.
use sshwarden.Base.{
  ◌≡◌, refl, sym, inr, true, false, List, [], ◌∷◌, none, some, Text, codes, ok, any, text_eq,
}
use sshwarden.RequestParser.{ssh_authentication, as_str}
use sshwarden.Agent.{
  SshKeyLib, SshAgentUiRequest, SshWardenAgent, KeyTuple, signable_key_count, set_keys, load_keys,
  load_key, parse_key_safe, lock,
}
use sshwarden.PinLockout.{no_failures, pin_lockout_remaining, record_pin_attempt}
use sshwarden.Vault.Unlock.{load_decrypted, finish_unlock_with_json, try_restore_api_session}
use sshwarden.Vault.{
  World, VaultState, BitwardenClient, LocalKeyCacheFile, LocalCacheKeySlots, synced_to_cache,
}
use sshwarden.Vault.Cache.{
  write_envelope_local_key_cache_with_key, migrate_pin_salt_to_v3,
  decrypt_envelope_local_key_cache_with_pin, needs_pin_salt_migration, key_identities_from_tuples,
  build_envelope_local_key_cache, encrypt_local_cache_key_with_pin,
  enroll_native_for_local_key_cache, decrypt_envelope_payload, open_with, pin_salt_of,
  reload_shared_local_cache_from_disk_if_multi_device,
}
use sshwarden.Crypto.Example.{example, example_laws, is_utf8-encode}
use sshwarden.Vault.Primitives.{with_crypto, with_crypto-IsLawful}
use sshwarden.Vault.RoundTrip.{IsLawful, write-decrypt}
use sshwarden.Vault.Sync.{
  reconcile_synced_key_state, lock_vault, refresh_cache, reload_agent, apply_sync, do_sync,
  resolve_pending_sync,
}
use sshwarden.Vault.Unlocking.{
  handle_unlock_pin, and_then_restore, migrate, unlock_with_pin, record_outcome,
}
use sshwarden.Vault.Control.{
  locks, unlocks_pin, syncs, handle_lock, handle_sync, handle_forget, report_sync, dispatch,
  reloads, handle_control_command,
}
use sshwarden.Vault.Signing.{
  User, AuthorizationResult, never, remember_until_lock, prompt_authorization_with_bind_flow,
  handle_ui_request, needs_prompt, remembers, is_remembered, remember, sign_unlocked,
}
use sshwarden.Vault.Daemon.{Turn, commands, requests, run, step}
use sshwarden.Vault.Locked.Histories.{run-locked_signable}
use sshwarden.Vault.Approvals.{handle_ui_request-forwarding}
use sshwarden.Vault.Secrets.{handle_sync_locked, IsForgotten, handle_forget_lem}

abbrev lib : SshKeyLib
lib = record {
  from_openssh = λ pem. some pem;
  public_key_bytes = λ key. some key;
  public_from_openssh = λ line. some line;
}

abbrev keys : List KeyTuple
keys = (codes "pem1", codes "work", codes "id1") ∷ []

abbrev client : BitwardenClient
client = record { id = codes "session"; has_user_key = true }

abbrev some_key : Text
some_key = codes "0123456789abcdef0123456789abcdef0123456789abcdef0123456789abcdef"

abbrev random_key : Text
random_key = codes "f0e1d2c3b4a59687f0e1d2c3b4a59687f0e1d2c3b4a59687f0e1d2c3b4a59687"

abbrev world : World
world = record {
  decode_base64 = λ t. some t;
  encode_base64 = λ t. t;
  pin_decrypt_with_salt = λ encrypted pin salt. some encrypted;
  pin_encrypt_with_salt = λ plain pin salt. some plain;
  legacy_pin_salt = [];
  random_pin_salt = codes "salt";
  random_symmetric_key = random_key;
  decode_symmetric_key = λ t. some t;
  encode_symmetric_key = λ k. k;
  decrypt_enc_string = λ t key. some t;
  encrypt_enc_string = λ t key. some t;
  keys_from_json = λ t. some keys;
  keys_to_json = λ ks. codes "json";
  fingerprint = λ pem. pem;
  public_key_openssh_from_pem = λ pem. pem;
  multi_device = false;
  auto_unlock = true;
  email = codes "a@b";
  server_url = codes "https://vault";
  device_native_slot = none;
  native_decrypt = λ slot. none;
  native_encrypt = λ t. none;
  loaded_cache = ok none;
  can_save = true;
  delete_failures = λ shared. [];
  login_password = λ email password. ok client;
  sync_ssh_keys = λ c. ok keys;
  pending_ssh_keys = λ c. ok keys;
  restored_client = none;
  now = 100;
  recorded = 120;
  entered = [];
  bind_dialog = ok true;
}

abbrev slots : LocalCacheKeySlots
slots = record {
  pin_encrypted = some some_key;
  pin_salt = none;
  hello_challenge = none;
  hello_encrypted = none;
  native_encrypted = none;
}

abbrev old_cache : LocalKeyCacheFile
old_cache = record {
  version = 2;
  header = record { email = codes "a@b"; server_url = codes "https://vault"; keys = [] };
  encrypted_payload = codes "json";
  local_cache_key = slots;
}

abbrev fresh_agent : SshWardenAgent
fresh_agent = record {
  keystore = [];
  cancelled = false;
  next_request_id = 0;
  needs_unlock = true;
  is_running = true;
}

abbrev closed_vault : VaultState
closed_vault = record {
  agent = fresh_agent;
  vault_locked = true;
  cached_key_tuples = [];
  public_key_identity_tuples = [];
  api_client = some client;
  local_key_cache_data = some old_cache;
  local_cache_key_state = none;
  key_material_fingerprints = (codes "id1", codes "pem0") ∷ [];
  key_names = [];
  pending_sync = false;
  stale_cache = false;
  last_sync_at = none;
  authorization_memory = (codes "id1", codes "git_signing") ∷ [];
  pin_failures = no_failures;
}

abbrev open_vault : VaultState
open_vault = record closed_vault { vault_locked = false; cached_key_tuples = keys }

abbrev sign : SshAgentUiRequest
sign = record {
  request_id = 3;
  cipher_id = some (codes "id1");
  process_name = codes "ssh";
  pid = 9;
  is_list = false;
  namespace = none;
  operation_kind = ssh_authentication;
  is_forwarding = false;
}

abbrev forwarded_sign : SshAgentUiRequest
forwarded_sign = record sign { is_forwarding = true }

abbrev willing : User
willing = record {
  request_authorization = λ request name. AuthorizationResult.approved;
  run_bind_hosts_flow = λ pid cid. false;
}

abbrev unwilling : User
unwilling = record {
  request_authorization = λ request name. AuthorizationResult.denied;
  run_bind_hosts_flow = λ pid cid. false;
}

abbrev turns : List Turn
turns =
    commands world (unlocks_pin (codes "1234"))
    ∷ requests world willing remember_until_lock sign
    ∷ commands world locks
    ∷ commands world syncs
    ∷ []

abbrev lawful : IsLawful world
lawful = record {
  base64 = λ t. refl;
  symmetric_key = λ k size. refl;
  pin = λ k pin salt encrypted e. sym e;
  payload = λ plain k encrypted e. sym e;
}

run-locked_signable_example : signable_key_count (run lib closed_vault turns).agent ≡ 0
unfolding run step handle_control_command reloads
    reload_shared_local_cache_from_disk_if_multi_device dispatch handle_unlock_pin
    pin_lockout_remaining record_pin_attempt unlock_with_pin
    decrypt_envelope_local_key_cache_with_pin pin_salt_of open_with decrypt_envelope_payload migrate
    needs_pin_salt_migration migrate_pin_salt_to_v3 encrypt_local_cache_key_with_pin
    finish_unlock_with_json load_decrypted set_keys load_keys load_key parse_key_safe
    and_then_restore try_restore_api_session resolve_pending_sync record_outcome handle_ui_request
    sign_unlocked is_remembered remembers any text_eq as_str needs_prompt remember
    prompt_authorization_with_bind_flow handle_lock lock_vault lock handle_sync do_sync apply_sync
    reload_agent reconcile_synced_key_state refresh_cache report_sync
run-locked_signable_example = run-locked_signable lib closed_vault turns (inr tt) refl

handle_ui_request-forwarding_example :
    (name : Text) × (prompt_authorization_with_bind_flow willing forwarded_sign name ≡ true)
unfolding handle_ui_request sign_unlocked is_remembered remembers any text_eq as_str needs_prompt
    remember prompt_authorization_with_bind_flow
handle_ui_request-forwarding_example =
    handle_ui_request-forwarding lib world forwarded_sign willing never open_vault refl refl refl

handle_sync_locked_example :
    ((handle_sync lib world closed_vault).0.cached_key_tuples ≡ keys)
    × ((handle_sync lib world closed_vault).0.vault_locked ≡ true)
    × ((handle_sync lib world closed_vault).1 ≡ ok (synced_to_cache 1))
handle_sync_locked_example =
    handle_sync_locked lib world closed_vault client keys refl refl refl refl

abbrev new_cache : LocalKeyCacheFile
new_cache = record {
  version = 3;
  header = record {
    email = codes "a@b";
    server_url = codes "https://vault";
    keys =
        record {
          name = codes "work";
          vault_item_id = codes "id1";
          public_key_openssh = codes "pem1";
        }
        ∷ [];
  };
  encrypted_payload = codes "json";
  local_cache_key = record slots {
    pin_encrypted = some random_key;
    pin_salt = some (codes "salt");
  };
}

handle_forget_lem_example : IsForgotten (handle_forget lib world true open_vault).0
handle_forget_lem_example = handle_forget_lem lib world true open_vault

write-decrypt_example :
    decrypt_envelope_local_key_cache_with_pin world new_cache (codes "9876")
    ≡ some (codes "json", random_key)
unfolding write_envelope_local_key_cache_with_key encrypt_local_cache_key_with_pin
    build_envelope_local_key_cache key_identities_from_tuples enroll_native_for_local_key_cache
write-decrypt_example =
    write-decrypt world lawful keys (codes "9876") random_key random_key new_cache refl refl

abbrev refreshed_cache : LocalKeyCacheFile
refreshed_cache = record new_cache { local_cache_key = slots }

abbrev migrated_cache : LocalKeyCacheFile
migrated_cache = record old_cache {
  version = 3;
  local_cache_key = record slots { pin_encrypted = some some_key; pin_salt = some (codes "salt") };
}

with_crypto-IsLawful_example :
    IsLawful (with_crypto example (codes "iv") (codes "salt") random_key world)
with_crypto-IsLawful_example =
    with_crypto-IsLawful example (codes "iv") (codes "salt") random_key world example_laws
      is_utf8-encode
