-- ===== src/Vault/PinUnlock.antt =====
-- The `unlock --pin` command of src/control.rs.
use sshwarden.Base.{◌≡◌, true, List, none, some, Text}
use sshwarden.Agent.{SshKeyLib, KeyTuple}
use sshwarden.PinLockout.{pin_lockout_remaining}
use sshwarden.Vault.{World, VaultState, LocalKeyCacheFile, SymmetricKey}
use sshwarden.Vault.Cache.{decrypt_envelope_local_key_cache_with_pin}
use sshwarden.Vault.Unlocking.{migrate}

-- What an unlock with a PIN needs.
pub record CanUnlock (w : World) (pin : Text) (s : VaultState) : Type 0 where
  pub free : (pin_lockout_remaining w.now s.pin_failures).1 ≡ none
  pub cache : LocalKeyCacheFile
  pub cached : s.local_key_cache_data ≡ some cache
  pub keys_json : Text
  pub key : SymmetricKey
  pub decrypts : decrypt_envelope_local_key_cache_with_pin w cache pin ≡ some (keys_json, key)
  pub keys : List KeyTuple
  pub readable : w.keys_from_json keys_json ≡ some keys
  pub running : s.agent.is_running ≡ true

module _ (lib : SshKeyLib) (w : World) where
  -- The state with the cache that the PIN opened and the key that was in it.
  abbrev opened_state : LocalKeyCacheFile → SymmetricKey → Text → VaultState → VaultState
  opened_state cache key pin s = record (migrate w cache key pin s) {
    local_cache_key_state = some key;
  }
