-- ===== src/ControlProtocol/Commands.antt =====
-- The texts of the commands, as src/main.rs, src/commands and src/status.rs send them.
use sshwarden.Base.{◌≡◌, refl, true, false, ◌++◌, some, Text, codes, text_eq, strip_prefix}
use sshwarden.Vault.Control.{
  ControlAction, locks, unlocks, unlocks_hello, unlocks_native, syncs, stops, binds_hosts,
  unlocks_pin, unlocks_password, sets_pin, status, forgets,
}
use sshwarden.ControlProtocol.{action_of}

unfoldable pub command_text : ControlAction → Text
command_text locks = codes "lock"
command_text unlocks = codes "unlock"
command_text unlocks_hello = codes "unlock-hello"
command_text unlocks_native = codes "unlock-native"
command_text syncs = codes "sync"
command_text stops = codes "stop"
command_text binds_hosts = codes "bind-hosts-dialog"
command_text (unlocks_pin pin) = codes "unlock-pin:" ++ pin
command_text (unlocks_password password) = codes "unlock-password:" ++ password
command_text (sets_pin pin) = codes "set-pin:" ++ pin
command_text (status true) = codes "status-json"
command_text (status false) = codes "status"
command_text (forgets true) = codes "forget-shared"
command_text (forgets false) = codes "forget"

-- The command of an action stands for that action, whatever the PIN or the password in it is.
pub action_of-command_text :
    (action : ControlAction) → action_of (command_text action) ≡ some action
unfolding action_of command_text strip_prefix text_eq
action_of-command_text locks = refl
action_of-command_text unlocks = refl
action_of-command_text unlocks_hello = refl
action_of-command_text unlocks_native = refl
action_of-command_text syncs = refl
action_of-command_text stops = refl
action_of-command_text binds_hosts = refl
action_of-command_text (unlocks_pin pin) = refl
action_of-command_text (unlocks_password password) = refl
action_of-command_text (sets_pin pin) = refl
action_of-command_text (status true) = refl
action_of-command_text (status false) = refl
action_of-command_text (forgets true) = refl
action_of-command_text (forgets false) = refl
