-- ===== src/ControlProtocol.antt =====
-- crates/sshwarden-agent/src/control.rs for platforms other than Windows: a connection to the control
-- socket, the line that is read from it, and the action that the line stands for. Texts are lists of
-- code points, with their widths in UTF-8. serde_json is a parameter, and the main loop is what it
-- answers.
pub mod Commands
pub mod Connections
mod Tests
use sshwarden.Base.{
  ℕ, ◌+◌, ◌-◌, ◌*◌, Bool, true, false, List, [], ◌∷◌, ◌++◌, Option, none, some, ltb, ◌==◌,
  if◌then◌else◌, Text, codes, text_eq, strip_prefix, trim,
}
use sshwarden.Vault.Control.{
  ControlAction, locks, unlocks, unlocks_hello, unlocks_native, syncs, stops, binds_hosts,
  unlocks_pin, unlocks_password, sets_pin, status, forgets,
}

-- The commands with a text behind a prefix.
unfoldable pub action_with_text : Text → Option ControlAction
unfolding strip_prefix
action_with_text cmd = elim (strip_prefix (codes "unlock-pin:") cmd) [
  | some pin ↦ some (unlocks_pin pin)
  | none ↦ elim (strip_prefix (codes "unlock-password:") cmd) [
    | some password ↦ some (unlocks_password password)
    | none ↦ elim (strip_prefix (codes "set-pin:") cmd) [
      | some pin ↦ some (sets_pin pin)
      | none ↦ none
    ]
  ]
]

abbrev known_commands : List (Text × ControlAction)
known_commands =
    (codes "lock", locks)
    ∷ (codes "unlock", unlocks)
    ∷ (codes "unlock-hello", unlocks_hello)
    ∷ (codes "unlock-native", unlocks_native)
    ∷ (codes "status", status false)
    ∷ (codes "status-json", status true)
    ∷ (codes "sync", syncs)
    ∷ (codes "forget", forgets false)
    ∷ (codes "forget-shared", forgets true)
    ∷ (codes "stop", stops)
    ∷ (codes "bind-hosts-dialog", binds_hosts)
    ∷ []

unfoldable pub find_action : List (Text × ControlAction) → Text → Option ControlAction
unfolding action_with_text text_eq
find_action [] cmd = action_with_text cmd
find_action ((name, action) ∷ rest) cmd =
    let other = find_action rest cmd in if text_eq cmd name then some action else other

-- The arms of `dispatch_control_command`; nothing for an unknown command.
unfoldable pub action_of : Text → Option ControlAction
unfolding find_action
action_of cmd = find_action known_commands cmd

-- `ControlResponse::ok`, `err` and `status`, with `with_details`.
pub record ControlResponse : Type 0 where
  pub success : Bool
  pub message : Option Text
  pub error : Option Text
  pub locked : Option Bool
  pub key_count : Option ℕ

abbrev pub ok_response : Text → ControlResponse
ok_response message = record {
  success = true;
  message = some message;
  error = none;
  locked = none;
  key_count = none;
}

abbrev pub err_response : Text → ControlResponse
err_response error = record {
  success = false;
  message = none;
  error = some error;
  locked = none;
  key_count = none;
}

abbrev pub status_response : Bool → ℕ → ControlResponse
status_response locked key_count = record {
  success = true;
  message = some (if locked then codes "Vault is locked" else codes "Vault is unlocked");
  error = none;
  locked = some locked;
  key_count = some key_count;
}

-- What comes of a line: an answer, and the action that went to the main loop.
pub record Handled : Type 0 where
  pub forwarded : Option ControlAction
  pub response : ControlResponse

-- Whether the main loop takes an action, and what it answers, if it does.
pub record MainLoop : Type 0 where
  pub is_open : Bool
  pub answer : ControlAction → Option ControlResponse

abbrev pub answered : MainLoop → ControlAction → ControlResponse
answered main action = elim (main.answer action) [
  | none ↦ err_response (codes "Internal error: no reply from agent")
  | some response ↦ response
]

unfoldable pub dispatch_control_command : MainLoop → Text → Handled
unfolding action_of
dispatch_control_command main cmd = elim (action_of cmd) [
  | none ↦ record { forwarded = none; response = err_response (codes "Unknown command: " ++ cmd) }
  | some action ↦
      if main.is_open
      then record { forwarded = some action; response = answered main action }
      else record { forwarded = none; response = err_response (codes "Agent is shutting down") }
]

-- `serde_json::from_str` and `to_string` of a `ControlCommand`; an error has a text.
pub record Json : Type 0 where
  pub read_command : Text → Option Text
  pub write_command : Text → Text
  pub read_error : Text → Text

unfoldable pub handle_control_line : Json → MainLoop → Text → Handled
unfolding dispatch_control_command
handle_control_line json main line = elim (json.read_command line) [
  | none ↦ record {
    forwarded = none;
    response = err_response (codes "Invalid command: " ++ json.read_error line);
  }
  | some cmd ↦ dispatch_control_command main cmd
]

-- The bytes of a character in UTF-8.
unfoldable pub width : ℕ → ℕ
width c = if ltb c 0x80 then 1 else if ltb c 0x800 then 2 else if ltb c 0x10000 then 3 else 4

abbrev pub max_control_line_bytes : ℕ
max_control_line_bytes = 64 * 1024

abbrev put : ℕ → Option Text → Option Text
put c o = elim o [ none ↦ none | some s ↦ some (c ∷ s) ]

-- `read_line` of at most so many bytes: up to the line feed, the end of what was sent, or the limit. A
-- character that the limit cuts is no UTF-8, and nothing is read.
unfoldable pub read_line : ℕ → Text → Option Text
unfolding width
read_line limit [] = some []
read_line limit (c ∷ s) =
    let rest = read_line (limit - width c) s in
    if ltb limit (width c)
    then (if limit == 0 then some [] else none)
    else if c == 10
    then some (10 ∷ [])
    else put c rest

-- A connection: the user id of the peer, if it can be read, and what it sends, if that is UTF-8.
pub record Connection : Type 0 where
  pub peer_uid : Option ℕ
  pub sent : Option Text

unfoldable pub serve_line : Json → MainLoop → Text → Option Handled
unfolding handle_control_line
serve_line json main [] = none
serve_line json main (c ∷ line) = some (handle_control_line json main (trim (c ∷ line)))

abbrev pub serve_text : Json → MainLoop → Text → Option Handled
serve_text json main text = elim (read_line max_control_line_bytes text) [
  | none ↦ none
  | some line ↦ serve_line json main line
]

-- One connection of the loop; nothing where it is closed with no answer.
unfoldable pub serve : Json → MainLoop → ℕ → Connection → Option Handled
unfolding read_line serve_line
serve json main our_uid connection = elim connection.peer_uid [
  | none ↦ none
  | some uid ↦
      if uid == our_uid
      then elim connection.sent [ none ↦ none | some text ↦ serve_text json main text ]
      else none
]

-- What the client writes: the command as JSON, and a line feed.
unfoldable pub send_control_command : Json → Text → Text
send_control_command json cmd = json.write_command cmd ++ 10 ∷ []
