-- ===== src/ControlProtocol/Connections.antt =====
-- What a connection to the control socket brings about.
use mathlib.Core.Option.{some-injective}
use sshwarden.Base.{
  ℕ, ◌+◌, ◌-◌, ◌≤◌, ◌≡◌, refl, ap, ◌∙◌, inl, inr, true, false, [], ◌∷◌, ◌++◌, some, arith, ltb,
  ◌==◌, ==_iff, Bool-cases, Option-cases, Text, OneLine, trim,
}
use sshwarden.Vault.Control.{ControlAction}
use sshwarden.ControlProtocol.{
  Json, MainLoop, Handled, Connection, action_of, dispatch_control_command, handle_control_line,
  width, read_line, serve_line, serve_text, serve, send_control_command, answered,
  max_control_line_bytes,
}
use sshwarden.ControlProtocol.Commands.{command_text, action_of-command_text}

-- What serde_json promises of a command that is written: it is read back, and stands on one line with no
-- white space around it.
pub record IsLawful (json : Json) : Type 0 where
  pub reads : (cmd : Text) → json.read_command (json.write_command cmd) ≡ some cmd
  pub one_line : (cmd : Text) → OneLine (json.write_command cmd)
  pub trimmed : (cmd : Text) → trim (json.write_command cmd ++ 10 ∷ []) ≡ json.write_command cmd

unfoldable pub bytes : Text → ℕ
bytes [] = 0
bytes (c ∷ s) = width c + bytes s

read_line-line :
    (limit : ℕ) (s rest : Text)
    → OneLine s
    → bytes s + 1 ≤ limit
    → read_line limit (s ++ 10 ∷ rest) ≡ some (s ++ 10 ∷ [])
unfolding read_line bytes
read_line-line limit [] rest h k = ground arith
read_line-line limit (c ∷ s) rest h k =
    let fits : ltb limit (width c) ≡ false = ground arith in
    rw (fits, h.0, read_line-line (limit - width c) s rest h.1 (omega (arith, k))) refl

serve_line-filled :
    (json : Json) (main : MainLoop) (s : Text)
    → serve_line json main (s ++ 10 ∷ [])
      ≡ some (handle_control_line json main (trim (s ++ 10 ∷ [])))
unfolding serve_line
serve_line-filled json main [] = refl
serve_line-filled json main (c ∷ s) = refl

serve_text-line :
    (json : Json) (main : MainLoop) (s : Text)
    → OneLine s
    → bytes s + 1 ≤ max_control_line_bytes
    → serve_text json main (s ++ 10 ∷ []) ≡ serve_line json main (s ++ 10 ∷ [])
serve_text-line json main s h k =
    let e = read_line-line max_control_line_bytes s [] h k in rw (serve_text, e) refl

handle-command_text :
    (json : Json) (main : MainLoop) (action : ControlAction)
    → IsLawful json
    → main.is_open ≡ true
    → handle_control_line json main (json.write_command (command_text action))
      ≡ record { forwarded = some action; response = answered main action }
unfolding handle_control_line dispatch_control_command
handle-command_text json main action laws e =
    rw
      (
        handle_control_line,
        laws.reads (command_text action),
        dispatch_control_command,
        action_of-command_text action,
        e,
      )
      refl

-- A command that the user's client sends reaches the main loop as the action that it was made for, and
-- the answer is that of the main loop, whatever PIN or password it carries. The command as JSON, with its
-- line feed, has at most 64 KiB, and the main loop runs.
pub serve-send_control_command :
    (json : Json) (main : MainLoop) (uid : ℕ) (action : ControlAction) (connection : Connection)
    → IsLawful json
    → main.is_open ≡ true
    → connection.peer_uid ≡ some uid
    → connection.sent ≡ some (send_control_command json (command_text action))
    → bytes (json.write_command (command_text action)) + 1 ≤ max_control_line_bytes
    → serve json main uid connection
      ≡ some (record { forwarded = some action; response = answered main action })
unfolding serve send_control_command
serve-send_control_command json main uid action connection laws e f g k =
    let line = json.write_command (command_text action) in
    let same : (uid == uid) ≡ true = (==_iff uid uid).1 refl in
    rw (f, same, g)
      (serve_text-line json main line (laws.one_line (command_text action)) k
        ∙ serve_line-filled json main line
        ∙ ap (λ t. some (handle_control_line json main t)) (laws.trimmed (command_text action))
        ∙ ap some (handle-command_text json main action laws e))

-- What a connection needs for its action to reach the main loop.
pub record IsAllowed (json : Json) (main : MainLoop) (our_uid : ℕ) (connection : Connection)
    (action : ControlAction) : Type 0 where
  pub same_user : connection.peer_uid ≡ some our_uid
  pub runs : main.is_open ≡ true
  pub text : Text
  pub sends : connection.sent ≡ some text
  pub line : Text
  pub taken : read_line max_control_line_bytes text ≡ some line
  pub cmd : Text
  pub read : json.read_command (trim line) ≡ some cmd
  pub stands_for : action_of cmd ≡ some action

dispatch_forwarded :
    (main : MainLoop) (cmd : Text) (action : ControlAction)
    → (dispatch_control_command main cmd).forwarded ≡ some action
    → (main.is_open ≡ true) × (action_of cmd ≡ some action)
unfolding dispatch_control_command
dispatch_forwarded main cmd action e = elim (Option-cases (action_of cmd)) [
  | inl h ↦ absurd (ground (arith, e, h))
  | inr (a, h) ↦ elim (Bool-cases main.is_open) [
    | inl k ↦ (k, ground (arith, e, h, k))
    | inr k ↦ absurd (ground (arith, e, h, k))
  ]
]

module _ (json : Json) (main : MainLoop) (our_uid : ℕ) (connection : Connection)
    (action : ControlAction) (text line : Text) (same_user : connection.peer_uid ≡ some our_uid)
    (sends : connection.sent ≡ some text)
    (taken : read_line max_control_line_bytes text ≡ some line) where
  handled-IsAllowed :
      (handle_control_line json main (trim line)).forwarded ≡ some action
      → IsAllowed json main our_uid connection action
  unfolding handle_control_line
  handled-IsAllowed h = elim (Option-cases (json.read_command (trim line))) [
    | inl k ↦ absurd (ground (arith, h, k))
    | inr (cmd, k) ↦
        let d = dispatch_forwarded main cmd action (ground (arith, h, k)) in
        record {
          same_user = same_user;
          runs = d.0;
          text = text;
          sends = sends;
          line = line;
          taken = taken;
          cmd = cmd;
          read = k;
          stands_for = d.1;
        }
  ]

serve_line-handled :
    (json : Json) (main : MainLoop) (line : Text) (handled : Handled)
    → serve_line json main line ≡ some handled
    → handle_control_line json main (trim line) ≡ handled
unfolding serve_line
serve_line-handled json main [] handled g = absurd (ground (arith, g))
serve_line-handled json main (c ∷ line) handled g = some-injective _ _ g

-- An action reaches the main loop only from a process of the daemon's own user, while the main loop runs,
-- and only where serde_json reads a command that stands for that action in the first line that the
-- process sends, of at most 64 KiB.
pub serve-IsAllowed :
    (json : Json) (main : MainLoop) (our_uid : ℕ) (connection : Connection) (handled : Handled)
    (action : ControlAction)
    → serve json main our_uid connection ≡ some handled
    → handled.forwarded ≡ some action
    → IsAllowed json main our_uid connection action
unfolding serve
serve-IsAllowed json main our_uid connection handled action e h =
    elim (Option-cases connection.peer_uid) [
      | inl k ↦ absurd (ground (arith, e, k))
      | inr (uid, k) ↦ elim (Bool-cases (uid == our_uid)) [
        | inr l ↦ absurd (ground (arith, e, k, l))
        | inl l ↦ elim (Option-cases connection.sent) [
          | inl m ↦ absurd (ground (arith, e, k, l, m))
          | inr (text, m) ↦ elim (Option-cases (read_line max_control_line_bytes text)) [
            | inl n ↦ absurd (ground (arith, e, k, l, m, n))
            | inr (line, n) ↦
                let made =
                  serve_line-handled json main line handled (ground (arith, e, k, l, m, n)) in
                handled-IsAllowed json main our_uid connection action text line
                  (k ∙ ap some ((==_iff uid our_uid).0 l)) m n (ap (λ x. x.forwarded) made ∙ h)
          ]
        ]
      ]
    ]
