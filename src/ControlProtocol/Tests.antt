-- ===== src/ControlProtocol/Tests.antt =====
-- Runs of the control protocol, with a small text form in the place of JSON.
use sshwarden.Base.{
  ℕ, zero, suc, ◌+◌, ◌*◌, ◌≤◌, ◌≡◌, refl, ap, true, [], ◌∷◌, ◌++◌, none, some, arith, Text, codes,
  OneLine, OneWord, is_whitespace, trim, trim_with, trim_start_with, trim_end_with, keep_end,
}
use sshwarden.Crypto.Example.{unary, encode, decode_from, decode_from-encode}
use sshwarden.Vault.Control.{ControlAction, unlocks_pin}
use sshwarden.ControlProtocol.{
  Json, MainLoop, Handled, Connection, ok_response, serve, send_control_command, answered, width,
}
use sshwarden.ControlProtocol.Commands.{command_text}
use sshwarden.ControlProtocol.Connections.{
  IsLawful, IsAllowed, bytes, serve-send_control_command, serve-IsAllowed,
}

abbrev small : Json
small = record { read_command = decode_from 0; write_command = encode; read_error = λ line. line }

unary-OneWord : (n : ℕ) (s : Text) → OneWord s → OneWord (unary n s)
unfolding is_whitespace
unary-OneWord zero s h = (refl, h)
unary-OneWord (suc n) s h = (refl, unary-OneWord n s h)

encode-OneWord : (cmd : Text) → OneWord (encode cmd)
encode-OneWord [] = tt
encode-OneWord (c ∷ cmd) = unary-OneWord c (encode cmd) (encode-OneWord cmd)

unary-OneLine : (n : ℕ) (s : Text) → OneLine s → OneLine (unary n s)
unary-OneLine zero s h = (refl, h)
unary-OneLine (suc n) s h = (refl, unary-OneLine n s h)

encode-OneLine : (cmd : Text) → OneLine (encode cmd)
encode-OneLine [] = tt
encode-OneLine (c ∷ cmd) = unary-OneLine c (encode cmd) (encode-OneLine cmd)

trim_end_with-line : (w : Text) → OneWord w → trim_end_with is_whitespace (w ++ 10 ∷ []) ≡ w
unfolding trim_end_with keep_end
trim_end_with-line [] h = unfold is_whitespace in refl
trim_end_with-line (c ∷ []) h = rw (trim_end_with-line [] tt, h.0) refl
trim_end_with-line (c ∷ d ∷ w) h = ap (keep_end is_whitespace c) (trim_end_with-line (d ∷ w) h.1)

trim-line : (w : Text) → OneWord w → trim (w ++ 10 ∷ []) ≡ w
unfolding trim trim_with trim_start_with
trim-line [] h = unfold trim_end_with is_whitespace in refl
trim-line (c ∷ w) h = rw h.0 (trim_end_with-line (c ∷ w) h)

small-IsLawful : IsLawful small
small-IsLawful = record {
  reads = decode_from-encode;
  one_line = encode-OneLine;
  trimmed = λ cmd. trim-line (encode cmd) (encode-OneWord cmd);
}

abbrev pin_action : ControlAction
pin_action = unlocks_pin (codes "12 é")

abbrev main : MainLoop
main = record { is_open = true; answer = λ action. some (ok_response (codes "Vault unlocked")) }

abbrev client : Connection
client = record {
  peer_uid = some 1000;
  sent = some (send_control_command small (command_text pin_action));
}

abbrev outcome : Handled
outcome = record { forwarded = some pin_action; response = answered main pin_action }

room : bytes (encode (command_text pin_action)) + 1 ≤ 64 * 1024
unfolding command_text bytes width
room = omega arith

serve-send_control_command_example : serve small main 1000 client ≡ some outcome
serve-send_control_command_example =
    serve-send_control_command small main 1000 pin_action client small-IsLawful refl refl refl room

serve-IsAllowed_example : IsAllowed small main 1000 client pin_action
serve-IsAllowed_example =
    serve-IsAllowed small main 1000 client outcome pin_action
      (serve-send_control_command small main 1000 pin_action client small-IsLawful refl refl refl
        room)
      refl

rejects_other_users : serve small main 1001 client ≡ none
unfolding serve
rejects_other_users = refl
