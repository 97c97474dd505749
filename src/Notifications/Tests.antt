-- ===== src/Notifications/Tests.antt =====
-- Concrete histories of the socket, and addresses, for crates/sshwarden-api/src/notifications.rs.
use sshwarden.Base.{
  ◌^◌, ◌-◌, none, ◌++◌, some, true, ◌+◌, ◌*◌, ◌≤◌, ◌≡◌, refl, List, [], ◌∷◌, arith, codes, text_eq,
  trim_end_with, keep_end,
}
use sshwarden.Notifications.{
  next_backoff, step, run, on_loss, maybe_emit_fallback_sync, emit_recovery_sync, on_failure,
  Happening, fails, lost, default_options, run_message_loop, build_ws_url, to_ws_scheme,
  starts_with, hub_of, ends_with,
}
use sshwarden.Notifications.Throttle.{fallbacks, fallbacks-run_message_loop}
use sshwarden.Notifications.Frames.{encode_size}
use sshwarden.Notifications.Mirror.{
  NotificationRuntimeState, default_runtime_state, begin_connect, note_all, humanize_age,
  health_label,
}
use sshwarden.Notifications.Messages.{
  Value, unsigned, text, array, map, other, nil, cons, end, entry, cipher_changed, panics, event_of,
  parse_signalr_message, parse_signalr_message-encode_size,
}

-- A connection that is made, lost, and not made again.
abbrev history : List Happening
history =
    lost 5000 5010 (codes "closed")
    ∷ fails 6000 6010 (codes "refused")
    ∷ fails 8000 8010 (codes "refused")
    ∷ fails 12000 12010 (codes "refused")
    ∷ fails 310000 310010 (codes "refused")
    ∷ []

fallbacks-run_message_loop_example :
    fallbacks (run_message_loop default_options true history) * 300000 + 0 ≤ 320000 + 300000
fallbacks-run_message_loop_example =
    fallbacks-run_message_loop default_options true history 0 320000 (ground arith)

hub_address :
    build_ws_url (codes "https://host/notifications/") (codes "t")
    ≡ codes "wss://host/notifications/hub?access_token=t"
unfolding build_ws_url to_ws_scheme starts_with hub_of ends_with text_eq trim_end_with keep_end
hub_address = refl

size_of_300 : encode_size 10 300 ≡ 172 ∷ 2 ∷ []
unfolding encode_size
size_of_300 = refl

abbrev cipher_updated : Value
cipher_updated = array (
    cons (unsigned 1) (
      cons other (
        cons other (
          cons (text (codes "ReceiveMessage"))
            (cons (array (cons (map (entry (text (codes "Type")) (unsigned 0) end)) nil)) nil)))))

reads_update : event_of cipher_updated ≡ some cipher_changed
unfolding event_of text_eq
reads_update = refl

parse_signalr_message-encode_size_example :
    parse_signalr_message (λ bytes. none) (encode_size 10 (2 ^ 64 - 1) ++ []) ≡ panics
unfolding encode_size
parse_signalr_message-encode_size_example =
    parse_signalr_message-encode_size (λ bytes. none) (2 ^ 64 - 1) [] (omega arith)

abbrev starting : NotificationRuntimeState
starting = begin_connect (codes "wss://hub") default_runtime_state

ages : humanize_age 11223 ≡ codes "3h07m"
unfolding humanize_age
ages = refl

shows_loss :
    health_label 60 true
      (note_all (λ n. n) (λ n. true) 0 (run_message_loop default_options true history) starting)
    ≡ codes "retrying (4 failed attempt(s), next attempt in 16s: refused)"
unfolding health_label note_all run_message_loop run step on_loss emit_recovery_sync on_failure
    maybe_emit_fallback_sync next_backoff
shows_loss = refl
