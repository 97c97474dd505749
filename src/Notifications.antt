-- ===== src/Notifications.antt =====
-- crates/sshwarden-api/src/notifications.rs: the reconnect loop of the notification hub's client, what it
-- reports, and the address it connects to. The socket is seen through what happens to it; times are
-- milliseconds given with each happening. The number of connects is a `u64`, the failures are `u32`s.
pub mod Throttle
pub mod Backoff
pub mod Address
pub mod Frames
pub mod Mirror
pub mod Health
pub mod Messages
mod Tests
use sshwarden.Base.{
  ℕ, ◌+◌, ◌-◌, ◌*◌, ◌^◌, min, Bool, true, false, List, [], ◌∷◌, ◌++◌, Option, none, some, ltb, leb,
  ◌==◌, if◌then◌else◌, Text, codes, text_eq, length, take, drop, trim_end_with,
}

pub record NotificationOptions : Type 0 where
  pub keepalive_interval : ℕ
  pub idle_timeout : ℕ
  pub reconnect_attempts_before_fallback : ℕ
  pub reconnect_max_backoff : ℕ
  pub fallback_sync_interval : ℕ

abbrev pub default_options : NotificationOptions
default_options = record {
  keepalive_interval = 30000;
  idle_timeout = 90000;
  reconnect_attempts_before_fallback = 3;
  reconnect_max_backoff = 60000;
  fallback_sync_interval = 300000;
}

pub data NotificationConnectionState : Type 0 where
  not_started connecting_now connected_now degraded_now stopped_now : NotificationConnectionState

pub record NotificationStatus : Type 0 where
  pub state : NotificationConnectionState
  pub consecutive_failures : ℕ
  pub total_failures : ℕ
  pub next_retry_in : Option ℕ
  pub last_error : Option Text
  pub connects : ℕ

abbrev pub default_status : NotificationStatus
default_status = record {
  state = not_started;
  consecutive_failures = 0;
  total_failures = 0;
  next_retry_in = none;
  last_error = none;
  connects = 0;
}

abbrev pub connected : ℕ → NotificationStatus
connected connects = record default_status { state = connected_now; connects = connects }

abbrev pub degraded : ℕ → ℕ → ℕ → ℕ → Text → NotificationStatus
degraded connects consecutive_failures total_failures next_retry_in last_error = record {
  state = degraded_now;
  consecutive_failures = consecutive_failures;
  total_failures = total_failures;
  next_retry_in = some next_retry_in;
  last_error = some last_error;
  connects = connects;
}

-- What the client sends to the daemon.
pub data Emission : Type 0 where
  connection_status : NotificationStatus → Emission
  fallback_sync_due : Emission

-- The variables of `run_message_loop`.
pub record LoopState : Type 0 where
  pub backoff : ℕ
  pub consecutive_failures : ℕ
  pub total_failures : ℕ
  pub connects : ℕ
  pub last_fallback_sent : Option ℕ

-- The loop starts with the connection that it is handed, or with none.
abbrev pub initial : Bool → LoopState
initial has_connection = record {
  backoff = 1000;
  consecutive_failures = 0;
  total_failures = 0;
  connects = if has_connection then 1 else 0;
  last_fallback_sent = none;
}

-- What happens to the socket: an attempt to connect fails or succeeds, or a connection is lost. Two
-- times: of the test whether a fallback sync is due, and of its being sent.
pub data Happening : Type 0 where
  fails lost : ℕ → ℕ → Text → Happening
  connects_now : Happening

unfoldable pub recovery_sync_due : ℕ → Option ℕ → ℕ → Bool
recovery_sync_due now last_sent interval =
    if interval == 0
    then false
    else elim last_sent [ none ↦ true | some instant ↦ leb interval (now - instant) ]

unfoldable pub emit_recovery_sync :
    NotificationOptions → ℕ → ℕ → Option ℕ → Option ℕ × List Emission
unfolding recovery_sync_due
emit_recovery_sync options now sent last_sent =
    if recovery_sync_due now last_sent options.fallback_sync_interval
    then (some sent, fallback_sync_due ∷ [])
    else (last_sent, [])

unfoldable pub maybe_emit_fallback_sync :
    NotificationOptions → ℕ → ℕ → ℕ → Option ℕ → Option ℕ × List Emission
maybe_emit_fallback_sync options consecutive_failures now sent last_sent =
    if ltb consecutive_failures options.reconnect_attempts_before_fallback
    then (last_sent, [])
    else emit_recovery_sync options now sent last_sent

unfoldable pub next_backoff : NotificationOptions → ℕ → ℕ
next_backoff options backoff = min (backoff * 2) options.reconnect_max_backoff

abbrev pub saturating_next : ℕ → ℕ → ℕ
saturating_next width n = min (n + 1) (2 ^ width - 1)

-- An attempt that failed: the failures are counted and reported, then the fallback is considered.
unfoldable pub on_failure :
    NotificationOptions → ℕ → ℕ → Text → LoopState → LoopState × List Emission
on_failure options now sent error s =
    let consecutive = saturating_next 32 s.consecutive_failures in
    let total = saturating_next 32 s.total_failures in
    let (last, due) = maybe_emit_fallback_sync options consecutive now sent s.last_fallback_sent in
    (
      record s {
        consecutive_failures = consecutive;
        total_failures = total;
        last_fallback_sent = last;
        backoff = next_backoff options s.backoff;
      },
      connection_status (degraded s.connects consecutive total s.backoff error) ∷ due,
    )

unfoldable pub on_connect : LoopState → LoopState × List Emission
on_connect s =
    let connects = saturating_next 64 s.connects in
    (
      record s { consecutive_failures = 0; backoff = 1000; connects = connects },
      connection_status (connected connects) ∷ [],
    )

-- A connection that was lost: the fallback comes before the report.
unfoldable pub on_loss : NotificationOptions → ℕ → ℕ → Text → LoopState → LoopState × List Emission
on_loss options now sent reason s =
    let (last, due) = emit_recovery_sync options now sent s.last_fallback_sent in
    (
      record s { last_fallback_sent = last; backoff = next_backoff options s.backoff },
      due
          ++ connection_status
              (degraded s.connects s.consecutive_failures s.total_failures s.backoff reason)
            ∷ [],
    )

unfoldable pub step : NotificationOptions → LoopState → Happening → LoopState × List Emission
step options s (fails now sent error) = on_failure options now sent error s
step options s (lost now sent reason) = on_loss options now sent reason s
step options s connects_now = on_connect s

-- What the loop sends for what happens.
unfoldable pub run : NotificationOptions → LoopState → List Happening → List Emission
run options s [] = []
run options s (h ∷ hs) =
    let (s', sent) = step options s h in let rest = run options s' hs in sent ++ rest

-- Everything that it sends; a connection that it is handed is reported first.
unfoldable pub run_message_loop : NotificationOptions → Bool → List Happening → List Emission
run_message_loop options has_connection hs =
    let rest = run options (initial has_connection) hs in
    if has_connection then connection_status (connected 1) ∷ rest else rest

unfoldable pub starts_with : Text → Text → Bool
starts_with prefix s = text_eq (take (length prefix) s) prefix

unfoldable pub ends_with : Text → Text → Bool
ends_with suffix s = text_eq (drop (length s - length suffix) s) suffix

-- `replacen(prefix, .., 1)` on a text that starts with the prefix.
unfoldable pub to_ws_scheme : Text → Text
to_ws_scheme url =
    if starts_with (codes "https://") url
    then codes "wss://" ++ drop 8 url
    else if starts_with (codes "http://") url
    then codes "ws://" ++ drop 7 url
    else if starts_with (codes "wss://") url
    then url
    else if starts_with (codes "ws://") url
    then url
    else codes "wss://" ++ url

unfoldable pub hub_of : Text → Text
hub_of ws_base =
    if ends_with (codes "/hub") ws_base
    then ws_base
    else if ends_with (codes "/anonymous-hub") ws_base
    then ws_base
    else ws_base ++ codes "/hub"

unfoldable pub build_ws_url : Text → Text → Text
build_ws_url notifications_url access_token =
    hub_of (to_ws_scheme (trim_end_with (λ c. c == b'/') notifications_url))
    ++ codes "?access_token="
    ++ access_token
