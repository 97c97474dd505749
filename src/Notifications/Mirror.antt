-- ===== src/Notifications/Mirror.antt =====
-- src/runtime.rs, the daemon's copy of the state of the hub client and the line that `status` shows of
-- it, with the turn of src/daemon.rs that takes over what the client sends. Times are seconds.
use sshwarden.Base.{
  ℕ, zero, suc, ◌+◌, ◌-◌, ◌/◌, ◌%◌, Bool, true, false, List, [], ◌∷◌, ◌++◌, Option, none, some, ltb,
  ◌==◌, if◌then◌else◌, Text, codes,
}
use sshwarden.Notifications.{
  NotificationConnectionState, not_started, connecting_now, connected_now, degraded_now,
  stopped_now, NotificationStatus, Emission, connection_status, fallback_sync_due, saturating_next,
}

pub record NotificationRuntimeState : Type 0 where
  pub state : NotificationConnectionState
  pub url : Option Text
  pub last_error : Option Text
  pub consecutive_failures : ℕ
  pub total_failures : ℕ
  pub next_retry_in_secs : Option ℕ
  pub connects : ℕ
  pub last_connected_at : Option ℕ
  pub last_event_at : Option ℕ
  pub last_fallback_sync_at : Option ℕ
  pub last_sync_at : Option ℕ
  pub stale_cache : Bool
  pub stale_cache_error : Option Text

abbrev pub default_runtime_state : NotificationRuntimeState
default_runtime_state = record {
  state = not_started;
  url = none;
  last_error = none;
  consecutive_failures = 0;
  total_failures = 0;
  next_retry_in_secs = none;
  connects = 0;
  last_connected_at = none;
  last_event_at = none;
  last_fallback_sync_at = none;
  last_sync_at = none;
  stale_cache = false;
  stale_cache_error = none;
}

unfoldable pub begin_connect : Text → NotificationRuntimeState → NotificationRuntimeState
begin_connect url s = record s {
  state = connecting_now;
  url = some url;
  last_error = none;
  next_retry_in_secs = none;
}

abbrev pub is_connected : NotificationConnectionState → Bool
is_connected c = elim c [ connected_now ↦ true | _ ↦ false ]

-- The delays of a status are milliseconds.
unfoldable pub apply_status :
    ℕ → NotificationStatus → NotificationRuntimeState → NotificationRuntimeState
apply_status now status s = record s {
  state = status.state;
  consecutive_failures = status.consecutive_failures;
  total_failures = status.total_failures;
  next_retry_in_secs = elim status.next_retry_in [ none ↦ none | some delay ↦ some (delay / 1000) ];
  last_error = status.last_error;
  connects = status.connects;
  last_connected_at = if is_connected status.state then some now else s.last_connected_at;
}

unfoldable pub mark_client_failed : Text → NotificationRuntimeState → NotificationRuntimeState
mark_client_failed error s = record s {
  state = degraded_now;
  last_error = some error;
  total_failures = saturating_next 32 s.total_failures;
  consecutive_failures = saturating_next 32 s.consecutive_failures;
  next_retry_in_secs = none;
}

unfoldable pub record_event : ℕ → NotificationRuntimeState → NotificationRuntimeState
record_event now s = record s { last_event_at = some now }

unfoldable pub record_fallback_sync : ℕ → NotificationRuntimeState → NotificationRuntimeState
record_fallback_sync now s = record s { last_event_at = some now; last_fallback_sync_at = some now }

unfoldable pub record_successful_sync : ℕ → NotificationRuntimeState → NotificationRuntimeState
record_successful_sync now s = record s { last_sync_at = some now }

unfoldable pub mark_cache_refreshed : NotificationRuntimeState → NotificationRuntimeState
mark_cache_refreshed s = record s { stale_cache = false; stale_cache_error = none }

unfoldable pub mark_cache_stale : Text → NotificationRuntimeState → NotificationRuntimeState
mark_cache_stale error s = record s { stale_cache = true; stale_cache_error = some error }

-- A number in decimal digits; twenty are enough for 64 bits.
unfoldable pub decimal_from : ℕ → ℕ → Text
decimal_from zero n = []
decimal_from (suc fuel) n =
    let rest = decimal_from fuel (n / 10) in
    if ltb n 10 then (n + b'0') ∷ [] else rest ++ (n % 10 + b'0') ∷ []

unfoldable pub decimal : ℕ → Text
unfolding decimal_from
decimal n = decimal_from 20 n

abbrev two_digits : ℕ → Text
two_digits n = (n / 10 + b'0') ∷ (n % 10 + b'0') ∷ []

unfoldable pub humanize_age : ℕ → Text
unfolding decimal
humanize_age secs =
    if ltb secs 60
    then decimal secs ++ codes "s"
    else if ltb secs 3600
    then decimal (secs / 60) ++ codes "m"
    else decimal (secs / 3600) ++ (codes "h" ++ (two_digits (secs % 3600 / 60) ++ codes "m"))

abbrev or_nothing : {A : Type 0} → Option A → (A → Text) → Text
or_nothing o shown = elim o [ none ↦ [] | some a ↦ shown a ]

unfoldable pub connected_label : ℕ → Option ℕ → Text
unfolding humanize_age
connected_label connects up_for =
    let uptime = or_nothing up_for (λ secs. codes ", up " ++ humanize_age secs) in
    if ltb 1 connects
    then codes "connected ("
      ++ (decimal (connects - 1) ++ (codes " reconnects" ++ (uptime ++ codes ")")))
    else codes "connected" ++ uptime

unfoldable pub degraded_label : ℕ → Option ℕ → Option Text → Text
unfolding decimal
degraded_label consecutive_failures next_retry last_error =
    let next =
      or_nothing next_retry (λ delay. codes ", next attempt in " ++ (decimal delay ++ codes "s")) in
    let error = or_nothing last_error (λ e. codes ": " ++ e) in
    if consecutive_failures == 0
    then codes "lost connection, retrying" ++ (next ++ error)
    else codes "retrying ("
      ++ (decimal consecutive_failures
          ++ (codes " failed attempt(s)" ++ (next ++ (error ++ codes ")"))))

-- `notification_health_label` at the name of a state, which `NotificationConnectionState` has.
unfoldable pub health_label : ℕ → Bool → NotificationRuntimeState → Text
unfolding connected_label degraded_label
health_label now authenticated s = elim s.state [
  | not_started ↦
      if authenticated then codes "off (not started)" else codes "off (no Bitwarden session)"
  | connecting_now ↦ codes "connecting…"
  | connected_now ↦
      connected_label s.connects
        (elim s.last_connected_at [ none ↦ none | some at ↦ some (now - at) ])
  | degraded_now ↦ degraded_label s.consecutive_failures s.next_retry_in_secs s.last_error
  | stopped_now ↦ codes "stopped"
]

-- What the daemon notes of one thing that the client sends; a fallback sync is noted where it succeeds.
-- What the sync itself notes is in Vault/Sync.
unfoldable pub note_emission :
    ℕ → Bool → Emission → NotificationRuntimeState → NotificationRuntimeState
unfolding apply_status record_fallback_sync
note_emission now synced (connection_status status) s = apply_status now status s
note_emission now synced fallback_sync_due s = if synced then record_fallback_sync now s else s

-- Everything that it sends, each at a time of the clock.
module _ (clock : ℕ → ℕ) (synced : ℕ → Bool) where
  unfoldable pub note_all : ℕ → List Emission → NotificationRuntimeState → NotificationRuntimeState
  unfolding note_emission
  note_all n [] s = s
  note_all n (e ∷ es) s = note_all (n + 1) es (note_emission (clock n) (synced n) e s)
