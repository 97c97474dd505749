-- ===== src/Notifications/Health.antt =====
-- The connection that `status` shows is the one that the hub client has.
use sshwarden.Base.{Bool, true, false, List, [], ◌∷◌, Text, codes}
use sshwarden.Notifications.{
  NotificationConnectionState, connected_now, degraded_now, Happening, fails, lost, connects_now,
  starts_with,
}

-- The state after what happened last.
abbrev pub state_after : Happening → NotificationConnectionState
state_after (fails now sent error) = degraded_now
state_after (lost now sent reason) = degraded_now
state_after connects_now = connected_now

abbrev pub last_state : NotificationConnectionState → List Happening → NotificationConnectionState
last_state c [] = c
last_state c (h ∷ hs) = last_state (state_after h) hs

shows_connected : Text → Bool
shows_connected label = starts_with (codes "connected") label

-- Whether the hub is connected, after what has happened to the socket.
abbrev pub is_up : Bool → List Happening → Bool
is_up up [] = up
is_up up (connects_now ∷ hs) = is_up true hs
is_up up (fails now sent error ∷ hs) = is_up false hs
is_up up (lost now sent reason ∷ hs) = is_up false hs
