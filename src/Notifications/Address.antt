-- ===== src/Notifications/Address.antt =====
-- The address of the hub.
use sshwarden.Base.{
  ◌≡◌, refl, inl, inr, true, ◌||◌, [], ◌∷◌, ◌++◌, arith, Text, codes, text_eq, drop, trim_end_with,
  ◌==◌, Bool-cases,
}
use sshwarden.Notifications.{starts_with, to_ws_scheme, hub_of, build_ws_url}

-- A text that begins with one of the two schemes for web sockets.
abbrev pub IsWebSocket : Text → Type 0
IsWebSocket url = (starts_with (codes "wss://") url || starts_with (codes "ws://") url) ≡ true

starts_with-append :
    (prefix x y : Text) → starts_with prefix x ≡ true → starts_with prefix (x ++ y) ≡ true
unfolding starts_with text_eq
starts_with-append [] x y h = refl
starts_with-append (c ∷ prefix) [] y h = cc
starts_with-append (c ∷ prefix) (d ∷ x) y h = ground (arith, starts_with-append prefix x y)

append-IsWebSocket : (x y : Text) → IsWebSocket x → IsWebSocket (x ++ y)
append-IsWebSocket x y h =
    ground (arith, starts_with-append (codes "wss://") x y, starts_with-append (codes "ws://") x y)

wss : (rest : Text) → IsWebSocket (codes "wss://" ++ rest)
unfolding starts_with text_eq
wss rest = refl

ws : (rest : Text) → IsWebSocket (codes "ws://" ++ rest)
unfolding starts_with text_eq
ws rest = refl

to_ws_scheme-IsWebSocket : (url : Text) → IsWebSocket (to_ws_scheme url)
unfolding to_ws_scheme
to_ws_scheme-IsWebSocket url = elim (Bool-cases (starts_with (codes "https://") url)) [
  | inl secure ↦ rw (to_ws_scheme, secure) (wss (drop 8 url))
  | inr not_https ↦ elim (Bool-cases (starts_with (codes "http://") url)) [
    | inl plain ↦ rw (to_ws_scheme, not_https, plain) (ws (drop 7 url))
    | inr not_http ↦ elim (Bool-cases (starts_with (codes "wss://") url)) [
      | inl given ↦ rw (to_ws_scheme, not_https, not_http, given) (ground (arith, given))
      | inr not_wss ↦ elim (Bool-cases (starts_with (codes "ws://") url)) [
        | inl given ↦ rw (to_ws_scheme, not_https, not_http, not_wss, given) (ground (arith, given))
        | inr bare ↦ rw (to_ws_scheme, not_https, not_http, not_wss, bare) (wss url)
      ]
    ]
  ]
]

hub_of-IsWebSocket : (base : Text) → IsWebSocket base → IsWebSocket (hub_of base)
unfolding hub_of
hub_of-IsWebSocket base h = ground (arith, append-IsWebSocket base (codes "/hub") h)

-- Whatever address is configured, the client connects to one with a scheme for web sockets.
pub build_ws_url-IsWebSocket :
    (notifications_url access_token : Text)
    → IsWebSocket (build_ws_url notifications_url access_token)
unfolding build_ws_url
build_ws_url-IsWebSocket notifications_url access_token =
    let scheme = to_ws_scheme (trim_end_with (λ c. c == b'/') notifications_url) in
    append-IsWebSocket (hub_of scheme ++ codes "?access_token=") access_token (
      append-IsWebSocket (hub_of scheme) (codes "?access_token=")
        (hub_of-IsWebSocket scheme (to_ws_scheme-IsWebSocket _)))
