-- ===== src/Client/Tokens.antt =====
-- The tokens of the client over a history of refreshes.
use sshwarden.Base.{ℕ, ◌+◌, ◌<◌, ◌≡◌, ◌↔◌, true, List, [], ◌∷◌, some, arith, Text, ok, is_some}
use sshwarden.Client.{
  BitwardenClient, Server, TokenResponse, refresh_access_token, is_token_expiring_soon,
}

-- Refreshes at their times, each with what the server answers then.
unfoldable pub refresh_all : List (Server × ℕ) → BitwardenClient → BitwardenClient
unfolding refresh_access_token
refresh_all [] client = client
refresh_all ((server, now) ∷ rest) client =
    refresh_all rest (refresh_access_token server now client).0

-- What a refresh leaves alone, and the token that it needs the next time.
pub record StaysUsable (before after : BitwardenClient) : Type 0 where
  pub refreshable : is_some after.refresh_token ≡ true
  pub same_key : after.user_key ≡ before.user_key
  pub same_device : after.device_id ≡ before.device_id
  pub same_server : after.identity_url ≡ before.identity_url
  pub authenticated : is_some before.access_token ≡ true → is_some after.access_token ≡ true

-- After a refresh that succeeded, the token counts as expiring at a later time exactly when less than
-- five minutes are left of what the server has granted.
pub refresh_expiring :
    (server : Server) (now later : ℕ) (client : BitwardenClient) (token : Text)
    (reply : TokenResponse)
    → client.refresh_token ≡ some token
    → server.refreshed_token client.identity_url token ≡ ok reply
    → (is_token_expiring_soon later (refresh_access_token server now client).0 ≡ true)
      ↔ (now + reply.expires_in < later + 300)
unfolding refresh_access_token is_token_expiring_soon
refresh_expiring server now later client token reply e f =
    (λ a. ground (arith, e, f, a), λ a. ground (arith, e, f, a))
