-- ===== src/Config.antt =====
-- crates/sshwarden-config/src/lib.rs: the configuration file's contents with their defaults, and the
-- addresses of the server.
pub mod Segments
mod Tests
pub mod Environment
pub mod Locations
pub mod Layout
pub mod Resolutions
pub mod Directories
pub mod Lookups
pub mod Replace
pub mod Endpoints
use sshwarden.Base.{
  ℕ, Bool, true, false, List, [], ◌∷◌, ◌++◌, Option, none, some, ◌*◌, ◌==◌, if◌then◌else◌, or_else,
  Text, codes, text_eq, trim_end_with, strip_prefix,
}

pub record ServerConfig : Type 0 where
  pub base_url : Text
  pub api_url : Option Text
  pub identity_url : Option Text
  pub notifications_url : Option Text

abbrev pub default_server : ServerConfig
default_server = record {
  base_url = codes "https://vault.bitwarden.com";
  api_url = none;
  identity_url = none;
  notifications_url = none;
}

-- `unwrap_or`.
abbrev pub unwrap_or {ℓ} : {A : Type ℓ} → A → Option A → A
unwrap_or default none = default
unwrap_or default (some a) = a

unfoldable pub api_url : ServerConfig → Text
api_url server = unwrap_or (server.base_url ++ codes "/api") server.api_url

unfoldable pub identity_url : ServerConfig → Text
identity_url server = unwrap_or (server.base_url ++ codes "/identity") server.identity_url

-- `trim_start_matches` with a text; each round takes one copy of it away, so that the length of the
-- text is enough fuel.
unfoldable pub trim_prefixes_from : Text → Text → Text → Text
trim_prefixes_from prefix [] s = s
trim_prefixes_from prefix (_ ∷ fuel) s = elim (strip_prefix prefix s) [
  | none ↦ s
  | some rest ↦ trim_prefixes_from prefix fuel rest
]

unfoldable pub trim_prefixes : Text → Text → Text
unfolding trim_prefixes_from
trim_prefixes prefix s = trim_prefixes_from prefix s s

-- What stands before the first `/`: the first piece of `split('/')`.
unfoldable pub before_slash : Text → Text
before_slash [] = []
before_slash (c ∷ s) = let rest = before_slash s in if c == b'/' then [] else c ∷ rest

unfoldable pub default_notifications_url : Text → Text
unfolding trim_prefixes before_slash
default_notifications_url base_url =
    let base = trim_end_with (λ c. c == b'/') base_url in
    let host =
      before_slash (trim_prefixes (codes "http://") (trim_prefixes (codes "https://") base)) in
    if text_eq host (codes "vault.bitwarden.com")
    then codes "https://notifications.bitwarden.com"
    else if text_eq host (codes "vault.bitwarden.eu")
    then codes "https://notifications.bitwarden.eu"
    else base ++ codes "/notifications"

unfoldable pub notifications_url : ServerConfig → Text
unfolding default_notifications_url
notifications_url server =
    unwrap_or (default_notifications_url server.base_url) server.notifications_url

pub record AuthConfig : Type 0 where
  pub method : Text
  pub email : Text

abbrev pub default_auth : AuthConfig
default_auth = record { method = codes "password"; email = [] }

pub data PromptBehavior : Type 0 where
  always never remember_until_lock : PromptBehavior

pub record AgentConfig : Type 0 where
  pub prompt_behavior : PromptBehavior
  pub sync_interval : ℕ
  pub lock_timeout : ℕ
  pub notification_keepalive_interval : ℕ
  pub notification_idle_timeout : ℕ
  pub notification_reconnect_attempts_before_fallback : ℕ
  pub notification_reconnect_max_backoff : ℕ

abbrev pub default_agent : AgentConfig
default_agent = record {
  prompt_behavior = always;
  sync_interval = 300;
  lock_timeout = 3600;
  notification_keepalive_interval = 30;
  notification_idle_timeout = 90;
  notification_reconnect_attempts_before_fallback = 3;
  notification_reconnect_max_backoff = 60;
}

pub data UnlockMethod : Type 0 where
  windows_hello pin password : UnlockMethod

pub data FallbackMethod : Type 0 where
  pin_fallback password_fallback : FallbackMethod

pub record UnlockConfig : Type 0 where
  pub method : UnlockMethod
  pub fallback : FallbackMethod
  pub auto_unlock_on_request : Bool

abbrev pub default_unlock : UnlockConfig
default_unlock = record {
  method = password;
  fallback = pin_fallback;
  auto_unlock_on_request = true;
}

pub record SocketConfig : Type 0 where
  pub path : Option Text

pub data SshConfigPathStyle : Type 0 where
  absolute home_relative : SshConfigPathStyle

pub record SshConfigConfig : Type 0 where
  pub managed_path : Option Text
  pub path_style : SshConfigPathStyle

pub record StorageConfig : Type 0 where
  pub portable : Bool
  pub portable_dir : Option Text
  pub multi_device : Bool
  pub device_id : Text
  pub local_dir : Option Text

pub record LoggingConfig : Type 0 where
  pub max_file_bytes : ℕ

abbrev pub default_log_max_file_bytes : ℕ
default_log_max_file_bytes = 5 * 1024 * 1024

pub record Config : Type 0 where
  pub server : ServerConfig
  pub auth : AuthConfig
  pub agent : AgentConfig
  pub unlock : UnlockConfig
  pub socket : SocketConfig
  pub ssh_config : SshConfigConfig
  pub storage : StorageConfig
  pub logging : LoggingConfig

-- `Config::default`; the derived default of the device's id is the empty text.
abbrev pub default_config : Config
default_config = record {
  server = default_server;
  auth = default_auth;
  agent = default_agent;
  unlock = default_unlock;
  socket = record { path = none };
  ssh_config = record { managed_path = none; path_style = absolute };
  storage = record {
    portable = false;
    portable_dir = none;
    multi_device = false;
    device_id = [];
    local_dir = none;
  };
  logging = record { max_file_bytes = default_log_max_file_bytes };
}
