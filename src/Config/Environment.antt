-- ===== src/Config/Environment.antt =====
-- crates/sshwarden-config/src/lib.rs: what the locations of the files depend on. The process
-- environment, the programs it can run and the configuration files on the disk are the record `Env`,
-- which another process may change between two calls; the process-wide `OnceLock`s are the record
-- `Resolved`.
use sshwarden.Base.{
  ℕ, Bool, false, ◌||◌, [], ◌∷◌, Option, none, some, if◌then◌else◌, or_else, Text, codes, text_eq,
  trim, Result, ok, err, path_join,
}
use sshwarden.Config.{Config, unwrap_or}

pub data ConfigError : Type 0 where
  unreadable_config unparsed_config no_executable no_home no_config_home : ConfigError
  invalid_device_id empty_path unsupported_tilde empty_managed_path : ConfigError

-- What is at the path of a configuration file, once `toml` has read it.
pub data ConfigFile : Type 0 where
  absent unreadable unparsed : ConfigFile
  parsed : Config → ConfigFile

pub record Env : Type 0 where
  -- an environment variable, whose value is Unicode
  pub var : Text → Option Text
  -- `current_exe` and the directory it is in
  pub exe_dir : Option Text
  pub config_at : Text → ConfigFile
  -- what the program `hostname` prints
  pub hostname : Option Text
  -- `char::to_lowercase`
  pub lowercase : ℕ → Text
  -- `str::parse::<u64>`
  pub parse_u64 : Text → Option ℕ

pub record Resolved : Type 0 where
  pub shared_dir : Option Text
  pub device_dir : Option Text
  pub local_dir : Option Text
  pub multi_device : Option Bool
  pub device_id : Option Text

abbrev pub unresolved : Resolved
unresolved = record {
  shared_dir = none;
  device_dir = none;
  local_dir = none;
  multi_device = none;
  device_id = none;
}

-- A computation that may fail and may fill the caches on its way.
abbrev pub Resolving : Type 0 → Type 0
Resolving A = Resolved → Result ConfigError A × Resolved

module _ {A B : Type 0} where
  infixl 5 ◌>>=◌
  abbrev pub and_then :
      Result ConfigError A × Resolved → (A → Resolving B) → Result ConfigError B × Resolved
  and_then (err e, s) next = (err e, s)
  and_then (ok a, s) next = next a s

  abbrev pub ◌>>=◌ : Resolving A → (A → Resolving B) → Resolving B
  (m >>= next) s = and_then (m s) next

abbrev pub pure : {A : Type 0} → A → Resolving A
pure a s = (ok a, s)

-- A result that does not look at the caches.
abbrev pub lift : {A : Type 0} → Result ConfigError A → Resolving A
lift r s = (r, s)

abbrev pub ok_or : {A : Type 0} → ConfigError → Option A → Result ConfigError A
ok_or e none = err e
ok_or e (some a) = ok a

-- `filter(|value| !value.is_empty())`.
abbrev pub filled : Option Text → Option Text
filled none = none
filled (some []) = none
filled (some (c ∷ s)) = some (c ∷ s)

abbrev pub trimmed : Option Text → Option Text
trimmed none = none
trimmed (some s) = filled (some (trim s))

module _ (env : Env) where
  unfoldable pub env_path : Text → Option Text
  env_path name = filled (env.var name)

  unfoldable pub env_bool : Text → Bool
  env_bool name = elim (env.var name) [
    | none ↦ false
    | some value ↦
        text_eq value (codes "1")
        || text_eq value (codes "true")
        || text_eq value (codes "TRUE")
        || text_eq value (codes "yes")
        || text_eq value (codes "YES")
  ]

  unfoldable pub executable_dir : Result ConfigError Text
  executable_dir = ok_or no_executable env.exe_dir

  unfoldable pub home_dir : Result ConfigError Text
  home_dir = ok_or no_home (env.var (codes "HOME"))

  unfoldable pub home_dir_any : Result ConfigError Text
  home_dir_any = ok_or no_home (or_else (env.var (codes "HOME")) (env.var (codes "USERPROFILE")))

  -- `.map(|home| home.join(..))`
  abbrev pub below : Text → Result ConfigError Text → Result ConfigError Text
  below path (err e) = err e
  below path (ok dir) = ok (path_join dir path)

  unfoldable pub platform_config_dir : Result ConfigError Text
  unfolding env_path home_dir
  platform_config_dir = elim (env_path (codes "XDG_CONFIG_HOME")) [
    | some dir ↦ ok (path_join dir (codes "sshwarden"))
    | none ↦ below (codes "sshwarden") (below (codes ".config") home_dir)
  ]

  unfoldable pub platform_local_dir : Result ConfigError Text
  unfolding env_path home_dir
  platform_local_dir = elim (env_path (codes "XDG_STATE_HOME")) [
    | some dir ↦ ok (path_join dir (codes "sshwarden"))
    | none ↦ below (codes "sshwarden") (below (codes "state") (below (codes ".local") home_dir))
  ]

  -- The directory of a portable installation whose configuration file was read.
  unfoldable pub portable_dir_of : Text → Config → Option Text
  portable_dir_of exe config =
      if config.storage.portable
      then some (unwrap_or exe (trimmed config.storage.portable_dir))
      else none

  unfoldable pub probe_portable_from_exe : Option Text
  unfolding portable_dir_of
  probe_portable_from_exe = elim env.exe_dir [
    | none ↦ none
    | some exe ↦ elim (env.config_at (path_join exe (codes "config.toml"))) [
      | absent ↦ none
      | unreadable ↦ none
      | unparsed ↦ none
      | parsed config ↦ portable_dir_of exe config
    ]
  ]

  unfoldable pub resolve_shared_data_dir : Result ConfigError Text
  unfolding env_path env_bool executable_dir probe_portable_from_exe platform_config_dir
  resolve_shared_data_dir = elim (env_path (codes "SSHWARDEN_HOME")) [
    | some dir ↦ ok dir
    | none ↦
        if env_bool (codes "SSHWARDEN_PORTABLE")
        then executable_dir
        else elim probe_portable_from_exe [ some dir ↦ ok dir | none ↦ platform_config_dir ]
  ]
