-- ===== src/Config/Locations.antt =====
-- crates/sshwarden-config/src/lib.rs: where the files of the program are kept.
use sshwarden.Base.{
  Bool, true, false, ◌||◌, List, [], ◌∷◌, ◌++◌, Option, none, some, if◌then◌else◌, or_else, is_some,
  Text, codes, text_eq, trim, eq_ignore_ascii_case, Result, ok, err, strip_prefix, path_join,
  is_absolute, Component, components, normal, file_name,
}
use sshwarden.Bindings.{is_empty}
use sshwarden.Config.{Config, default_config, unwrap_or}
use sshwarden.Config.Segments.{sanitize_device_id, sanitize_instance_name}
use sshwarden.Config.Environment.{
  Env, Resolving, ConfigError, ◌>>=◌, pure, lift, trimmed, env_path, home_dir_any,
  platform_local_dir, resolve_shared_data_dir, unreadable_config, unparsed_config,
  invalid_device_id, empty_path, unsupported_tilde, absent, unreadable, unparsed, parsed,
}

-- `expand_home_path_with_home`: `~` and what begins with `~/` or `~\`.
unfoldable pub expand_home_path_with_home : Text → Text → Result ConfigError Text
expand_home_path_with_home path home =
    let trimmed_path = trim path in
    if is_empty trimmed_path
    then err empty_path
    else if text_eq trimmed_path (codes "~")
    then ok home
    else elim (or_else (strip_prefix (codes "~/") trimmed_path)
        (strip_prefix (b'~' ∷ b'\\' ∷ []) trimmed_path)) [
          | some rest ↦ ok (path_join home rest)
          | none ↦
              if is_some (strip_prefix (codes "~") trimmed_path)
              then err unsupported_tilde
              else ok trimmed_path
        ]

-- A path that is one name.
unfoldable pub single_segment : List Component → Bool
single_segment (normal name ∷ []) = true
single_segment _ = false

-- `{shared}/devices/{device_id}` behind the check of the id.
unfoldable pub device_dir_of : Text → Text → Result ConfigError Text
unfolding single_segment
device_dir_of shared device_id =
    if single_segment (components device_id)
    then ok (path_join (path_join shared (codes "devices")) device_id)
    else err invalid_device_id

-- A value that is resolved where it is not cached.
abbrev pub cached : {A : Type 0} → Option A → Resolving A → Resolving A
cached (some a) resolve s = (ok a, s)
cached none resolve s = resolve s

-- `OnceLock::set` at the end of a resolution: what is set already stays.
abbrev pub remember_shared : Text → Resolving Text
remember_shared dir s = (ok dir, record s { shared_dir = or_else s.shared_dir (some dir) })

abbrev pub remember_device : Text → Resolving Text
remember_device dir s = (ok dir, record s { device_dir = or_else s.device_dir (some dir) })

abbrev pub remember_local : Text → Resolving Text
remember_local dir s = (ok dir, record s { local_dir = or_else s.local_dir (some dir) })

abbrev pub remember_multi : Bool → Resolving Bool
remember_multi value s = (ok value, record s { multi_device = or_else s.multi_device (some value) })

abbrev pub remember_id : Text → Resolving Text
remember_id id s = (ok id, record s { device_id = or_else s.device_id (some id) })

module _ (env : Env) where
  unfoldable pub shared_data_dir : Resolving Text
  unfolding resolve_shared_data_dir
  shared_data_dir s =
      cached s.shared_dir (do dir ← lift (resolve_shared_data_dir env); remember_shared dir) s

  unfoldable pub config_path : Resolving Text
  unfolding shared_data_dir
  config_path = do dir ← shared_data_dir; pure (path_join dir (codes "config.toml"))

  -- `Config::load`.
  unfoldable pub load : Resolving Config
  unfolding config_path
  load = do
    path ← config_path
    lift (elim (env.config_at path) [
      | absent ↦ ok default_config
      | unreadable ↦ err unreadable_config
      | unparsed ↦ err unparsed_config
      | parsed config ↦ ok config
    ])

  unfoldable pub hostname_for_device_id : Text
  hostname_for_device_id =
      elim (or_else (env.var (codes "COMPUTERNAME")) (env.var (codes "HOSTNAME"))) [
        | none ↦ unwrap_or (codes "device") (trimmed env.hostname)
        | some name ↦
            if is_empty (trim name) then unwrap_or (codes "device") (trimmed env.hostname) else name
      ]

  unfoldable pub auto_device_id : Text
  unfolding hostname_for_device_id
  auto_device_id =
      let user =
        unwrap_or (codes "user") (or_else (env.var (codes "USERNAME")) (env.var (codes "USER"))) in
      sanitize_device_id env.lowercase (hostname_for_device_id ++ b'-' ∷ user)

  unfoldable pub current_device_id_from_config : Config → Text
  unfolding auto_device_id
  current_device_id_from_config config = elim (trimmed (env.var (codes "SSHWARDEN_DEVICE_ID"))) [
    | some id ↦ sanitize_device_id env.lowercase id
    | none ↦
        let configured = trim config.storage.device_id in
        if is_empty configured || eq_ignore_ascii_case configured (codes "auto")
        then auto_device_id
        else sanitize_device_id env.lowercase configured
  ]

  unfoldable pub current_device_id : Resolving Text
  unfolding load current_device_id_from_config
  current_device_id s =
      cached s.device_id (do config ← load; remember_id (current_device_id_from_config config)) s

  unfoldable pub multi_device_enabled : Resolving Bool
  unfolding load
  multi_device_enabled s =
      cached s.multi_device (do config ← load; remember_multi config.storage.multi_device) s

  -- What `device_data_dir` computes where nothing is cached.
  unfoldable pub resolve_device_dir : Resolving Text
  unfolding shared_data_dir multi_device_enabled current_device_id device_dir_of
  resolve_device_dir = do
    shared ← shared_data_dir
    multi ← multi_device_enabled
    elim multi [
      | false ↦ pure shared
      | true ↦ do device_id ← current_device_id; lift (device_dir_of shared device_id)
    ]

  unfoldable pub device_data_dir : Resolving Text
  unfolding resolve_device_dir
  device_data_dir s = cached s.device_dir (do dir ← resolve_device_dir; remember_device dir) s

  unfoldable pub instance_key_with : Text → Option Text → Text
  instance_key_with shared (some id) = sanitize_device_id env.lowercase id
  instance_key_with shared none = elim (file_name shared) [
    | none ↦ codes "default"
    | some name ↦
        if is_empty (trim name) then codes "default" else sanitize_instance_name env.lowercase name
  ]

  unfoldable pub absolute_or_below : Text → Text → Text
  absolute_or_below shared expanded =
      if is_absolute expanded then expanded else path_join shared expanded

  unfoldable pub resolve_local_state_dir_with :
      Option Text → Config → Text → Text → Option Text → Text → Result ConfigError Text
  unfolding expand_home_path_with_home instance_key_with absolute_or_below
  resolve_local_state_dir_with (some dir) config shared platform_local device_id home = ok dir
  resolve_local_state_dir_with none config shared platform_local device_id home =
      elim (trimmed config.storage.local_dir) [
        | none ↦ ok (path_join platform_local (instance_key_with shared device_id))
        | some configured ↦ elim (expand_home_path_with_home configured home) [
          | err e ↦ err e
          | ok expanded ↦ ok (absolute_or_below shared expanded)
        ]
      ]

  -- What `local_state_dir` computes where nothing is cached.
  unfoldable pub resolve_local_dir : Resolving Text
  unfolding load shared_data_dir platform_local_dir current_device_id home_dir_any env_path
      resolve_local_state_dir_with
  resolve_local_dir = do
    config ← load
    shared ← shared_data_dir
    platform_local ← lift (platform_local_dir env)
    device_id ← elim config.storage.multi_device [
      | false ↦ pure none
      | true ↦ do id ← current_device_id; pure (some id)
    ]
    home ← lift (home_dir_any env)
    lift (
        resolve_local_state_dir_with (env_path env (codes "SSHWARDEN_LOCAL_HOME")) config shared
          platform_local device_id home)

  unfoldable pub local_state_dir : Resolving Text
  unfolding resolve_local_dir
  local_state_dir s = cached s.local_dir (do dir ← resolve_local_dir; remember_local dir) s
