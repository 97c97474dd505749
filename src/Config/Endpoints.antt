-- ===== src/Config/Endpoints.antt =====
-- crates/sshwarden-config/src/lib.rs: the sockets, the generated ssh configuration and the size of the
-- log, as the crate is built for Linux.
use sshwarden.Base.{
  ℕ, true, false, none, some, if◌then◌else◌, Text, codes, trim, Result, ok, err, path_join,
  is_absolute,
}
use sshwarden.Bindings.{is_empty}
use sshwarden.Config.{Config, default_log_max_file_bytes}
use sshwarden.Config.Environment.{
  Env, Resolved, Resolving, ConfigError, ◌>>=◌, pure, lift, trimmed, env_path, executable_dir,
  home_dir_any, empty_managed_path,
}
use sshwarden.Config.Locations.{expand_home_path_with_home, shared_data_dir, local_state_dir, load}

module _ (env : Env) where
  unfoldable pub runtime_dir : Resolving Text
  unfolding env_path local_state_dir
  runtime_dir = elim (env_path env (codes "SSHWARDEN_RUNTIME_DIR")) [
    | some dir ↦ pure dir
    | none ↦ elim (env_path env (codes "XDG_RUNTIME_DIR")) [
      | some dir ↦ pure (path_join dir (codes "sshwarden"))
      | none ↦ do dir ← local_state_dir env; pure (path_join dir (codes "run"))
    ]
  ]

  unfoldable pub default_agent_socket_path : Resolving Text
  unfolding runtime_dir
  default_agent_socket_path = do dir ← runtime_dir; pure (path_join dir (codes "agent.sock"))

  unfoldable pub default_control_socket_path : Resolving Text
  unfolding runtime_dir
  default_control_socket_path = do dir ← runtime_dir; pure (path_join dir (codes "control.sock"))

  unfoldable pub expand_home_path : Text → Result ConfigError Text
  unfolding home_dir_any expand_home_path_with_home
  expand_home_path path = elim (home_dir_any env) [
    | err e ↦ err e
    | ok home ↦ expand_home_path_with_home path home
  ]

  unfoldable pub expand_config_path : Text → Resolving Text
  unfolding expand_home_path shared_data_dir
  expand_config_path path = do
    expanded ← lift (expand_home_path path)
    elim (is_absolute expanded) [
      | true ↦ pure expanded
      | false ↦ do shared ← shared_data_dir env; pure (path_join shared expanded)
    ]

  unfoldable pub default_managed_ssh_config_path : Resolving Text
  unfolding executable_dir
  default_managed_ssh_config_path = do
    exe ← lift (executable_dir env)
    pure (path_join exe (codes "sshwarden_config"))

  unfoldable pub managed_ssh_config_path : Config → Resolving Text
  unfolding expand_config_path shared_data_dir default_managed_ssh_config_path
  managed_ssh_config_path config = elim config.ssh_config.managed_path [
    | some path ↦
        if is_empty (trim path)
        then lift (err empty_managed_path)
        else expand_config_path (trim path)
    | none ↦ elim config.storage.multi_device [
      | true ↦ do shared ← shared_data_dir env; pure (path_join shared (codes "sshwarden_config"))
      | false ↦ default_managed_ssh_config_path
    ]
  ]

  -- A path in the user's directory for ssh.
  unfoldable pub in_ssh_dir : Text → Result ConfigError Text
  unfolding home_dir_any
  in_ssh_dir name = elim (home_dir_any env) [
    | err e ↦ err e
    | ok home ↦ ok (path_join (path_join home (codes ".ssh")) name)
  ]

  unfoldable pub legacy_home_managed_ssh_config_path : Result ConfigError Text
  unfolding in_ssh_dir
  legacy_home_managed_ssh_config_path = in_ssh_dir (codes "sshwarden_config")

  unfoldable pub user_ssh_config_path : Result ConfigError Text
  unfolding in_ssh_dir
  user_ssh_config_path = in_ssh_dir (codes "config")

  unfoldable pub log_max_file_bytes : Resolved → ℕ
  unfolding load
  log_max_file_bytes s =
      let configured : ℕ = elim (load env s).0 [
        | err e ↦ default_log_max_file_bytes
        | ok config ↦ config.logging.max_file_bytes
      ] in
      elim (trimmed (env.var (codes "SSHWARDEN_LOG_MAX_BYTES"))) [
        | none ↦ configured
        | some value ↦ elim (env.parse_u64 value) [ none ↦ configured | some bytes ↦ bytes ]
      ]
