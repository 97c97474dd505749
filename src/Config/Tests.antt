-- ===== src/Config/Tests.antt =====
-- The locations on a small environment.
use mathlib.Core.List.{flat_map}
use sshwarden.Base.{
  trim, trim_end_with, keep_end, strip_prefix, is_whitespace, components, trim_with,
  eq_ignore_ascii_case, trim_start_with, all, dash_runs, is_ascii_alphanumeric, path_join, ◌≡◌,
  refl, true, false, [], ◌∷◌, none, some, ℕ, if◌then◌else◌, Text, codes, text_eq, ok,
}
use sshwarden.Config.{Config, default_config, notifications_url, default_server}
use sshwarden.Config.Segments.{sanitize_device_id}
use sshwarden.Config.Environment.{Env, parsed, absent, unresolved}
use sshwarden.Config.Locations.{device_data_dir, expand_home_path_with_home}
use sshwarden.Config.Layout.{IsLayout}
use sshwarden.Config.Lookups.{look_device, look_local, look_ups, look_ups-IsLayout}
use sshwarden.Config.Endpoints.{default_agent_socket_path}
use sshwarden.Config.Replace.{
  Disk, Faults, IsSafe, write_owner_only_file, write_owner_only_file-IsSafe,
}

abbrev same : ℕ → Text
same c = c ∷ []

abbrev devices_config : Config
devices_config = record default_config {
  storage = record {
    portable = false;
    portable_dir = none;
    multi_device = true;
    device_id = codes "../laptop";
    local_dir = none;
  };
}

abbrev laptop : Env
laptop = record {
  var = λ name. if text_eq name (codes "HOME") then some (codes "/home/u") else none;
  exe_dir = some (codes "/usr/bin");
  config_at = λ path.
      if text_eq path (codes "/home/u/.config/sshwarden/config.toml")
      then parsed devices_config
      else absent;
  hostname = some (codes "box");
  lowercase = same;
  parse_u64 = λ s. none;
}

abbrev moved : Env
moved = record laptop { var = λ name. some (codes "/elsewhere") }

device_dir :
    (device_data_dir laptop unresolved).0 ≡ ok (codes "/home/u/.config/sshwarden/devices/..-laptop")
unfolding device_data_dir text_eq path_join components trim trim_with trim_end_with trim_start_with
    is_whitespace keep_end eq_ignore_ascii_case sanitize_device_id dash_runs flat_map
    is_ascii_alphanumeric all
device_dir = refl

socket :
    (default_agent_socket_path laptop unresolved).0
    ≡ ok (codes "/home/u/.local/state/sshwarden/..-laptop/run/agent.sock")
unfolding default_agent_socket_path text_eq path_join sanitize_device_id trim_with trim_end_with
    trim_start_with dash_runs flat_map trim is_whitespace keep_end eq_ignore_ascii_case
    is_ascii_alphanumeric all
socket = refl

expanded :
    expand_home_path_with_home (codes " ~/keys ") (codes "/home/u") ≡ ok (codes "/home/u/keys")
unfolding expand_home_path_with_home trim trim_with trim_end_with trim_start_with is_whitespace
    keep_end text_eq strip_prefix path_join
expanded = refl

notifications : notifications_url default_server ≡ codes "https://notifications.bitwarden.com"
unfolding notifications_url text_eq trim_end_with keep_end strip_prefix
notifications = refl

look_ups-IsLayout_example :
    IsLayout (
      look_ups ((laptop, look_device) ∷ (moved, look_local) ∷ (moved, look_device) ∷ []) unresolved)
look_ups-IsLayout_example =
    look_ups-IsLayout ((laptop, look_device) ∷ (moved, look_local) ∷ (moved, look_device) ∷ [])

-- A disk on which nothing can be renamed over the file, and the backup cannot be restored.
abbrev stubborn : Faults
stubborn = record {
  broken_write = none;
  creates_directory = true;
  sets_permissions = true;
  renames = false;
  removes_old_backup = true;
  backs_up = true;
  promotes = false;
  restores = false;
  removes_backup = true;
}

abbrev old_disk : Disk
old_disk = record { target = some (codes "old"); temporary = none; backup = none }

write_owner_only_file-IsSafe_example :
    IsSafe
      (codes "new")
      (some (codes "old"))
      (write_owner_only_file (codes "new") stubborn old_disk)
write_owner_only_file-IsSafe_example = write_owner_only_file-IsSafe (codes "new") stubborn old_disk
