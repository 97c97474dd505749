-- ===== src/SshConfig/SnippetTests.antt =====
-- A generated configuration of one bound key and one other.
use sshwarden.Base.{
  ℕ, ◌≡◌, refl, false, List, [], ◌∷◌, Option, none, Text, codes, ok, all, lookup, retain, text_eq,
  path_join, is_ascii_alphanumeric, trim_with, trim_end_with, trim_start_with, dash_runs, keep_end,
  is_whitespace, any, strip_prefix, is_absolute, needs_separator, trim, is_control,
}
use sshwarden.Bindings.{HostBindingsFile, validate_all, validate_host_pattern}
use sshwarden.Config.{absolute}
use sshwarden.SshConfig.{
  PathLib, path_arg_with_style, escape, escape_char, home_relative_path,
  home_relative_path_with_home, quote_ssh_config_arg, tilde_join,
}
use sshwarden.Naming.{selector_file_name, is_name_char, slugify_key_name, vault_item_id_prefix}
use mathlib.Core.List.{flat_map}
use sshwarden.SshConfig.Snippet.{
  ManagedKey, Selectors, hosts_of, identity_arg, is_known, sshwarden_key_marker_cipher_id,
  import_host_bindings, ssh_config_snippet_with_bindings_in,
}
use sshwarden.SshConfig.Plain.{literal, IsClean}
use sshwarden.SshConfig.Roundtrip.{import-snippet}

abbrev no_paths : PathLib
no_paths = record { home = none; legacy = none; strip_path = λ path home. none }

abbrev small : ℕ → Text
small c = c ∷ []

abbrev selectors : Selectors
selectors = record {
  paths = no_paths;
  selector_dir = codes "/k";
  path_style = absolute;
  lowercase = small;
}

abbrev first : ManagedKey
first = record { name = codes "A"; cipher_id = codes "i1" }

abbrev second : ManagedKey
second = record { name = codes "B"; cipher_id = codes "i2" }

abbrev both : List ManagedKey
both = first ∷ second ∷ []

abbrev bound_file : HostBindingsFile
bound_file = record {
  version = 1;
  bindings = (codes "i1", record { hosts = codes "h" ∷ codes "*.x" ∷ []; updated_at = 3 }) ∷ [];
}

first-IsClean : IsClean 9 both selectors bound_file first
unfolding all identity_arg path_arg_with_style path_join selector_file_name retain
    is_ascii_alphanumeric trim_with trim_end_with trim_start_with dash_runs flat_map keep_end
    is_whitespace is_known any text_eq sshwarden_key_marker_cipher_id strip_prefix is_absolute
    needs_separator trim is_name_char slugify_key_name vault_item_id_prefix escape escape_char
    home_relative_path home_relative_path_with_home quote_ssh_config_arg tilde_join hosts_of lookup
    validate_all validate_host_pattern is_control
first-IsClean = (
  ((refl, tt), literal (identity_arg selectors bound_file first) refl),
  (
    record {
      id_word = record { one_word = (refl, (refl, tt)); filled = refl };
      known = refl;
      unmarked = refl;
    },
    record {
      words = (
        record { one_word = (refl, tt); filled = refl },
        (record { one_word = (refl, (refl, (refl, tt))); filled = refl }, tt),
      );
      valid = refl;
      no_placeholder = (refl, (refl, tt));
    },
  ),
)

second-IsClean : IsClean 9 both selectors bound_file second
unfolding all identity_arg path_arg_with_style path_join selector_file_name retain
    is_ascii_alphanumeric trim_with trim_end_with trim_start_with dash_runs flat_map keep_end
    is_whitespace is_known any text_eq sshwarden_key_marker_cipher_id strip_prefix is_absolute
    needs_separator trim is_name_char slugify_key_name vault_item_id_prefix escape escape_char
    home_relative_path home_relative_path_with_home quote_ssh_config_arg tilde_join hosts_of lookup
    validate_all validate_host_pattern is_control
second-IsClean = (
  ((refl, tt), literal (identity_arg selectors bound_file second) refl),
  (
    record {
      id_word = record { one_word = (refl, (refl, tt)); filled = refl };
      known = refl;
      unmarked = refl;
    },
    record { words = tt; valid = refl; no_placeholder = tt },
  ),
)

import-snippet_example :
    (pending : Option Text) × (import_host_bindings 9 both
        (ssh_config_snippet_with_bindings_in selectors bound_file both)
        bound_file
      ≡ ok (record { pending = pending; changed = false; bindings = bound_file }))
import-snippet_example =
    import-snippet 9 both selectors bound_file (first-IsClean, (second-IsClean, tt))
