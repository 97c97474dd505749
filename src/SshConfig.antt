-- ===== src/SshConfig.antt =====
-- crates/sshwarden-config/src/ssh_config.rs, as it is built for platforms other than Windows: how paths
-- are written into configuration files of ssh, and which lines are taken for the program's own.
pub mod Quoting
pub mod Include
pub mod Remove
pub mod Removed
pub mod Written
pub mod Removal
pub mod Rounds
mod Tests
mod SnippetTests
pub mod Included
pub mod Snippet
pub mod Lines
pub mod Reimport
pub mod Regenerated
pub mod Plain
pub mod Roundtrip
use sshwarden.Base.{
  ℕ, Bool, true, false, ◌||◌, List, [], ◌∷◌, ◌++◌, Option, none, some, ◌==◌, if◌then◌else◌, or_else,
  Text, codes, text_eq, trim, split_whitespace, eq_ignore_ascii_case, path_join,
}
use sshwarden.Bindings.{is_empty}
use sshwarden.Config.{SshConfigPathStyle, absolute, home_relative, unwrap_or}

abbrev pub marker : Text
marker = codes "# SSHWarden managed key selector snippets"

unfoldable pub escape_char : ℕ → Text
escape_char c =
    if c == b'"' then b'\\' ∷ b'"' ∷ [] else if c == b'\\' then b'\\' ∷ b'\\' ∷ [] else c ∷ []

unfoldable pub escape : Text → Text
unfolding escape_char
escape [] = []
escape (c ∷ s) = escape_char c ++ escape s

unfoldable pub quote_ssh_config_arg : Text → Text
unfolding escape
quote_ssh_config_arg value = b'"' ∷ escape value ++ b'"' ∷ []

-- What the process knows of paths: its home directory, and `Path::strip_prefix`, which takes the
-- components of the second path off the first.
pub record PathLib : Type 0 where
  pub home : Option Text
  pub legacy : Option Text
  pub strip_path : Text → Text → Option Text

unfoldable pub tilde_join : Text → Text
tilde_join relative = if is_empty relative then codes "~" else path_join (codes "~") relative

unfoldable pub home_relative_path_with_home : PathLib → Text → Text → Option Text
unfolding tilde_join
home_relative_path_with_home paths path home = elim (paths.strip_path path home) [
  | none ↦ none
  | some relative ↦ some (tilde_join relative)
]

unfoldable pub home_relative_path : PathLib → Text → Option Text
unfolding home_relative_path_with_home
home_relative_path paths path = elim paths.home [
  | none ↦ none
  | some home ↦ home_relative_path_with_home paths path home
]

unfoldable pub path_arg_with_style : PathLib → Text → SshConfigPathStyle → Text
unfolding home_relative_path quote_ssh_config_arg
path_arg_with_style paths path absolute = quote_ssh_config_arg path
path_arg_with_style paths path home_relative =
    quote_ssh_config_arg (unwrap_or path (home_relative_path paths path))

unfoldable pub include_line_with_style : PathLib → Text → SshConfigPathStyle → Text
unfolding path_arg_with_style
include_line_with_style paths include_path style =
    codes "Include " ++ path_arg_with_style paths include_path style

unfoldable pub include_line : Text → Text
unfolding quote_ssh_config_arg
include_line include_path = codes "Include " ++ quote_ssh_config_arg include_path

unfoldable pub legacy_unquoted_include_line : Text → Text
legacy_unquoted_include_line include_path = codes "Include " ++ include_path

unfoldable pub line_matches_sshwarden_include : PathLib → Text → Text → Bool
unfolding include_line include_line_with_style legacy_unquoted_include_line
line_matches_sshwarden_include paths line include_path =
    text_eq (trim line) (include_line include_path)
    || text_eq (trim line) (include_line_with_style paths include_path home_relative)
    || text_eq (trim line) (legacy_unquoted_include_line include_path)

-- src/sshconfig.rs: the first word of a line.
unfoldable pub first_word_is : Text → Text → Bool
first_word_is word line = elim (split_whitespace line) [
  | [] ↦ false
  | directive ∷ arguments ↦ eq_ignore_ascii_case directive word
]

unfoldable pub is_ssh_include_directive : Text → Bool
unfolding first_word_is
is_ssh_include_directive line = first_word_is (codes "Include") line

unfoldable pub line_matches_current_or_legacy_sshwarden_include : PathLib → Text → Text → Bool
unfolding line_matches_sshwarden_include
line_matches_current_or_legacy_sshwarden_include paths line include_path =
    line_matches_sshwarden_include paths line include_path || elim paths.legacy [
      | none ↦ false
      | some legacy ↦ line_matches_sshwarden_include paths line legacy
    ]
