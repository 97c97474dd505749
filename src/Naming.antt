-- ===== src/Naming.antt =====
-- src/naming.rs, src/shell.rs, src/ssh_target.rs and the comparison of paths in src/path_util.rs: names of
-- files, quoting for shells, the host of a target, and paths without their relative parts.
pub mod Shell
pub mod Targets
use sshwarden.Base.{
  ℕ, ◌≡◌, refl, inl, inr, Bool, true, false, ◌||◌, List, [], ◌∷◌, ◌++◌, arith, ◌==◌, if◌then◌else◌,
  Bool-cases, All, All-append, Text, codes, trim_with, is_ascii_alphanumeric, retain, retain-All,
  take, flat_map, dash_runs, Slug, dash_runs-Slug, trim_with-All,
}
use sshwarden.Bindings.{is_empty}

-- The characters that are kept.
unfoldable pub is_name_char : ℕ → Bool
is_name_char c = is_ascii_alphanumeric c || c == b'_' || c == b'-'

abbrev or_ssh_key : Text → Text
or_ssh_key [] = codes "ssh-key"
or_ssh_key (c ∷ s) = c ∷ s

unfoldable pub vault_item_id_prefix : Text → Text
vault_item_id_prefix cipher_id = take 8 (retain is_ascii_alphanumeric cipher_id)

-- `lowercase` is `char::to_lowercase`, which may give more than one character.
module _ (lowercase : ℕ → Text) where
  unfoldable pub slugify_key_name : Text → Text
  unfolding is_name_char
  slugify_key_name name =
      or_ssh_key
        (trim_with (λ c. c == b'-') (dash_runs is_name_char false (flat_map lowercase name)))

  unfoldable pub selector_file_name : Text → Text → Text
  unfolding slugify_key_name vault_item_id_prefix
  selector_file_name key_name cipher_id =
      let prefix = vault_item_id_prefix cipher_id in
      if is_empty prefix
      then slugify_key_name key_name ++ codes ".pub"
      else slugify_key_name key_name ++ codes "--" ++ prefix ++ codes ".pub"
