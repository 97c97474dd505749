-- ===== src/SshConfig/Snippet.antt =====
-- src/sshconfig.rs: the generated configuration of ssh, and the bindings read back from it.
use sshwarden.Base.{
  ℕ, Bool, true, false, not, ◌&&◌, List, [], ◌∷◌, ◌++◌, Option, none, some, or_else, if◌then◌else◌,
  flat_map, Text, codes, text_eq, trim, any, retain, lookup, eq_ignore_ascii_case, Result, ok,
  is_ok, ◌>>=◌, strip_prefix, strip_last, rsplit_once, lines, join, fold, split_whitespace,
  path_join,
}
use sshwarden.Bindings.{HostBindingsFile, PatternError, is_empty, validate_all, set_hosts}
use sshwarden.Config.{SshConfigPathStyle}
use sshwarden.Naming.{selector_file_name}
use sshwarden.SshConfig.{PathLib, path_arg_with_style}

pub record ManagedKey : Type 0 where
  pub name : Text
  pub cipher_id : Text

abbrev pub key_marker_prefix : Text
key_marker_prefix = codes "# sshwarden:key "

unfoldable pub sshwarden_key_marker_cipher_id : Text → Option Text
sshwarden_key_marker_cipher_id line = elim (strip_prefix key_marker_prefix line) [
  | none ↦ none
  | some id ↦ if is_empty (trim id) then none else some (trim id)
]

unfoldable pub legacy_key_comment_cipher_id : Text → Option Text
legacy_key_comment_cipher_id line = elim (strip_prefix (codes "# ") line) [
  | none ↦ none
  | some comment ↦ elim (rsplit_once (codes " (") comment) [
    | none ↦ none
    | some parts ↦ strip_last b')' parts.1
  ]
]

-- The variables of the import loop.
pub record Importing : Type 0 where
  pub pending : Option Text
  pub changed : Bool
  pub bindings : HostBindingsFile

unfoldable pub is_known : List ManagedKey → Text → Bool
is_known keys id = any (λ key. text_eq key.cipher_id id) keys

-- The id that a line announces, where the key is known.
unfoldable pub announced : List ManagedKey → Text → Option Text
unfolding sshwarden_key_marker_cipher_id legacy_key_comment_cipher_id is_known
announced keys trimmed =
    elim (or_else (sshwarden_key_marker_cipher_id trimmed) (legacy_key_comment_cipher_id trimmed)) [
      | none ↦ none
      | some id ↦ if is_known keys id then some id else none
    ]

unfoldable pub texts_eq : List Text → List Text → Bool
unfolding text_eq
texts_eq [] [] = true
texts_eq (a ∷ xs) (b ∷ ys) = text_eq a b && texts_eq xs ys
texts_eq _ _ = false

-- `current == Some(hosts)`.
unfoldable pub is_current : HostBindingsFile → Text → List Text → Bool
unfolding texts_eq
is_current file cipher_id hosts = elim (lookup cipher_id file.bindings) [
  | none ↦ false
  | some binding ↦ texts_eq binding.hosts hosts
]

module _ (now : ℕ) (keys : List ManagedKey) where
  unfoldable pub import_hosts : Importing → Text → List Text → Result PatternError Importing
  unfolding is_current
  import_hosts r cipher_id [] = ok r
  import_hosts r cipher_id (host ∷ hosts) =
      if not (is_ok (validate_all (host ∷ hosts)))
      then ok r
      else if is_current r.bindings cipher_id (host ∷ hosts)
      then ok r
      else do
        file ← set_hosts now cipher_id (host ∷ hosts) r.bindings
        ok (record r { bindings = file; changed = true })

  unfoldable pub import_directive : Importing → List Text → Result PatternError Importing
  unfolding import_hosts
  import_directive r [] = ok r
  import_directive r (directive ∷ parts) =
      if not (eq_ignore_ascii_case directive (codes "Host")) then ok r else elim r.pending [
        | none ↦ ok r
        | some cipher_id ↦
            import_hosts (record r { pending = none }) cipher_id
              (retain (λ host. not (text_eq host (codes "<host>"))) parts)
      ]

  -- One round, at the trimmed line.
  unfoldable pub import_trimmed : Importing → Text → Result PatternError Importing
  unfolding announced import_directive
  import_trimmed r trimmed = elim (announced keys trimmed) [
    | some cipher_id ↦ ok (record r { pending = some cipher_id })
    | none ↦ import_directive r (split_whitespace trimmed)
  ]

  unfoldable pub import_line : Importing → Text → Result PatternError Importing
  unfolding import_trimmed
  import_line r line = import_trimmed r (trim line)

  abbrev pub importing : Result PatternError Importing → Text → Result PatternError Importing
  importing s line = s >>= λ r. import_line r line

  -- What is read from a managed file that holds `content`.
  unfoldable pub import_host_bindings : Text → HostBindingsFile → Result PatternError Importing
  unfolding import_line
  import_host_bindings content file =
      fold importing (ok (record { pending = none; changed = false; bindings = file }))
        (lines content)

-- Where the selector files are, and how their paths are written.
pub record Selectors : Type 0 where
  pub paths : PathLib
  pub selector_dir : Text
  pub path_style : SshConfigPathStyle
  pub lowercase : ℕ → Text

unfoldable pub hosts_of : HostBindingsFile → ManagedKey → List Text
hosts_of file key = elim (lookup key.cipher_id file.bindings) [
  | none ↦ []
  | some binding ↦ binding.hosts
]

-- `# name (id)`
abbrev pub key_comment : ManagedKey → Text
key_comment key = b'#' ∷ 32 ∷ (key.name ++ (32 ∷ b'(' ∷ (key.cipher_id ++ (b')' ∷ []))))

module _ (selectors : Selectors) (file : HostBindingsFile) where
  -- The argument that names the selector file of a key.
  unfoldable pub identity_arg : ManagedKey → Text
  identity_arg key =
      path_arg_with_style selectors.paths
        (path_join selectors.selector_dir
          (selector_file_name selectors.lowercase key.name key.cipher_id))
        selectors.path_style

  unfoldable pub bound_block : ManagedKey → List Text
  unfolding identity_arg hosts_of
  bound_block key =
      (key_marker_prefix ++ key.cipher_id)
      ∷ key_comment key
      ∷ (codes "Host " ++ join 32 (hosts_of file key))
      ∷ (codes "    IdentityFile " ++ identity_arg key)
      ∷ codes "    IdentitiesOnly yes"
      ∷ []
      ∷ []

  unfoldable pub unbound_block : ManagedKey → List Text
  unfolding identity_arg
  unbound_block key =
      (key_marker_prefix ++ key.cipher_id)
      ∷ key_comment key
      ∷ codes "# Host <host>"
      ∷ (codes "#     IdentityFile " ++ identity_arg key)
      ∷ codes "#     IdentitiesOnly yes"
      ∷ []
      ∷ []

  unfoldable pub unbound_section : List ManagedKey → List Text
  unfolding unbound_block
  unbound_section [] = []
  unbound_section (key ∷ keys) =
      codes "# --- Unbound keys (uncomment + edit to use) ---"
      ∷ []
      ∷ flat_map unbound_block (key ∷ keys)

  abbrev pub header : List Text
  header =
      codes "# SSHWarden managed SSH config"
      ∷ codes
          "# You may edit Host lines in SSHWarden key blocks; they are imported before regeneration."
      ∷ codes "# Other lines are regenerated. Manage bindings via `sshwarden keys bind/unbind ...`."
      ∷ []
      ∷ []

  unfoldable pub is_bound : ManagedKey → Bool
  unfolding hosts_of
  is_bound key = not (is_empty (hosts_of file key))

  unfoldable pub snippet_lines : List ManagedKey → List Text
  unfolding is_bound bound_block unbound_section
  snippet_lines keys =
      header
      ++ (flat_map bound_block (retain is_bound keys)
          ++ unbound_section (retain (λ key. not (is_bound key)) keys))

  unfoldable pub ssh_config_snippet_with_bindings_in : List ManagedKey → Text
  unfolding snippet_lines
  ssh_config_snippet_with_bindings_in keys = join 10 (snippet_lines keys)
