-- ===== src/SshConfig/Reimport/Directives.antt =====
-- The lines of a generated file that are no comments, read by the import: a line of hosts, which is the
-- one that is stored, and the lines of other directives.
use sshwarden.Base.{
  ℕ, ◌≡◌, refl, ap, ◌∙◌, true, false, not, List, [], ◌∷◌, ◌++◌, Option, none, some, All, Text,
  codes, text_eq, trim, trim_with, trim_start_with, trim_end_with, keep_end, is_whitespace,
  words_from, split_whitespace, join, strip_prefix, retain, lookup, eq_ignore_ascii_case, ok,
}
use sshwarden.Bindings.{HostBindingsFile, validate_all}
use sshwarden.SshConfig.{escape, quote_ssh_config_arg}
use sshwarden.SshConfig.Snippet.{
  ManagedKey, Importing, announced, is_current, import_hosts, import_directive, import_line,
  hosts_of,
}
use sshwarden.SshConfig.Lines.{
  IsWord, trim_end_with-append, trim-line, words_from-join, join-filled, trim_end_with-join,
}
use sshwarden.SshConfig.Reimport.{
  reading, import_line-words, not_announced-host, not_announced-identity, current_of, letter,
  quote_closing,
}

module _ (now : ℕ) (keys : List ManagedKey) (file : HostBindingsFile) where
  -- Hosts as a binding holds them, none of which is the placeholder of a template.
  pub record IsHosts (hosts : List Text) : Type 0 where
    pub words : All IsWord hosts
    pub valid : validate_all hosts ≡ ok tt
    pub no_placeholder : All (λ h. text_eq h (codes "<host>") ≡ false) hosts

  retain_same :
      (hosts : List Text)
      → All (λ h. text_eq h (codes "<host>") ≡ false) hosts
      → retain (λ host. not (text_eq host (codes "<host>"))) hosts ≡ hosts
  unfolding retain
  retain_same [] h = refl
  retain_same (x ∷ hosts) h = rw h.0 (ap (◌∷◌ x) (retain_same hosts h.1))

  is_current-hosts_of :
      (key : ManagedKey) (h : Text) (hs : List Text)
      → hosts_of file key ≡ h ∷ hs
      → is_current file key.cipher_id (h ∷ hs) ≡ true
  unfolding is_current hosts_of
  is_current-hosts_of key h hs e = current_of now keys file (lookup key.cipher_id file.bindings) e

  import_hosts-current :
      (id h : Text) (hs : List Text)
      → IsHosts (h ∷ hs)
      → is_current file id (h ∷ hs) ≡ true
      → import_hosts now keys (reading now keys file none) id (h ∷ hs)
        ≡ ok (reading now keys file none)
  unfolding import_hosts
  import_hosts-current id h hs i c = rw (i.valid, c) refl

  host_directive :
      (id h : Text) (hs : List Text)
      → IsHosts (h ∷ hs)
      → is_current file id (h ∷ hs) ≡ true
      → import_directive now keys (reading now keys file (some id)) (codes "Host" ∷ h ∷ hs)
        ≡ ok (reading now keys file none)
  unfolding import_directive eq_ignore_ascii_case text_eq
  host_directive id h hs i c =
      ap (import_hosts now keys (reading now keys file none) id)
        (retain_same (h ∷ hs) i.no_placeholder)
      ∙ import_hosts-current id h hs i c

  host_trimmed :
      (h : Text) (hs : List Text)
      → All IsWord (h ∷ hs)
      → trim (codes "Host " ++ join 32 (h ∷ hs)) ≡ codes "Host " ++ join 32 (h ∷ hs)
  host_trimmed h hs w =
      trim-line b'H' (codes "ost ") (join 32 (h ∷ hs)) letter (trim_end_with-join h hs w)
        (join-filled h hs w.0)

  host_words :
      (h : Text) (hs : List Text)
      → All IsWord (h ∷ hs)
      → split_whitespace (codes "Host " ++ join 32 (h ∷ hs)) ≡ codes "Host" ∷ h ∷ hs
  unfolding split_whitespace words_from is_whitespace
  host_words h hs w = ap (◌∷◌ (codes "Host")) (words_from-join (h ∷ hs) w)

  pub host-line :
      (key : ManagedKey) (h : Text) (hs : List Text)
      → IsHosts (h ∷ hs)
      → hosts_of file key ≡ h ∷ hs
      → import_line now keys
          (reading now keys file (some key.cipher_id))
          (codes "Host " ++ join 32 (h ∷ hs))
        ≡ ok (reading now keys file none)
  host-line key h hs i e =
      import_line-words now keys file (reading now keys file (some key.cipher_id)) _
        (codes "Host" ∷ h ∷ hs)
        (ap (announced keys) (host_trimmed h hs i.words) ∙ not_announced-host now keys file _)
        (ap split_whitespace (host_trimmed h hs i.words) ∙ host_words h hs i.words)
      ∙ host_directive key.cipher_id h hs i (is_current-hosts_of key h hs e)

  -- A line of another directive.
  identity_directive :
      (p : Option Text) (ws : List Text)
      → import_directive now keys (reading now keys file p) (codes "IdentityFile" ∷ ws)
        ≡ ok (reading now keys file p)
  unfolding import_directive eq_ignore_ascii_case text_eq
  identity_directive p ws = refl

  identity_trimmed :
      (v : Text)
      → trim (codes "    IdentityFile " ++ quote_ssh_config_arg v)
        ≡ codes "IdentityFile " ++ quote_ssh_config_arg v
  unfolding quote_ssh_config_arg trim trim_with trim_start_with is_whitespace
  identity_trimmed v =
      trim_end_with-append is_whitespace (codes "IdentityFile " ++ b'"' ∷ escape v) (b'"' ∷ [])
        quote_closing refl

  identity_words :
      (v : Text)
      → split_whitespace (codes "IdentityFile " ++ quote_ssh_config_arg v)
        ≡ codes "IdentityFile" ∷ split_whitespace (quote_ssh_config_arg v)
  unfolding split_whitespace words_from is_whitespace
  identity_words v = refl

  pub identity-line :
      (p : Option Text) (v : Text)
      → import_line now keys
          (reading now keys file p)
          (codes "    IdentityFile " ++ quote_ssh_config_arg v)
        ≡ ok (reading now keys file p)
  identity-line p v =
      import_line-words now keys file (reading now keys file p) _ _
        (ap (announced keys) (identity_trimmed v) ∙ not_announced-identity now keys file _)
        (ap split_whitespace (identity_trimmed v) ∙ identity_words v)
      ∙ identity_directive p _

  pub only-line :
      (p : Option Text)
      → import_line now keys (reading now keys file p) (codes "    IdentitiesOnly yes")
        ≡ ok (reading now keys file p)
  unfolding import_line announced import_directive trim trim_with trim_start_with trim_end_with
      keep_end is_whitespace strip_prefix split_whitespace words_from eq_ignore_ascii_case text_eq
  only-line p = refl

  pub blank-line : (r : Importing) → import_line now keys r [] ≡ ok r
  unfolding import_line announced import_directive trim trim_with trim_start_with trim_end_with
      strip_prefix split_whitespace words_from
  blank-line r = refl
