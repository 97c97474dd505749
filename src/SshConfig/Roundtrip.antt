-- ===== src/SshConfig/Roundtrip.antt =====
-- The file that is generated from the bindings, imported again.
use sshwarden.Base.{
  ℕ, ◌≡◌, refl, ap, ◌∙◌, false, List, [], ◌∷◌, Option, All, Text, fold-join, Result, ok, err,
  trim-chop_cr, chop_cr,
}
use sshwarden.Bindings.{HostBindingsFile, PatternError}
use sshwarden.SshConfig.Snippet.{
  ManagedKey, Importing, import_trimmed, import_line, importing, import_host_bindings, Selectors,
  snippet_lines, ssh_config_snippet_with_bindings_in,
}
use sshwarden.SshConfig.Reimport.Directives.{blank-line}
use sshwarden.SshConfig.Regenerated.{IsBoundKey, snippet_lines-Quiet}
use sshwarden.SshConfig.Plain.{IsClean, snippet_lines-OneLine}

module _ (now : ℕ) (keys : List ManagedKey) (selectors : Selectors) (file : HostBindingsFile) where
  -- Rereading is not affected by how the lines end.
  importing-trimmed :
      (s : Result PatternError Importing) (l : Text)
      → importing now keys s (chop_cr l) ≡ importing now keys s l
  unfolding import_line
  importing-trimmed (err e) l = refl
  importing-trimmed (ok r) l = ap (import_trimmed now keys r) (trim-chop_cr l)

  importing-blank : (s : Result PatternError Importing) → importing now keys s [] ≡ s
  importing-blank (err e) = refl
  importing-blank (ok r) = blank-line now keys file r

  bound_keys :
      (ks : List ManagedKey)
      → All (IsClean now keys selectors file) ks
      → All (IsBoundKey now keys selectors file) ks
  bound_keys [] h = tt
  bound_keys (k ∷ ks) h = (h.0.1, bound_keys ks h.1)

  -- A file that was generated from the bindings changes nothing when it is imported again: no binding
  -- is touched, and none is reported as changed. The ids of the keys are words and known, no name
  -- reads as a marker, the hosts are as a binding stores them and not the placeholder, and no name and
  -- no path holds a line feed.
  pub import-snippet :
      All (IsClean now keys selectors file) keys
      → (pending : Option Text) × (import_host_bindings now keys
            (ssh_config_snippet_with_bindings_in selectors file keys)
            file
          ≡ ok (record { pending = pending; changed = false; bindings = file }))
  unfolding import_host_bindings ssh_config_snippet_with_bindings_in
  import-snippet h =
      let quiet = snippet_lines-Quiet now keys selectors file (bound_keys keys h) in
      (
        quiet.0,
        fold-join (importing now keys) importing-trimmed importing-blank
              (snippet_lines selectors file keys) _
              (snippet_lines-OneLine now keys selectors file h)
            ∙ quiet.1,
      )
