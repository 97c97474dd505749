-- ===== src/SshConfig/Regenerated.antt =====
-- The file that is generated from the bindings, imported again.
use mathlib.Core.Path.{subst}
use mathlib.Core.List.{flat_map}
use sshwarden.Base.{
  ℕ, ◌≡◌, refl, sym, ap, ◌∙◌, inl, inr, false, not, List, [], ◌∷◌, ◌++◌, Option, none, some, arith,
  Bool-cases, All, All-append, Text, codes, join, retain, fold, fold-append, Result, ok,
}
use sshwarden.Bindings.{is_empty, HostBindingsFile, PatternError}
use sshwarden.Config.{SshConfigPathStyle, absolute, home_relative, unwrap_or}
use sshwarden.SshConfig.{PathLib, home_relative_path, quote_ssh_config_arg, path_arg_with_style}
use sshwarden.SshConfig.Snippet.{
  ManagedKey, Importing, import_line, importing, Selectors, hosts_of, identity_arg, bound_block,
  unbound_block, unbound_section, header, is_bound, snippet_lines,
}
use sshwarden.SshConfig.Reimport.{reading, Quiet, comment-Quiet, IsGood, marker-line, comment-line}
use sshwarden.SshConfig.Reimport.Directives.{
  IsHosts, host-line, identity-line, only-line, blank-line,
}

path_arg_quoted :
    (paths : PathLib) (path : Text) (style : SshConfigPathStyle)
    → (v : Text) × (path_arg_with_style paths path style ≡ quote_ssh_config_arg v)
unfolding path_arg_with_style
path_arg_quoted paths path absolute = (path, refl)
path_arg_quoted paths path home_relative = (unwrap_or path (home_relative_path paths path), refl)

module _ (now : ℕ) (keys : List ManagedKey) (selectors : Selectors) (file : HostBindingsFile) where
  -- A line that changes nothing.
  abbrev Silent : Text → Type 0
  Silent line =
      (p : Option Text) → Quiet now keys file (import_line now keys (reading now keys file p) line)

  fold-Quiet :
      (ls : List Text) (s : Result PatternError Importing)
      → All Silent ls
      → Quiet now keys file s
      → Quiet now keys file (fold (importing now keys) s ls)
  unfolding fold
  fold-Quiet [] s h q = q
  fold-Quiet (l ∷ ls) s h q =
      fold-Quiet ls (importing now keys s l) h.1
        (subst (λ x. Quiet now keys file (importing now keys x l)) (sym q.1) (h.0 q.0))

  comment-Silent : (s : Text) → Silent (b'#' ∷ s)
  comment-Silent s p = comment-Quiet now keys file p s

  blank-Silent : Silent []
  blank-Silent p = (p, blank-line now keys file (reading now keys file p))

  header-Silent : All Silent (header selectors file)
  header-Silent = (comment-Silent _, (comment-Silent _, (comment-Silent _, (blank-Silent, tt))))

  unbound_block-Silent : (key : ManagedKey) → All Silent (unbound_block selectors file key)
  unfolding unbound_block
  unbound_block-Silent key = (
    comment-Silent _,
    (
      comment-Silent _,
      (comment-Silent _, (comment-Silent _, (comment-Silent _, (blank-Silent, tt)))),
    ),
  )

  unbound_blocks-Silent :
      (ks : List ManagedKey) → All Silent (flat_map (unbound_block selectors file) ks)
  unfolding flat_map
  unbound_blocks-Silent [] = tt
  unbound_blocks-Silent (k ∷ ks) =
      All-append Silent (unbound_block selectors file k) _ (unbound_block-Silent k)
        (unbound_blocks-Silent ks)

  unbound_section-Silent : (ks : List ManagedKey) → All Silent (unbound_section selectors file ks)
  unfolding unbound_section
  unbound_section-Silent [] = tt
  unbound_section-Silent (k ∷ ks) =
      (comment-Silent _, (blank-Silent, unbound_blocks-Silent (k ∷ ks)))

  -- A bound key, with its hosts.
  abbrev pub IsBoundKey : ManagedKey → Type 0
  IsBoundKey key = IsGood now keys file key × IsHosts now keys file (hosts_of file key)

  then_line :
      (r r' : Importing) (line : Text) (ls : List Text) (u : Result PatternError Importing)
      → import_line now keys r line ≡ ok r'
      → fold (importing now keys) (ok r') ls ≡ u
      → fold (importing now keys) (ok r) (line ∷ ls) ≡ u
  unfolding fold
  then_line r r' line ls u e h = ap (λ s. fold (importing now keys) s ls) e ∙ h

  none_left : (r : Importing) → fold (importing now keys) (ok r) [] ≡ ok r
  unfolding fold
  none_left r = refl

  bound_block-fold :
      (p : Option Text) (key : ManagedKey) (h : Text) (hs : List Text)
      → IsGood now keys file key
      → IsHosts now keys file (h ∷ hs)
      → hosts_of file key ≡ h ∷ hs
      → fold (importing now keys) (ok (reading now keys file p)) (bound_block selectors file key)
        ≡ ok (reading now keys file none)
  unfolding bound_block identity_arg
  bound_block-fold p key h hs g i e =
      let at_id = reading now keys file (some key.cipher_id) in
      let quiet = reading now keys file none in
      let arg = path_arg_quoted selectors.paths _ selectors.path_style in
      then_line _ at_id _ _ _ (marker-line now keys file p key g) (
        then_line at_id at_id _ _ _ (comment-line now keys file (some key.cipher_id) key g) (
          then_line at_id quiet _ _ _
            (ap (λ x. import_line now keys at_id (codes "Host " ++ join 32 x)) e
              ∙ host-line now keys file key h hs i e)
            (then_line quiet quiet _ _ _
              (ap (λ x. import_line now keys quiet (codes "    IdentityFile " ++ x)) arg.1
                ∙ identity-line now keys file none arg.0)
              (then_line quiet quiet _ _ _ (only-line now keys file none)
                (then_line quiet quiet _ _ _ (blank-line now keys file quiet) (none_left quiet))))))

  bound_block-Quiet :
      (p : Option Text) (key : ManagedKey) (hosts : List Text)
      → hosts_of file key ≡ hosts
      → is_empty hosts ≡ false
      → IsGood now keys file key
      → IsHosts now keys file hosts
      → Quiet now keys file (
          fold (importing now keys) (ok (reading now keys file p)) (bound_block selectors file key))
  bound_block-Quiet p key [] e f g i = ground (arith, f)
  bound_block-Quiet p key (h ∷ hs) e f g i = (none, bound_block-fold p key h hs g i e)

  -- A key that is bound.
  abbrev HasHosts : ManagedKey → Type 0
  HasHosts key = (is_empty (hosts_of file key) ≡ false) × IsBoundKey key

  bound_blocks-Quiet :
      (ks : List ManagedKey) (p : Option Text)
      → All HasHosts ks
      → Quiet now keys file (
          fold
            (importing now keys)
            (ok (reading now keys file p))
            (flat_map (bound_block selectors file) ks))
  unfolding flat_map
  bound_blocks-Quiet [] p h = (p, none_left (reading now keys file p))
  bound_blocks-Quiet (k ∷ ks) p h =
      let first = bound_block-Quiet p k (hosts_of file k) refl h.0.0 h.0.1.0 h.0.1.1 in
      let rest = bound_blocks-Quiet ks first.0 h.1 in
      (
        rest.0,
        fold-append (importing now keys) (ok (reading now keys file p))
              (bound_block selectors file k) (flat_map (bound_block selectors file) ks)
            ∙ ap (λ s. fold (importing now keys) s (flat_map (bound_block selectors file) ks))
                first.1
            ∙ rest.1,
      )

  retain-HasHosts :
      (ks : List ManagedKey)
      → All IsBoundKey ks
      → All HasHosts (retain (is_bound selectors file) ks)
  unfolding retain is_bound
  retain-HasHosts [] h = tt
  retain-HasHosts (k ∷ ks) h = elim (Bool-cases (is_empty (hosts_of file k))) [
    | inl e ↦ rw e (retain-HasHosts ks h.1)
    | inr e ↦ rw e ((e, h.0), retain-HasHosts ks h.1)
  ]

  pub snippet_lines-Quiet :
      All IsBoundKey keys
      → Quiet now keys file (
          fold
            (importing now keys)
            (ok (reading now keys file none))
            (snippet_lines selectors file keys))
  unfolding snippet_lines
  snippet_lines-Quiet h =
      let start = ok (reading now keys file none) in
      let bound = flat_map (bound_block selectors file) (retain (is_bound selectors file) keys) in
      let others = retain (λ key. not (is_bound selectors file key)) keys in
      let unbound = unbound_section selectors file others in
      let first = fold-Quiet (header selectors file) start header-Silent (none, refl) in
      let second =
        bound_blocks-Quiet (retain (is_bound selectors file) keys) first.0
          (retain-HasHosts keys h) in
      let third =
        fold-Quiet unbound (ok (reading now keys file second.0)) (unbound_section-Silent others)
          (second.0, refl) in
      (
        third.0,
        fold-append (importing now keys) start (header selectors file) (bound ++ unbound)
            ∙ ap (λ s. fold (importing now keys) s (bound ++ unbound)) first.1
            ∙ fold-append (importing now keys) (ok (reading now keys file first.0)) bound unbound
            ∙ ap (λ s. fold (importing now keys) s unbound) second.1
            ∙ third.1,
      )
