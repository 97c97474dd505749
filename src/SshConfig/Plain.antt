-- ===== src/SshConfig/Plain.antt =====
-- The lines of the generated file hold no line feed.
use mathlib.Core.List.{flat_map}
use sshwarden.Base.{
  ℕ, ◌≡◌, refl, true, false, not, List, [], ◌∷◌, ◌++◌, arith, ◌==◌, All, all, All-append, Text,
  codes, is_whitespace, OneWord, OneLine, join, retain-All_of,
}
use sshwarden.Bindings.{HostBindingsFile}
use sshwarden.SshConfig.Snippet.{
  ManagedKey, key_marker_prefix, Selectors, hosts_of, identity_arg, key_comment, bound_block,
  unbound_block, unbound_section, header, is_bound, snippet_lines,
}
use sshwarden.SshConfig.Lines.{IsWord}
use sshwarden.SshConfig.Regenerated.{IsBoundKey}

blank : (c : ℕ) → is_whitespace c ≡ false → (c == 10) ≡ false
unfolding is_whitespace
blank c h = ground (arith, h)

OneWord-OneLine : (w : Text) → OneWord w → OneLine w
OneWord-OneLine [] h = tt
OneWord-OneLine (c ∷ w) h = (blank c h.0, OneWord-OneLine w h.1)

abbrev NoBreak : ℕ → Type 0
NoBreak c = (c == 10) ≡ false

pub literal : (s : Text) → all (λ c. not (c == 10)) s ≡ true → OneLine s
unfolding all
literal [] h = tt
literal (c ∷ s) h = ground (arith, h, literal s)

join-OneLine : (ws : List Text) → All IsWord ws → OneLine (join 32 ws)
unfolding join
join-OneLine [] h = tt
join-OneLine (w ∷ []) h = OneWord-OneLine w h.0.one_word
join-OneLine (w ∷ v ∷ ws) h =
    All-append NoBreak w (32 ∷ join 32 (v ∷ ws)) (OneWord-OneLine w h.0.one_word)
      (refl, join-OneLine (v ∷ ws) h.1)

flat_map-All :
    {A : Type 0} (P : Text → Type 0) (Q : A → Type 0) (f : A → List Text) (xs : List A)
    → ((x : A) → Q x → All P (f x))
    → All Q xs
    → All P (flat_map f xs)
unfolding flat_map
flat_map-All P Q f [] g h = tt
flat_map-All P Q f (x ∷ xs) g h =
    All-append P (f x) (flat_map f xs) (g x h.0) (flat_map-All P Q f xs g h.1)

module _ (now : ℕ) (keys : List ManagedKey) (selectors : Selectors) (file : HostBindingsFile) where
  -- The lines of the snippet are lines, where no name and no path holds a line feed.
  abbrev pub IsPlain : ManagedKey → Type 0
  IsPlain key = OneLine key.name × OneLine (identity_arg selectors file key)

  abbrev pub IsClean : ManagedKey → Type 0
  IsClean key = IsPlain key × IsBoundKey now keys selectors file key

  marker-OneLine : (key : ManagedKey) → IsClean key → OneLine (key_marker_prefix ++ key.cipher_id)
  marker-OneLine key h =
      All-append NoBreak key_marker_prefix key.cipher_id
        (literal key_marker_prefix (unfold all in refl))
        (OneWord-OneLine key.cipher_id h.1.0.id_word.one_word)

  key_comment-OneLine : (key : ManagedKey) → IsClean key → OneLine (key_comment key)
  key_comment-OneLine key h = (
    refl,
    (
      refl,
      All-append NoBreak key.name _ h.0.0 (
        refl,
        (
          refl,
          All-append NoBreak key.cipher_id (b')' ∷ [])
              (OneWord-OneLine key.cipher_id h.1.0.id_word.one_word) (refl, tt),
        ),
      ),
    ),
  )

  bound_block-OneLine :
      (key : ManagedKey) → IsClean key → All OneLine (bound_block selectors file key)
  unfolding bound_block
  bound_block-OneLine key h = (
    marker-OneLine key h,
    (
      key_comment-OneLine key h,
      (
        All-append NoBreak (codes "Host ") _ (literal (codes "Host ") (unfold all in refl))
            (join-OneLine (hosts_of file key) h.1.1.words),
        (
          All-append NoBreak (codes "    IdentityFile ") _
              (literal (codes "    IdentityFile ") (unfold all in refl)) h.0.1,
          (literal (codes "    IdentitiesOnly yes") (unfold all in refl), (tt, tt)),
        ),
      ),
    ),
  )

  unbound_block-OneLine :
      (key : ManagedKey) → IsClean key → All OneLine (unbound_block selectors file key)
  unfolding unbound_block
  unbound_block-OneLine key h = (
    marker-OneLine key h,
    (
      key_comment-OneLine key h,
      (
        literal (codes "# Host <host>") (unfold all in refl),
        (
          All-append NoBreak (codes "#     IdentityFile ") _
              (literal (codes "#     IdentityFile ") (unfold all in refl)) h.0.1,
          (literal (codes "#     IdentitiesOnly yes") (unfold all in refl), (tt, tt)),
        ),
      ),
    ),
  )

  bound_blocks-OneLine :
      (ks : List ManagedKey)
      → All IsClean ks
      → All OneLine (flat_map (bound_block selectors file) ks)
  bound_blocks-OneLine ks h =
      flat_map-All OneLine IsClean (bound_block selectors file) ks bound_block-OneLine h

  unbound_section-OneLine :
      (ks : List ManagedKey) → All IsClean ks → All OneLine (unbound_section selectors file ks)
  unfolding unbound_section
  unbound_section-OneLine [] h = tt
  unbound_section-OneLine (k ∷ ks) h = (
    literal (codes "# --- Unbound keys (uncomment + edit to use) ---") (unfold all in refl),
    (
      tt,
      flat_map-All OneLine IsClean (unbound_block selectors file) (k ∷ ks) unbound_block-OneLine h,
    ),
  )

  header-OneLine : All OneLine (header selectors file)
  header-OneLine = (
    literal (codes "# SSHWarden managed SSH config") (unfold all in refl),
    (
      literal
          (codes
            "# You may edit Host lines in SSHWarden key blocks; they are imported before regeneration.")
          (unfold all in refl),
      (
        literal
            (codes
              "# Other lines are regenerated. Manage bindings via `sshwarden keys bind/unbind ...`.")
            (unfold all in refl),
        (tt, tt),
      ),
    ),
  )

  pub snippet_lines-OneLine : All IsClean keys → All OneLine (snippet_lines selectors file keys)
  unfolding snippet_lines
  snippet_lines-OneLine h = All-append OneLine (header selectors file) _ header-OneLine (
      All-append OneLine _ _
        (bound_blocks-OneLine _ (retain-All_of IsClean (is_bound selectors file) keys h))
        (unbound_section-OneLine _
          (retain-All_of IsClean (λ key. not (is_bound selectors file key)) keys h)))
