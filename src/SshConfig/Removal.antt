-- ===== src/SshConfig/Removal.antt =====
-- What the removal of the Include line leaves in the file.
use mathlib.Core.Path.{Path}
use sshwarden.Base.{
  if-cases, ◌≡◌, refl, ap, ◌∙◌, Bool, true, false, ◌||◌, [], Option, none, some, arith, Text,
  text_eq, trim, trim_with, trim_start_with, trim_end_with, keep_end, is_whitespace, any, Result,
  ok, lines, lines_from, fold, OneLine, lines-OneLine,
}
use sshwarden.SshConfig.{
  PathLib, marker, is_ssh_include_directive, include_line, include_line_with_style,
  legacy_unquoted_include_line, line_matches_sshwarden_include,
  line_matches_current_or_legacy_sshwarden_include,
}
use sshwarden.SshConfig.Include.{
  ConfigFile, absent, unreadable, holds, IncludeError, Weather, is_ours, text_or_default,
}
use sshwarden.SshConfig.Remove.{
  removing, reverse_onto, remove_line, removed_text, remove_from, remove_sshwarden_include_line,
}
use sshwarden.SshConfig.Rounds.{reads, IsLine}
use sshwarden.SshConfig.Removed.{
  mine, Clean, fold-Clean, removed_text-none, fold-kept, fold_removed, any-reverse_onto,
  reverse_onto-All,
}
use sshwarden.SshConfig.Rounds.{search-join}

never_legacy :
    (f : Text → Bool) (o : Option Text)
    → ((l : Text) → f l ≡ false)
    → Path Bool (elim o [ none ↦ false | some legacy ↦ f legacy ]) false
never_legacy f none h = refl
never_legacy f (some l) h = h l

module _ (paths : PathLib) (include_path : Text) where
  -- Neither the marker nor a blank line is taken for an Include line.
  is_ours-marker : is_ours paths include_path marker ≡ false
  unfolding line_matches_current_or_legacy_sshwarden_include line_matches_sshwarden_include
      include_line include_line_with_style legacy_unquoted_include_line text_eq trim trim_with
      trim_start_with trim_end_with keep_end is_whitespace
  is_ours-marker =
      never_legacy (line_matches_sshwarden_include paths marker) paths.legacy (λ l. refl)

  is_ours-blank : is_ours paths include_path [] ≡ false
  unfolding line_matches_current_or_legacy_sshwarden_include line_matches_sshwarden_include
      include_line include_line_with_style legacy_unquoted_include_line text_eq trim trim_with
      trim_start_with trim_end_with
  is_ours-blank = never_legacy (line_matches_sshwarden_include paths []) paths.legacy (λ l. refl)

  removing-Clean :
      (existing : Text)
      → Clean
          (is_ours paths include_path)
          (fold (remove_line (is_ours paths include_path)) removing (lines existing))
  removing-Clean existing =
      fold-Clean (is_ours paths include_path) (lines existing) removing is_ours-marker
        (lines-OneLine existing) (tt, unfold any in refl)

  remove_from-none :
      (w : Weather) (existing : Text) (b : Bool)
      → (remove_from paths include_path w existing).0 ≡ ok b
      → any
          (mine (is_ours paths include_path))
          (lines (text_or_default (remove_from paths include_path w existing).1))
        ≡ false
  unfolding remove_from
  remove_from-none w existing b =
      let ours = is_ours paths include_path in
      let r = fold (remove_line ours) removing (lines existing) in
      let Holds : Result IncludeError Bool × ConfigFile → Type 0 =
        λ x. x.0 ≡ ok b → any (mine ours) (lines (text_or_default x.1)) ≡ false in
      if-cases Holds r.removed_any
        (λ e.
          if-cases Holds w.creates_directory
            (λ f.
              if-cases Holds w.writes
                (λ g o. removed_text-none ours r is_ours-blank (removing-Clean existing))
                (λ g o. ground (arith, o)))
            (λ f o. ground (arith, o)))
        (λ e o. (fold_removed ours (lines existing) removing is_ours-marker e).0)

  -- Where the removal succeeds, whether it changed the file or not, no line of the file is taken for
  -- the program's Include line.
  pub remove_sshwarden_include_line-none :
      (w : Weather) (file : ConfigFile) (b : Bool)
      → (remove_sshwarden_include_line paths include_path w file).0 ≡ ok b
      → any
          (mine (is_ours paths include_path))
          (lines (text_or_default (remove_sshwarden_include_line paths include_path w file).1))
        ≡ false
  unfolding remove_sshwarden_include_line lines lines_from
  remove_sshwarden_include_line-none w absent b o = unfold any in refl
  remove_sshwarden_include_line-none w unreadable b o = ground (arith, o)
  remove_sshwarden_include_line-none w (holds s) b o = remove_from-none w s b o

  remove_from-foreign :
      (w : Weather) (existing t : Text)
      → IsLine t
      → text_eq t marker ≡ false
      → (is_ssh_include_directive t || is_ours paths include_path t) ≡ false
      → any (reads t) (lines existing) ≡ true
      → any (reads t) (lines (text_or_default (remove_from paths include_path w existing).1)) ≡ true
  unfolding remove_from removed_text
  remove_from-foreign w existing t l m foreign h =
      let ours = is_ours paths include_path in
      let r = fold (remove_line ours) removing (lines existing) in
      let c = removing-Clean existing in
      let Holds : Result IncludeError Bool × ConfigFile → Type 0 =
        λ x. any (reads t) (lines (text_or_default x.1)) ≡ true in
      if-cases Holds r.removed_any
        (λ e.
          if-cases Holds w.creates_directory
            (λ f.
              if-cases Holds w.writes
                (λ g.
                  search-join t l (reverse_onto [] r.kept)
                    (reverse_onto-All OneLine r.kept [] c.0 tt)
                  ∙ any-reverse_onto (reads t) r.kept []
                  ∙ ap (λ b. b || any (reads t) [])
                      (fold-kept ours (lines existing) removing t l.filled m foreign
                        (ground (arith, h)))
                  ∙ ground arith)
                (λ g. h))
            (λ f. h))
        (λ e. h)

  -- Whatever happens, a line that is neither the marker, nor an Include line, nor taken for the
  -- program's own is still a line of the file afterwards.
  pub remove_sshwarden_include_line-foreign :
      (w : Weather) (existing t : Text)
      → IsLine t
      → text_eq t marker ≡ false
      → (is_ssh_include_directive t || is_ours paths include_path t) ≡ false
      → any (reads t) (lines existing) ≡ true
      → any (reads t) (
          lines (
            text_or_default
              (remove_sshwarden_include_line paths include_path w (holds existing)).1))
        ≡ true
  unfolding remove_sshwarden_include_line
  remove_sshwarden_include_line-foreign w existing t l m foreign h =
      remove_from-foreign w existing t l m foreign h
