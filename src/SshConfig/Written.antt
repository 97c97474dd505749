-- ===== src/SshConfig/Written.antt =====
-- The Include line on the disk: writing it twice, and removing it.
use sshwarden.Base.{
  if-cases, ℕ, ◌≡◌, refl, inl, inr, Bool, true, false, [], ◌∷◌, ◌++◌, some, arith, Bool-cases,
  All-append, Text, codes, trim, trim_with, trim_start_with, trim_end_with, keep_end, is_whitespace,
  any, Result, ok, lines, lines_from, fold, end_line, OneLine, ◌==◌,
}
use sshwarden.Config.{SshConfigPathStyle, absolute, home_relative, unwrap_or}
use sshwarden.SshConfig.{
  PathLib, escape, escape_char, quote_ssh_config_arg, path_arg_with_style, include_line_with_style,
  home_relative_path,
}
use sshwarden.SshConfig.Include.{
  block, finish, front, with_include, Weather, ConfigFile, unreadable, holds, text_or_default,
  is_ours, write_text, write_sshwarden_include_line, IncludeError,
}
use sshwarden.SshConfig.Rounds.{reads, IsLine}
use sshwarden.SshConfig.Included.{with_include-include}

-- A text that ends in a character that is not white space is not trimmed at its end.
trim_end_with-last :
    (p : ℕ → Bool) (s : Text) (c : ℕ) → p c ≡ false → trim_end_with p (s ++ c ∷ []) ≡ s ++ c ∷ []
unfolding trim_end_with keep_end
trim_end_with-last p [] c h = rw h refl
trim_end_with-last p (d ∷ []) c h = rw h refl
trim_end_with-last p (d ∷ e ∷ s) c h = rw (trim_end_with-last p (e ∷ s) c h) refl

escape-OneLine : (s : Text) → OneLine s → OneLine (escape s)
unfolding escape escape_char
escape-OneLine [] h = tt
escape-OneLine (c ∷ s) h = elim (Bool-cases (c == b'"')) [
  | inl e ↦ rw e (refl, (refl, escape-OneLine s h.1))
  | inr e ↦ elim (Bool-cases (c == b'\\')) [
    | inl f ↦ rw (e, f) (refl, (refl, escape-OneLine s h.1))
    | inr f ↦ rw (e, f) (h.0, escape-OneLine s h.1)
  ]
]

quoted-IsLine :
    (value : Text) → OneLine value → IsLine (codes "Include " ++ quote_ssh_config_arg value)
unfolding quote_ssh_config_arg trim trim_with trim_start_with is_whitespace
quoted-IsLine value h = record {
  one_line = (
    refl,
    (
      refl,
      (
        refl,
        (
          refl,
          (
            refl,
            (
              refl,
              (
                refl,
                (
                  refl,
                  (
                    refl,
                    All-append _ (escape value) (b'"' ∷ []) (escape-OneLine value h) (refl, tt),
                  ),
                ),
              ),
            ),
          ),
        ),
      ),
    ),
  );
  trimmed = trim_end_with-last is_whitespace (codes "Include " ++ b'"' ∷ escape value) b'"' refl;
  filled = refl;
}

module _ (paths : PathLib) (include_path : Text) where
  -- The path as it is written in a style.
  abbrev pub shown : SshConfigPathStyle → Text
  shown absolute = include_path
  shown home_relative = unwrap_or include_path (home_relative_path paths include_path)

  abbrev included : SshConfigPathStyle → Text
  included style = include_line_with_style paths include_path style

  included-IsLine : (style : SshConfigPathStyle) → OneLine (shown style) → IsLine (included style)
  unfolding include_line_with_style path_arg_with_style
  included-IsLine absolute h = quoted-IsLine _ h
  included-IsLine home_relative h = quoted-IsLine _ h

  write_text-reads :
      (writes : Bool) (include : Text) (file : ConfigFile)
      → IsLine include
      → (write_text paths include_path writes include file).0 ≡ ok tt
      → any
          (reads include)
          (lines (text_or_default (write_text paths include_path writes include file).1))
        ≡ true
  unfolding write_text
  write_text-reads writes include file i =
      let Holds : Result IncludeError (Unit {0}) × ConfigFile → Type 0 =
        λ r. r.0 ≡ ok tt → any (reads include) (lines (text_or_default r.1)) ≡ true in
      if-cases Holds (any (reads include) (lines (text_or_default file))) (λ e o. e)
        (λ e.
          if-cases Holds writes
            (λ w o.
              with_include-include (is_ours paths include_path) include (text_or_default file) i)
            (λ w o. ground (arith, o)))

  write_text-again :
      (writes : Bool) (include : Text) (file : ConfigFile)
      → any (reads include) (lines (text_or_default file)) ≡ true
      → write_text paths include_path writes include file ≡ (ok tt, file)
  unfolding write_text
  write_text-again writes include file e = rw e refl

  abbrev weather : Bool → SshConfigPathStyle → Bool → Weather
  weather creates style writes = record {
    creates_directory = creates;
    path_style = some style;
    writes = writes;
  }

  -- The line is written once: after it was written, another attempt changes nothing, and succeeds
  -- even where nothing can be written. No line feed stands in the path.
  pub write_sshwarden_include_line_idem :
      (style : SshConfigPathStyle) (creates writes writes' : Bool) (file : ConfigFile)
      → OneLine (shown style)
      → (write_sshwarden_include_line paths include_path (weather creates style writes) file).0
        ≡ ok tt
      → let file' =
          (write_sshwarden_include_line paths include_path (weather creates style writes) file).1 in
        write_sshwarden_include_line paths include_path (weather true style writes') file'
        ≡ (ok tt, file')
  unfolding write_sshwarden_include_line
  write_sshwarden_include_line_idem style false writes writes' file h o = ground (arith, o)
  write_sshwarden_include_line_idem style true writes writes' file h o =
      write_text-again writes' (included style) _
        (write_text-reads writes (included style) file (included-IsLine style h) o)

  -- A file that is there but cannot be read is treated like one that is absent: where the write
  -- succeeds, it holds the block of the Include line and nothing else.
  pub write_sshwarden_include_line_unreadable :
      (style : SshConfigPathStyle) (creates writes : Bool)
      → (write_sshwarden_include_line paths include_path
          (weather creates style writes)
          unreadable).0
        ≡ ok tt
      → (write_sshwarden_include_line paths include_path
          (weather creates style writes)
          unreadable).1
        ≡ holds (
            10
            ∷ block (is_ours paths include_path) (include_line_with_style paths include_path style))
  unfolding write_sshwarden_include_line write_text with_include finish front lines lines_from any
      fold end_line
  write_sshwarden_include_line_unreadable style false writes o = ground (arith, o)
  write_sshwarden_include_line_unreadable style true false o = ground (arith, o)
  write_sshwarden_include_line_unreadable style true true o = refl
