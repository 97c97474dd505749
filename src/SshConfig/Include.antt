-- ===== src/SshConfig/Include.antt =====
-- src/sshconfig.rs: the Include line in the user's configuration of ssh. The file is absent, cannot be
-- read, or holds a text; whether the disk and the program's configuration can be used is the record
-- `Weather`.
use sshwarden.Base.{
  Bool, true, false, ◌||◌, List, [], ◌∷◌, ◌++◌, Option, none, some, if◌then◌else◌, Text, text_eq,
  trim, any, Result, ok, err, lines, join, end_line, fold,
}
use sshwarden.Bindings.{is_empty}
use sshwarden.Config.{SshConfigPathStyle}
use sshwarden.SshConfig.{
  PathLib, marker, include_line_with_style, is_ssh_include_directive,
  line_matches_current_or_legacy_sshwarden_include,
}

pub data ConfigFile : Type 0 where
  absent unreadable : ConfigFile
  holds : Text → ConfigFile

pub data IncludeError : Type 0 where
  no_directory unreadable_config not_written not_read : IncludeError

pub record Weather : Type 0 where
  pub creates_directory : Bool
  pub path_style : Option SshConfigPathStyle
  pub writes : Bool

-- `read_to_string(..).unwrap_or_default()`.
abbrev pub text_or_default : ConfigFile → Text
text_or_default absent = []
text_or_default unreadable = []
text_or_default (holds s) = s

-- The variables of the loop over the lines.
pub record Rewriting : Type 0 where
  pub rewritten : List Text
  pub waiting : Bool
  pub replaced : Bool
  pub dropped : Bool

abbrev pub rewriting : Rewriting
rewriting = record { rewritten = []; waiting = false; replaced = false; dropped = false }

abbrev pub keep_line : Text → Rewriting → Rewriting
keep_line line r = record r { rewritten = r.rewritten ++ line ∷ [] }

-- `ours` says which trimmed lines are taken for the program's Include line.
module _ (ours : Text → Bool) (include : Text) where
  -- The rest of a round, where the line is not the one that the marker announces.
  unfoldable pub drop_or_keep : Rewriting → Text → Rewriting
  drop_or_keep r line =
      if ours (trim line)
      then record r { waiting = false; dropped = true }
      else keep_line line (record r { waiting = false })

  unfoldable pub after_marker : Rewriting → Text → Rewriting
  unfolding drop_or_keep
  after_marker r line =
      if is_empty (trim line)
      then keep_line line r
      else if is_ssh_include_directive (trim line) || ours (trim line)
      then keep_line include (record r { waiting = false; replaced = true })
      else drop_or_keep r line

  unfoldable pub rewrite_line : Rewriting → Text → Rewriting
  unfolding after_marker drop_or_keep
  rewrite_line r line =
      if text_eq (trim line) marker
      then keep_line line (record r { waiting = true })
      else if r.waiting
      then after_marker r line
      else drop_or_keep r line

  -- What a marked block is appended to, where none was there.
  unfoldable pub front : Text → Rewriting → Text
  front existing r = if r.dropped then join 10 r.rewritten else existing

  -- The marked block.
  unfoldable pub block : Text
  block = marker ++ 10 ∷ include ++ 10 ∷ []

  -- What comes after the loop: the text that is written.
  unfoldable pub finish : Text → Rewriting → Text
  unfolding front block
  finish existing r =
      if r.replaced
      then end_line (join 10 r.rewritten)
      else end_line (front existing r) ++ 10 ∷ block

  unfoldable pub with_include : Text → Text
  unfolding rewrite_line finish
  with_include existing = finish existing (fold rewrite_line rewriting (lines existing))

module _ (paths : PathLib) (include_path : Text) where
  abbrev pub is_ours : Text → Bool
  is_ours line = line_matches_current_or_legacy_sshwarden_include paths line include_path

  -- The part of the function that looks at the file.
  unfoldable pub write_text : Bool → Text → ConfigFile → Result IncludeError (Unit {0}) × ConfigFile
  unfolding with_include
  write_text writes include file =
      let existing = text_or_default file in
      if any (λ line. text_eq (trim line) include) (lines existing)
      then (ok tt, file)
      else if writes
      then (ok tt, holds (with_include is_ours include existing))
      else (err not_written, file)

  -- The outcome, and what the file holds afterwards.
  unfoldable pub write_sshwarden_include_line :
      Weather → ConfigFile → Result IncludeError (Unit {0}) × ConfigFile
  unfolding write_text
  write_sshwarden_include_line w file =
      if w.creates_directory
      then elim w.path_style [
        | none ↦ (err unreadable_config, file)
        | some style ↦ write_text w.writes (include_line_with_style paths include_path style) file
      ]
      else (err no_directory, file)
