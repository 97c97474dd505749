-- ===== src/SshConfig/Remove.antt =====
-- src/sshconfig.rs: the removal of the Include line from the user's configuration of ssh. The lines
-- that are kept are held with the last one first.
use sshwarden.Base.{
  Bool, true, false, ◌||◌, ◌&&◌, List, [], ◌∷◌, if◌then◌else◌, Text, text_eq, trim, Result, ok, err,
  lines, join, end_line, fold,
}
use sshwarden.Bindings.{is_empty}
use sshwarden.SshConfig.{PathLib, marker, is_ssh_include_directive}
use sshwarden.SshConfig.Include.{
  ConfigFile, absent, unreadable, holds, IncludeError, no_directory, not_written, not_read, Weather,
  is_ours,
}

pub record Removing : Type 0 where
  pub kept : List Text
  pub removed_any : Bool
  pub skip_marker : Bool

abbrev pub removing : Removing
removing = record { kept = []; removed_any = false; skip_marker = false }

-- The blank lines at the end, and one marker behind them, are taken back.
unfoldable pub pop_marker : List Text → List Text
pop_marker [] = []
pop_marker (last ∷ kept) =
    let rest = pop_marker kept in
    if is_empty (trim last) then rest else if text_eq (trim last) marker then kept else last ∷ kept

-- The lines in their order.
unfoldable pub reverse_onto : List Text → List Text → List Text
reverse_onto ls [] = ls
reverse_onto ls (last ∷ kept) = reverse_onto (last ∷ ls) kept

module _ (ours : Text → Bool) where
  unfoldable pub remove_line : Removing → Text → Removing
  unfolding pop_marker
  remove_line r line =
      if text_eq (trim line) marker
      then record r { kept = line ∷ r.kept; skip_marker = true }
      else if ours (trim line) || (r.skip_marker && is_ssh_include_directive (trim line))
      then record {
        kept = if r.skip_marker then pop_marker r.kept else r.kept;
        removed_any = true;
        skip_marker = false;
      }
      else record r {
        kept = line ∷ r.kept;
        skip_marker = if is_empty (trim line) then r.skip_marker else false;
      }

  -- What is written after the loop.
  unfoldable pub removed_text : Removing → Text
  unfolding reverse_onto
  removed_text r = end_line (join 10 (reverse_onto [] r.kept))

module _ (paths : PathLib) (include_path : Text) where
  -- What the loop does to a text that could be read.
  unfoldable pub remove_from : Weather → Text → Result IncludeError Bool × ConfigFile
  unfolding remove_line removed_text
  remove_from w existing =
      let ours = is_ours paths include_path in
      let r = fold (remove_line ours) removing (lines existing) in
      if r.removed_any
      then if w.creates_directory
        then if w.writes
          then (ok true, holds (removed_text ours r))
          else (err not_written, holds existing)
        else (err no_directory, holds existing)
      else (ok false, holds existing)

  unfoldable pub remove_sshwarden_include_line :
      Weather → ConfigFile → Result IncludeError Bool × ConfigFile
  unfolding remove_from
  remove_sshwarden_include_line w absent = (ok false, absent)
  remove_sshwarden_include_line w unreadable = (err not_read, unreadable)
  remove_sshwarden_include_line w (holds existing) = remove_from w existing
