-- ===== src/Logging.antt =====
-- src/logging.rs: the log file with one backup, for Linux. The two files are the state, with the place
-- of the file that the writer holds open: `rename` takes it along, and a file that is removed while it
-- is open takes what is written, and nobody can read it. What the system refuses is the record `Faults`.
pub mod Trail
pub mod Size
pub mod Lost
mod Tests
use sshwarden.Base.{
  ℕ, ◌+◌, ◌-◌, ◌^◌, min, Bool, true, false, ◌&&◌, List, [], ◌∷◌, ◌++◌, Option, none, some, ltb,
  if◌then◌else◌, Text, codes, length, take,
}

pub data Place : Type 0 where
  at_path at_backup unlinked : Place

pub record RotatingFileWriter : Type 0 where
  pub max_bytes : ℕ
  pub written : ℕ
  pub rotation_warned : Bool
  pub file : Place
  pub log : Option Text
  pub backup : Option Text

pub record Faults : Type 0 where
  pub flushes : Bool
  pub removes : Bool
  pub renames : Bool
  pub reopens : Bool

abbrev pub saturating_add : ℕ → ℕ → ℕ
saturating_add a b = min (a + b) (2 ^ 64 - 1)

abbrev pub content : Option Text → Text
content none = []
content (some text) = text

-- The log is created where it is missing; its size is asked for, or taken as 0.
unfoldable pub open_log : Option Text → Option Text → Bool → ℕ → RotatingFileWriter
open_log log backup has_size max_bytes = record {
  max_bytes = max_bytes;
  written = if has_size then length (content log) else 0;
  rotation_warned = false;
  file = at_path;
  log = some (content log);
  backup = backup;
}

unfoldable pub should_rotate : RotatingFileWriter → ℕ → Bool
should_rotate w incoming =
    ltb 0 w.max_bytes && ltb 0 w.written && ltb w.max_bytes (saturating_add w.written incoming)

abbrev pub unlink : Place → Place
unlink at_path = at_path
unlink at_backup = unlinked
unlink unlinked = unlinked

abbrev pub move : Place → Place
move at_path = at_backup
move at_backup = unlinked
move unlinked = unlinked

-- The removal of the old backup, the renaming, and the opening of a new log; each gives the writer and
-- whether it went well.
unfoldable pub remove_backup : Faults → RotatingFileWriter → RotatingFileWriter × Bool
remove_backup f w = elim w.backup [
  | none ↦ (w, true)
  | some old ↦
      if f.removes then (record w { backup = none; file = unlink w.file }, true) else (w, false)
]

unfoldable pub rename_log : Faults → RotatingFileWriter → RotatingFileWriter × Bool
rename_log f w = elim w.log [
  | none ↦ (w, false)
  | some text ↦
      if f.renames
      then (record w { log = none; backup = some text; file = move w.file }, true)
      else (w, false)
]

unfoldable pub reopen : Faults → RotatingFileWriter → RotatingFileWriter × Bool
reopen f w =
    if f.reopens
    then (
      record w { log = some (content w.log); file = at_path; written = 0; rotation_warned = false },
      true,
    )
    else (w, false)

-- The next step, where the one before went well.
abbrev pub and_then :
    (RotatingFileWriter → RotatingFileWriter × Bool)
    → RotatingFileWriter × Bool
    → RotatingFileWriter × Bool
and_then next (w, false) = (w, false)
and_then next (w, true) = next w

unfoldable pub rotate : Faults → RotatingFileWriter → RotatingFileWriter × Bool
unfolding remove_backup rename_log reopen
rotate f w =
    if f.flushes
    then and_then (reopen f) (and_then (rename_log f) (remove_backup f w))
    else (w, false)

abbrev pub warned : RotatingFileWriter × Bool → RotatingFileWriter
warned (w, true) = w
warned (w, false) = record w { rotation_warned = true }

unfoldable pub rotate_if_needed : Faults → ℕ → RotatingFileWriter → RotatingFileWriter
unfolding should_rotate rotate
rotate_if_needed f incoming w = if should_rotate w incoming then warned (rotate f w) else w

unfoldable pub append : Text → RotatingFileWriter → RotatingFileWriter
append text w = elim w.file [
  | at_path ↦ record w { log = some (content w.log ++ text) }
  | at_backup ↦ record w { backup = some (content w.backup ++ text) }
  | unlinked ↦ w
]

-- One write: how many bytes the file takes, or none where it fails.
unfoldable pub write : Faults → Option ℕ → Text → RotatingFileWriter → RotatingFileWriter
unfolding rotate_if_needed append
write f accepted buf w =
    let rotated = rotate_if_needed f (length buf) w in
    elim accepted [
      | none ↦ rotated
      | some n ↦ record (append (take n buf) rotated) {
        written = saturating_add rotated.written (length (take n buf));
      }
    ]

-- The part of a write that the file takes.
abbrev pub taken : Option ℕ → Text → Text
taken none buf = []
taken (some n) buf = take n buf

pub record Write : Type 0 where
  pub faults : Faults
  pub accepted : Option ℕ
  pub buf : Text

unfoldable pub write_all : List Write → RotatingFileWriter → RotatingFileWriter
unfolding write
write_all [] w = w
write_all (e ∷ es) w = write_all es (write e.faults e.accepted e.buf w)

-- `backup_path`.
unfoldable pub backup_path : Text → Text
backup_path path = path ++ codes ".1"
