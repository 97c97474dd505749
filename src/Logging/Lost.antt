-- ===== src/Logging/Lost.antt =====
-- A log that is lost: after a rotation that could not open a new log, the next one removes the file that
-- is still written to.
use mathlib.Core.Path.{subst}
use sshwarden.Base.{
  ℕ, ◌≡◌, refl, sym, Bool, true, false, List, [], ◌∷◌, Option, none, some, arith, Text, length,
}
use sshwarden.Logging.{
  RotatingFileWriter, Faults, at_backup, unlinked, content, rotate, rotate_if_needed, should_rotate,
  append, write, warned, Write, write_all,
}
use sshwarden.Logging.Trail.{IsOpen, writer, same_writer}

-- A writer on the backup, with no log at the path; and one on a file that has no name.
pub record IsStranded (w : RotatingFileWriter) : Type 0 where
  pub on_backup : w.file ≡ at_backup
  pub moved : w.log ≡ none
  pub kept : w.backup ≡ some (content w.backup)

pub record IsLost (w : RotatingFileWriter) : Type 0 where
  pub unnamed : w.file ≡ unlinked
  pub no_log : w.log ≡ none
  pub no_backup : w.backup ≡ none

abbrev pub faults : Bool → Bool → Faults
faults renames reopens = record {
  flushes = true;
  removes = true;
  renames = renames;
  reopens = reopens;
}

rotate-IsStranded :
    (m n : ℕ) (b : Bool) (text : Text) (backup : Option Text)
    → IsStranded (warned (rotate (faults true false) (writer m n b text backup)))
unfolding rotate
rotate-IsStranded m n b text none = record { on_backup = refl; moved = refl; kept = refl }
rotate-IsStranded m n b text (some old) = record { on_backup = refl; moved = refl; kept = refl }

write-IsStranded :
    (f : Faults) (accepted : Option ℕ) (buf : Text) (w : RotatingFileWriter)
    → IsStranded (rotate_if_needed f (length buf) w)
    → IsStranded (write f accepted buf w)
unfolding write append
write-IsStranded f none buf w h = h
write-IsStranded f (some n) buf w h = record {
  on_backup = ground (arith, h.on_backup);
  moved = ground (arith, h.on_backup, h.moved);
  kept = ground (arith, h.on_backup);
}

write-IsLost :
    (f : Faults) (accepted : Option ℕ) (buf : Text) (w : RotatingFileWriter)
    → IsLost (rotate_if_needed f (length buf) w)
    → IsLost (write f accepted buf w)
unfolding write append
write-IsLost f none buf w h = h
write-IsLost f (some n) buf w h = record {
  unnamed = ground (arith, h.unnamed);
  no_log = ground (arith, h.unnamed, h.no_log);
  no_backup = ground (arith, h.unnamed, h.no_backup);
}

rotate_if_needed-IsLost :
    (f : Faults) (incoming : ℕ) (w : RotatingFileWriter)
    → IsLost w
    → IsLost (rotate_if_needed f incoming w)
unfolding rotate_if_needed rotate
rotate_if_needed-IsLost f incoming w h = record {
  unnamed = ground (arith, h.unnamed, h.no_log, h.no_backup);
  no_log = ground (arith, h.unnamed, h.no_log, h.no_backup);
  no_backup = ground (arith, h.unnamed, h.no_log, h.no_backup);
}

later-IsLost : (es : List Write) (w : RotatingFileWriter) → IsLost w → IsLost (write_all es w)
unfolding write_all
later-IsLost [] w h = h
later-IsLost (e ∷ es) w h =
    later-IsLost es _ (
      write-IsLost e.faults e.accepted e.buf w
        (rotate_if_needed-IsLost e.faults (length e.buf) w h))

rotated-IsLost :
    (f : Faults) (incoming : ℕ) (w : RotatingFileWriter)
    → IsStranded w
    → f.flushes ≡ true
    → f.removes ≡ true
    → should_rotate w incoming ≡ true
    → IsLost (rotate_if_needed f incoming w)
unfolding rotate_if_needed rotate
rotated-IsLost f incoming w h a b e = record {
  unnamed = ground (arith, h.on_backup, h.moved, h.kept, a, b, e);
  no_log = ground (arith, h.on_backup, h.moved, h.kept, a, b, e);
  no_backup = ground (arith, h.on_backup, h.moved, h.kept, a, b, e);
}

rotated-IsStranded :
    (incoming : ℕ) (w : RotatingFileWriter)
    → IsOpen w
    → should_rotate w incoming ≡ true
    → IsStranded (rotate_if_needed (faults true false) incoming w)
unfolding rotate_if_needed
rotated-IsStranded incoming w h e = rw e (
    subst (λ v. IsStranded (warned (rotate (faults true false) v))) (sym (same_writer w h))
      (rotate-IsStranded w.max_bytes w.written w.rotation_warned (content w.log) w.backup))

-- Once a rotation has moved the log away and no new one can be opened, the next write that wants a
-- rotation and can remove the backup leaves no log and no backup, and nothing that is written
-- afterwards is in either, however the system answers from then on.
pub write_all-IsLost :
    (first second : Option ℕ) (a b : Text) (f : Faults) (es : List Write) (w : RotatingFileWriter)
    → IsOpen w
    → should_rotate w (length a) ≡ true
    → should_rotate (write (faults true false) first a w) (length b) ≡ true
    → f.flushes ≡ true
    → f.removes ≡ true
    → IsLost (write_all es (write f second b (write (faults true false) first a w)))
write_all-IsLost first second a b f es w h e g k l =
    let stranded =
      write-IsStranded (faults true false) first a w (rotated-IsStranded (length a) w h e) in
    later-IsLost es _ (write-IsLost f second b _ (rotated-IsLost f (length b) _ stranded k l g))
