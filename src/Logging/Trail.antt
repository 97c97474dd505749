-- ===== src/Logging/Trail.antt =====
-- The backup and the log hold the end of what was written.
use sshwarden.Base.{
  ℕ, ◌≡◌, refl, sym, ap, ◌∙◌, inl, inr, Bool, true, false, List, [], ◌∷◌, ◌++◌, Option, none, some,
  arith, All, Text, length, take, append-nil, Bool-cases,
}
use mathlib.Core.Path.{subst}
use mathlib.Core.List.{append_assoc}
use sshwarden.Logging.{
  RotatingFileWriter, Faults, at_path, content, rotate, rotate_if_needed, should_rotate, append,
  write, taken, warned, Write, write_all,
}

-- The backup, and the log behind it.
abbrev pub trail : RotatingFileWriter → Text
trail w = content w.backup ++ content w.log

pub record IsOpen (w : RotatingFileWriter) : Type 0 where
  pub in_place : w.file ≡ at_path
  pub present : w.log ≡ some (content w.log)

-- What is left of a text after older bytes were dropped.
abbrev pub Ends : Text → Text → Type 0
Ends whole end = (dropped : Text) × (dropped ++ end ≡ whole)

-- The writer stays on its log, and holds the end of what it held.
abbrev Keeps : RotatingFileWriter → RotatingFileWriter → Type 0
Keeps w v = IsOpen v × Ends (trail w) (trail v)

abbrev pub writer : ℕ → ℕ → Bool → Text → Option Text → RotatingFileWriter
writer max_bytes written rotation_warned text backup = record {
  max_bytes = max_bytes;
  written = written;
  rotation_warned = rotation_warned;
  file = at_path;
  log = some text;
  backup = backup;
}

abbrev faults : Bool → Bool → Bool → Faults
faults flushes removes renames = record {
  flushes = flushes;
  removes = removes;
  renames = renames;
  reopens = true;
}

pub IsOpen-here :
    {w : RotatingFileWriter} → w.file ≡ at_path → w.log ≡ some (content w.log) → IsOpen w
IsOpen-here e f = record { in_place = e; present = f }

rotate-writer :
    (m n : ℕ) (b : Bool) (text : Text) (backup : Option Text) (flushes removes renames : Bool)
    → Keeps
        (writer m n b text backup)
        (warned (rotate (faults flushes removes renames) (writer m n b text backup)))
unfolding rotate
rotate-writer m n b text backup false removes renames = (IsOpen-here refl refl, ([], refl))
rotate-writer m n b text none true removes false = (IsOpen-here refl refl, ([], refl))
rotate-writer m n b text none true removes true = (IsOpen-here refl refl, ([], append-nil text))
rotate-writer m n b text (some old) true false renames = (IsOpen-here refl refl, ([], refl))
rotate-writer m n b text (some old) true true false = (IsOpen-here refl refl, (old, refl))
rotate-writer m n b text (some old) true true true =
    (IsOpen-here refl refl, (old, ap (◌++◌ old) (append-nil text)))

pub same_writer :
    (w : RotatingFileWriter)
    → IsOpen w
    → w ≡ writer w.max_bytes w.written w.rotation_warned (content w.log) w.backup
same_writer w h i = record w { file = h.in_place i; log = h.present i }

same_faults : (f : Faults) → f.reopens ≡ true → f ≡ faults f.flushes f.removes f.renames
same_faults f r i = record f { reopens = r i }

rotate-Keeps :
    (f : Faults) (w : RotatingFileWriter)
    → IsOpen w
    → f.reopens ≡ true
    → Keeps w (warned (rotate f w))
rotate-Keeps f w h r =
    subst (λ g. Keeps w (warned (rotate g w))) (sym (same_faults f r))
      (subst (λ v. Keeps v (warned (rotate (faults f.flushes f.removes f.renames) v)))
        (sym (same_writer w h))
        (rotate-writer w.max_bytes w.written w.rotation_warned (content w.log) w.backup f.flushes
          f.removes f.renames))

rotate_if_needed-Keeps :
    (f : Faults) (incoming : ℕ) (w : RotatingFileWriter)
    → IsOpen w
    → f.reopens ≡ true
    → Keeps w (rotate_if_needed f incoming w)
unfolding rotate_if_needed
rotate_if_needed-Keeps f incoming w h r = elim (Bool-cases (should_rotate w incoming)) [
  | inl e ↦ rw e (rotate-Keeps f w h r)
  | inr e ↦ rw e (h, ([], refl))
]

Ends-append : (x y : Text) (s : Text) → Ends x y → Ends (x ++ s) (y ++ s)
Ends-append x y s h = (h.0, sym (append_assoc h.0 y s) ∙ ap (λ t. t ++ s) h.1)

abbrev pub longer : Text → RotatingFileWriter → RotatingFileWriter
longer text w = record w { log = some (content w.log ++ text) }

pub append-longer :
    (text : Text) (w : RotatingFileWriter) → w.file ≡ at_path → append text w ≡ longer text w
unfolding append
append-longer text w e = ground (arith, e)

trail-longer : (text : Text) (w : RotatingFileWriter) → trail (longer text w) ≡ trail w ++ text
trail-longer text w = sym (append_assoc (content w.backup) (content w.log) text)

-- The count of the bytes does not matter.
write-append :
    (f : Faults) (n : ℕ) (buf : Text) (w : RotatingFileWriter)
    → let rotated = rotate_if_needed f (length buf) w in
      rotated.file ≡ at_path
      → (IsOpen (longer (take n buf) rotated) → IsOpen (write f (some n) buf w))
        × (trail (write f (some n) buf w) ≡ trail (longer (take n buf) rotated))
unfolding write
write-append f n buf w e = (
  λ h.
      IsOpen-here (ap (λ v. v.file) (same n) ∙ h.in_place)
        (ap (λ v. v.log) (same n) ∙ h.present ∙ ap (λ v. some (content v.log)) (sym (same n))),
  ap trail (same n),
)
  where
    same :
        (n : ℕ)
        → append (take n buf) (rotate_if_needed f (length buf) w)
          ≡ longer (take n buf) (rotate_if_needed f (length buf) w)
    same n = append-longer (take n buf) (rotate_if_needed f (length buf) w) e

-- A write keeps the writer on its log, and the backup and the log hold the end of what they held with
-- the new bytes behind it.
write-Ends :
    (f : Faults) (accepted : Option ℕ) (buf : Text) (w : RotatingFileWriter)
    → IsOpen w
    → f.reopens ≡ true
    → IsOpen (write f accepted buf w)
      × Ends (trail w ++ taken accepted buf) (trail (write f accepted buf w))
unfolding write
write-Ends f none buf w h r =
    let k = rotate_if_needed-Keeps f (length buf) w h r in
    (k.0, (k.1.0, k.1.1 ∙ sym (append-nil (trail w))))
write-Ends f (some n) buf w h r =
    let k = rotate_if_needed-Keeps f (length buf) w h r in
    let a = write-append f n buf w k.0.in_place in
    let e = Ends-append (trail w) _ (take n buf) k.1 in
    (
      a.0 (IsOpen-here k.0.in_place refl),
      (
        e.0,
        ap (λ t. e.0 ++ t) (a.1 ∙ trail-longer (take n buf) (rotate_if_needed f (length buf) w))
            ∙ e.1,
      ),
    )

-- Everything that the writes have put into the file.
unfoldable pub all_taken : List Write → Text
all_taken [] = []
all_taken (e ∷ es) = taken e.accepted e.buf ++ all_taken es

Ends-trans : (x y z : Text) → Ends x y → Ends y z → Ends x z
Ends-trans x y z h k = (h.0 ++ k.0, append_assoc h.0 k.0 z ∙ ap (λ t. h.0 ++ t) k.1 ∙ h.1)

-- Where a log that was moved away can always be opened anew: after any writes, however they and the
-- other steps of a rotation fail, the backup and the log together hold the end of everything that was
-- there and was written, in its order, and the writer is on the log at the path.
pub write_all-Ends :
    (es : List Write) (w : RotatingFileWriter)
    → IsOpen w
    → All (λ e. e.faults.reopens ≡ true) es
    → IsOpen (write_all es w) × Ends (trail w ++ all_taken es) (trail (write_all es w))
unfolding write_all all_taken
write_all-Ends [] w h r = (h, ([], sym (append-nil (trail w))))
write_all-Ends (e ∷ es) w h r =
    let one = write-Ends e.faults e.accepted e.buf w h r.0 in
    let next = write e.faults e.accepted e.buf w in
    let more = write_all-Ends es next one.0 r.1 in
    (
      more.0,
      Ends-trans _ (trail next ++ all_taken es) _
          (subst (λ t. Ends t (trail next ++ all_taken es))
            (append_assoc (trail w) (taken e.accepted e.buf) (all_taken es))
            (Ends-append _ (trail next) (all_taken es) one.1))
          more.1,
    )
