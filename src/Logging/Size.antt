-- ===== src/Logging/Size.antt =====
-- How long the log gets.
use mathlib.Core.Path.{subst}
use sshwarden.Base.{
  ℕ, ◌+◌, ◌-◌, ◌^◌, ◌≤◌, ◌<◌, ◌≡◌, refl, sym, inl, inr, Bool, true, false, List, [], ◌∷◌, Option,
  none, some, arith, All, Text, length, length-append, length-take, take, Bool-cases,
}
use sshwarden.Logging.{
  RotatingFileWriter, Faults, content, rotate, rotate_if_needed, should_rotate, append, write,
  warned, Write, write_all, saturating_add,
}
use sshwarden.Logging.Trail.{IsOpen, writer, same_writer, append-longer}

abbrev pub healthy : Faults
healthy = record { flushes = true; removes = true; renames = true; reopens = true }

-- A log of which the writer knows the size, within its limit.
pub record IsBounded (max_bytes : ℕ) (w : RotatingFileWriter) : Type 0 where
  pub is_open : IsOpen w
  pub limit : w.max_bytes ≡ max_bytes
  pub counted : w.written ≡ length (content w.log)
  pub bounded : length (content w.log) ≤ max_bytes

rotate-healthy :
    (m n : ℕ) (b : Bool) (text : Text) (backup : Option Text)
    → warned (rotate healthy (writer m n b text backup)) ≡ writer m 0 false [] (some text)
unfolding rotate
rotate-healthy m n b text none = refl
rotate-healthy m n b text (some old) = refl

-- The log before the new bytes: it was moved away, or has room for them.
pub record HasRoom (max_bytes incoming : ℕ) (w : RotatingFileWriter) : Type 0 where
  pub fits : IsBounded max_bytes w
  pub room : length (content w.log) + incoming ≤ max_bytes

no_rotation :
    (max_bytes incoming : ℕ) (w : RotatingFileWriter)
    → 0 < max_bytes
    → max_bytes < 2 ^ 64 - 1
    → incoming ≤ max_bytes
    → IsBounded max_bytes w
    → should_rotate w incoming ≡ false
    → length (content w.log) + incoming ≤ max_bytes
unfolding should_rotate
no_rotation max_bytes incoming w p q i h e = ground (arith, h.limit, h.counted, h.bounded, e)

rotate_if_needed-HasRoom :
    (max_bytes incoming : ℕ) (w : RotatingFileWriter)
    → 0 < max_bytes
    → max_bytes < 2 ^ 64 - 1
    → incoming ≤ max_bytes
    → IsBounded max_bytes w
    → HasRoom max_bytes incoming (rotate_if_needed healthy incoming w)
unfolding rotate_if_needed
rotate_if_needed-HasRoom max_bytes incoming w p q i h =
    elim (Bool-cases (should_rotate w incoming)) [
      | inl e ↦ rw e (
          subst (λ v. HasRoom max_bytes incoming (warned (rotate healthy v)))
            (sym (same_writer w h.is_open))
            (subst (HasRoom max_bytes incoming)
              (sym
                (rotate-healthy w.max_bytes w.written w.rotation_warned (content w.log) w.backup))
              (record {
                fits = record {
                  is_open = record { in_place = refl; present = refl };
                  limit = h.limit;
                  counted = refl;
                  bounded = omega arith;
                };
                room = omega (arith, i);
              })))
      | inr e ↦ rw e (record { fits = h; room = no_rotation max_bytes incoming w p q i h e })
    ]

append-IsBounded :
    (max_bytes incoming : ℕ) (text : Text) (w : RotatingFileWriter)
    → max_bytes < 2 ^ 64 - 1
    → length text ≤ incoming
    → HasRoom max_bytes incoming w
    → IsBounded max_bytes
        (record (append text w) { written = saturating_add w.written (length text) })
append-IsBounded max_bytes incoming text w q i r =
    let size = length-append (content w.log) text in
    subst (λ u. IsBounded max_bytes (record u { written = saturating_add w.written (length text) }))
      (sym (append-longer text w r.fits.is_open.in_place))
      (record {
        is_open = record { in_place = r.fits.is_open.in_place; present = refl };
        limit = r.fits.limit;
        counted = omega (arith, size, r.fits.counted, r.room, i, q);
        bounded = omega (arith, size, r.room, i);
      })

write-IsBounded :
    (max_bytes : ℕ) (accepted : Option ℕ) (buf : Text) (w : RotatingFileWriter)
    → 0 < max_bytes
    → max_bytes < 2 ^ 64 - 1
    → length buf ≤ max_bytes
    → IsBounded max_bytes w
    → IsBounded max_bytes (write healthy accepted buf w)
unfolding write
write-IsBounded max_bytes none buf w p q i h =
    (rotate_if_needed-HasRoom max_bytes (length buf) w p q i h).fits
write-IsBounded max_bytes (some n) buf w p q i h =
    append-IsBounded max_bytes (length buf) (take n buf) _ q (omega (arith, length-take n buf))
      (rotate_if_needed-HasRoom max_bytes (length buf) w p q i h)

-- The write goes well but for what the file may not take of it.
abbrev pub GoesWell : ℕ → Write → Type 0
GoesWell max_bytes e = (e.faults ≡ healthy) × (length e.buf ≤ max_bytes)

-- Where rotations succeed and no record is longer than the limit: the log never gets longer than the
-- limit, and the writer knows its size, however much of each record the file takes. The limit is not 0
-- and below 2^64 - 1.
pub write_all-IsBounded :
    (es : List Write) (max_bytes : ℕ) (w : RotatingFileWriter)
    → 0 < max_bytes
    → max_bytes < 2 ^ 64 - 1
    → All (GoesWell max_bytes) es
    → IsBounded max_bytes w
    → IsBounded max_bytes (write_all es w)
unfolding write_all
write_all-IsBounded [] max_bytes w p q g h = h
write_all-IsBounded (e ∷ es) max_bytes w p q g h = write_all-IsBounded es max_bytes _ p q g.1 (
    subst (λ f. IsBounded max_bytes (write f e.accepted e.buf w)) (sym g.0.0)
      (write-IsBounded max_bytes e.accepted e.buf w p q g.0.1 h))
