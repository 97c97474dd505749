-- ===== src/Base/LineLoops.antt =====
-- Loops over the lines of a text.
use mathlib.Core.Path.{◌≡◌, refl, sym, ap, ◌∙◌}
use mathlib.Core.Logic.{inl, inr}
use mathlib.Core.Bool.{false}
use mathlib.Core.List.{List, [], ◌∷◌, ◌++◌}
use native.Mathlib.Omega.{arith}
use sshwarden.Base.Tests.{◌==◌, Bool-cases, ==_iff}
use sshwarden.Base.Lists.{All, All-append}
use sshwarden.Base.Texts.{
  Text, is_whitespace, trim, trim_with, trim_start_with, trim_end_with, keep_end,
}
use sshwarden.Base.Lines.{chop_cr, nonempty, lines_from, lines, join, end_line, fold}

pub append-nil {ℓ} : {A : Type ℓ} (xs : List A) → xs ++ [] ≡ xs
append-nil [] = refl
append-nil (x ∷ xs) = ap (◌∷◌ x) (append-nil xs)

pub append-one {ℓ} :
    {A : Type ℓ} (xs : List A) (y : A) (zs : List A) → (xs ++ y ∷ []) ++ zs ≡ xs ++ y ∷ zs
append-one [] y zs = refl
append-one (x ∷ xs) y zs = ap (◌∷◌ x) (append-one xs y zs)

-- A text of one line, and one without white space.
abbrev pub OneLine : Text → Type 0
OneLine s = All (λ c. (c == 10) ≡ false) s

abbrev pub OneWord : Text → Type 0
OneWord s = All (λ c. is_whitespace c ≡ false) s

lines_from-line :
    (held x s : Text) → OneLine x → lines_from held (x ++ 10 ∷ s) ≡ chop_cr (held ++ x) ∷ lines s
unfolding lines_from lines
lines_from-line held [] s h = rw append-nil refl
lines_from-line held (c ∷ x) s h =
    rw h.0 (
      lines_from-line (held ++ c ∷ []) x s h.1
      ∙ ap (λ t. chop_cr t ∷ lines s) (append-one held c x))

pub lines-line : (x s : Text) → OneLine x → lines (x ++ 10 ∷ s) ≡ chop_cr x ∷ lines s
unfolding lines
lines-line x s h = lines_from-line [] x s h

lines_from-end : (held x : Text) → OneLine x → lines_from held x ≡ nonempty (held ++ x)
unfolding lines_from
lines_from-end held [] h = rw append-nil refl
lines_from-end held (c ∷ x) h =
    rw h.0 (lines_from-end (held ++ c ∷ []) x h.1 ∙ ap nonempty (append-one held c x))

pub lines-one : (x : Text) → OneLine x → lines x ≡ nonempty x
unfolding lines
lines-one x h = lines_from-end [] x h

-- What a line is once it is trimmed does not depend on a carriage return at its end.
trim_end_with-chop_cr :
    (s : Text) → trim_end_with is_whitespace (chop_cr s) ≡ trim_end_with is_whitespace s
unfolding trim_end_with chop_cr keep_end is_whitespace
trim_end_with-chop_cr [] = refl
trim_end_with-chop_cr (c ∷ []) = elim (Bool-cases (c == 13)) [
  | inl e ↦ rw (e, (==_iff c 13).0 e) refl
  | inr e ↦ rw e refl
]
trim_end_with-chop_cr (c ∷ d ∷ s) = ap (keep_end is_whitespace c) (trim_end_with-chop_cr (d ∷ s))

trim_start_with-chop_cr :
    (s : Text)
    → trim_start_with is_whitespace (chop_cr s) ≡ chop_cr (trim_start_with is_whitespace s)
unfolding trim_start_with chop_cr
trim_start_with-chop_cr [] = refl
trim_start_with-chop_cr (c ∷ []) = ground arith
trim_start_with-chop_cr (c ∷ d ∷ s) = ground (arith, trim_start_with-chop_cr (d ∷ s))

pub trim-chop_cr : (s : Text) → trim (chop_cr s) ≡ trim s
unfolding trim trim_with
trim-chop_cr s =
    ap (trim_end_with is_whitespace) (trim_start_with-chop_cr s)
    ∙ trim_end_with-chop_cr (trim_start_with is_whitespace s)

pub fold-append {ℓ κ} :
    {S : Type ℓ} {A : Type κ} (step : S → A → S) (s : S) (xs ys : List A)
    → fold step s (xs ++ ys) ≡ fold step (fold step s xs) ys
unfolding fold
fold-append step s [] ys = refl
fold-append step s (x ∷ xs) ys = fold-append step (step s x) xs ys

-- A loop over the lines of a text whose rounds see a line only as it is trimmed, and do nothing at an
-- empty one.
module _ {ℓ} {S : Type ℓ} (step : S → Text → S)
    (sees_trimmed : (s : S) (l : Text) → step s (chop_cr l) ≡ step s l)
    (skips_blank : (s : S) → step s [] ≡ s) where
  fold-nonempty : (s : S) (l : Text) → fold step s (nonempty l) ≡ step s l
  unfolding fold
  fold-nonempty s [] = sym (skips_blank s)
  fold-nonempty s (c ∷ l) = refl

  fold-end_line_from :
      (t held : Text) (s : S)
      → fold step s (lines_from held (end_line t)) ≡ fold step s (lines_from held t)
  unfolding fold lines_from end_line
  fold-end_line_from [] held s = refl
  fold-end_line_from (c ∷ []) held s = elim (Bool-cases (c == 10)) [
    | inl e ↦ rw (e, e) refl
    | inr e ↦ rw (e, e) (sees_trimmed s (held ++ c ∷ []) ∙ sym (fold-nonempty s (held ++ c ∷ [])))
  ]
  fold-end_line_from (c ∷ d ∷ t) held s = elim (Bool-cases (c == 10)) [
    | inl e ↦ rw e (fold-end_line_from (d ∷ t) [] (step s (chop_cr held)))
    | inr e ↦ rw e (fold-end_line_from (d ∷ t) (held ++ c ∷ []) s)
  ]

  pub fold-end_line : (t : Text) (s : S) → fold step s (lines (end_line t)) ≡ fold step s (lines t)
  unfolding lines
  fold-end_line t s = fold-end_line_from t [] s

  pub fold-line :
      (x t : Text) (s : S)
      → OneLine x
      → fold step s (lines (x ++ 10 ∷ t)) ≡ fold step (step s x) (lines t)
  unfolding fold lines
  fold-line x t s h =
      ap (fold step s) (lines-line x t h) ∙ ap (λ s'. fold step s' (lines t)) (sees_trimmed s x)

  pub fold-join :
      (ls : List Text) (s : S) → All OneLine ls → fold step s (lines (join 10 ls)) ≡ fold step s ls
  unfolding fold lines join
  fold-join [] s h = refl
  fold-join (x ∷ []) s h = rw (lines_from-end [] x h.0) (fold-nonempty s x)
  fold-join (x ∷ y ∷ ls) s h =
      fold-line x (join 10 (y ∷ ls)) s h.0 ∙ fold-join (y ∷ ls) (step s x) h.1

  -- What stands behind a line feed is read after what stands before it.
  fold-behind_from :
      (x held t : Text) (s : S)
      → fold step s (lines_from held (x ++ 10 ∷ t))
        ≡ fold step (fold step s (lines_from held x)) (lines t)
  unfolding fold lines_from lines
  fold-behind_from [] held t s =
      ap (λ s'. fold step s' (lines t)) (sees_trimmed s held ∙ sym (fold-nonempty s held))
  fold-behind_from (c ∷ x) held t s = elim (Bool-cases (c == 10)) [
    | inl e ↦ rw e (fold-behind_from x [] t (step s (chop_cr held)))
    | inr e ↦ rw e (fold-behind_from x (held ++ c ∷ []) t s)
  ]

  pub fold-behind :
      (x t : Text) (s : S)
      → fold step s (lines (x ++ 10 ∷ t)) ≡ fold step (fold step s (lines x)) (lines t)
  unfolding lines
  fold-behind x t s = fold-behind_from x [] t s

-- The lines of a text are lines.
chop_cr-OneLine : (s : Text) → OneLine s → OneLine (chop_cr s)
unfolding chop_cr
chop_cr-OneLine [] h = tt
chop_cr-OneLine (c ∷ []) h = elim (Bool-cases (c == 13)) [ inl e ↦ rw e tt | inr e ↦ rw e h ]
chop_cr-OneLine (c ∷ d ∷ s) h = (h.0, chop_cr-OneLine (d ∷ s) h.1)

lines_from-OneLine : (held s : Text) → OneLine held → All OneLine (lines_from held s)
unfolding lines_from
lines_from-OneLine [] [] h = tt
lines_from-OneLine (d ∷ held) [] h = (h, tt)
lines_from-OneLine held (c ∷ s) h = elim (Bool-cases (c == 10)) [
  | inl e ↦ rw e (chop_cr-OneLine held h, lines_from-OneLine [] s tt)
  | inr e ↦ rw e (lines_from-OneLine (held ++ c ∷ []) s (All-append _ held (c ∷ []) h (e, tt)))
]

pub lines-OneLine : (s : Text) → All OneLine (lines s)
unfolding lines
lines-OneLine s = lines_from-OneLine [] s tt
