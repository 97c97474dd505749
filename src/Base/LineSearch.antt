-- ===== src/Base/LineSearch.antt =====
-- Searches for a line of a text.
use mathlib.Core.Path.{◌≡◌, sym, ap, ◌∙◌}
use mathlib.Core.Bool.{Bool, false, ◌||◌}
use mathlib.Core.List.{List, [], ◌∷◌, ◌++◌}
use native.Mathlib.Omega.{arith}
use sshwarden.Base.Lists.{All, any}
use sshwarden.Base.Texts.{Text}
use sshwarden.Base.Lines.{chop_cr, lines, join, end_line, fold}
use sshwarden.Base.LineLoops.{OneLine, fold-end_line, fold-join, fold-behind}

-- A search for a line.
pub any-fold {ℓ} :
    {A : Type ℓ} (p : A → Bool) (b : Bool) (xs : List A)
    → fold (λ found x. found || p x) b xs ≡ (b || any p xs)
unfolding fold any
any-fold p b [] = ground arith
any-fold p b (x ∷ xs) = ground (arith, any-fold p (b || p x) xs)

module _ (p : Text → Bool) (sees_trimmed : (l : Text) → p (chop_cr l) ≡ p l)
    (skips_blank : p [] ≡ false) where
  abbrev search : Bool → Text → Bool
  search found l = found || p l

  search_trimmed : (b : Bool) (l : Text) → search b (chop_cr l) ≡ search b l
  search_trimmed b l = ground (arith, sees_trimmed l)

  search_blank : (b : Bool) → search b [] ≡ b
  search_blank b = ground (arith, skips_blank)

  pub any-join :
      (ls : List Text) → All OneLine ls → any p (lines (end_line (join 10 ls))) ≡ any p ls
  any-join ls h =
      sym (any-fold p false _)
      ∙ fold-end_line search search_trimmed search_blank (join 10 ls) false
      ∙ fold-join search search_trimmed search_blank ls false h
      ∙ any-fold p false ls

  pub any-end_line : (s : Text) → any p (lines (end_line s)) ≡ any p (lines s)
  any-end_line s =
      sym (any-fold p false _)
      ∙ fold-end_line search search_trimmed search_blank s false
      ∙ any-fold p false _

  pub any-behind : (x t : Text) → any p (lines (x ++ 10 ∷ t)) ≡ (any p (lines x) || any p (lines t))
  any-behind x t =
      sym (any-fold p false _)
      ∙ fold-behind search search_trimmed search_blank x t false
      ∙ any-fold p _ (lines t)
      ∙ ap (λ b. b || any p (lines t)) (any-fold p false (lines x))
