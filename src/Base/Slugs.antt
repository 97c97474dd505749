-- ===== src/Base/Slugs.antt =====
-- Names made of allowed characters and single dashes.
use Prim.Native.Nat.{ℕ}
use mathlib.Core.Path.{◌≡◌}
use mathlib.Core.Bool.{Bool, true, false, ◌||◌}
use mathlib.Core.List.{[], ◌∷◌}
use native.Mathlib.Omega.{arith}
use sshwarden.Base.Tests.{◌==◌, if◌then◌else◌}
use sshwarden.Base.Lists.{All}
use sshwarden.Base.Texts.{Text, trim_start_with, trim_end_with, keep_end, trim_with}

-- The loop that keeps the allowed characters and puts one `-` in place of a run of others.
unfoldable pub dash_runs : (ℕ → Bool) → Bool → Text → Text
dash_runs allowed last_dash [] = []
dash_runs allowed last_dash (c ∷ s) =
    let kept = dash_runs allowed false s in
    let dashed = dash_runs allowed true s in
    if allowed c then c ∷ kept else if last_dash then dashed else b'-' ∷ dashed

module _ (allowed : ℕ → Bool) where
  -- One of the characters of such a name.
  abbrev pub Slug : ℕ → Type 0
  Slug c = (allowed c || c == b'-') ≡ true

  pub dash_runs-Slug : (last_dash : Bool) (s : Text) → All Slug (dash_runs allowed last_dash s)
  unfolding dash_runs
  dash_runs-Slug last_dash [] = tt
  dash_runs-Slug last_dash (c ∷ s) = ground (arith, dash_runs-Slug false s, dash_runs-Slug true s)

module _ {ℓ} (P : ℕ → Type ℓ) (p : ℕ → Bool) where
  trim_start_with-All : (s : Text) → All P s → All P (trim_start_with p s)
  unfolding trim_start_with
  trim_start_with-All [] h = tt
  trim_start_with-All (c ∷ s) h = ground (arith, trim_start_with-All s h.1)

  keep_end-All : (c : ℕ) (s : Text) → P c → All P s → All P (keep_end p c s)
  unfolding keep_end
  keep_end-All c [] k h = ground arith
  keep_end-All c (d ∷ s) k h = (k, h)

  trim_end_with-All : (s : Text) → All P s → All P (trim_end_with p s)
  unfolding trim_end_with
  trim_end_with-All [] h = tt
  trim_end_with-All (c ∷ s) h = keep_end-All c _ h.0 (trim_end_with-All s h.1)

  pub trim_with-All : (s : Text) → All P s → All P (trim_with p s)
  unfolding trim_with
  trim_with-All s h = trim_end_with-All _ (trim_start_with-All s h)
