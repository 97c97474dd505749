-- ===== src/Base/Texts.antt =====
-- Text as a list of code points, with the parts of Rust's `str` that the program uses.
use Prim.Native.Char.{code}
use Prim.Native.Nat.{ℕ, ◌+◌}
use Prim.Native.String.{String}
use mathlib.Core.Path.{◌≡◌, refl, ap, ◌∙◌}
use mathlib.Core.Logic.{◌↔◌}
use mathlib.Core.Bool.{Bool, true, false, ◌&&◌, ◌||◌}
use mathlib.Core.List.{List, [], ◌∷◌, map}
use native.Mathlib.Omega.{arith}
use sshwarden.Base.Tests.{◌==◌, if◌then◌else◌, within}

abbrev pub Text : Type 0
Text = List ℕ

abbrev pub codes : String → Text
codes String.[] = []
codes (String.◌∷◌ c s) = code c ∷ codes s

-- `==` on `str`.
unfoldable pub text_eq : Text → Text → Bool
text_eq [] [] = true
text_eq (x ∷ a) (y ∷ b) = (x == y) && text_eq a b
text_eq _ _ = false

pub text_eq_iff : (a b : Text) → (text_eq a b ≡ true) ↔ (a ≡ b)
unfolding text_eq
text_eq_iff (x ∷ a) (y ∷ b) = ground (arith, text_eq_iff a b)
text_eq_iff _ _ = ground arith

pub text_eq_refl : (a : Text) → text_eq a a ≡ true
text_eq_refl a = (text_eq_iff a a).1 refl

-- `char::is_whitespace`: the code points with the Unicode property White_Space.
unfoldable pub is_whitespace : ℕ → Bool
is_whitespace c =
    within 9 13 c
    || c == 32
    || c == 0x85
    || c == 0xa0
    || c == 0x1680
    || within 0x2000 0x200a c
    || within 0x2028 0x2029 c
    || c == 0x202f
    || c == 0x205f
    || c == 0x3000

-- `char::is_control`: the general category Cc.
unfoldable pub is_control : ℕ → Bool
is_control c = within 0 31 c || within 127 159 c

unfoldable pub is_ascii_alphanumeric : ℕ → Bool
is_ascii_alphanumeric c = within b'0' b'9' c || within b'A' b'Z' c || within b'a' b'z' c

unfoldable pub to_ascii_lowercase : ℕ → ℕ
to_ascii_lowercase c = if within b'A' b'Z' c then c + 32 else c

-- `str::eq_ignore_ascii_case`.
unfoldable pub eq_ignore_ascii_case : Text → Text → Bool
unfolding text_eq to_ascii_lowercase
eq_ignore_ascii_case a b = text_eq (map to_ascii_lowercase a) (map to_ascii_lowercase b)

-- `trim_start_matches` and `trim_matches` with a test on characters; `str::trim` is the latter at
-- `is_whitespace`.
unfoldable pub trim_start_with : (ℕ → Bool) → Text → Text
trim_start_with p [] = []
trim_start_with p (c ∷ cs) = let rest = trim_start_with p cs in if p c then rest else c ∷ cs

-- `c` in front of what is left of the rest: dropped where nothing is left and `c` is trimmed.
unfoldable pub keep_end : (ℕ → Bool) → ℕ → Text → Text
keep_end p c [] = if p c then [] else c ∷ []
keep_end p c (d ∷ ds) = c ∷ d ∷ ds

unfoldable pub trim_end_with : (ℕ → Bool) → Text → Text
trim_end_with p [] = []
trim_end_with p (c ∷ cs) = keep_end p c (trim_end_with p cs)

unfoldable pub trim_with : (ℕ → Bool) → Text → Text
trim_with p s = trim_end_with p (trim_start_with p s)

unfoldable pub trim : Text → Text
trim s = trim_with is_whitespace s

pub eq_ignore_ascii_case_iff :
    (a b : Text)
    → (eq_ignore_ascii_case a b ≡ true) ↔ (map to_ascii_lowercase a ≡ map to_ascii_lowercase b)
unfolding eq_ignore_ascii_case
eq_ignore_ascii_case_iff a b = text_eq_iff (map to_ascii_lowercase a) (map to_ascii_lowercase b)

pub eq_ignore_ascii_case_refl : (a : Text) → eq_ignore_ascii_case a a ≡ true
eq_ignore_ascii_case_refl a = (eq_ignore_ascii_case_iff a a).1 refl

-- Trimming again changes nothing.
module _ (p : ℕ → Bool) where
  -- Nothing to trim at the start.
  abbrev pub StartsClean : Text → Type 0
  StartsClean [] = Unit
  StartsClean (c ∷ cs) = p c ≡ false

  trim_start_with-StartsClean : (s : Text) → StartsClean (trim_start_with p s)
  unfolding trim_start_with
  trim_start_with-StartsClean [] = tt
  trim_start_with-StartsClean (c ∷ cs) = ground (arith, trim_start_with-StartsClean cs)

  trim_start_with_clean : (s : Text) → StartsClean s → trim_start_with p s ≡ s
  unfolding trim_start_with
  trim_start_with_clean [] h = refl
  trim_start_with_clean (c ∷ cs) h = ground arith

  keep_end-StartsClean : (c : ℕ) (s : Text) → p c ≡ false → StartsClean (keep_end p c s)
  unfolding keep_end
  keep_end-StartsClean c [] h = ground arith
  keep_end-StartsClean c (d ∷ s) h = h

  trim_end_with-StartsClean : (s : Text) → StartsClean s → StartsClean (trim_end_with p s)
  trim_end_with-StartsClean [] h = unfold trim_end_with in tt
  trim_end_with-StartsClean (c ∷ cs) h =
      unfold trim_end_with in keep_end-StartsClean c (trim_end_with p cs) h

  keep_end-trim :
      (c : ℕ) (s : Text) → trim_end_with p s ≡ s → trim_end_with p (keep_end p c s) ≡ keep_end p c s
  unfolding trim_end_with keep_end
  keep_end-trim c [] h = ground arith
  keep_end-trim c (d ∷ s) h = rw h refl

  trim_end_with_idem : (s : Text) → trim_end_with p (trim_end_with p s) ≡ trim_end_with p s
  unfolding trim_end_with
  trim_end_with_idem [] = refl
  trim_end_with_idem (c ∷ cs) = keep_end-trim c (trim_end_with p cs) (trim_end_with_idem cs)

  pub trim_with_idem : (s : Text) → trim_with p (trim_with p s) ≡ trim_with p s
  trim_with_idem s =
      unfold trim_with in
      ap (trim_end_with p)
        (trim_start_with_clean _ (trim_end_with-StartsClean _ (trim_start_with-StartsClean s)))
      ∙ trim_end_with_idem (trim_start_with p s)

pub trim_idem : (s : Text) → trim (trim s) ≡ trim s
unfolding trim
trim_idem s = trim_with_idem is_whitespace s
