-- ===== src/Base/Lines.antt =====
-- Texts in pieces: lines, words, prefixes, and joining.
use Prim.Native.Nat.{ℕ}
use mathlib.Core.Option.{Option, none, some}
use mathlib.Core.List.{List, [], ◌∷◌, ◌++◌}
use sshwarden.Base.Tests.{◌==◌, if◌then◌else◌}
use sshwarden.Base.Texts.{Text, is_whitespace}

-- `str::strip_prefix`, and `str::strip_suffix` with a character.
unfoldable pub strip_prefix : Text → Text → Option Text
strip_prefix [] s = some s
strip_prefix (c ∷ prefix) [] = none
strip_prefix (c ∷ prefix) (d ∷ s) =
    let rest = strip_prefix prefix s in if c == d then rest else none

unfoldable pub strip_last : ℕ → Text → Option Text
strip_last q [] = none
strip_last q (c ∷ []) = if c == q then some [] else none
strip_last q (c ∷ d ∷ s) = elim (strip_last q (d ∷ s)) [ none ↦ none | some rest ↦ some (c ∷ rest) ]

-- `str::rsplit_once`.
unfoldable pub rsplit_once : Text → Text → Option (Text × Text)
unfolding strip_prefix
rsplit_once separator [] = none
rsplit_once separator (c ∷ s) = elim (rsplit_once separator s) [
  | some parts ↦ some (c ∷ parts.0, parts.1)
  | none ↦ elim (strip_prefix separator (c ∷ s)) [ none ↦ none | some rest ↦ some ([], rest) ]
]

-- `str::replace` of one character.
unfoldable pub replace_char : ℕ → Text → Text → Text
replace_char q replacement [] = []
replace_char q replacement (c ∷ s) =
    let rest = replace_char q replacement s in if c == q then replacement ++ rest else c ∷ rest

-- The texts in order, with one character between them: `join`.
unfoldable pub join : ℕ → List Text → Text
join separator [] = []
join separator (x ∷ []) = x
join separator (x ∷ y ∷ ys) = x ++ separator ∷ join separator (y ∷ ys)

-- A line without the carriage return that stood before its line feed.
unfoldable pub chop_cr : Text → Text
chop_cr [] = []
chop_cr (c ∷ []) = if c == 13 then [] else c ∷ []
chop_cr (c ∷ d ∷ s) = c ∷ chop_cr (d ∷ s)

abbrev pub nonempty : Text → List Text
nonempty [] = []
nonempty (c ∷ s) = (c ∷ s) ∷ []

-- `str::lines` from inside a line of which `held` is read.
unfoldable pub lines_from : Text → Text → List Text
unfolding chop_cr
lines_from held [] = nonempty held
lines_from held (c ∷ s) =
    let ended = lines_from [] s in
    let longer = lines_from (held ++ c ∷ []) s in if c == 10 then chop_cr held ∷ ended else longer

unfoldable pub lines : Text → List Text
unfolding lines_from
lines s = lines_from [] s

-- `str::split_whitespace` from inside a word of which `held` is read.
unfoldable pub words_from : Text → Text → List Text
unfolding is_whitespace
words_from held [] = nonempty held
words_from held (c ∷ s) =
    let ended = words_from [] s in
    let longer = words_from (held ++ c ∷ []) s in
    if is_whitespace c then nonempty held ++ ended else longer

unfoldable pub split_whitespace : Text → List Text
unfolding words_from
split_whitespace s = words_from [] s

-- `push('\n')` on a text that is neither empty nor ends with a line feed.
unfoldable pub end_line : Text → Text
end_line [] = []
end_line (c ∷ []) = if c == 10 then c ∷ [] else c ∷ 10 ∷ []
end_line (c ∷ d ∷ s) = c ∷ end_line (d ∷ s)

unfoldable pub fold {ℓ κ} : {S : Type ℓ} {A : Type κ} → (S → A → S) → S → List A → S
fold step s [] = s
fold step s (l ∷ ls) = fold step (step s l) ls
