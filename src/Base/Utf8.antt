-- ===== src/Base/Utf8.antt =====
-- UTF-8 well-formedness, as `String::from_utf8` checks it.
use Prim.Native.Nat.{ℕ}
use mathlib.Core.Bool.{Bool, true, false, ◌&&◌}
use mathlib.Core.Option.{Option, none, some}
use mathlib.Core.List.{List, [], ◌∷◌}
use sshwarden.Base.Tests.{◌==◌, if◌then◌else◌, within, leb}
use sshwarden.Base.Texts.{Text}

abbrev tail_byte : ℕ × ℕ
tail_byte = (0x80, 0xbf)

-- What a first byte allows in the bytes behind it; `none` for a byte that starts no character.
unfoldable pub utf8_lead : ℕ → Option (List (ℕ × ℕ))
utf8_lead b =
    if leb b 0x7f
    then some []
    else if within 0xc2 0xdf b
    then some (tail_byte ∷ [])
    else if b == 0xe0
    then some ((0xa0, 0xbf) ∷ tail_byte ∷ [])
    else if b == 0xed
    then some ((0x80, 0x9f) ∷ tail_byte ∷ [])
    else if within 0xe1 0xef b
    then some (tail_byte ∷ tail_byte ∷ [])
    else if b == 0xf0
    then some ((0x90, 0xbf) ∷ tail_byte ∷ tail_byte ∷ [])
    else if within 0xf1 0xf3 b
    then some (tail_byte ∷ tail_byte ∷ tail_byte ∷ [])
    else if b == 0xf4
    then some ((0x80, 0x8f) ∷ tail_byte ∷ tail_byte ∷ [])
    else none

-- The check behind a first byte: the ranges that the next bytes must lie in come first.
unfoldable pub utf8_from : List (ℕ × ℕ) → Text → Bool
utf8_from [] [] = true
utf8_from (r ∷ rs) [] = false
utf8_from [] (b ∷ bs) = elim (utf8_lead b) [ none ↦ false | some rs ↦ utf8_from rs bs ]
utf8_from ((lo, hi) ∷ rs) (b ∷ bs) = let later = utf8_from rs bs in within lo hi b && later

unfoldable pub is_utf8 : Text → Bool
unfolding utf8_from utf8_lead
is_utf8 s = utf8_from [] s
