-- ===== src/Naming/Shell.antt =====
-- src/shell.rs and src/commands/env.rs: values inside single quotes, and the lines that set the agent's
-- address in a shell. How a shell reads a word is `read_word`, as its language says.
mod Tests
use sshwarden.Base.{
  ℕ, ◌≡◌, refl, sym, ap, ==_iff, ◌∙◌, inl, inr, Bool, true, false, not, ◌||◌, List, [], ◌∷◌, ◌++◌,
  Option, none, some, arith, ◌==◌, if◌then◌else◌, within, any, Bool-cases, All, Text, codes,
  text_eq, replace_char,
}

unfoldable pub shell_single_quote : Text → Text
shell_single_quote value = replace_char 39 (39 ∷ b'\\' ∷ 39 ∷ 39 ∷ []) value

unfoldable pub powershell_single_quote : Text → Text
powershell_single_quote value = replace_char 39 (39 ∷ 39 ∷ []) value

pub data Syntax : Type 0 where
  posix fish powershell cmd : Syntax

unfoldable pub syntax_of : Text → Option Syntax
syntax_of shell =
    if any (text_eq shell) (codes "sh" ∷ codes "bash" ∷ codes "zsh" ∷ codes "posix" ∷ [])
    then some posix
    else if text_eq shell (codes "fish")
    then some fish
    else if any (text_eq shell) (codes "powershell" ∷ codes "pwsh" ∷ codes "ps" ∷ [])
    then some powershell
    else if text_eq shell (codes "cmd")
    then some cmd
    else none

-- The address as a word of the shell.
unfoldable pub word : Syntax → Text → Text
unfolding shell_single_quote powershell_single_quote
word posix endpoint = 39 ∷ (shell_single_quote endpoint ++ 39 ∷ [])
word fish endpoint = 39 ∷ (shell_single_quote endpoint ++ 39 ∷ [])
word powershell endpoint = 39 ∷ (powershell_single_quote endpoint ++ 39 ∷ [])
word cmd endpoint = endpoint

abbrev setting : Syntax → Text → Text → Text
setting posix name w = codes "export " ++ (name ++ (b'=' ∷ w))
setting fish name w = codes "set -gx " ++ (name ++ (32 ∷ (w ++ codes ";")))
setting powershell name w = codes "$env:" ++ (name ++ (codes " = " ++ w))
setting cmd name w = codes "set " ++ (name ++ (b'=' ∷ w))

-- The lines that are printed; nothing for a shell that is not supported.
unfoldable pub cmd_env : Text → Text → Option (List Text)
unfolding syntax_of word
cmd_env shell endpoint = elim (syntax_of shell) [
  | none ↦ none
  | some s ↦ some (
      setting s (codes "SSH_AUTH_SOCK") (word s endpoint)
      ∷ setting s (codes "SSHWARDEN_SSH_AUTH_SOCK") (word s endpoint)
      ∷ [])
]

-- Where a reader is: outside of quotes, inside, or behind a backslash; in PowerShell, behind a quote that
-- may end the text.
pub data Mode : Type 0 where
  plain quoted escaped quoted_escaped after_quote : Mode

abbrev put : ℕ → Option Text → Option Text
put c o = elim o [ none ↦ none | some s ↦ some (c ∷ s) ]

-- A backslash counts outside of single quotes only.
unfoldable pub read_posix : Mode → Text → Option Text
read_posix plain [] = some []
read_posix m [] = none
read_posix quoted (c ∷ s) =
    let ended = read_posix plain s in
    let more = read_posix quoted s in if c == 39 then ended else put c more
read_posix escaped (c ∷ s) = put c (read_posix plain s)
read_posix m (c ∷ s) =
    let inside = read_posix quoted s in
    let behind = read_posix escaped s in
    let more = read_posix plain s in
    if c == 39 then inside else if c == b'\\' then behind else put c more

-- Inside single quotes of fish a backslash before a quote or a backslash stands for that character.
unfoldable pub read_fish : Mode → Text → Option Text
read_fish plain [] = some []
read_fish m [] = none
read_fish quoted (c ∷ s) =
    let ended = read_fish plain s in
    let behind = read_fish quoted_escaped s in
    let more = read_fish quoted s in
    if c == 39 then ended else if c == b'\\' then behind else put c more
read_fish quoted_escaped (c ∷ s) =
    let more = read_fish quoted s in
    if c == 39 || c == b'\\' then put c more else put b'\\' (put c more)
read_fish escaped (c ∷ s) = put c (read_fish plain s)
read_fish m (c ∷ s) =
    let inside = read_fish quoted s in
    let behind = read_fish escaped s in
    let more = read_fish plain s in
    if c == 39 then inside else if c == b'\\' then behind else put c more

-- The typographic quotes from U+2018 to U+201B count as single quotes too, and two quotes for one.
unfoldable pub is_quote : ℕ → Bool
is_quote c = c == 39 || within 0x2018 0x201b c

unfoldable pub read_powershell : Mode → Text → Option Text
unfolding is_quote
read_powershell after_quote [] = some []
read_powershell m [] = none
read_powershell after_quote (c ∷ s) =
    let more = read_powershell quoted s in if is_quote c then put c more else none
read_powershell quoted (c ∷ s) =
    let ended = read_powershell after_quote s in
    let more = read_powershell quoted s in if is_quote c then ended else put c more
read_powershell m (c ∷ s) =
    let inside = read_powershell quoted s in if is_quote c then inside else none

unfoldable pub read_word : Syntax → Text → Option Text
unfolding read_posix read_fish read_powershell
read_word posix s = read_posix plain s
read_word fish s = read_fish plain s
read_word powershell s = read_powershell plain s
read_word cmd s = some s

-- What the quoting does not care for.
abbrev pub Plain : Syntax → ℕ → Type 0
Plain fish c = (c == b'\\') ≡ false
Plain powershell c = within 0x2018 0x201b c ≡ false
Plain posix c = Unit
Plain cmd c = Unit

-- A quote inside is closed, written and opened again.
posix_quote :
    (v s : Text)
    → read_posix quoted s ≡ some v
    → read_posix quoted (39 ∷ b'\\' ∷ 39 ∷ 39 ∷ s) ≡ some (39 ∷ v)
unfolding read_posix
posix_quote v s e = ap (put 39) e

fish_quote :
    (v s : Text)
    → read_fish quoted s ≡ some v
    → read_fish quoted (39 ∷ b'\\' ∷ 39 ∷ 39 ∷ s) ≡ some (39 ∷ v)
unfolding read_fish
fish_quote v s e = ap (put 39) e

powershell_quote :
    (v s : Text)
    → read_powershell quoted s ≡ some v
    → read_powershell quoted (39 ∷ 39 ∷ s) ≡ some (39 ∷ v)
unfolding read_powershell
powershell_quote v s e = ap (put 39) e

posix_inside : (v : Text) → read_posix quoted (shell_single_quote v ++ 39 ∷ []) ≡ some v
unfolding shell_single_quote replace_char read_posix
posix_inside [] = unfold read_posix in refl
posix_inside (c ∷ v) = elim (Bool-cases (c == 39)) [
  | inl e ↦
      rw e (posix_quote v (shell_single_quote v ++ 39 ∷ []) (posix_inside v))
      ∙ ap (λ d. some (d ∷ v)) (sym ((==_iff c 39).0 e))
  | inr e ↦ rw e (rw (read_posix, e, posix_inside v) refl)
]

fish_inside :
    (v : Text) → All (Plain fish) v → read_fish quoted (shell_single_quote v ++ 39 ∷ []) ≡ some v
unfolding shell_single_quote replace_char read_fish
fish_inside [] h = unfold read_fish in refl
fish_inside (c ∷ v) h = elim (Bool-cases (c == 39)) [
  | inl e ↦
      rw e (fish_quote v (shell_single_quote v ++ 39 ∷ []) (fish_inside v h.1))
      ∙ ap (λ d. some (d ∷ v)) (sym ((==_iff c 39).0 e))
  | inr e ↦ rw e (rw (read_fish, e, h.0, fish_inside v h.1) refl)
]

powershell_inside :
    (v : Text)
    → All (Plain powershell) v
    → read_powershell quoted (powershell_single_quote v ++ 39 ∷ []) ≡ some v
unfolding powershell_single_quote replace_char read_powershell
powershell_inside [] h = unfold read_powershell in refl
powershell_inside (c ∷ v) h = elim (Bool-cases (c == 39)) [
  | inl e ↦
      rw e (powershell_quote v (powershell_single_quote v ++ 39 ∷ []) (powershell_inside v h.1))
      ∙ ap (λ d. some (d ∷ v)) (sym ((==_iff c 39).0 e))
  | inr e ↦ rw e (rw (read_powershell, e, h.0, powershell_inside v h.1) refl)
]

-- Whatever the address is, a shell reads the word that is printed for it as that address: sh and its kin
-- for every address, fish where it has no backslash, PowerShell where it has no typographic quote.
pub read_word-word :
    (s : Syntax) (endpoint : Text)
    → All (Plain s) endpoint
    → read_word s (word s endpoint) ≡ some endpoint
unfolding read_word word
read_word-word posix endpoint h = posix_inside endpoint
read_word-word fish endpoint h = fish_inside endpoint h
read_word-word powershell endpoint h = powershell_inside endpoint h
read_word-word cmd endpoint h = refl
