-- ===== src/Naming/Shell/Tests.antt =====
-- Addresses in shells.
use sshwarden.Base.{◌≡◌, refl, [], ◌∷◌, some, none, any, replace_char, text_eq, codes}
use sshwarden.Naming.Shell.{posix, fish, powershell, word, cmd_env, read_word, read_word-word}

quotes_quote : word posix (codes "/tmp/it's") ≡ codes "'/tmp/it'\\''s'"
unfolding word replace_char
quotes_quote = refl

prints_fish :
    cmd_env (codes "fish") (codes "/a")
    ≡ some
        (codes "set -gx SSH_AUTH_SOCK '/a';" ∷ codes "set -gx SSHWARDEN_SSH_AUTH_SOCK '/a';" ∷ [])
unfolding cmd_env word any text_eq replace_char
prints_fish = refl

unsupported : cmd_env (codes "tcsh") (codes "/a") ≡ none
unfolding cmd_env any text_eq
unsupported = refl

-- In fish one backslash of two is lost.
loses_backslash : read_word fish (word fish (codes "a\\\\b")) ≡ some (codes "a\\b")
unfolding read_word word replace_char
loses_backslash = refl

-- In PowerShell a typographic quote ends the text.
ends_at_quote : read_word powershell (word powershell (codes "O’Brien")) ≡ none
unfolding read_word word replace_char
ends_at_quote = refl

read_word-word_example :
    read_word powershell (word powershell (codes "/tmp/it's")) ≡ some (codes "/tmp/it's")
read_word-word_example =
    read_word-word powershell (codes "/tmp/it's")
      (refl, (refl, (refl, (refl, (refl, (refl, (refl, (refl, (refl, tt)))))))))
