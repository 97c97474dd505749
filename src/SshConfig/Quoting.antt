-- ===== src/SshConfig/Quoting.antt =====
-- The quoting of one argument, read back.
use sshwarden.Base.{
  append-one, ◌≡◌, refl, inl, inr, Bool, true, false, ◌||◌, [], ◌∷◌, ◌++◌, Option, none, some, ◌==◌,
  if◌then◌else◌, Bool-cases, ==_iff, Text,
}
use sshwarden.SshConfig.{escape_char, escape, quote_ssh_config_arg}

abbrev push_read : Text → Option (Text × Text) → Option (Text × Text)
push_read before none = none
push_read before (some r) = some (before ++ r.0, r.1)

-- A reader of the rest of a quoted argument: a backslash in front of a quote or a backslash stands for
-- what follows it, and the argument ends at the next quote. `escaped` says that a backslash was read.
unfoldable pub unescape : Bool → Text → Option (Text × Text)
unescape escaped [] = none
unescape true (c ∷ s) =
    let rest = unescape false s in
    if c == b'"' || c == b'\\' then push_read (c ∷ []) rest else push_read (b'\\' ∷ c ∷ []) rest
unescape false (c ∷ s) =
    let rest = unescape false s in
    let next = unescape true s in
    if c == b'"' then some ([], s) else if c == b'\\' then next else push_read (c ∷ []) rest

unfoldable pub read_quoted : Text → Option (Text × Text)
unfolding unescape
read_quoted [] = none
read_quoted (c ∷ s) = if c == b'"' then unescape false s else none

unescape-escape :
    (value rest : Text) → unescape false (escape value ++ b'"' ∷ rest) ≡ some (value, rest)
unfolding unescape escape
unescape-escape [] rest = refl
unescape-escape (c ∷ value) rest = elim (Bool-cases (c == b'"')) [
  | inl e ↦ rw (escape_char, e) (rw ((==_iff c b'"').0 e, unescape-escape value rest) refl)
  | inr e ↦ elim (Bool-cases (c == b'\\')) [
    | inl f ↦ rw (escape_char, e, f) (rw (unescape-escape value rest, (==_iff c b'\\').0 f) refl)
    | inr f ↦ rw (escape_char, e, f) (rw (e, f, unescape-escape value rest) refl)
  ]
]

-- Whatever the value is, a reader for which a backslash in front of a quote or a backslash stands for
-- what follows it reads the quoted argument as that value, and goes on behind it.
pub read_quoted-quote :
    (value rest : Text) → read_quoted (quote_ssh_config_arg value ++ rest) ≡ some (value, rest)
unfolding read_quoted quote_ssh_config_arg
read_quoted-quote value rest = rw (append-one (escape value) b'"' rest) (unescape-escape value rest)
