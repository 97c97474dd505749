-- ===== src/Base/Paths.antt =====
-- Paths of the platforms that are not Windows, as texts, with what the program uses of `Path`.
use mathlib.Core.Bool.{Bool, true, false}
use mathlib.Core.Option.{Option, none, some}
use mathlib.Core.List.{List, [], ◌∷◌, ◌++◌}
use sshwarden.Base.Tests.{◌==◌, if◌then◌else◌}
use sshwarden.Base.Texts.{Text}

unfoldable pub is_absolute : Text → Bool
is_absolute [] = false
is_absolute (c ∷ s) = c == b'/'

-- Whether `push` has to put a separator behind the path.
unfoldable pub needs_separator : Text → Bool
needs_separator [] = false
needs_separator (c ∷ []) = if c == b'/' then false else true
needs_separator (c ∷ d ∷ s) = needs_separator (d ∷ s)

-- `Path::join`.
unfoldable pub path_join : Text → Text → Text
unfolding is_absolute needs_separator
path_join base path =
    if is_absolute path
    then path
    else if needs_separator base
    then base ++ b'/' ∷ path
    else base ++ path

-- `Component`, and what `Path::components` gives for one piece between separators; only the first
-- piece of a relative path keeps its `.`.
pub data Component : Type 0 where
  root_dir cur_dir parent_dir : Component
  normal : Text → Component

unfoldable pub component : Bool → Text → List Component
component first [] = []
component first (c ∷ []) =
    if c == b'.' then (if first then cur_dir ∷ [] else []) else normal (c ∷ []) ∷ []
component first (c ∷ d ∷ []) =
    if c == b'.'
    then (if d == b'.' then parent_dir ∷ [] else normal (c ∷ d ∷ []) ∷ [])
    else normal (c ∷ d ∷ []) ∷ []
component first (c ∷ d ∷ e ∷ s) = normal (c ∷ d ∷ e ∷ s) ∷ []

unfoldable pub components_from : Bool → Text → Text → List Component
unfolding component
components_from first held [] = component first held
components_from first held (c ∷ s) =
    let ended = components_from false [] s in
    let longer = components_from first (held ++ c ∷ []) s in
    if c == b'/' then component first held ++ ended else longer

unfoldable pub components : Text → List Component
unfolding is_absolute components_from
components path =
    if is_absolute path
    then root_dir ∷ components_from false [] path
    else components_from true [] path

-- `Path::file_name`: the last component, where it is a name.
unfoldable pub last_name : List Component → Option Text
last_name [] = none
last_name (normal name ∷ []) = some name
last_name (root_dir ∷ []) = none
last_name (cur_dir ∷ []) = none
last_name (parent_dir ∷ []) = none
last_name (c ∷ d ∷ cs) = last_name (d ∷ cs)

unfoldable pub file_name : Text → Option Text
unfolding components last_name
file_name path = last_name (components path)
