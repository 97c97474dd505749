-- ===== src/Config/Segments.antt =====
-- The names of directories made from a device's id or a directory's name.
use sshwarden.Base.{
  ℕ, ◌≡◌, refl, ap, ◌∙◌, append-nil, append-one, inl, inr, Bool, true, false, ◌||◌, [], ◌∷◌, ◌++◌,
  arith, ◌==◌, if◌then◌else◌, Bool-cases, All, Text, codes, trim, trim_with, is_ascii_alphanumeric,
  all, flat_map, dash_runs, Slug, dash_runs-Slug, trim_with-All, component, components_from,
  components, is_absolute, normal,
}
use sshwarden.Bindings.{is_empty}

-- The characters that are kept.
unfoldable pub is_segment_char : ℕ → Bool
is_segment_char c = is_ascii_alphanumeric c || c == b'_' || c == b'.'

unfoldable pub is_dots : Text → Bool
is_dots s = all (λ c. c == b'.') s

-- A name that is empty or only dots is replaced.
unfoldable pub or_device : Text → Text
unfolding is_dots
or_device sanitized = if is_empty sanitized || is_dots sanitized then codes "device" else sanitized

-- `lowercase` is `char::to_lowercase`, which may give more than one character.
module _ (lowercase : ℕ → Text) where
  unfoldable pub sanitize_path_segment : Text → Bool → Text
  unfolding or_device is_segment_char
  sanitize_path_segment value lower =
      let chars = if lower then flat_map lowercase (trim value) else trim value in
      or_device (trim_with (λ c. c == b'-') (dash_runs is_segment_char false chars))

  unfoldable pub sanitize_device_id : Text → Text
  unfolding sanitize_path_segment
  sanitize_device_id value = sanitize_path_segment value true

  unfoldable pub sanitize_instance_name : Text → Text
  unfolding sanitize_path_segment
  sanitize_instance_name value = sanitize_path_segment value false

-- A path that is one name: no separator, and neither `.` nor `..`.
abbrev pub IsSegment : Text → Type 0
IsSegment s = components s ≡ normal s ∷ []

component-IsSegment :
    (s : Text) → (is_empty s || is_dots s) ≡ false → component true s ≡ normal s ∷ []
unfolding component is_dots all
component-IsSegment [] h = ground arith
component-IsSegment (c ∷ []) h = ground arith
component-IsSegment (c ∷ d ∷ []) h = ground arith
component-IsSegment (c ∷ d ∷ e ∷ s) h = refl

slash_not_Slug : (c : ℕ) → Slug is_segment_char c → (c == b'/') ≡ false
unfolding is_segment_char is_ascii_alphanumeric
slash_not_Slug c h = ground (arith, h)

components_from_name :
    (held s : Text)
    → All (Slug is_segment_char) s
    → components_from true held s ≡ component true (held ++ s)
unfolding components_from
components_from_name held [] h = rw append-nil refl
components_from_name held (c ∷ s) h =
    rw (slash_not_Slug c h.0)
      (components_from_name (held ++ c ∷ []) s h.1 ∙ ap (component true) (append-one held c s))

name-IsSegment :
    (s : Text) → All (Slug is_segment_char) s → (is_empty s || is_dots s) ≡ false → IsSegment s
unfolding components is_absolute
name-IsSegment [] h k = ground arith
name-IsSegment (c ∷ s) h k =
    rw (slash_not_Slug c h.0) (components_from_name (c ∷ []) s h.1 ∙ component-IsSegment (c ∷ s) k)

or_device-IsSegment : (s : Text) → All (Slug is_segment_char) s → IsSegment (or_device s)
unfolding or_device
or_device-IsSegment s h = elim (Bool-cases (is_empty s || is_dots s)) [
  | inl e ↦ rw e (unfold components in refl)
  | inr e ↦ rw e (name-IsSegment s h e)
]

-- Whatever a device or a directory is called, and however its letters are lowered, the name made of
-- it is one name of a path.
pub sanitize_path_segment-IsSegment :
    (lowercase : ℕ → Text) (value : Text) (lower : Bool)
    → IsSegment (sanitize_path_segment lowercase value lower)
unfolding sanitize_path_segment
sanitize_path_segment-IsSegment lowercase value lower =
    or_device-IsSegment _
      (trim_with-All (Slug is_segment_char) _ _ (dash_runs-Slug is_segment_char false _))
