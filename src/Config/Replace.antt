-- ===== src/Config/Replace.antt =====
-- `write_owner_only_file` in crates/sshwarden-config/src/lib.rs, which HostBindingsFile::save_to in
-- crates/sshwarden-config/src/bindings.rs repeats: a file is replaced through a temporary one. Three
-- files take part; what the system refuses is the record `Faults`. A replacement gives its outcome and
-- the states of the disk after each of its steps, the last one first: the program may be stopped in
-- any of them. An attempt to rename that fails leaves the disk as it was.
use mathlib.Core.Path.{Path}
use sshwarden.Base.{
  ◌≡◌, refl, sym, ◌∙◌, ◌⊎◌, inl, inr, Bool, true, false, List, [], ◌∷◌, Option, none, some,
  if◌then◌else◌, if-cases, All, Text, Result, ok, err,
}

pub record Disk : Type 0 where
  pub target : Option Text
  pub temporary : Option Text
  pub backup : Option Text

pub record Faults : Type 0 where
  -- what a write that fails leaves behind
  pub broken_write : Option Text
  pub creates_directory : Bool
  pub sets_permissions : Bool
  pub renames : Bool
  pub removes_old_backup : Bool
  pub backs_up : Bool
  pub promotes : Bool
  pub restores : Bool
  pub removes_backup : Bool

pub data ReplaceError : Type 0 where
  not_created not_written not_permitted not_renamed not_backed_up not_replaced : ReplaceError

abbrev pub Replacement : Type 0
Replacement = Result ReplaceError (Unit {0}) × List Disk

-- The way over a backup, once the first rename has failed with `old` in its way.
unfoldable pub promote_over : Text → Faults → Text → Disk → Replacement
promote_over content t old d =
    let removed = record d { backup = if t.removes_old_backup then none else d.backup } in
    let moved = record removed { target = none; backup = some old } in
    let promoted = record moved { target = some content; temporary = none } in
    let cleaned = record promoted { backup = if t.removes_backup then none else some old } in
    let restored = record moved { target = some old; backup = none } in
    if t.backs_up
    then (if t.promotes then (ok tt, cleaned ∷ promoted ∷ moved ∷ removed ∷ d ∷ []) else (
      err not_replaced,
      (if t.restores then restored else moved) ∷ moved ∷ removed ∷ d ∷ [],
    ))
    else (err not_backed_up, removed ∷ d ∷ [])

-- The promotion of the temporary file.
unfoldable pub promote : Text → Faults → Disk → Replacement
unfolding promote_over
promote content t d =
    if t.renames
    then (ok tt, record d { target = some content; temporary = none } ∷ d ∷ [])
    else elim d.target [
      | none ↦ (err not_renamed, d ∷ [])
      | some old ↦ promote_over content t old d
    ]

unfoldable pub write_owner_only_file : Text → Faults → Disk → Replacement
unfolding promote
write_owner_only_file content t d = elim t.broken_write [
  | some junk ↦ (err not_written, record d { temporary = some junk } ∷ [])
  | none ↦
      let written = record d { temporary = some content } in
      if t.sets_permissions then promote content t written else (err not_permitted, written ∷ [])
]

unfoldable pub save_to : Text → Faults → Disk → Replacement
unfolding write_owner_only_file
save_to content t d =
    if t.creates_directory
    then write_owner_only_file content (record t { sets_permissions = true }) d
    else (err not_created, [])

module _ (content : Text) (before : Option Text) where
  -- The file holds its old text or the new one, or is missing while the backup holds the old text.
  abbrev pub Whole : Disk → Type 0
  Whole d =
      (d.target ≡ before) ⊎ (d.target ≡ some content) ⊎ (d.target ≡ none) × (d.backup ≡ before)

  abbrev Ends : Replacement → Type 0
  Ends (ok done, []) = Path Bool true false
  Ends (ok done, d ∷ ds) = d.target ≡ some content
  Ends (err e, ds) = Unit

  -- Every state is whole, and a success ends with the new text.
  abbrev pub IsSafe : Replacement → Type 0
  IsSafe r = All Whole r.1 × Ends r

  promote_over-IsSafe :
      (t : Faults) (old : Text) (d : Disk)
      → before ≡ some old
      → d.target ≡ before
      → IsSafe (promote_over content t old d)
  unfolding promote_over
  promote_over-IsSafe t old d b e =
      if-cases IsSafe t.backs_up
        (λ f.
          if-cases IsSafe t.promotes
            (λ g. (
              (inr (inl refl), (inr (inl refl), (inr (inr (refl, sym b)), (inl e, (inl e, tt))))),
              refl,
            ))
            (λ g. (
              (
                if-cases Whole t.restores (λ r. inl (sym b)) (λ r. inr (inr (refl, sym b))),
                (inr (inr (refl, sym b)), (inl e, (inl e, tt))),
              ),
              tt,
            )))
        (λ f. ((inl e, (inl e, tt)), tt))

  promote-IsSafe :
      (t : Faults) (d : Disk) (target : Option Text)
      → d.target ≡ target
      → before ≡ target
      → IsSafe (elim target [
        | none ↦ (err not_renamed, d ∷ [])
        | some old ↦ promote_over content t old d
      ])
  promote-IsSafe t d none e b = ((inl (e ∙ sym b), tt), tt)
  promote-IsSafe t d (some old) e b = promote_over-IsSafe t old d b (e ∙ sym b)

broken :
    (content : Text) (t : Faults) (d : Disk) (broken_write : Option Text)
    → IsSafe content d.target (elim broken_write [
      | some junk ↦ (err not_written, record d { temporary = some junk } ∷ [])
      | none ↦
          let written = record d { temporary = some content } in
          if t.sets_permissions
          then promote content t written
          else (err not_permitted, written ∷ [])
    ])
unfolding promote
broken content t d (some junk) = ((inl refl, tt), tt)
broken content t d none =
    if-cases (IsSafe content d.target) t.sets_permissions
      (λ e.
        if-cases (IsSafe content d.target) t.renames (λ f. ((inr (inl refl), (inl refl, tt)), refl))
          (λ f.
            promote-IsSafe content d.target t (record d { temporary = some content }) d.target refl
              refl))
      (λ e. ((inl refl, tt), tt))

-- Whatever the system refuses, and wherever the program is stopped, the file holds its old text or the
-- new one, or is missing while the backup holds the old text; a replacement that succeeds ends with
-- the new text.
pub write_owner_only_file-IsSafe :
    (content : Text) (t : Faults) (d : Disk)
    → IsSafe content d.target (write_owner_only_file content t d)
unfolding write_owner_only_file promote
write_owner_only_file-IsSafe content t d = broken content t d t.broken_write
