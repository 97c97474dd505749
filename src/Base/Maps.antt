-- ===== src/Base/Maps.antt =====
-- A map with text keys (`HashMap<String, _>`, `BTreeMap<String, _>`, and the keystore, whose keys
-- are byte strings): an association list with one entry for each key.
use Prim.Native.Nat.{◌+◌, ◌≤◌}
use mathlib.Core.Path.{◌≡◌, refl}
use mathlib.Core.Bool.{Bool, false}
use mathlib.Core.Option.{Option, none, some}
use mathlib.Core.List.{List, [], ◌∷◌}
use native.Mathlib.Omega.{arith}
use sshwarden.Base.Lists.{All, length, retain, retain-All_of}
use sshwarden.Base.Tests.{if◌then◌else◌, is_some}
use sshwarden.Base.Texts.{Text, text_eq, text_eq_iff}

abbrev pub Map : Type 0 → Type 0
Map V = List (Text × V)

module _ {V : Type 0} where
  unfoldable pub lookup : Text → Map V → Option V
  lookup k [] = none
  lookup k ((j, v) ∷ m) = if text_eq j k then some v else lookup k m

  unfoldable pub insert : Text → V → Map V → Map V
  insert k v [] = (k, v) ∷ []
  insert k v ((j, w) ∷ m) = if text_eq j k then (k, v) ∷ m else (j, w) ∷ insert k v m

  unfoldable pub remove : Text → Map V → Map V
  remove k [] = []
  remove k ((j, v) ∷ m) = if text_eq j k then m else (j, v) ∷ remove k m

  abbrev pub contains_key : Text → Map V → Bool
  contains_key k m = is_some (lookup k m)

  -- No key of the map is `k`.
  abbrev pub Fresh : Text → Map V → Type 0
  Fresh k = All λ e. text_eq e.0 k ≡ false

  -- One entry for each key.
  abbrev pub Distinct : Map V → Type 0
  Distinct [] = Unit
  Distinct ((k, v) ∷ m) = Fresh k m × Distinct m

  pub lookup-Fresh : (k : Text) (m : Map V) → Fresh k m → lookup k m ≡ none
  unfolding lookup
  lookup-Fresh k [] h = refl
  lookup-Fresh k ((j, v) ∷ m) h = ground (arith, lookup-Fresh k m)

  pub lookup-insert :
      (k j : Text) (v : V) (m : Map V)
      → lookup j (insert k v m) ≡ (if text_eq k j then some v else lookup j m)
  unfolding lookup insert
  lookup-insert k j v [] = refl
  lookup-insert k j v ((i, w) ∷ m) =
      ground (arith, text_eq_iff k j, text_eq_iff i k, text_eq_iff i j, lookup-insert k j v m)

  pub lookup-remove :
      (k j : Text) (m : Map V)
      → Distinct m
      → lookup j (remove k m) ≡ (if text_eq k j then none else lookup j m)
  unfolding lookup remove
  lookup-remove k j [] d = ground arith
  lookup-remove k j ((i, w) ∷ m) d = ground (
    arith,
    text_eq_iff k j,
    text_eq_iff i k,
    text_eq_iff i j,
    lookup-remove k j m d.1,
    lookup-Fresh i m d.0,
  )

  insert-Fresh :
      (k j : Text) (v : V) (m : Map V) → text_eq k j ≡ false → Fresh j m → Fresh j (insert k v m)
  unfolding insert
  insert-Fresh k j v [] e h = (e, tt)
  insert-Fresh k j v ((i, w) ∷ m) e h = ground (arith, insert-Fresh k j v m)

  pub insert-Distinct : (k : Text) (v : V) (m : Map V) → Distinct m → Distinct (insert k v m)
  unfolding insert
  insert-Distinct k v [] d = (tt, tt)
  insert-Distinct k v ((i, w) ∷ m) d =
      ground (arith, text_eq_iff i k, text_eq_iff k i, insert-Distinct k v m, insert-Fresh k i v m)

  remove-Fresh : (k j : Text) (m : Map V) → Fresh j m → Fresh j (remove k m)
  unfolding remove
  remove-Fresh k j [] h = tt
  remove-Fresh k j ((i, w) ∷ m) h = ground (arith, remove-Fresh k j m)

  pub remove-Distinct : (k : Text) (m : Map V) → Distinct m → Distinct (remove k m)
  unfolding remove
  remove-Distinct k [] d = tt
  remove-Distinct k ((i, w) ∷ m) d = ground (arith, remove-Distinct k m, remove-Fresh k i m)

  pub length-insert-le : (k : Text) (v : V) (m : Map V) → length (insert k v m) ≤ length m + 1
  unfolding insert
  length-insert-le k v [] = omega arith
  length-insert-le k v ((i, w) ∷ m) = ground (arith, length-insert-le k v m)

-- Retaining the entries whose keys pass a test.
module _ {V : Type 0} (p : Text → Bool) where
  abbrev pub retain_keys : Map V → Map V
  retain_keys = retain (λ e. p e.0)

  pub retain_keys-Distinct : (m : Map V) → Distinct m → Distinct (retain_keys m)
  unfolding retain
  retain_keys-Distinct [] d = tt
  retain_keys-Distinct ((k, v) ∷ m) d =
      ground (
        arith,
        retain_keys-Distinct m,
        retain-All_of (λ e. text_eq e.0 k ≡ false) (λ e. p e.0) m d.0,
      )

  pub lookup-retain_keys :
      (k : Text) (m : Map V) → lookup k (retain_keys m) ≡ (if p k then lookup k m else none)
  unfolding retain lookup
  lookup-retain_keys k [] = ground arith
  lookup-retain_keys k ((j, v) ∷ m) = ground (arith, text_eq_iff j k, lookup-retain_keys k m)

-- A property of every entry.
module _ {V : Type 0} (P : Text → V → Type 0) where
  abbrev pub AllEntries : Map V → Type 0
  AllEntries = All λ e. P e.0 e.1

  pub insert-AllEntries :
      (k : Text) (v : V) (m : Map V) → P k v → AllEntries m → AllEntries (insert k v m)
  unfolding insert
  insert-AllEntries k v [] p h = (p, tt)
  insert-AllEntries k v ((i, w) ∷ m) p h = ground (arith, insert-AllEntries k v m p)

  pub remove-AllEntries : (k : Text) (m : Map V) → AllEntries m → AllEntries (remove k m)
  unfolding remove
  remove-AllEntries k [] h = tt
  remove-AllEntries k ((i, w) ∷ m) h = ground (arith, remove-AllEntries k m)

  pub lookup-AllEntries :
      (k : Text) (m : Map V) (v : V) → AllEntries m → lookup k m ≡ some v → P k v
  unfolding lookup
  lookup-AllEntries k [] v h e = cc
  lookup-AllEntries k ((i, w) ∷ m) v h e =
      ground (arith, text_eq_iff i k, lookup-AllEntries k m v h.1)
