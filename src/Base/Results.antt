-- ===== src/Base/Results.antt =====
-- Rust's `Result`, with `?` as the bind of a `do` block.
use mathlib.Core.Path.{◌≡◌, Path, refl}
use mathlib.Core.Logic.{◌⊎◌, inl, inr}
use mathlib.Core.Bool.{Bool, true, false}

pub data Result (E A : Type 0) : Type 0 where
  err : E → Result E A
  ok : A → Result E A

module _ {E : Type 0} where
  infixl 5 ◌>>◌ ◌>>=◌
  abbrev pub ◌>>=◌ : {A B : Type 0} → Result E A → (A → Result E B) → Result E B
  r >>= next = elim r [ err failure ↦ err failure | ok value ↦ next value ]

  abbrev pub ◌>>◌ : {B : Type 0} → Result E (Unit {0}) → Result E B → Result E B
  r >> next = elim r [ err failure ↦ err failure | ok done ↦ next ]

  -- `if !test { bail!(failure) }`.
  abbrev pub ensure : Bool → E → Result E (Unit {0})
  ensure test failure = elim test [ false ↦ err failure | true ↦ ok tt ]

  abbrev pub is_ok : {A : Type 0} → Result E A → Bool
  is_ok r = elim r [ err _ ↦ false | ok _ ↦ true ]

  pub Result-cases :
      {A : Type 0} (r : Result E A) → ((e : E) × (r ≡ err e)) ⊎ ((a : A) × (r ≡ ok a))
  Result-cases (err e) = inl (e, refl)
  Result-cases (ok a) = inr (a, refl)

  pub ok_injective : {A : Type 0} (a b : A) → Path (Result E A) (ok a) (ok b) → a ≡ b
  ok_injective a b e = cc
