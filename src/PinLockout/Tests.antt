-- ===== src/PinLockout/Tests.antt =====
-- Concrete attempts for the PIN accounting of src/control.rs and src/unlock.rs.
use sshwarden.Base.{
  ℕ, ◌+◌, ◌-◌, ◌/◌, ◌≤◌, ◌≡◌, refl, Bool, List, [], ◌∷◌, some, arith, Text, codes, text_eq,
}
use sshwarden.PinLockout.{
  PinFailureState, Attempt, pin_lockout, no_failures, gate_pin_validator, evaluated, is_evaluated,
  pin_lockout_remaining, record_pin_attempt,
}
use sshwarden.PinLockout.Guesses.{Follows, evaluated_bound}

abbrev is_pin : Text → Bool
is_pin pin = text_eq pin (codes "2468")

abbrev guess : ℕ → Attempt
guess t = record { pin = codes "0000"; checked = t; recorded = t + 20 }

-- Six guesses within a second and one after the lockout.
abbrev guesses : List Attempt
guesses = guess 0 ∷ guess 100 ∷ guess 200 ∷ guess 300 ∷ guess 400 ∷ guess 500 ∷ guess 31000 ∷ []

abbrev locked : PinFailureState
locked = record { consecutive_failures = 5; locked_until = some 30420 }

evaluated_bound_example : evaluated is_pin no_failures guesses ≤ 5 + (32000 - 0) / pin_lockout
evaluated_bound_example =
    evaluated_bound is_pin guesses 0 32000
      (unfold text_eq in (refl, (refl, (refl, (refl, (refl, (refl, (refl, tt)))))))) by_time
  where
    by_time : Follows 0 guesses 32000
    by_time = ground arith

six_checks : evaluated is_pin no_failures guesses ≡ 6
unfolding evaluated is_evaluated pin_lockout_remaining gate_pin_validator record_pin_attempt text_eq
six_checks = refl
