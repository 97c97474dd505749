-- ===== src/PinLockout/Guesses.antt =====
-- How many PINs can be tried.
use native.Mathlib.Nat.{zero-add}
use sshwarden.Base.{
  ℕ, ◌+◌, ◌-◌, ◌*◌, ◌/◌, ◌≤◌, ◌<◌, ◌≡◌, refl, Bool, true, false, List, [], ◌∷◌, Option, none, some,
  arith, All, Text, ltb, if◌then◌else◌, ◌⊎◌, inl, inr, Bool-cases,
}
use sshwarden.PinLockout.{
  PinFailureState, pin_lockout, no_failures, pin_lockout_remaining, count_failure,
  record_pin_attempt, gate_pin_validator, Attempt, is_evaluated, evaluated,
}

-- The attempts follow one another, from time `t` to time `end`.
abbrev pub Follows : ℕ → List Attempt → ℕ → Type 0
Follows t [] end = t ≤ end
Follows t (a ∷ later) end =
    (t ≤ a.checked) × (a.checked ≤ a.recorded) × Follows a.recorded later end

-- A lockout is armed by the fifth failure and not before.
abbrev IsArmed : Option ℕ → ℕ → Type 0
IsArmed none failures = Unit
IsArmed (some until) failures = 5 ≤ failures

-- What is left to spend: `n` checks between `t` and `end`.
abbrev Budget : Option ℕ → ℕ → ℕ → ℕ → ℕ → Type 0
Budget none failures t end n =
    n * pin_lockout + t ≤ end + (if ltb failures 4 then 5 - failures else 1) * pin_lockout
Budget (some until) failures t end n = (n ≡ 0) ⊎ (n * pin_lockout + until ≤ end + pin_lockout)

abbrev state : ℕ → Option ℕ → PinFailureState
state failures until = record { consecutive_failures = failures; locked_until = until }

Follows-le : (t : ℕ) (tries : List Attempt) (end : ℕ) → Follows t tries end → t ≤ end
Follows-le t [] end h = h
Follows-le t (a ∷ later) end h = omega (arith, Follows-le a.recorded later end h.2)

-- A wrong attempt that is checked, from a state with no lockout running.
count_failure-Budget :
    (failures t r end m : ℕ)
    → t ≤ r
    → r ≤ end
    → (let st = count_failure r (state failures none) in
        Budget st.locked_until st.consecutive_failures r end m)
    → Budget none failures t end (1 + m)
unfolding count_failure
count_failure-Budget failures t r end m h k b = ground arith

count_failure-Budget_armed :
    (failures until r end m : ℕ)
    → 5 ≤ failures
    → until ≤ r
    → r ≤ end
    → (let st = count_failure r (state failures none) in
        Budget st.locked_until st.consecutive_failures r end m)
    → Budget (some until) failures r end (1 + m)
unfolding count_failure
count_failure-Budget_armed failures until r end m h k e b = ground arith

count_failure-IsArmed :
    (failures r : ℕ)
    → (let st = count_failure r (state failures none) in
        IsArmed st.locked_until st.consecutive_failures)
unfolding count_failure
count_failure-IsArmed failures r = ground arith

module _ (inner : Text → Bool) where
  -- The attempt is turned away, or it is checked from a state with no lockout running.
  gate_cases :
      (failures : ℕ) (until : Option ℕ) (a : Attempt)
      → inner a.pin ≡ false
      → ((l : ℕ) × (until ≡ some l)
          × (is_evaluated (state failures until) a ≡ false)
          × ((gate_pin_validator inner a.checked a.recorded (state failures until) a.pin).0
              ≡ state failures until))
        ⊎ ((is_evaluated (state failures until) a ≡ true)
            × ((l : ℕ) → until ≡ some l → l ≤ a.checked)
            × ((gate_pin_validator inner a.checked a.recorded (state failures until) a.pin).0
                ≡ count_failure a.recorded (state failures none)))
  unfolding is_evaluated pin_lockout_remaining gate_pin_validator record_pin_attempt
  gate_cases failures none a wrong = inr (refl, λ l e. cc, rw wrong)
  gate_cases failures (some until) a wrong = elim (Bool-cases (ltb a.checked until)) [
    | inl early ↦ inl (until, refl, rw early, ground arith)
    | inr late ↦ inr (rw late, λ l e. ground arith, ground arith)
  ]

  evaluated-Budget :
      (tries : List Attempt) (failures : ℕ) (until : Option ℕ) (t end : ℕ)
      → All (λ a. inner a.pin ≡ false) tries
      → Follows t tries end
      → IsArmed until failures
      → Budget until failures t end (evaluated inner (state failures until) tries)
  unfolding evaluated
  evaluated-Budget [] failures none t end wrong f armed = ground arith
  evaluated-Budget [] failures (some l) t end wrong f armed = inl refl
  evaluated-Budget (a ∷ later) failures none t end wrong f armed =
      elim (gate_cases failures none a wrong.0) [
        | inl (l, e, _, _) ↦ absurd (cc)
        | inr (checked, _, gated) ↦
            rw (checked, gated)
              (count_failure-Budget failures t a.recorded end _ (omega arith)
                (Follows-le a.recorded later end f.2)
                (evaluated-Budget later _ _ a.recorded end wrong.1 f.2
                  (count_failure-IsArmed failures a.recorded)))
      ]
  evaluated-Budget (a ∷ later) failures (some l) t end wrong f armed =
      elim (gate_cases failures (some l) a wrong.0) [
        | inl (l', e, checked, gated) ↦
            rw (checked, gated)
              (rw zero-add
                (evaluated-Budget later failures (some l) a.recorded end wrong.1 f.2 armed))
        | inr (checked, over, gated) ↦
            rw (checked, gated)
              (count_failure-Budget_armed failures l a.recorded end _ armed
                (omega (arith, over l refl)) (Follows-le a.recorded later end f.2)
                (evaluated-Budget later _ _ a.recorded end wrong.1 f.2
                  (count_failure-IsArmed failures a.recorded)))
      ]

  -- Whatever PINs are tried and however fast, a run of wrong ones between two times gets at most five
  -- checks, and one more for each thirty seconds that passed.
  pub evaluated_bound :
      (tries : List Attempt) (t end : ℕ)
      → All (λ a. inner a.pin ≡ false) tries
      → Follows t tries end
      → evaluated inner no_failures tries ≤ 5 + (end - t) / pin_lockout
  evaluated_bound tries t end wrong f =
      omega (arith, evaluated-Budget tries 0 none t end wrong f tt, Follows-le t tries end f)

  -- While a lockout runs, every PIN is refused, the right one too; the check is not made and nothing
  -- is recorded.
  pub gate_pin_validator-locked :
      (st : PinFailureState) (until checked recorded : ℕ) (pin : Text)
      → st.locked_until ≡ some until
      → checked < until
      → gate_pin_validator inner checked recorded st pin ≡ (st, false)
  unfolding gate_pin_validator pin_lockout_remaining
  gate_pin_validator-locked st until checked recorded pin e h = ground arith
