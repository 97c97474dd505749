-- ===== src/PinLockout.antt =====
-- src/control.rs (`PinFailureState`, `pin_lockout_remaining`, `record_pin_attempt`) and src/unlock.rs
-- (`gate_pin_validator`): the brute-force accounting shared by the control channel and the dialogs.
-- Times are milliseconds on the monotonic clock, read by the caller: each `Instant::now()` of the
-- source is an argument here.
pub mod Guesses
mod Tests
use sshwarden.Base.{
  ℕ, ◌+◌, ◌-◌, ◌*◌, ◌^◌, min, Bool, true, false, List, [], ◌∷◌, Option, none, some, ltb, leb,
  if◌then◌else◌, is_none, Text,
}

pub record PinFailureState : Type 0 where
  pub consecutive_failures : ℕ
  pub locked_until : Option ℕ

abbrev pub pin_max_attempts : ℕ
pin_max_attempts = 5

abbrev pub pin_failure_base_delay : ℕ
pin_failure_base_delay = 500

abbrev pub pin_failure_max_delay : ℕ
pin_failure_max_delay = 5000

abbrev pub pin_lockout : ℕ
pin_lockout = 30000

-- `PinFailureState::default()`
abbrev pub no_failures : PinFailureState
no_failures = record { consecutive_failures = 0; locked_until = none }

-- The time left of a lockout; one that is over is cleared.
unfoldable pub pin_lockout_remaining : ℕ → PinFailureState → PinFailureState × Option ℕ
pin_lockout_remaining now st = elim st.locked_until [
  | none ↦ (st, none)
  | some until ↦
      if ltb now until then (st, some (until - now)) else (record st { locked_until = none }, none)
]

-- `u32::saturating_add(1)`
abbrev pub saturating_suc : ℕ → ℕ
saturating_suc n = min (n + 1) (2 ^ 32 - 1)

-- What a wrong attempt makes of the state.
unfoldable pub count_failure : ℕ → PinFailureState → PinFailureState
count_failure now st =
    let failures = saturating_suc st.consecutive_failures in
    record {
      consecutive_failures = failures;
      locked_until =
          if leb pin_max_attempts failures then some (now + pin_lockout) else st.locked_until;
    }

unfoldable pub record_pin_attempt : ℕ → PinFailureState → Bool → PinFailureState × ℕ
unfolding count_failure
record_pin_attempt now st true = (record { consecutive_failures = 0; locked_until = none }, 0)
record_pin_attempt now st false = (
  count_failure now st,
  min (pin_failure_base_delay * (count_failure now st).consecutive_failures) pin_failure_max_delay,
)

-- The gated validator, with the times at which it asks for the lockout and records the outcome.
unfoldable pub gate_pin_validator :
    (Text → Bool) → ℕ → ℕ → PinFailureState → Text → PinFailureState × Bool
gate_pin_validator inner checked recorded st pin =
    let (st', remaining) = pin_lockout_remaining checked st in
    elim remaining [
      | some wait ↦ (st', false)
      | none ↦ ((record_pin_attempt recorded st' (inner pin)).0, inner pin)
    ]

-- A PIN that is tried, and the two times of its attempt.
pub record Attempt : Type 0 where
  pub pin : Text
  pub checked : ℕ
  pub recorded : ℕ

-- Whether an attempt gets as far as the PIN check.
unfoldable pub is_evaluated : PinFailureState → Attempt → Bool
is_evaluated st a = is_none (pin_lockout_remaining a.checked st).1

-- The number of attempts of a history that get as far as the PIN check.
unfoldable pub evaluated : (Text → Bool) → PinFailureState → List Attempt → ℕ
evaluated inner st [] = 0
evaluated inner st (a ∷ later) =
    (if is_evaluated st a then 1 else 0)
    + evaluated inner (gate_pin_validator inner a.checked a.recorded st a.pin).0 later
