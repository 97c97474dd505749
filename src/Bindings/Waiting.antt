-- ===== src/Bindings/Waiting.antt =====
-- `acquire_lock` in crates/sshwarden-config/src/bindings.rs, from the opened lock file on. What each try
-- to lock gives, and the clock when it is read after that try, are functions of the number of the try.
-- Times are milliseconds.
use sshwarden.Base.{
  ℕ, zero, suc, ◌+◌, ◌*◌, ◌≤◌, ◌<◌, ◌≡◌, refl, ap, ◌∙◌, ◌⊎◌, inl, inr, false, Option, none, some,
  arith, leb, if◌then◌else◌, Bool-cases, Result, ok, err,
}

pub data TryLock : Type 0 where
  locked would_block cannot_lock : TryLock

pub data LockError : Type 0 where
  timed_out not_locked : LockError

TryLock-cases : (t : TryLock) → (t ≡ locked) ⊎ (t ≡ cannot_lock) ⊎ (t ≡ would_block)
TryLock-cases locked = inl refl
TryLock-cases cannot_lock = inr (inl refl)
TryLock-cases would_block = inr (inr refl)

abbrev pub Waited : Type 0
Waited = Option (Result LockError (Unit {0}))

abbrev pub lock_timeout : ℕ
lock_timeout = 10000

abbrev pub lock_retry_interval : ℕ
lock_retry_interval = 50

module _ (tries : ℕ → TryLock) (clock : ℕ → ℕ) (deadline : ℕ) where
  -- The loop from a try on, for some rounds; nothing where the rounds do not end it.
  unfoldable pub try_from : ℕ → ℕ → Waited
  try_from zero n = none
  try_from (suc rounds) n =
      let rest = try_from rounds (n + 1) in
      elim (tries n) [
        | locked ↦ some (ok tt)
        | cannot_lock ↦ some (err not_locked)
        | would_block ↦ if leb deadline (clock n) then some (err timed_out) else rest
      ]

-- 201 rounds: one more than sleeps of 50 milliseconds fit in 10 seconds.
unfoldable pub acquire_lock : (ℕ → TryLock) → (ℕ → ℕ) → ℕ → Waited
unfolding try_from
acquire_lock tries clock start = try_from tries clock (start + lock_timeout) 201 0

module _ (tries : ℕ → TryLock) (clock : ℕ → ℕ) (start : ℕ) (begins : start ≤ clock 0)
    (sleeps : (n : ℕ) → clock n + lock_retry_interval ≤ clock (n + 1)) where
  elapsed : (n : ℕ) → start + 50 * n ≤ clock n
  elapsed zero = omega (arith, begins)
  elapsed (suc n) =
      let e : clock (n + 1) ≡ clock (suc n) = ap clock (omega arith) in
      omega (arith, elapsed n, sleeps n, e)

  early : (n : ℕ) → leb (start + lock_timeout) (clock n) ≡ false → n < 200
  early n h = ground (arith, elapsed n, h)

  try_from_ends :
      (rounds n : ℕ)
      → n + rounds ≡ 201
      → n ≤ 200
      → (r : Result LockError (Unit {0})) × (try_from tries clock (start + lock_timeout) rounds n
          ≡ some r)
  unfolding try_from
  try_from_ends zero n e h = absurd (omega (arith, e, h))
  try_from_ends (suc rounds) n e h = elim (TryLock-cases (tries n)) [
    | inl k ↦ (ok tt, ground (arith, k))
    | inr (inl k) ↦ (err not_locked, ground (arith, k))
    | inr (inr k) ↦ elim (Bool-cases (leb (start + lock_timeout) (clock n))) [
      | inl l ↦ (err timed_out, ground (arith, k, l))
      | inr l ↦
          let rest = try_from_ends rounds (n + 1) (omega (arith, e)) (omega (arith, early n l)) in
          (rest.0, ground (arith, k, l, rest.1))
    ]
  ]

  -- Waiting for the lock ends with an answer after 201 tries at most, whatever each of them gives. Each
  -- sleep takes at least 50 milliseconds of the clock.
  pub acquire_lock_ends :
      (r : Result LockError (Unit {0})) × (acquire_lock tries clock start ≡ some r)
  unfolding acquire_lock
  acquire_lock_ends = try_from_ends 201 0 refl (omega arith)

  try_from_locked :
      (rounds n k : ℕ)
      → n + rounds ≡ 201
      → n ≤ 200
      → ((j : ℕ) → j < n + k → (tries j ≡ would_block) × (clock j < start + lock_timeout))
      → tries (n + k) ≡ locked
      → try_from tries clock (start + lock_timeout) rounds n ≡ some (ok tt)
  unfolding try_from
  try_from_locked zero n k e h busy free = absurd (omega (arith, e, h))
  try_from_locked (suc rounds) n zero e h busy free =
      let here : tries n ≡ locked = ap tries (omega arith) ∙ free in ground (arith, here)
  try_from_locked (suc rounds) n (suc k) e h busy free =
      let now = busy n (omega arith) in
      let l : leb (start + lock_timeout) (clock n) ≡ false = ground (arith, now.1) in
      let rest =
        try_from_locked rounds (n + 1) k (omega (arith, e)) (omega (arith, early n l))
          (λ j m. busy j (omega (arith, m))) (ap tries (omega arith) ∙ free) in
      ground (arith, now.0, l, rest)

  -- A lock that becomes free in time is taken: where the tries before some try found it held, each before
  -- the ten seconds were over, and that try gets it, the call has the lock.
  pub acquire_lock_locked :
      (k : ℕ)
      → ((j : ℕ) → j < k → (tries j ≡ would_block) × (clock j < start + lock_timeout))
      → tries k ≡ locked
      → acquire_lock tries clock start ≡ some (ok tt)
  unfolding acquire_lock
  acquire_lock_locked k busy free =
      try_from_locked 201 0 k refl (omega arith) (λ j h. busy j (omega (arith, h)))
        (ap tries (omega arith) ∙ free)
