-- ===== src/Bindings/Tests.antt =====
-- Concrete edits of a bindings file of crates/sshwarden-config/src/bindings.rs.
use sshwarden.Base.{
  ◌+◌, ◌*◌, ◌<◌, arith, ltb, if◌then◌else◌, ℕ, Bool, none, some, Result, ok, refl, ◌≡◌, List, [],
  ◌∷◌, codes,
}
use sshwarden.Bindings.{HostBindingsFile, Edit, sets, adds, removes, clears, run}
use sshwarden.Bindings.Wellformed.{IsWellFormed, run-IsWellFormed}
use sshwarden.Bindings.Refinement.{bound, intended_run, run-bound}
use sshwarden.Bindings.Locking.{
  Event, locks, loads, updates, unlocks, dies, Processes, waiting, run_processes, in_order,
}
use sshwarden.Bindings.Waiting.{
  TryLock, LockError, locked, would_block, acquire_lock, acquire_lock_ends, acquire_lock_locked,
}
use sshwarden.Bindings.Serial.{run_processes-in_order}

abbrev edits : List Edit
edits =
    sets 5 (codes "id1") (codes " github.com " ∷ codes "GITHUB.com" ∷ codes "*.corp" ∷ [])
    ∷ adds 6 (codes "id2") (codes "host#1")
    ∷ adds 7 (codes "id2") (codes "host1")
    ∷ removes 8 (codes "id1") (codes "*.CORP")
    ∷ clears (codes "id2")
    ∷ []

abbrev empty : HostBindingsFile
empty = record { version = 1; bindings = [] }

abbrev empty-IsWellFormed : IsWellFormed empty
empty-IsWellFormed = record { distinct = tt; entries = tt }

run-IsWellFormed_example : IsWellFormed (run empty edits)
run-IsWellFormed_example = run-IsWellFormed empty edits empty-IsWellFormed

run-bound_example :
    bound (run empty edits) (codes "id1") (codes "GitHub.com")
    ≡ intended_run edits (bound empty) (codes "id1") (codes "GitHub.com")
run-bound_example = run-bound empty edits (codes "id1") (codes "GitHub.com") empty-IsWellFormed

-- Two processes, of which the second dies before it saves, and a third.
abbrev interleaved : List Event
interleaved =
    locks 1
    ∷ loads 1
    ∷ updates 1
    ∷ unlocks 1
    ∷ locks 2
    ∷ loads 2
    ∷ dies 2
    ∷ locks 3
    ∷ loads 3
    ∷ updates 3
    ∷ []

abbrev note : ℕ → List ℕ → Result Bool (List ℕ)
note p f = ok (p ∷ f)

abbrev start : Processes (List ℕ)
start = record { file = []; holder = none; phase = λ p. waiting }

abbrev end : Processes (List ℕ)
end = elim (run_processes note interleaved start) [ none ↦ start | some u ↦ u ]

run_processes-in_order_example : end.file ≡ in_order note interleaved []
unfolding run_processes
run_processes-in_order_example = run_processes-in_order note interleaved [] end refl

-- A lock that becomes free after two tries.
abbrev busy_twice : ℕ → TryLock
busy_twice n = if ltb n 2 then would_block else locked

abbrev clock : ℕ → ℕ
clock n = 60 * n + 7

acquire_lock_ends_example :
    (r : Result LockError (Unit {0})) × (acquire_lock busy_twice clock 5 ≡ some r)
acquire_lock_ends_example = acquire_lock_ends busy_twice clock 5 (omega arith) (λ n. omega arith)

two_tries : (j : ℕ) → j < 2 → (busy_twice j ≡ would_block) × (clock j < 5 + 10000)
two_tries j h = (ground (arith, h), omega (arith, h))

acquire_lock_locked_example : acquire_lock busy_twice clock 5 ≡ some (ok tt)
acquire_lock_locked_example =
    acquire_lock_locked busy_twice clock 5 (omega arith) (λ n. omega arith) 2 two_tries refl
