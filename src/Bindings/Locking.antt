-- ===== src/Bindings/Locking.antt =====
-- `update_locked` in crates/sshwarden-config/src/bindings.rs: processes that change the bindings file
-- under an advisory lock, interleaved. What a process does to the file it has loaded is `mutate`. A save
-- that fails leaves the file as it was; Config/Replace has the one exception, a backup that cannot be
-- moved back. A process may die anywhere, and the system then frees its lock.
use sshwarden.Base.{ℕ, List, [], ◌∷◌, Option, none, some, ◌==◌, if◌then◌else◌, Result, ok, err}

-- How far a call is: before the lock, with the lock, with the file, behind the critical section.
pub data Phase (F : Type 0) : Type 0 where
  waiting holding releasing finished : Phase F
  loaded : F → Phase F

pub record Processes (F : Type 0) : Type 0 where
  pub file : F
  pub holder : Option ℕ
  pub phase : ℕ → Phase F

-- `times_out`, `load_fails` and `save_fails` are the errors of `acquire_lock`, `load_from` and `save_to`.
pub data Event : Type 0 where
  locks times_out loads load_fails updates save_fails unlocks dies : ℕ → Event

module _ {F : Type 0} where
  abbrev pub set_phase : ℕ → Phase F → (ℕ → Phase F) → ℕ → Phase F
  set_phase p x phase q = if p == q then x else phase q

-- The lock is free again once its holder is gone.
abbrev pub freed : ℕ → Option ℕ → Option ℕ
freed p none = none
freed p (some q) = if p == q then none else some q

abbrev pub process : Event → ℕ
process (locks p) = p
process (times_out p) = p
process (loads p) = p
process (load_fails p) = p
process (updates p) = p
process (save_fails p) = p
process (unlocks p) = p
process (dies p) = p

module _ {F E : Type 0} (mutate : ℕ → F → Result E F) where
  -- The saved file, where `mutate` succeeds.
  abbrev pub saved : ℕ → F → F
  saved p f = elim (mutate p f) [ err e ↦ f | ok f' ↦ f' ]

  -- One event; an event that cannot happen in a phase gives nothing.
  unfoldable pub act : Event → Processes F → Phase F → Option (Processes F)
  act (locks p) s waiting = elim s.holder [
    | some q ↦ none
    | none ↦ some (record s { holder = some p; phase = set_phase p holding s.phase })
  ]
  act (times_out p) s waiting = some (record s { phase = set_phase p finished s.phase })
  act (loads p) s holding = some (record s { phase = set_phase p (loaded s.file) s.phase })
  act (load_fails p) s holding = some (record s { phase = set_phase p releasing s.phase })
  act (updates p) s (loaded f) =
      some (record s { file = saved p f; phase = set_phase p releasing s.phase })
  act (save_fails p) s (loaded f) = some (record s { phase = set_phase p releasing s.phase })
  act (unlocks p) s releasing =
      some (record s { holder = none; phase = set_phase p finished s.phase })
  act (dies p) s x =
      some (record s { holder = freed p s.holder; phase = set_phase p finished s.phase })
  act _ s _ = none

  unfoldable pub step_process : Event → Processes F → Option (Processes F)
  unfolding act
  step_process e s = act e s (s.phase (process e))

  unfoldable pub run_processes : List Event → Processes F → Option (Processes F)
  unfolding step_process
  run_processes [] s = some s
  run_processes (e ∷ es) s = elim (step_process e s) [ none ↦ none | some t ↦ run_processes es t ]

  -- What the updates make of the file one after the other, without any lock.
  unfoldable pub in_order : List Event → F → F
  in_order [] f = f
  in_order (updates p ∷ es) f = in_order es (saved p f)
  in_order (locks p ∷ es) f = in_order es f
  in_order (times_out p ∷ es) f = in_order es f
  in_order (loads p ∷ es) f = in_order es f
  in_order (load_fails p ∷ es) f = in_order es f
  in_order (save_fails p ∷ es) f = in_order es f
  in_order (unlocks p ∷ es) f = in_order es f
  in_order (dies p ∷ es) f = in_order es f
