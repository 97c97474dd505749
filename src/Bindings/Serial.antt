-- ===== src/Bindings/Serial.antt =====
-- Interleaved updates of the bindings file come one after the other.
use mathlib.Core.Path.{Path, subst}
use mathlib.Core.Option.{some-injective}
use sshwarden.Base.{
  ℕ, ◌≡◌, refl, sym, ap, ◌∙◌, inl, inr, Bool, true, false, List, [], ◌∷◌, Option, none, some, ◌==◌,
  ==_iff, Bool-cases, if-cases, Option-cases, arith, Result,
}
use sshwarden.Bindings.Locking.{
  Phase, waiting, holding, releasing, finished, loaded, Processes, Event, process, locks, times_out,
  loads, load_fails, updates, save_fails, unlocks, dies, set_phase, freed, saved, act, step_process,
  run_processes, in_order,
}

module _ {F : Type 0} where
  -- A call inside the critical section holds the lock, and what it has loaded is the file.
  abbrev pub Fits : Option ℕ → F → ℕ → Phase F → Type 0
  Fits holder file p waiting = Unit
  Fits holder file p finished = Unit
  Fits holder file p holding = holder ≡ some p
  Fits holder file p releasing = holder ≡ some p
  Fits holder file p (loaded f) = (holder ≡ some p) × (f ≡ file)

  pub record IsSerial (s : Processes F) : Type 0 where
    pub fits : (p : ℕ) → Fits s.holder s.file p (s.phase p)

  -- A call that does not hold the lock is outside of the critical section, whatever becomes of the
  -- file and the lock.
  Fits-outside :
      (holder holder' : Option ℕ) (file file' : F) (p : ℕ) (x : Phase F)
      → ((holder ≡ some p) → Path Bool true false)
      → Fits holder file p x
      → Fits holder' file' p x
  Fits-outside h h' f f' p waiting n k = tt
  Fits-outside h h' f f' p finished n k = tt
  Fits-outside h h' f f' p holding n k = ground (arith, n k)
  Fits-outside h h' f f' p releasing n k = ground (arith, n k)
  Fits-outside h h' f f' p (loaded g) n k = ground (arith, n k.0)

  Fits-set :
      (holder : Option ℕ) (file : F) (p : ℕ) (x : Phase F) (phase : ℕ → Phase F)
      → Fits holder file p x
      → ((q : ℕ) → (p == q) ≡ false → Fits holder file q (phase q))
      → (q : ℕ) → Fits holder file q (set_phase p x phase q)
  Fits-set holder file p x phase h k q = elim (Bool-cases (p == q)) [
    | inl e ↦ rw e (subst (λ r. Fits holder file r x) ((==_iff p q).0 e) h)
    | inr e ↦ rw e (k q e)
  ]

-- Where `p` holds the lock, no other call does.
other :
    (holder : Option ℕ) (p q : ℕ)
    → holder ≡ some p
    → (p == q) ≡ false
    → holder ≡ some q
    → Path Bool true false
other holder p q h n k = ground (arith, h, n, k)

module _ {F E : Type 0} (mutate : ℕ → F → Result E F) where
  -- What an event leaves: calls that fit, and the file that the event alone makes.
  abbrev Follows : Event → Processes F → Processes F → Type 0
  Follows e s t = IsSerial t × (t.file ≡ in_order mutate (e ∷ []) s.file)

  -- A call moves on; the file and the lock stay.
  moves :
      (s : Processes F) (p : ℕ) (x : Phase F)
      → IsSerial s
      → Fits s.holder s.file p x
      → IsSerial (record s { phase = set_phase p x s.phase })
  moves s p x i h = record { fits = Fits-set s.holder s.file p x s.phase h (λ q n. i.fits q) }

  -- The holder of the lock moves on, with the file or the lock.
  holder_moves :
      (s : Processes F) (p : ℕ) (x : Phase F) (holder : Option ℕ) (file : F)
      → IsSerial s
      → s.holder ≡ some p
      → Fits holder file p x
      → IsSerial (record { file = file; holder = holder; phase = set_phase p x s.phase })
  holder_moves s p x holder file i h fit = record {
    fits = Fits-set holder file p x s.phase fit (λ q n.
        Fits-outside s.holder holder s.file file q (s.phase q) (other s.holder p q h n) (i.fits q));
  }

  takes_lock :
      (s : Processes F) (p : ℕ)
      → IsSerial s
      → s.holder ≡ none
      → IsSerial (record s { holder = some p; phase = set_phase p holding s.phase })
  takes_lock s p i h = record {
    fits = Fits-set (some p) s.file p holding s.phase refl (λ q n.
        Fits-outside s.holder (some p) s.file s.file q (s.phase q) (λ e. ground (arith, h, e))
          (i.fits q));
  }

  becomes :
      (P : Processes F → Type 0) (s t : Processes F)
      → Path (Option (Processes F)) (some s) (some t)
      → P s
      → P t
  becomes P s t e h = subst P (some-injective s t e) h

  locks-Follows :
      (p : ℕ) (s t : Processes F) (holder : Option ℕ)
      → s.holder ≡ holder
      → IsSerial s
      → Path
          (Option (Processes F))
          (elim holder [
            | some q ↦ none
            | none ↦ some (record s { holder = some p; phase = set_phase p holding s.phase })
          ])
          (some t)
      → Follows (locks p) s t
  locks-Follows p s t (some q) h i e = ground (arith, e)
  locks-Follows p s t none h i e =
      becomes (Follows (locks p) s) _ t e (takes_lock s p i h, unfold in_order in refl)

  stays :
      (p : ℕ) (s : Processes F) (holder : Option ℕ)
      → s.holder ≡ holder
      → IsSerial s
      → IsSerial (record s { holder = holder; phase = set_phase p finished s.phase })
  stays p s holder h i = record {
    fits =
        Fits-set holder s.file p finished s.phase tt
          (λ q n. subst (λ o. Fits o s.file q (s.phase q)) h (i.fits q));
  }

  -- A call that ends gives its lock back, and no other one.
  dies-IsSerial :
      (p : ℕ) (s : Processes F) (holder : Option ℕ)
      → s.holder ≡ holder
      → IsSerial s
      → IsSerial (record s { holder = freed p holder; phase = set_phase p finished s.phase })
  dies-IsSerial p s none h i = stays p s none h i
  dies-IsSerial p s (some r) h i =
      if-cases (λ o. IsSerial (record s { holder = o; phase = set_phase p finished s.phase }))
        (p == r)
        (λ e. holder_moves s p finished none s.file i (h ∙ ap some (sym ((==_iff p r).0 e))) tt)
        (λ e. stays p s (some r) h i)

  act-Follows :
      (e : Event) (s t : Processes F) (x : Phase F)
      → IsSerial s
      → Fits s.holder s.file (process e) x
      → act mutate e s x ≡ some t
      → Follows e s t
  unfolding act in_order
  act-Follows (locks p) s t waiting i h e = locks-Follows p s t s.holder refl i e
  act-Follows (times_out p) s t waiting i h e =
      becomes (Follows (times_out p) s) _ t e (moves s p finished i tt, refl)
  act-Follows (loads p) s t holding i h e =
      becomes (Follows (loads p) s) _ t e (moves s p (loaded s.file) i (h, refl), refl)
  act-Follows (load_fails p) s t holding i h e =
      becomes (Follows (load_fails p) s) _ t e (moves s p releasing i h, refl)
  act-Follows (updates p) s t (loaded f) i h e =
      becomes (Follows (updates p) s) _ t e
        (holder_moves s p releasing s.holder (saved mutate p f) i h.0 h.0, ap (saved mutate p) h.1)
  act-Follows (save_fails p) s t (loaded f) i h e =
      becomes (Follows (save_fails p) s) _ t e (moves s p releasing i h.0, refl)
  act-Follows (unlocks p) s t releasing i h e =
      becomes (Follows (unlocks p) s) _ t e (holder_moves s p finished none s.file i h tt, refl)
  act-Follows (dies p) s t x i h e =
      becomes (Follows (dies p) s) _ t e (dies-IsSerial p s s.holder refl i, refl)
  act-Follows _ s t _ i h e = ground (arith, e)

  in_order-head :
      (e : Event) (es : List Event) (f : F)
      → in_order mutate (e ∷ es) f ≡ in_order mutate es (in_order mutate (e ∷ []) f)
  unfolding in_order
  in_order-head (locks p) es f = refl
  in_order-head (times_out p) es f = refl
  in_order-head (loads p) es f = refl
  in_order-head (load_fails p) es f = refl
  in_order-head (updates p) es f = refl
  in_order-head (save_fails p) es f = refl
  in_order-head (unlocks p) es f = refl
  in_order-head (dies p) es f = refl

  Follows-run :
      (e : Event) (es : List Event) (s t u : Processes F)
      → Follows e s t
      → IsSerial u × (u.file ≡ in_order mutate es t.file)
      → IsSerial u × (u.file ≡ in_order mutate (e ∷ es) s.file)
  Follows-run e es s t u h k =
      (k.0, k.1 ∙ ap (in_order mutate es) h.1 ∙ sym (in_order-head e es s.file))

  run_processes-Follows :
      (es : List Event) (s u : Processes F)
      → IsSerial s
      → run_processes mutate es s ≡ some u
      → IsSerial u × (u.file ≡ in_order mutate es s.file)
  unfolding run_processes in_order
  run_processes-Follows [] s u i e = becomes (λ u. IsSerial u × (u.file ≡ s.file)) s u e (i, refl)
  run_processes-Follows (e ∷ es) s u i h = elim (Option-cases (step_process mutate e s)) [
    | inl n ↦ ground (arith, h, n)
    | inr t ↦
        let first =
          act-Follows e s t.0 (s.phase (process e)) i (i.fits (process e))
            (unfold step_process in t.1) in
        Follows-run e es s t.0 u first
          (run_processes-Follows es t.0 u first.0 (ground (arith, h, t.1)))
  ]

  -- However calls of several processes are interleaved, fail, time out or die, starting before any of
  -- them has the lock, the file ends as if the updates that were saved had been made one after the
  -- other, in the order in which they were saved: none is lost.
  pub run_processes-in_order :
      (es : List Event) (file : F) (u : Processes F)
      → run_processes mutate es (record { file = file; holder = none; phase = λ p. waiting })
        ≡ some u
      → u.file ≡ in_order mutate es file
  run_processes-in_order es file u h =
      (run_processes-Follows es _ u (record { fits = λ p. tt }) h).1
