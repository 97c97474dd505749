-- ===== src/PidFile/Starts.antt =====
-- What starters make of one another's PID files, however their steps are interleaved.
use mathlib.Core.Path.{Path, subst}
use mathlib.Core.Option.{some-injective}
use sshwarden.Base.{
  ℕ, ◌≡◌, ◌≢◌, refl, sym, ap, ◌∙◌, inl, inr, Bool, true, false, List, [], ◌∷◌, ◌++◌, Option, none,
  some, ◌==◌, ==_iff, Bool-cases, Option-cases, arith, Text, any, trim, trim_with, trim_start_with,
  trim_end_with,
}
use sshwarden.PidFile.{
  System, text_of, parse_pid, owner_alive, pid_file_owner_alive, print_pid, Starter, trying, met,
  stale, created, yielding, sole, claimed, yielded, failed, Starters, Step, creates, meets,
  open_fails, looks, removes, remove_fails, checks, backs_off, cannot_back_off, writes, write_fails,
  starter_of, set_starter, take_step, step_starter, run_starters,
}

-- A starter that has neither made a file nor found one stale; only the owner has claimed the file.
abbrev pub Outside : ℕ → ℕ → Starter → Type 0
Outside owner p trying = Unit
Outside owner p met = Unit
Outside owner p yielded = Unit
Outside owner p failed = Unit
Outside owner p claimed = p ≡ owner
Outside owner p _ = Path Bool true false

pub record IsSole (owner : ℕ) (file : ℕ × Text) (s : Starters) : Type 0 where
  pub holds : s.pid_file ≡ some file
  pub outside : (p : ℕ) → Outside owner p (s.starter p)

becomes :
    (P : Starters → Type 0) (s t : Starters) → Path (Option Starters) (some s) (some t) → P s → P t
becomes P s t e h = subst P (some-injective s t e) h

module _ (owner : ℕ) (file : ℕ × Text) where
  stays :
      (s : Starters) (p : ℕ) (x : Starter)
      → IsSole owner file s
      → Outside owner p x
      → IsSole owner file (record s { starter = set_starter p x s.starter })
  stays s p x i h = record {
    holds = i.holds;
    outside = λ q. elim (Bool-cases (p == q)) [
      | inl e ↦ rw e (subst (λ r. Outside owner r x) ((==_iff p q).0 e) h)
      | inr e ↦ rw e (i.outside q)
    ];
  }

  goes :
      (s t : Starters) (p : ℕ) (x : Starter)
      → Path (Option Starters) (some (record s { starter = set_starter p x s.starter })) (some t)
      → IsSole owner file s
      → Outside owner p x
      → IsSole owner file t
  goes s t p x e i h = becomes (IsSole owner file) _ t e (stays s p x i h)

  module _ (system : System) (is_live : owner_alive system file.1 ≡ true) where
    live :
        (s : Starters)
        → IsSole owner file s
        → pid_file_owner_alive system (text_of s.pid_file) ≡ true
    live s i = ap (λ file. pid_file_owner_alive system (text_of file)) i.holds ∙ is_live

    take_step-IsSole :
        (e : Step) (s t : Starters) (x : Starter)
        → IsSole owner file s
        → Outside owner (starter_of e) x
        → take_step system e s x ≡ some t
        → IsSole owner file t
    unfolding take_step
    take_step-IsSole (creates p) s t trying i h e = ground (arith, i.holds, e)
    take_step-IsSole (meets p) s t trying i h e = goes s t p met (ground (arith, i.holds, e)) i tt
    take_step-IsSole (open_fails p) s t trying i h e = goes s t p failed e i tt
    take_step-IsSole (looks p) s t met i h e = goes s t p yielded (ground (arith, live s i, e)) i tt
    take_step-IsSole (removes p) s t stale i h e = absurd (cc)
    take_step-IsSole (remove_fails p) s t stale i h e = absurd (cc)
    take_step-IsSole (checks p) s t created i h e = absurd (cc)
    take_step-IsSole (backs_off p) s t yielding i h e = absurd (cc)
    take_step-IsSole (cannot_back_off p) s t yielding i h e = absurd (cc)
    take_step-IsSole (writes p) s t sole i h e = absurd (cc)
    take_step-IsSole (write_fails p) s t sole i h e = absurd (cc)
    take_step-IsSole _ s t _ i h e = ground (arith, e)

    run_starters-IsSole :
        (es : List Step) (s t : Starters)
        → IsSole owner file s
        → run_starters system es s ≡ some t
        → IsSole owner file t
    unfolding run_starters step_starter
    run_starters-IsSole [] s t i e = becomes (IsSole owner file) s t e i
    run_starters-IsSole (e ∷ es) s t i h = elim (Option-cases (step_starter system e s)) [
      | inl n ↦ ground (arith, h, n)
      | inr r ↦
          run_starters-IsSole es r.0 t
            (take_step-IsSole e s r.0 (s.starter (starter_of e)) i (i.outside (starter_of e)) r.1)
            (ground (arith, h, r.1))
    ]

-- No PID file, and every starter is before its claim.
abbrev pub idle : List Text → Starters
idle legacy = record { pid_file = none; legacy = legacy; starter = λ p. trying }

-- One starter alone.
abbrev pub alone : ℕ → List Step
alone p = creates p ∷ checks p ∷ writes p ∷ []

-- Two starters: the second finds the file of the first before there is a PID in it.
abbrev pub overlap : ℕ → ℕ → List Step
overlap p q =
    creates p
    ∷ meets q
    ∷ looks q
    ∷ removes q
    ∷ creates q
    ∷ checks p
    ∷ checks q
    ∷ writes p
    ∷ writes q
    ∷ []

abbrev pub BothClaimed : ℕ → ℕ → Option Starters → Type 0
BothClaimed p q none = Path Bool true false
BothClaimed p q (some s) = (s.starter p ≡ claimed) × (s.starter q ≡ claimed)

module _ (system : System) where
  advance :
      (P : Option Starters → Type 0) (e : Step) (es : List Step) (s t : Starters) (x : Starter)
      → s.starter (starter_of e) ≡ x
      → take_step system e s x ≡ some t
      → P (run_starters system es t)
      → P (run_starters system (e ∷ es) s)
  unfolding run_starters step_starter
  advance P e es s t x h k r =
      let now : step_starter system e s ≡ some t = unfold step_starter in (rw h k) in
      rw (now, run_starters) r

  at_end : (P : Option Starters → Type 0) (s : Starters) → P (some s) → P (run_starters system [] s)
  unfolding run_starters
  at_end P s h = h

  -- A file without a PID has no owner.
  owner_alive_empty : owner_alive system [] ≡ false
  unfolding owner_alive trim trim_with trim_start_with trim_end_with parse_pid
  owner_alive_empty = refl

  module _ (legacy : List Text) (no_legacy : any (owner_alive system) legacy ≡ false) where
    alone-IsSole :
        (P : Option Starters → Type 0) (p : ℕ) (es : List Step)
        → ((s : Starters) → IsSole p (p, print_pid p) s → P (run_starters system es s))
        → P (run_starters system (alone p ++ es) (idle legacy))
    unfolding take_step
    alone-IsSole P p es h = advance P (creates p) _ _ _ trying refl refl (
        advance P (checks p) _ _ _ created (ground arith) refl (
          advance P (writes p) _ _ _ sole (ground (arith, no_legacy)) refl (
            h _ (record {
              holds = ground arith;
              outside = λ q. elim (Bool-cases (p == q)) [
                | inl e ↦ rw e (sym ((==_iff p q).0 e))
                | inr e ↦ rw e tt
              ];
            }))))

    race :
        (p q : ℕ)
        → (p == q) ≡ false
        → (q == p) ≡ false
        → BothClaimed p q (run_starters system (overlap p q) (idle legacy))
    unfolding take_step owner_alive
    race p q pq qp =
        let P = BothClaimed p q in
        advance P (creates p) _ _ _ trying refl refl (
          advance P (meets q) _ _ _ trying (ground (arith, pq)) refl (
            advance P (looks q) _ _ _ met (ground arith) refl (
              advance P (removes q) _ _ _ stale (ground (arith, owner_alive_empty)) refl (
                advance P (creates q) _ _ _ trying (ground arith) refl (
                  advance P (checks p) _ _ _ created (ground (arith, pq, qp)) refl (
                    advance P (checks q) _ _ _ created (ground (arith, pq, qp)) refl (
                      advance P (writes p) _ _ _ sole (ground (arith, pq, qp, no_legacy)) refl (
                        advance P (writes q) _ _ _ sole (ground (arith, pq, qp, no_legacy)) refl
                          (at_end P _ (ground (arith, pq, qp, no_legacy), ground arith))))))))))

    -- A claim that nobody disturbs is the last one: where no PID file is there and no older layout has a
    -- live owner, a starter that goes through its claim alone has the PID file, and whatever steps of
    -- any starters follow, however they are interleaved and fail, the file names that starter and no
    -- other one has claimed it. The PID of the starter is that of a live daemon.
    pub run_starters-alone-IsSole :
        (p : ℕ) (es : List Step) (t : Starters)
        → owner_alive system (print_pid p) ≡ true
        → run_starters system (alone p ++ es) (idle legacy) ≡ some t
        → IsSole p (p, print_pid p) t
    run_starters-alone-IsSole p es t live =
        alone-IsSole (λ o. o ≡ some t → IsSole p (p, print_pid p) t) p es
          (λ s i. run_starters-IsSole p (p, print_pid p) system live es s t i)

    -- Two starters can both claim the PID file: where no PID file is there and no older layout has a live
    -- owner, the second finds the file of the first before the PID is written, takes it for stale,
    -- removes it and makes its own; then both look for older layouts and both write.
    pub run_starters-overlap :
        (p q : ℕ) → p ≢ q → BothClaimed p q (run_starters system (overlap p q) (idle legacy))
    run_starters-overlap p q n = race p q (ground (arith, n)) (ground (arith, n))
