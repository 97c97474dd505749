-- ===== src/Notifications/Throttle.antt =====
-- How often the loop asks for a fallback sync, and how long it waits between attempts.
use sshwarden.Base.{
  Bool, true, false, ℕ, suc, ◌+◌, ◌-◌, ◌*◌, ◌≤◌, ◌≡◌, ◌⊎◌, List, [], ◌∷◌, ◌++◌, Option, none, some,
  arith,
}
use sshwarden.Notifications.{
  NotificationOptions, NotificationStatus, Emission, connection_status, fallback_sync_due,
  LoopState, initial, run_message_loop, Happening, fails, lost, connects_now, recovery_sync_due,
  emit_recovery_sync, maybe_emit_fallback_sync, on_failure, on_connect, on_loss, step, run,
  saturating_next,
}

-- The number of fallback syncs asked for.
pub fallbacks : List Emission → ℕ
fallbacks [] = 0
fallbacks (fallback_sync_due ∷ es) = suc (fallbacks es)
fallbacks (connection_status s ∷ es) = fallbacks es

fallbacks-append : (xs ys : List Emission) → fallbacks (xs ++ ys) ≡ fallbacks xs + fallbacks ys
unfolding fallbacks
fallbacks-append [] ys = omega arith
fallbacks-append (fallback_sync_due ∷ xs) ys = omega (arith, fallbacks-append xs ys)
fallbacks-append (connection_status s ∷ xs) ys = fallbacks-append xs ys

fallbacks-lost :
    (due rest : List Emission) (st : NotificationStatus)
    → fallbacks ((due ++ connection_status st ∷ []) ++ rest) ≡ fallbacks due + fallbacks rest
unfolding fallbacks
fallbacks-lost due rest st = omega (
  arith,
  fallbacks-append (due ++ connection_status st ∷ []) rest,
  fallbacks-append due (connection_status st ∷ []),
)

-- The happenings follow one another, from time `t` to time `end`.
abbrev pub Follows : ℕ → List Happening → ℕ → Type 0
Follows t [] end = t ≤ end
Follows t (fails now sent e ∷ hs) end = (t ≤ now) × (now ≤ sent) × Follows sent hs end
Follows t (lost now sent e ∷ hs) end = (t ≤ now) × (now ≤ sent) × Follows sent hs end
Follows t (connects_now ∷ hs) end = Follows t hs end

-- The last sync was sent by time `t`.
abbrev SentBy : Option ℕ → ℕ → Type 0
SentBy none t = Unit
SentBy (some last) t = last ≤ t

-- What is left to spend: `n` more syncs at intervals `i` up to `end`.
abbrev Budget : ℕ → Option ℕ → ℕ → ℕ → ℕ → Type 0
Budget i none t end n = n * i + t ≤ end + i
Budget i (some last) t end n = n * i + last ≤ end

-- A happening asks for no sync, or for one that is due.
abbrev Spends : ℕ → Option ℕ → ℕ → ℕ → Option ℕ → ℕ → Type 0
Spends i none now sent last' n = ((last' ≡ none) × (n ≡ 0)) ⊎ ((last' ≡ some sent) × (n ≡ 1))
Spends i (some l) now sent last' n =
    ((last' ≡ some l) × (n ≡ 0)) ⊎ ((last' ≡ some sent) × (n ≡ 1) × (i ≤ now - l))

one_more : (m i : ℕ) → (1 + m) * i ≡ i + m * i
one_more m i = grind arith

spend-Budget :
    (i : ℕ) (last : Option ℕ) (t now sent end : ℕ) (last' : Option ℕ) (n m : ℕ)
    → t ≤ now
    → now ≤ sent
    → sent ≤ end
    → SentBy last t
    → Spends i last now sent last' n
    → Budget i last' sent end m
    → Budget i last t end (n + m)
spend-Budget i none t now sent end last' n m p q r by spent b = ground (arith, one_more m i)
spend-Budget i (some l) t now sent end last' n m p q r by spent b = ground (arith, one_more m i)

Follows-le : (t : ℕ) (hs : List Happening) (end : ℕ) → Follows t hs end → t ≤ end
Follows-le t [] end f = f
Follows-le t (fails now sent e ∷ hs) end (p, q, f) = omega (arith, Follows-le sent hs end f)
Follows-le t (lost now sent e ∷ hs) end (p, q, f) = omega (arith, Follows-le sent hs end f)
Follows-le t (connects_now ∷ hs) end f = Follows-le t hs end f

spend-SentBy :
    (i : ℕ) (last : Option ℕ) (t now sent : ℕ) (last' : Option ℕ) (n : ℕ)
    → t ≤ now
    → now ≤ sent
    → SentBy last t
    → Spends i last now sent last' n
    → SentBy last' sent
spend-SentBy i last t now sent last' n p q by s = ground arith

nil-Budget : (i : ℕ) (last : Option ℕ) (t end : ℕ) → t ≤ end → SentBy last t → Budget i last t end 0
nil-Budget i none t end p by = ground arith
nil-Budget i (some l) t end p by = ground arith

module _ (options : NotificationOptions) where
  emit-Spends :
      (now sent : ℕ) (last : Option ℕ)
      → Spends options.fallback_sync_interval last now sent
          (emit_recovery_sync options now sent last).0
          (fallbacks (emit_recovery_sync options now sent last).1)
  unfolding emit_recovery_sync recovery_sync_due fallbacks
  emit-Spends now sent none = ground arith
  emit-Spends now sent (some l) = ground arith

  maybe-Spends :
      (k now sent : ℕ) (last : Option ℕ)
      → Spends options.fallback_sync_interval last now sent
          (maybe_emit_fallback_sync options k now sent last).0
          (fallbacks (maybe_emit_fallback_sync options k now sent last).1)
  unfolding maybe_emit_fallback_sync fallbacks
  maybe-Spends k now sent none = ground (arith, emit-Spends now sent none)
  maybe-Spends k now sent (some l) = ground (arith, emit-Spends now sent (some l))

  run-Budget :
      (hs : List Happening) (s : LoopState) (t end : ℕ)
      → Follows t hs end
      → SentBy s.last_fallback_sent t
      → Budget options.fallback_sync_interval s.last_fallback_sent t end
          (fallbacks (run options s hs))
  unfolding run step on_failure on_loss on_connect fallbacks
  run-Budget [] s t end f by = nil-Budget _ s.last_fallback_sent t end f by
  run-Budget (fails now sent e ∷ hs) s t end (p, q, f) by =
      let k = saturating_next 32 s.consecutive_failures in
      let last = s.last_fallback_sent in
      let spent = maybe-Spends k now sent last in
      rw (fallbacks-append (maybe_emit_fallback_sync options k now sent last).1) (
        spend-Budget _ last t now sent end _ _ _ p q (Follows-le sent hs end f) by spent
          (run-Budget hs _ sent end f (spend-SentBy _ last t now sent _ _ p q by spent)))
  run-Budget (lost now sent e ∷ hs) s t end (p, q, f) by =
      let last = s.last_fallback_sent in
      let spent = emit-Spends now sent last in
      rw (fallbacks-lost (emit_recovery_sync options now sent last).1) (
        spend-Budget _ last t now sent end _ _ _ p q (Follows-le sent hs end f) by spent
          (run-Budget hs _ sent end f (spend-SentBy _ last t now sent _ _ p q by spent)))
  run-Budget (connects_now ∷ hs) s t end f by = run-Budget hs _ t end f by

  -- The client asks for fallback syncs at most once, and once more for each interval that passes, however
  -- often the connection fails and is lost.
  pub fallbacks-run_message_loop :
      (has_connection : Bool) (hs : List Happening) (t end : ℕ)
      → Follows t hs end
      → fallbacks (run_message_loop options has_connection hs) * options.fallback_sync_interval + t
        ≤ end + options.fallback_sync_interval
  unfolding run_message_loop fallbacks
  fallbacks-run_message_loop true hs t end f = run-Budget hs (initial true) t end f tt
  fallbacks-run_message_loop false hs t end f = run-Budget hs (initial false) t end f tt
