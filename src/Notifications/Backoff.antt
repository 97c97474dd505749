-- ===== src/Notifications/Backoff.antt =====
-- How long the loop waits between its attempts.
use sshwarden.Base.{
  Bool, true, false, ℕ, ◌≤◌, max, Option, none, some, List, [], ◌∷◌, arith, All, All-append,
}
use sshwarden.Notifications.{
  NotificationOptions, Emission, connection_status, fallback_sync_due, LoopState, initial,
  run_message_loop, Happening, fails, lost, connects_now, emit_recovery_sync,
  maybe_emit_fallback_sync, next_backoff, on_failure, on_connect, on_loss, step, run,
}

abbrev pub DelayWithin : ℕ → Option ℕ → Type 0
DelayWithin limit none = Unit
DelayWithin limit (some delay) = delay ≤ limit

-- The delay that a report names, if it names one.
abbrev pub RetriesWithin : ℕ → Emission → Type 0
RetriesWithin limit (connection_status st) = DelayWithin limit st.next_retry_in
RetriesWithin limit fallback_sync_due = Unit

module _ (options : NotificationOptions) where
  -- The longest delay: the configured limit, or the first delay where that is more.
  abbrev pub longest : ℕ
  longest = max 1000 options.reconnect_max_backoff

  emit-RetriesWithin :
      (now sent : ℕ) (last : Option ℕ)
      → All (RetriesWithin longest) (emit_recovery_sync options now sent last).1
  unfolding emit_recovery_sync
  emit-RetriesWithin now sent last = ground arith

  maybe-RetriesWithin :
      (k now sent : ℕ) (last : Option ℕ)
      → All (RetriesWithin longest) (maybe_emit_fallback_sync options k now sent last).1
  unfolding maybe_emit_fallback_sync
  maybe-RetriesWithin k now sent last = ground (arith, emit-RetriesWithin now sent last)

  next_backoff-le : (b : ℕ) → next_backoff options b ≤ longest
  unfolding next_backoff
  next_backoff-le b = ground arith

  run-RetriesWithin :
      (hs : List Happening) (s : LoopState)
      → s.backoff ≤ longest
      → All (RetriesWithin longest) (run options s hs)
  unfolding run step on_failure on_loss on_connect
  run-RetriesWithin [] s b = tt
  run-RetriesWithin (fails now sent e ∷ hs) s b = (
    b,
    All-append _ _ _ (maybe-RetriesWithin _ now sent s.last_fallback_sent)
        (run-RetriesWithin hs _ (next_backoff-le s.backoff)),
  )
  run-RetriesWithin (lost now sent e ∷ hs) s b =
      All-append _ _ _ (All-append _ _ _ (emit-RetriesWithin now sent s.last_fallback_sent) (b, tt))
        (run-RetriesWithin hs _ (next_backoff-le s.backoff))
  run-RetriesWithin (connects_now ∷ hs) s b = (tt, run-RetriesWithin hs _ (omega arith))

  -- However long the hub is away, each report of a retry names a delay of at most the configured limit,
  -- or of the first second where the limit is less.
  pub run_message_loop_retries :
      (has_connection : Bool) (hs : List Happening)
      → All (RetriesWithin longest) (run_message_loop options has_connection hs)
  unfolding run_message_loop
  run_message_loop_retries true hs = (tt, run-RetriesWithin hs (initial true) (omega arith))
  run_message_loop_retries false hs = run-RetriesWithin hs (initial false) (omega arith)
