-- ===== src/PidFile/Running.antt =====
-- The two questions for a running daemon.
use sshwarden.Base.{
  ℕ, ◌≡◌, ◌≢◌, ◌↔◌, refl, inl, inr, true, List, [], ◌∷◌, Option, none, some, Bool-cases,
  Option-cases, arith, Text, any,
}
use sshwarden.PidFile.{
  System, pid_file_owner_alive, owner_alive, is_daemon_running, pid_in, running_agent_pid,
}

module _ (system : System) where
  -- A live owner has a PID.
  pid_file_owner_alive-pid_in :
      (file : Option Text)
      → pid_file_owner_alive system file ≡ true
      → (pid : ℕ) × (pid_in file ≡ some pid)
  unfolding owner_alive
  pid_file_owner_alive-pid_in none h = ground (arith, h)
  pid_file_owner_alive-pid_in (some text) h = elim (Option-cases (pid_in (some text))) [
    | inl n ↦ ground (arith, h, n)
    | inr r ↦ r
  ]

  running_agent_pid-any :
      (files : List (Option Text))
      → (any (pid_file_owner_alive system) files ≡ true) ↔ (running_agent_pid system files ≢ none)
  unfolding running_agent_pid any
  running_agent_pid-any [] = (λ h. ground (arith, h), λ h. absurd (h refl))
  running_agent_pid-any (file ∷ files) = elim (Bool-cases (pid_file_owner_alive system file)) [
    | inl l ↦
        let pid = pid_file_owner_alive-pid_in file l in
        (λ h k. ground (arith, l, pid.1, k), λ h. ground (arith, l))
    | inr l ↦ let rest = running_agent_pid-any files in rw l rest
  ]

  -- A daemon is said to run exactly where a PID is found for it.
  pub is_daemon_running-running_agent_pid :
      (file : Option Text) (legacy : List (Option Text))
      → (is_daemon_running system file legacy ≡ true)
        ↔ (running_agent_pid system (file ∷ legacy) ≢ none)
  unfolding is_daemon_running any
  is_daemon_running-running_agent_pid file legacy = running_agent_pid-any (file ∷ legacy)
