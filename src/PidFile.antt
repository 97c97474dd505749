-- ===== src/PidFile.antt =====
-- src/process.rs: the PID file that keeps a second daemon from starting. `claim_pid_file` is a loop that
-- several starters run at once, each a step at a time, on one file. Who runs under a PID is not changed
-- by their steps. A file that is removed and created anew is another one, told apart by its creator: a
-- starter writes to the file that it has created, which may be gone.
mod Running
mod Starts
mod Tests
use sshwarden.Base.{
  ℕ, zero, suc, ◌+◌, ◌-◌, ◌*◌, ◌/◌, ◌%◌, ◌^◌, Bool, true, false, not, ◌||◌, List, [], ◌∷◌, Option,
  none, some, ◌==◌, ltb, leb, if◌then◌else◌, Text, text_eq, trim, any, retain,
}

pub record Process : Type 0 where
  pub exe : Option Text
  pub name : Text

pub record System : Type 0 where
  pub current_exe : Option Text
  pub file_name : Text → Option Text
  pub process : ℕ → Option Process
  -- Whether a PID file of an older layout can be removed.
  pub removable : Text → Bool

-- `u32::from_str`, and `to_string` of a PID, which has ten digits at most.
unfoldable pub pid_digits : ℕ → Text → Option ℕ
pid_digits value [] = some value
pid_digits value (c ∷ s) =
    let value' = value * 10 + (c - b'0') in
    let rest = pid_digits value' s in
    if leb b'0' c
    then (if leb c b'9' then (if ltb value' (2 ^ 32) then rest else none) else none)
    else none

unfoldable pub pid_of_digits : Text → Option ℕ
unfolding pid_digits
pid_of_digits [] = none
pid_of_digits (c ∷ s) = pid_digits 0 (c ∷ s)

unfoldable pub parse_pid : Text → Option ℕ
unfolding pid_of_digits
parse_pid [] = none
parse_pid (c ∷ s) = if c == b'+' then pid_of_digits s else pid_of_digits (c ∷ s)

unfoldable pub print_digits : ℕ → ℕ → Text → Text
print_digits zero n out = out
print_digits (suc rounds) n out =
    let out' = (b'0' + n % 10) ∷ out in
    let rest = print_digits rounds (n / 10) out' in if ltb n 10 then out' else rest

unfoldable pub print_pid : ℕ → Text
unfolding print_digits
print_pid n = print_digits 10 n []

abbrev pub same : Option Text → Option Text → Bool
same (some a) (some b) = text_eq a b
same (some a) none = false
same none b = false

abbrev pub file_name_of : System → Option Text → Option Text
file_name_of system none = none
file_name_of system (some path) = system.file_name path

unfoldable pub process_is_sshwarden : System → Process → Bool
process_is_sshwarden system p =
    same p.exe system.current_exe || same (file_name_of system system.current_exe) (some p.name)

-- The answer for the PID that was read, and for the text of a file.
abbrev pub is_alive : System → Option ℕ → Bool
is_alive system none = false
is_alive system (some pid) = elim (system.process pid) [
  | none ↦ false
  | some p ↦ process_is_sshwarden system p
]

unfoldable pub owner_alive : System → Text → Bool
unfolding parse_pid
owner_alive system text = is_alive system (parse_pid (trim text))

-- `pid_file_owner_alive`, of a file that may be missing.
abbrev pub pid_file_owner_alive : System → Option Text → Bool
pid_file_owner_alive system none = false
pid_file_owner_alive system (some text) = owner_alive system text

-- Of the PID file and those of older layouts, each with its text where it can be read.
unfoldable pub is_daemon_running : System → Option Text → List (Option Text) → Bool
is_daemon_running system file legacy =
    pid_file_owner_alive system file || any (pid_file_owner_alive system) legacy

abbrev pub pid_in : Option Text → Option ℕ
pid_in none = none
pid_in (some text) = parse_pid (trim text)

unfoldable pub running_agent_pid : System → List (Option Text) → Option ℕ
running_agent_pid system [] = none
running_agent_pid system (file ∷ files) =
    let rest = running_agent_pid system files in
    if pid_file_owner_alive system file
    then elim (pid_in file) [ none ↦ rest | some pid ↦ some pid ]
    else rest

-- How far a call of `claim_pid_file` is: before the opening, behind one that found a file, before the
-- removal of a stale file, with a new file, behind the look at older layouts, and at the end.
pub data Starter : Type 0 where
  trying met stale created yielding sole claimed yielded failed : Starter

pub record Starters : Type 0 where
  pub pid_file : Option (ℕ × Text)
  pub legacy : List Text
  pub starter : ℕ → Starter

pub data Step : Type 0 where
  creates meets open_fails looks removes remove_fails checks backs_off cannot_back_off : ℕ → Step
  writes write_fails : ℕ → Step

abbrev pub starter_of : Step → ℕ
starter_of (creates p) = p
starter_of (meets p) = p
starter_of (open_fails p) = p
starter_of (looks p) = p
starter_of (removes p) = p
starter_of (remove_fails p) = p
starter_of (checks p) = p
starter_of (backs_off p) = p
starter_of (cannot_back_off p) = p
starter_of (writes p) = p
starter_of (write_fails p) = p

abbrev pub text_of : Option (ℕ × Text) → Option Text
text_of none = none
text_of (some file) = some file.1

abbrev pub set_starter : ℕ → Starter → (ℕ → Starter) → ℕ → Starter
set_starter p x starter q = if p == q then x else starter q

-- The starter goes on, with the file as it is or as it leaves it.
abbrev pub leaves : ℕ → Starter → Option (ℕ × Text) → Starters → Option Starters
leaves p x file s = some (record s { pid_file = file; starter = set_starter p x s.starter })

abbrev pub goes_on : ℕ → Starter → Starters → Option Starters
goes_on p x s = leaves p x s.pid_file s

abbrev pub written : ℕ → Option (ℕ × Text) → Option (ℕ × Text)
written p none = none
written p (some file) = if p == file.0 then some (p, print_pid p) else some file

module _ (system : System) where
  -- `cleanup_legacy_runtime_files`, as far as the PID files go.
  unfoldable pub cleanup_legacy : List Text → List Text
  cleanup_legacy files =
      retain (λ text. owner_alive system text || not (system.removable text)) files

  -- A step that cannot happen gives nothing.
  unfoldable pub take_step : Step → Starters → Starter → Option Starters
  unfolding cleanup_legacy
  take_step (creates p) s trying = elim s.pid_file [
    | none ↦ leaves p created (some (p, [])) s
    | some file ↦ none
  ]
  take_step (meets p) s trying = elim s.pid_file [ none ↦ none | some file ↦ goes_on p met s ]
  take_step (open_fails p) s trying = goes_on p failed s
  take_step (looks p) s met =
      goes_on p (if pid_file_owner_alive system (text_of s.pid_file) then yielded else stale) s
  take_step (removes p) s stale = leaves p trying none s
  take_step (remove_fails p) s stale = goes_on p failed s
  take_step (checks p) s created =
      goes_on p (if any (owner_alive system) s.legacy then yielding else sole) s
  take_step (backs_off p) s yielding = leaves p yielded none s
  take_step (cannot_back_off p) s yielding = goes_on p yielded s
  take_step (writes p) s sole =
      leaves p claimed (written p s.pid_file) (record s { legacy = cleanup_legacy s.legacy })
  take_step (write_fails p) s sole = goes_on p failed s
  take_step _ s _ = none

  unfoldable pub step_starter : Step → Starters → Option Starters
  unfolding take_step
  step_starter e s = take_step e s (s.starter (starter_of e))

  unfoldable pub run_starters : List Step → Starters → Option Starters
  unfolding step_starter
  run_starters [] s = some s
  run_starters (e ∷ es) s = elim (step_starter e s) [ none ↦ none | some t ↦ run_starters es t ]
