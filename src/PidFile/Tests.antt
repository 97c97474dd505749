-- ===== src/PidFile/Tests.antt =====
-- Starts of two daemons, 7 and 8, of one user.
use sshwarden.Base.{
  is_whitespace, trim_end_with, trim_with, trim_start_with, keep_end, trim, text_eq, retain, ◌≡◌,
  refl, true, false, List, [], ◌∷◌, ◌++◌, none, some, ◌==◌, if◌then◌else◌, Text, codes, arith, any,
}
use sshwarden.PidFile.{
  Process, System, print_pid, parse_pid, owner_alive, run_starters, Starters, Step, meets, looks,
  open_fails, process_is_sshwarden, set_starter, failed, yielded, met, claimed, sole, created,
  trying,
}
use sshwarden.PidFile.Starts.{
  IsSole, BothClaimed, idle, alone, overlap, run_starters-alone-IsSole, run_starters-overlap,
}

abbrev daemon : Process
daemon = record { exe = some (codes "/bin/sshwarden"); name = codes "sshwarden" }

abbrev shell : Process
shell = record { exe = none; name = codes "sh" }

abbrev system : System
system = record {
  current_exe = some (codes "/bin/sshwarden");
  file_name = λ path. some (codes "sshwarden");
  process = λ pid. if pid == 7 then some daemon else if pid == 8 then some daemon else some shell;
  removable = λ text. true;
}

prints_and_parses : parse_pid (print_pid 4194304) ≡ some 4194304
unfolding parse_pid print_pid
prints_and_parses = refl

daemon_is_live : owner_alive system (codes "7\n") ≡ true
unfolding owner_alive trim trim_with trim_end_with trim_start_with is_whitespace keep_end
    process_is_sshwarden text_eq
daemon_is_live = refl

-- The PID went to another program.
reused_pid_is_dead : owner_alive system (codes "9") ≡ false
unfolding owner_alive trim trim_with trim_end_with trim_start_with is_whitespace keep_end
    process_is_sshwarden text_eq
reused_pid_is_dead = refl

too_large_pid_is_dead : owner_alive system (codes "4294967303") ≡ false
unfolding owner_alive trim trim_with trim_end_with trim_start_with is_whitespace keep_end
too_large_pid_is_dead = refl

abbrev legacy : List Text
legacy = codes "9" ∷ []

abbrev later : List Step
later = meets 8 ∷ looks 8 ∷ open_fails 9 ∷ []

abbrev after : Starters
after = record {
  pid_file = some (7, codes "7");
  legacy = [];
  starter = set_starter 9 failed (
      set_starter 8 yielded (
        set_starter 8 met
          (set_starter 7 claimed (set_starter 7 sole (set_starter 7 created (λ p. trying))))));
}

second_yields : run_starters system (alone 7 ++ later) (idle legacy) ≡ some after
unfolding run_starters any owner_alive trim trim_with trim_end_with trim_start_with is_whitespace
    keep_end process_is_sshwarden text_eq print_pid retain
second_yields = refl

run_starters-alone-IsSole_example : IsSole 7 (7, print_pid 7) after
unfolding any owner_alive trim trim_with trim_end_with trim_start_with is_whitespace keep_end
    process_is_sshwarden text_eq print_pid
run_starters-alone-IsSole_example =
    run_starters-alone-IsSole system legacy refl 7 later after refl second_yields

run_starters-overlap_example : BothClaimed 7 8 (run_starters system (overlap 7 8) (idle legacy))
unfolding any owner_alive trim trim_with trim_end_with trim_start_with is_whitespace keep_end
    process_is_sshwarden text_eq
run_starters-overlap_example = run_starters-overlap system legacy refl 7 8 (ground arith)
