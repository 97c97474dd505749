-- ===== src/Logging/Tests.antt =====
-- Runs of the log file, some of them the tests of src/logging.rs.
use sshwarden.Base.{
  ◌≡◌, refl, true, false, List, [], ◌∷◌, ◌++◌, some, none, Text, codes, arith, length,
}
use sshwarden.Logging.{
  RotatingFileWriter, at_path, Write, open_log, write, write_all, should_rotate,
}
use sshwarden.Logging.Trail.{IsOpen, trail, Ends, all_taken, write_all-Ends}
use sshwarden.Logging.Size.{healthy, IsBounded, write_all-IsBounded}
use sshwarden.Logging.Lost.{IsLost, faults, write_all-IsLost}

abbrev record_of : Text → Write
record_of text = record { faults = healthy; accepted = some (length text); buf = text }

abbrev records : List Write
records =
    record_of (codes "first-record\n")
    ∷ record_of (codes "second-record\n")
    ∷ record_of (codes "third-record\n")
    ∷ []

abbrev start : RotatingFileWriter
start = record {
  max_bytes = 32;
  written = 0;
  rotation_warned = false;
  file = at_path;
  log = some [];
  backup = none;
}

opens_empty : open_log none none true 32 ≡ start
unfolding open_log
opens_empty = refl

rotates_to_single_backup :
    (write_all records start).backup ≡ some (codes "first-record\nsecond-record\n")
unfolding write_all
rotates_to_single_backup = refl

rotation_keeps_the_record : (write_all records start).log ≡ some (codes "third-record\n")
unfolding write_all
rotation_keeps_the_record = refl

start-IsOpen : IsOpen start
start-IsOpen = record { in_place = refl; present = refl }

write_all-Ends_example :
    IsOpen (write_all records start)
    × Ends (trail start ++ all_taken records) (trail (write_all records start))
write_all-Ends_example = write_all-Ends records start start-IsOpen (refl, (refl, (refl, tt)))

write_all-IsBounded_example : IsBounded 32 (write_all records start)
write_all-IsBounded_example =
    write_all-IsBounded records 32 start (omega arith) (omega arith)
      ((refl, omega arith), ((refl, omega arith), ((refl, omega arith), tt)))
      (record { is_open = start-IsOpen; limit = refl; counted = refl; bounded = omega arith })

abbrev nearly_full : RotatingFileWriter
nearly_full = record start { max_bytes = 4; written = 3; log = some (codes "abc") }

write_all-IsLost_example : IsLost (
    write_all records (
      write healthy
        (some 2)
        (codes "yz")
        (write (faults true false) (some 2) (codes "vx") nearly_full)))
unfolding should_rotate write
write_all-IsLost_example =
    write_all-IsLost (some 2) (some 2) (codes "vx") (codes "yz") healthy records nearly_full
      (record { in_place = refl; present = refl }) refl refl refl refl
