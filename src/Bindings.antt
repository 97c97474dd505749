-- ===== src/Bindings.antt =====
-- crates/sshwarden-config/src/bindings.rs: which host patterns a vault key is bound to. Text is a
-- list of code points; the time of a change is an argument; the map is an association list with one
-- entry for each key, where the source has a `BTreeMap`.
pub mod Patterns
pub mod Wellformed
pub mod Refinement
pub mod Locking
pub mod Waiting
pub mod Serial
mod Tests
use sshwarden.Base.{
  ℕ, ◌-◌, Bool, true, false, not, ◌||◌, List, [], ◌∷◌, ◌++◌, Option, none, some, ◌==◌,
  if◌then◌else◌, is_some, or_else, Text, codes, trim, is_whitespace, is_control,
  eq_ignore_ascii_case, any, retain, length, Map, lookup, insert, remove, Result, ok, err, ensure,
  ◌>>=◌, ◌>>◌,
}

pub record KeyBinding : Type 0 where
  pub hosts : List Text
  pub updated_at : ℕ

pub record HostBindingsFile : Type 0 where
  pub version : ℕ
  pub bindings : Map KeyBinding

unfoldable pub default_file : HostBindingsFile
default_file = record { version = 1; bindings = [] }

pub data PatternError : Type 0 where
  empty_pattern whitespace_in_pattern control_in_pattern unsafe_in_pattern : PatternError

-- The characters `"`, `'`, `\` and `#`.
unfoldable pub is_unsafe : ℕ → Bool
is_unsafe c = c == b'"' || c == 39 || c == b'\\' || c == b'#'

abbrev pub is_empty {ℓ} : {A : Type ℓ} → List A → Bool
is_empty [] = true
is_empty (x ∷ xs) = false

unfoldable pub validate_host_pattern : Text → Result PatternError (Unit {0})
unfolding is_unsafe
validate_host_pattern pattern_text = do
  ensure (not (is_empty (trim pattern_text))) empty_pattern
  ensure (not (any is_whitespace (trim pattern_text))) whitespace_in_pattern
  ensure (not (any is_control (trim pattern_text))) control_in_pattern
  ensure (not (any is_unsafe (trim pattern_text))) unsafe_in_pattern

-- The validation loop of `set_hosts`.
unfoldable pub validate_all : List Text → Result PatternError (Unit {0})
validate_all [] = ok tt
validate_all (h ∷ hs) = do validate_host_pattern h; validate_all hs

-- One round of its second loop.
unfoldable pub push_host : List Text → Text → List Text
push_host deduped h =
    if any (λ existing. eq_ignore_ascii_case existing (trim h)) deduped
    then deduped
    else deduped ++ trim h ∷ []

unfoldable pub dedup : List Text → List Text → List Text
unfolding push_host
dedup deduped [] = deduped
dedup deduped (h ∷ hs) = dedup (push_host deduped h) hs

unfoldable pub put_hosts : ℕ → Text → List Text → HostBindingsFile → HostBindingsFile
put_hosts now cipher_uuid [] file = record file { bindings = remove cipher_uuid file.bindings }
put_hosts now cipher_uuid (h ∷ hs) file = record file {
  bindings = insert cipher_uuid (record { hosts = h ∷ hs; updated_at = now }) file.bindings;
}

unfoldable pub set_hosts :
    ℕ → Text → List Text → HostBindingsFile → Result PatternError HostBindingsFile
set_hosts now cipher_uuid hosts file = do
  validate_all hosts
  ok (put_hosts now cipher_uuid (dedup [] hosts) file)

abbrev pub no_binding : KeyBinding
no_binding = record { hosts = []; updated_at = 0 }

-- `entry(..).or_default()`
abbrev pub binding_or_default : Text → HostBindingsFile → KeyBinding
binding_or_default cipher_uuid file = elim (lookup cipher_uuid file.bindings) [
  | none ↦ no_binding
  | some b ↦ b
]

unfoldable pub add_host : ℕ → Text → Text → HostBindingsFile → Result PatternError HostBindingsFile
add_host now cipher_uuid host file = do
  validate_host_pattern host
  ok (record file {
    bindings =
        insert cipher_uuid
          (record {
            hosts = push_host (binding_or_default cipher_uuid file).hosts host;
            updated_at = now;
          })
          file.bindings;
  })

-- What `remove_host` keeps.
unfoldable pub without_host : Text → List Text → List Text
without_host host hosts = retain (λ h. not (eq_ignore_ascii_case h (trim host))) hosts

unfoldable pub remove_host : ℕ → Text → Text → HostBindingsFile → HostBindingsFile × Bool
unfolding without_host
remove_host now cipher_uuid host file = elim (lookup cipher_uuid file.bindings) [
  | none ↦ (file, false)
  | some entry ↦
      let kept = without_host host entry.hosts in
      let removed = not (length kept == length entry.hosts) in
      if is_empty kept
      then (record file { bindings = remove cipher_uuid file.bindings }, removed)
      else (
        record file {
          bindings =
              insert cipher_uuid
                (record { hosts = kept; updated_at = if removed then now else entry.updated_at })
                file.bindings;
        },
        removed,
      )
]

unfoldable pub clear_key : Text → HostBindingsFile → HostBindingsFile × Bool
clear_key cipher_uuid file = (
  record file { bindings = remove cipher_uuid file.bindings },
  is_some (lookup cipher_uuid file.bindings),
)

-- `known` stands for the set of the ids that are known.
unfoldable pub prune_orphans : (Text → Bool) → HostBindingsFile → HostBindingsFile × ℕ
prune_orphans known file =
    let kept = retain (λ e. known e.0) file.bindings in
    (record file { bindings = kept }, length file.bindings - length kept)

-- The edits of a bindings file; one that is refused leaves the file as it was.
pub data Edit : Type 0 where
  sets : ℕ → Text → List Text → Edit
  adds removes : ℕ → Text → Text → Edit
  clears : Text → Edit
  prunes : (Text → Bool) → Edit

abbrev pub after : HostBindingsFile → Result PatternError HostBindingsFile → HostBindingsFile
after file (ok file') = file'
after file (err e) = file

unfoldable pub step : HostBindingsFile → Edit → HostBindingsFile
step file (sets now cipher_uuid hosts) = after file (set_hosts now cipher_uuid hosts file)
step file (adds now cipher_uuid host) = after file (add_host now cipher_uuid host file)
step file (removes now cipher_uuid host) = (remove_host now cipher_uuid host file).0
step file (clears cipher_uuid) = (clear_key cipher_uuid file).0
step file (prunes known) = (prune_orphans known file).0

unfoldable pub run : HostBindingsFile → List Edit → HostBindingsFile
run file [] = file
run file (e ∷ es) = run (step file e) es
