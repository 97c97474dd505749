-- ===== src/Bindings/Wellformed.antt =====
-- The bindings that the operations build up.
use sshwarden.Base.{
  ℕ, ◌≢◌, inl, inr, List, [], ◌∷◌, arith, Text, lookup, remove, Distinct, AllEntries,
  insert-Distinct, remove-Distinct, insert-AllEntries, remove-AllEntries, lookup-AllEntries,
  Bool-cases, Option-cases, Result-cases, retain_keys-Distinct, retain-All_of,
}
use sshwarden.Bindings.{
  KeyBinding, HostBindingsFile, validate_host_pattern, validate_all, dedup, put_hosts, set_hosts,
  add_host, binding_or_default, without_host, remove_host, clear_key, prune_orphans, Edit, sets,
  adds, removes, clears, prunes, after, step, run, is_empty,
}
use sshwarden.Bindings.Patterns.{
  IsHostList, push_host-IsHostList, push_host-ne-nil, without_host-IsHostList, dedup-IsHostList,
}

-- A binding is kept only for hosts: at least one, each stored in its checked and trimmed form, no two
-- alike.
pub record IsBinding (b : KeyBinding) : Type 0 where
  pub bound : b.hosts ≢ []
  pub hosts_ok : IsHostList b.hosts

abbrev IsEntry : Text → KeyBinding → Type 0
IsEntry cipher_uuid b = IsBinding b

pub record IsWellFormed (file : HostBindingsFile) : Type 0 where
  pub distinct : Distinct file.bindings
  pub entries : AllEntries IsEntry file.bindings

put_hosts-IsWellFormed :
    (now : ℕ) (cipher_uuid : Text) (hosts : List Text) (file : HostBindingsFile)
    → IsHostList hosts
    → IsWellFormed file
    → IsWellFormed (put_hosts now cipher_uuid hosts file)
unfolding put_hosts
put_hosts-IsWellFormed now cipher_uuid [] file l w = record {
  distinct = remove-Distinct cipher_uuid file.bindings w.distinct;
  entries = remove-AllEntries IsEntry cipher_uuid file.bindings w.entries;
}
put_hosts-IsWellFormed now cipher_uuid (h ∷ hs) file l w = record {
  distinct = insert-Distinct cipher_uuid _ file.bindings w.distinct;
  entries =
      insert-AllEntries IsEntry cipher_uuid _ file.bindings
        (record { bound = λ e. cc; hosts_ok = l }) w.entries;
}

set_hosts-IsWellFormed :
    (now : ℕ) (cipher_uuid : Text) (hosts : List Text) (file : HostBindingsFile)
    → IsWellFormed file
    → IsWellFormed (after file (set_hosts now cipher_uuid hosts file))
unfolding set_hosts
set_hosts-IsWellFormed now cipher_uuid hosts file w = elim (Result-cases (validate_all hosts)) [
  | inl (_, bad) ↦ rw (bad, set_hosts) w
  | inr (_, good) ↦
      rw (good, set_hosts)
        (put_hosts-IsWellFormed now cipher_uuid (dedup [] hosts) file
          (dedup-IsHostList hosts [] good (record { stored = tt; no_repeat = tt })) w)
]

binding-IsHostList :
    (cipher_uuid : Text) (file : HostBindingsFile)
    → IsWellFormed file
    → IsHostList (binding_or_default cipher_uuid file).hosts
binding-IsHostList cipher_uuid file w = elim (Option-cases (lookup cipher_uuid file.bindings)) [
  | inl e ↦ rw (e, binding_or_default) (record { stored = tt; no_repeat = tt })
  | inr (b, e) ↦
      rw (e, binding_or_default)
        (lookup-AllEntries IsEntry cipher_uuid file.bindings b w.entries e).hosts_ok
]

add_host-IsWellFormed :
    (now : ℕ) (cipher_uuid host : Text) (file : HostBindingsFile)
    → IsWellFormed file
    → IsWellFormed (after file (add_host now cipher_uuid host file))
unfolding add_host
add_host-IsWellFormed now cipher_uuid host file w =
    elim (Result-cases (validate_host_pattern host)) [
      | inl (_, bad) ↦ rw (bad, add_host) w
      | inr (_, good) ↦
          rw (good, add_host)
            (record {
              distinct = insert-Distinct cipher_uuid _ file.bindings w.distinct;
              entries =
                  insert-AllEntries IsEntry cipher_uuid _ file.bindings
                    (record {
                      bound = push_host-ne-nil _ host;
                      hosts_ok =
                          push_host-IsHostList _ host good (binding-IsHostList cipher_uuid file w);
                    })
                    w.entries;
            })
    ]

without-IsWellFormed :
    (cipher_uuid : Text) (file : HostBindingsFile)
    → IsWellFormed file
    → IsWellFormed (record file { bindings = remove cipher_uuid file.bindings })
without-IsWellFormed cipher_uuid file w = record {
  distinct = remove-Distinct cipher_uuid file.bindings w.distinct;
  entries = remove-AllEntries IsEntry cipher_uuid file.bindings w.entries;
}

remove_host-IsWellFormed :
    (now : ℕ) (cipher_uuid host : Text) (file : HostBindingsFile)
    → IsWellFormed file
    → IsWellFormed (remove_host now cipher_uuid host file).0
unfolding remove_host
remove_host-IsWellFormed now cipher_uuid host file w =
    elim (Option-cases (lookup cipher_uuid file.bindings)) [
      | inl e ↦ rw (e, remove_host) w
      | inr (b, e) ↦ elim (Bool-cases (is_empty (without_host host b.hosts))) [
        | inl gone ↦ rw (e, remove_host) (rw gone (without-IsWellFormed cipher_uuid file w))
        | inr left ↦
            rw (e, remove_host)
              (rw left (record {
                distinct = insert-Distinct cipher_uuid _ file.bindings w.distinct;
                entries =
                    insert-AllEntries IsEntry cipher_uuid _ file.bindings
                      (record {
                        bound = λ h. ground arith;
                        hosts_ok =
                            without_host-IsHostList host b.hosts
                              (lookup-AllEntries IsEntry cipher_uuid file.bindings b w.entries
                                e).hosts_ok;
                      })
                      w.entries;
              }))
      ]
    ]

pub step-IsWellFormed :
    (file : HostBindingsFile) (e : Edit) → IsWellFormed file → IsWellFormed (step file e)
unfolding step clear_key prune_orphans
step-IsWellFormed file (sets now cipher_uuid hosts) w =
    set_hosts-IsWellFormed now cipher_uuid hosts file w
step-IsWellFormed file (adds now cipher_uuid host) w =
    add_host-IsWellFormed now cipher_uuid host file w
step-IsWellFormed file (removes now cipher_uuid host) w =
    remove_host-IsWellFormed now cipher_uuid host file w
step-IsWellFormed file (clears cipher_uuid) w = without-IsWellFormed cipher_uuid file w
step-IsWellFormed file (prunes known) w = record {
  distinct = retain_keys-Distinct known file.bindings w.distinct;
  entries = retain-All_of (λ e. IsEntry e.0 e.1) (λ e. known e.0) file.bindings w.entries;
}

-- Whatever is edited, every key has at most one binding, no binding is empty, and each holds only
-- patterns that pass the check, in trimmed form, no two of them alike but for case.
pub run-IsWellFormed :
    (file : HostBindingsFile) (es : List Edit) → IsWellFormed file → IsWellFormed (run file es)
unfolding run
run-IsWellFormed file [] w = w
run-IsWellFormed file (e ∷ es) w = run-IsWellFormed (step file e) es (step-IsWellFormed file e w)
