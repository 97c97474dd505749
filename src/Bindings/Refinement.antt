-- ===== src/Bindings/Refinement.antt =====
-- The bindings file seen as a relation between keys and host patterns.
use mathlib.Core.Path.{fun_ext}
use sshwarden.Base.{
  ℕ, ◌≡◌, refl, ap, ◌∙◌, inl, inr, Bool, true, not, ◌&&◌, ◌||◌, List, [], ◌∷◌, map, arith, Text,
  trim, lookup, insert, remove, lookup-insert, lookup-remove, lookup-retain_keys, Distinct, text_eq,
  text_eq_iff, Result-cases, Bool-cases, Option-cases, if◌then◌else◌, eq_ignore_ascii_case, is_ok,
  any, retain, length, length-retain-le, ◌==◌,
}
use sshwarden.Bindings.{
  KeyBinding, HostBindingsFile, validate_host_pattern, validate_all, dedup, put_hosts, set_hosts,
  add_host, binding_or_default, without_host, remove_host, clear_key, prune_orphans, is_empty, Edit,
  sets, adds, removes, clears, prunes, after, step, run,
}
use sshwarden.Bindings.Patterns.{lists, push_host-lists, dedup-lists, without_host-lists}
use sshwarden.Bindings.Wellformed.{IsWellFormed, step-IsWellFormed}

-- Is key `c` offered for the pattern `t`?
unfoldable pub bound : HostBindingsFile → Text → Text → Bool
bound file c t = lists (binding_or_default c file).hosts t

-- What an edit is to do to that relation.
unfoldable pub intended : Edit → (Text → Text → Bool) → Text → Text → Bool
intended (sets now k hosts) r c t =
    if is_ok (validate_all hosts) && text_eq k c then lists (map trim hosts) t else r c t
intended (adds now k host) r c t =
    if is_ok (validate_host_pattern host) && text_eq k c
    then r c t || eq_ignore_ascii_case (trim host) t
    else r c t
intended (removes now k host) r c t =
    if text_eq k c then r c t && not (eq_ignore_ascii_case (trim host) t) else r c t
intended (clears k) r c t = not (text_eq k c) && r c t
intended (prunes known) r c t = known c && r c t

unfoldable pub intended_run : List Edit → (Text → Text → Bool) → Text → Text → Bool
intended_run [] r = r
intended_run (e ∷ es) r = intended_run es (intended e r)

put_hosts-bound :
    (now : ℕ) (k : Text) (hosts : List Text) (file : HostBindingsFile) (c t : Text)
    → Distinct file.bindings
    → bound (put_hosts now k hosts file) c t
      ≡ (if text_eq k c then lists hosts t else bound file c t)
unfolding bound put_hosts any
put_hosts-bound now k [] file c t d = ground (arith, lookup-remove k c file.bindings d)
put_hosts-bound now k (h ∷ hs) file c t d =
    ground (arith, lookup-insert k c (record { hosts = h ∷ hs; updated_at = now }) file.bindings)

insert-bound :
    (k : Text) (b : KeyBinding) (file : HostBindingsFile) (c t : Text)
    → bound (record file { bindings = insert k b file.bindings }) c t
      ≡ (if text_eq k c then lists b.hosts t else bound file c t)
unfolding bound
insert-bound k b file c t = ground (arith, lookup-insert k c b file.bindings)

remove-bound :
    (k : Text) (file : HostBindingsFile) (c t : Text)
    → Distinct file.bindings
    → bound (record file { bindings = remove k file.bindings }) c t
      ≡ (not (text_eq k c) && bound file c t)
unfolding bound any
remove-bound k file c t d = ground (arith, lookup-remove k c file.bindings d)

set_hosts-bound :
    (now : ℕ) (k : Text) (hosts : List Text) (file : HostBindingsFile) (c t : Text)
    → Distinct file.bindings
    → bound (after file (set_hosts now k hosts file)) c t
      ≡ intended (sets now k hosts) (bound file) c t
unfolding set_hosts intended
set_hosts-bound now k hosts file c t d = elim (Result-cases (validate_all hosts)) [
  | inl (_, bad) ↦ rw (bad, set_hosts)
  | inr (_, good) ↦
      rw (good, set_hosts)
        (put_hosts-bound now k (dedup [] hosts) file c t d
          ∙ (unfold any in rw (dedup-lists hosts [] t)))
]

add_host-bound :
    (now : ℕ) (k host : Text) (file : HostBindingsFile) (c t : Text)
    → bound (after file (add_host now k host file)) c t
      ≡ intended (adds now k host) (bound file) c t
unfolding add_host intended
add_host-bound now k host file c t = elim (Result-cases (validate_host_pattern host)) [
  | inl (_, bad) ↦ rw (bad, add_host)
  | inr (_, good) ↦
      rw (good, add_host)
        (insert-bound k _ file c t
          ∙ rw (push_host-lists (binding_or_default k file).hosts host t)
              (unfold bound in ground (arith, text_eq_iff k c)))
]

is_empty-nil {ℓ} : {A : Type ℓ} (xs : List A) → is_empty xs ≡ true → xs ≡ []
is_empty-nil [] e = refl
is_empty-nil (x ∷ xs) e = cc

remove_host-bound :
    (now : ℕ) (k host : Text) (file : HostBindingsFile) (c t : Text)
    → Distinct file.bindings
    → bound (remove_host now k host file).0 c t ≡ intended (removes now k host) (bound file) c t
unfolding remove_host intended
remove_host-bound now k host file c t d = elim (Option-cases (lookup k file.bindings)) [
  | inl e ↦ rw (e, remove_host) (unfold bound any in ground (arith, text_eq_iff k c))
  | inr (b, e) ↦
      let kept = without_host-lists host b.hosts t in
      elim (Bool-cases (is_empty (without_host host b.hosts))) [
        | inl gone ↦
            rw (e, remove_host)
              (rw gone (
                remove-bound k file c t d
                ∙ unfold bound any in ground (arith, kept, is_empty-nil _ gone, text_eq_iff k c)))
        | inr left ↦
            rw (e, remove_host)
              (rw left
                (insert-bound k _ file c t ∙ unfold bound in ground (arith, kept, text_eq_iff k c)))
      ]
]

prune_orphans-bound :
    (known : Text → Bool) (file : HostBindingsFile) (c t : Text)
    → bound (prune_orphans known file).0 c t ≡ (known c && bound file c t)
unfolding bound prune_orphans any
prune_orphans-bound known file c t = ground (arith, lookup-retain_keys known c file.bindings)

-- Each edit does to the relation what it is meant to do, for every key and pattern, and an edit that
-- is refused does nothing.
pub step-bound :
    (file : HostBindingsFile) (e : Edit) (c t : Text)
    → Distinct file.bindings
    → bound (step file e) c t ≡ intended e (bound file) c t
unfolding step clear_key intended
step-bound file (sets now k hosts) c t d = set_hosts-bound now k hosts file c t d
step-bound file (adds now k host) c t d = add_host-bound now k host file c t
step-bound file (removes now k host) c t d = remove_host-bound now k host file c t d
step-bound file (clears k) c t d = remove-bound k file c t d
step-bound file (prunes known) c t d = prune_orphans-bound known file c t

-- So a whole history of edits does what is meant.
pub run-bound :
    (file : HostBindingsFile) (es : List Edit) (c t : Text)
    → IsWellFormed file
    → bound (run file es) c t ≡ intended_run es (bound file) c t
unfolding run intended_run
run-bound file [] c t w = refl
run-bound file (e ∷ es) c t w =
    run-bound (step file e) es c t (step-IsWellFormed file e w)
    ∙ ap (λ r. intended_run es r c t) (fun_ext λ k. fun_ext λ u. step-bound file e k u w.distinct)

length-without_host :
    (host : Text) (hs : List Text)
    → not (length (without_host host hs) == length hs) ≡ lists hs (trim host)
unfolding without_host retain any
length-without_host host [] = refl
length-without_host host (h ∷ hs) = ground (
  arith,
  length-without_host host hs,
  length-retain-le (λ e. not (eq_ignore_ascii_case e (trim host))) hs,
)

-- `remove_host` reports a removal exactly when the key was bound to the host.
pub remove_host_removed :
    (now : ℕ) (k host : Text) (file : HostBindingsFile)
    → (remove_host now k host file).1 ≡ bound file k (trim host)
unfolding remove_host bound
remove_host_removed now k host file = elim (Option-cases (lookup k file.bindings)) [
  | inl e ↦ unfold any in ground (arith, e)
  | inr (b, e) ↦ rw (e, remove_host) (ground (arith, length-without_host host b.hosts))
]
