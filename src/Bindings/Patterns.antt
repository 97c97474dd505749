-- ===== src/Bindings/Patterns.antt =====
-- Host patterns and their comparison without regard to case.
use sshwarden.Base.{
  ◌≡◌, ◌≢◌, refl, sym, ap, inl, inr, Bool, true, false, not, ◌||◌, ◌&&◌, List, [], ◌∷◌, ◌++◌, map,
  arith, All, All-append, Text, text_eq, trim, trim_idem, any, retain, retain-All_of,
  to_ascii_lowercase, eq_ignore_ascii_case, eq_ignore_ascii_case_iff, ok, Bool-cases,
}
use sshwarden.Bindings.{validate_host_pattern, validate_all, push_host, dedup, without_host}

-- Two patterns that `ssh` would not tell apart.
abbrev pub Same : Text → Text → Type 0
Same a b = eq_ignore_ascii_case a b ≡ true

abbrev pub Differ : Text → Text → Type 0
Differ a b = eq_ignore_ascii_case a b ≡ false

-- A pattern as it is stored: it passes the check, and is trimmed.
pub record IsStored (h : Text) : Type 0 where
  pub valid : validate_host_pattern h ≡ ok tt
  pub trimmed : trim h ≡ h

-- No later entry repeats an earlier one.
abbrev pub NoRepeat : List Text → Type 0
NoRepeat [] = Unit
NoRepeat (h ∷ hs) = All (Differ h) hs × NoRepeat hs

validate-trim :
    (h : Text) → validate_host_pattern h ≡ ok tt → validate_host_pattern (trim h) ≡ ok tt
unfolding validate_host_pattern
validate-trim h v = rw trim_idem v

pub trim-IsStored : (h : Text) → validate_host_pattern h ≡ ok tt → IsStored (trim h)
trim-IsStored h v = record { valid = validate-trim h v; trimmed = trim_idem h }

any_none :
    (t : Text) (hs : List Text)
    → any (λ e. eq_ignore_ascii_case e t) hs ≡ false
    → All (λ e. Differ e t) hs
unfolding any
any_none t [] h = tt
any_none t (e ∷ hs) h = ground (arith, any_none t hs)

NoRepeat-append :
    (hs : List Text) (t : Text) → NoRepeat hs → All (λ e. Differ e t) hs → NoRepeat (hs ++ t ∷ [])
NoRepeat-append [] t n d = (tt, tt)
NoRepeat-append (h ∷ hs) t n d =
    (All-append (Differ h) hs (t ∷ []) n.0 (d.0, tt), NoRepeat-append hs t n.1 d.1)

-- Lists of patterns as they are stored.
pub record IsHostList (hs : List Text) : Type 0 where
  pub stored : All IsStored hs
  pub no_repeat : NoRepeat hs

push_host_seen :
    (hs : List Text) (h : Text)
    → any (λ existing. eq_ignore_ascii_case existing (trim h)) hs ≡ true
    → push_host hs h ≡ hs
unfolding push_host
push_host_seen hs h seen = rw seen

push_host_fresh :
    (hs : List Text) (h : Text)
    → any (λ existing. eq_ignore_ascii_case existing (trim h)) hs ≡ false
    → push_host hs h ≡ hs ++ trim h ∷ []
unfolding push_host
push_host_fresh hs h fresh = rw fresh

or_false : (b : Bool) → (b || false) ≡ b
or_false b = ground arith

pub push_host-IsHostList :
    (hs : List Text) (h : Text)
    → validate_host_pattern h ≡ ok tt
    → IsHostList hs
    → IsHostList (push_host hs h)
unfolding push_host
push_host-IsHostList hs h v l =
    elim (Bool-cases (any (λ existing. eq_ignore_ascii_case existing (trim h)) hs)) [
      | inl seen ↦ rw seen l
      | inr fresh ↦ rw fresh (record {
        stored = All-append IsStored hs (trim h ∷ []) l.stored (trim-IsStored h v, tt);
        no_repeat = NoRepeat-append hs (trim h) l.no_repeat (any_none (trim h) hs fresh);
      })
    ]

-- `push_host` never leaves the list empty.
pub push_host-ne-nil : (hs : List Text) (h : Text) → push_host hs h ≢ []
unfolding push_host any
push_host-ne-nil [] h e = ground arith
push_host-ne-nil (x ∷ hs) h e = ground arith

validate_all-head :
    (h : Text) (hs : List Text)
    → validate_all (h ∷ hs) ≡ ok tt
    → (validate_host_pattern h ≡ ok tt) × (validate_all hs ≡ ok tt)
unfolding validate_all
validate_all-head h hs e = ground arith

pub dedup-IsHostList :
    (hosts acc : List Text)
    → validate_all hosts ≡ ok tt
    → IsHostList acc
    → IsHostList (dedup acc hosts)
unfolding dedup
dedup-IsHostList [] acc v l = l
dedup-IsHostList (h ∷ hs) acc v l =
    let (first, others) = validate_all-head h hs v in
    dedup-IsHostList hs (push_host acc h) others (push_host-IsHostList acc h first l)

-- Is a pattern among those of a list, as `ssh` compares them?
abbrev pub lists : List Text → Text → Bool
lists hs t = any (λ e. eq_ignore_ascii_case e t) hs

any-append {ℓ} :
    {A : Type ℓ} (p : A → Bool) (xs ys : List A) → any p (xs ++ ys) ≡ (any p xs || any p ys)
unfolding any
any-append p [] ys = refl
any-append p (x ∷ xs) ys = ground (arith, any-append p xs ys)

eq_ignore_ascii_case-Same :
    (e t u : Text) → Same t u → eq_ignore_ascii_case e t ≡ eq_ignore_ascii_case e u
eq_ignore_ascii_case-Same e t u s =
    unfold eq_ignore_ascii_case in
    ap (text_eq (map to_ascii_lowercase e)) ((eq_ignore_ascii_case_iff t u).0 s)

-- If `t` is the same as `u`, a list has both or neither.
lists-Same : (hs : List Text) (t u : Text) → Same t u → lists hs t ≡ lists hs u
unfolding any
lists-Same [] t u s = refl
lists-Same (e ∷ hs) t u s = rw (eq_ignore_ascii_case-Same e t u s, lists-Same hs t u s)

pub push_host-lists :
    (hs : List Text) (h t : Text)
    → lists (push_host hs h) t ≡ (lists hs t || eq_ignore_ascii_case (trim h) t)
push_host-lists hs h t = elim (Bool-cases (lists hs (trim h))) [
  | inl seen ↦ elim (Bool-cases (eq_ignore_ascii_case (trim h) t)) [
    | inl same ↦ rw (push_host_seen hs h seen, same, ← lists-Same hs (trim h) t same, seen)
    | inr other ↦ rw (push_host_seen hs h seen, other) (sym (or_false (lists hs t)))
  ]
  | inr fresh ↦
      rw (push_host_fresh hs h fresh, any-append (λ e. eq_ignore_ascii_case e t) hs (trim h ∷ []))
        (unfold any in ground arith)
]

-- The hosts that are kept are those that were given, trimmed: as `ssh` compares patterns, nothing is
-- lost and nothing comes in.
pub dedup-lists :
    (hosts acc : List Text) (t : Text)
    → lists (dedup acc hosts) t ≡ (lists acc t || lists (map trim hosts) t)
unfolding dedup any
dedup-lists [] acc t = sym (or_false (lists acc t))
dedup-lists (h ∷ hs) acc t =
    ground (arith, dedup-lists hs (push_host acc h) t, push_host-lists acc h t)

retain-NoRepeat : (p : Text → Bool) (hs : List Text) → NoRepeat hs → NoRepeat (retain p hs)
unfolding retain
retain-NoRepeat p [] n = tt
retain-NoRepeat p (h ∷ hs) n =
    ground (arith, retain-NoRepeat p hs n.1, retain-All_of (Differ h) p hs n.0)

pub without_host-IsHostList :
    (host : Text) (hs : List Text) → IsHostList hs → IsHostList (without_host host hs)
unfolding without_host
without_host-IsHostList host hs l = record {
  stored = retain-All_of IsStored _ hs l.stored;
  no_repeat = retain-NoRepeat _ hs l.no_repeat;
}

-- Removing a host removes all that `ssh` takes for it, and nothing else.
pub without_host-lists :
    (host : Text) (hs : List Text) (t : Text)
    → lists (without_host host hs) t ≡ (lists hs t && not (eq_ignore_ascii_case (trim host) t))
unfolding without_host any retain
without_host-lists host [] t = refl
without_host-lists host (h ∷ hs) t = ground (
  arith,
  without_host-lists host hs t,
  eq_ignore_ascii_case_iff h t,
  eq_ignore_ascii_case_iff h (trim host),
  eq_ignore_ascii_case_iff (trim host) t,
)
