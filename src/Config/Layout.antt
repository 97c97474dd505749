-- ===== src/Config/Layout.antt =====
-- What the caches of the locations hold, whatever happens to the environment between two calls.
use sshwarden.Base.{
  ◌≡◌, ◌⊎◌, inl, inr, true, false, Option, none, some, or_else, arith, Text, codes, Result, ok, err,
  path_join,
}
use sshwarden.Config.Segments.{IsSegment}
use sshwarden.Config.Environment.{Resolved, Resolving, ConfigError, and_then}

-- `d` is the directory of the device that the cached decisions lead to.
abbrev pub IsDeviceDir : Resolved → Text → Type 0
IsDeviceDir s d =
    (shared : Text) × (s.shared_dir ≡ some shared)
    × ((s.multi_device ≡ some false) × (d ≡ shared)
        ⊎ (id : Text) × (s.multi_device ≡ some true)
          × (s.device_id ≡ some id)
          × (d ≡ path_join (path_join shared (codes "devices")) id))

pub record IsLayout (s : Resolved) : Type 0 where
  pub id_ok : (id : Text) → s.device_id ≡ some id → IsSegment id
  pub device_ok : (d : Text) → s.device_dir ≡ some d → IsDeviceDir s d

-- A cache that keeps what it holds.
abbrev pub Grows : {A : Type 0} → Option A → Option A → Type 0
Grows {A} o p = (a : A) → o ≡ some a → p ≡ some a

pub Grows-or_else : {A : Type 0} (o p : Option A) → Grows o (or_else o p)
Grows-or_else none p a e = ground (arith, e)
Grows-or_else (some b) p a e = e

-- Everything that `s` has cached is cached in `t`.
pub record Extends (s t : Resolved) : Type 0 where
  pub shared_dir : Grows s.shared_dir t.shared_dir
  pub device_dir : Grows s.device_dir t.device_dir
  pub local_dir : Grows s.local_dir t.local_dir
  pub multi_device : Grows s.multi_device t.multi_device
  pub device_id : Grows s.device_id t.device_id

pub Extends-refl : (s : Resolved) → Extends s s
Extends-refl s = record {
  shared_dir = λ a e. e;
  device_dir = λ a e. e;
  local_dir = λ a e. e;
  multi_device = λ a e. e;
  device_id = λ a e. e;
}

pub Extends-trans : (s t u : Resolved) → Extends s t → Extends t u → Extends s u
Extends-trans s t u e f = record {
  shared_dir = λ a x. f.shared_dir a (e.shared_dir a x);
  device_dir = λ a x. f.device_dir a (e.device_dir a x);
  local_dir = λ a x. f.local_dir a (e.local_dir a x);
  multi_device = λ a x. f.multi_device a (e.multi_device a x);
  device_id = λ a x. f.device_id a (e.device_id a x);
}

pub IsDeviceDir-Extends :
    (s t : Resolved) (d : Text) → Extends s t → IsDeviceDir s d → IsDeviceDir t d
IsDeviceDir-Extends s t d e (shared, sh, inl (m, x)) =
    (shared, e.shared_dir _ sh, inl (e.multi_device _ m, x))
IsDeviceDir-Extends s t d e (shared, sh, inr (id, m, i, x)) =
    (shared, e.shared_dir _ sh, inr (id, e.multi_device _ m, e.device_id _ i, x))

abbrev pub Post : {A : Type 0} → (A → Resolved → Type 0) → Result ConfigError A → Resolved → Type 0
Post P (err e) s = Unit
Post P (ok a) s = P a s

-- What a computation that was started with the caches `s` came to, with `P` of its value and `K`
-- kept.
pub record Meets {A : Type 0} (K : Resolved → Type 0) (P : A → Resolved → Type 0) (s : Resolved)
    (r : Result ConfigError A × Resolved) : Type 0 where
  pub extends : Extends s r.1
  pub layout : IsLayout r.1
  pub frame : K r.1
  pub post : Post P r.0 r.1

abbrev pub Anything : {A : Type 0} → A → Resolved → Type 0
Anything a s = Unit

pub Post-Anything : {A : Type 0} (r : Result ConfigError A) (s : Resolved) → Post Anything r s
Post-Anything (err e) s = tt
Post-Anything (ok a) s = tt

-- One computation after another; what the second one is allowed to forget is `J` without `K`.
module _ {A B : Type 0} (K J : Resolved → Type 0) (P : A → Resolved → Type 0)
    (Q : B → Resolved → Type 0) (weaken : (t : Resolved) → K t → J t) where
  pub Meets-and_then :
      (s : Resolved) (r : Result ConfigError A × Resolved) (next : A → Resolving B)
      → Meets K P s r
      → ((a : A) (t : Resolved) → P a t → K t → IsLayout t → Extends s t → Meets J Q t (next a t))
      → Meets J Q s (and_then r next)
  Meets-and_then s (err e, t) next h k = record {
    extends = h.extends;
    layout = h.layout;
    frame = weaken t h.frame;
    post = tt;
  }
  Meets-and_then s (ok a, t) next h k =
      let rest : Meets J Q t (next a t) = k a t h.post h.frame h.layout h.extends in
      record {
        extends = Extends-trans s t (next a t).1 h.extends rest.extends;
        layout = rest.layout;
        frame = rest.frame;
        post = rest.post;
      }

pub Meets-here :
    {A : Type 0} (K : Resolved → Type 0) (P : A → Resolved → Type 0) (r : Result ConfigError A)
    (s : Resolved)
    → K s
    → IsLayout s
    → Post P r s
    → Meets K P s (r, s)
Meets-here K P r s f h p = record { extends = Extends-refl s; layout = h; frame = f; post = p }
