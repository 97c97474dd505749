-- ===== src/Config/Resolutions.antt =====
-- What each resolution leaves in the caches.
use sshwarden.Base.{
  ◌≡◌, refl, inl, inr, Bool, true, Option, none, some, or_else, ◌||◌, eq_ignore_ascii_case, trim,
  Text, codes, ok, err, Bool-cases, Option-cases, Result-cases,
}
use mathlib.Core.Path.{subst}
use sshwarden.Bindings.{is_empty}
use mathlib.Core.Option.{some-injective}
use sshwarden.Config.{Config}
use sshwarden.Config.Segments.{IsSegment, sanitize_path_segment-IsSegment, sanitize_device_id}
use sshwarden.Config.Environment.{Env, Resolved, Resolving, resolve_shared_data_dir, trimmed}
use sshwarden.Config.Locations.{
  cached, remember_shared, remember_multi, remember_id, shared_data_dir, config_path, load,
  auto_device_id, current_device_id_from_config, current_device_id, multi_device_enabled,
}
use sshwarden.Config.Layout.{
  IsLayout, Extends, Grows-or_else, IsDeviceDir-Extends, Meets, Meets-and_then, Meets-here,
  Anything, Post-Anything,
}

abbrev pub IsShared : Text → Resolved → Type 0
IsShared dir s = s.shared_dir ≡ some dir

pub or_else-none : {A : Type 0} (o : Option A) (a : A) → o ≡ none → or_else o (some a) ≡ some a
or_else-none o a e = rw e refl

-- What holds of all that a cache holds, and of the value it is filled with.
pub or_else-All :
    {A : Type 0} (P : A → Type 0) (o : Option A) (b : A)
    → ((a : A) → o ≡ some a → P a)
    → P b
    → (a : A) → or_else o (some b) ≡ some a
    → P a
or_else-All P none b h k a e = subst P (some-injective b a e) k
or_else-All P (some c) b h k a e = h a e

remember_shared-Meets :
    (K : Resolved → Type 0) (dir : Text) (s : Resolved)
    → K (remember_shared dir s).1
    → s.shared_dir ≡ none
    → IsLayout s
    → Meets K IsShared s (remember_shared dir s)
remember_shared-Meets K dir s k e h =
    let grown : Extends s (remember_shared dir s).1 = record {
      shared_dir = Grows-or_else s.shared_dir (some dir);
      device_dir = λ a x. x;
      local_dir = λ a x. x;
      multi_device = λ a x. x;
      device_id = λ a x. x;
    } in
    record {
      extends = grown;
      layout = record {
        id_ok = h.id_ok;
        device_ok = λ d x. IsDeviceDir-Extends s _ d grown (h.device_ok d x);
      };
      frame = k;
      post = or_else-none s.shared_dir dir e;
    }

abbrev pub IsMulti : Bool → Resolved → Type 0
IsMulti value s = s.multi_device ≡ some value

abbrev pub IsId : Text → Resolved → Type 0
IsId id s = s.device_id ≡ some id

remember_multi-Meets :
    (K : Resolved → Type 0) (value : Bool) (s : Resolved)
    → K (remember_multi value s).1
    → s.multi_device ≡ none
    → IsLayout s
    → Meets K IsMulti s (remember_multi value s)
remember_multi-Meets K value s k e h =
    let grown : Extends s (remember_multi value s).1 = record {
      shared_dir = λ a x. x;
      device_dir = λ a x. x;
      local_dir = λ a x. x;
      multi_device = Grows-or_else s.multi_device (some value);
      device_id = λ a x. x;
    } in
    record {
      extends = grown;
      layout = record {
        id_ok = h.id_ok;
        device_ok = λ d x. IsDeviceDir-Extends s _ d grown (h.device_ok d x);
      };
      frame = k;
      post = or_else-none s.multi_device value e;
    }

remember_id-Meets :
    (K : Resolved → Type 0) (id : Text) (s : Resolved)
    → K (remember_id id s).1
    → s.device_id ≡ none
    → IsSegment id
    → IsLayout s
    → Meets K IsId s (remember_id id s)
remember_id-Meets K id s k e segment h =
    let grown : Extends s (remember_id id s).1 = record {
      shared_dir = λ a x. x;
      device_dir = λ a x. x;
      local_dir = λ a x. x;
      multi_device = λ a x. x;
      device_id = Grows-or_else s.device_id (some id);
    } in
    record {
      extends = grown;
      layout = record {
        id_ok = or_else-All IsSegment s.device_id id h.id_ok segment;
        device_ok = λ d x. IsDeviceDir-Extends s _ d grown (h.device_ok d x);
      };
      frame = k;
      post = or_else-none s.device_id id e;
    }

pub Meets-cached :
    {A : Type 0} (K : Resolved → Type 0) (P : A → Resolved → Type 0) (s : Resolved) (o : Option A)
    (resolve : Resolving A)
    → K s
    → IsLayout s
    → ((a : A) → o ≡ some a → P a s)
    → (o ≡ none → Meets K P s (resolve s))
    → Meets K P s (cached o resolve s)
Meets-cached K P s (some a) resolve f h p r = Meets-here K P (ok a) s f h (p a refl)
Meets-cached K P s none resolve f h p r = r refl

current_device_id_from_config-IsSegment :
    (env : Env) (config : Config) → IsSegment (current_device_id_from_config env config)
unfolding current_device_id_from_config auto_device_id sanitize_device_id
current_device_id_from_config-IsSegment env config =
    elim (Option-cases (trimmed (env.var (codes "SSHWARDEN_DEVICE_ID")))) [
      | inr id ↦
          rw (current_device_id_from_config, id.1)
            (sanitize_path_segment-IsSegment env.lowercase id.0 true)
      | inl e ↦
          rw (current_device_id_from_config, e)
            (elim (Bool-cases (
              is_empty (trim config.storage.device_id)
              || eq_ignore_ascii_case (trim config.storage.device_id) (codes "auto"))) [
                | inl automatic ↦
                    rw (automatic, auto_device_id)
                      (sanitize_path_segment-IsSegment env.lowercase _ true)
                | inr given ↦ rw (given) (sanitize_path_segment-IsSegment env.lowercase _ true)
              ])
    ]

-- `K` is what the caller knows of the caches that a resolution does not fill.
module _ (env : Env) (K : Resolved → Type 0)
    (k : (s : Resolved) (dir : Text) → K s → K (remember_shared dir s).1) where
  pub shared_data_dir-Meets :
      (s : Resolved) → K s → IsLayout s → Meets K IsShared s (shared_data_dir env s)
  unfolding shared_data_dir
  shared_data_dir-Meets s f h =
      Meets-cached K IsShared s s.shared_dir _ f h (λ a e. e)
        (λ e. elim (Result-cases (resolve_shared_data_dir env)) [
          | inl failed ↦ rw failed.1 (Meets-here K IsShared (err failed.0) s f h tt)
          | inr dir ↦ rw dir.1 (remember_shared-Meets K dir.0 s (k s dir.0 f) e h)
        ])

  pub load-Meets : (s : Resolved) → K s → IsLayout s → Meets K Anything s (load env s)
  unfolding load config_path
  load-Meets s f h =
      Meets-and_then K K Anything Anything (λ t g. g) s _ _
        (Meets-and_then K K IsShared Anything (λ t g. g) s (shared_data_dir env s) _
          (shared_data_dir-Meets s f h) (λ a t p g l x. Meets-here K Anything _ t g l tt))
        (λ a t p g l x. Meets-here K Anything _ t g l (Post-Anything _ t))

module _ (env : Env) (K : Resolved → Type 0)
    (k : (s : Resolved) (dir : Text) → K s → K (remember_shared dir s).1) where
  pub multi_device_enabled-Meets :
      ((s : Resolved) (value : Bool) → K s → K (remember_multi value s).1)
      → (s : Resolved) → K s
      → IsLayout s
      → Meets K IsMulti s (multi_device_enabled env s)
  unfolding multi_device_enabled
  multi_device_enabled-Meets k' s f h =
      Meets-cached K IsMulti s s.multi_device _ f h (λ a e. e)
        (λ e.
          Meets-and_then (λ t. K t × (t.multi_device ≡ none)) K Anything IsMulti (λ t g. g.0) s _ _
            (load-Meets env _ (λ t d g. (k t d g.0, g.1)) s (f, e) h)
            (λ config t p g l x. remember_multi-Meets K _ t (k' t _ g.0) g.1 l))

  pub current_device_id-Meets :
      ((s : Resolved) (id : Text) → K s → K (remember_id id s).1)
      → (s : Resolved) → K s
      → IsLayout s
      → Meets K IsId s (current_device_id env s)
  unfolding current_device_id
  current_device_id-Meets k' s f h =
      Meets-cached K IsId s s.device_id _ f h (λ a e. e)
        (λ e.
          Meets-and_then (λ t. K t × (t.device_id ≡ none)) K Anything IsId (λ t g. g.0) s _ _
            (load-Meets env _ (λ t d g. (k t d g.0, g.1)) s (f, e) h)
            (λ config t p g l x.
              remember_id-Meets K _ t (k' t _ g.0) g.1
                (current_device_id_from_config-IsSegment env config) l))
