-- ===== src/Config/Lookups.antt =====
-- Any sequence of resolutions under any environments.
use sshwarden.Base.{
  ok_injective, ◌≡◌, Bool, true, false, List, [], ◌∷◌, Option, none, some, arith, Text, Result, ok,
  err,
}
use mathlib.Core.Path.{subst}
use sshwarden.Config.Environment.{
  Env, Resolved, unresolved, Resolving, ConfigError, and_then, ◌>>=◌, pure, lift,
}
use sshwarden.Config.Locations.{
  remember_shared, remember_local, shared_data_dir, current_device_id, multi_device_enabled,
  device_data_dir, resolve_local_dir, local_state_dir,
}
use sshwarden.Config.Layout.{
  Post, IsLayout, Extends, Extends-refl, Extends-trans, Grows-or_else, IsDeviceDir-Extends, Meets,
  Meets-and_then, Meets-here, Anything, Post-Anything,
}
use sshwarden.Config.Resolutions.{
  IsShared, IsId, Meets-cached, shared_data_dir-Meets, load-Meets, multi_device_enabled-Meets,
  current_device_id-Meets,
}
use sshwarden.Config.Environment.{platform_local_dir, home_dir_any}
use sshwarden.Config.Directories.{Free, IsCached, device_data_dir-Meets}

-- A chain of which nothing is asked but that it keeps the caches in order.
abbrev Sound : {A : Type 0} → Resolved → Result ConfigError A × Resolved → Type 0
Sound s r = Meets Free Anything s r

Sound-and_then :
    {A B : Type 0} (s : Resolved) (r : Result ConfigError A × Resolved) (next : A → Resolving B)
    → Sound s r
    → ((a : A) (t : Resolved) → IsLayout t → Sound t (next a t))
    → Sound s (and_then r next)
Sound-and_then s r next h k =
    Meets-and_then Free Free Anything Anything (λ t g. g) s r next h (λ a t p g l x. k a t l)

Sound-lift :
    {A : Type 0} (r : Result ConfigError A) (s : Resolved) → IsLayout s → Sound s (lift r s)
Sound-lift r s h = Meets-here Free Anything r s tt h (Post-Anything r s)

Sound-Meets :
    {A : Type 0} (P : A → Resolved → Type 0) (s : Resolved) (r : Result ConfigError A × Resolved)
    → Meets Free P s r
    → Sound s r
Sound-Meets P s r h = record {
  extends = h.extends;
  layout = h.layout;
  frame = tt;
  post = Post-Anything r.0 r.1;
}

-- The id, where devices are kept apart.
device_id_if : Env → Bool → Resolving (Option Text)
device_id_if env multi = elim multi [
  | false ↦ pure none
  | true ↦ do id ← current_device_id env; pure (some id)
]

remember_local-Sound : (dir : Text) (s : Resolved) → IsLayout s → Sound s (remember_local dir s)
remember_local-Sound dir s h =
    let grown : Extends s (remember_local dir s).1 = record {
      shared_dir = λ a x. x;
      device_dir = λ a x. x;
      local_dir = Grows-or_else s.local_dir (some dir);
      multi_device = λ a x. x;
      device_id = λ a x. x;
    } in
    record {
      extends = grown;
      layout = record {
        id_ok = h.id_ok;
        device_ok = λ d x. IsDeviceDir-Extends s _ d grown (h.device_ok d x);
      };
      frame = tt;
      post = tt;
    }

abbrev keep : (s : Resolved) (d : Text) → Free s → Free (remember_shared d s).1
keep s d g = g

module _ (env : Env) where
  current_device_id-Sound : (s : Resolved) → IsLayout s → Sound s (current_device_id env s)
  current_device_id-Sound s h =
      Sound-Meets IsId s _ (current_device_id-Meets env Free keep (λ t d g. g) s tt h)

  device_id_if-Sound :
      (multi : Bool) (s : Resolved) → IsLayout s → Sound s (device_id_if env multi s)
  unfolding device_id_if
  device_id_if-Sound false s h = Sound-lift (ok none) s h
  device_id_if-Sound true s h =
      Sound-and_then s _ _ (current_device_id-Sound s h) (λ id t l. Sound-lift (ok (some id)) t l)

  resolve_local_dir-Sound : (s : Resolved) → IsLayout s → Sound s (resolve_local_dir env s)
  unfolding resolve_local_dir device_id_if
  resolve_local_dir-Sound s h =
      Sound-and_then s _ _ (load-Meets env Free keep s tt h) (λ config t l.
        Sound-and_then t _ _ (Sound-Meets IsShared t _ (shared_data_dir-Meets env Free keep t tt l))
          (λ shared u m. Sound-and_then u _ _ (Sound-lift (platform_local_dir env) u m) (λ base v n.
            Sound-and_then v _ _ (device_id_if-Sound config.storage.multi_device v n) (λ id w o.
              Sound-and_then w _ _ (Sound-lift (home_dir_any env) w o)
                (λ home x p. Sound-lift _ x p)))))

  local_state_dir-Sound : (s : Resolved) → IsLayout s → Sound s (local_state_dir env s)
  unfolding local_state_dir
  local_state_dir-Sound s h =
      Meets-cached Free Anything s s.local_dir _ tt h (λ a e. tt)
        (λ e.
          Sound-and_then s _ _ (resolve_local_dir-Sound s h) (λ d t l. remember_local-Sound d t l))

-- The calls that fill the caches.
pub data Lookup : Type 0 where
  look_shared look_device look_local look_multi look_id : Lookup

unfoldable pub look_up : Env → Lookup → Resolved → Resolved
look_up env look_shared s = (shared_data_dir env s).1
look_up env look_device s = (device_data_dir env s).1
look_up env look_local s = (local_state_dir env s).1
look_up env look_multi s = (multi_device_enabled env s).1
look_up env look_id s = (current_device_id env s).1

-- Any sequence of them, each under the environment it meets.
unfoldable pub look_ups : List (Env × Lookup) → Resolved → Resolved
unfolding look_up
look_ups [] s = s
look_ups (x ∷ xs) s = look_ups xs (look_up x.0 x.1 s)

abbrev Kept : Resolved → Resolved → Type 0
Kept s t = IsLayout t × Extends s t

Kept-Meets :
    {A : Type 0} (P : A → Resolved → Type 0) (s : Resolved) (r : Result ConfigError A × Resolved)
    → Meets Free P s r
    → Kept s r.1
Kept-Meets P s r h = (h.layout, h.extends)

look_up-Kept : (env : Env) (x : Lookup) (s : Resolved) → IsLayout s → Kept s (look_up env x s)
unfolding look_up
look_up-Kept env look_shared s h = Kept-Meets _ s _ (shared_data_dir-Meets env Free keep s tt h)
look_up-Kept env look_device s h = Kept-Meets _ s _ (device_data_dir-Meets env s h)
look_up-Kept env look_local s h = Kept-Meets _ s _ (local_state_dir-Sound env s h)
look_up-Kept env look_multi s h =
    Kept-Meets _ s _ (multi_device_enabled-Meets env Free keep (λ t d g. g) s tt h)
look_up-Kept env look_id s h = Kept-Meets _ s _ (current_device_id-Sound env s h)

look_ups-Kept : (xs : List (Env × Lookup)) (s : Resolved) → IsLayout s → Kept s (look_ups xs s)
unfolding look_ups
look_ups-Kept [] s h = (h, Extends-refl s)
look_ups-Kept (x ∷ xs) s h =
    let first = look_up-Kept x.0 x.1 s h in
    let rest = look_ups-Kept xs (look_up x.0 x.1 s) first.0 in
    (rest.0, Extends-trans s _ _ first.1 rest.1)

unresolved-IsLayout : IsLayout unresolved
unresolved-IsLayout = record {
  id_ok = λ id e. ground (arith, e);
  device_ok = λ d e. ground (arith, e);
}

-- Whatever is looked up in whichever order, and however the environment changes between the calls,
-- the cached id of the device is one name of a path, and the cached directory of the device is the
-- shared directory, or the directory of that id below `devices` in it, as it was decided once.
pub look_ups-IsLayout : (xs : List (Env × Lookup)) → IsLayout (look_ups xs unresolved)
look_ups-IsLayout xs = (look_ups-Kept xs unresolved unresolved-IsLayout).0

Post-ok :
    {A : Type 0} (P : A → Resolved → Type 0) (r : Result ConfigError A) (a : A) (s : Resolved)
    → r ≡ ok a
    → Post P r s
    → P a s
Post-ok P (err failure) a s e h = ground (arith, e)
Post-ok P (ok b) a s e h = subst (λ x. P x s) (ok_injective b a e) h

device_data_dir-cached :
    (env : Env) (dir : Text) (s : Resolved) → IsCached dir s → (device_data_dir env s).0 ≡ ok dir
unfolding device_data_dir
device_data_dir-cached env dir s e = ground (arith, e)

-- A directory of the device that was given once is given again by every later call, whatever was
-- looked up before and between, and however the environment changed.
pub device_data_dir-look_ups :
    (before between : List (Env × Lookup)) (env env' : Env) (dir : Text)
    → (device_data_dir env (look_ups before unresolved)).0 ≡ ok dir
    → (device_data_dir env'
        (look_ups between (device_data_dir env (look_ups before unresolved)).1)).0
      ≡ ok dir
device_data_dir-look_ups before between env env' dir e =
    let s = look_ups before unresolved in
    let m = device_data_dir-Meets env s (look_ups-IsLayout before) in
    let given = Post-ok IsCached _ dir _ e m.post in
    device_data_dir-cached env' dir _ ((look_ups-Kept between _ m.layout).1.device_dir dir given)
