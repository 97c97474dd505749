-- ===== src/Config/Directories.antt =====
-- The directories, and any sequence of resolutions under any environments.
use sshwarden.Base.{◌≡◌, refl, inl, inr, Bool, true, false, none, some, Text, codes, ok, path_join}
use sshwarden.Config.Segments.{IsSegment}
use sshwarden.Config.Environment.{Env, Resolved, Resolving, ◌>>=◌, pure, lift}
use sshwarden.Config.Locations.{
  remember_device, current_device_id, device_dir_of, resolve_device_dir, device_data_dir,
  single_segment,
}
use sshwarden.Config.Layout.{
  IsLayout, IsDeviceDir, Extends, Grows-or_else, IsDeviceDir-Extends, Meets, Meets-and_then,
  Meets-here,
}
use sshwarden.Config.Resolutions.{
  or_else-none, or_else-All, IsShared, IsMulti, IsId, Meets-cached, shared_data_dir-Meets,
  multi_device_enabled-Meets, current_device_id-Meets,
}

-- Nothing is known of the other caches.
abbrev pub Free : Resolved → Type 0
Free s = Unit

pub device_dir_of-segment :
    (shared id : Text)
    → IsSegment id
    → device_dir_of shared id ≡ ok (path_join (path_join shared (codes "devices")) id)
unfolding device_dir_of single_segment
device_dir_of-segment shared id segment = rw segment refl

-- The cache of the directory is empty.
abbrev NoDevice : Resolved → Type 0
NoDevice s = s.device_dir ≡ none

abbrev IsDevice : Text → Resolved → Type 0
IsDevice d s = IsDeviceDir s d

device_dir_of-IsDevice :
    (shared id : Text) (s : Resolved)
    → IsShared shared s
    → IsMulti true s
    → IsId id s
    → IsSegment id
    → NoDevice s
    → IsLayout s
    → Meets NoDevice IsDevice s (lift (device_dir_of shared id) s)
device_dir_of-IsDevice shared id s sh m i segment f l =
    rw (device_dir_of-segment shared id segment)
      (Meets-here NoDevice IsDevice (ok _) s f l (shared, sh, inr (id, m, i, refl)))

-- The directory as it is given to the caller, and cached.
abbrev pub IsCached : Text → Resolved → Type 0
IsCached d s = s.device_dir ≡ some d

remember_device-Meets :
    (dir : Text) (s : Resolved)
    → NoDevice s
    → IsDevice dir s
    → IsLayout s
    → Meets Free IsCached s (remember_device dir s)
remember_device-Meets dir s f is_dir h =
    let grown : Extends s (remember_device dir s).1 = record {
      shared_dir = λ a x. x;
      device_dir = Grows-or_else s.device_dir (some dir);
      local_dir = λ a x. x;
      multi_device = λ a x. x;
      device_id = λ a x. x;
    } in
    record {
      extends = grown;
      layout = record {
        id_ok = h.id_ok;
        device_ok = λ d x.
            IsDeviceDir-Extends s _ d grown
              (or_else-All (IsDeviceDir s) s.device_dir dir h.device_ok is_dir d x);
      };
      frame = tt;
      post = or_else-none s.device_dir dir f;
    }

-- The rest of the resolution once it is known whether devices are kept apart.
device_dir_by : Env → Text → Bool → Resolving Text
device_dir_by env shared multi = elim multi [
  | false ↦ pure shared
  | true ↦ do device_id ← current_device_id env; lift (device_dir_of shared device_id)
]

device_dir_by-Meets :
    (env : Env) (shared : Text) (multi : Bool) (s : Resolved)
    → IsShared shared s
    → IsMulti multi s
    → NoDevice s
    → IsLayout s
    → Meets NoDevice IsDevice s (device_dir_by env shared multi s)
unfolding device_dir_by
device_dir_by-Meets env shared false s sh m f l =
    Meets-here NoDevice IsDevice (ok shared) s f l (shared, sh, inl (m, refl))
device_dir_by-Meets env shared true s sh m f l =
    Meets-and_then NoDevice NoDevice IsId IsDevice (λ t g. g) s _ _
      (current_device_id-Meets env NoDevice (λ t d g. g) (λ t d g. g) s f l)
      (λ id t p g k x.
        device_dir_of-IsDevice shared id t (x.shared_dir _ sh) (x.multi_device _ m) p (k.id_ok id p)
          g k)

module _ (env : Env) where
  resolve_device_dir-Meets :
      (s : Resolved)
      → NoDevice s
      → IsLayout s
      → Meets NoDevice IsDevice s (resolve_device_dir env s)
  unfolding resolve_device_dir device_dir_by
  resolve_device_dir-Meets s f h =
      Meets-and_then NoDevice NoDevice IsShared IsDevice (λ t g. g) s _ _
        (shared_data_dir-Meets env NoDevice (λ t d g. g) s f h)
        (λ shared t p g l x.
          Meets-and_then NoDevice NoDevice IsMulti IsDevice (λ u k. k) t _ _
            (multi_device_enabled-Meets env NoDevice (λ u d k. k) (λ u d k. k) t g l)
            (λ multi u q k m y. device_dir_by-Meets env shared multi u (y.shared_dir _ p) q k m))

  pub device_data_dir-Meets :
      (s : Resolved) → IsLayout s → Meets Free IsCached s (device_data_dir env s)
  unfolding device_data_dir
  device_data_dir-Meets s h =
      Meets-cached Free IsCached s s.device_dir _ tt h (λ d e. e)
        (λ e.
          Meets-and_then NoDevice Free IsDevice IsCached (λ t g. tt) s _ _
            (resolve_device_dir-Meets s e h) (λ d t p g l x. remember_device-Meets d t g p l))
