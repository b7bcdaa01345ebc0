-- ===== src/Podman/Container/Storage.antt =====
-- Binds, mounts and volumes in `buildNativeSpec` of internal/podman/libpod_create.go.
use whaleshell_driver.Base.{
  ℕ, zero, suc, Str, codes, ◌==◌, split, is_nil, any, Bool, true, false, not, ◌&&◌, ◌||◌, eqb, List,
  [], ◌∷◌, ◌++◌, if◌then◌else◌, Option, none, some, Result, ok, err, ◌>>=◌, ◌>>◌, reject_if, ℤ, pos,
  negsuc, ltb_ℤ, ◌/◌, ◌%◌, ◌+◌, ltb,
}
use whaleshell_driver.Base.Decimal.{show_ℤ}
use whaleshell_driver.GoPath.{is_abs}
use whaleshell_driver.Engine.{Mount, MountType, BindOptions, VolumeOptions, TmpfsOptions}
use whaleshell_driver.Podman.Container.{NativeMount, NativeVolume, SpecError}

-- slices.Contains
abbrev pub holds : Str → List Str → Bool
holds s = any (λ t. t == s)

-- A bind or a named volume, `source:target[:options]`.
pub data Placed : Type 0 where
  mount : NativeMount → Placed
  volume : NativeVolume → Placed

unfoldable pub place_bind : Str → Str → List Str → Placed
unfolding is_abs
place_bind source target options =
    if is_abs source
    then Placed.mount (record {
      type = codes "bind";
      source = source;
      destination = target;
      options = if holds (codes "rbind") options then options else options ++ codes "rbind" ∷ [];
    })
    else Placed.volume (record { name = source; dest = target; options = options })

abbrev pub bind_of : Str → List Str → Result SpecError Placed
bind_of bind (source ∷ target ∷ []) = ok (place_bind source target [])
bind_of bind (source ∷ target ∷ options ∷ []) = ok (place_bind source target (split options b','))
bind_of bind _ = err (SpecError.bind_syntax bind)

unfoldable pub translate_bind : Str → Result SpecError Placed
unfolding split place_bind
translate_bind bind = bind_of bind (split bind b':')

abbrev pub if_set : Bool → Str → List Str
if_set true s = s ∷ []
if_set false s = []

abbrev pub bind_options : Option BindOptions → Result SpecError (List Str)
bind_options none = ok []
bind_options (some o) = do
  reject_if o.create_mountpoint SpecError.create_mountpoint
  reject_if o.read_only_force_recursive SpecError.force_recursive
  ok (
      if_set (not (is_nil o.propagation)) o.propagation
      ++ (if_set o.non_recursive (codes "bind-nonrecursive")
          ++ if_set o.read_only_non_recursive (codes "ro")))

-- strconv.FormatUint in base 8
octal_from : ℕ → ℕ → Str → Str
octal_from zero n acc = acc
octal_from (suc f) n acc =
    let acc' = (48 + n % 8) ∷ acc in
    let rest = octal_from f (n / 8) acc' in if ltb n 8 then acc' else rest

show_octal : ℤ → Str
unfolding octal_from
show_octal (pos n) = octal_from (suc n) n []
show_octal (negsuc n) = []

abbrev option_pairs : List (List Str) → Result SpecError (List Str)
option_pairs [] = ok []
option_pairs ((o ∷ []) ∷ rest) = option_pairs rest >>= λ os. ok (o ∷ os)
option_pairs ((k ∷ v ∷ []) ∷ rest) = option_pairs rest >>= λ os. ok ((k ++ b'=' ∷ v) ∷ os)
option_pairs (pair ∷ rest) = err (SpecError.tmpfs_option pair)

unfoldable pub tmpfs_options : Option TmpfsOptions → Result SpecError (List Str)
unfolding show_ℤ show_octal
tmpfs_options none = ok (codes "rw" ∷ [])
tmpfs_options (some o) = option_pairs o.options >>= λ pairs. ok (
    if_set (ltb_ℤ (pos 0) o.size_bytes) (codes "size=" ++ show_ℤ o.size_bytes)
    ++ (if_set (ltb_ℤ (pos 0) o.mode) (codes "mode=" ++ show_octal o.mode) ++ pairs))

abbrev pub native_mount :
    Str → Mount → List Str → Result SpecError (List Str) → Result SpecError Placed
native_mount type m first more = more >>= λ options. ok (
    Placed.mount (record {
      type = type;
      source = m.source;
      destination = m.target;
      options = if_set m.read_only (codes "ro") ++ (first ++ options);
    }))

abbrev pub volume_refused : Option VolumeOptions → Result SpecError (Unit {0})
volume_refused none = ok tt
volume_refused (some o) = do
  reject_if (not (is_nil o.subpath)) (SpecError.volume_subpath o.subpath)
  reject_if o.no_copy SpecError.volume_nocopy
  reject_if (o.has_labels || o.has_driver_config) SpecError.volume_labels

abbrev pub translated : MountType → Mount → Result SpecError Placed
translated MountType.bind m =
    native_mount (codes "bind") m (codes "rbind" ∷ []) (bind_options m.bind_options)
translated MountType.tmpfs m = native_mount (codes "tmpfs") m [] (tmpfs_options m.tmpfs_options)
translated MountType.volume m = volume_refused m.volume_options >>= λ _. ok (
    Placed.volume (record {
      name = m.source;
      dest = m.target;
      options = (if m.read_only then codes "ro" else codes "rw") ∷ [];
    }))
translated _ m = err SpecError.unsupported_mount

-- translateNativeMount and translateNativeVolume
unfoldable pub translate_mount : Mount → Result SpecError Placed
unfolding tmpfs_options
translate_mount m = translated m.type m

abbrev pub each : {A B : Type 0} → (A → Result SpecError B) → List A → Result SpecError (List B)
each f [] = ok []
each f (x ∷ xs) = f x >>= λ y. each f xs >>= λ ys. ok (y ∷ ys)

-- The order of Go strings
before : Str → Str → Bool
before [] t = not (is_nil t)
before (c ∷ s) [] = false
before (c ∷ s) (d ∷ t) = ltb c d || (eqb c d && before s t)

unfoldable pub insert_target : Str × Str → List (Str × Str) → List (Str × Str)
unfolding before
insert_target e [] = e ∷ []
insert_target e (f ∷ rest) = if before f.0 e.0 then f ∷ insert_target e rest else e ∷ f ∷ rest

-- sort.Strings on the targets
unfoldable pub sort_targets : List (Str × Str) → List (Str × Str)
unfolding insert_target
sort_targets [] = []
sort_targets (e ∷ rest) = insert_target e (sort_targets rest)

-- One entry of host.Tmpfs.
unfoldable pub translate_tmpfs : Str × Str → Placed
unfolding split
translate_tmpfs (target, options) = Placed.mount (record {
  type = codes "tmpfs";
  source = codes "tmpfs";
  destination = target;
  options = split options b',';
})

unfoldable pub mounts_of : List Placed → List NativeMount
mounts_of [] = []
mounts_of (Placed.mount m ∷ rest) = m ∷ mounts_of rest
mounts_of (Placed.volume v ∷ rest) = mounts_of rest

unfoldable pub volumes_of : List Placed → List NativeVolume
volumes_of [] = []
volumes_of (Placed.mount m ∷ rest) = volumes_of rest
volumes_of (Placed.volume v ∷ rest) = v ∷ volumes_of rest
