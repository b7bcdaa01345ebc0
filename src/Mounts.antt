-- ===== src/Mounts.antt =====
-- internal/mounts/reserved.go: guest paths that a user may mount over or upload to.
pub mod Overlap
pub mod Reserved
pub mod Workspace
use whaleshell_driver.Base.{
  ℕ, Str, codes, ◌==◌, trim_space, has_prefix, split, leb, ltb, eqb, is_nil, any, trim_right,
  trim_prefix, Bool, true, false, not, ◌&&◌, ◌||◌, List, [], ◌∷◌, ◌++◌, if◌then◌else◌, Result, ok,
  err, reject_if, ◌>>=◌, ◌>>◌, Option, none, some,
}
use whaleshell_driver.GoPath.{clean}
use whaleshell_driver.Defaults.{Defaults}

pub data PathError : Type 0 where
  empty surrounding_whitespace control_characters not_absolute dot_segment empty_segment
        container_root :
      PathError
  reserved_path : Str → PathError

abbrev control_roots : Defaults → List Str
control_roots d =
    d.guest_root
    ∷ d.guest_etc_osg
    ∷ codes "/run/cauteum"
    ∷ codes "/run/netns"
    ∷ codes "/var/run/netns"
    ∷ codes "/var/run/cauteum"
    ∷ []

abbrev oci_runtime_mount_roots : List Str
oci_runtime_mount_roots = codes "/proc" ∷ codes "/sys" ∷ codes "/dev" ∷ []

abbrev pub reserved_roots : Defaults → List Str
reserved_roots d = control_roots d ++ oci_runtime_mount_roots

unfoldable pub paths_overlap : Str → Str → Bool
unfolding has_prefix
paths_overlap a b =
    if a == b
    then true
    else if a == codes "/" || b == codes "/"
    then true
    else has_prefix a (b ++ codes "/") || has_prefix b (a ++ codes "/")

-- The exported `PathsOverlap`.
unfoldable pub paths_overlap_clean : Str → Str → Bool
unfolding paths_overlap
paths_overlap_clean a b = paths_overlap (clean a) (clean b)

-- The loop over the segments: `.` and `..` anywhere, an empty one anywhere but at the end.
unfoldable pub check_segments : List Str → Result PathError (Unit {0})
check_segments [] = ok tt
check_segments (s ∷ segs) =
    let rest = check_segments segs in
    if s == codes "." || s == codes ".."
    then err PathError.dot_segment
    else if is_nil s && not (is_nil segs)
    then err PathError.empty_segment
    else rest

abbrev is_slash : ℕ → Bool
is_slash c = eqb c b'/'

unfoldable pub normalize_trimmed : Str → Result PathError Str
unfolding has_prefix trim_prefix split trim_right check_segments trim_space
normalize_trimmed value = do
  reject_if (is_nil value) PathError.empty
  reject_if (not (value == trim_space value)) PathError.surrounding_whitespace
  reject_if (any (λ r. ltb r 0x20) value) PathError.control_characters
  reject_if (not (has_prefix value (codes "/"))) PathError.not_absolute
  check_segments (split (trim_prefix value (codes "/")) b'/')
  let normalized = trim_right is_slash value
  reject_if (is_nil normalized) PathError.container_root
  ok normalized

unfoldable pub normalize_absolute_container_path : Str → Result PathError Str
unfolding normalize_trimmed trim_space
normalize_absolute_container_path value = normalize_trimmed (trim_space value)

unfoldable pub check_reserved : Str → List Str → Result PathError (Unit {0})
unfolding paths_overlap
check_reserved p [] = ok tt
check_reserved p (reserved ∷ rest) =
    let later = check_reserved p rest in
    if paths_overlap p (clean reserved) then err (PathError.reserved_path reserved) else later

unfoldable pub validate_container_mount_target : Defaults → Str → Result PathError (Unit {0})
unfolding normalize_absolute_container_path check_reserved
validate_container_mount_target d target = do
  normalized ← normalize_absolute_container_path target
  check_reserved (clean normalized) (reserved_roots d)

unfoldable pub validate_upload_dest : Defaults → Str → Result PathError (Unit {0})
unfolding normalize_absolute_container_path has_prefix validate_container_mount_target
validate_upload_dest d dest = do
  normalized ← normalize_absolute_container_path dest
  let p = clean normalized
  let ws = clean d.guest_workspace
  (if p == ws || has_prefix p (ws ++ codes "/")
      then ok tt
      else validate_container_mount_target d dest)
