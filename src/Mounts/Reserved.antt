-- ===== src/Mounts/Reserved.antt =====
-- What passes `ValidateContainerMountTarget` and `ValidateUploadDest`.
pub mod Normal
use whaleshell_driver.Base.{
  Str, codes, ◌==◌, has_prefix, Bool, true, false, ◌||◌, List, [], ◌∷◌, ◌++◌, ◌≡◌, refl, arith, All,
  Exists, All-Exists, Bool-cases, inl, inr, ◌⊎◌, sym, ap, ◌∙◌, Result, ok, err, >>=-eq-ok,
  if◌then◌else◌,
}
use whaleshell_driver.Defaults.{Defaults}
use whaleshell_driver.GoPath.{render, clean}
use whaleshell_driver.Mounts.{
  PathError, paths_overlap, reserved_roots, check_reserved, normalize_absolute_container_path,
  validate_container_mount_target, validate_upload_dest,
}
use whaleshell_driver.Mounts.Overlap.{Segments, holds, paths_overlap-render, within-render}
use Normal.{Plain, IsNormal, normalize-IsNormal, clean_normal, IsNormal-Segments}

-- Neither of the two is a directory that holds the other, for every way to write the root as
-- segments.
abbrev pub IsApart : List Str → Str → Type 0
IsApart segs root =
    (x : Str) (xs : List Str)
    → Segments (x ∷ xs)
    → clean root ≡ render (x ∷ xs)
    → (holds segs (x ∷ xs) || holds (x ∷ xs) segs) ≡ false

check_reserved_head :
    (p r : Str) (roots : List Str)
    → check_reserved p (r ∷ roots) ≡ ok tt
    → (paths_overlap p (clean r) ≡ false) × (check_reserved p roots ≡ ok tt)
unfolding check_reserved
check_reserved_head p r roots h = ground arith

check_reserved-IsApart :
    (y : Str) (ys roots : List Str)
    → Segments (y ∷ ys)
    → check_reserved (render (y ∷ ys)) roots ≡ ok tt
    → All (IsApart (y ∷ ys)) roots
check_reserved-IsApart y ys [] hs h = tt
check_reserved-IsApart y ys (r ∷ roots) hs h =
    let (apart, rest) = check_reserved_head (render (y ∷ ys)) r roots h in
    (
      (λ x xs hx e.
          sym (paths_overlap-render y x ys xs hs hx)
          ∙ ap (paths_overlap (render (y ∷ ys))) (sym e)
          ∙ apart),
      check_reserved-IsApart y ys roots hs rest,
    )

validate-IsApart :
    (d : Defaults) (target : Str) (y : Str) (ys : List Str)
    → Plain (y ∷ ys)
    → normalize_absolute_container_path target ≡ ok (render (y ∷ ys))
    → validate_container_mount_target d target ≡ ok tt
    → All (IsApart (y ∷ ys)) (reserved_roots d)
unfolding validate_container_mount_target
validate-IsApart d target y ys plain normal h =
    check_reserved-IsApart y ys (reserved_roots d) (IsNormal-Segments (y ∷ ys) plain)
      (rw (clean_normal y ys plain) at (rw normal at h))

pub validate_container_mount_target-IsApart :
    (d : Defaults) (target : Str)
    → validate_container_mount_target d target ≡ ok tt
    → (y : Str) × (ys : List Str) × Plain (y ∷ ys)
      × (normalize_absolute_container_path target ≡ ok (render (y ∷ ys)))
      × All (IsApart (y ∷ ys)) (reserved_roots d)
unfolding validate_container_mount_target
validate_container_mount_target-IsApart d target h =
    let (n, normal, checked) =
      >>=-eq-ok (normalize_absolute_container_path target)
        (λ n. check_reserved (clean n) (reserved_roots d)) h in
    let (y, ys, plain, e) = normalize-IsNormal target n normal in
    (y, ys, plain, normal ∙ ap ok e, validate-IsApart d target y ys plain (normal ∙ ap ok e) h)

-- A mount target that is accepted normalizes to an absolute path of plain segments, and a reserved root is
-- neither that path nor above it nor below it, compared segment by segment, however the root is
-- written as segments.
pub validate_container_mount_target_sound :
    (d : Defaults) (target root : Str) (x : Str) (xs : List Str)
    → Exists (λ r. r ≡ root) (reserved_roots d)
    → Segments (x ∷ xs)
    → clean root ≡ render (x ∷ xs)
    → validate_container_mount_target d target ≡ ok tt
    → (y : Str) × (ys : List Str) × Plain (y ∷ ys)
      × (normalize_absolute_container_path target ≡ ok (render (y ∷ ys)))
      × ((holds (y ∷ ys) (x ∷ xs) || holds (x ∷ xs) (y ∷ ys)) ≡ false)
validate_container_mount_target_sound d target root x xs reserved hx spelled h =
    let (y, ys, plain, normal, apart) = validate_container_mount_target-IsApart d target h in
    (
      y,
      ys,
      plain,
      normal,
      All-Exists (IsApart (y ∷ ys)) (reserved_roots d) root apart reserved x xs hx spelled,
    )

validate_upload_dest-IsApart :
    (d : Defaults) (dest : Str) (w : Str) (ws : List Str)
    → Segments (w ∷ ws)
    → clean d.guest_workspace ≡ render (w ∷ ws)
    → validate_upload_dest d dest ≡ ok tt
    → (y : Str) × (ys : List Str) × Plain (y ∷ ys)
      × (normalize_absolute_container_path dest ≡ ok (render (y ∷ ys)))
      × ((holds (w ∷ ws) (y ∷ ys) ≡ true) ⊎ All (IsApart (y ∷ ys)) (reserved_roots d))
unfolding validate_upload_dest
validate_upload_dest-IsApart d dest w ws hw e h =
    let (n, normal, checked) =
      >>=-eq-ok (normalize_absolute_container_path dest)
        (λ n.
          if clean n == clean d.guest_workspace
            || has_prefix (clean n) (clean d.guest_workspace ++ codes "/")
          then ok tt
          else validate_container_mount_target d dest)
        h in
    let (y, ys, plain, spelled) = normalize-IsNormal dest n normal in
    let at : clean n ≡ render (y ∷ ys) = ap clean spelled ∙ clean_normal y ys plain in
    let test = within-render (w ∷ ws) (y ∷ ys) hw (IsNormal-Segments (y ∷ ys) plain) in
    (
      y,
      ys,
      plain,
      normal ∙ ap ok spelled,
      elim (Bool-cases (holds (w ∷ ws) (y ∷ ys))) [
        | inl inside ↦ inl inside
        | inr outside ↦ inr (
            validate-IsApart d dest y ys plain (normal ∙ ap ok spelled)
              (rw (at, e, test, outside) at checked))
      ],
    )

-- An accepted upload goes to the workspace or below it, or to a path such that a reserved root is neither that
-- path nor above it nor below it. The workspace and the root are given as segments.
pub validate_upload_dest_sound :
    (d : Defaults) (dest : Str) (w : Str) (ws : List Str) (root : Str) (x : Str) (xs : List Str)
    → Segments (w ∷ ws)
    → clean d.guest_workspace ≡ render (w ∷ ws)
    → Exists (λ r. r ≡ root) (reserved_roots d)
    → Segments (x ∷ xs)
    → clean root ≡ render (x ∷ xs)
    → validate_upload_dest d dest ≡ ok tt
    → (y : Str) × (ys : List Str) × Plain (y ∷ ys)
      × (normalize_absolute_container_path dest ≡ ok (render (y ∷ ys)))
      × ((holds (w ∷ ws) (y ∷ ys) ≡ true)
          ⊎ ((holds (y ∷ ys) (x ∷ xs) || holds (x ∷ xs) (y ∷ ys)) ≡ false))
validate_upload_dest_sound d dest w ws root x xs hw at_workspace reserved hx spelled h =
    let (y, ys, plain, normal, place) =
      validate_upload_dest-IsApart d dest w ws hw at_workspace h in
    (
      y,
      ys,
      plain,
      normal,
      elim place [
        | inl inside ↦ inl inside
        | inr apart ↦
            inr
              (All-Exists (IsApart (y ∷ ys)) (reserved_roots d) root apart reserved x xs hx spelled)
      ],
    )
