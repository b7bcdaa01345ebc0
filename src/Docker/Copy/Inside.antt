-- ===== src/Docker/Copy/Inside.antt =====
-- The names of an archive that safeArchiveName of internal/docker/docker.go accepts, and their parents.
use mathlib.Core.List.{reverse, reverse-cons}
use whaleshell_driver.Base.{
  ℕ, Str, codes, ◌==◌, ==_iff, eqb, split, is_nil, any, false, ◌||◌, List, [], ◌∷◌, ◌++◌, ◌≡◌, refl,
  sym, subst, arith, All, append-nil, All-append, Bool-cases, inl, inr, ◌⊎◌, ok,
}
use whaleshell_driver.Docker.Copy.{safe_archive_name}
use whaleshell_driver.GoPath.{
  render, clean, is_abs, dir, dir_part, relative_text, resolve, step_segment,
}
use whaleshell_driver.Mounts.Overlap.{IsSegment, NoSlash}
use whaleshell_driver.Mounts.Reserved.Normal.{IsPlain, Plain, split-NoSlash, split_segment}

-- A path of plain segments below the directory that it is relative to.
abbrev pub IsBelow : Str → Type 0
IsBelow p = (y : Str) × (ys : List Str) × Plain (y ∷ ys) × (p ≡ y ++ render ys)

-- The same, or the directory itself.
abbrev pub IsWithin : Str → Type 0
IsWithin p = (p ≡ codes ".") ⊎ IsBelow p

abbrev IsForward : Str → Type 0
IsForward s = (s == codes "..") ≡ false

Plain-reverse : (segs : List Str) → Plain segs → Plain (reverse segs)
Plain-reverse [] h = tt
Plain-reverse (s ∷ segs) h =
    rw (reverse-cons s segs)
      (All-append IsPlain (reverse segs) (s ∷ []) (Plain-reverse segs h.1) (h.0, tt))

step_forward :
    (s : Str) (stack : List Str)
    → NoSlash s
    → IsForward s
    → Plain stack
    → Plain (step_segment false stack s)
unfolding step_segment
step_forward [] [] n f h = tt
step_forward [] (t ∷ stack) n f h = h
step_forward (c ∷ s) [] n f h = elim (Bool-cases ((c ∷ s) == codes ".")) [
  | inl dot ↦ rw dot tt
  | inr other ↦ rw (other, f) (((((λ e. cc), n), other, f)), tt)
]
step_forward (c ∷ s) (t ∷ stack) n f h = elim (Bool-cases ((c ∷ s) == codes ".")) [
  | inl dot ↦ rw dot h
  | inr other ↦ rw (other, f) (((((λ e. cc), n), other, f)), h)
]

resolve_forward :
    (segs stack : List Str)
    → All NoSlash segs
    → All IsForward segs
    → Plain stack
    → Plain (resolve false stack segs)
unfolding resolve
resolve_forward [] stack n f h = Plain-reverse stack h
resolve_forward (s ∷ segs) stack n f h =
    resolve_forward segs (step_segment false stack s) n.1 f.1 (step_forward s stack n.0 f.0 h)

relative-IsWithin : (segs : List Str) → Plain segs → IsWithin (relative_text segs)
relative-IsWithin [] h = inl refl
relative-IsWithin (s ∷ segs) h = inr (s, segs, h, refl)

clean_relative :
    (c : ℕ) (s : Str)
    → eqb c b'/' ≡ false
    → clean (c ∷ s) ≡ relative_text (resolve false [] (split (c ∷ s) b'/'))
unfolding clean
clean_relative c s r = rw r refl

-- Clean of a relative path without `..` stays below.
pub clean-IsWithin :
    (p : Str) → is_abs p ≡ false → All IsForward (split p b'/') → IsWithin (clean p)
clean-IsWithin [] r f = unfold clean in inl refl
clean-IsWithin (c ∷ s) r f = subst IsWithin (sym (clean_relative c s (unfold is_abs in r))) (
    relative-IsWithin (resolve false [] (split (c ∷ s) b'/'))
      (resolve_forward (split (c ∷ s) b'/') [] (split-NoSlash (c ∷ s)) f tt))

any-IsForward : (segs : List Str) → any (λ s. s == codes "..") segs ≡ false → All IsForward segs
any-IsForward [] h = tt
any-IsForward (s ∷ segs) h = (ground arith, any-IsForward segs (ground arith))

pub safe_archive_name_checks :
    (raw name : Str)
    → safe_archive_name raw ≡ ok name
    → ((is_nil raw || is_abs raw) ≡ false)
      × (any (λ s. s == codes "..") (split raw b'/') ≡ false)
      × ((clean raw == codes ".") ≡ false)
      × (clean raw ≡ name)
unfolding safe_archive_name
safe_archive_name_checks raw name h = ground arith

not_top : (p : Str) → (p == codes ".") ≡ false → IsWithin p → IsBelow p
not_top p h (inl e) = absurd (ground (arith, ==_iff p (codes ".")))
not_top p h (inr below) = below

-- What safeArchiveName accepts is a path of plain segments below the destination.
pub safe_archive_name-IsBelow : (raw name : Str) → safe_archive_name raw ≡ ok name → IsBelow name
safe_archive_name-IsBelow raw name h =
    let (relative, forward, other, e) = safe_archive_name_checks raw name h in
    subst IsBelow e (
      not_top (clean raw) other
        (clean-IsWithin raw (ground arith) (any-IsForward (split raw b'/') forward)))

dir_part_last : (s : Str) → NoSlash s → dir_part s ≡ []
unfolding dir_part
dir_part_last [] h = refl
dir_part_last (c ∷ s) h = ground (arith, h.0, dir_part_last s h.1)

dir_part_segment : (s r : Str) → NoSlash s → dir_part (s ++ b'/' ∷ r) ≡ s ++ b'/' ∷ dir_part r
unfolding dir_part
dir_part_segment [] r h = refl
dir_part_segment (c ∷ []) r h = ground (arith, h.0)
dir_part_segment (c ∷ d ∷ s) r h = ground (arith, h.0, dir_part_segment (d ∷ s) r h.1)

relative_segment : (s r : Str) → IsSegment s → is_abs (s ++ r) ≡ false
unfolding is_abs
relative_segment [] r h = absurd (h.0 refl)
relative_segment (c ∷ s) r h = ground (arith, h.1.0)

relative_dir :
    (y : Str) (ys : List Str) → Plain (y ∷ ys) → is_abs (dir_part (y ++ render ys)) ≡ false
unfolding render
relative_dir y [] h = rw (append-nil, dir_part_last y h.0.0.1) (unfold is_abs in refl)
relative_dir y (z ∷ zs) h =
    rw (dir_part_segment y (z ++ render zs) h.0.0.1) (relative_segment y _ h.0.0)

IsForward-dir :
    (y : Str) (ys : List Str)
    → Plain (y ∷ ys)
    → All IsForward (split (dir_part (y ++ render ys)) b'/')
unfolding render
IsForward-dir y [] h = rw (append-nil, dir_part_last y h.0.0.1) (unfold split in (refl, tt))
IsForward-dir y (z ∷ zs) h =
    rw
      (
        dir_part_segment y (z ++ render zs) h.0.0.1,
        split_segment y (dir_part (z ++ render zs)) h.0.0.1,
      )
      (h.0.2, IsForward-dir z zs h.1)

-- The parent of such a path is not outside.
pub dir-IsWithin : (p : Str) → IsBelow p → IsWithin (dir p)
unfolding dir
dir-IsWithin p (y, ys, h, e) =
    subst (λ q. IsWithin (clean (dir_part q))) (sym e)
      (clean-IsWithin (dir_part (y ++ render ys)) (relative_dir y ys h) (IsForward-dir y ys h))
