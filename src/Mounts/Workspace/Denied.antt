-- ===== src/Mounts/Workspace/Denied.antt =====
-- What `ResolveWorkspace` of internal/mounts/mounts.go lets through.
use whaleshell_driver.Base.{
  Str, codes, ◌==◌, ==_iff, trim_space, is_nil, equal_fold, has_prefix, Bool, true, false, not,
  ◌&&◌, ◌||◌, List, [], ◌∷◌, ◌++◌, if◌then◌else◌, Option, none, some, ok, reject_if, ◌>>=◌, ◌≡◌,
  ◌≢◌, ◌⊎◌, inl, inr, refl, arith, All, Bool-cases, >>=-eq-ok, reject_if-eq-ok,
}
use whaleshell_driver.Defaults.{Host, FileInfo}
use whaleshell_driver.GoPath.{clean, base, join}
use whaleshell_driver.Mounts.Workspace.{
  WorkspaceError, deny_basenames, check_names, within, check_under, check_home, check_deny, found,
  resolve_workspace,
}

check_names-All :
    (b : Str) (ds : List Str) → check_names b ds ≡ ok tt → All (λ d. equal_fold b d ≡ false) ds
unfolding check_names
check_names-All b [] h = tt
check_names-All b (d ∷ ds) h = elim (Bool-cases (equal_fold b d)) [
  | inl hit ↦ absurd (cc (rw hit at h))
  | inr miss ↦ (miss, check_names-All b ds (rw miss at h))
]

-- The path is neither the prefix nor a path that continues it after a slash.
abbrev pub IsOutside : Str → Str → Type 0
IsOutside abs prefix = (abs ≢ prefix) × ((rest : Str) → abs ≢ prefix ++ b'/' ∷ rest)

has_prefix-append : (p rest : Str) → has_prefix (p ++ b'/' ∷ rest) (p ++ codes "/") ≡ true
unfolding has_prefix
has_prefix-append [] rest = refl
has_prefix-append (c ∷ p) rest = ground (arith, has_prefix-append p rest)

pub within-IsOutside : (abs prefix : Str) → within abs prefix ≡ false → IsOutside abs prefix
within-IsOutside abs prefix h = (
  (λ e. absurd (grind (arith, ==_iff abs prefix))),
  λ rest e.
      absurd (
        cc (rw (e, has_prefix-append prefix rest, or-true (prefix ++ b'/' ∷ rest == prefix)) at h)),
)
  where
    or-true : (b : Bool) → (b || true) ≡ true
    or-true b = ground arith

check_under-All :
    (home abs : Str) (ds : List Str)
    → check_under home abs ds ≡ ok tt
    → All (λ d. IsOutside abs (join (home ∷ d ∷ []))) ds
unfolding check_under
check_under-All home abs [] h = tt
check_under-All home abs (d ∷ ds) h = elim (Bool-cases (within abs (join (home ∷ d ∷ [])))) [
  | inl hit ↦ absurd (cc (rw hit at h))
  | inr miss ↦
      (within-IsOutside abs (join (home ∷ d ∷ [])) miss, check_under-All home abs ds (rw miss at h))
]

-- The path is not the home directory, has none of the denied names, and is neither one of the denied
-- directories of the home directory nor below one.
abbrev pub IsAllowed : Str → Str → Type 0
IsAllowed home abs =
    All (λ n. equal_fold (base abs) n ≡ false) deny_basenames
    × ((home ≡ [])
        ⊎ ((abs ≢ home) × All (λ n. IsOutside abs (join (home ∷ n ∷ []))) deny_basenames))

check_home-IsAllowed : (home abs : Str) → check_home home abs ≡ ok tt → IsAllowed home abs
unfolding check_home
check_home-IsAllowed home abs h =
    let (u, kept, rest) =
      >>=-eq-ok (reject_if (not (is_nil home) && abs == home) WorkspaceError.is_home) _ h in
    let (v, names, under) = >>=-eq-ok (check_names (base abs) deny_basenames) _ rest in
    (
      check_names-All (base abs) deny_basenames names,
      by_home home (reject_if-eq-ok _ WorkspaceError.is_home kept) under,
    )
  where
    by_home :
        (home : Str)
        → (not (is_nil home) && abs == home) ≡ false
        → (if is_nil home then ok tt else check_under home abs deny_basenames) ≡ ok tt
        → (home ≡ [])
          ⊎ ((abs ≢ home) × All (λ n. IsOutside abs (join (home ∷ n ∷ []))) deny_basenames)
    by_home [] other under = inl refl
    by_home (c ∷ s) other under = inr (
      (λ e. absurd (grind (arith, ==_iff abs (c ∷ s)))),
      check_under-All (c ∷ s) abs deny_basenames under,
    )

found-eq-ok :
    {A : Type 0} (o : Option A) (e : WorkspaceError) {a : A} → found o e ≡ ok a → o ≡ some a
found-eq-ok none e h = cc
found-eq-ok (some b) e h = cc

-- A directory that the resolution of links gave, and that the denials do not cover.
abbrev pub IsSafe : Host → Str → Type 0
IsSafe host ws =
    ((abs : Str) × (host.eval_symlinks abs ≡ some ws))
    × ((fi : FileInfo) × (host.stat ws ≡ some fi) × (fi.is_dir ≡ true))
    × ((home : Str) × (host.user_home_dir ≡ some home) × IsAllowed (clean home) (clean ws))

check_deny-IsAllowed :
    (host : Host) (ws : Str)
    → check_deny host ws ≡ ok tt
    → (home : Str) × (host.user_home_dir ≡ some home) × IsAllowed (clean home) (clean ws)
unfolding check_deny
check_deny-IsAllowed host ws h =
    let (home, at, allowed) = >>=-eq-ok (found host.user_home_dir WorkspaceError.no_home) _ h in
    (home, found-eq-ok _ _ at, check_home-IsAllowed (clean home) (clean ws) allowed)

-- The tests on the resolved path.
directory_checks :
    (host : Host) (real ws : Str) (fi : FileInfo)
    → (reject_if (not fi.is_dir) WorkspaceError.not_a_directory >>= λ _.
        check_deny host real >>= λ _. ok real)
      ≡ ok ws
    → (fi.is_dir ≡ true) × (check_deny host real ≡ ok tt) × (real ≡ ws)
directory_checks host real ws fi h =
    let (u, dir, rest) = >>=-eq-ok (reject_if (not fi.is_dir) WorkspaceError.not_a_directory) _ h in
    let (v, denied, same) = >>=-eq-ok (check_deny host real) _ rest in
    (ground (arith, reject_if-eq-ok _ WorkspaceError.not_a_directory dir), denied, cc)

-- A workspace that is accepted without the caller's own word for it is a directory, with symbolic links
-- resolved, and its clean path is none that the list of denials covers under the home directory.
pub resolve_workspace_sound :
    (host : Host) (path ws : Str) → resolve_workspace host path false ≡ ok ws → IsSafe host ws
unfolding resolve_workspace
resolve_workspace_sound host path ws h =
    let (abs, at, h1) =
      >>=-eq-ok
        (found (host.abs (if is_nil (trim_space path) then codes "." else path))
          WorkspaceError.abs_failed)
        _ h in
    resolved abs h1
  where
    checked :
        (abs real : Str) (fi : FileInfo)
        → host.eval_symlinks abs ≡ some real
        → host.stat real ≡ some fi
        → (fi.is_dir ≡ true) × (check_deny host real ≡ ok tt) × (real ≡ ws)
        → IsSafe host ws
    checked abs real fi at seen (dir, denied, same) = (
      (abs, rw same at at),
      (fi, rw same at seen, dir),
      check_deny-IsAllowed host ws (rw same at denied),
    )

    stated :
        (abs real : Str)
        → host.eval_symlinks abs ≡ some real
        → (found (host.stat real) WorkspaceError.stat_failed >>= λ fi.
            reject_if (not fi.is_dir) WorkspaceError.not_a_directory >>= λ _.
            check_deny host real >>= λ _. ok real)
          ≡ ok ws
        → IsSafe host ws
    stated abs real at h2 =
        let (fi, seen, h3) = >>=-eq-ok (found (host.stat real) WorkspaceError.stat_failed) _ h2 in
        checked abs real fi at (found-eq-ok _ _ seen) (directory_checks host real ws fi h3)

    resolved :
        (abs : Str)
        → (found (host.eval_symlinks abs) WorkspaceError.resolve_failed >>= λ real.
            found (host.stat real) WorkspaceError.stat_failed >>= λ fi.
            reject_if (not fi.is_dir) WorkspaceError.not_a_directory >>= λ _.
            check_deny host real >>= λ _. ok real)
          ≡ ok ws
        → IsSafe host ws
    resolved abs h1 =
        let (real, at, h2) =
          >>=-eq-ok (found (host.eval_symlinks abs) WorkspaceError.resolve_failed) _ h1 in
        stated abs real (found-eq-ok _ _ at) h2
