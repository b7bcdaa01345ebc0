-- ===== src/Mounts/Workspace.antt =====
-- internal/mounts/mounts.go: the host directory that a sandbox mounts as its workspace.
pub mod Denied
use whaleshell_driver.Base.{
  Str, codes, ◌==◌, trim_space, is_nil, equal_fold, has_prefix, Bool, true, false, not, ◌&&◌, ◌||◌,
  List, [], ◌∷◌, ◌++◌, if◌then◌else◌, Option, none, some, Result, ok, err, reject_if, ◌>>=◌, ◌>>◌,
  ◌≡◌, ◌≢◌, ◌⊎◌, inl, inr, refl, arith, All, Bool-cases, Option-cases, >>=-eq-ok, reject_if-eq-ok,
}
use whaleshell_driver.Defaults.{Host, FileInfo}
use whaleshell_driver.GoPath.{clean, base, join}

pub data WorkspaceError : Type 0 where
  abs_failed resolve_failed stat_failed not_a_directory no_home is_home : WorkspaceError
  denied_name under_denied : Str → WorkspaceError

abbrev pub deny_basenames : List Str
deny_basenames =
    codes ".ssh"
    ∷ codes ".aws"
    ∷ codes ".gnupg"
    ∷ codes ".kube"
    ∷ codes ".docker"
    ∷ codes ".config"
    ∷ codes ".cursor"
    ∷ codes ".codex"
    ∷ codes ".claude"
    ∷ []

unfoldable pub check_names : Str → List Str → Result WorkspaceError (Unit {0})
check_names base_name [] = ok tt
check_names base_name (d ∷ ds) =
    let rest = check_names base_name ds in
    if equal_fold base_name d then err (WorkspaceError.denied_name d) else rest

-- At the path or below it.
abbrev pub within : Str → Str → Bool
within abs prefix = abs == prefix || has_prefix abs (prefix ++ codes "/")

unfoldable pub check_under : Str → Str → List Str → Result WorkspaceError (Unit {0})
check_under home abs [] = ok tt
check_under home abs (d ∷ ds) =
    let rest = check_under home abs ds in
    if within abs (join (home ∷ d ∷ [])) then err (WorkspaceError.under_denied d) else rest

unfoldable pub check_home : Str → Str → Result WorkspaceError (Unit {0})
unfolding check_names check_under
check_home home abs = do
  reject_if (not (is_nil home) && abs == home) WorkspaceError.is_home
  check_names (base abs) deny_basenames
  (if is_nil home then ok tt else check_under home abs deny_basenames)

abbrev pub found : {A : Type 0} → Option A → WorkspaceError → Result WorkspaceError A
found none e = err e
found (some a) e = ok a

unfoldable pub check_deny : Host → Str → Result WorkspaceError (Unit {0})
unfolding check_home
check_deny host abs =
    found host.user_home_dir WorkspaceError.no_home >>= λ home. check_home (clean home) (clean abs)

unfoldable pub resolve_workspace : Host → Str → Bool → Result WorkspaceError Str
unfolding check_deny trim_space
resolve_workspace host path i_know = do
  let path' = if is_nil (trim_space path) then codes "." else path
  abs ← found (host.abs path') WorkspaceError.abs_failed
  canonical ← found (host.eval_symlinks abs) WorkspaceError.resolve_failed
  fi ← found (host.stat canonical) WorkspaceError.stat_failed
  reject_if (not fi.is_dir) WorkspaceError.not_a_directory
  (if i_know then ok tt else check_deny host canonical)
  ok canonical
