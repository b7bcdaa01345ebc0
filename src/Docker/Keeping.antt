-- ===== src/Docker/Keeping.antt =====
-- Actions of internal/docker/docker.go that make no container, network or volume keep every
-- invariant that such requests keep.
use whaleshell_driver.Base.{
  ℕ, zero, suc, Str, Bool, true, Option, none, some, Result, ok, err, ℤ, ◌≡◌, refl,
}
use whaleshell_driver.Engine.{Request, ImageInfo, World, M}
use whaleshell_driver.Engine.Keeps.{
  Keeps, Post, IsNeutral, Keeps-bind, Keeps-pure, Keeps-fail, Keeps-if, Keeps-or_fail, Keeps-try,
  Keeps-require, Keeps-attempt, Keeps-call, Keeps-send, Keeps-demand, Keeps-make,
  Keeps-inspect_container,
}
use whaleshell_driver.Engine.Resources.{makes_nothing}
use whaleshell_driver.Errors.{Error}
use whaleshell_driver.Docker.Exec.{
  exec, exit_code, raw_terminal, resize_once, poll, after_logs, wait_proxy_ca, wait_proxy_listening,
}
use whaleshell_driver.Docker.Image.{
  registry_auth, pull_image, pull_as, or_not_found, not_found_error, ensure_local, ensure_missing,
  inspect_image, ensure_image, pick_local, inspected_as, default_sandbox_image,
}
use whaleshell_driver.Runtime.{Driver}
use whaleshell_driver.Spec.{ExecRequest}

module _ {P : World → Type 0}
    (neutral : (req : Request) → makes_nothing req ≡ true → IsNeutral P req) (d : Driver) where
  Keeps-resize_once : (id : Str) (o : Option (ℕ × ℕ)) → Keeps P (resize_once d id o)
  unfolding resize_once makes_nothing
  Keeps-resize_once id none = Keeps-pure none
  Keeps-resize_once id (some size) = Keeps-send _ _ (neutral _ refl)

  Keeps-raw_terminal : (id : Str) → Keeps P (raw_terminal d id)
  unfolding raw_terminal
  Keeps-raw_terminal id = Keeps-bind _ _ (Keeps-require _ _) λ _. Keeps-resize_once id _

  Keeps-exit_code : (id : Str) (e : Error) → Keeps P (exit_code d id e)
  unfolding exit_code makes_nothing
  Keeps-exit_code id e = Keeps-call _ _ _ (neutral _ refl)

  pub Keeps-exec : (id : Str) (req : ExecRequest) → Keeps P (exec d id req)
  unfolding exec makes_nothing
  Keeps-exec id req = Keeps-bind _ _ (Keeps-require _ _) λ _.
      Keeps-bind _ _ (Keeps-inspect_container _ _ _ (neutral _ refl)) λ info.
        Keeps-bind _ _ (Keeps-or_fail _ info.config) λ cfg.
          Keeps-bind _ _ (Keeps-make _ _ _ (neutral _ refl)) λ exec_id.
            Keeps-bind _ _ (Keeps-demand _ _ _ (neutral _ refl)) λ _.
              Keeps-bind _ _ (Keeps-if _ _ _ (Keeps-raw_terminal exec_id) (Keeps-pure none))
                λ _. Keeps-exit_code exec_id _

  pub Keeps-poll :
      (probe : M ℤ) (timed_out : M (Unit {0})) (n : ℕ)
      → Keeps P probe
      → Keeps P timed_out
      → Keeps P (poll d probe timed_out n)
  unfolding poll
  Keeps-poll probe timed_out zero kp kt = kt
  Keeps-poll probe timed_out (suc n) kp kt = Keeps-bind _ _ (Keeps-try probe kp) λ code.
      Keeps-if _ _ _ (Keeps-pure tt)
        (Keeps-if _ _ _ (Keeps-fail Error.cancelled) (Keeps-poll probe timed_out n kp kt))

  Keeps-after_logs : (id : Str) (e : Error) → Keeps P (after_logs d id e)
  unfolding after_logs makes_nothing
  Keeps-after_logs id e = Keeps-bind _ _ (Keeps-send _ _ (neutral _ refl)) λ _. Keeps-fail e

  pub Keeps-wait_proxy_ca : (id : Str) → Keeps P (wait_proxy_ca d id)
  unfolding wait_proxy_ca
  Keeps-wait_proxy_ca id = Keeps-poll _ _ d.rounds (Keeps-exec id _) (Keeps-after_logs id _)

  pub Keeps-wait_proxy_listening : (id : Str) (port : ℤ) → Keeps P (wait_proxy_listening d id port)
  unfolding wait_proxy_listening
  Keeps-wait_proxy_listening id port =
      Keeps-poll _ _ d.rounds (Keeps-exec id _) (Keeps-after_logs id _)

  Keeps-registry_auth : (ref : Str) → Keeps P (registry_auth d ref)
  unfolding registry_auth
  Keeps-registry_auth ref = Keeps-or_fail _ (d.daemon.registry_auth ref)

  Keeps-pull_image : (ref : Str) → Keeps P (pull_image d ref)
  unfolding pull_image makes_nothing
  Keeps-pull_image ref =
      Keeps-bind _ _ (Keeps-registry_auth ref) λ auth. Keeps-demand _ _ _ (neutral _ refl)

  Keeps-pull_as : (remote local : Str) → Keeps P (pull_as d remote local)
  unfolding pull_as makes_nothing
  Keeps-pull_as remote local = Keeps-bind _ _ (Keeps-registry_auth remote) λ auth.
      Keeps-bind _ _ (Keeps-demand _ _ _ (neutral _ refl)) λ _. Keeps-demand _ _ _ (neutral _ refl)

  Keeps-or_not_found : (ref : Str) (m : M (Unit {0})) → Keeps P m → Keeps P (or_not_found ref m)
  unfolding or_not_found not_found_error
  Keeps-or_not_found ref m k = record { at = λ w h. named (m w) (k.at w h) }
    where
      named :
          (r : Result Error (Unit {0}) × World)
          → Post (λ _. P) P r
          → Post (λ _. P) P (not_found_error ref r)
      named (ok u, w) h = h
      named (err e, w) h = h

  Keeps-ensure_local : (ref : Str) (remote : Option Str) → Keeps P (ensure_local d ref remote)
  unfolding ensure_local
  Keeps-ensure_local ref none = Keeps-fail _
  Keeps-ensure_local ref (some remote) =
      Keeps-if _ _ _ (Keeps-fail _) (Keeps-or_not_found ref _ (Keeps-pull_as remote ref))

  Keeps-ensure_missing :
      (policy ref : Str) (o : Option ImageInfo) → Keeps P (ensure_missing d policy ref o)
  unfolding ensure_missing
  Keeps-ensure_missing policy ref (some info) = Keeps-pure tt
  Keeps-ensure_missing policy ref none =
      Keeps-if _ _ _ (Keeps-fail _)
        (Keeps-if _ _ _ (Keeps-ensure_local ref _) (Keeps-pull_image ref))

  Keeps-inspect_image : (ref : Str) → Keeps P (inspect_image d ref)
  unfolding inspect_image makes_nothing
  Keeps-inspect_image ref = Keeps-attempt _ _ (neutral _ refl)

  pub Keeps-ensure_image : (ref : Str) → Keeps P (ensure_image d ref)
  unfolding ensure_image
  Keeps-ensure_image ref =
      Keeps-if _ _ _ (Keeps-pull_image ref)
        (Keeps-bind _ _ (Keeps-inspect_image ref) λ o. Keeps-ensure_missing _ ref o)

  Keeps-pick_local : (o : Option ImageInfo) → Keeps P (pick_local d o)
  unfolding pick_local
  Keeps-pick_local none = Keeps-pure _
  Keeps-pick_local (some info) = Keeps-pure _

  Keeps-inspected_as : (img : Str) → Keeps P (inspected_as d img)
  unfolding inspected_as
  Keeps-inspected_as img = Keeps-bind _ _ (Keeps-inspect_image img) λ _. Keeps-pure img

  pub Keeps-default_sandbox_image :
      (mode : Str) (gpu : Bool) → Keeps P (default_sandbox_image d mode gpu)
  unfolding default_sandbox_image
  Keeps-default_sandbox_image mode gpu = Keeps-if _ _ _ (Keeps-pure _) (
      Keeps-if _ _ _ (Keeps-inspected_as _) (
        Keeps-if gpu _ _ (Keeps-inspected_as _)
          (Keeps-bind _ _ (Keeps-inspect_image _) λ o. Keeps-pick_local o)))
