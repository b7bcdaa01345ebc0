-- ===== src/Docker/Start/Outcome.antt =====
-- When `Start` of internal/docker/docker.go fails.
use whaleshell_driver.Base.{
  Bool-cases, inl, inr, if◌then◌else◌, Str, true, false, [], Result, ok, err, ◌≡◌, refl, ◌∙◌, ap,
}
use whaleshell_driver.Docker.Lifecycle.{ensure_ssh_daemon}
use whaleshell_driver.Docker.Start.{
  start, after_start, report, diagnostics, ensure_guest_layout, start_ssh, ssh_outcome,
}
use whaleshell_driver.Engine.{
  Request, World, M, log, pure, fail, send, call, attempt, demand, try, ◌>>=◌, ◌>>◌,
}
use whaleshell_driver.Errors.{Error}
use whaleshell_driver.Runtime.{Driver}

-- The world after a step whose failure is reported: the logs of the container are asked for next.
abbrev pub reported : Driver → Str → Result Error (Unit {0}) × World → World
reported d id (ok _, w) = w
reported d id (err _, w) =
    log (Request.container_logs id) (d.daemon.done w.events (Request.container_logs id)) [] w

-- The same where SSH may be switched off.
abbrev pub reported_unless_disabled : Driver → Str → Result Error (Unit {0}) × World → World
reported_unless_disabled d id (err Error.ssh_disabled, w) = w
reported_unless_disabled d id (r, w) = reported d id (r, w)

module _ (d : Driver) (id : Str) where
  -- A step whose failure is reported never stops what follows.
  after_step :
      (step rest : M (Unit {0})) (w : World)
      → (try step >>= λ o. report d id o >> rest) w ≡ rest (reported d id (step w))
  unfolding try report diagnostics send attempt pure ◌>>=◌
  after_step step rest w = passes (step w)
    where
      passes :
          (r : Result Error (Unit {0}) × World)
          → (try (λ _. r) >>= λ o. report d id o >> rest) w ≡ rest (reported d id r)
      passes (ok u, v) = refl
      passes (err e, v) = elim (Bool-cases (d.daemon.done v.events (Request.container_logs id))) [
        | inl given ↦ rw given refl
        | inr refused ↦ rw refused refl
      ]

  reported-ssh_outcome :
      (r : Result Error (Unit {0}) × World)
      → reported d id (ssh_outcome r) ≡ reported_unless_disabled d id r
  unfolding ssh_outcome
  reported-ssh_outcome (ok u, w) = refl
  reported-ssh_outcome (err Error.ssh_disabled, w) = refl
  reported-ssh_outcome (err e, w) = refl

  after_start_lem :
      (w : World)
      → after_start d id w ≡ (
        ok tt,
        reported_unless_disabled d id
            (ensure_ssh_daemon d id (reported d id (ensure_guest_layout d id w))),
      )
  unfolding after_start start_ssh pure
  after_start_lem w =
      after_step (ensure_guest_layout d id) _ w
      ∙ (after_step (start_ssh d id) (pure tt) (reported d id (ensure_guest_layout d id w))
          ∙ ap (λ v. (ok tt, v))
              (reported-ssh_outcome
                (ensure_ssh_daemon d id (reported d id (ensure_guest_layout d id w)))))

-- `Start` asks the daemon to start the container and fails where that is refused, and nowhere else. Where it is
-- accepted, the guest layout follows and then the SSH daemon, each exactly once and also after the
-- other has failed; right after a step that fails, the container's logs are asked for, but not where
-- SSH is disabled.
pub start-outcome :
    (d : Driver) (id : Str) (w : World)
    → let started = log (Request.container_start id) true [] w in
      let laid_out = reported d id (ensure_guest_layout d id started) in
      start d id w ≡ (
        if d.daemon.done w.events (Request.container_start id)
        then (ok tt, reported_unless_disabled d id (ensure_ssh_daemon d id laid_out))
        else (err Error.start_failed, log (Request.container_start id) false [] w))
unfolding start demand call attempt pure fail ◌>>=◌
start-outcome d id w = elim (Bool-cases (d.daemon.done w.events (Request.container_start id))) [
  | inl accepted ↦ rw accepted (after_start_lem d id (log (Request.container_start id) true [] w))
  | inr refused ↦ rw refused refl
]
