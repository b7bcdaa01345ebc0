-- ===== src/Docker/Exec/Waiting.antt =====
-- The waits for readiness of internal/docker/docker.go: what a wait that returns has seen, and that each
-- is bounded.
use whaleshell_driver.Base.{
  ℕ, zero, suc, Str, codes, Bool, true, false, [], ◌∷◌, if◌then◌else◌, ℤ, pos, negsuc, Result, ok,
  err, ◌≡◌, refl, subst, ◌++◌, arith,
}
use whaleshell_driver.Base.Decimal.{show_ℤ}
use whaleshell_driver.Docker.Exec.{
  poll, succeeded, exec, after_logs, wait_proxy_ca, wait_proxy_listening, request_of,
}
use whaleshell_driver.Engine.{World, M, pure, fail, try, settle}
use whaleshell_driver.Errors.{Error}
use whaleshell_driver.Runtime.{Driver}
use whaleshell_driver.Engine.Keeps.{
  Post, Triple, Triple-bind, Triple-pure, Triple-fail, Triple-send, Triple-weaken,
}

-- The world is the one right after a probe that returned zero.
abbrev pub IsReady : M ℤ → World → Type 0
IsReady probe w = (before : World) × (probe before ≡ (ok (pos 0), w))

module _ (d : Driver) (probe : M ℤ) (timed_out : M (Unit {0})) where
  tried :
      (before : World) (r : Result Error ℤ × World)
      → probe before ≡ r
      → Post (λ code w. succeeded code ≡ true → IsReady probe w) (λ _. Unit {0}) (settle r)
  tried before (ok (pos zero), w) ran = λ ready. (before, ran)
  tried before (ok (pos (suc n)), w) ran = λ ready. absurd (ground (arith, ready))
  tried before (ok (negsuc n), w) ran = λ ready. absurd (cc ready)
  tried before (err e, w) ran = λ ready. absurd (cc ready)

  Triple-try :
      Triple
        (λ _. Unit {0})
        (try probe)
        (λ code w. succeeded code ≡ true → IsReady probe w)
        (λ _. Unit {0})
  unfolding try
  Triple-try = record { at = λ w h. tried w (probe w) refl }

  Triple-round :
      (ready cancelled : Bool) (again : M (Unit {0}))
      → Triple (λ _. Unit {0}) again (λ _. IsReady probe) (λ _. Unit {0})
      → Triple
          (λ w. ready ≡ true → IsReady probe w)
          (if ready then pure tt else if cancelled then fail Error.cancelled else again)
          (λ _. IsReady probe)
          (λ _. Unit {0})
  Triple-round true cancelled again t = Triple-pure tt (λ w h. h refl)
  Triple-round false true again t = Triple-fail _ (λ w h. tt)
  Triple-round false false again t = Triple-weaken _ (λ w h. tt) (λ _ w h. h) (λ w h. h) t

  Triple-poll :
      Triple (λ _. Unit {0}) timed_out (λ _ _. ⊥) (λ _. Unit {0})
      → (n : ℕ)
      → Triple (λ _. Unit {0}) (poll d probe timed_out n) (λ _. IsReady probe) (λ _. Unit {0})
  unfolding poll
  Triple-poll fails zero = record { at = λ w h. no_return (timed_out w) (fails.at w h) }
    where
      no_return :
          (r : Result Error (Unit {0}) × World)
          → Post (λ _ _. ⊥) (λ _. Unit {0}) r
          → Post (λ _. IsReady probe) (λ _. Unit {0}) r
      no_return (ok u, w) h = absurd h
      no_return (err e, w) h = tt
  Triple-poll fails (suc n) =
      Triple-bind _ _ Triple-try
        λ code. Triple-round (succeeded code) (d.cancelled n) _ (Triple-poll fails n)

module _ (d : Driver) (id : Str) where
  after_logs_fails :
      (e : Error) → Triple (λ _. Unit {0}) (after_logs d id e) (λ _ _. ⊥) (λ _. Unit {0})
  unfolding after_logs
  after_logs_fails e =
      Triple-bind {Q = λ _ _. Unit {0}} _ _ (Triple-send _ _ (λ accepted w h. tt))
        λ _. Triple-fail e (λ w h. tt)

-- A wait for the sidecar's certificate that returns no error ends right after a command in the sidecar that
-- exited with zero: the test that the certificate is there and not empty.
pub wait_proxy_ca-IsReady :
    (d : Driver) (id : Str) (w w' : World)
    → wait_proxy_ca d id w ≡ (ok tt, w')
    → IsReady
        (exec d id (request_of (codes "test" ∷ codes "-s" ∷ codes "/cauteum/ca/ca.pem" ∷ [])))
        w'
unfolding wait_proxy_ca
wait_proxy_ca-IsReady d id w w' done =
    subst (Post (λ _. IsReady _) (λ _. Unit {0})) done
      ((Triple-poll d _ _ (after_logs_fails d id _) d.rounds).at w tt)

-- A wait for the sidecar's port that returns no error ends right after a command in the sidecar that exited with
-- zero: the connection to that port.
wait_proxy_listening-IsReady :
    (d : Driver) (id : Str) (port : ℤ) (w w' : World)
    → wait_proxy_listening d id port w ≡ (ok tt, w')
    → IsReady
        (exec d id (
          request_of (
            codes "bash" ∷ codes "-c" ∷ (codes "exec 3<>/dev/tcp/127.0.0.1/" ++ show_ℤ port) ∷ [])))
        w'
unfolding wait_proxy_listening
wait_proxy_listening-IsReady d id port w w' done =
    subst (Post (λ _. IsReady _) (λ _. Unit {0})) done
      ((Triple-poll d _ _ (after_logs_fails d id _) d.rounds).at w tt)
