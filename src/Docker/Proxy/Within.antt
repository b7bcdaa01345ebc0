-- ===== src/Docker/Proxy/Within.antt =====
-- Rules for a call under a context that may be over, in createProxySidecar of internal/docker/docker.go.
use whaleshell_driver.Base.{Bool, true, false, []}
use whaleshell_driver.Docker.Proxy.{send_within}
use whaleshell_driver.Engine.{Request, World, log}
use whaleshell_driver.Engine.Keeps.{Triple, Keeps, IsNeutral, Triple-send}
use whaleshell_driver.Runtime.{Driver}

module _ {P Q E : World → Type 0} where
  pub Triple-send_within :
      (d : Driver) (over : Bool) (req : Request)
      → ((accepted : Bool) (w : World) → P w → Q (log req accepted [] w))
      → Triple P (send_within d over req) (λ _. Q) E
  unfolding send_within
  Triple-send_within d true req f = record { at = f false }
  Triple-send_within d false req f = record { at = (Triple-send {Q = Q} d.daemon req f).at }

module _ {P : World → Type 0} where
  pub Keeps-send_within :
      (d : Driver) (over : Bool) (req : Request)
      → IsNeutral P req
      → Keeps P (send_within d over req)
  Keeps-send_within d over req n = Triple-send_within d over req λ accepted w h. n accepted [] w h
