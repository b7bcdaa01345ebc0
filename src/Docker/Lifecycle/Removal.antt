-- ===== src/Docker/Lifecycle/Removal.antt =====
-- What `Delete` of internal/docker/docker.go takes off the daemon.
use whaleshell_driver.Base.{Str, codes, true, List, [], ◌≡◌, ◌≢◌, ◌⊎◌, Option, none, some, ok, err}
use whaleshell_driver.Base.Assoc.{get}
use whaleshell_driver.Docker.Create.Naming.{proxy_name}
use whaleshell_driver.Docker.Lifecycle.{delete, label_name, label_network, label_volume}
use whaleshell_driver.Engine.{Request, InspectedConfig, World, log}
use whaleshell_driver.Engine.Resources.{Lives}
use whaleshell_driver.Engine.Leftovers.{Leaves}
use whaleshell_driver.Errors.{Error}
use whaleshell_driver.Runtime.{Driver}

-- What is left of P when the target is removed; an empty target removes nothing.
abbrev pub Minus : (Str → Type 0) → Str → Str → Type 0
Minus P target n = P n × ((target ≡ []) ⊎ (n ≢ target))

-- The same for containers, of which the ID and the name are compared; `named` is empty where the
-- removal is skipped.
abbrev pub MinusContainer : (Str × Str → Type 0) → Str → Str → Str × Str → Type 0
MinusContainer C named target c = C c × ((named ≡ []) ⊎ ((c.0 ≢ target) × (c.1 ≢ target)))

abbrev pub LeftVolume : (Str → Type 0) → List (Str × Str) → Str → Type 0
LeftVolume V labels =
    Minus (Minus (Minus V (get label_volume labels)) (get (codes "cauteum.ca_volume") labels))
      (get (codes "cauteum.ssh_volume") labels)

abbrev pub LeftNetwork : (Str → Type 0) → List (Str × Str) → Str → Type 0
LeftNetwork N labels = Minus N (get label_network labels)

abbrev pub LeftContainer : (Str × Str → Type 0) → Str → List (Str × Str) → Str × Str → Type 0
LeftContainer C id labels =
    MinusContainer (λ c. C c × (c.0 ≢ id) × (c.1 ≢ id)) (get label_name labels)
      (proxy_name (get label_name labels))

-- What is left of what satisfied V, N and C.
abbrev pub Left :
    (Str → Type 0) → (Str → Type 0) → (Str × Str → Type 0) → Str → List (Str × Str) → World → Type 0
Left V N C id labels w =
    Lives (LeftVolume V labels) (LeftNetwork N labels) (LeftContainer C id labels) w.events

-- How a call of `Delete` ends in the world w, by the configuration that the inspection gave: without one it
-- panics right after the inspection, with one it returns no error and what is left is known.
abbrev pub Deleted :
    (Str → Type 0)
    → (Str → Type 0)
    → (Str × Str → Type 0)
    → Driver
    → Str
    → World
    → Option InspectedConfig
    → Type 0
Deleted V N C d id w none =
    delete d id w ≡ (err Error.nil_dereference, log (Request.container_inspect id) true [] w)
Deleted V N C d id w (some cfg) =
    (w' : World) × (delete d id w ≡ (ok tt, w'))
    × Left V N C id cfg.labels w'
    × Leaves (LeftVolume V cfg.labels) (LeftNetwork N cfg.labels) (LeftContainer C id cfg.labels)
        w'.events
