-- ===== src/Docker/Create/Rollback/Invariant.antt =====
-- The invariant of `Create` between its steps: what lives on the daemon was there before, or is what
-- the clean-up knows.
use whaleshell_driver.Base.{Str, ◌==◌, true, ◌≡◌, ◌⊎◌, inl, any}
use whaleshell_driver.Docker.Create.Naming.{proxy_name}
use whaleshell_driver.Engine.{Request, World}
use whaleshell_driver.Engine.Keeps.{IsNeutral}
use whaleshell_driver.Engine.Resources.{Lives, Lives-neutral, Lives-map, makes_nothing}

module _ (V N : Str → Type 0) (C : Str × Str → Type 0) where
  -- Nothing lives beyond what satisfies the predicates.
  abbrev pub Clean : World → Type 0
  Clean w = Lives V N C w.events

  pub Clean-IsNeutral : (req : Request) → makes_nothing req ≡ true → IsNeutral Clean req
  Clean-IsNeutral req n accepted made w h = Lives-neutral req accepted made w.events n h

module _ (V N : Str → Type 0) (C : Str × Str → Type 0) (name net : Str) where
  abbrev pub KnownVolume : World → Str → Type 0
  KnownVolume w v = V v ⊎ (any (λ u. v == u) w.created_volumes ≡ true)

  abbrev pub KnownNetwork : World → Str → Type 0
  KnownNetwork w n = N n ⊎ ((n ≡ net) × (w.network_created ≡ true))

  abbrev pub KnownContainer : World → Str × Str → Type 0
  KnownContainer w c = C c ⊎ ((c.1 ≡ proxy_name name) × (w.proxy_created ≡ true))

  abbrev pub Tracked : World → Type 0
  Tracked w = Lives (KnownVolume w) (KnownNetwork w) (KnownContainer w) w.events

  pub Tracked-IsNeutral : (req : Request) → makes_nothing req ≡ true → IsNeutral Tracked req
  Tracked-IsNeutral req n accepted made w h = Lives-neutral req accepted made w.events n h

  pub Clean-Tracked : (w : World) → Clean V N C w → Tracked w
  Clean-Tracked w h = Lives-map w.events (λ _. inl) (λ _. inl) (λ _. inl) h
