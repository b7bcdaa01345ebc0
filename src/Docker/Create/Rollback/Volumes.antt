-- ===== src/Docker/Create/Rollback/Volumes.antt =====
-- The volumes of `Create` under its invariant.
use whaleshell_driver.Base.{
  Str, ◌==◌, ==_iff, Bool, true, false, ◌||◌, [], ◌≡◌, refl, sym, subst, ◌⊎◌, inl, inr, any, Option,
  none, some, arith,
}
use whaleshell_driver.Docker.Create.{note_volume, tracked_volume, persist}
use whaleshell_driver.Docker.Create.Naming.{data_volume}
use whaleshell_driver.Docker.Create.Rollback.Invariant.{
  Tracked, Tracked-IsNeutral, KnownVolume, KnownNetwork, KnownContainer,
}
use whaleshell_driver.Docker.Volume.{create_volume, volume_found, ensure_volume}
use whaleshell_driver.Engine.{Request, World}
use whaleshell_driver.Engine.Keeps.{
  Triple, Keeps, Triple-bind, Triple-pure, Triple-demand, Keeps-send,
}
use whaleshell_driver.Engine.Resources.{Lives, Lives-step, Lives-map, makes_nothing}
use whaleshell_driver.Runtime.{Driver}

module _ (V N : Str → Type 0) (C : Str × Str → Type 0) (name net : Str) (d : Driver) where
  -- The volume may live without a note of it.
  abbrev Pending : Str → Bool → World → Type 0
  Pending v made w =
      Lives (λ u. KnownVolume V N C name net w u ⊎ ((u ≡ v) × (made ≡ true)))
        (KnownNetwork V N C name net w) (KnownContainer V N C name net w) w.events

  Tracked-Pending : (v : Str) (b : Bool) (w : World) → Tracked V N C name net w → Pending v b w
  Tracked-Pending v b w h = Lives-map w.events (λ _. inl) (λ _ k. k) (λ _ k. k) h

  Triple-create_volume :
      (v : Str)
      → Triple (Tracked V N C name net) (create_volume d v) (Pending v) (Tracked V N C name net)
  unfolding create_volume
  Triple-create_volume v =
      Triple-bind _ _
        (Triple-demand d.daemon (Request.volume_create v) _
          (λ w h.
            Lives-step _ _ _ (Request.volume_create v) true [] w.events (λ _. inr (refl, refl))
              (Tracked-Pending v true w h))
          (λ w h. Lives-step _ _ _ (Request.volume_create v) false [] w.events (λ absurd. cc) h))
        λ _. Triple-pure true (λ w h. h)

  Triple-volume_found :
      (v : Str) (o : Option (Unit {0}))
      → Triple (Tracked V N C name net) (volume_found d v o) (Pending v) (Tracked V N C name net)
  unfolding volume_found
  Triple-volume_found v (some u) = Triple-pure false (Tracked-Pending v false)
  Triple-volume_found v none = Triple-create_volume v

  Triple-ensure_volume :
      (v : Str)
      → Triple (Tracked V N C name net) (ensure_volume d v) (Pending v) (Tracked V N C name net)
  unfolding ensure_volume makes_nothing
  Triple-ensure_volume v =
      Triple-bind _ _ (Keeps-send _ _ (Tracked-IsNeutral V N C name net _ refl))
        (Triple-volume_found v)

  Triple-note_volume :
      (v : Str) (b : Bool)
      → Triple
          (Pending v b)
          (note_volume v b)
          (λ _. Tracked V N C name net)
          (Tracked V N C name net)
  unfolding note_volume
  Triple-note_volume v false = record {
    at = λ w h. Lives-map w.events (known w) (λ _ k. k) (λ _ k. k) h;
  }
    where
      known :
          (w : World) (u : Str)
          → KnownVolume V N C name net w u ⊎ ((u ≡ v) × (false ≡ true))
          → KnownVolume V N C name net w u
      known w u (inl k) = k
      known w u (inr k) = cc
  Triple-note_volume v true = record {
    at = λ w h. Lives-map w.events (known w) (λ _ k. k) (λ _ k. k) h;
  }
    where
      known :
          (w : World) (u : Str)
          → KnownVolume V N C name net w u ⊎ ((u ≡ v) × (true ≡ true))
          → V u ⊎ ((u == v || any (λ x. u == x) w.created_volumes) ≡ true)
      known w u (inl (inl k)) = inl k
      known w u (inl (inr k)) = inr (grind arith)
      known w u (inr (same, made)) = inr (grind (arith, ==_iff u v))

  pub Triple-tracked_volume : (v : Str) → Keeps (Tracked V N C name net) (tracked_volume d v)
  unfolding tracked_volume
  Triple-tracked_volume v = Triple-bind _ _ (Triple-ensure_volume v) (Triple-note_volume v)

  pub Triple-persist : V (data_volume name) → Keeps (Tracked V N C name net) (persist d name)
  unfolding persist
  Triple-persist holds =
      Triple-bind _ _ (Triple-ensure_volume (data_volume name))
        λ b. Triple-pure tt λ w h. Lives-map w.events (known b w) (λ _ k. k) (λ _ k. k) h
    where
      known :
          (b : Bool) (w : World) (u : Str)
          → KnownVolume V N C name net w u ⊎ ((u ≡ data_volume name) × (b ≡ true))
          → KnownVolume V N C name net w u
      known b w u (inl k) = k
      known b w u (inr (same, made)) = inl (subst V (sym same) holds)
