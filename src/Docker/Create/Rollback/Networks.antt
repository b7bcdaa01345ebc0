-- ===== src/Docker/Create/Rollback/Networks.antt =====
-- `ensureNetwork` under the invariant of `Create`.
use whaleshell_driver.Base.{
  Str, ◌==◌, ==_iff, Bool, true, false, not, [], ◌≡◌, refl, ◌⊎◌, inl, inr, Option, none, some,
  arith,
}
use whaleshell_driver.Docker.Create.Rollback.Invariant.{
  Clean, Tracked, Clean-IsNeutral, Clean-Tracked, KnownNetwork,
}
use whaleshell_driver.Docker.Network.{
  mark_created, verify_native, accept_existing, remove_and_fail, create_native, create_engine,
  create_missing, network_found, ensure_network,
}
use whaleshell_driver.Engine.{Request, NetworkInfo, World, pure, demand}
use whaleshell_driver.Engine.Keeps.{
  Triple, Keeps, Triple-bind, Triple-if, Triple-pure, Triple-fail, Triple-send, Triple-demand,
  Keeps-bind, Keeps-if, Keeps-pure, Keeps-require, Keeps-demand, Keeps-attempt,
}
use whaleshell_driver.Engine.Resources.{
  Lives, Lives-step, Lives-map, Lives-network_remove, Allowed, makes_nothing,
}
use whaleshell_driver.Runtime.{Driver}

module _ (V N : Str → Type 0) (C : Str × Str → Type 0) (name net : Str) (d : Driver) where
  -- The network lives, and no flag says so yet.
  abbrev Fresh : World → Type 0
  Fresh w = Lives V (λ n. N n ⊎ (n ≡ net)) C w.events

  Clean-Fresh : (w : World) → Clean V N C w → Fresh w
  Clean-Fresh w h = Lives-map w.events (λ _ v. v) (λ _. inl) (λ _ c. c) h

  Triple-creates :
      (req : Request) (e : _)
      → Allowed V (λ n. N n ⊎ (n ≡ net)) C req []
      → Triple (Clean V N C) (demand d.daemon req e) (λ _. Fresh) (Clean V N C)
  Triple-creates req e made =
      Triple-demand d.daemon req e
        (λ w h. Lives-step V _ C req true [] w.events (λ _. made) (Clean-Fresh w h))
        (λ w h. Lives-step V N C req false [] w.events (λ absurd. cc) h)

  Triple-remove_and_fail :
      (o : Option (Unit {0})) → Triple Fresh (remove_and_fail d net o) (λ _. Fresh) (Clean V N C)
  unfolding remove_and_fail
  Triple-remove_and_fail (some u) = Triple-pure tt (λ w h. h)
  Triple-remove_and_fail none =
      Triple-bind _ _
        (Triple-send d.daemon (Request.network_remove net) λ accepted w h.
          Lives-network_remove net accepted [] w.events (λ n k differs. rest n k differs) h)
        λ _. Triple-fail _ (λ w h. h)
    where
      rest : (n : Str) → N n ⊎ (n ≡ net) → not (n == net) ≡ true → N n
      rest n (inl k) differs = k
      rest n (inr same) differs = grind (arith, ==_iff n net)

  Triple-create_native :
      (internal : Bool)
      → Triple (Clean V N C) (create_native d net name internal) (λ _. Fresh) (Clean V N C)
  unfolding create_native makes_nothing
  Triple-create_native internal = Triple-bind _ _ (Triple-creates _ _ (inr refl)) λ _.
      Triple-if _ _ _
        (Triple-bind _ _
          (Triple-send _ _ λ accepted w h. Lives-step V _ C _ accepted [] w.events (λ _. tt) h)
          Triple-remove_and_fail)
        (Triple-pure tt (λ w h. h))

  Triple-create_missing :
      (internal : Bool)
      → Triple (Clean V N C) (create_missing d net name internal) (λ _. Fresh) (Clean V N C)
  unfolding create_missing create_engine
  Triple-create_missing internal =
      Triple-if _ _ _ (Triple-create_native internal) (Triple-creates _ _ (inr refl))

  Keeps-accept_existing :
      (internal : Bool) (info : NetworkInfo)
      → Keeps (Clean V N C) (accept_existing d net internal info)
  unfolding accept_existing verify_native makes_nothing
  Keeps-accept_existing internal info = Keeps-bind _ _ (Keeps-require _ _) λ _.
      Keeps-bind _ _ (Keeps-require _ _)
        λ _. Keeps-if _ _ _ (Keeps-demand _ _ _ (Clean-IsNeutral V N C _ refl)) (Keeps-pure tt)

  Triple-mark_created :
      (b : Bool) (P : World → Type 0)
      → ((w : World) → P w → Tracked V N C name net (record w { network_created = b }))
      → Triple P (mark_created b) (λ _. Tracked V N C name net) (Clean V N C)
  unfolding mark_created pure
  Triple-mark_created b P f = record { at = λ w h. f w h }

  Fresh-Tracked :
      (w : World) → Fresh w → Tracked V N C name net (record w { network_created = true })
  Fresh-Tracked w h = Lives-map w.events (λ _. inl) known (λ _. inl) h
    where
      known :
          (n : Str)
          → N n ⊎ (n ≡ net)
          → KnownNetwork V N C name net (record w { network_created = true }) n
      known n (inl k) = inl k
      known n (inr same) = inr (same, refl)

  Triple-network_found :
      (internal : Bool) (o : Option NetworkInfo)
      → Triple
          (Clean V N C)
          (network_found d net name internal o)
          (λ _. Tracked V N C name net)
          (Clean V N C)
  unfolding network_found
  Triple-network_found internal (some info) =
      Triple-bind _ _ (Keeps-accept_existing internal info) λ _.
        Triple-mark_created false _
          (λ w h. Clean-Tracked V N C name net (record w { network_created = false }) h)
  Triple-network_found internal none =
      Triple-bind _ _ (Triple-create_missing internal) λ _. Triple-mark_created true _ Fresh-Tracked

  pub Triple-ensure_network :
      (internal : Bool)
      → Triple
          (Clean V N C)
          (ensure_network d net name internal)
          (λ _. Tracked V N C name net)
          (Clean V N C)
  unfolding ensure_network makes_nothing
  Triple-ensure_network internal = Triple-bind _ _ (Keeps-require _ _) λ _.
      Triple-bind _ _ (Keeps-attempt _ _ (Clean-IsNeutral V N C _ refl))
        λ found. Triple-network_found internal found
