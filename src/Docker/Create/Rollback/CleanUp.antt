-- ===== src/Docker/Create/Rollback/CleanUp.antt =====
-- The deferred clean-up of `Create`.
use whaleshell_driver.Base.{
  Str, ◌==◌, ==_iff, Bool, true, false, not, ◌||◌, List, [], ◌∷◌, ◌≡◌, refl, ◌⊎◌, inl, inr, any,
  Result, ok, err, arith,
}
use whaleshell_driver.Docker.Create.{when, remove_volumes, clean_up, finish, with_clean_up}
use whaleshell_driver.Docker.Create.Naming.{proxy_name}
use whaleshell_driver.Docker.Create.Rollback.Invariant.{
  Clean, Tracked, KnownVolume, KnownNetwork, KnownContainer,
}
use whaleshell_driver.Docker.Proxy.{remove_proxy_sidecar}
use whaleshell_driver.Engine.{Request, World, M, pure, send, ◌>>◌}
use whaleshell_driver.Engine.Keeps.{Post, Triple, Triple-bind, Triple-pure, Triple-send}
use whaleshell_driver.Engine.Resources.{
  Lives, Lives-map, Lives-volume_remove, Lives-network_remove, Lives-container_remove, answers_to,
}
use whaleshell_driver.Errors.{Error}
use whaleshell_driver.Runtime.{Driver}
use whaleshell_driver.Spec.{Handle}

module _ {P Q E : World → Type 0} where
  Triple-when :
      (b : Bool) (m : M (Unit {0}))
      → (b ≡ true → Triple P m (λ _. Q) E)
      → (b ≡ false → (w : World) → P w → Q w)
      → Triple P (when b m) (λ _. Q) E
  unfolding when
  Triple-when true m f g = f refl
  Triple-when false m f g = Triple-pure tt (g refl)

module _ {V N : Str → Type 0} {C : Str × Str → Type 0} {E : World → Type 0} where
  Triple-remove_volumes :
      (d : Driver) (vs : List Str)
      → Triple
          (λ w. Lives (λ v. V v ⊎ (any (λ u. v == u) vs ≡ true)) N C w.events)
          (remove_volumes d vs)
          (λ _ w. Lives V N C w.events)
          E
  unfolding remove_volumes
  Triple-remove_volumes d [] = Triple-pure tt λ w h. Lives-map w.events old (λ _ k. k) (λ _ k. k) h
    where
      old : (v : Str) → V v ⊎ (false ≡ true) → V v
      old v (inl k) = k
      old v (inr k) = cc
  Triple-remove_volumes d (v ∷ vs) =
      Triple-bind _ _
        (Triple-send d.daemon (Request.volume_remove v)
          λ accepted w h. Lives-volume_remove v accepted [] w.events left h)
        λ _. Triple-remove_volumes d vs
    where
      left :
          (u : Str)
          → V u ⊎ ((u == v || any (λ x. u == x) vs) ≡ true)
          → not (u == v) ≡ true
          → V u ⊎ (any (λ x. u == x) vs ≡ true)
      left u (inl k) differs = inl k
      left u (inr k) differs = inr (grind arith)

module _ (V N : Str → Type 0) (C : Str × Str → Type 0) (name net : Str) (d : Driver) where
  Triple-drop_proxy :
      (w : World)
      → Triple
          (λ w'.
            Lives
              (KnownVolume V N C name net w)
              (KnownNetwork V N C name net w)
              (KnownContainer V N C name net w)
              w'.events)
          (when w.proxy_created (remove_proxy_sidecar d name >> pure tt))
          (λ _ w'. Lives (KnownVolume V N C name net w) (KnownNetwork V N C name net w) C w'.events)
          (Clean V N C)
  unfolding remove_proxy_sidecar
  Triple-drop_proxy w =
      Triple-when w.proxy_created _
        (λ _.
          Triple-bind _ _
            (Triple-send d.daemon (Request.container_remove (proxy_name name)) λ accepted w' h.
              Lives-container_remove (proxy_name name) accepted [] w'.events left h)
            λ _. Triple-pure tt λ w' h. h)
        (λ unset w' h. Lives-map w'.events (λ _ k. k) (λ _ k. k) (old unset) h)
    where
      left :
          (c : Str × Str)
          → KnownContainer V N C name net w c
          → not (answers_to (proxy_name name) c) ≡ true
          → C c
      left (i, n) (inl k) differs = k
      left (i, n) (inr (same, flag)) differs = grind (arith, ==_iff n (proxy_name name))

      old : w.proxy_created ≡ false → (c : Str × Str) → KnownContainer V N C name net w c → C c
      old unset c (inl k) = k
      old unset c (inr (same, flag)) = cc

  Triple-drop_network :
      (w : World)
      → Triple
          (λ w'. Lives V (KnownNetwork V N C name net w) C w'.events)
          (when w.network_created (send d.daemon (Request.network_remove net) >> pure tt))
          (λ _. Clean V N C)
          (Clean V N C)
  Triple-drop_network w =
      Triple-when w.network_created _
        (λ _.
          Triple-bind _ _
            (Triple-send d.daemon (Request.network_remove net)
              λ accepted w' h. Lives-network_remove net accepted [] w'.events left h)
            λ _. Triple-pure tt λ w' h. h)
        (λ unset w' h. Lives-map w'.events (λ _ k. k) (old unset) (λ _ k. k) h)
    where
      left : (n : Str) → KnownNetwork V N C name net w n → not (n == net) ≡ true → N n
      left n (inl k) differs = k
      left n (inr (same, flag)) differs = grind (arith, ==_iff n net)

      old : w.network_created ≡ false → (n : Str) → KnownNetwork V N C name net w n → N n
      old unset n (inl k) = k
      old unset n (inr (same, flag)) = cc

  Post-world :
      (r : Result Error (Unit {0}) × World)
      → Post (λ _. Clean V N C) (Clean V N C) r
      → Clean V N C r.1
  Post-world (ok u, w) h = h
  Post-world (err e, w) h = h

  clean_up-Clean : (w : World) → Tracked V N C name net w → Clean V N C (clean_up d name net w).1
  unfolding clean_up
  clean_up-Clean w h = Post-world (clean_up d name net w) (
      (Triple-bind _ _ (Triple-drop_proxy w) λ _.
          Triple-bind _ _ (Triple-remove_volumes d w.created_volumes) λ _. Triple-drop_network w).at
        w h)

  pub Triple-with_clean_up :
      (body : M Handle) (P : World → Type 0) (Q : Handle → World → Type 0)
      → Triple P body Q (Tracked V N C name net)
      → Triple P (with_clean_up d name net body) Q (Clean V N C)
  unfolding with_clean_up finish
  Triple-with_clean_up body P Q t = record { at = λ w h. finished (body w) (t.at w h) }
    where
      finished :
          (r : Result Error Handle × World)
          → Post Q (Tracked V N C name net) r
          → Post Q (Clean V N C) (finish d name net r)
      finished (ok handle, w) h = h
      finished (err e, w) h = clean_up-Clean w h
