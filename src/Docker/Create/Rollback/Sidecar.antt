-- ===== src/Docker/Create/Rollback/Sidecar.antt =====
-- The egress sidecar of `Create` under its invariant.
use whaleshell_driver.Base.{
  ℕ, Str, ==_iff, Bool, true, false, not, List, [], ◌≡◌, refl, ap, ◌⊎◌, inl, inr, Option, none,
  some, Result, ok, err, arith,
}
use whaleshell_driver.Docker.Create.{proxy_args, start_proxy, mark_proxy}
use whaleshell_driver.Docker.Create.Naming.{proxy_name, ca_volume, ssh_volume}
use whaleshell_driver.Docker.Create.Rollback.Invariant.{
  Tracked, KnownVolume, KnownNetwork, KnownContainer,
}
use whaleshell_driver.Docker.Create.Rollback.Volumes.{Triple-tracked_volume}
use whaleshell_driver.Docker.Keeping.{Keeps-wait_proxy_ca, Keeps-wait_proxy_listening}
use whaleshell_driver.Docker.Proxy.{
  is_cancelled, ProxyArgs, sidecar_options, after_failure, removing, launch_sidecar, with_port,
  create_proxy_sidecar,
}
use whaleshell_driver.Docker.Proxy.Within.{Triple-send_within}
use whaleshell_driver.Engine.{Request, World, M, log}
use whaleshell_driver.Engine.Keeps.{
  Post, Triple, Keeps, IsNeutral, Triple-bind, Triple-fail, Triple-make, Triple-weaken, Keeps-bind,
  Keeps-if, Keeps-pure, Keeps-lift, Keeps-demand,
}
use whaleshell_driver.Engine.Resources.{
  Lives, Lives-step, Lives-map, Lives-container_remove, answers_to, makes_nothing, Lives-neutral,
}
use whaleshell_driver.Errors.{Error}
use whaleshell_driver.Runtime.{Driver}
use whaleshell_driver.Spec.{Spec}

module _ {P E : World → Type 0} where
  Triple-removing :
      (d : Driver) (id : Str) (m : M (Unit {0}))
      → Keeps P m
      → ((accepted : Bool) (w : World) → P w → E (log (Request.container_remove id) accepted [] w))
      → Triple P (removing d id m) (λ _. P) E
  unfolding removing after_failure
  Triple-removing d id m k f = record { at = λ w h. settled (m w) (k.at w h) }
    where
      settled :
          (r : Result Error (Unit {0}) × World)
          → Post (λ _. P) P r
          → Post (λ _. P) E (after_failure d id r)
      settled (ok u, w) h = h
      settled (err e, w) h =
          (Triple-bind _ _ (Triple-send_within d (is_cancelled e) (Request.container_remove id) f)
              λ _. Triple-fail {A = Unit {0}} {Q = λ _. P} e λ w h. h).at
            w h

module _ (V N : Str → Type 0) (C : Str × Str → Type 0) (net : Str) (d : Driver)
    (a : ProxyArgs) where
  -- The sidecar's container lives, and no flag says so yet.
  abbrev Starting : Str → World → Type 0
  Starting id w =
      Lives (KnownVolume V N C a.name net w) (KnownNetwork V N C a.name net w)
        (λ c. KnownContainer V N C a.name net w c ⊎ (c ≡ (id, proxy_name a.name))) w.events

  Starting-IsNeutral :
      (id : Str) (req : Request) → makes_nothing req ≡ true → IsNeutral (Starting id) req
  Starting-IsNeutral id req n accepted made w h = Lives-neutral req accepted made w.events n h

  Keeps-launch_sidecar : (id : Str) → Keeps (Starting id) (launch_sidecar d a id)
  unfolding launch_sidecar makes_nothing
  Keeps-launch_sidecar id = Keeps-bind _ _ (Keeps-demand _ _ _ (Starting-IsNeutral id _ refl)) λ _.
      Keeps-bind _ _ (Keeps-demand _ _ _ (Starting-IsNeutral id _ refl)) λ _.
        Keeps-bind _ _
          (Keeps-if _ _ _ (Keeps-pure tt) (Keeps-wait_proxy_ca (Starting-IsNeutral id) d id))
          λ _. Keeps-wait_proxy_listening (Starting-IsNeutral id) d id a.port

  Starting-removed :
      (id : Str) (accepted : Bool) (w : World)
      → Starting id w
      → Tracked V N C a.name net (log (Request.container_remove id) accepted [] w)
  Starting-removed id accepted w h = Lives-container_remove id accepted [] w.events rest h
    where
      rest :
          (c : Str × Str)
          → KnownContainer V N C a.name net w c ⊎ (c ≡ (id, proxy_name a.name))
          → not (answers_to id c) ≡ true
          → KnownContainer V N C a.name net w c
      rest (i, n) (inl k) left = k
      rest (i, n) (inr same) left =
          let same_id : i ≡ id = ap (λ c. c.0) same in grind (arith, ==_iff i id)

  -- A sidecar lives that the flag does not know.
  abbrev Unmarked : World → Type 0
  Unmarked w =
      Lives (KnownVolume V N C a.name net w) (KnownNetwork V N C a.name net w)
        (λ c. KnownContainer V N C a.name net w c ⊎ (c.1 ≡ proxy_name a.name)) w.events

  made :
      (port : ℕ) (binds : List Str) (socket_path id : Str) (w : World)
      → Tracked V N C a.name net w
      → Starting id
          (log (Request.container_create (sidecar_options d a port binds socket_path)) true id w)
  unfolding sidecar_options
  made port binds socket_path id w h =
      Lives-step _ _ _ (Request.container_create (sidecar_options d a port binds socket_path)) true
        id w.events (λ _. inr refl) (Lives-map w.events (λ _ k. k) (λ _ k. k) (λ _. inl) h)

  refused :
      (req : Request) (w : World)
      → Tracked V N C a.name net w
      → Tracked V N C a.name net (log req false [] w)
  refused req w h = Lives-step _ _ _ req false [] w.events (λ absurd. cc) h

  Triple-with_port :
      (o : Option ℕ)
      → Triple
          (Tracked V N C a.name net)
          (with_port d a o)
          (λ _. Unmarked)
          (Tracked V N C a.name net)
  unfolding with_port
  Triple-with_port none = Triple-fail _ λ w h. h
  Triple-with_port (some port) = Triple-bind _ _ (Keeps-lift _) λ binds.
      Triple-bind _ _ (Keeps-lift _) λ socket_path.
        Triple-bind _ _
          (Triple-make _ (Request.container_create (sidecar_options d a port binds socket_path)) _
            (made port binds socket_path) (refused _))
          λ id.
            Triple-weaken _ (λ w h. h)
              (λ _ w h. Lives-map w.events (λ _ k. k) (λ _ k. k) (known id w) h) (λ w h. h)
              (Triple-removing d id _ (Keeps-launch_sidecar id) (Starting-removed id))
    where
      known :
          (id : Str) (w : World) (c : Str × Str)
          → KnownContainer V N C a.name net w c ⊎ (c ≡ (id, proxy_name a.name))
          → KnownContainer V N C a.name net w c ⊎ (c.1 ≡ proxy_name a.name)
      known id w c (inl k) = inl k
      known id w c (inr same) = inr (ap (λ x. x.1) same)

  Triple-create_proxy_sidecar :
      Triple
        (Tracked V N C a.name net)
        (create_proxy_sidecar d a)
        (λ _. Unmarked)
        (Tracked V N C a.name net)
  unfolding create_proxy_sidecar
  Triple-create_proxy_sidecar = Triple-with_port _

  Triple-mark_proxy :
      Triple Unmarked mark_proxy (λ _. Tracked V N C a.name net) (Tracked V N C a.name net)
  unfolding mark_proxy
  Triple-mark_proxy = record { at = λ w h. Lives-map w.events (λ _ k. k) (λ _ k. k) (known w) h }
    where
      known :
          (w : World) (c : Str × Str)
          → KnownContainer V N C a.name net w c ⊎ (c.1 ≡ proxy_name a.name)
          → C c ⊎ ((c.1 ≡ proxy_name a.name) × (true ≡ true))
      known w c (inl (inl k)) = inl k
      known w c (inl (inr k)) = inr (k.0, refl)
      known w c (inr k) = inr (k, refl)

module _ (V N : Str → Type 0) (C : Str × Str → Type 0) (d : Driver) where
  pub Triple-start_proxy :
      (spec : Spec) (name net proxy_img : Str)
      → Keeps (Tracked V N C name net) (start_proxy d spec name net proxy_img)
  unfolding start_proxy proxy_args
  Triple-start_proxy spec name net proxy_img =
      Keeps-bind _ _ (Triple-tracked_volume V N C name net d (ca_volume name)) λ _.
        Keeps-bind _ _
          (Keeps-if _ _ _ (Triple-tracked_volume V N C name net d (ssh_volume name))
            (Keeps-pure tt))
          λ _.
            Triple-bind _ _
              (Triple-create_proxy_sidecar V N C net d (proxy_args d spec name net proxy_img))
              λ _. Triple-mark_proxy V N C net d (proxy_args d spec name net proxy_img)
