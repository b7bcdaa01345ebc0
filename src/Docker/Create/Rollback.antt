-- ===== src/Docker/Create/Rollback.antt =====
-- What a `Create` of internal/docker/docker.go leaves on the daemon, failed or not.
pub mod Invariant
mod Networks
mod Volumes
mod Sidecar
mod CleanUp
use whaleshell_driver.Base.{
  Str, ◌==◌, Bool, true, false, not, ◌&&◌, ◌||◌, List, [], ◌∷◌, ◌≡◌, refl, ap, subst, Bool-cases,
  ◌⊎◌, inl, inr, Option, none, some, Result, ok, err, if◌then◌else◌, trim_space, is_nil,
}
use whaleshell_driver.Docker.Create.{
  SandboxConfig, gpu_checked, with_cdi_devices, refuse_existing, choose_image, workspace_of,
  check_supervisor, check_ssh, checked, inspect_pulled, prepare_proxy_image, create_container,
  create_error, provision, named, create,
}
use whaleshell_driver.Docker.Create.Container.{Plan, create_options}
use whaleshell_driver.Docker.Create.Naming.{container_name, data_volume, network_name}
use whaleshell_driver.Docker.Create.Native.{Triple-native_container}
use whaleshell_driver.Engine.Leftovers.{Leaves, Lives-Leaves}
use whaleshell_driver.Docker.Keeping.{Keeps-ensure_image, Keeps-default_sandbox_image}
use whaleshell_driver.Engine.{Request, CreateOptions, World, M, log, pure, lift, ◌>>=◌, ◌>>◌}
use whaleshell_driver.Engine.Keeps.{
  Post, Triple, Keeps, IsNeutral, Triple-bind, Triple-pure, Triple-make, Triple-weaken, Triple-then,
  Keeps-bind, Keeps-if, Keeps-pure, Keeps-lift, Keeps-lift_as, Keeps-require, Keeps-call,
}
use whaleshell_driver.Engine.Resources.{Lives, Lives-step, Lives-map, Lives-neutral, makes_nothing}
use whaleshell_driver.Errors.{Error}
use whaleshell_driver.Name.{sanitize_name}
use whaleshell_driver.Runtime.{Driver}
use whaleshell_driver.Spec.{Spec, Handle}
use Invariant.{Clean, Tracked, Clean-IsNeutral, KnownVolume, KnownNetwork, KnownContainer}
use Networks.{Triple-ensure_network}
use Volumes.{Triple-persist}
use Sidecar.{Triple-start_proxy}
use CleanUp.{Triple-with_clean_up}

module _ (V N : Str → Type 0) (C : Str × Str → Type 0) where
  -- Besides what was there, only what the flags name and the sandbox's own container.
  abbrev pub Provisioned : Str → Str → Handle → World → Type 0
  Provisioned name net h w =
      Lives (KnownVolume V N C name net w) (KnownNetwork V N C name net w)
        (λ c. KnownContainer V N C name net w c ⊎ (c ≡ (h.id, container_name name))) w.events

module _ (V N : Str → Type 0) (C : Str × Str → Type 0) (name net : Str) where
  made :
      (options : CreateOptions) (h : Handle) (w : World)
      → options.name ≡ container_name name
      → Tracked V N C name net w
      → Provisioned V N C name net h (log (Request.container_create options) true h.id w)
  made options h w same lives =
      Lives-step _ _ _ (Request.container_create options) true h.id w.events
        (λ _. inr (ap (λ n. (h.id, n)) same))
        (Lives-map w.events (λ _ k. k) (λ _ k. k) (λ _. inl) lives)

  made_natively :
      (options : CreateOptions) (h : Handle) (w : World)
      → options.name ≡ container_name name
      → Tracked V N C name net w
      → Provisioned V N C name net h (log (Request.native_container_create options) true h.id w)
  made_natively options h w same lives =
      Lives-step _ _ _ (Request.native_container_create options) true h.id w.events
        (λ _. inr (ap (λ n. (h.id, n)) same))
        (Lives-map w.events (λ _ k. k) (λ _ k. k) (λ _. inl) lives)

  refused :
      (req : Request) (w : World)
      → Tracked V N C name net w
      → Tracked V N C name net (log req false [] w)
  refused req w h = Lives-step _ _ _ req false [] w.events (λ absurd. cc) h

-- The container of a sandbox where the driver creates it natively.
abbrev pub IsNative : Driver → Str → Str × Str → Type 0
IsNative d name c = (d.runtime_config.native_container_create ≡ true) × (c.1 ≡ container_name name)

-- C' is C, and what a native creation can make though it fails.
module _ (V N : Str → Type 0) (C C' : Str × Str → Type 0) (d : Driver)
    (wider : (c : Str × Str) → C c → C' c) where
  Tracked-wider :
      (name net : Str) (w : World) → Tracked V N C name net w → Tracked V N C' name net w
  Tracked-wider name net w h = Lives-map w.events (λ _ k. k) (λ _ k. k) known h
    where
      known :
          (c : Str × Str) → KnownContainer V N C name net w c → KnownContainer V N C' name net w c
      known c (inl k) = inl (wider c k)
      known c (inr k) = inr k

  Clean-wider : (w : World) → Clean V N C w → Clean V N C' w
  Clean-wider w h = Lives-map w.events (λ _ k. k) (λ _ k. k) wider h

  lost :
      (options : CreateOptions) (name net id : Str) (w : World)
      → C' (id, options.name)
      → Tracked V N C name net w
      → Tracked V N C' name net (log (Request.native_container_create options) true id w)
  lost options name net id w allowed h =
      Lives-step _ _ _ (Request.native_container_create options) true id w.events (λ _. inl allowed)
        (Tracked-wider name net w h)

  Triple-create_container :
      (options : CreateOptions) (e : Error) (name net img : Str)
      → options.name ≡ container_name name
      → ((c : Str × Str) → IsNative d name c → C' c)
      → Triple
          (Tracked V N C name net)
          (create_container d options e)
          (λ id.
            Provisioned V N C name net
              (record { id = id; name = name; network = net; image = img }))
          (Tracked V N C' name net)
  unfolding create_container
  Triple-create_container options e name net img same allowed =
      elim (Bool-cases d.runtime_config.native_container_create) [
        | inl native ↦ rw native (
            Triple-native_container d options e
              (λ id w h. made_natively V N C name net options (handle id) w same h)
              (λ id w h. lost options name net id w (allowed (id, options.name) (native, same)) h)
              (λ w h. Tracked-wider name net _ (refused V N C name net _ w h)))
        | inr plain ↦ rw plain (
            Triple-make {Q = λ id. Provisioned V N C name net (handle id)} _ _ _
              (λ id w h. made V N C name net options (handle id) w same h)
              (λ w h. Tracked-wider name net _ (refused V N C name net _ w h)))
      ]
    where
      handle : Str → Handle
      handle id = record { id = id; name = name; network = net; image = img }

  Triple-provision :
      (spec : Spec) (config : SandboxConfig) (plan : Plan)
      → V (data_volume plan.name)
      → ((c : Str × Str) → IsNative d plan.name c → C' c)
      → Triple
          (Tracked V N C plan.name plan.net)
          (provision d spec config plan)
          (Provisioned V N C plan.name plan.net)
          (Tracked V N C' plan.name plan.net)
  unfolding provision create_options
  Triple-provision spec config plan keeps_data allowed =
      Triple-then _ _ sub
        (Keeps-if _ _ _ (Triple-start_proxy V N C d spec plan.name plan.net plan.proxy_image)
          (Keeps-pure tt))
        λ _.
          Triple-then _ _ sub
            (Keeps-if _ _ _ (Triple-persist V N C plan.name plan.net d keeps_data) (Keeps-pure tt))
            λ _. Triple-then _ _ sub (Keeps-require _ _) λ _.
              Triple-then _ _ sub (Keeps-require _ _) λ _.
                Triple-bind _ _
                  (Triple-create_container (create_options d spec config.mounts config.binds plan) _
                    plan.name plan.net plan.image refl allowed)
                  λ id. Triple-pure _ λ w h. h
    where
      sub : (w : World) → Tracked V N C plan.name plan.net w → Tracked V N C' plan.name plan.net w
      sub = Tracked-wider plan.name plan.net

module _ (V N : Str → Type 0) (C : Str × Str → Type 0) (d : Driver) where
  neutral : (req : Request) → makes_nothing req ≡ true → IsNeutral (Clean V N C) req
  neutral = Clean-IsNeutral V N C

  Keeps-refuse_existing : (name : Str) → Keeps (Clean V N C) (refuse_existing d name)
  unfolding refuse_existing makes_nothing
  Keeps-refuse_existing name =
      Keeps-bind _ _ (Keeps-call _ _ _ (neutral _ refl)) λ existing. Keeps-require _ _

  Keeps-choose_image : (spec : Spec) → Keeps (Clean V N C) (choose_image d spec)
  unfolding choose_image
  Keeps-choose_image spec =
      Keeps-if _ _ _ (Keeps-default_sandbox_image neutral d spec.display_mode spec.gpu)
        (Keeps-pure _)

  Keeps-checked : (spec : Spec) → Keeps (Clean V N C) (checked d spec)
  unfolding checked check_supervisor check_ssh
  Keeps-checked spec =
      Keeps-bind _ _
        (Keeps-if _ _ _ (Keeps-bind _ _ (Keeps-require _ _) λ _. Keeps-require _ _) (Keeps-pure tt))
        λ _.
          Keeps-if _ _ _
            (Keeps-bind _ _ (Keeps-require _ _)
              λ _. Keeps-bind _ _ (Keeps-require _ _) λ _. Keeps-require _ _)
            (Keeps-pure tt)

  Keeps-inspect_pulled : (img : Str) → Keeps (Clean V N C) (inspect_pulled d img)
  unfolding inspect_pulled makes_nothing
  Keeps-inspect_pulled img =
      Keeps-bind _ _ (Keeps-call _ _ _ (neutral _ refl))
        λ info. Keeps-bind _ _ (Keeps-require _ _) λ _. Keeps-pure info

  Keeps-prepare_proxy_image :
      (spec : Spec) (img : Str) → Keeps (Clean V N C) (prepare_proxy_image d spec img)
  unfolding prepare_proxy_image
  Keeps-prepare_proxy_image spec img =
      Keeps-if _ _ _
        (Keeps-if _ _ _ (Keeps-pure _)
          (Keeps-bind _ _ (Keeps-ensure_image neutral d _) λ _. Keeps-pure _))
        (Keeps-pure [])

module _ (V N : Str → Type 0) (C C' : Str × Str → Type 0) (d : Driver)
    (wider : (c : Str × Str) → C c → C' c) where
  sub : (w : World) → Clean V N C w → Clean V N C' w
  sub = Clean-wider V N C C' d wider

  Triple-named :
      (spec : Spec) (config : SandboxConfig) (name : Str)
      → V (data_volume name)
      → ((c : Str × Str) → IsNative d name c → C' c)
      → Triple
          (Clean V N C)
          (named d spec config name)
          (Provisioned V N C name (network_name d name))
          (Clean V N C')
  unfolding named workspace_of
  Triple-named spec config name keeps_data allowed = Triple-then _ _ sub (Keeps-require _ _) λ _.
      Triple-then _ _ sub (Keeps-refuse_existing V N C d name) λ _.
        Triple-then _ _ sub (Keeps-require _ _) λ _. Triple-then _ _ sub (Keeps-require _ _) λ _.
          Triple-then _ _ sub (Keeps-choose_image V N C d spec) λ img.
            Triple-then _ _ sub (Keeps-lift_as _ _) λ ws.
              Triple-then _ _ sub (Keeps-checked V N C d spec) λ _.
                Triple-then _ _ sub (Keeps-ensure_image (neutral V N C d) d img) λ _.
                  Triple-then _ _ sub (Keeps-inspect_pulled V N C d img) λ info.
                    Triple-then _ _ sub (Keeps-prepare_proxy_image V N C d spec img) λ proxy_img.
                      Triple-then _ _ sub
                        (Triple-ensure_network V N C name (network_name d name) d _)
                        λ _.
                          Triple-with_clean_up V N C' name (network_name d name) d _ _ _
                            (Triple-provision V N C C' d wider spec config _ keeps_data allowed)

  Triple-create :
      (parsed : Result Error SandboxConfig) (spec : Spec)
      → V (data_volume (sanitize_name spec.name))
      → ((c : Str × Str) → IsNative d (sanitize_name spec.name) c → C' c)
      → Triple
          (Clean V N C)
          (create d parsed spec)
          (Provisioned V N C (sanitize_name spec.name) (network_name d (sanitize_name spec.name)))
          (Clean V N C')
  unfolding create gpu_checked
  Triple-create parsed spec keeps_data allowed = Triple-then _ _ sub (Keeps-require _ _) λ _.
      Triple-then _ _ sub (Keeps-lift_as _ _) λ _.
        Triple-then _ _ sub (Keeps-lift _)
          λ config. Triple-named (with_cdi_devices spec config) config _ keeps_data allowed

-- A `Create` that fails, at whatever step and with whatever daemon, has called for the removal of every volume,
-- network and container of its own, the volume of the data aside: if all that lived before satisfied V, N and C, and the
-- name of the data volume satisfies V, then what is left afterwards satisfies them, or a removal of it
-- was called since it was made and failed, as the sidecar's does where the caller's context is over.
-- One container more can be left: the sandbox's own, where the native API creates it and fails.
pub create-rolls_back :
    (V N : Str → Type 0) (C : Str × Str → Type 0) (d : Driver) (parsed : Result Error SandboxConfig)
    (spec : Spec)
    → V (data_volume (sanitize_name spec.name))
    → (w w' : World) (e : Error) → Lives V N C w.events
    → create d parsed spec w ≡ (err e, w')
    → Leaves V N (λ c. C c ⊎ IsNative d (sanitize_name spec.name) c) w'.events
create-rolls_back V N C d parsed spec keeps_data w w' e before failed =
    let C' : Str × Str → Type 0 = λ c. C c ⊎ IsNative d (sanitize_name spec.name) c in
    Lives-Leaves V N C' w'.events (
      subst (Post (Provisioned V N C _ _) (Clean V N C')) failed
        ((Triple-create V N C C' d (λ c. inl) parsed spec keeps_data (λ c. inr)).at w before))

-- A `Create` that returns a handle adds to what satisfied V, N and C at most the volumes in
-- `createdVolumes`, the sandbox's network and sidecar where the flags say that they were made, and one
-- container with the handle's ID and the sandbox's name. The name of the data volume must satisfy V.
pub create-makes :
    (V N : Str → Type 0) (C : Str × Str → Type 0) (d : Driver) (parsed : Result Error SandboxConfig)
    (spec : Spec)
    → V (data_volume (sanitize_name spec.name))
    → (w w' : World) (h : Handle) → Lives V N C w.events
    → create d parsed spec w ≡ (ok h, w')
    → Provisioned V N C (sanitize_name spec.name) (network_name d (sanitize_name spec.name)) h w'
create-makes V N C d parsed spec keeps_data w w' h before done =
    subst (Post (Provisioned V N C _ _) (Clean V N (λ _. Unit))) done (
      (Triple-create V N C (λ _. Unit) d (λ c k. tt) parsed spec keeps_data (λ c k. tt)).at w
        before)
