-- ===== src/Docker/Create/Native.antt =====
-- Rules for `nativeContainerCreate` in `Create` of internal/docker/docker.go, whose failure can leave a
-- container.
use whaleshell_driver.Base.{Str, true, false, [], Option, none, some}
use whaleshell_driver.Docker.Create.{native_made, create_native_container}
use whaleshell_driver.Engine.{Request, CreateOptions, World, log}
use whaleshell_driver.Engine.Keeps.{Post, Triple, Keeps, IsNeutral}
use whaleshell_driver.Errors.{Error}
use whaleshell_driver.Runtime.{Driver}

module _ {P E : World → Type 0} {Q : Str → World → Type 0} where
  pub Triple-native_container :
      (d : Driver) (options : CreateOptions) (e : Error)
      → ((id : Str) (w : World)
          → P w
          → Q id (log (Request.native_container_create options) true id w))
      → ((id : Str) (w : World) → P w → E (log (Request.native_container_create options) true id w))
      → ((w : World) → P w → E (log (Request.native_container_create options) false [] w))
      → Triple P (create_native_container d options e) Q E
  unfolding create_native_container native_made
  Triple-native_container d options e made lost refused = record {
    at = λ w h.
        answered (d.daemon.created w.events (Request.native_container_create options))
          (d.daemon.undelivered w.events options) w h;
  }
    where
      answered :
          (o l : Option Str) (w : World)
          → P w
          → Post Q E (native_made (Request.native_container_create options) e o l w)
      answered (some id) l w h = made id w h
      answered none (some id) w h = lost id w h
      answered none none w h = refused w h

module _ {P : World → Type 0} where
  pub Keeps-native_container :
      (d : Driver) (options : CreateOptions) (e : Error)
      → IsNeutral P (Request.native_container_create options)
      → Keeps P (create_native_container d options e)
  Keeps-native_container d options e n =
      Triple-native_container d options e (n true) (n true) (n false [])
