-- ===== src/Docker/Create/Container/Settings.antt =====
-- What the container request of `Create` in internal/docker/docker.go depends on.
use whaleshell_driver.Base.{
  Str, codes, ◌==◌, trim_space, lower, is_nil, Bool, not, ◌&&◌, if◌then◌else◌, ℤ, pos, ltb_ℤ,
}
use whaleshell_driver.Runtime.{Driver}
use whaleshell_driver.Spec.{Spec}

-- The local variables of `Create` that the request depends on.
pub record Plan : Type 0 where
  pub name : Str
  pub net : Str
  pub image : Str
  pub image_id : Str
  pub image_user : Str
  pub workspace : Str
  pub proxy_image : Str
  pub tcp_dial_socket : Str

abbrev pub is_set : Str → Bool
is_set s = not (is_nil (trim_space s))

abbrev pub hardened : Spec → Bool
hardened spec = not spec.no_harden && is_set spec.init_bin

abbrev pub displays : Spec → Bool
displays spec = lower (trim_space spec.display_mode) == codes "novnc"

abbrev pub effective_port : Driver → Spec → ℤ
effective_port d spec =
    if ltb_ℤ (pos 0) spec.proxy_port then spec.proxy_port else pos d.defaults.proxy_port

abbrev pub display_port : Driver → Spec → ℤ
display_port d spec =
    if ltb_ℤ (pos 0) spec.display_port then spec.display_port else pos d.defaults.no_vnc_port
