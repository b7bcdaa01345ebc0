-- ===== src/Tests/Backends.antt =====
-- Configurations of the backends: a podman configuration, the native request of the sandbox `dev`, and
-- a driver_config with one volume.
use whaleshell_driver.Base.{Str, codes, lower, ◌≡◌, refl, true, List, [], ◌∷◌, none, some, ok, pos}
use whaleshell_driver.Config.{
  Value, Machine, check_tls_paths, validate_guest_tls_paths, validate_egress_ca_bundle,
  validate_proxy_config, normalize_image_pull_policy,
}
use whaleshell_driver.Docker.Create.Container.{Plan, create_options, sandbox_binds, port_bindings}
use whaleshell_driver.Gpu.{device_requests_for_gpu}
use whaleshell_driver.Json.{Json, string, array, object, cons, nil, member, end}
use whaleshell_driver.Podman.Config.{
  Config, initial, check_files, validate_registry_auth_file, config_from_map,
}
use whaleshell_driver.Podman.Container.Build.{build_native_spec}
use whaleshell_driver.Podman.Create.{native_create}
use whaleshell_driver.Podman.Service.{
  Service, Call, connection, native_endpoint, native_http_client,
}
use whaleshell_driver.Podman.New.{checked}
use whaleshell_driver.Podman.New.Accepted.{config_from_map-checked}
use whaleshell_driver.Podman.Userns.{IdMapping, canonical_userns_mode}
use whaleshell_driver.Tests.Samples.{sample_host, sample_driver, sample_spec}

abbrev machine : Machine
machine = record {
  host = sample_host;
  parse_url = λ s. none;
  is_ip = λ s. true;
  has_certificates = λ s. true;
  is_bundle = λ s. true;
  overflowed = pos 0;
}

abbrev settings : List (Str × Value)
settings =
    (codes "userns", Value.text (codes "Private"))
    ∷ (codes "uidmap", Value.text_list (codes "0:100000:65536" ∷ []))
    ∷ (codes "gidmap", Value.any_list (some (codes "0:100000:65536") ∷ []))
    ∷ (codes "gateway_port", Value.int_value (pos 8080))
    ∷ []

abbrev mapping : IdMapping
mapping = record { container_id = 0; host_id = 100000; size = 65536 }

abbrev private_config : Config
private_config = record initial {
  userns_mode = codes "private";
  uid_map = mapping ∷ [];
  gid_map = mapping ∷ [];
  gateway_grpc_port = pos 8080;
}

reads : config_from_map machine settings ≡ ok private_config
unfolding config_from_map check_files canonical_userns_mode normalize_image_pull_policy
    validate_guest_tls_paths check_tls_paths validate_registry_auth_file validate_egress_ca_bundle
    validate_proxy_config
reads = refl

config_from_map-checked_example : checked machine private_config ≡ ok private_config
config_from_map-checked_example = config_from_map-checked machine settings reads refl refl

abbrev plan : Plan
plan = record {
  name = codes "dev";
  net = codes "net";
  image = codes "debian";
  image_id = codes "sha256:1";
  image_user = codes "agent";
  workspace = codes "/srv/work";
  proxy_image = codes "debian";
  tcp_dial_socket = [];
}

abbrev socket : Str
socket = codes "unix:///run/podman.sock"

-- A service that accepts every container.
abbrev service : Service
service = record {
  host = sample_host;
  parse_url =
      λ s. some (record { scheme = codes "unix"; host = []; path = codes "/run/podman.sock" });
  parse6 = λ s. none;
  digest = λ s. (16, 0);
  has_key_pair = λ a b. true;
  has_certificates = λ s. true;
  networks = λ calls. none;
  created = λ calls r. none;
  details = λ calls name. none;
  containers =
      λ calls s. some (record { code = 201; complaint = none; ids = some ([], codes "c0ffee") });
}

-- The calls after the creation of the sandbox.
created :
    (after : List Call) × (native_create service socket
        (codes "private")
        (mapping ∷ [])
        (mapping ∷ [])
        (create_options (sample_driver true) sample_spec [] [] plan)
        []
      ≡ (ok (codes "c0ffee"), after))
unfolding native_create build_native_spec create_options sandbox_binds device_requests_for_gpu
    port_bindings lower connection native_endpoint native_http_client
created = (_, refl)

-- `{"mounts": [{"type": "volume", "source": "cache", "target": "/data/cache"}]}`
abbrev volume_config : Json
volume_config = object (
    member (codes "mounts")
      (array (
        cons
          (object (
            member (codes "type") (string (codes "volume")) (
              member (codes "source") (string (codes "cache"))
                (member (codes "target") (string (codes "/data/cache")) end))))
          nil))
      end)
