-- ===== src/Podman/Credentials/Origin.antt =====
-- Which credential internal/podman/registry_auth.go returns for an image.
use whaleshell_driver.Base.{Str, List, [], ◌≡◌, Option, some, Exists}
use whaleshell_driver.Podman.Credentials.{
  Libraries, Credential, AuthConfig, auth_config, normalize_auth_registry, docker_auth_key,
  with_decoded,
}

-- An entry of a credential file that was stored for the registry, and what it encodes to.
abbrev pub IsEntry : Libraries → Str → Str → Str × Credential → Type 0
IsEntry lib registry s (key, c) =
    (normalize_auth_registry lib key ≡ registry)
    × ((c' : Credential) × (with_decoded lib c ≡ some c')
        × (lib.encode (auth_config registry c') ≡ some s))

-- What is sent for the answer c of the Docker CLI: all that it says, for the registry's server.
abbrev pub answered_with : Str → Credential → AuthConfig
answered_with registry c = record {
  username = c.username;
  password = c.password;
  auth = c.auth;
  identity_token = c.identity_token;
  registry_token = c.registry_token;
  server_address = docker_auth_key registry;
}

-- Where a credential for a registry comes from.
pub data Origin (lib : Libraries) (registry s : Str) : Type 0 where
  no_credential : s ≡ [] → Origin lib registry s
  in_file :
      (path body : Str) (auths : List (Str × Credential))
      → lib.machine.host.read_file path ≡ some body
      → lib.auths_of body ≡ some auths
      → Exists (IsEntry lib registry s) auths
      → Origin lib registry s
  in_docker_config :
      (get : Str → Option Credential) (c : Credential)
      → lib.docker_config ≡ some get
      → get (docker_auth_key registry) ≡ some c
      → lib.encode (answered_with registry c) ≡ some s
      → Origin lib registry s
