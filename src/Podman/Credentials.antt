-- ===== src/Podman/Credentials.antt =====
-- The credentials of a registry: internal/podman/registry_auth.go, and internal/docker/registry_auth.go,
-- which it falls back to.
pub mod Origin
use mathlib.Core.List.{reverse}
use whaleshell_driver.Base.{
  ℕ, Str, codes, ◌==◌, cut, drop_prefix?, trim_space, is_nil, length, ltb, Bool, true, false, not,
  ◌&&◌, ◌||◌, List, [], ◌∷◌, ◌++◌, if◌then◌else◌, Option, none, some, Result, ok, err, ◌>>=◌, ◌^◌,
}
use whaleshell_driver.Config.{Machine, ConfigError}
use whaleshell_driver.GoPath.{join}
use whaleshell_driver.Podman.Config.{validate_registry_auth_file}

-- podmanRegistryCredential
pub record Credential : Type 0 where
  pub auth : Str
  pub username : Str
  pub password : Str
  pub identity_token : Str
  pub registry_token : Str

-- registry.AuthConfig
pub record AuthConfig : Type 0 where
  pub auth : Str
  pub username : Str
  pub password : Str
  pub server_address : Str
  pub identity_token : Str
  pub registry_token : Str

pub data CredentialError : Type 0 where
  invalid_reference unavailable unreadable invalid_file : CredentialError
  bad_config : ConfigError → CredentialError
  invalid_credentials not_encoded : Str → CredentialError
  config_unavailable : CredentialError
  helper_failed : Str → CredentialError

-- What os.Stat says of a candidate.
pub data Presence : Type 0 where
  present absent failing : Presence

-- The process, and the libraries that stay parameters.
pub record Libraries : Type 0 where
  pub machine : Machine
  -- the domain of reference.ParseNormalizedNamed
  pub domain_of : Str → Option Str
  pub presence : Str → Presence
  -- the host of url.Parse, empty where there is none or it fails
  pub url_host : Str → Str
  -- json.Unmarshal into podmanAuthFile
  pub auths_of : Str → Option (List (Str × Credential))
  pub decode_standard : Str → Option Str
  pub decode_raw : Str → Option Str
  -- authconfig.Encode
  pub encode : AuthConfig → Option Str
  -- the configuration of the Docker CLI: GetAuthConfig of a key, `none` where the file does not load
  pub docker_config : Option (Str → Option Credential)

abbrev or_rest : Str → Option Str → Str
or_rest s none = s
or_rest s (some r) = reverse r

-- strings.TrimSuffix
unfoldable pub trim_suffix : Str → Str → Str
unfolding drop_prefix?
trim_suffix s suffix = or_rest s (drop_prefix? (reverse s) (reverse suffix))

abbrev pub or_host : Str → Str → Str
or_host value host = if is_nil host then value else host

-- normalizeAuthRegistry
unfoldable pub normalize_auth_registry : Libraries → Str → Str
unfolding trim_suffix trim_space
normalize_auth_registry lib value =
    let text = trim_space value in
    let registry =
      trim_suffix (trim_suffix (or_host text (lib.url_host text)) (codes "/")) (codes "/v1") in
    if registry == codes "index.docker.io" then codes "docker.io" else registry

abbrev pub home_candidate : Option Str → List Str
home_candidate none = []
home_candidate (some home) =
    if is_nil home
    then []
    else join (home ∷ codes ".config" ∷ codes "containers" ∷ codes "auth.json" ∷ []) ∷ []

abbrev pub runtime_candidate : Str → List Str
runtime_candidate runtime_dir =
    if is_nil runtime_dir
    then []
    else join (runtime_dir ∷ codes "containers" ∷ codes "auth.json" ∷ []) ∷ []

-- The loop over the candidates; an empty path says that there is none.
unfoldable pub first_present : Libraries → List Str → Result CredentialError Str
first_present lib [] = ok []
first_present lib (c ∷ rest) =
    let later = first_present lib rest in
    elim (lib.presence c) [
      | present ↦ ok c
      | absent ↦ later
      | failing ↦ err CredentialError.unavailable
    ]

-- findPodmanAuthFile
unfoldable pub find_podman_auth_file : Libraries → Str → Result CredentialError Str
unfolding first_present trim_space join
find_podman_auth_file lib configured =
    let host = lib.machine.host in
    let env_path = trim_space (host.getenv (codes "REGISTRY_AUTH_FILE")) in
    if not (is_nil (trim_space configured))
    then ok configured
    else if not (is_nil env_path)
    then ok env_path
    else first_present lib (
        runtime_candidate (trim_space (host.getenv (codes "XDG_RUNTIME_DIR")))
        ++ home_candidate host.user_home_dir)

-- dockerAuthKey
unfoldable pub docker_auth_key : Str → Str
docker_auth_key registry =
    if registry == codes "docker.io" then codes "https://index.docker.io/v1/" else registry

abbrev pub is_blank : Credential → Bool
is_blank c =
    is_nil c.username
    && (is_nil c.password
        && (is_nil c.auth && (is_nil c.identity_token && is_nil c.registry_token)))

abbrev pub encoded : Str → Option Str → Result CredentialError Str
encoded registry none = err (CredentialError.not_encoded registry)
encoded registry (some s) = ok s

abbrev pub from_helper : Libraries → Str → Option Credential → Result CredentialError Str
from_helper lib registry none = err (CredentialError.helper_failed registry)
from_helper lib registry (some c) =
    if is_blank c
    then ok []
    else encoded registry (
        lib.encode (record {
          auth = c.auth;
          username = c.username;
          password = c.password;
          server_address = docker_auth_key registry;
          identity_token = c.identity_token;
          registry_token = c.registry_token;
        }))

abbrev pub from_docker :
    Libraries → Option Str → Option (Str → Option Credential) → Result CredentialError Str
from_docker lib none config = err CredentialError.invalid_reference
from_docker lib (some registry) none = err CredentialError.config_unavailable
from_docker lib (some registry) (some get) =
    from_helper lib registry (get (docker_auth_key registry))

-- dockerRegistryAuth
unfoldable pub docker_registry_auth : Libraries → Str → Result CredentialError Str
unfolding trim_space docker_auth_key
docker_registry_auth lib image =
    from_docker lib (lib.domain_of (trim_space image)) lib.docker_config

abbrev pub or_raw : Libraries → Str → Option Str → Option Str
or_raw lib text none = lib.decode_raw text
or_raw lib text (some s) = some s

abbrev pub split_pair : Credential → Option Str → Option Credential
split_pair c none = none
split_pair c (some pair) = elim (cut pair b':') [
  | none ↦ none
  | some (user, word) ↦ some (record c { username = user; password = word })
]

-- The user and the password that `auth` holds.
unfoldable pub with_decoded : Libraries → Credential → Option Credential
unfolding cut
with_decoded lib c =
    if is_nil c.auth then some c else split_pair c (or_raw lib c.auth (lib.decode_standard c.auth))

abbrev pub auth_config : Str → Credential → AuthConfig
auth_config registry c = record {
  auth = [];
  username = c.username;
  password = c.password;
  server_address = registry;
  identity_token = c.identity_token;
  registry_token = c.registry_token;
}

abbrev pub from_entry : Libraries → Str → Option Credential → Result CredentialError Str
from_entry lib registry none = err (CredentialError.invalid_credentials registry)
from_entry lib registry (some c) = encoded registry (lib.encode (auth_config registry c))

-- The loop over the file's entries, in the order that the iteration gives.
unfoldable pub from_entries :
    Libraries
    → Str
    → Result CredentialError Str
    → List (Str × Credential)
    → Result CredentialError Str
unfolding normalize_auth_registry with_decoded
from_entries lib registry fallback [] = fallback
from_entries lib registry fallback ((key, c) ∷ rest) =
    let later = from_entries lib registry fallback rest in
    if normalize_auth_registry lib key == registry
    then from_entry lib registry (with_decoded lib c)
    else later

abbrev pub parsed_auths :
    Option (List (Str × Credential)) → Result CredentialError (List (Str × Credential))
parsed_auths none = err CredentialError.invalid_file
parsed_auths (some auths) = ok auths

-- A file that cannot be opened and one that cannot be read to its end give one error here.
abbrev pub file_auths : Libraries → Option Str → Result CredentialError (List (Str × Credential))
file_auths lib none = err CredentialError.unreadable
file_auths lib (some data_) =
    if ltb (2 ^ 20) (length data_)
    then err CredentialError.invalid_file
    else parsed_auths (lib.auths_of data_)

abbrev pub checked_file : Result ConfigError (Unit {0}) → Result CredentialError (Unit {0})
checked_file (ok _) = ok tt
checked_file (err why) = err (CredentialError.bad_config why)

abbrev pub registry_of : Option Str → Result CredentialError Str
registry_of none = err CredentialError.invalid_reference
registry_of (some registry) = ok registry

unfoldable pub from_file : Libraries → Str → Str → Str → Result CredentialError Str
unfolding validate_registry_auth_file from_entries docker_registry_auth
from_file lib image registry path =
    if is_nil path
    then docker_registry_auth lib image
    else checked_file (validate_registry_auth_file lib.machine path) >>= λ _.
        file_auths lib (lib.machine.host.read_file path) >>= λ auths.
        from_entries lib registry (docker_registry_auth lib image) auths

-- podmanRegistryAuth
unfoldable pub podman_registry_auth : Libraries → Str → Str → Result CredentialError Str
unfolding find_podman_auth_file from_file trim_space
podman_registry_auth lib image configured =
    registry_of (lib.domain_of (trim_space image)) >>= λ registry.
    find_podman_auth_file lib configured >>= λ path. from_file lib image registry path
