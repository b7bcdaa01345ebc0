-- ===== src/Podman/Service.antt =====
-- What internal/podman takes from the process and the podman service: the endpoint and the client
-- of internal/podman/libpod_create.go, and a monad of calls over HTTP whose answers are a parameter.
use whaleshell_driver.Base.{
  ℕ, Str, codes, ◌==◌, trim_space, is_nil, leb, ltb, Bool, false, ◌&&◌, ◌||◌, List, [], ◌∷◌,
  if◌then◌else◌, Option, none, some, Result, ok, err,
}
use whaleshell_driver.Podman.Container.{NativeSpec, SpecError}
use whaleshell_driver.Defaults.{Host}
use whaleshell_driver.GoPath.{join}

pub record Subnet : Type 0 where
  pub subnet : Str
  pub gateway : Str

pub record Route : Type 0 where
  pub destination : Str
  pub gateway : Str
  pub route_type : Str

-- nativeNetworkSpec
pub record NetworkRequest : Type 0 where
  pub name : Str
  pub driver : Str
  pub internal : Bool
  pub dns_enabled : Bool
  pub labels : List (Str × Str)
  pub subnets : List Subnet
  pub routes : List Route

-- nativeNetworkSummary, without the name, which nothing reads
pub record NetworkSummary : Type 0 where
  pub subnets : List Subnet

-- nativeNetworkDetails, without the name
pub record NetworkDetails : Type 0 where
  pub internal : Bool
  pub subnets : List Subnet
  pub routes : List Route

pub data Failure : Type 0 where
  bad_endpoint : Failure
  bad_scheme : Str → Failure
  tls_certificate tls_ca_unreadable tls_ca_empty : Failure
  unreachable undecodable : Failure
  refused : ℕ → Str → Failure
  no_subnet blackhole_unsupported retries_exhausted : Failure
  not_internal no_subnets bad_gateway : Failure
  -- with the text of the gateway
  no_blackhole : Str → Failure
  bad_spec : SpecError → Failure
  no_container_id : Failure

-- url.URL
pub record Url : Type 0 where
  pub scheme : Str
  pub host : Str
  pub path : Str

-- A response over HTTP: its status, and the body as decoded, `none` where that fails.
pub record Reply (A : Type 0) : Type 0 where
  pub code : ℕ
  pub body : Option A

-- The error body of Libpod; both texts are empty where it does not decode.
pub record Complaint : Type 0 where
  pub message : Str
  pub cause : Str

pub data Call : Type 0 where
  list_networks : Call
  create_network : NetworkRequest → Call
  inspect_network : Str → Call
  create_container : NativeSpec → Call

-- The answer to the creation of a container: its body as a complaint, and as the values of `Id` and `id`.
pub record CreateReply : Type 0 where
  pub code : ℕ
  pub complaint : Option Complaint
  pub ids : Option (Str × Str)

-- The process, the standard library's parsers that stay parameters, and the service, whose answer
-- may depend on all calls before it, newest first; no answer is a failure of the transport.
pub record Service : Type 0 where
  pub host : Host
  pub parse_url : Str → Option Url
  -- an address of version 6: its value and zone
  pub parse6 : Str → Option (ℕ × Str)
  -- the first two bytes of the SHA-256 sum
  pub digest : Str → ℕ × ℕ
  -- tls.LoadX509KeyPair succeeds
  pub has_key_pair : Str → Str → Bool
  -- AppendCertsFromPEM finds a certificate
  pub has_certificates : Str → Bool
  pub networks : List Call → Option (Reply (List NetworkSummary))
  pub created : List Call → NetworkRequest → Option (Reply Complaint)
  pub details : List Call → Str → Option (Reply NetworkDetails)
  pub containers : List Call → NativeSpec → Option CreateReply

abbrev pub M : Type 0 → Type 0
M A = List Call → Result Failure A × List Call

module _ {A : Type 0} where
  unfoldable pub pure : A → M A
  pure a calls = (ok a, calls)

  unfoldable pub fail : Failure → M A
  fail why calls = (err why, calls)

  unfoldable pub lift : Result Failure A → M A
  lift r calls = (r, calls)

  abbrev pub received : Option A → Result Failure A
  received none = err Failure.unreachable
  received (some a) = ok a

  -- `httpClient.Do`
  unfoldable pub perform : Call → (List Call → Option A) → M A
  perform call answer calls = (received (answer calls), call ∷ calls)

  abbrev pub decoded : Option A → Result Failure A
  decoded none = err Failure.undecodable
  decoded (some a) = ok a

module _ {A B : Type 0} where
  abbrev pub continue : Result Failure A → (A → M B) → M B
  continue (ok a) next calls = next a calls
  continue (err why) next calls = (err why, calls)

  infixl 5 ◌>>=◌ ◌>>◌
  unfoldable pub ◌>>=◌ : M A → (A → M B) → M B
  ◌>>=◌ m next calls = let (r, calls') = m calls in continue r next calls'

  abbrev pub ◌>>◌ : M A → M B → M B
  m >> rest = m >>= λ _. rest

abbrev pub is_success : ℕ → Bool
is_success code = leb 200 code && ltb code 300

-- nativeEndpoint
abbrev tcp_scheme : Str → Str
tcp_scheme cert_path = if is_nil cert_path then codes "http" else codes "https"

abbrev endpoint_of : Host → Option Url → Result Failure Url
endpoint_of host none = err Failure.bad_endpoint
endpoint_of host (some u) =
    if u.scheme == codes "unix"
    then ok (record { scheme = codes "http"; host = codes "podman"; path = [] })
    else if u.scheme == codes "tcp"
    then ok (record u { scheme = tcp_scheme (trim_space (host.getenv (codes "DOCKER_CERT_PATH"))) })
    else if u.scheme == codes "http" || u.scheme == codes "https"
    then ok u
    else err (Failure.bad_scheme u.scheme)

unfoldable pub native_endpoint : Service → Str → Result Failure Url
unfolding trim_space
native_endpoint svc host = endpoint_of svc.host (svc.parse_url host)

-- The parts of tls.Config and http.Client that the code sets.
pub record TlsConfig : Type 0 where
  pub certificate : Option (Str × Str)
  pub roots : Option Str
  pub skip_verify : Bool

pub record HttpClient : Type 0 where
  pub dial_unix : Option Str
  pub tls : Option TlsConfig

abbrev with_roots : Service → Str × Str → Option Str → Result Failure TlsConfig
with_roots svc pair none = err Failure.tls_ca_unreadable
with_roots svc pair (some pem) =
    if svc.has_certificates pem
    then ok (record {
      certificate = some pair;
      roots = some pem;
      skip_verify = is_nil (svc.host.getenv (codes "DOCKER_TLS_VERIFY"));
    })
    else err Failure.tls_ca_empty

-- nativeTLSConfigFromEnv
unfoldable pub native_tls_config : Service → Result Failure TlsConfig
unfolding trim_space join
native_tls_config svc =
    let dir = trim_space (svc.host.getenv (codes "DOCKER_CERT_PATH")) in
    let cert = join (dir ∷ codes "cert.pem" ∷ []) in
    let key = join (dir ∷ codes "key.pem" ∷ []) in
    if is_nil dir
    then ok (record { certificate = none; roots = none; skip_verify = false })
    else if svc.has_key_pair cert key
    then with_roots svc (cert, key) (svc.host.read_file (join (dir ∷ codes "ca.pem" ∷ [])))
    else err Failure.tls_certificate

abbrev socket_of : Option Url → Str
socket_of none = []
socket_of (some u) = u.path

abbrev secured : Option Str → Result Failure TlsConfig → Result Failure HttpClient
secured dial (err why) = err why
secured dial (ok tls) = ok (record { dial_unix = dial; tls = some tls })

-- nativeHTTPClient
unfoldable pub native_http_client : Service → Str → Url → Result Failure HttpClient
unfolding native_tls_config
native_http_client svc host endpoint =
    let dial =
      if endpoint.host == codes "podman" then some (socket_of (svc.parse_url host)) else none in
    if endpoint.scheme == codes "https"
    then secured dial (native_tls_config svc)
    else ok (record { dial_unix = dial; tls = none })

-- The endpoint, then the client: what each call needs first.
abbrev client_for : Service → Str → Result Failure Url → Result Failure HttpClient
client_for svc host (err why) = err why
client_for svc host (ok u) = native_http_client svc host u

unfoldable pub connection : Service → Str → Result Failure HttpClient
unfolding native_endpoint native_http_client
connection svc host = client_for svc host (native_endpoint svc host)

unfoldable pub connect : Service → Str → M HttpClient
unfolding connection lift
connect svc host = lift (connection svc host)
