-- ===== src/Config.antt =====
-- What internal/docker/config.go and internal/podman/config.go have in common: the values of a decoded
-- configuration map, and the checks of paths, certificates and the upstream proxy.
use whaleshell_driver.Base.{
  ℕ, suc, Str, codes, ◌==◌, cut, lower, trim_space, is_nil, length, eqb, ltb, leb, ltb_ℤ, Bool,
  true, false, not, ◌&&◌, ◌||◌, List, [], ◌∷◌, if◌then◌else◌, Option, none, some, Result, ok, err,
  ◌>>=◌, ◌>>◌, reject_if, ℤ, pos, negsuc, ◌*◌, ◌-◌, ◌^◌,
}
use whaleshell_driver.Defaults.{Host, FileInfo}
use whaleshell_driver.GoPath.{is_abs, clean}

-- A value of type `any` that a decoder can put into the map. A float64 is a whole number, or not; a
-- list of any values shows which of them are texts.
pub data Value : Type 0 where
  int_value int64_value : ℤ → Value
  uint64_value : ℕ → Value
  whole_float : ℤ → Value
  broken_float : Value
  text : Str → Value
  flag : Bool → Value
  text_list : List Str → Value
  any_list : List (Option Str) → Value
  other_value : Value

pub record ProxyUrl : Type 0 where
  pub scheme : Str
  pub hostname : Str
  pub port : Str
  pub has_user : Bool

-- The process: its files, and the parsers of Go's library that stay parameters.
pub record Machine : Type 0 where
  pub host : Host
  pub parse_url : Str → Option ProxyUrl
  pub is_ip : Str → Bool
  -- AppendCertsFromPEM finds a certificate
  pub has_certificates : Str → Bool
  -- certbundle.AppendPEM succeeds
  pub is_bundle : Str → Bool
  -- int64 of the float 2^63, which Go leaves to the processor
  pub overflowed : ℤ

pub data ConfigError : Type 0 where
  unsupported_field invalid_field : Str → ConfigError
  host_gateway_ip sandbox_namespace : ConfigError
  guest_tls_path guest_tls_partial : ConfigError
  registry_auth_file egress_path egress_file egress_invalid : ConfigError
  proxy_url no_proxy_alone auth_path auth_alone auth_insecure auth_file auth_content : ConfigError
  insecure_alone connect_alone bundle_path bundle_alone bundle_file bundle_empty : ConfigError
  out_of_range pull_policy : ConfigError
  userns : ConfigError
  private_without_maps maps_without_private : ConfigError
  socket_path socket_unavailable ssh_socket_path negative : ConfigError

-- configString and stringValue
unfoldable pub string_value : Value → Option Str
unfolding trim_space
string_value (text s) = some (trim_space s)
string_value _ = none

abbrev if_filled : Option Str → Option Str
if_filled none = none
if_filled (some s) = if is_nil s then none else some s

-- nonEmptyProxyString
unfoldable pub non_empty_value : Value → Option Str
unfolding string_value
non_empty_value v = if_filled (string_value v)

-- configBool and boolValue
unfoldable pub bool_value : Value → Option Bool
bool_value (flag b) = some b
bool_value _ = none

abbrev max_int64 : ℤ
max_int64 = pos (2 ^ 63 - 1)

-- configInt64 and int64Value: the bounds of a float are rounded to -2^63 and 2^63. An `int` has 64
-- bits, so configInt and intValue add nothing.
unfoldable pub int64_of : Machine → Value → Option ℤ
int64_of m (int_value n) = some n
int64_of m (int64_value n) = some n
int64_of m (uint64_value n) = if ltb_ℤ max_int64 (pos n) then none else some (pos n)
int64_of m (whole_float n) =
    if ltb_ℤ (pos (2 ^ 63)) n || ltb_ℤ n (negsuc (2 ^ 63 - 1))
    then none
    else if ltb_ℤ max_int64 n
    then some m.overflowed
    else some n
int64_of m _ = none

-- `!filepath.IsAbs(p) || filepath.Clean(p) != p`
unfoldable pub is_unclean : Str → Bool
unfolding is_abs clean
is_unclean p = not (is_abs p) || not (clean p == p)

-- validateGuestTLSPaths: the loop counts the paths that are set.
unfoldable pub check_tls_paths : List Str → Result ConfigError ℕ
unfolding is_unclean trim_space
check_tls_paths [] = ok 0
check_tls_paths (p ∷ rest) =
    let later = check_tls_paths rest in
    if is_nil (trim_space p)
    then later
    else if is_unclean p
    then err ConfigError.guest_tls_path
    else later >>= λ n. ok (suc n)

unfoldable pub validate_guest_tls_paths : Str → Str → Str → Result ConfigError (Unit {0})
unfolding check_tls_paths
validate_guest_tls_paths ca cert key = check_tls_paths (ca ∷ cert ∷ key ∷ []) >>= λ n.
    reject_if (not (eqb n 0) && not (eqb n 3)) ConfigError.guest_tls_partial

abbrev pub usable_file : Option FileInfo → Bool
usable_file none = false
usable_file (some info) = info.is_regular && leb info.size (2 ^ 20)

abbrev pub read_or : {A : Type 0} → ConfigError → Option A → Result ConfigError A
read_or why none = err why
read_or why (some a) = ok a

-- validateEgressCABundle
unfoldable pub validate_egress_ca_bundle : Machine → Str → Result ConfigError (Unit {0})
unfolding is_unclean
validate_egress_ca_bundle m path = if is_nil path then ok tt else do
  reject_if (is_unclean path) ConfigError.egress_path
  reject_if (not (usable_file (m.host.stat path))) ConfigError.egress_file
  body ← read_or ConfigError.egress_file (m.host.read_file path)
  reject_if (not (m.is_bundle body)) ConfigError.egress_invalid

-- NormalizeImagePullPolicy
unfoldable pub normalize_image_pull_policy : Str → Result ConfigError Str
unfolding lower trim_space
normalize_image_pull_policy value =
    let policy = lower (trim_space value) in
    if is_nil policy
    then ok []
    else if policy == codes "missing"
        || (policy == codes "ifnotpresent"
            || (policy == codes "if-not-present" || policy == codes "if_not_present"))
    then ok (codes "missing")
    else if policy == codes "always" || (policy == codes "never" || policy == codes "newer")
    then ok policy
    else err ConfigError.pull_policy

-- The upstream proxy in a configuration. Podman's two switches are optional: `given` says that one is
-- set at all, which for docker is that it is true.
pub record Upstream : Type 0 where
  pub url : Str
  pub no_proxy : Str
  pub auth_file : Str
  pub insecure_given : Bool
  pub insecure : Bool
  pub connect_given : Bool
  pub ca_bundle : Str

abbrev pub is_bad_url : Option ProxyUrl → Bool
is_bad_url none = true
is_bad_url (some u) =
    is_nil u.hostname
    || (is_nil u.port
        || (u.has_user || not (u.scheme == codes "http" || u.scheme == codes "https")))

abbrev pub is_secure : Option ProxyUrl → Bool
is_secure none = false
is_secure (some u) = u.scheme == codes "https"

abbrev pub has_credentials : Option (Str × Str) → Bool
has_credentials none = false
has_credentials (some (user, password)) = not (is_nil (trim_space user)) && not (is_nil password)

abbrev pub too_long : Option Str → Bool
too_long none = true
too_long (some body) = ltb (64 * 1024) (length body)

abbrev pub content : Option Str → Str
content none = []
content (some body) = body

unfoldable pub check_auth_file : Machine → Upstream → Bool → Result ConfigError (Unit {0})
unfolding is_unclean trim_space cut
check_auth_file m p secure = do
  reject_if (is_unclean p.auth_file) ConfigError.auth_path
  reject_if (is_nil p.url) ConfigError.auth_alone
  reject_if (not secure && not p.insecure) ConfigError.auth_insecure
  reject_if (too_long (m.host.read_file p.auth_file)) ConfigError.auth_file
  reject_if (not (has_credentials (cut (trim_space (content (m.host.read_file p.auth_file))) b':')))
      ConfigError.auth_content

unfoldable pub check_ca_bundle : Machine → Upstream → Result ConfigError (Unit {0})
unfolding is_unclean
check_ca_bundle m p = do
  reject_if (is_unclean p.ca_bundle) ConfigError.bundle_path
  reject_if (is_nil p.url) ConfigError.bundle_alone
  body ← read_or ConfigError.bundle_file (m.host.read_file p.ca_bundle)
  reject_if (not (m.has_certificates body)) ConfigError.bundle_empty

-- validateUpstreamProxyConfig and validateProxyConfig
unfoldable pub validate_proxy_config : Machine → Upstream → Result ConfigError (Unit {0})
unfolding check_auth_file check_ca_bundle
validate_proxy_config m p = do
  let u = m.parse_url p.url
  reject_if (not (is_nil p.url) && is_bad_url u) ConfigError.proxy_url
  reject_if (not (is_nil p.no_proxy) && is_nil p.url) ConfigError.no_proxy_alone
  (if is_nil p.auth_file
      then reject_if p.insecure_given ConfigError.insecure_alone
      else check_auth_file m p (not (is_nil p.url) && is_secure u))
  reject_if (p.connect_given && is_nil p.url) ConfigError.connect_alone
  (if is_nil p.ca_bundle then ok tt else check_ca_bundle m p)

-- The setter of a field, from the value and how it is read; `none` is an error of the decoder.
abbrev pub set_with : {A C : Type 0} → (Value → Option A) → (A → C → C) → Value → C → Option C
set_with read set v cfg = elim (read v) [ none ↦ none | some a ↦ some (set a cfg) ]
