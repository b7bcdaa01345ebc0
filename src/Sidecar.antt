-- ===== src/Sidecar.antt =====
-- internal/sidecar/sidecar.go: the environment of a sandbox beside an egress proxy.
use whaleshell_driver.Base.{Str, codes, is_nil, List, [], ◌∷◌, ◌++◌, if◌then◌else◌, ℤ, pos, ltb_ℤ}
use whaleshell_driver.Base.Decimal.{show_ℤ}
use whaleshell_driver.Defaults.{Defaults}

abbrev proxy_entries : Defaults → Str → List Str
proxy_entries d u =
    (codes "HTTP_PROXY=" ++ u)
    ∷ (codes "HTTPS_PROXY=" ++ u)
    ∷ (codes "http_proxy=" ++ u)
    ∷ (codes "https_proxy=" ++ u)
    ∷ (codes "ALL_PROXY=" ++ u)
    ∷ (codes "NO_PROXY=" ++ d.no_proxy_value)
    ∷ (codes "no_proxy=" ++ d.no_proxy_value)
    ∷ []

unfoldable pub proxy_env : Defaults → Str → ℤ → List Str
proxy_env d proxy_host port =
    let host = if is_nil proxy_host then codes "cauteum-proxy" else proxy_host in
    let p = if ltb_ℤ (pos 0) port then port else pos d.proxy_port in
    proxy_entries d (codes "http://" ++ (host ++ (codes ":" ++ show_ℤ p)))

unfoldable pub ca_bundle_env : Defaults → Str → List Str
ca_bundle_env d ca_file =
    let f = if is_nil ca_file then d.guest_ca_file else ca_file in
    (codes "SSL_CERT_FILE=" ++ f)
    ∷ (codes "CURL_CA_BUNDLE=" ++ f)
    ∷ (codes "REQUESTS_CA_BUNDLE=" ++ f)
    ∷ (codes "NODE_EXTRA_CA_CERTS=" ++ f)
    ∷ (codes "GIT_SSL_CAINFO=" ++ f)
    ∷ []
