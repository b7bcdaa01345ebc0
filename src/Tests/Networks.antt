-- ===== src/Tests/Networks.antt =====
-- A podman service with one network in use, the isolated network that is made beside it, and its
-- verification.
use whaleshell_driver.Base.{
  ℕ, Str, codes, ◌≡◌, ap, refl, ◌↔◌, arith, true, List, [], ◌∷◌, Option, none, some, ok, split,
}
use whaleshell_driver.Podman.Address.{
  Addr, Prefix, addr_from4, contains, prefixes_overlap, parse_prefix, parse_addr, parse_octet,
  cut_last_slash, first_mark,
}
use whaleshell_driver.Podman.Address.Overlap.{Shares, prefixes_overlap-iff-Shares}
use whaleshell_driver.Podman.Service.{
  NetworkSummary, NetworkDetails, HttpClient, Reply, Call, list_networks, create_network,
  inspect_network, Service, is_success, connection, connect, native_endpoint, native_http_client,
  perform, lift, pure, ◌>>=◌,
}
use whaleshell_driver.Podman.Network as Network
use whaleshell_driver.Podman.Network.{
  candidate, next, used_prefixes, used_in, collides, search_subnet, free_subnet,
  available_network_subnet, allocation_name, isolated_request, request_for, judge, attempt_create,
  create_loop, verify_network, check_details, check_subnets, check_subnet, blackholes,
}
use whaleshell_driver.Podman.Network.Subnets.{IsFree}
use whaleshell_driver.Podman.Network.Choice.{available_network_subnet_finds}
use whaleshell_driver.Podman.Network.Verified.{IsIsolated, verify_network_sound}
use whaleshell_driver.Podman.Network.Kept.{kept, create_network-verified}
use whaleshell_driver.Tests.Samples.{sample_host}

abbrev wide : Prefix
wide = record { addr = record { is4 = true; value = 2886729728; zone = [] }; bits = 12 }

abbrev narrow : Prefix
narrow = record { addr = record { is4 = true; value = 2886730005; zone = [] }; bits = 24 }

prefixes_overlap-iff-Shares_example : (prefixes_overlap wide narrow ≡ true) ↔ Shares wide narrow
prefixes_overlap-iff-Shares_example =
    prefixes_overlap-iff-Shares wide narrow (record { bounded = omega arith; no_zone = refl })
      (record { bounded = omega arith; no_zone = refl })

abbrev socket : Str
socket = codes "unix:///run/podman.sock"

abbrev bridge : NetworkSummary
bridge = record {
  subnets = record { subnet = codes "172.16.0.9/24"; gateway = codes "172.16.0.1" } ∷ [];
}

-- The details of the request that was made last.
abbrev last_made : List Call → Option (Reply NetworkDetails)
last_made (create_network r ∷ calls) = some (record { code = 200; body = some (kept r) })
last_made _ = none

abbrev service : Service
service = record {
  host = sample_host;
  parse_url =
      λ s. some (record { scheme = codes "unix"; host = []; path = codes "/run/podman.sock" });
  parse6 = λ s. none;
  digest = λ s. (16, 0);
  has_key_pair = λ a b. true;
  has_certificates = λ s. true;
  networks = λ calls. some (record { code = 200; body = some (bridge ∷ []) });
  created = λ calls r. some (record { code = 201; body = none });
  details = λ calls name. last_made calls;
  containers =
      λ calls s. some (record { code = 201; complaint = none; ids = some ([], codes "c0ffee") });
}

abbrev picked : Prefix × Addr
picked = (
  record { addr = record { is4 = true; value = 2886729984; zone = [] }; bits = 24 },
  record { is4 = true; value = 2886729985; zone = [] },
)

abbrev client : HttpClient
client = record { dial_unix = some (codes "/run/podman.sock"); tls = none }

connects : connection service socket ≡ ok client
unfolding connection native_endpoint native_http_client
connects = refl

second_left : IsFree (used_prefixes service (bridge ∷ [])) (candidate 1)
unfolding used_prefixes used_in parse_prefix parse_addr parse_octet cut_last_slash first_mark split
    candidate addr_from4
second_left = (λ s. omega arith, tt)

available_network_subnet_finds_example :
    (found : Prefix × Addr) × (available_network_subnet service socket (codes "dev") []
      ≡ (ok found, list_networks ∷ []))
available_network_subnet_finds_example =
    available_network_subnet_finds service socket (codes "dev") [] (bridge ∷ []) 1 connects
      (200, refl, refl) (omega arith) second_left

abbrev after_creation : List Call
after_creation = create_network (isolated_request (codes "dev") [] picked) ∷ list_networks ∷ []

creates : Network.create_network service socket (codes "dev") true [] [] ≡ (ok tt, after_creation)
unfolding Network.create_network connect connection native_endpoint native_http_client lift ◌>>=◌
    create_loop attempt_create request_for perform pure judge allocation_name
    available_network_subnet free_subnet search_subnet collides candidate addr_from4 next
    used_prefixes used_in parse_prefix parse_addr parse_octet cut_last_slash first_mark split
    contains prefixes_overlap
creates = refl

create_network-verified_example :
    verify_network service socket (codes "dev") true after_creation
    ≡ (ok tt, inspect_network (codes "dev") ∷ after_creation)
create_network-verified_example =
    create_network-verified service socket (codes "dev") [] [] 200 connects creates refl
      (λ request before e. ap last_made e)

verify_network_sound_example :
    (n : NetworkDetails) × (code : ℕ) × (is_success code ≡ true)
    × (service.details after_creation (codes "dev") ≡ some (record { code = code; body = some n }))
    × IsIsolated service n
verify_network_sound_example =
    verify_network_sound service socket (codes "dev") after_creation create_network-verified_example
