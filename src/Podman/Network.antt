-- ===== src/Podman/Network.antt =====
-- `nativeNetworkCallbacks` and `availableNetworkSubnet` of internal/podman/libpod_network.go.
pub mod Subnets
pub mod Choice
pub mod Creation
pub mod Verified
pub mod Kept
use whaleshell_driver.Base.{
  ℕ, zero, suc, Str, codes, ◌==◌, contains as has_text, lower, equal_fold, is_nil, eqb, any, Bool,
  true, false, not, ◌&&◌, ◌||◌, List, [], ◌∷◌, ◌++◌, if◌then◌else◌, Option, none, some, Result, ok,
  err, ◌+◌, ◌*◌, ◌/◌, ◌%◌,
}
use whaleshell_driver.Base.Decimal.{show}
use whaleshell_driver.Podman.Address.{
  Addr, Prefix, bit_len, same, contains, prefix_from, prefixes_overlap, addr_from4, parse_addr,
  parse_prefix, show_addr4, show_prefix4,
}
use whaleshell_driver.Podman.Service.{
  Subnet, Route, NetworkRequest, NetworkSummary, NetworkDetails, Failure, Reply, Complaint, Call,
  Service, M, pure, fail, lift, perform, decoded, ◌>>=◌, ◌>>◌, is_success, connect,
}

-- The prefix at an index below 4096, and its gateway.
unfoldable pub candidate : ℕ → Prefix
unfolding addr_from4
candidate index = record { addr = addr_from4 172 (16 + index / 256) (index % 256) 0; bits = 24 }

-- Addr.Next
unfoldable pub next : Addr → Addr
next a = record a { value = a.value + 1 }

abbrev add_used : Option Prefix → List Prefix → List Prefix
add_used none rest = rest
add_used (some p) rest = p ∷ rest

unfoldable pub used_in : Service → List Subnet → List Prefix
unfolding parse_prefix
used_in svc [] = []
used_in svc (s ∷ rest) = add_used (parse_prefix svc.parse6 s.subnet) (used_in svc rest)

unfoldable pub used_prefixes : Service → List NetworkSummary → List Prefix
unfolding used_in
used_prefixes svc [] = []
used_prefixes svc (n ∷ rest) = used_in svc n.subnets ++ used_prefixes svc rest

unfoldable pub collides : List Prefix → Prefix → Bool
unfolding prefixes_overlap
collides used p = any (prefixes_overlap p) used

-- `rounds` candidates are left to try, the next at offset `i`.
unfoldable pub search_subnet : List Prefix → ℕ → ℕ → ℕ → Option Prefix
unfolding collides candidate
search_subnet used start zero i = none
search_subnet used start (suc rounds) i =
    let rest = search_subnet used start rounds (i + 1) in
    let p = candidate ((start + i) % 4096) in if collides used p then rest else some p

-- Every candidate once, from the start that the name gives.
unfoldable pub free_subnet : List Prefix → ℕ → Option Prefix
unfolding search_subnet
free_subnet used start = search_subnet used start 4096 0

abbrev pub or_no_subnet : Option Prefix → M (Prefix × Addr)
or_no_subnet none = fail Failure.no_subnet
or_no_subnet (some p) = pure (p, next p.addr)

abbrev pub start_of : ℕ × ℕ → ℕ
start_of (high, low) = high * 256 + low

abbrev pub listed : Reply (List NetworkSummary) → Result Failure (List NetworkSummary)
listed r = if is_success r.code then decoded r.body else err (Failure.refused r.code [])

unfoldable pub available_network_subnet : Service → Str → Str → M (Prefix × Addr)
unfolding connect perform lift ◌>>=◌ pure fail next
available_network_subnet svc host name = do
  connect svc host
  reply ← perform Call.list_networks svc.networks
  networks ← lift (listed reply)
  or_no_subnet (free_subnet (used_prefixes svc networks) (start_of (svc.digest name)))

-- The name that the search starts from in an attempt.
unfoldable pub allocation_name : Str → ℕ → Str
unfolding show
allocation_name name zero = name
allocation_name name (suc n) = name ++ (codes "-retry-" ++ show (suc n))

abbrev pub plain_request : Str → Bool → List (Str × Str) → NetworkRequest
plain_request name internal labels = record {
  name = name;
  driver = codes "bridge";
  internal = internal;
  dns_enabled = true;
  labels = labels;
  subnets = [];
  routes = [];
}

unfoldable pub isolated_request : Str → List (Str × Str) → Prefix × Addr → NetworkRequest
unfolding prefix_from
isolated_request name labels (p, gateway) = record (plain_request name true labels) {
  subnets = record { subnet = show_prefix4 p; gateway = show_addr4 gateway } ∷ [];
  routes =
      record {
        destination = show_prefix4 (prefix_from gateway 32);
        gateway = [];
        route_type = codes "blackhole";
      }
      ∷ [];
}

unfoldable pub request_for : Service → Str → Str → Bool → List (Str × Str) → ℕ → M NetworkRequest
unfolding pure ◌>>=◌
request_for svc host name true labels attempt =
    available_network_subnet svc host (allocation_name name attempt) >>= λ found.
    pure (isolated_request name labels found)
request_for svc host name false labels attempt = pure (plain_request name false labels)

-- What an answer to the creation means: done, or another attempt.
pub data Verdict : Type 0 where
  done again : Verdict

abbrev pub complaint_of : Option Complaint → Complaint
complaint_of none = record { message = []; cause = [] }
complaint_of (some c) = c

abbrev pub message_of : Complaint → Str
message_of c = if is_nil c.message then c.cause else c.message

unfoldable pub judge : Bool → Reply Complaint → Result Failure Verdict
unfolding lower has_text
judge internal r =
    let message = message_of (complaint_of r.body) in
    let text = lower message in
    if is_success r.code
    then ok Verdict.done
    else if internal && has_text text (codes "route gateway nil")
    then err Failure.blackhole_unsupported
    else if not internal
        || not (has_text text (codes "subnet"))
        || not (has_text text (codes "used"))
    then err (Failure.refused r.code message)
    else ok Verdict.again

unfoldable pub attempt_create : Service → Str → Str → Bool → List (Str × Str) → ℕ → M Verdict
unfolding perform lift ◌>>=◌
attempt_create svc host name internal labels attempt = do
  request ← request_for svc host name internal labels attempt
  reply ← perform (Call.create_network request) (λ calls. svc.created calls request)
  lift (judge internal reply)

abbrev pub repeat_if : Verdict → M (Unit {0}) → M (Unit {0})
repeat_if Verdict.done rest = pure tt
repeat_if Verdict.again rest = rest

unfoldable pub create_loop : Service → Str → Str → Bool → List (Str × Str) → ℕ → ℕ → M (Unit {0})
unfolding ◌>>=◌ pure fail
create_loop svc host name internal labels zero attempt = fail Failure.retries_exhausted
create_loop svc host name internal labels (suc rounds) attempt =
    attempt_create svc host name internal labels attempt >>= λ v.
    repeat_if v (create_loop svc host name internal labels rounds (attempt + 1))

-- The callback `create`
unfoldable pub create_network : Service → Str → Str → Bool → List (Str × Str) → M (Unit {0})
unfolding connect ◌>>=◌
create_network svc host name internal labels =
    connect svc host >>= λ _. create_loop svc host name internal labels 32 0

abbrev pub equal_addr : Addr → Addr → Bool
equal_addr a b = same a.is4 b.is4 && eqb a.value b.value && a.zone == b.zone

abbrev pub equal_prefix : Prefix → Prefix → Bool
equal_prefix a b = equal_addr a.addr b.addr && eqb a.bits b.bits

abbrev pub is_gateway_route : Prefix → Addr → Route → Option Prefix → Bool
is_gateway_route p gateway r none = false
is_gateway_route p gateway r (some dst) =
    equal_fold r.route_type (codes "blackhole")
    && equal_prefix dst (prefix_from gateway (bit_len gateway))
    && contains p gateway

unfoldable pub blackholes : Service → Prefix → Addr → Route → Bool
unfolding parse_prefix
blackholes svc p gateway r = is_gateway_route p gateway r (parse_prefix svc.parse6 r.destination)

abbrev pub check_parsed :
    Service → List Route → Str → Option Prefix → Option Addr → Result Failure (Unit {0})
check_parsed svc routes text none gateway = err Failure.bad_gateway
check_parsed svc routes text (some p) none = err Failure.bad_gateway
check_parsed svc routes text (some p) (some gateway) =
    if any (blackholes svc p gateway) routes then ok tt else err (Failure.no_blackhole text)

unfoldable pub check_subnet : Service → List Route → Subnet → Result Failure (Unit {0})
unfolding blackholes
check_subnet svc routes s =
    check_parsed svc routes s.gateway (parse_prefix svc.parse6 s.subnet)
      (parse_addr svc.parse6 s.gateway)

abbrev pub then_check :
    Result Failure (Unit {0}) → Result Failure (Unit {0}) → Result Failure (Unit {0})
then_check (err why) rest = err why
then_check (ok _) rest = rest

unfoldable pub check_subnets : Service → List Route → List Subnet → Result Failure (Unit {0})
unfolding check_subnet
check_subnets svc routes [] = ok tt
check_subnets svc routes (s ∷ rest) =
    then_check (check_subnet svc routes s) (check_subnets svc routes rest)

unfoldable pub check_details : Service → Bool → NetworkDetails → Result Failure (Unit {0})
unfolding check_subnets
check_details svc internal n =
    if internal && not n.internal
    then err Failure.not_internal
    else if internal
    then (if is_nil n.subnets then err Failure.no_subnets else check_subnets svc n.routes n.subnets)
    else ok tt

abbrev pub inspected : Reply NetworkDetails → Result Failure NetworkDetails
inspected r = if is_success r.code then decoded r.body else err (Failure.refused r.code [])

-- The callback `verify`
unfoldable pub verify_network : Service → Str → Str → Bool → M (Unit {0})
unfolding connect perform lift ◌>>=◌ check_details
verify_network svc host name internal = do
  connect svc host
  reply ← perform (Call.inspect_network name) (λ calls. svc.details calls name)
  n ← lift (inspected reply)
  lift (check_details svc internal n)
