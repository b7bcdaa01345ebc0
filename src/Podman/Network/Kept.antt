-- ===== src/Podman/Network/Kept.antt =====
-- The creation and the verification of internal/podman/libpod_network.go together: a network that the
-- service keeps as requested is accepted.
use whaleshell_driver.Base.{
  ℕ, Str, codes, equal_fold, ==_iff, eqb_iff, ◌≡◌, ◌<◌, refl, ap, ◌∙◌, Bool, true, false, List, [],
  ◌∷◌, some, ok, arith,
}
use whaleshell_driver.Podman.Address.{
  Addr, Prefix, bit_len, same, contains, prefix_from, addr_from4, parse_prefix, show_prefix4,
}
use whaleshell_driver.Podman.Address.Print.{
  IsAddr4, parse_addr-show_addr4, parse_prefix-show_prefix4,
}
use whaleshell_driver.Podman.Service.{
  Route, NetworkRequest, NetworkDetails, HttpClient, Call, Service, is_success, connection, connect,
  perform, lift, ◌>>=◌,
}
use whaleshell_driver.Podman.Network.{
  candidate, next, isolated_request, blackholes, equal_prefix, check_subnet, check_subnets,
  check_details, verify_network, create_network, used_prefixes,
}
use whaleshell_driver.Podman.Network.Subnets.{IsUnused}
use whaleshell_driver.Podman.Network.Creation.{create_network-Made}

-- The inspection of a network that is kept as it was requested.
abbrev pub kept : NetworkRequest → NetworkDetails
kept r = record { internal = r.internal; subnets = r.subnets; routes = r.routes }

candidate-IsAddr4 : (k : ℕ) → k < 4096 → IsAddr4 (candidate k).addr
unfolding candidate addr_from4
candidate-IsAddr4 k h = record { version = refl; small = omega arith; no_zone = refl }

next-IsAddr4 : (k : ℕ) → k < 4096 → IsAddr4 (next (candidate k).addr)
unfolding candidate addr_from4 next
next-IsAddr4 k h = record { version = refl; small = omega arith; no_zone = refl }

-- The gateway of a candidate lies in it.
contains-next : (k : ℕ) → k < 4096 → contains (candidate k) (next (candidate k).addr) ≡ true
unfolding contains candidate addr_from4 next
contains-next k h = ground arith

same_refl : (b : Bool) → same b b ≡ true
same_refl true = refl
same_refl false = refl

equal_prefix_refl : (p : Prefix) → equal_prefix p p ≡ true
equal_prefix_refl p = rw (
  same_refl p.addr.is4,
  (eqb_iff p.addr.value p.addr.value).1 refl,
  (==_iff p.addr.zone p.addr.zone).1 refl,
  (eqb_iff p.bits p.bits).1 refl,
)

-- The prefix of the gateway alone.
own_prefix : ℕ → Prefix
own_prefix k = prefix_from (next (candidate k).addr) 32

own_prefix-bits :
    (k : ℕ)
    → prefix_from (next (candidate k).addr) (bit_len (next (candidate k).addr)) ≡ own_prefix k
unfolding own_prefix candidate addr_from4 next
own_prefix-bits k = refl

own_prefix-IsAddr4 : (k : ℕ) → k < 4096 → IsAddr4 (own_prefix k).addr
unfolding own_prefix candidate addr_from4 next prefix_from
own_prefix-IsAddr4 k h = record { version = refl; small = omega arith; no_zone = refl }

own_prefix-parsed :
    (svc : Service) (k : ℕ)
    → k < 4096
    → parse_prefix svc.parse6 (show_prefix4 (own_prefix k)) ≡ some (own_prefix k)
own_prefix-parsed svc k h =
    parse_prefix-show_prefix4 svc.parse6 (own_prefix k) (own_prefix-IsAddr4 k h)
      (unfold own_prefix prefix_from in omega arith)

abbrev own_route : ℕ → Route
own_route k = record {
  destination = show_prefix4 (own_prefix k);
  gateway = [];
  route_type = codes "blackhole";
}

blackholes-own :
    (svc : Service) (k : ℕ)
    → k < 4096
    → blackholes svc (candidate k) (next (candidate k).addr) (own_route k) ≡ true
unfolding blackholes equal_fold
blackholes-own svc k h = rw (
  own_prefix-parsed svc k h,
  own_prefix-bits k,
  contains-next k h,
  equal_prefix_refl (own_prefix k),
)

candidate-parsed :
    (svc : Service) (k : ℕ)
    → k < 4096
    → parse_prefix svc.parse6 (show_prefix4 (candidate k)) ≡ some (candidate k)
candidate-parsed svc k h =
    parse_prefix-show_prefix4 svc.parse6 (candidate k) (candidate-IsAddr4 k h)
      (unfold candidate in omega arith)

check_details-kept :
    (svc : Service) (name : Str) (labels : List (Str × Str)) (k : ℕ)
    → k < 4096
    → check_details svc true
        (kept (isolated_request name labels (candidate k, next (candidate k).addr)))
      ≡ ok tt
unfolding check_details check_subnets check_subnet isolated_request own_prefix
check_details-kept svc name labels k h = rw (
  candidate-parsed svc k h,
  parse_addr-show_addr4 svc.parse6 (next (candidate k).addr) (next-IsAddr4 k h),
  blackholes-own svc k h,
)

module _ (svc : Service) (host name : Str) where
  verify-kept :
      (labels : List (Str × Str)) (found : Prefix × Addr) (used : List Prefix) (calls : List Call)
      (code : ℕ) {client : HttpClient}
      → connection svc host ≡ ok client
      → IsUnused used found
      → is_success code ≡ true
      → svc.details calls name
        ≡ some (record { code = code; body = some (kept (isolated_request name labels found)) })
      → verify_network svc host name true calls ≡ (ok tt, Call.inspect_network name ∷ calls)
  unfolding verify_network connect perform lift ◌>>=◌
  verify-kept labels (p, gateway) used calls code reached (k, small, ep, eg, free) success shown =
      let gateway_of : gateway ≡ next (candidate k).addr =
        eg ∙ ap (λ (q : Prefix). next q.addr) ep in
      let checked : check_details svc true (kept (isolated_request name labels (p, gateway)))
          ≡ ok tt =
        rw (ep, gateway_of) (check_details-kept svc name labels k small) in
      rw (reached, shown, success, checked)

  -- Where the creation of an internal network succeeded, and the service then shows the network with
  -- the subnets, the routes and the flag of the last request that it accepted, the verification of
  -- that network succeeds.
  pub create_network-verified :
      (labels : List (Str × Str)) (calls : List Call) (code : ℕ) {calls' : List Call}
      {client : HttpClient}
      → connection svc host ≡ ok client
      → create_network svc host name true labels calls ≡ (ok tt, calls')
      → is_success code ≡ true
      → ((request : NetworkRequest) (before : List Call)
          → calls' ≡ Call.create_network request ∷ before
          → svc.details calls' name ≡ some (record { code = code; body = some (kept request) }))
      → verify_network svc host name true calls' ≡ (ok tt, Call.inspect_network name ∷ calls')
  create_network-verified labels calls code {calls'} reached made success keeps =
      let (found, before, networks, listing, unused, at_end, reply, got, accepted) =
        create_network-Made svc host name labels calls made in
      verify-kept labels found (used_prefixes svc networks) calls' code reached unused success
        (keeps (isolated_request name labels found) (Call.list_networks ∷ before) at_end)
