-- ===== src/Podman/Network/Verified.antt =====
-- What `nativeNetworkCallbacks` of internal/podman/libpod_network.go accepts as isolated.
use whaleshell_driver.Base.{
  ℕ, Str, codes, equal_fold, is_nil, any, ==_iff, ◌≡◌, ◌&&◌, refl, sym, ap, ◌∙◌, Bool, true, false,
  List, [], ◌∷◌, Option, none, some, Result, ok, err, Bool-cases, and-eq-true, Option-cases,
  Result-cases, subst, arith, inl, inr, All, Exists,
}
use whaleshell_driver.Podman.Address.{
  Addr, Prefix, same, bit_len, contains, prefix_from, parse_addr, parse_prefix,
}
use whaleshell_driver.Podman.Address.Overlap.{InRange, contains-InRange}
use whaleshell_driver.Podman.Service.{
  Subnet, Route, NetworkDetails, Failure, Reply, Call, Service, is_success, connection, connect,
  perform, lift, ◌>>=◌,
}
use whaleshell_driver.Podman.Network.{
  equal_prefix, blackholes, is_gateway_route, check_subnet, check_parsed, check_subnets,
  check_details, inspected, verify_network,
}

-- The route drops what is sent to exactly that address.
abbrev pub Drops : Service → Addr → Route → Type 0
Drops svc gateway r =
    (equal_fold r.route_type (codes "blackhole") ≡ true)
    × (parse_prefix svc.parse6 r.destination ≡ some (prefix_from gateway (bit_len gateway)))

-- The gateway of the subnet lies in it and cannot be reached.
abbrev pub IsBlackholed : Service → List Route → Subnet → Type 0
IsBlackholed svc routes s =
    (p : Prefix) × (gateway : Addr) × (parse_prefix svc.parse6 s.subnet ≡ some p)
    × (parse_addr svc.parse6 s.gateway ≡ some gateway)
    × (p.addr.is4 ≡ gateway.is4)
    × InRange p gateway.value
    × Exists (Drops svc gateway) routes

same-eq : (a b : Bool) → same a b ≡ true → a ≡ b
same-eq true b h = sym h
same-eq false true h = cc
same-eq false false h = refl

equal_prefix-eq : (a b : Prefix) → equal_prefix a b ≡ true → a ≡ b
equal_prefix-eq a b h =
    ground (arith, ==_iff a.addr.zone b.addr.zone, same-eq a.addr.is4 b.addr.is4)

blackholes_sound :
    (svc : Service) (p : Prefix) (gateway : Addr) (r : Route)
    → blackholes svc p gateway r ≡ true
    → Drops svc gateway r × (p.addr.is4 ≡ gateway.is4) × InRange p gateway.value
unfolding blackholes
blackholes_sound svc p gateway r h = elim (Option-cases (parse_prefix svc.parse6 r.destination)) [
  | inl bad ↦ (let h' = rw bad at h in cc h')
  | inr (dst, found) ↦
      (let tested : is_gateway_route p gateway r (some dst) ≡ true = rw found at h in
        let kind_test = equal_fold r.route_type (codes "blackhole") in
        let target_test = equal_prefix dst (prefix_from gateway (bit_len gateway)) in
        let (both, inside) = and-eq-true (kind_test && target_test) (contains p gateway) tested in
        let (kind, target) = and-eq-true kind_test target_test both in
        let exact = equal_prefix-eq dst (prefix_from gateway (bit_len gateway)) target in
        let (family, range) = contains-InRange p gateway inside in
        ((kind, found ∙ ap some exact), family, range))
]

-- Some route passes the test, so it drops; and all of them are tested against the same range.
any-blackholes :
    (svc : Service) (p : Prefix) (gateway : Addr) (routes : List Route)
    → any (blackholes svc p gateway) routes ≡ true
    → (p.addr.is4 ≡ gateway.is4) × InRange p gateway.value × Exists (Drops svc gateway) routes
any-blackholes svc p gateway [] h = cc
any-blackholes svc p gateway (r ∷ routes) h = elim (Bool-cases (blackholes svc p gateway r)) [
  | inl yes_ ↦
      (let (drops, family, range) = blackholes_sound svc p gateway r yes_ in
        (family, range, Exists.here drops))
  | inr no_ ↦
      (let (family, range, later) = any-blackholes svc p gateway routes (rw no_ at h) in
        (family, range, Exists.there later))
]

check_parsed_sound :
    (svc : Service) (routes : List Route) (s : Subnet) (p : Option Prefix) (gateway : Option Addr)
    → parse_prefix svc.parse6 s.subnet ≡ p
    → parse_addr svc.parse6 s.gateway ≡ gateway
    → check_parsed svc routes s.gateway p gateway ≡ ok tt
    → IsBlackholed svc routes s
check_parsed_sound svc routes s none gateway ep eg h = cc
check_parsed_sound svc routes s (some p) none ep eg h = cc
check_parsed_sound svc routes s (some p) (some gateway) ep eg h =
    elim (Bool-cases (any (blackholes svc p gateway) routes)) [
      | inl yes_ ↦
          (let (family, range, drops) = any-blackholes svc p gateway routes yes_ in
            (p, gateway, ep, eg, family, range, drops))
      | inr no_ ↦ (let h' = rw no_ at h in cc h')
    ]

check_subnets_sound :
    (svc : Service) (routes : List Route) (subnets : List Subnet)
    → check_subnets svc routes subnets ≡ ok tt
    → All (IsBlackholed svc routes) subnets
unfolding check_subnets
check_subnets_sound svc routes [] h = tt
check_subnets_sound svc routes (s ∷ rest) h = elim (Result-cases (check_subnet svc routes s)) [
  | inr (why, bad) ↦ (let h' = rw bad at h in cc h')
  | inl (_, good) ↦ (
    unfold check_subnet in check_parsed_sound svc routes s _ _ refl refl good,
    check_subnets_sound svc routes rest (rw good at h),
  )
]

-- What the inspection of an isolated network shows.
pub record IsIsolated (svc : Service) (n : NetworkDetails) : Type 0 where
  pub internal : n.internal ≡ true
  pub has_subnet : is_nil n.subnets ≡ false
  pub blackholed : All (IsBlackholed svc n.routes) n.subnets

check_details-IsIsolated :
    (svc : Service) (n : NetworkDetails) → check_details svc true n ≡ ok tt → IsIsolated svc n
unfolding check_details
check_details-IsIsolated svc n h = record {
  internal = ground arith;
  has_subnet = ground arith;
  blackholed = check_subnets_sound svc n.routes n.subnets (ground arith);
}

module _ (svc : Service) (host name : Str) (calls : List Call) where
  abbrev Judged : Result Failure (Unit {0}) × List Call → Type 0
  Judged (err why, calls') = Unit
  Judged (ok _, calls') =
      (n : NetworkDetails) × (code : ℕ) × (is_success code ≡ true)
      × (svc.details calls name ≡ some (record { code = code; body = some n }))
      × IsIsolated svc n

  details-Judged :
      (reply : Reply NetworkDetails) (n : NetworkDetails)
      → svc.details calls name ≡ some reply
      → inspected reply ≡ ok n
      → (v : Result Failure (Unit {0})) → check_details svc true n ≡ v
      → Judged (v, Call.inspect_network name ∷ calls)
  details-Judged reply n got read (err why) e = tt
  details-Judged reply n got read (ok _) e =
      (n, reply.code, ground arith, ground arith, check_details-IsIsolated svc n e)

  -- Where the verification of an internal network succeeds, the service showed, in a successful
  -- answer, an internal network with at least one subnet, and for each of its subnets a gateway
  -- inside the subnet's range and a blackhole route to exactly that address.
  pub verify_network_sound :
      {calls' : List Call}
      → verify_network svc host name true calls ≡ (ok tt, calls')
      → Judged (ok tt, calls')
  unfolding verify_network connect perform lift ◌>>=◌
  verify_network_sound h = subst Judged h judged
    where
      judged : Judged (verify_network svc host name true calls)
      judged = elim (Result-cases (connection svc host)) [
        | inr (why, bad) ↦ rw bad tt
        | inl (client, good) ↦ rw good (elim (Option-cases (svc.details calls name)) [
          | inl lost ↦ rw lost tt
          | inr (reply, got) ↦ rw got (elim (Result-cases (inspected reply)) [
            | inr (why, bad) ↦ rw bad tt
            | inl (n, read) ↦ rw read (details-Judged reply n got read _ refl)
          ])
        ])
      ]
