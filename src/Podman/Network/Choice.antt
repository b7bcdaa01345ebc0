-- ===== src/Podman/Network/Choice.antt =====
-- What `availableNetworkSubnet` of internal/podman/libpod_network.go promises.
use whaleshell_driver.Base.{
  ℕ, Str, ◌≡◌, ◌<◌, refl, true, List, ◌∷◌, Option, none, some, Result, ok, err, Option-cases,
  Result-cases, subst, arith, inl, inr,
}
use whaleshell_driver.Podman.Address.{Addr, Prefix}
use whaleshell_driver.Podman.Service.{
  NetworkSummary, Failure, Reply, HttpClient, Call, Service, is_success, connection, connect,
  perform, lift, ◌>>=◌, pure, fail,
}
use whaleshell_driver.Podman.Network.{
  candidate, free_subnet, next, used_prefixes, listed, or_no_subnet, start_of,
  available_network_subnet,
}
use whaleshell_driver.Podman.Network.Subnets.{
  IsFree, Lists, IsUnused, search-IsUnused, search-finds, used_prefixes-IsProper,
}

listed-eq-ok :
    (r : Reply (List NetworkSummary)) {networks : List NetworkSummary}
    → listed r ≡ ok networks
    → (is_success r.code ≡ true) × (r.body ≡ some networks)
listed-eq-ok r h = ground arith

listing-of :
    (svc : Service) (calls : List Call) (r : Reply (List NetworkSummary))
    {networks : List NetworkSummary}
    → svc.networks calls ≡ some r
    → listed r ≡ ok networks
    → Lists svc calls networks
listing-of svc calls r got h =
    let (success, body) = listed-eq-ok r h in (r.code, success, ground arith)

module _ (svc : Service) (host name : Str) (calls : List Call) where
  abbrev Promise : Result Failure (Prefix × Addr) × List Call → Type 0
  Promise (err why, calls') = Unit
  Promise (ok found, calls') =
      (networks : List NetworkSummary) × Lists svc calls networks
      × IsUnused (used_prefixes svc networks) found
      × (calls' ≡ Call.list_networks ∷ calls)

  picked :
      (networks : List NetworkSummary) (found : Option Prefix)
      → Lists svc calls networks
      → free_subnet (used_prefixes svc networks) (start_of (svc.digest name)) ≡ found
      → Promise (or_no_subnet found (Call.list_networks ∷ calls))
  unfolding pure fail
  picked networks none listing h = tt
  picked networks (some p) listing h =
      (networks, listing, search-IsUnused _ _ (used_prefixes-IsProper svc networks) h, refl)

  available-Promise : Promise (available_network_subnet svc host name calls)
  unfolding available_network_subnet connect perform lift ◌>>=◌
  available-Promise = elim (Result-cases (connection svc host)) [
    | inr (why, bad) ↦ rw bad tt
    | inl (client, good) ↦ rw good (elim (Option-cases (svc.networks calls)) [
      | inl lost ↦ rw lost tt
      | inr (reply, got) ↦ rw got (elim (Result-cases (listed reply)) [
        | inr (why, bad) ↦ rw bad tt
        | inl (networks, read) ↦
            rw read (picked networks _ (listing-of svc calls reply got read) refl)
      ])
    ])
  ]

  pub available_network_subnet_sound :
      {found : Prefix × Addr} {calls' : List Call}
      → available_network_subnet svc host name calls ≡ (ok found, calls')
      → (networks : List NetworkSummary) × Lists svc calls networks
        × IsUnused (used_prefixes svc networks) found
        × (calls' ≡ Call.list_networks ∷ calls)
  available_network_subnet_sound h = subst Promise h available-Promise

  -- Where the service can be reached and lists its networks, and any of the 4096 prefixes shares no
  -- address with a listed subnet, the driver finds a subnet.
  pub available_network_subnet_finds :
      (networks : List NetworkSummary) (k : ℕ) {client : HttpClient}
      → connection svc host ≡ ok client
      → Lists svc calls networks
      → k < 4096
      → IsFree (used_prefixes svc networks) (candidate k)
      → (found : Prefix × Addr) × (available_network_subnet svc host name calls
          ≡ (ok found, Call.list_networks ∷ calls))
  unfolding available_network_subnet connect perform lift ◌>>=◌ pure
  available_network_subnet_finds networks k reached (code, success, got) small free =
      let start = start_of (svc.digest name) in
      let (p, found) =
        search-finds (used_prefixes svc networks) start k small
          (used_prefixes-IsProper svc networks) free in
      ((p, next p.addr), rw (reached, got, success, found))
