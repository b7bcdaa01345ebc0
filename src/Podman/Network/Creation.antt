-- ===== src/Podman/Network/Creation.antt =====
-- What `nativeNetworkCallbacks` of internal/podman/libpod_network.go asks the service to make.
use whaleshell_driver.Base.{
  ℕ, zero, suc, Str, ◌≡◌, ◌+◌, refl, Bool, true, List, ◌∷◌, some, Result, ok, err, Option-cases,
  Result-cases, subst, arith, inl, inr,
}
use whaleshell_driver.Podman.Address.{Addr, Prefix}
use whaleshell_driver.Podman.Service.{
  NetworkSummary, Failure, Reply, Complaint, Call, Service, is_success, connection, connect,
  perform, lift, ◌>>=◌, pure, fail,
}
use whaleshell_driver.Podman.Network.{
  Verdict, used_prefixes, available_network_subnet, isolated_request, allocation_name, request_for,
  judge, attempt_create, create_loop, create_network,
}
use whaleshell_driver.Podman.Network.Subnets.{Lists, IsUnused}
use whaleshell_driver.Podman.Network.Choice.{available_network_subnet_sound}

judge-done :
    (internal : Bool) (r : Reply Complaint)
    → judge internal r ≡ ok Verdict.done
    → is_success r.code ≡ true
unfolding judge
judge-done internal r h = ground arith

module _ (svc : Service) (host name : Str) (labels : List (Str × Str)) where
  -- The last two calls of a creation: the networks were listed and the request accepted.
  abbrev pub Made : List Call → Type 0
  Made calls =
      (found : Prefix × Addr) × (before : List Call) × (networks : List NetworkSummary) × Lists svc
        before networks
      × IsUnused (used_prefixes svc networks) found
      × (calls
          ≡ Call.create_network (isolated_request name labels found) ∷ Call.list_networks ∷ before)
      × (reply : Reply Complaint) × (svc.created (Call.list_networks ∷ before)
            (isolated_request name labels found)
          ≡ some reply)
      × (is_success reply.code ≡ true)

  abbrev Done : Result Failure Verdict × List Call → Type 0
  Done (err why, calls) = Unit
  Done (ok Verdict.again, calls) = Unit
  Done (ok Verdict.done, calls) = Made calls

  attempt-Done :
      (attempt : ℕ) (calls : List Call)
      → Done (attempt_create svc host name true labels attempt calls)
  unfolding attempt_create request_for perform lift ◌>>=◌ pure
  attempt-Done attempt calls = go _ refl
    where
      answered :
          (found : Prefix × Addr) (networks : List NetworkSummary)
          → Lists svc calls networks
          → IsUnused (used_prefixes svc networks) found
          → (reply : Reply Complaint)
          → svc.created (Call.list_networks ∷ calls) (isolated_request name labels found)
            ≡ some reply
          → (v : Result Failure Verdict) → judge true reply ≡ v
          → Done (
            v,
            Call.create_network (isolated_request name labels found) ∷ Call.list_networks ∷ calls,
          )
      answered found networks listing unused reply got (err why) e = tt
      answered found networks listing unused reply got (ok Verdict.again) e = tt
      answered found networks listing unused reply got (ok Verdict.done) e =
          (found, calls, networks, listing, unused, refl, reply, got, judge-done true reply e)

      go :
          (out : Result Failure (Prefix × Addr) × List Call)
          → available_network_subnet svc host (allocation_name name attempt) calls ≡ out
          → Done (attempt_create svc host name true labels attempt calls)
      go (err why, calls') e = rw e tt
      go (ok found, calls') e =
          let (networks, listing, unused, at_end) =
            available_network_subnet_sound svc host (allocation_name name attempt) calls e in
          rw (e, at_end)
            (elim (Option-cases
              (svc.created (Call.list_networks ∷ calls) (isolated_request name labels found))) [
                | inl lost ↦ rw lost tt
                | inr (reply, got) ↦
                    rw got
                      (answered found networks listing unused reply got (judge true reply) refl)
              ])

  abbrev Finished : Result Failure (Unit {0}) × List Call → Type 0
  Finished (err why, calls) = Unit
  Finished (ok _, calls) = Made calls

  loop-Finished :
      (rounds attempt : ℕ) (calls : List Call)
      → Finished (create_loop svc host name true labels rounds attempt calls)
  unfolding create_loop ◌>>=◌ pure fail
  loop-Finished zero attempt calls = tt
  loop-Finished (suc rounds) attempt calls =
      go (λ calls'. loop-Finished rounds (attempt + 1) calls')
        (attempt_create svc host name true labels attempt calls) (attempt-Done attempt calls) refl
    where
      go :
          ((later : List Call)
            → Finished (create_loop svc host name true labels rounds (attempt + 1) later))
          → (out : Result Failure Verdict × List Call) → Done out
          → attempt_create svc host name true labels attempt calls ≡ out
          → Finished (create_loop svc host name true labels (suc rounds) attempt calls)
      go rest (err why, calls') made e = rw e tt
      go rest (ok Verdict.done, calls') made e = rw e made
      go rest (ok Verdict.again, calls') made e = rw e (rest calls')

  -- Where the creation of an internal network succeeds, its last two calls list the networks and
  -- post the request for an internal network with one subnet, which is unused among those listed,
  -- and a blackhole route to its gateway alone; the service accepted that request.
  pub create_network-Made :
      (calls : List Call) {calls' : List Call}
      → create_network svc host name true labels calls ≡ (ok tt, calls')
      → Made calls'
  unfolding create_network connect lift ◌>>=◌
  create_network-Made calls h = subst Finished h after_connection
    where
      after_connection : Finished (create_network svc host name true labels calls)
      after_connection = elim (Result-cases (connection svc host)) [
        | inr (why, bad) ↦ rw bad tt
        | inl (client, good) ↦ rw good (loop-Finished 32 0 calls)
      ]
