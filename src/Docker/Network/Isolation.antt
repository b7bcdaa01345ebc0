-- ===== src/Docker/Network/Isolation.antt =====
-- What `ensureNetwork` of internal/docker/docker.go has seen when it accepts an internal network.
use whaleshell_driver.Base.{
  Str, codes, Bool, true, false, not, ◌&&◌, List, [], ◌∷◌, ◌≡◌, refl, sym, Option, none, some,
  if◌then◌else◌, subst, arith,
}
use whaleshell_driver.Base.Assoc.{get}
use whaleshell_driver.Docker.Network.{
  gateway_mode_ipv4, gateway_mode_ipv6, is_isolated, mark_created, verify_native, accept_existing,
  remove_and_fail, create_native, isolated_options, create_engine, create_missing, network_found,
  ensure_network,
}
use whaleshell_driver.Engine.{
  Request, Event, NetworkSpec, NetworkInfo, World, pure, accepts, demand, send, ◌>>=◌,
}
use whaleshell_driver.Engine.Keeps.{
  Triple, Triple-bind, Triple-pure, Triple-fail, Triple-send, Triple-demand, Triple-attempt,
  Triple-require, Triple-weaken,
}
use whaleshell_driver.Errors.{Error}
use whaleshell_driver.Runtime.{Driver}

-- The newest event shows that the network cuts its containers off from the host.
pub data IsCutOff (d : Driver) (net : Str) : List Event → Type 0 where
  created_isolated :
      {es : List Event} {spec : NetworkSpec}
      → spec.name ≡ net
      → spec.internal ≡ true
      → get gateway_mode_ipv4 spec.options ≡ codes "isolated"
      → get gateway_mode_ipv6 spec.options ≡ codes "isolated"
      → IsCutOff d net
          (record { request = Request.network_create spec; accepted = true; made = [] } ∷ es)
  verified :
      {es : List Event}
      → IsCutOff d net
          (record { request = Request.native_network_verify net; accepted = true; made = [] } ∷ es)
  found_isolated :
      {es : List Event} {info : NetworkInfo}
      → d.daemon.network es net ≡ some info
      → info.internal ≡ true
      → is_isolated info ≡ true
      → IsCutOff d net
          (record { request = Request.network_inspect net; accepted = true; made = [] } ∷ es)

module _ (d : Driver) (net name : Str) where
  abbrev pub Any : World → Type 0
  Any w = Unit

  abbrev pub CutOff : World → Type 0
  CutOff w = IsCutOff d net w.events

  -- The answer to the inspection is the newest event.
  abbrev Seen : Option NetworkInfo → World → Type 0
  Seen o w =
      (es : List Event) × (d.daemon.network es net ≡ o)
      × (w.events
          ≡ record { request = Request.network_inspect net; accepted = accepts o; made = [] } ∷ es)

  Triple-verify : {P : World → Type 0} → Triple P (verify_native d net) (λ _. CutOff) Any
  unfolding verify_native
  Triple-verify = Triple-demand _ _ _ (λ w h. verified) (λ w h. tt)

  Seen-CutOff :
      (info : NetworkInfo) (w : World)
      → Seen (some info) w
      → info.internal ≡ true
      → is_isolated info ≡ true
      → CutOff w
  Seen-CutOff info w (es, answered, newest) internal isolated =
      subst (IsCutOff d net) (sym newest) (found_isolated answered internal isolated)

  Triple-by_verify :
      (info : NetworkInfo) (b : Bool)
      → Triple
          (λ w.
            (Seen (some info) w × (not (not info.internal) ≡ true))
            × (not (not b && not (is_isolated info)) ≡ true))
          (if b then verify_native d net else pure tt)
          (λ _. CutOff)
          Any
  Triple-by_verify info true = Triple-verify
  Triple-by_verify info false =
      Triple-pure tt λ w h. Seen-CutOff info w h.0.0 (grind (arith, h)) (grind (arith, h))

  Triple-accept_existing :
      (info : NetworkInfo)
      → Triple (Seen (some info)) (accept_existing d net true info) (λ _. CutOff) Any
  unfolding accept_existing
  Triple-accept_existing info = Triple-bind _ _ (Triple-require _ _ (λ w h. tt)) λ _.
      Triple-bind _ _ (Triple-require _ _ (λ w h. tt))
        λ _. Triple-by_verify info d.runtime_config.native_network_verify

  -- The guard of `ensureNetwork` for an internal network.
  abbrev Verifiable : Bool → Bool → World → Type 0
  Verifiable native verify w = not (native && not verify) ≡ true

  Triple-remove_and_fail :
      (o : Option (Unit {0}))
      → Triple (λ w. o ≡ some tt → CutOff w) (remove_and_fail d net o) (λ _. CutOff) Any
  unfolding remove_and_fail
  Triple-remove_and_fail (some tt) = Triple-pure tt (λ w h. h refl)
  Triple-remove_and_fail none =
      Triple-bind {Q = λ _. Any} _ _ (Triple-send _ _ (λ accepted w h. tt))
        λ _. Triple-fail _ (λ w h. tt)

  accepted_verify :
      (o : Option (Unit {0})) (es : List Event)
      → o ≡ some tt
      → IsCutOff d net (
          record { request = Request.native_network_verify net; accepted = accepts o; made = [] }
          ∷ es)
  accepted_verify none es h = cc
  accepted_verify (some u) es h = verified

  Triple-create_native :
      Triple
        (Verifiable true d.runtime_config.native_network_verify)
        (create_native d net name true)
        (λ _. CutOff)
        Any
  unfolding create_native send
  Triple-create_native = chosen _ _ d.runtime_config.native_network_verify
    where
      chosen :
          (req : Request) (e : Error) (b : Bool)
          → Triple
              (Verifiable true b)
              (demand d.daemon req e >>= λ _.
                if b
                then send d.daemon (Request.native_network_verify net) >>= remove_and_fail d net
                else pure tt)
              (λ _. CutOff)
              Any
      chosen req e true =
          Triple-bind {Q = λ _. Any} _ _ (Triple-demand _ _ _ (λ w h. tt) (λ w h. tt)) λ _.
            Triple-bind _ _
              (Triple-attempt {Q = λ o w. o ≡ some tt → CutOff w} _ _
                λ w h. accepted_verify _ w.events)
              Triple-remove_and_fail
      chosen req e false =
          Triple-bind {Q = λ _. CutOff} _ _ (Triple-demand _ _ _ (λ w h. cc) (λ w h. tt))
            λ _. Triple-pure tt λ w h. h

  Triple-create_engine :
      {P : World → Type 0} → Triple P (create_engine d net name true) (λ _. CutOff) Any
  unfolding create_engine isolated_options get
  Triple-create_engine =
      Triple-demand _ _ _ (λ w h. created_isolated refl refl refl refl) (λ w h. tt)

  Triple-create_missing :
      Triple
        (Verifiable d.runtime_config.native_network_create d.runtime_config.native_network_verify)
        (create_missing d net name true)
        (λ _. CutOff)
        Any
  unfolding create_missing
  Triple-create_missing = chosen d.runtime_config.native_network_create
    where
      chosen :
          (native : Bool)
          → Triple
              (Verifiable native d.runtime_config.native_network_verify)
              (if native then create_native d net name true else create_engine d net name true)
              (λ _. CutOff)
              Any
      chosen true = Triple-create_native
      chosen false = Triple-create_engine

  Triple-mark_created : (b : Bool) → Triple CutOff (mark_created b) (λ _. CutOff) Any
  unfolding mark_created pure
  Triple-mark_created b = record { at = λ w h. h }

  Triple-network_found :
      (o : Option NetworkInfo)
      → Triple
          (λ w.
            Seen o w
            × Verifiable d.runtime_config.native_network_create
                d.runtime_config.native_network_verify w)
          (network_found d net name true o)
          (λ _. CutOff)
          Any
  unfolding network_found
  Triple-network_found (some info) =
      Triple-bind _ _
        (Triple-weaken _ (λ w h. h.0) (λ _ w h. h) (λ w h. h) (Triple-accept_existing info))
        λ _. Triple-mark_created false
  Triple-network_found none =
      Triple-bind _ _ (Triple-weaken _ (λ w h. h.1) (λ _ w h. h) (λ w h. h) Triple-create_missing)
        λ _. Triple-mark_created true

  pub Triple-ensure_network : Triple Any (ensure_network d net name true) (λ _. CutOff) Any
  unfolding ensure_network
  Triple-ensure_network = Triple-bind _ _ (Triple-require _ _ (λ w h. tt)) λ _.
      Triple-bind _ _
        (Triple-attempt
          {Q = λ o w.
            Seen o w
            × Verifiable d.runtime_config.native_network_create
                d.runtime_config.native_network_verify w}
          _ _ λ w h. ((w.events, refl, refl), h.1))
        λ o. Triple-network_found o
