-- ===== src/Podman/Create/Request.antt =====
-- What nativeCreate of internal/podman/libpod_create.go has asked for when it returns a container.
use whaleshell_driver.Base.{
  ok-inj, Str, is_nil, List, [], ◌∷◌, ◌≡◌, refl, ap, sym, Option, none, some, Result, ok, err,
  Result-cases, inl, inr, Bool-cases, true, false, subst,
}
use whaleshell_driver.Engine.{CreateOptions}
use whaleshell_driver.Podman.Container.{NativeSpec}
use whaleshell_driver.Podman.Container.Build.{build_native_spec}
use whaleshell_driver.Podman.Create.{native_create, created_id, id_of}
use whaleshell_driver.Podman.Service.{
  Service, Call, CreateReply, Failure, HttpClient, continue, lift, connect, connection, perform,
  received, is_success, ◌>>=◌,
}
use whaleshell_driver.Podman.Userns.{IdMapping}

id_of-some : (ids : Option (Str × Str)) (id : Str) → id_of ids ≡ ok id → is_nil id ≡ false
id_of-some none id h = absurd (cc h)
id_of-some (some ([], [])) id h = absurd (cc h)
id_of-some (some ([], d ∷ lower)) id h = subst (λ i. is_nil i ≡ false) (ok-inj h) refl
id_of-some (some (c ∷ upper, lower)) id h = subst (λ i. is_nil i ≡ false) (ok-inj h) refl

created_id-some :
    (r : CreateReply) (id : Str)
    → created_id r ≡ ok id
    → (is_success r.code ≡ true) × (is_nil id ≡ false)
created_id-some r id h = elim (Bool-cases (is_success r.code)) [
  | inl yes_ ↦ (yes_, id_of-some r.ids id (rw yes_ at h))
  | inr no_ ↦ absurd (cc (rw no_ at h))
]

-- What a container was made from.
pub record IsAsked (svc : Service) (s : NativeSpec) (id : Str) (calls after : List Call)
    : Type 0 where
  pub asked : after ≡ Call.create_container s ∷ calls
  pub reply : CreateReply
  pub answered : svc.containers calls s ≡ some reply
  pub accepted : is_success reply.code ≡ true
  pub named : is_nil id ≡ false

after_connection :
    (svc : Service) (s : NativeSpec) (answer : Option CreateReply) (calls : List Call) {id : Str}
    {after : List Call}
    → svc.containers calls s ≡ answer
    → continue (received answer) (λ r. lift (created_id r)) (Call.create_container s ∷ calls)
      ≡ (ok id, after)
    → IsAsked svc s id calls after
unfolding lift
after_connection svc s none calls e h = absurd (cc h)
after_connection svc s (some r) calls e h =
    let (accepted, named) = created_id-some r _ (ap (λ p. p.0) h) in
    record {
      asked = sym (ap (λ p. p.1) h);
      reply = r;
      answered = e;
      accepted = accepted;
      named = named;
    }

after_spec :
    (svc : Service) (host : Str) (s : NativeSpec) (r : Result Failure HttpClient)
    (calls : List Call) {id : Str} {after : List Call}
    → continue r
        (λ c. perform (Call.create_container s) (λ h. svc.containers h s) >>= λ reply.
          lift (created_id reply))
        calls
      ≡ (ok id, after)
    → IsAsked svc s id calls after
unfolding perform ◌>>=◌
after_spec svc host s (ok client) calls h =
    after_connection svc s (svc.containers calls s) calls refl h
after_spec svc host s (err why) calls h = absurd (cc h)

-- Where the native creation of a container returns, its request could be translated, exactly that
-- translation was sent, in one call, and the service accepted it; the identifier is not empty.
pub native_create-IsAsked :
    (svc : Service) (host userns : Str) (uids gids : List IdMapping) (options : CreateOptions)
    (calls : List Call) {id : Str} {after : List Call}
    → native_create svc host userns uids gids options calls ≡ (ok id, after)
    → (s : NativeSpec) × (build_native_spec options userns uids gids ≡ ok s)
      × IsAsked svc s id calls after
unfolding native_create lift ◌>>=◌ connect
native_create-IsAsked svc host userns uids gids options calls h =
    elim (Result-cases (build_native_spec options userns uids gids)) [
      | inl (s, built) ↦
          (s, built, after_spec svc host s (connection svc host) calls (rw built at h))
      | inr (why, failed) ↦ absurd (cc (rw failed at h))
    ]
