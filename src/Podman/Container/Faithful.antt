-- ===== src/Podman/Container/Faithful.antt =====
-- What the native request of internal/podman/libpod_create.go keeps of the container that was asked for.
use whaleshell_driver.Base.{
  ok-inj, Str, codes, ◌==◌, ==_iff, cut, is_nil, length, eqb, ltb, Bool, true, false, not, ◌&&◌,
  ◌||◌, List, [], ◌∷◌, if◌then◌else◌, Option, none, some, Result, ok, err, >>=-eq-ok, reject_if,
  reject_if-eq-ok, ◌≡◌, ◌≤◌, ◌<◌, ◌+◌, ◌^◌, refl, ◌∙◌, All, Bool-cases, inl, inr, arith, subst,
}
use whaleshell_driver.Base.Assoc.{find, find-insert}
use whaleshell_driver.Engine.{CreateOptions}
use whaleshell_driver.Podman.Userns.{
  IdMapping, MapError, validate_id_map, mode_of, params_of, is_set,
}
use whaleshell_driver.Podman.Container.{NativeSpec, SpecError}
use whaleshell_driver.Podman.Container.Counts.{length-storage}
use whaleshell_driver.Podman.Container.Kept.{Sent, IsBindOf, IsMountOf, placed-Sent}
use whaleshell_driver.Podman.Container.Build.{
  cdi_devices, env_map, put_entry, hardening, no_new_privileges, port_mappings, check_userns,
  placed, build_native_spec, is_native_mode, named,
}

-- The variable that an entry sets: all of it where it has no `=`.
abbrev pub variable_of : Str → Option (Str × Str) → Str × Str
variable_of item none = (item, [])
variable_of item (some (key, value)) = (key, value)

-- The value that the last entry for the variable gives it.
unfoldable pub last_value : Str → List Str → Option Str
unfolding cut
last_value k [] = none
last_value k (item ∷ rest) =
    let (key, value) = variable_of item (cut item b'=') in
    elim (last_value k rest) [ some v ↦ some v | none ↦ if key == k then some value else none ]

abbrev or : Option Str → Option Str → Option Str
or (some v) o = some v
or none o = o

put_entry-lem :
    (k item : Str) (m : List (Str × Str)) (parts : Option (Str × Str))
    → find k (put_entry item parts m)
      ≡ (if (variable_of item parts).0 == k then some (variable_of item parts).1 else find k m)
put_entry-lem k item m none = find-insert item k [] m
put_entry-lem k item m (some (key, value)) = find-insert key k value m

find-env_map :
    (k : Str) (m : List (Str × Str)) (env : List Str)
    → find k (env_map m env) ≡ or (last_value k env) (find k m)
unfolding env_map last_value
find-env_map k m [] = refl
find-env_map k m (item ∷ rest) =
    find-env_map k (put_entry item (cut item b'=') m) rest
    ∙ later (last_value k rest) (variable_of item (cut item b'='))
        (put_entry-lem k item m (cut item b'='))
  where
    later :
        (o : Option Str) (v : Str × Str) {found : Option Str}
        → found ≡ (if v.0 == k then some v.1 else find k m)
        → or o found
          ≡ or (elim o [ some x ↦ some x | none ↦ if v.0 == k then some v.1 else none ]) (find k m)
    later (some x) v e = refl
    later none v e = ground arith

hardened-only :
    (opts : List Str) {b : Bool}
    → no_new_privileges opts ≡ ok b
    → All (λ o. o ≡ hardening) opts × (b ≡ not (is_nil opts))
unfolding no_new_privileges
hardened-only [] h = (tt, ground arith)
hardened-only (o ∷ rest) h = elim (Bool-cases (o == hardening)) [
  | inr other ↦ (let h' = rw other at h in cc h')
  | inl same ↦
      (let h' = rw same at h in
        let (c, inner, last) = >>=-eq-ok (no_new_privileges rest) (λ _. ok true) h' in
        (((==_iff o hardening).0 same, (hardened-only rest inner).0), ground arith))
]

-- The mapping ends within 32 bits on both sides, and is not empty.
pub record InRange (m : IdMapping) : Type 0 where
  pub positive : 0 < m.size
  pub container_end : m.container_id + m.size ≤ 2 ^ 32
  pub host_end : m.host_id + m.size ≤ 2 ^ 32

validate_id_map-InRange : (ms : List IdMapping) → validate_id_map ms ≡ ok tt → All InRange ms
unfolding validate_id_map
validate_id_map-InRange [] h = tt
validate_id_map-InRange (m ∷ rest) h = elim (Bool-cases (eqb m.size 0)) [
  | inl empty ↦ (let h' = rw empty at h in cc h')
  | inr filled ↦
      (let h1 = rw filled at h in
        elim (Bool-cases
          (ltb (2 ^ 32) (m.container_id + m.size) || ltb (2 ^ 32) (m.host_id + m.size))) [
            | inl past ↦ (let h2 = rw past at h1 in cc h2)
            | inr within ↦ (
              record {
                positive = ground arith;
                container_end = ground arith;
                host_end = ground arith;
              },
              validate_id_map-InRange rest (rw within at h1),
            )
          ])
]

-- What a request that is built keeps, and what it never holds.
pub record IsFaithful (o : CreateOptions) (uids gids : List IdMapping) (s : NativeSpec)
    : Type 0 where
  pub env : (k : Str) → find k s.env ≡ last_value k o.config.env
  pub only_hardening : All (λ x. x ≡ hardening) o.host.security_opt
  pub hardened : s.no_new_privileges ≡ not (is_nil o.host.security_opt)
  pub capabilities : (s.cap_drop ≡ o.host.cap_drop) × (s.cap_add ≡ o.host.cap_add)
  pub attached : s.networks ≡ o.endpoints
  pub unprivileged : o.host.privileged ≡ false
  pub storage :
      length s.mounts + length s.volumes
      ≡ length o.host.binds + (length o.host.mounts + length o.host.tmpfs)
  pub binds : All (λ b. Sent (IsBindOf b) s.mounts s.volumes) o.host.binds
  pub mounted : All (λ m. Sent (IsMountOf m) s.mounts s.volumes) o.host.mounts
  pub uids_in_range : All InRange uids
  pub gids_in_range : All InRange gids

named-ok :
    (kind : Str) (r : Result MapError (Unit {0})) {u : Unit {0}} → named kind r ≡ ok u → r ≡ ok tt
named-ok kind (ok _) h = refl
named-ok kind (err why) h = cc

or-none : (o : Option Str) → or o none ≡ o
or-none none = refl
or-none (some v) = refl

checked_maps :
    (mode : Str) (value : Option Str) (uids gids : List IdMapping)
    → check_userns mode value uids gids ≡ ok tt
    → All InRange uids × All InRange gids
unfolding check_userns
checked_maps mode value uids gids h =
    let (_, a, h1) =
      >>=-eq-ok (reject_if (not (is_native_mode mode)) (SpecError.unsupported_mode mode)) _ h in
    let (_, b, h2) =
      >>=-eq-ok
        (reject_if ((mode == codes "host" || mode == codes "no-map") && is_set value)
          (SpecError.mode_takes_no_parameters mode))
        _ h1 in
    let (_, c, h3) =
      >>=-eq-ok
        (reject_if (mode == codes "auto" && (not (is_nil uids) || not (is_nil gids)))
          SpecError.auto_with_maps)
        _ h2 in
    let (_, d, h4) =
      >>=-eq-ok
        (reject_if
          (mode == codes "private"
            && (is_nil uids || (is_nil gids || not (eqb (length uids) (length gids)))))
          SpecError.private_without_maps)
        _ h3 in
    let (_, e, h5) =
      >>=-eq-ok
        (reject_if (not (mode == codes "private") && (not (is_nil uids) || not (is_nil gids)))
          SpecError.maps_without_private)
        _ h4 in
    let (_, f, g) = >>=-eq-ok (named (codes "UID") (validate_id_map uids)) _ h5 in
    (
      validate_id_map-InRange uids (named-ok (codes "UID") (validate_id_map uids) f),
      validate_id_map-InRange gids (named-ok (codes "GID") (validate_id_map gids) g),
    )

-- A native request that is built drops no storage, keeps the capabilities and the networks, gives each
-- variable the value of its last entry, sets no_new_privileges exactly where a security option was
-- given, all of which ask for it, is not for a privileged container, and every entry of its ID maps
-- is not empty and ends within 32 bits.
pub build_native_spec-IsFaithful :
    (o : CreateOptions) (userns : Str) (uids gids : List IdMapping) {s : NativeSpec}
    → build_native_spec o userns uids gids ≡ ok s
    → IsFaithful o uids gids s
unfolding build_native_spec find
build_native_spec-IsFaithful o userns uids gids h =
    let (_, a, h1) = >>=-eq-ok (reject_if (is_nil userns) SpecError.no_userns_mode) _ h in
    let (_, b, h2) = >>=-eq-ok (reject_if o.host.privileged SpecError.privileged) _ h1 in
    let (_, c, h3) =
      >>=-eq-ok
        (reject_if (not (is_nil o.host.devices) || not (is_nil o.host.volumes_from))
          SpecError.unrepresentable_devices)
        _ h2 in
    let (_, d, h4) = >>=-eq-ok (cdi_devices o.host.device_requests) _ h3 in
    let (hard, e, h5) = >>=-eq-ok (no_new_privileges o.host.security_opt) _ h4 in
    let (_, f, h6) = >>=-eq-ok (port_mappings o.host.port_bindings) _ h5 in
    let (_, g, h7) =
      >>=-eq-ok
        (check_userns (mode_of userns (cut userns b':')) (params_of (cut userns b':')) uids gids) _
        h6 in
    let (ps, st, last) = >>=-eq-ok (placed o) _ h7 in
    let maps =
      checked_maps (mode_of userns (cut userns b':')) (params_of (cut userns b':')) uids gids g in
    let only = hardened-only o.host.security_opt e in
    subst (IsFaithful o uids gids) (ok-inj last) (record {
      env = λ k. find-env_map k [] o.config.env ∙ or-none (last_value k o.config.env);
      only_hardening = only.0;
      hardened = only.1;
      capabilities = (refl, refl);
      attached = refl;
      unprivileged = reject_if-eq-ok o.host.privileged SpecError.privileged b;
      storage = length-storage o st;
      binds = (placed-Sent o st).0;
      mounted = (placed-Sent o st).1;
      uids_in_range = maps.0;
      gids_in_range = maps.1;
    })
