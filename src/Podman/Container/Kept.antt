-- ===== src/Podman/Container/Kept.antt =====
-- Which mount or volume of the native request of internal/podman/libpod_create.go stands for a bind or a
-- mount of the container.
use whaleshell_driver.Base.{
  Str, codes, ◌==◌, ==_iff, split, is_nil, Bool, true, false, List, [], ◌∷◌, ◌++◌, if◌then◌else◌,
  Option, none, some, Result, ok, >>=-eq-ok, ok-inj, reject_if, ◌≡◌, ◌⊎◌, inl, inr, refl, sym,
  subst, ap, ◌∙◌, not, All, Exists, Bool-cases, map,
}
use whaleshell_driver.Engine.{Mount, MountType, BindOptions, CreateOptions}
use whaleshell_driver.Engine.Resources.{All-map}
use whaleshell_driver.GoPath.{is_abs}
use whaleshell_driver.Podman.Container.{NativeMount, NativeVolume, SpecError}
use whaleshell_driver.Podman.Container.Build.{placed}
use whaleshell_driver.Podman.Container.Storage.{
  Placed, holds, place_bind, bind_of, translate_bind, bind_options, tmpfs_options, translated,
  translate_mount, if_set, volume_refused, translate_tmpfs, sort_targets, each, mounts_of,
  volumes_of,
}

abbrev Has : Str → List Str → Type 0
Has o = Exists (λ x. x ≡ o)

-- The parts of a bind: the options are the third, parted at the commas, or none.
abbrev pub HasParts : Str → Str → Str → List Str → Type 0
HasParts bind source target options =
    ((split bind b':' ≡ source ∷ target ∷ []) × (options ≡ []))
    ⊎ ((given : Str) × (split bind b':' ≡ source ∷ target ∷ given ∷ [])
        × (options ≡ split given b','))

-- What is sent for a bind with these parts: where the source is an absolute path, a bind mount of it at the
-- target, with the options and `rbind`; otherwise the volume of that name at the target.
abbrev pub IsPlaced : Str → Str → List Str → Placed → Type 0
IsPlaced source target options (Placed.mount n) =
    (is_abs source ≡ true)
    × (n.type ≡ codes "bind")
    × (n.source ≡ source)
    × (n.destination ≡ target)
    × ((n.options ≡ options) ⊎ (n.options ≡ options ++ codes "rbind" ∷ []))
    × Has (codes "rbind") n.options
IsPlaced source target options (Placed.volume v) =
    (is_abs source ≡ false) × (v.name ≡ source) × (v.dest ≡ target) × (v.options ≡ options)

abbrev pub IsBindOf : Str → Placed → Type 0
IsBindOf bind p =
    (source target : Str) × (options : List Str) × HasParts bind source target options
    × IsPlaced source target options p

-- `ro` first where the mount is read-only, and not otherwise.
abbrev access : Bool → List Str → List Str
access true options = codes "ro" ∷ options
access false options = options

abbrev when : Bool → Str → List Str
when true s = s ∷ []
when false s = []

-- The options of a bind mount: `rbind`, the propagation, and the two that limit the recursion.
abbrev pub options_of : Option BindOptions → List Str
options_of none = codes "rbind" ∷ []
options_of (some o) =
    codes "rbind"
    ∷ ((if is_nil o.propagation then [] else o.propagation ∷ [])
        ++ (when o.non_recursive (codes "bind-nonrecursive")
            ++ when o.read_only_non_recursive (codes "ro")))

-- What is sent for a mount.
abbrev pub IsMountOf : Mount → Placed → Type 0
IsMountOf m (Placed.mount n) =
    (n.source ≡ m.source)
    × (n.destination ≡ m.target)
    × (((m.type ≡ MountType.bind)
          × (n.type ≡ codes "bind")
          × (n.options ≡ access m.read_only (options_of m.bind_options)))
        ⊎ ((m.type ≡ MountType.tmpfs)
            × (n.type ≡ codes "tmpfs")
            × ((more : List Str) × (tmpfs_options m.tmpfs_options ≡ ok more)
                × (n.options ≡ access m.read_only more))))
IsMountOf m (Placed.volume v) =
    (m.type ≡ MountType.volume)
    × (v.name ≡ m.source)
    × (v.dest ≡ m.target)
    × (v.options ≡ (if m.read_only then codes "ro" else codes "rw") ∷ [])

-- A mount or a volume that is sent satisfies Q.
abbrev pub Sent : (Placed → Type 0) → List NativeMount → List NativeVolume → Type 0
Sent Q mounts volumes =
    Exists (λ n. Q (Placed.mount n)) mounts ⊎ Exists (λ v. Q (Placed.volume v)) volumes

sent :
    (Q : Placed → Type 0) (ps : List Placed) → Exists Q ps → Sent Q (mounts_of ps) (volumes_of ps)
unfolding mounts_of volumes_of
sent Q [] h = elim h [ ]
sent Q (Placed.mount n ∷ ps) (Exists.here h) = inl (Exists.here h)
sent Q (Placed.volume v ∷ ps) (Exists.here h) = inr (Exists.here h)
sent Q (Placed.mount n ∷ ps) (Exists.there h) = elim (sent Q ps h) [
  | inl a ↦ inl (Exists.there a)
  | inr b ↦ inr b
]
sent Q (Placed.volume v ∷ ps) (Exists.there h) = elim (sent Q ps h) [
  | inl a ↦ inl a
  | inr b ↦ inr (Exists.there b)
]

Exists-left : {A : Type 0} {P : A → Type 0} (xs ys : List A) → Exists P xs → Exists P (xs ++ ys)
Exists-left [] ys h = elim h [ ]
Exists-left (x ∷ xs) ys (Exists.here h) = Exists.here h
Exists-left (x ∷ xs) ys (Exists.there h) = Exists.there (Exists-left xs ys h)

Exists-right : {A : Type 0} {P : A → Type 0} (xs ys : List A) → Exists P ys → Exists P (xs ++ ys)
Exists-right [] ys h = h
Exists-right (x ∷ xs) ys h = Exists.there (Exists-right xs ys h)

All-there :
    {A B : Type 0} (Q : A → B → Type 0) (y : B) (ys : List B) (xs : List A)
    → All (λ x. Exists (Q x) ys) xs
    → All (λ x. Exists (Q x) (y ∷ ys)) xs
All-there Q y ys [] h = tt
All-there Q y ys (x ∷ xs) h = (Exists.there h.0, All-there Q y ys xs h.1)

each-All :
    {A B : Type 0} (Q : A → B → Type 0) (f : A → Result SpecError B)
    → ((x : A) (y : B) → f x ≡ ok y → Q x y)
    → (xs : List A) {ys : List B} → each f xs ≡ ok ys
    → All (λ x. Exists (Q x) ys) xs
each-All Q f g [] h = tt
each-All Q f g (x ∷ xs) h =
    let (y, first, rest) = >>=-eq-ok (f x) _ h in
    let (zs, later, last) = >>=-eq-ok (each f xs) _ rest in
    subst (λ ys. All (λ a. Exists (Q a) ys) (x ∷ xs)) (ok-inj last)
      (Exists.here (g x y first), All-there Q y zs xs (each-All Q f g xs later))

holds-Has : (o : Str) (os : List Str) → holds o os ≡ true → Has o os
holds-Has o [] h = absurd (cc h)
holds-Has o (x ∷ os) h = elim (Bool-cases (x == o)) [
  | inl same ↦ Exists.here ((==_iff x o).0 same)
  | inr other ↦ Exists.there (holds-Has o os (rw other at h))
]

Has-last : (o : Str) (os : List Str) → Has o (os ++ o ∷ [])
Has-last o os = Exists-right os (o ∷ []) (Exists.here refl)

place_bind-IsPlaced :
    (source target : Str) (options : List Str)
    → IsPlaced source target options (place_bind source target options)
unfolding place_bind
place_bind-IsPlaced source target options = elim (Bool-cases (is_abs source)) [
  | inr relative ↦ rw relative (relative, refl, refl, refl)
  | inl rooted ↦ elim (Bool-cases (holds (codes "rbind") options)) [
    | inl given ↦
        rw (rooted, given)
          (rooted, refl, refl, refl, inl refl, holds-Has (codes "rbind") options given)
    | inr added ↦
        rw (rooted, added) (rooted, refl, refl, refl, inr refl, Has-last (codes "rbind") options)
  ]
]

bind_of-IsBindOf :
    (bind : Str) (parts : List Str) {p : Placed}
    → split bind b':' ≡ parts
    → bind_of bind parts ≡ ok p
    → IsBindOf bind p
bind_of-IsBindOf bind (source ∷ target ∷ []) e h =
    subst (IsBindOf bind) (ok-inj h)
      (source, target, [], inl (e, refl), place_bind-IsPlaced source target [])
bind_of-IsBindOf bind (source ∷ target ∷ given ∷ []) e h = subst (IsBindOf bind) (ok-inj h) (
  source,
  target,
  split given b',',
  inr (given, e, refl),
  place_bind-IsPlaced source target (split given b','),
)
bind_of-IsBindOf bind _ e h = absurd (cc h)

translate_bind-IsBindOf : (bind : Str) (p : Placed) → translate_bind bind ≡ ok p → IsBindOf bind p
unfolding translate_bind
translate_bind-IsBindOf bind p h = bind_of-IsBindOf bind (split bind b':') refl h

if_set-when : (b : Bool) (o : Str) → if_set b o ≡ when b o
if_set-when true o = refl
if_set-when false o = refl

if_set-not : (b : Bool) (o : Str) → if_set (not b) o ≡ (if b then [] else o ∷ [])
if_set-not true o = refl
if_set-not false o = refl

if_set-access : (b : Bool) (os : List Str) → if_set b (codes "ro") ++ os ≡ access b os
if_set-access true os = refl
if_set-access false os = refl

bind_options-ok :
    (o : Option BindOptions) {os : List Str}
    → bind_options o ≡ ok os
    → options_of o ≡ codes "rbind" ∷ os
bind_options-ok none h = cc h
bind_options-ok (some o) h =
    let (_, a, h1) = >>=-eq-ok (reject_if o.create_mountpoint SpecError.create_mountpoint) _ h in
    let (_, b, last) =
      >>=-eq-ok (reject_if o.read_only_force_recursive SpecError.force_recursive) _ h1 in
    rw
      (
        sym (if_set-not (is_nil o.propagation) o.propagation),
        sym (if_set-when o.non_recursive (codes "bind-nonrecursive")),
        sym (if_set-when o.read_only_non_recursive (codes "ro")),
      )
      (ap (λ os. codes "rbind" ∷ os) (ok-inj last))

translated-IsMountOf :
    (type : MountType) (m : Mount) {p : Placed}
    → m.type ≡ type
    → translated type m ≡ ok p
    → IsMountOf m p
translated-IsMountOf MountType.bind m e h =
    let (os, got, last) = >>=-eq-ok (bind_options m.bind_options) _ h in
    subst (IsMountOf m) (ok-inj last) (
      refl,
      refl,
      inl (
        e,
        refl,
        if_set-access m.read_only (codes "rbind" ∷ os)
            ∙ ap (access m.read_only) (sym (bind_options-ok m.bind_options got)),
      ),
    )
translated-IsMountOf MountType.tmpfs m e h =
    let (os, got, last) = >>=-eq-ok (tmpfs_options m.tmpfs_options) _ h in
    subst (IsMountOf m) (ok-inj last)
      (refl, refl, inr (e, refl, (os, got, if_set-access m.read_only os)))
translated-IsMountOf MountType.volume m e h =
    let (_, got, last) = >>=-eq-ok (volume_refused m.volume_options) _ h in
    subst (IsMountOf m) (ok-inj last) (e, refl, refl, refl)
translated-IsMountOf _ m e h = absurd (cc h)

translate_mount-IsMountOf : (m : Mount) (p : Placed) → translate_mount m ≡ ok p → IsMountOf m p
unfolding translate_mount
translate_mount-IsMountOf m p h = translated-IsMountOf m.type m refl h

-- Every bind and every mount that is asked for is sent.
pub placed-Sent :
    (o : CreateOptions) {ps : List Placed}
    → placed o ≡ ok ps
    → All (λ b. Sent (IsBindOf b) (mounts_of ps) (volumes_of ps)) o.host.binds
      × All (λ m. Sent (IsMountOf m) (mounts_of ps) (volumes_of ps)) o.host.mounts
unfolding placed
placed-Sent o {ps} h =
    let (binds, first, rest) = >>=-eq-ok (each translate_bind o.host.binds) _ h in
    let (mounts, second, last) = >>=-eq-ok (each translate_mount o.host.mounts) _ rest in
    let temporary = map translate_tmpfs (sort_targets o.host.tmpfs) in
    subst
      (λ ps.
        All (λ b. Sent (IsBindOf b) (mounts_of ps) (volumes_of ps)) o.host.binds
        × All (λ m. Sent (IsMountOf m) (mounts_of ps) (volumes_of ps)) o.host.mounts)
      (ok-inj last)
      (
        All-map o.host.binds
            (λ b e. sent (IsBindOf b) _ (Exists-left binds (mounts ++ temporary) e))
            (each-All IsBindOf translate_bind translate_bind-IsBindOf o.host.binds first),
        All-map o.host.mounts
            (λ m e.
              sent (IsMountOf m) _
                (Exists-right binds (mounts ++ temporary) (Exists-left mounts temporary e)))
            (each-All IsMountOf translate_mount translate_mount-IsMountOf o.host.mounts second),
      )
