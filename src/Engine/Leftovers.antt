-- ===== src/Engine/Leftovers.antt =====
-- What a history of requests leaves on the daemon where a removal counts only if it succeeded: with each
-- resource stands whether a removal of it was called and failed since it was made.
use whaleshell_driver.Base.{
  Str, ◌==◌, Bool, true, false, not, ◌||◌, List, [], ◌∷◌, map, keep, All, ◌≡◌, refl, Bool-cases,
  ◌⊎◌, inl, inr, arith,
}
use whaleshell_driver.Engine.{Request, Event}
use whaleshell_driver.Engine.Resources.{
  Lives, add_if, answers_to, volume_effect, network_effect, container_effect, live_volumes,
  live_networks, live_containers,
}

-- A removal takes off what it names, or fails and leaves a note.
pub removed : {A : Type 0} → Bool → (A → Bool) → List (A × Bool) → List (A × Bool)
removed true hit xs = keep (λ x. not (hit x.0)) xs
removed false hit xs = map (λ x. (x.0, x.1 || hit x.0)) xs

pub volume_left : Request → Bool → List (Str × Bool) → List (Str × Bool)
volume_left (Request.volume_create v) accepted vs = add_if accepted (v, false) vs
volume_left (Request.volume_remove v) accepted vs = removed accepted (λ u. u == v) vs
volume_left _ accepted vs = vs

pub left_volumes : List Event → List (Str × Bool)
left_volumes [] = []
left_volumes (e ∷ es) = volume_left e.request e.accepted (left_volumes es)

pub network_left : Request → Bool → List (Str × Bool) → List (Str × Bool)
network_left (Request.network_create spec) accepted ns = add_if accepted (spec.name, false) ns
network_left (Request.native_network_create spec) accepted ns =
    add_if accepted (spec.name, false) ns
network_left (Request.network_remove n) accepted ns = removed accepted (λ m. m == n) ns
network_left _ accepted ns = ns

pub left_networks : List Event → List (Str × Bool)
left_networks [] = []
left_networks (e ∷ es) = network_left e.request e.accepted (left_networks es)

pub container_left : Request → Bool → Str → List ((Str × Str) × Bool) → List ((Str × Str) × Bool)
container_left (Request.container_create options) accepted id cs =
    add_if accepted ((id, options.name), false) cs
container_left (Request.native_container_create options) accepted id cs =
    add_if accepted ((id, options.name), false) cs
container_left (Request.container_remove target) accepted id cs =
    removed accepted (answers_to target) cs
container_left _ accepted id cs = cs

pub left_containers : List Event → List ((Str × Str) × Bool)
left_containers [] = []
left_containers (e ∷ es) = container_left e.request e.accepted e.made (left_containers es)

-- It satisfies P, or a removal of it failed.
abbrev pub Excused : {A : Type 0} → (A → Type 0) → A × Bool → Type 0
Excused P (x, refused) = (refused ≡ true) ⊎ P x

-- All that is left satisfies the three predicates, or a removal of it failed.
pub record Leaves (V N : Str → Type 0) (C : Str × Str → Type 0) (es : List Event) : Type 0 where
  pub volumes : All (Excused V) (left_volumes es)
  pub networks : All (Excused N) (left_networks es)
  pub containers : All (Excused C) (left_containers es)

module _ {A : Type 0} where
  -- What holds of all that was not asked to be removed is, of what is left, true or excused.
  Covers : List A → List (A × Bool) → Type 1
  Covers live left = (P : A → Type 0) → All P live → All (Excused P) left

  Covers-add :
      (b : Bool) (a : A) (live : List A) (left : List (A × Bool))
      → Covers live left
      → Covers (add_if b a live) (add_if b (a, false) left)
  unfolding Covers
  Covers-add true a live left c P h = (inr h.0, c P h.1)
  Covers-add false a live left c P h = c P h

  All-kept :
      (P : A → Type 0) (hit : A → Bool) (xs : List A)
      → All P (keep (λ x. not (hit x)) xs)
      → All (λ x. P x ⊎ (hit x ≡ true)) xs
  All-kept P hit [] h = tt
  All-kept P hit (x ∷ xs) h = elim (Bool-cases (hit x)) [
    | inl gone ↦ (inr gone, All-kept P hit xs (rw gone at h))
    | inr stays ↦ (let h' = rw stays at h in (inl h'.0, All-kept P hit xs h'.1))
  ]

  Excused-kept :
      (P : A → Type 0) (hit : A → Bool) (left : List (A × Bool))
      → All (Excused (λ x. P x ⊎ (hit x ≡ true))) left
      → All (Excused P) (removed true hit left)
  unfolding removed
  Excused-kept P hit [] h = tt
  Excused-kept P hit ((x, refused) ∷ left) h = elim (Bool-cases (hit x)) [
    | inl gone ↦ rw gone (Excused-kept P hit left h.1)
    | inr stays ↦ rw stays (still stays h.0, Excused-kept P hit left h.1)
  ]
    where
      still :
          hit x ≡ false → Excused (λ x. P x ⊎ (hit x ≡ true)) (x, refused) → Excused P (x, refused)
      still stays (inl r) = inl r
      still stays (inr (inl p)) = inr p
      still stays (inr (inr gone)) = absurd (ground (arith, stays, gone))

  Excused-marked :
      (P : A → Type 0) (hit : A → Bool) (left : List (A × Bool))
      → All (Excused (λ x. P x ⊎ (hit x ≡ true))) left
      → All (Excused P) (removed false hit left)
  unfolding removed
  Excused-marked P hit [] h = tt
  Excused-marked P hit ((x, refused) ∷ left) h = (noted h.0, Excused-marked P hit left h.1)
    where
      noted : Excused (λ x. P x ⊎ (hit x ≡ true)) (x, refused) → Excused P (x, refused || hit x)
      noted (inl r) = inl (rw r refl)
      noted (inr (inl p)) = inr p
      noted (inr (inr gone)) = inl (ground (arith, gone))

  Covers-removed :
      (b : Bool) (hit : A → Bool) (live : List A) (left : List (A × Bool))
      → Covers live left
      → Covers (keep (λ x. not (hit x)) live) (removed b hit left)
  unfolding Covers
  Covers-removed true hit live left c P h = Excused-kept P hit left (c _ (All-kept P hit live h))
  Covers-removed false hit live left c P h = Excused-marked P hit left (c _ (All-kept P hit live h))

Covers-volumes : (es : List Event) → Covers (live_volumes es) (left_volumes es)
unfolding live_volumes left_volumes volume_effect volume_left
Covers-volumes [] = unfold Covers in λ P h. tt
Covers-volumes (e ∷ es) = step e.request e.accepted (Covers-volumes es)
  where
    step :
        (req : Request) (b : Bool)
        → Covers (live_volumes es) (left_volumes es)
        → Covers (volume_effect req b (live_volumes es)) (volume_left req b (left_volumes es))
    step (Request.volume_create v) b c = Covers-add b v _ _ c
    step (Request.volume_remove v) b c = Covers-removed b (λ u. u == v) _ _ c
    step _ b c = c

Covers-networks : (es : List Event) → Covers (live_networks es) (left_networks es)
unfolding live_networks left_networks network_effect network_left
Covers-networks [] = unfold Covers in λ P h. tt
Covers-networks (e ∷ es) = step e.request e.accepted (Covers-networks es)
  where
    step :
        (req : Request) (b : Bool)
        → Covers (live_networks es) (left_networks es)
        → Covers (network_effect req b (live_networks es)) (network_left req b (left_networks es))
    step (Request.network_create s) b c = Covers-add b s.name _ _ c
    step (Request.native_network_create s) b c = Covers-add b s.name _ _ c
    step (Request.network_remove n) b c = Covers-removed b (λ m. m == n) _ _ c
    step _ b c = c

Covers-containers : (es : List Event) → Covers (live_containers es) (left_containers es)
unfolding live_containers left_containers container_effect container_left
Covers-containers [] = unfold Covers in λ P h. tt
Covers-containers (e ∷ es) = step e.request e.accepted e.made (Covers-containers es)
  where
    step :
        (req : Request) (b : Bool) (id : Str)
        → Covers (live_containers es) (left_containers es)
        → Covers
            (container_effect req b id (live_containers es))
            (container_left req b id (left_containers es))
    step (Request.container_create o) b id c = Covers-add b (id, o.name) _ _ c
    step (Request.native_container_create o) b id c = Covers-add b (id, o.name) _ _ c
    step (Request.container_remove t) b id c = Covers-removed b (answers_to t) _ _ c
    step _ b id c = c

pub Lives-Leaves :
    (V N : Str → Type 0) (C : Str × Str → Type 0) (es : List Event)
    → Lives V N C es
    → Leaves V N C es
unfolding Covers
Lives-Leaves V N C es h = record {
  volumes = Covers-volumes es V h.volumes;
  networks = Covers-networks es N h.networks;
  containers = Covers-containers es C h.containers;
}
