-- ===== src/Engine/Resources.antt =====
-- What a history of requests leaves on the daemon if every removal that is called succeeds: what was made
-- and not asked to be removed since. Leftovers counts only the removals that succeed.
use whaleshell_driver.Base.{
  Str, ◌==◌, Bool, true, false, not, ◌||◌, List, [], ◌∷◌, keep, All, ◌≡◌, refl, Bool-cases, inl,
  inr,
}
use whaleshell_driver.Engine.{Request, Event}

abbrev pub add_if : {A : Type 0} → Bool → A → List A → List A
add_if false a xs = xs
add_if true a xs = a ∷ xs

unfoldable pub volume_effect : Request → Bool → List Str → List Str
volume_effect (Request.volume_create v) accepted vs = add_if accepted v vs
volume_effect (Request.volume_remove v) accepted vs = keep (λ u. not (u == v)) vs
volume_effect _ accepted vs = vs

-- The volumes that were created and not removed since.
unfoldable pub live_volumes : List Event → List Str
unfolding volume_effect
live_volumes [] = []
live_volumes (e ∷ es) = volume_effect e.request e.accepted (live_volumes es)

unfoldable pub network_effect : Request → Bool → List Str → List Str
network_effect (Request.network_create spec) accepted ns = add_if accepted spec.name ns
network_effect (Request.native_network_create spec) accepted ns = add_if accepted spec.name ns
network_effect (Request.network_remove n) accepted ns = keep (λ m. not (m == n)) ns
network_effect _ accepted ns = ns

unfoldable pub live_networks : List Event → List Str
unfolding network_effect
live_networks [] = []
live_networks (e ∷ es) = network_effect e.request e.accepted (live_networks es)

-- A container answers to its ID and to its name.
abbrev pub answers_to : Str → Str × Str → Bool
answers_to target (id, name) = id == target || name == target

unfoldable pub container_effect : Request → Bool → Str → List (Str × Str) → List (Str × Str)
container_effect (Request.container_create options) accepted id cs =
    add_if accepted (id, options.name) cs
container_effect (Request.native_container_create options) accepted id cs =
    add_if accepted (id, options.name) cs
container_effect (Request.container_remove target) accepted id cs =
    keep (λ c. not (answers_to target c)) cs
container_effect _ accepted id cs = cs

-- The containers, each with its ID and its name.
unfoldable pub live_containers : List Event → List (Str × Str)
unfolding container_effect
live_containers [] = []
live_containers (e ∷ es) = container_effect e.request e.accepted e.made (live_containers es)

-- The request makes no volume, network or container.
unfoldable pub makes_nothing : Request → Bool
makes_nothing (Request.volume_create v) = false
makes_nothing (Request.network_create spec) = false
makes_nothing (Request.native_network_create spec) = false
makes_nothing (Request.container_create options) = false
makes_nothing (Request.native_container_create options) = false
makes_nothing _ = true

module _ {A : Type 0} (P : A → Type 0) where
  pub All-keep : (p : A → Bool) (xs : List A) → All P xs → All P (keep p xs)
  All-keep p [] h = tt
  All-keep p (x ∷ xs) h = elim (Bool-cases (p x)) [
    | inl stays ↦ rw stays (h.0, All-keep p xs h.1)
    | inr goes ↦ rw goes (All-keep p xs h.1)
  ]

  -- What is left satisfies P if it did or failed the test.
  pub All-keep_of :
      (p : A → Bool) (Q : A → Type 0) (xs : List A)
      → ((x : A) → Q x → p x ≡ true → P x)
      → All Q xs
      → All P (keep p xs)
  All-keep_of p Q [] f h = tt
  All-keep_of p Q (x ∷ xs) f h = elim (Bool-cases (p x)) [
    | inl stays ↦ rw stays (f x h.0 stays, All-keep_of p Q xs f h.1)
    | inr goes ↦ rw goes (All-keep_of p Q xs f h.1)
  ]

module _ (V N : Str → Type 0) (C : Str × Str → Type 0) where
  -- All that lives satisfies the three predicates.
  pub record Lives (es : List Event) : Type 0 where
    pub volumes : All V (live_volumes es)
    pub networks : All N (live_networks es)
    pub containers : All C (live_containers es)

  -- What the request makes satisfies them.
  abbrev pub Allowed : Request → Str → Type 0
  Allowed (Request.volume_create v) id = V v
  Allowed (Request.network_create spec) id = N spec.name
  Allowed (Request.native_network_create spec) id = N spec.name
  Allowed (Request.container_create options) id = C (id, options.name)
  Allowed (Request.native_container_create options) id = C (id, options.name)
  Allowed _ id = Unit

  pub makes_nothing-Allowed : (req : Request) (id : Str) → makes_nothing req ≡ true → Allowed req id
  unfolding makes_nothing
  makes_nothing-Allowed (Request.volume_create v) id n = cc
  makes_nothing-Allowed (Request.network_create spec) id n = cc
  makes_nothing-Allowed (Request.native_network_create spec) id n = cc
  makes_nothing-Allowed (Request.container_create options) id n = cc
  makes_nothing-Allowed (Request.native_container_create options) id n = cc
  makes_nothing-Allowed _ id n = tt

  All-add_if :
      {A : Type 0} (P : A → Type 0) (accepted : Bool) (a : A) (xs : List A)
      → (accepted ≡ true → P a)
      → All P xs
      → All P (add_if accepted a xs)
  All-add_if P true a xs f h = (f refl, h)
  All-add_if P false a xs f h = h

  volumes_step :
      (req : Request) (accepted : Bool) (id : Str) (vs : List Str)
      → (accepted ≡ true → Allowed req id)
      → All V vs
      → All V (volume_effect req accepted vs)
  unfolding volume_effect
  volumes_step (Request.volume_create v) accepted id vs f h = All-add_if V accepted v vs f h
  volumes_step (Request.volume_remove v) accepted id vs f h = All-keep V _ vs h
  volumes_step _ accepted id vs f h = h

  networks_step :
      (req : Request) (accepted : Bool) (id : Str) (ns : List Str)
      → (accepted ≡ true → Allowed req id)
      → All N ns
      → All N (network_effect req accepted ns)
  unfolding network_effect
  networks_step (Request.network_create s) accepted id ns f h = All-add_if N accepted s.name ns f h
  networks_step (Request.native_network_create s) accepted id ns f h =
      All-add_if N accepted s.name ns f h
  networks_step (Request.network_remove v) accepted id ns f h = All-keep N _ ns h
  networks_step _ accepted id ns f h = h

  containers_step :
      (req : Request) (accepted : Bool) (id : Str) (cs : List (Str × Str))
      → (accepted ≡ true → Allowed req id)
      → All C cs
      → All C (container_effect req accepted id cs)
  unfolding container_effect
  containers_step (Request.container_create s) accepted id cs f h =
      All-add_if C accepted (id, s.name) cs f h
  containers_step (Request.native_container_create s) accepted id cs f h =
      All-add_if C accepted (id, s.name) cs f h
  containers_step (Request.container_remove v) accepted id cs f h = All-keep C _ cs h
  containers_step _ accepted id cs f h = h

  -- A request that makes only what satisfies the predicates.
  pub Lives-step :
      (req : Request) (accepted : Bool) (id : Str) (es : List Event)
      → (accepted ≡ true → Allowed req id)
      → Lives es
      → Lives (record { request = req; accepted = accepted; made = id } ∷ es)
  unfolding live_volumes live_networks live_containers
  Lives-step req accepted id es f h = record {
    volumes = volumes_step req accepted id (live_volumes es) f h.volumes;
    networks = networks_step req accepted id (live_networks es) f h.networks;
    containers = containers_step req accepted id (live_containers es) f h.containers;
  }

module _ {V N : Str → Type 0} {C : Str × Str → Type 0} where
  pub Lives-neutral :
      (req : Request) (accepted : Bool) (id : Str) (es : List Event)
      → makes_nothing req ≡ true
      → Lives V N C es
      → Lives V N C (record { request = req; accepted = accepted; made = id } ∷ es)
  Lives-neutral req accepted id es n h =
      Lives-step V N C req accepted id es (λ _. makes_nothing-Allowed V N C req id n) h

module _ {A : Type 0} {P Q : A → Type 0} where
  pub All-map : (xs : List A) → ((x : A) → P x → Q x) → All P xs → All Q xs
  All-map [] f h = tt
  All-map (x ∷ xs) f h = (f x h.0, All-map xs f h.1)

All-any : {A : Type 0} (xs : List A) → All (λ (_ : A). Unit {0}) xs
All-any [] = tt
All-any (x ∷ xs) = (tt, All-any xs)

pub Lives-any : (es : List Event) → Lives (λ _. Unit) (λ _. Unit) (λ _. Unit) es
Lives-any es = record {
  volumes = All-any (live_volumes es);
  networks = All-any (live_networks es);
  containers = All-any (live_containers es);
}

module _ {V V' N N' : Str → Type 0} {C C' : Str × Str → Type 0} where
  pub Lives-map :
      (es : List Event)
      → ((v : Str) → V v → V' v)
      → ((n : Str) → N n → N' n)
      → ((c : Str × Str) → C c → C' c)
      → Lives V N C es
      → Lives V' N' C' es
  Lives-map es f g k h = record {
    volumes = All-map (live_volumes es) f h.volumes;
    networks = All-map (live_networks es) g h.networks;
    containers = All-map (live_containers es) k h.containers;
  }

-- The three removals: what is left failed the test for removal.
module _ {V V' N : Str → Type 0} {C : Str × Str → Type 0} where
  pub Lives-volume_remove :
      (v : Str) (accepted : Bool) (id : Str) (es : List Event)
      → ((u : Str) → V u → not (u == v) ≡ true → V' u)
      → Lives V N C es
      → Lives V' N C
          (record { request = Request.volume_remove v; accepted = accepted; made = id } ∷ es)
  unfolding live_volumes volume_effect live_networks network_effect live_containers container_effect
  Lives-volume_remove v accepted id es f h = record {
    volumes = All-keep_of V' _ V (live_volumes es) f h.volumes;
    networks = h.networks;
    containers = h.containers;
  }

module _ {V N N' : Str → Type 0} {C : Str × Str → Type 0} where
  pub Lives-network_remove :
      (n : Str) (accepted : Bool) (id : Str) (es : List Event)
      → ((m : Str) → N m → not (m == n) ≡ true → N' m)
      → Lives V N C es
      → Lives V N' C
          (record { request = Request.network_remove n; accepted = accepted; made = id } ∷ es)
  unfolding live_volumes volume_effect live_networks network_effect live_containers container_effect
  Lives-network_remove n accepted id es f h = record {
    volumes = h.volumes;
    networks = All-keep_of N' _ N (live_networks es) f h.networks;
    containers = h.containers;
  }

module _ {V N : Str → Type 0} {C C' : Str × Str → Type 0} where
  pub Lives-container_remove :
      (t : Str) (accepted : Bool) (id : Str) (es : List Event)
      → ((c : Str × Str) → C c → not (answers_to t c) ≡ true → C' c)
      → Lives V N C es
      → Lives V N C'
          (record { request = Request.container_remove t; accepted = accepted; made = id } ∷ es)
  unfolding live_volumes volume_effect live_networks network_effect live_containers container_effect
  Lives-container_remove t accepted id es f h = record {
    volumes = h.volumes;
    networks = h.networks;
    containers = All-keep_of C' _ C (live_containers es) f h.containers;
  }
