-- ===== src/Docker/Lifecycle/Lookup.antt =====
-- `ContainerIP` of internal/docker/docker.go: which of the container's addresses it gives.
use whaleshell_driver.Base.{
  Str, ◌==◌, List, [], ◌∷◌, none, some, ◌≡◌, ◌≢◌, refl, ◌⊎◌, inl, inr, All, Exists, Option-cases,
  Bool-cases,
}
use whaleshell_driver.Base.Assoc.{find}
use whaleshell_driver.Docker.Lifecycle.{first_address, valid_address, address_on, pick_address}

-- An address that the container has.
abbrev pub IsAddress : List (Str × Str) → Str → Type 0
IsAddress networks ip = (ip ≢ []) × Exists (λ p. p.1 ≡ ip) networks

first_address_lem :
    (networks : List (Str × Str))
    → ((ip : Str) × (first_address networks ≡ some ip) × IsAddress networks ip)
      ⊎ ((first_address networks ≡ none) × All (λ p. p.1 ≡ []) networks)
unfolding first_address
first_address_lem [] = inr (refl, tt)
first_address_lem ((net, []) ∷ rest) = elim (first_address_lem rest) [
  | inl (ip, at, found) ↦ inl (ip, at, (found.0, Exists.there found.1))
  | inr (at, addressless) ↦ inr (at, (refl, addressless))
]
first_address_lem ((net, (c ∷ s)) ∷ rest) =
    inl (c ∷ s, refl, ((λ e. absurd (cc e)), Exists.here refl))

find-Exists :
    (net : Str) (networks : List (Str × Str)) (ip : Str)
    → find net networks ≡ some ip
    → Exists (λ p. p.1 ≡ ip) networks
unfolding find
find-Exists net [] ip h = cc
find-Exists net ((n, a) ∷ rest) ip h = elim (Bool-cases (n == net)) [
  | inl hit ↦ Exists.here (cc (rw hit at h))
  | inr miss ↦ Exists.there (find-Exists net rest ip (rw miss at h))
]

address_on-IsAddress :
    (net : Str) (networks : List (Str × Str)) (ip : Str)
    → address_on net networks ≡ some ip
    → IsAddress networks ip
address_on-IsAddress [] networks ip h = cc
address_on-IsAddress (c ∷ s) networks ip h = elim (Option-cases (find (c ∷ s) networks)) [
  | inl gone ↦ cc (rw gone at h)
  | inr (a, at) ↦ valid a at (rw at at h)
]
  where
    valid :
        (a : Str)
        → find (c ∷ s) networks ≡ some a
        → valid_address (some a) ≡ some ip
        → IsAddress networks ip
    valid [] at k = cc
    valid (b ∷ t) at k = ((λ e. cc), find-Exists (c ∷ s) networks ip (cc))

-- `ContainerIP` picks an address that the container has on some network, whatever network is named, and
-- picks none only where no network has an address.
pick_address_lem :
    (net : Str) (networks : List (Str × Str))
    → ((ip : Str) × (pick_address net networks ≡ some ip) × IsAddress networks ip)
      ⊎ ((pick_address net networks ≡ none) × All (λ p. p.1 ≡ []) networks)
unfolding pick_address
pick_address_lem net networks = elim (Option-cases (address_on net networks)) [
  | inl gone ↦ rw (gone, pick_address) (first_address_lem networks)
  | inr (ip, at) ↦ inl (ip, rw (at, pick_address) refl, address_on-IsAddress net networks ip at)
]
