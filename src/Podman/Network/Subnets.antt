-- ===== src/Podman/Network/Subnets.antt =====
-- Which subnet `availableNetworkSubnet` of internal/podman/libpod_network.go picks.
use whaleshell_driver.Base.{
  ℕ, zero, suc, Str, ◌≡◌, ◌≤◌, ◌<◌, ◌+◌, ◌-◌, ◌%◌, refl, sym, true, false, List, [], ◌∷◌, Option,
  none, some, All, Bool-cases, Option-cases, All-append, subst, is_nil, not, ◌||◌, arith, ltb, inl,
  inr,
}
use whaleshell_driver.Base.Decimal.{parse_uint}
use whaleshell_driver.Podman.Address.{
  Addr, Prefix, bit_len, leading_zero, sized, prefixes_overlap, parse_prefix, prefix_of,
  cut_last_slash, parse_addr, parse_cut,
}
use whaleshell_driver.Podman.Address.Overlap.{IsProper, Shares, prefixes_overlap-iff-Shares}
use whaleshell_driver.Podman.Service.{Subnet, NetworkSummary, Call, Service, is_success}
use whaleshell_driver.Podman.Network.{
  candidate, collides, search_subnet, free_subnet, next, used_in, used_prefixes,
}

-- No address of the prefix is in use.
abbrev pub IsFree : List Prefix → Prefix → Type 0
IsFree used p = All (λ q. ¬ Shares p q) used

candidate-IsProper : (i : ℕ) → IsProper (candidate i)
unfolding candidate
candidate-IsProper i = record { bounded = omega arith; no_zone = refl }

collides-IsFree :
    (used : List Prefix) (i : ℕ)
    → All IsProper used
    → collides used (candidate i) ≡ false
    → IsFree used (candidate i)
unfolding collides
collides-IsFree [] i proper h = tt
collides-IsFree (q ∷ used) i (p, proper) h = (
  λ s. ground (arith, (prefixes_overlap-iff-Shares (candidate i) q (candidate-IsProper i) p).1 s),
  collides-IsFree used i proper (ground arith),
)

IsFree-collides :
    (used : List Prefix) (i : ℕ)
    → All IsProper used
    → IsFree used (candidate i)
    → collides used (candidate i) ≡ false
unfolding collides
IsFree-collides [] i proper h = refl
IsFree-collides (q ∷ used) i (p, proper) (not_shared, free) =
    elim (Bool-cases (prefixes_overlap (candidate i) q)) [
      | inl yes_ ↦ absurd (
          not_shared
            ((prefixes_overlap-iff-Shares (candidate i) q (candidate-IsProper i) p).0 yes_))
      | inr no_ ↦ rw no_ (IsFree-collides used i proper free)
    ]

-- Sound: what the search returns is a candidate that collides with nothing.
search_subnet_sound :
    (used : List Prefix) (start rounds i : ℕ) {p : Prefix}
    → search_subnet used start rounds i ≡ some p
    → (k : ℕ) × (k < 4096) × (p ≡ candidate k) × (collides used (candidate k) ≡ false)
unfolding search_subnet
search_subnet_sound used start zero i h = cc
search_subnet_sound used start (suc rounds) i h =
    elim (Bool-cases (collides used (candidate ((start + i) % 4096)))) [
      | inl hit ↦ search_subnet_sound used start rounds (i + 1) (rw hit at h)
      | inr miss ↦ ((start + i) % 4096, omega arith, (let h' = rw miss at h in cc h'), miss)
    ]

-- Complete: a search that returns nothing saw every candidate of its rounds collide.
search_subnet_complete :
    (used : List Prefix) (start rounds i k : ℕ)
    → search_subnet used start rounds i ≡ none
    → i ≤ k
    → k < i + rounds
    → collides used (candidate ((start + k) % 4096)) ≡ true
unfolding search_subnet
search_subnet_complete used start zero i k h low high = absurd (omega arith)
search_subnet_complete used start (suc rounds) i k h low high =
    elim (Bool-cases (collides used (candidate ((start + i) % 4096)))) [
      | inr miss ↦ (let h' = rw miss at h in cc h')
      | inl hit ↦ elim (Bool-cases (ltb i k)) [
        | inl later ↦
            search_subnet_complete used start rounds (i + 1) k (rw hit at h) (ground arith)
              (omega arith)
        | inr same ↦ (let e : k ≡ i = ground arith in rw e hit)
      ]
    ]

is_nil-eq : (s : Str) → is_nil s ≡ true → s ≡ []
is_nil-eq [] h = refl
is_nil-eq (c ∷ s) h = cc

some-inj : {a b : Prefix} → ◌≡◌ {A = Option Prefix} (some a) (some b) → a ≡ b
some-inj h = cc

-- A prefix that a text names is as long as its address at most, and has no zone.
fits-IsProper :
    (a : Addr) (digits : Str) (n : ℕ)
    → (leading_zero digits || ltb (bit_len a) n || not (is_nil a.zone)) ≡ false
    → IsProper (record { addr = a; bits = n })
fits-IsProper a digits n h = record {
  bounded = ground arith;
  no_zone = is_nil-eq a.zone (ground arith);
}

sized-IsProper :
    (parse6 : Str → Option (ℕ × Str)) (a : Addr) (digits : Str) (n : Option ℕ) {p : Prefix}
    → sized parse6 a digits n ≡ some p
    → IsProper p
sized-IsProper parse6 a digits none h = cc
sized-IsProper parse6 a digits (some n) h =
    elim (Bool-cases (leading_zero digits || ltb (bit_len a) n || not (is_nil a.zone))) [
      | inl bad ↦ (let h' = rw bad at h in cc h')
      | inr good ↦ subst IsProper (some-inj (rw good at h)) (fits-IsProper a digits n good)
    ]

prefix_of-IsProper :
    (parse6 : Str → Option (ℕ × Str)) (a : Option Addr) (digits : Str) {p : Prefix}
    → prefix_of parse6 a digits ≡ some p
    → IsProper p
prefix_of-IsProper parse6 none digits h = cc
prefix_of-IsProper parse6 (some a) digits h =
    sized-IsProper parse6 a digits (parse_uint 63 digits) h

parse_cut-IsProper :
    (parse6 : Str → Option (ℕ × Str)) (parts : Option (Str × Str)) {p : Prefix}
    → parse_cut parse6 parts ≡ some p
    → IsProper p
parse_cut-IsProper parse6 none h = cc
parse_cut-IsProper parse6 (some (a, b)) h = prefix_of-IsProper parse6 (parse_addr parse6 a) b h

pub parse_prefix-IsProper :
    (parse6 : Str → Option (ℕ × Str)) (s : Str) {p : Prefix}
    → parse_prefix parse6 s ≡ some p
    → IsProper p
unfolding parse_prefix
parse_prefix-IsProper parse6 s h = parse_cut-IsProper parse6 (cut_last_slash s) h

used_in-IsProper : (svc : Service) (subnets : List Subnet) → All IsProper (used_in svc subnets)
unfolding used_in
used_in-IsProper svc [] = tt
used_in-IsProper svc (s ∷ rest) = elim (Option-cases (parse_prefix svc.parse6 s.subnet)) [
  | inl no_prefix ↦ rw no_prefix (used_in-IsProper svc rest)
  | inr (p, found) ↦
      rw found (parse_prefix-IsProper svc.parse6 s.subnet found, used_in-IsProper svc rest)
]

pub used_prefixes-IsProper :
    (svc : Service) (networks : List NetworkSummary) → All IsProper (used_prefixes svc networks)
unfolding used_prefixes
used_prefixes-IsProper svc [] = tt
used_prefixes-IsProper svc (n ∷ rest) =
    All-append IsProper (used_in svc n.subnets) (used_prefixes svc rest)
      (used_in-IsProper svc n.subnets) (used_prefixes-IsProper svc rest)

-- The answer of the service lists networks.
abbrev pub Lists : Service → List Call → List NetworkSummary → Type 0
Lists svc calls networks =
    (code : ℕ) × (is_success code ≡ true)
    × (svc.networks calls ≡ some (record { code = code; body = some networks }))

-- What a search that succeeds returns.
abbrev pub IsUnused : List Prefix → Prefix × Addr → Type 0
IsUnused used (p, gateway) =
    (k : ℕ) × (k < 4096) × (p ≡ candidate k) × (gateway ≡ next p.addr) × IsFree used p

pub search-IsUnused :
    (used : List Prefix) (start : ℕ) {p : Prefix}
    → All IsProper used
    → free_subnet used start ≡ some p
    → IsUnused used (p, next p.addr)
unfolding free_subnet
search-IsUnused used start proper h =
    let (k, small, e, free) = search_subnet_sound used start 4096 0 h in
    (k, small, e, refl, subst (IsFree used) (sym e) (collides-IsFree used k proper free))

pub search-finds :
    (used : List Prefix) (start k : ℕ)
    → k < 4096
    → All IsProper used
    → IsFree used (candidate k)
    → (p : Prefix) × (free_subnet used start ≡ some p)
unfolding free_subnet
search-finds used start k small proper free =
    elim (Option-cases (search_subnet used start 4096 0)) [
      | inr found ↦ found
      | inl nothing ↦
          let j : ℕ = (k + 4096 - start % 4096) % 4096 in
          let e : (start + j) % 4096 ≡ k = omega arith in
          let hit =
            search_subnet_complete used start 4096 0 j nothing (omega arith) (omega arith) in
          let hit' = rw e at hit in cc (IsFree-collides used k proper free)
    ]
