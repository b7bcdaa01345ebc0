-- ===== src/Podman/New/Files.antt =====
-- The files and the numbers that `ConfigFromMap` of internal/podman/config.go accepts, in the
-- words of the values and not of its tests.
use whaleshell_driver.Base.{
  ℕ, suc, Str, ==_iff, trim_space, is_nil, ltb_ℤ, length, Bool, true, false, not, ◌&&◌, ◌||◌, List,
  [], ◌∷◌, Option, none, some, ok, >>=-eq-ok, reject_if, reject_if-eq-ok, ℤ, pos, negsuc, ◌≡◌, ◌≢◌,
  ◌≤◌, ◌^◌, ◌⊎◌, refl, All, Bool-cases, inl, inr, arith, eqb, ok-inj,
}
use whaleshell_driver.Config.{
  Machine, ConfigError, is_unclean, check_tls_paths, validate_guest_tls_paths,
  validate_egress_ca_bundle, read_or, usable_file,
}
use whaleshell_driver.Defaults.{FileInfo}
use whaleshell_driver.GoPath.{is_abs, clean}
use whaleshell_driver.Podman.Config.{validate_registry_auth_file, usable}

-- An absolute path in its shortest form.
abbrev pub IsCleanPath : Str → Type 0
IsCleanPath p = (is_abs p ≡ true) × (clean p ≡ p)

abbrev pub IsBlank : Str → Type 0
IsBlank p = trim_space p ≡ []

-- From 0 to the bound.
abbrev pub UpTo : ℕ → ℤ → Type 0
UpTo bound z = (n : ℕ) × (z ≡ pos n) × (n ≤ bound)

pub or-false : (a b : Bool) → (a || b) ≡ false → (a ≡ false) × (b ≡ false)
or-false true b h = absurd (cc h)
or-false false b h = (refl, h)

pub at_least_zero : (z : ℤ) → ltb_ℤ z (pos 0) ≡ false → (n : ℕ) × (z ≡ pos n)
at_least_zero (pos n) h = (n, refl)
at_least_zero (negsuc n) h = absurd (ground arith)

pub in_bounds :
    (bound : ℕ) (z : ℤ) → ltb_ℤ z (pos 0) ≡ false → ltb_ℤ (pos bound) z ≡ false → UpTo bound z
in_bounds bound (pos n) h k = (n, refl, ground arith)
in_bounds bound (negsuc n) h k = absurd (ground arith)

pub is_nil-eq : (s : Str) → is_nil s ≡ true → s ≡ []
is_nil-eq [] h = refl
is_nil-eq (c ∷ s) h = absurd (cc h)

pub unclean-IsCleanPath : (p : Str) → is_unclean p ≡ false → IsCleanPath p
unfolding is_unclean
unclean-IsCleanPath p h =
    let (rooted, short) = or-false (not (is_abs p)) _ h in
    (ground arith, (==_iff (clean p) p).0 (ground arith))

-- Of the paths that are counted, none is set, or some; where all are, each is clean.
counted :
    (ps : List Str) (n : ℕ)
    → check_tls_paths ps ≡ ok n
    → (n ≤ length ps) × ((n ≢ 0) ⊎ All IsBlank ps) × ((n ≢ length ps) ⊎ All IsCleanPath ps)
unfolding check_tls_paths
counted [] n h = (omega (arith, ok-inj h), inr tt, inr tt)
counted (p ∷ rest) n h = elim (Bool-cases (is_nil (trim_space p))) [
  | inl blank ↦
      (let (few, none_, all_) = counted rest n (rw blank at h) in
        (omega (arith, few), unset none_ blank, inl (λ e. omega (arith, few, e))))
  | inr set_ ↦ elim (Bool-cases (is_unclean p)) [
    | inl unclean ↦ absurd (cc (rw (set_, unclean) at h))
    | inr is_clean ↦
        (let (k, later, last) = >>=-eq-ok (check_tls_paths rest) _ (rw (set_, is_clean) at h) in
          let (few, none_, all_) = counted rest k later in
          (
            omega (arith, few, ok-inj last),
            inl (λ e. omega (arith, ok-inj last, e)),
            each_clean (unclean-IsCleanPath p is_clean) (ok-inj last) all_,
          ))
  ]
]
  where
    unset :
        ((n ≢ 0) ⊎ All IsBlank rest)
        → is_nil (trim_space p) ≡ true
        → (n ≢ 0) ⊎ All IsBlank (p ∷ rest)
    unset (inl some_) blank = inl some_
    unset (inr none_) blank = inr (is_nil-eq (trim_space p) blank, none_)

    each_clean :
        {k : ℕ}
        → IsCleanPath p
        → suc k ≡ n
        → ((k ≢ length rest) ⊎ All IsCleanPath rest)
        → (n ≢ length (p ∷ rest)) ⊎ All IsCleanPath (p ∷ rest)
    each_clean c e (inl ne) = inl (λ same. ne (omega (arith, e, same)))
    each_clean c e (inr cs) = inr (c, cs)

-- None of the three, or all of them and each clean.
abbrev pub IsTls : Str → Str → Str → Type 0
IsTls ca cert key = All IsBlank (ca ∷ cert ∷ key ∷ []) ⊎ All IsCleanPath (ca ∷ cert ∷ key ∷ [])

pub validate_guest_tls_paths-IsTls :
    (ca cert key : Str) → validate_guest_tls_paths ca cert key ≡ ok tt → IsTls ca cert key
unfolding validate_guest_tls_paths
validate_guest_tls_paths-IsTls ca cert key h =
    let (n, found, last) = >>=-eq-ok (check_tls_paths (ca ∷ cert ∷ key ∷ [])) _ h in
    let (few, none_, all_) = counted (ca ∷ cert ∷ key ∷ []) n found in
    pick n none_ all_
      (reject_if-eq-ok (not (eqb n 0) && not (eqb n 3)) ConfigError.guest_tls_partial last)
  where
    pick :
        (n : ℕ)
        → ((n ≢ 0) ⊎ All IsBlank (ca ∷ cert ∷ key ∷ []))
        → ((n ≢ 3) ⊎ All IsCleanPath (ca ∷ cert ∷ key ∷ []))
        → (not (eqb n 0) && not (eqb n 3)) ≡ false
        → IsTls ca cert key
    pick n (inr none_) a h = inl none_
    pick n b (inr all_) h = inr all_
    pick n (inl b) (inl a) h = absurd (ground (arith, a, b))

-- A file that can be read and that the predicate holds of, under a clean path.
abbrev pub IsFileOf : Machine → (Str → Bool) → Str → Type 0
IsFileOf m good p =
    IsCleanPath p × ((body : Str) × (m.host.read_file p ≡ some body) × (good body ≡ true))

pub read_or-ok : (why : ConfigError) (o : Option Str) {s : Str} → read_or why o ≡ ok s → o ≡ some s
read_or-ok why none h = absurd (cc h)
read_or-ok why (some t) h = cc h

pub good-true : (b : Bool) → not b ≡ false → b ≡ true
good-true true h = refl
good-true false h = absurd (cc h)

pub egress :
    (m : Machine) (p : Str)
    → validate_egress_ca_bundle m p ≡ ok tt
    → (p ≡ []) ⊎ IsFileOf m m.is_bundle p
unfolding validate_egress_ca_bundle
egress m p h = elim (Bool-cases (is_nil p)) [
  | inl none_ ↦ inl (is_nil-eq p none_)
  | inr set_ ↦
      (let (_, a, h1) =
          >>=-eq-ok (reject_if (is_unclean p) ConfigError.egress_path) _ (rw set_ at h) in
        let (_, b, h2) =
          >>=-eq-ok (reject_if (not (usable_file (m.host.stat p))) ConfigError.egress_file) _ h1 in
        let (body, found, last) =
          >>=-eq-ok (read_or ConfigError.egress_file (m.host.read_file p)) _ h2 in
        inr (
          unclean-IsCleanPath p (reject_if-eq-ok _ _ a),
          (body, read_or-ok _ (m.host.read_file p) found, good-true _ (reject_if-eq-ok _ _ last)),
        ))
]

-- A regular file of at most 1 MiB.
abbrev pub IsSmallFile : Option FileInfo → Type 0
IsSmallFile none = ⊥
IsSmallFile (some info) = (info.is_regular ≡ true) × (info.size ≤ 2 ^ 20)

usable-IsSmallFile : (o : Option FileInfo) → not (usable o) ≡ false → IsSmallFile o
usable-IsSmallFile none h = absurd (cc h)
usable-IsSmallFile (some info) h = (ground arith, ground arith)

pub registry_file :
    (m : Machine) (p : Str)
    → validate_registry_auth_file m p ≡ ok tt
    → IsBlank p ⊎ (IsCleanPath p × IsSmallFile (m.host.stat p))
unfolding validate_registry_auth_file
registry_file m p h = elim (Bool-cases (is_nil (trim_space p))) [
  | inl blank ↦ inl (is_nil-eq (trim_space p) blank)
  | inr set_ ↦
      (let (_, a, h1) =
          >>=-eq-ok (reject_if (is_unclean p) ConfigError.registry_auth_file) _ (rw set_ at h) in
        let (_, b, h2) =
          >>=-eq-ok (reject_if (not (usable (m.host.stat p))) ConfigError.registry_auth_file) _
            h1 in
        inr (
          unclean-IsCleanPath p (reject_if-eq-ok _ _ a),
          usable-IsSmallFile (m.host.stat p) (reject_if-eq-ok _ _ b),
        ))
]
