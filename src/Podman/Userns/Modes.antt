-- ===== src/Podman/Userns/Modes.antt =====
-- The modes that `canonicalUsernsMode` of internal/podman/config.go returns.
use whaleshell_driver.Base.{
  ok-inj, Str, codes, ◌==◌, ==_iff, cut, lower, is_nil, ◌≡◌, refl, sym, ap, ◌∙◌, Bool, true, false,
  [], Option, none, some, ok, err, Bool-cases, inl, inr, ◌⊎◌, ◌||◌, if◌then◌else◌,
}
use whaleshell_driver.Podman.Userns.{
  UsernsError, is_set, is_blank, mode_of, params_of, with_params, canonical_mode,
  canonical_userns_mode,
}

-- No mode, a mode with parameters that are not blank, if any, or a mode without parameters.
pub data IsCanonical (out : Str) : Type 0 where
  unset : out ≡ [] → IsCanonical out
  auto :
      (params : Option Str)
      → is_blank params ≡ false
      → out ≡ with_params (codes "auto") params
      → IsCanonical out
  keep_id :
      (params : Option Str)
      → is_blank params ≡ false
      → out ≡ with_params (codes "keep-id") params
      → IsCanonical out
  host : out ≡ codes "host" → IsCanonical out
  no_map : out ≡ codes "no-map" → IsCanonical out
  private_mode : out ≡ codes "private" → IsCanonical out

eq-or : (mode a b : Str) → (mode == a || mode == b) ≡ true → (mode ≡ a) ⊎ (mode ≡ b)
eq-or mode a b h = elim (Bool-cases (mode == a)) [
  | inl yes_ ↦ inl ((==_iff mode a).0 yes_)
  | inr no_ ↦ inr ((==_iff mode b).0 (rw no_ at h))
]

-- A branch that fails where its test holds was not taken.
if-ok :
    (b : Bool) (why : UsernsError) (s : Str) {out : Str}
    → (if b then err why else ok s) ≡ ok out
    → (b ≡ false) × (s ≡ out)
if-ok true why s h = cc
if-ok false why s h = (refl, ok-inj h)

open_mode :
    (mode : Str) (params : Option Str) {out : Str}
    → (mode ≡ codes "auto") ⊎ (mode ≡ codes "keep-id")
    → (if is_blank params then err UsernsError.empty_parameters else ok (with_params mode params))
      ≡ ok out
    → IsCanonical out
open_mode mode params which h =
    let (filled, e) = if-ok _ _ _ h in
    elim which [
      | inl m ↦ IsCanonical.auto params filled (sym e ∙ ap (λ n. with_params n params) m)
      | inr m ↦ IsCanonical.keep_id params filled (sym e ∙ ap (λ n. with_params n params) m)
    ]

closed_mode :
    (mode : Str) (params : Option Str) {out : Str}
    → (mode == codes "host" || mode == codes "no-map" || mode == codes "private") ≡ true
    → (if is_set params then err (UsernsError.takes_no_parameters mode) else ok mode) ≡ ok out
    → IsCanonical out
closed_mode mode params listed h =
    let (bare, e) = if-ok _ _ _ h in
    elim (Bool-cases (mode == codes "host" || mode == codes "no-map")) [
      | inl two ↦ elim (eq-or mode (codes "host") (codes "no-map") two) [
        | inl m ↦ IsCanonical.host (sym e ∙ m)
        | inr m ↦ IsCanonical.no_map (sym e ∙ m)
      ]
      | inr last ↦
          IsCanonical.private_mode (sym e ∙ (==_iff mode (codes "private")).0 (rw last at listed))
    ]

canonical_mode-IsCanonical :
    (mode : Str) (params : Option Str) {out : Str}
    → canonical_mode mode params ≡ ok out
    → IsCanonical out
unfolding canonical_mode
canonical_mode-IsCanonical mode params h =
    elim (Bool-cases (mode == codes "auto" || mode == codes "keep-id")) [
      | inl opened ↦
          open_mode mode params (eq-or mode (codes "auto") (codes "keep-id") opened)
            (rw opened at h)
      | inr other ↦
          (let h1 = rw other at h in
            elim (Bool-cases
              (mode == codes "host" || mode == codes "no-map" || mode == codes "private")) [
                | inl closed ↦ closed_mode mode params closed (rw closed at h1)
                | inr rest ↦
                    (let h2 = rw rest at h1 in
                      elim (Bool-cases (mode == codes "nomap")) [
                        | inl alias ↦ IsCanonical.no_map (sym (if-ok _ _ _ (rw alias at h2)).1)
                        | inr unknown ↦ (let h3 = rw unknown at h2 in cc h3)
                      ])
              ])
    ]

pub canonical_userns_mode-IsCanonical :
    (input : Str) {out : Str} → canonical_userns_mode input ≡ ok out → IsCanonical out
unfolding canonical_userns_mode
canonical_userns_mode-IsCanonical input h = elim (Bool-cases (is_nil input)) [
  | inl empty ↦ IsCanonical.unset (sym (ok-inj (rw empty at h)))
  | inr filled ↦
      canonical_mode-IsCanonical (lower (mode_of input (cut input b':')))
        (params_of (cut input b':')) (rw filled at h)
]

auto_again :
    (params : Option Str)
    → is_blank params ≡ false
    → canonical_userns_mode (with_params (codes "auto") params)
      ≡ ok (with_params (codes "auto") params)
unfolding canonical_userns_mode
auto_again none h = refl
auto_again (some s) h = rw h

keep_id_again :
    (params : Option Str)
    → is_blank params ≡ false
    → canonical_userns_mode (with_params (codes "keep-id") params)
      ≡ ok (with_params (codes "keep-id") params)
unfolding canonical_userns_mode
keep_id_again none h = refl
keep_id_again (some s) h = rw h

-- A canonical mode is canonical already.
pub IsCanonical-canonical : {out : Str} → IsCanonical out → canonical_userns_mode out ≡ ok out
unfolding canonical_userns_mode
IsCanonical-canonical (IsCanonical.unset e) = rw e refl
IsCanonical-canonical (IsCanonical.auto params filled e) = rw e (auto_again params filled)
IsCanonical-canonical (IsCanonical.keep_id params filled e) = rw e (keep_id_again params filled)
IsCanonical-canonical (IsCanonical.host e) = rw e refl
IsCanonical-canonical (IsCanonical.no_map e) = rw e refl
IsCanonical-canonical (IsCanonical.private_mode e) = rw e refl
