-- ===== src/Env.antt =====
-- `mergeEnv` and `filterIdentityEnv` of internal/docker/docker.go: lists of `KEY=VALUE` entries.
pub mod Merge
pub mod Identity
pub mod Keys
use whaleshell_driver.Base.{
  ℕ, zero, suc, Str, codes, ◌==◌, cut, Bool, true, false, ◌||◌, List, [], ◌∷◌, ◌++◌, Option, none,
  some, if◌then◌else◌, is_nil, length,
}

-- The key that `strings.Cut(entry, "=")` gives, where the loop does not skip the entry.
unfoldable pub key? : Str → Option Str
unfolding cut
key? entry = elim (cut entry b'=') [
  | none ↦ none
  | some (key, value) ↦ if is_nil key then none else some key
]

-- `keys[key]`: the index of the entry in `out`.
unfoldable pub index? : Str → List (Str × ℕ) → Option ℕ
index? k [] = none
index? k ((j, i) ∷ rest) = if j == k then some i else index? k rest

-- `out[i] = entry`, for an index that is in range
unfoldable pub set : List Str → ℕ → Str → List Str
set [] i v = []
set (x ∷ xs) zero v = v ∷ xs
set (x ∷ xs) (suc i) v = x ∷ set xs i v

-- The variables of `mergeEnv` that its closure `add` writes.
pub record Merging : Type 0 where
  pub keys : List (Str × ℕ)
  pub out : List Str

add_entry : Merging → Str → Option ℕ → Str → Merging
add_entry m key (some i) entry = record m { out = set m.out i entry }
add_entry m key none entry = record {
  keys = (key, length m.out) ∷ m.keys;
  out = m.out ++ entry ∷ [];
}

add_keyed : Merging → Option Str → Str → Merging
unfolding add_entry index?
add_keyed m none entry = m
add_keyed m (some key) entry = add_entry m key (index? key m.keys) entry

-- The closure `add`.
pub add : Merging → Str → Merging
unfolding add_keyed key?
add m entry = add_keyed m (key? entry) entry

pub add_all : Merging → List Str → Merging
unfolding add
add_all m [] = m
add_all m (entry ∷ rest) = add_all (add m entry) rest

unfoldable pub merge_env : List Str → List Str → List Str
unfolding add_all
merge_env base extra = (add_all (add_all (record { keys = []; out = [] }) base) extra).out

-- `strings.Cut(entry, "=")` where the whole entry is the key if it has no `=`.
unfoldable pub cut_key : Str → Str
unfolding cut
cut_key entry = elim (cut entry b'=') [ none ↦ entry | some (key, value) ↦ key ]

unfoldable pub is_reserved : Str → Bool
is_reserved key =
    key == codes "OPENSHELL_OCI_IMAGE_USER"
    || key == codes "OPENSHELL_SANDBOX_UID"
    || key == codes "OPENSHELL_SANDBOX_GID"

unfoldable pub filter_identity_env : List Str → List Str
unfolding is_reserved cut_key
filter_identity_env [] = []
filter_identity_env (entry ∷ env) =
    let rest = filter_identity_env env in if is_reserved (cut_key entry) then rest else entry ∷ rest
