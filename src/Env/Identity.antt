-- ===== src/Env/Identity.antt =====
-- Identity entries: what `filterIdentityEnv` drops, and what later merges cannot bring back.
use whaleshell_driver.Base.{
  ℕ, Str, codes, ◌==◌, ==_iff, Bool, true, false, not, ◌&&◌, ◌||◌, eqb, any, keep, List, [], ◌∷◌,
  if◌then◌else◌, none, some, arith, ◌≡◌, refl, Bool-cases, Option-cases, inl, inr, cut,
}
use whaleshell_driver.Env.{key?, cut_key, is_reserved, filter_identity_env}
use whaleshell_driver.Env.Merge.{has_key, last_entry}

cut_key_of_key? : (e k : Str) → key? e ≡ some k → cut_key e ≡ k
unfolding key? cut_key
cut_key_of_key? e k h = ground arith

has_key_reserved :
    (e k : Str) → is_reserved k ≡ true → has_key k e ≡ true → is_reserved (cut_key e) ≡ true
unfolding has_key
has_key_reserved e k r h = elim (Option-cases (key? e)) [
  | inl skip ↦ ground (arith, skip)
  | inr (j, je) ↦ ground (arith, je, ==_iff j k, cut_key_of_key? e j je)
]

-- Whatever the caller passes, no entry of a reserved identity key is left.
pub last_entry-filter_identity_env :
    (k : Str) (env : List Str)
    → is_reserved k ≡ true
    → last_entry k (filter_identity_env env) ≡ none
unfolding last_entry filter_identity_env
last_entry-filter_identity_env k [] r = refl
last_entry-filter_identity_env k (e ∷ env) r = elim (Bool-cases (is_reserved (cut_key e))) [
  | inl dropped ↦ ground (arith, dropped, last_entry-filter_identity_env k env)
  | inr kept ↦ ground (arith, kept, last_entry-filter_identity_env k env, has_key_reserved e k)
]

-- Whether an entry is for the key: the key alone, or followed by `=` and a value.
abbrev pub is_for : Str → Str → Bool
is_for [] [] = true
is_for [] (c ∷ entry) = eqb c b'='
is_for (k ∷ key) [] = false
is_for (k ∷ key) (c ∷ entry) = eqb c k && is_for key entry

-- Whether an entry is for one of the three keys that only the driver sets.
abbrev pub is_identity : Str → Bool
is_identity entry =
    is_for (codes "OPENSHELL_OCI_IMAGE_USER") entry
    || is_for (codes "OPENSHELL_SANDBOX_UID") entry
    || is_for (codes "OPENSHELL_SANDBOX_GID") entry

cut_key-cons : (c : ℕ) (e : Str) → cut_key (c ∷ e) ≡ (if eqb c b'=' then [] else c ∷ cut_key e)
unfolding cut_key cut
cut_key-cons c e = elim (Option-cases (cut e b'=')) [
  | inl whole ↦ rw (whole, cut_key) (ground arith)
  | inr (parts, found) ↦ rw (found, cut_key) (ground arith)
]

is_for-cut_key :
    (key e : Str) → any (λ c. eqb c b'=') key ≡ false → (cut_key e == key) ≡ is_for key e
unfolding cut_key cut
is_for-cut_key [] [] plain = refl
is_for-cut_key [] (c ∷ e) plain = rw (cut_key-cons c e) (ground arith)
is_for-cut_key (k ∷ key) [] plain = refl
is_for-cut_key (k ∷ key) (c ∷ e) plain =
    rw (cut_key-cons c e) (ground (arith, is_for-cut_key key e))

is_identity_lem : (e : Str) → is_reserved (cut_key e) ≡ is_identity e
unfolding is_reserved
is_identity_lem e =
    rw
      (
        is_for-cut_key (codes "OPENSHELL_OCI_IMAGE_USER") e refl,
        is_for-cut_key (codes "OPENSHELL_SANDBOX_UID") e refl,
        is_for-cut_key (codes "OPENSHELL_SANDBOX_GID") e refl,
      )
      refl

-- What is left of a caller's environment is every entry, in its order, that is for none of the three keys
-- OPENSHELL_OCI_IMAGE_USER, OPENSHELL_SANDBOX_UID and OPENSHELL_SANDBOX_GID, neither as the bare key
-- nor with a value; malformed entries and repeated keys stay.
pub filter_identity_env_lem :
    (env : List Str) → filter_identity_env env ≡ keep (λ e. not (is_identity e)) env
unfolding filter_identity_env
filter_identity_env_lem [] = refl
filter_identity_env_lem (e ∷ env) =
    rw (is_identity_lem e, filter_identity_env_lem env) (ground (arith, Bool-cases (is_identity e)))
