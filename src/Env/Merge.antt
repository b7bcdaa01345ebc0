-- ===== src/Env/Merge.antt =====
-- What `mergeEnv` builds: the last entry of each key, at the place where the key first stood.
use whaleshell_driver.Base.{
  ℕ, suc, Str, ◌==◌, ==_iff, Bool, false, List, [], ◌∷◌, ◌++◌, Option, none, some, if◌then◌else◌,
  length, arith, ◌≡◌, refl, sym, ap, Bool-cases, Option-cases, inl, inr, ◌∙◌,
}
use whaleshell_driver.Env.{
  key?, index?, set, Merging, add_entry, add_keyed, add, add_all, merge_env,
}

abbrev pub key_is : Option Str → Str → Bool
key_is none k = false
key_is (some j) k = j == k

-- The entry sets the variable `k`.
unfoldable pub has_key : Str → Str → Bool
has_key k entry = key_is (key? entry) k

-- What a process finds under the key: the first entry that sets it.
unfoldable pub entry_of : Str → List Str → Option Str
unfolding has_key
entry_of k [] = none
entry_of k (e ∷ env) = if has_key k e then some e else entry_of k env

-- The entry that a later one does not override.
unfoldable pub last_entry : Str → List Str → Option Str
unfolding has_key
last_entry k [] = none
last_entry k (e ∷ env) = elim (last_entry k env) [
  | some x ↦ some x
  | none ↦ if has_key k e then some e else none
]

-- The reference for one step of the merge: overwrite in place, else append.
unfoldable pub put : Str → Str → List Str → List Str
unfolding has_key
put k e [] = e ∷ []
put k e (x ∷ xs) = if has_key k x then e ∷ xs else x ∷ put k e xs

unfoldable pub put_keyed : Option Str → Str → List Str → List Str
put_keyed none e env = env
put_keyed (some k) e env = put k e env

unfoldable pub put_all : List Str → List Str → List Str
put_all env [] = env
put_all env (e ∷ es) = put_all (put_keyed (key? e) e env) es

-- The index at which the key stands.
position : Str → List Str → Option ℕ
unfolding has_key
position k [] = none
position k (x ∷ xs) =
    let rest = position k xs in
    if has_key k x then some 0 else elim rest [ none ↦ none | some i ↦ some (suc i) ]

-- `keys` is the index of `out`.
abbrev IsIndexed : Merging → Type 0
IsIndexed m = (k : Str) → index? k m.keys ≡ position k m.out

set-position :
    (k e : Str) (out : List Str) (i : ℕ) → position k out ≡ some i → set out i e ≡ put k e out
unfolding position put set
set-position k e [] i h = cc
set-position k e (x ∷ xs) i h = elim (Bool-cases (has_key k x)) [
  | inl hit ↦ ground (arith, hit)
  | inr miss ↦ elim (Option-cases (position k xs)) [
    | inl gone ↦ ground (arith, miss, gone)
    | inr (j, at) ↦ ground (arith, miss, at, set-position k e xs j at)
  ]
]

put_new : (k e : Str) (out : List Str) → position k out ≡ none → put k e out ≡ out ++ e ∷ []
unfolding position put
put_new k e [] h = refl
put_new k e (x ∷ xs) h = ground (arith, put_new k e xs)

position-put_self :
    (k e : Str) (out : List Str) (i : ℕ)
    → key? e ≡ some k
    → position k out ≡ some i
    → (j : Str) → position j (put k e out) ≡ position j out
unfolding position put has_key
position-put_self k e [] i ke h j = cc
position-put_self k e (x ∷ xs) i ke h j = elim (Bool-cases (has_key k x)) [
  | inl hit ↦ elim (Option-cases (key? x)) [
    | inl none' ↦ ground (arith, hit, none')
    | inr (kx, at) ↦ ground (arith, hit, at, ke, ==_iff kx k, ==_iff kx j, ==_iff k j)
  ]
  | inr miss ↦ elim (Option-cases (position k xs)) [
    | inl gone ↦ ground (arith, miss, gone)
    | inr (i', at) ↦ ground (arith, miss, at, position-put_self k e xs i' ke at j)
  ]
]

position-append :
    (k e : Str) (out : List Str) (j : Str)
    → key? e ≡ some k
    → position k out ≡ none
    → position j (out ++ e ∷ []) ≡ (if k == j then some (length out) else position j out)
unfolding position has_key
position-append k e [] j ke h = ground (arith, ke)
position-append k e (x ∷ xs) j ke h = elim (Option-cases (key? x)) [
  | inl none' ↦ ground (arith, none', position-append k e xs j ke)
  | inr (kx, at) ↦
      ground (arith, at, position-append k e xs j ke, ==_iff kx k, ==_iff kx j, ==_iff k j)
]

add-IsIndexed : (m : Merging) (e : Str) → IsIndexed m → IsIndexed (add m e)
unfolding add add_keyed add_entry index?
add-IsIndexed m e h j = elim (Option-cases (key? e)) [
  | inl skip ↦ rw (skip, add_keyed) (h j)
  | inr (k, ke) ↦ elim (Option-cases (index? k m.keys)) [
    | inl new ↦
        rw (ke, add_keyed)
          (rw (new, add_entry)
            (ground (arith, h j, position-append k e m.out j ke (sym (h k) ∙ new))))
    | inr (i, old) ↦
        rw (ke, add_keyed)
          (rw (old, add_entry)
            (h j
              ∙ (sym (position-put_self k e m.out i ke (sym (h k) ∙ old) j)
                  ∙ ap (position j) (sym (set-position k e m.out i (sym (h k) ∙ old))))))
  ]
]

out-add : (m : Merging) (e : Str) → IsIndexed m → (add m e).out ≡ put_keyed (key? e) e m.out
unfolding add add_keyed add_entry put_keyed
out-add m e h = elim (Option-cases (key? e)) [
  | inl skip ↦ rw (skip, add_keyed, put_keyed)
  | inr (k, ke) ↦ elim (Option-cases (index? k m.keys)) [
    | inl new ↦
        rw (ke, add_keyed, put_keyed)
          (rw (new, add_entry) (sym (put_new k e m.out (sym (h k) ∙ new))))
    | inr (i, old) ↦
        rw (ke, add_keyed, put_keyed)
          (rw (old, add_entry) (set-position k e m.out i (sym (h k) ∙ old)))
  ]
]

out-add_all :
    (es : List Str) (m : Merging)
    → IsIndexed m
    → ((add_all m es).out ≡ put_all m.out es) × IsIndexed (add_all m es)
unfolding add_all put_all
out-add_all [] m h = (refl, h)
out-add_all (e ∷ es) m h =
    let rest = out-add_all es (add m e) (add-IsIndexed m e h) in
    (rest.0 ∙ ap (λ o. put_all o es) (out-add m e h), rest.1)

-- The merge over the index map is the merge by search.
pub merge_env-eq-put_all :
    (base extra : List Str) → merge_env base extra ≡ put_all (put_all [] base) extra
unfolding merge_env index? position
merge_env-eq-put_all base extra =
    let start : Merging = record { keys = []; out = [] } in
    let first = out-add_all base start (λ k. refl) in
    (out-add_all extra (add_all start base) first.1).0 ∙ ap (λ o. put_all o extra) first.0

entry_of-put :
    (k e : Str) (env : List Str) (j : Str)
    → key? e ≡ some k
    → entry_of j (put k e env) ≡ (if k == j then some e else entry_of j env)
unfolding entry_of put has_key
entry_of-put k e [] j ke = ground (arith, ke)
entry_of-put k e (x ∷ xs) j ke = elim (Option-cases (key? x)) [
  | inl none' ↦ ground (arith, ke, none', entry_of-put k e xs j ke)
  | inr (kx, at) ↦
      ground (arith, ke, at, entry_of-put k e xs j ke, ==_iff kx k, ==_iff kx j, ==_iff k j)
]

abbrev pub or : Option Str → Option Str → Option Str
or none o = o
or (some e) o = some e

entry_of-put_all :
    (es env : List Str) (j : Str)
    → entry_of j (put_all env es) ≡ or (last_entry j es) (entry_of j env)
unfolding put_all put_keyed last_entry has_key
entry_of-put_all [] env j = refl
entry_of-put_all (e ∷ es) env j = elim (Option-cases (key? e)) [
  | inl skip ↦ ground (arith, skip, entry_of-put_all es env j)
  | inr (k, ke) ↦ ground (arith, ke, entry_of-put_all es (put k e env) j, entry_of-put k e env j ke)
]

pub last_entry-append :
    (xs ys : List Str) (j : Str) → last_entry j (xs ++ ys) ≡ or (last_entry j ys) (last_entry j xs)
unfolding last_entry
last_entry-append [] ys j = ground arith
last_entry-append (x ∷ xs) ys j = ground (arith, last_entry-append xs ys j)

-- Looking a key up in the merged list finds the last entry of that key in `base` followed by
-- `extra`, and nothing exactly where neither list sets the key.
pub entry_of-merge_env :
    (base extra : List Str) (k : Str)
    → entry_of k (merge_env base extra) ≡ last_entry k (base ++ extra)
unfolding entry_of
entry_of-merge_env base extra k =
    ap (entry_of k) (merge_env-eq-put_all base extra)
    ∙ (entry_of-put_all extra (put_all [] base) k
        ∙ ground (arith, entry_of-put_all base [] k, last_entry-append base extra k))

-- Every entry has a key, and no key occurs twice.
abbrev pub IsProper : List Str → Type 0
IsProper [] = Unit {0}
IsProper (e ∷ env) = ((k : Str) × (key? e ≡ some k) × (entry_of k env ≡ none)) × IsProper env

put-IsProper :
    (k e : Str) (env : List Str) → key? e ≡ some k → IsProper env → IsProper (put k e env)
unfolding put has_key entry_of
put-IsProper k e [] ke h = ((k, ke, refl), tt)
put-IsProper k e (x ∷ xs) ke ((kx, at, new), h) = elim (Bool-cases (kx == k)) [
  | inl hit ↦ rw (at, key_is) (rw hit ((k, ke, rw ((==_iff kx k).0 hit) at new), h))
  | inr miss ↦
      rw (at, key_is)
        (rw miss (
          (kx, at, entry_of-put k e xs kx ke ∙ ground (arith, ==_iff kx k, ==_iff k kx)),
          put-IsProper k e xs ke h,
        ))
]

put_all-IsProper : (es env : List Str) → IsProper env → IsProper (put_all env es)
unfolding put_all put_keyed
put_all-IsProper [] env h = h
put_all-IsProper (e ∷ es) env h = put_all-IsProper es _ (elim (Option-cases (key? e)) [
  | inl skip ↦ rw (skip, put_keyed) h
  | inr (k, ke) ↦ rw (ke, put_keyed) (put-IsProper k e env ke h)
])

pub merge_env-IsProper : (base extra : List Str) → IsProper (merge_env base extra)
merge_env-IsProper base extra =
    rw merge_env-eq-put_all (put_all-IsProper extra _ (put_all-IsProper base [] tt))
