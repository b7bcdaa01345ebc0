-- ===== src/Registry/Dispatch.antt =====
-- Which factory answers for a kind.
use whaleshell_driver.Base.{
  Str, codes, ◌==◌, ==_iff, trim_space, lower, any, is_nil, Bool, true, false, ◌&&◌, ◌||◌, List, [],
  ◌∷◌, if◌then◌else◌, some, Result, ◌≡◌, refl, sym, ap, ◌∙◌, subst, inl, inr, arith, Bool-cases,
  All,
}
use whaleshell_driver.Base.Assoc.{find-insert}
use whaleshell_driver.Engine.Resources.{All-map}
use whaleshell_driver.Registry.{
  OpenError, Registry, normalize_kind, register, run_factory, open_driver,
}

-- The spellings of the backends' kinds, in lower case and with no space around them; the empty text means docker.
abbrev pub spellings : List (List Str)
spellings =
    ([] ∷ codes "docker" ∷ [])
    ∷ (codes "podman" ∷ [])
    ∷ (codes "vm" ∷ codes "microvm" ∷ [])
    ∷ (codes "kubernetes" ∷ codes "k8s" ∷ [])
    ∷ []

abbrev in_row : Str → List Str → Bool
in_row a = any (λ s. s == a)

abbrev alike : Str → Str → Bool
alike a b = a == b || any (λ row. in_row a row && in_row b row) spellings

-- Two texts name one backend: they are equal, or two spellings of it, up to letter case and the space around.
abbrev pub same_kind : Str → Str → Bool
same_kind a b = alike (lower (trim_space a)) (lower (trim_space b))

abbrev canon : Str → Str
canon k =
    if k == codes "podman"
    then codes "podman"
    else if k == codes "vm" || k == codes "microvm"
    then codes "vm"
    else if k == codes "kubernetes" || k == codes "k8s"
    then codes "kubernetes"
    else if is_nil k || k == codes "docker"
    then codes "docker"
    else k

abbrev names : List Str
names =
    []
    ∷ codes "docker"
    ∷ codes "podman"
    ∷ codes "vm"
    ∷ codes "microvm"
    ∷ codes "kubernetes"
    ∷ codes "k8s"
    ∷ []

abbrev Agree : Str → Str → Type 0
Agree a b = (canon a == canon b) ≡ alike a b

-- Not the spelling t.
abbrev Apart : Str → Str → Type 0
Apart s t = ((s == t) ≡ false) × ((t == s) ≡ false)

by_name : (P : Str → Type 0) (s : Str) (ts : List Str) → All P ts → (All (Apart s) ts → P s) → P s
by_name P s [] h other = other tt
by_name P s (t ∷ ts) h other = elim (Bool-cases (s == t)) [
  | inl same ↦ subst P (sym ((==_iff s t).0 same)) h.0
  | inr apart ↦ elim (Bool-cases (t == s)) [
    | inl same ↦ subst P ((==_iff t s).0 same) h.0
    | inr apart' ↦ by_name P s ts h.1 (λ hs. other ((apart, apart'), hs))
  ]
]

nil_apart : (s : Str) → (s == []) ≡ false → is_nil s ≡ false
nil_apart [] h = h
nil_apart (c ∷ s) h = refl

abbrev IsOther : Str → Type 0
IsOther s = All (Apart s) names

canon-other : (s : Str) → IsOther s → canon s ≡ s
canon-other s ((n, _), ((a, _), ((b, _), ((c, _), ((d, _), ((e, _), ((f, _), _))))))) =
    rw (b, c, d, e, f, nil_apart s n, a) refl

or_skip : (p q : Bool) → ((p && false) || q) ≡ q
or_skip true q = refl
or_skip false q = refl

or_false : (x : Bool) → (x || false) ≡ x
or_false true = refl
or_false false = refl

no_rows :
    (x p q r s : Bool)
    → (x || ((p && false) || ((q && false) || ((r && false) || ((s && false) || false))))) ≡ x
no_rows x p q r s =
    ap (λ t. x || t) (or_skip p _ ∙ (or_skip q _ ∙ (or_skip r _ ∙ or_skip s _))) ∙ or_false x

alike-other_right : (a b : Str) → IsOther b → alike a b ≡ (a == b)
alike-other_right a b ((_, n), ((_, x), ((_, y), ((_, z), ((_, u), ((_, v), ((_, w), _))))))) =
    rw (n, x, y, z, u, v, w)
      (no_rows (a == b) (in_row a ([] ∷ codes "docker" ∷ [])) (in_row a (codes "podman" ∷ []))
        (in_row a (codes "vm" ∷ codes "microvm" ∷ []))
        (in_row a (codes "kubernetes" ∷ codes "k8s" ∷ [])))

alike-other_left : (a b : Str) → IsOther a → alike a b ≡ (a == b)
alike-other_left a b ((_, n), ((_, x), ((_, y), ((_, z), ((_, u), ((_, v), ((_, w), _))))))) =
    rw (n, x, y, z, u, v, w) (ground arith)

canon_on_left : (a b : Str) → IsOther b → (canon a == b) ≡ (a == b)
canon_on_left a b h =
    by_name (λ a. (canon a == b) ≡ (a == b)) a names (table h)
      λ other. ap (λ t. t == b) (canon-other a other)
  where
    table : IsOther b → All (λ a. (canon a == b) ≡ (a == b)) names
    table ((_, n), ((_, d), ((_, p), ((_, v), ((_, m), ((_, k), ((_, k8), _))))))) =
        (d ∙ sym n, (refl, (refl, (refl, (v ∙ sym m, (refl, (k ∙ sym k8, tt)))))))

canon_on_right : (a b : Str) → IsOther a → (a == canon b) ≡ (a == b)
canon_on_right a b h =
    by_name (λ b. (a == canon b) ≡ (a == b)) b names (table h)
      λ other. ap (λ t. a == t) (canon-other b other)
  where
    table : IsOther a → All (λ b. (a == canon b) ≡ (a == b)) names
    table ((n, _), ((d, _), ((p, _), ((v, _), ((m, _), ((k, _), ((k8, _), _))))))) =
        (d ∙ sym n, (refl, (refl, (refl, (v ∙ sym m, (refl, (k ∙ sym k8, tt)))))))

-- The spellings among themselves.
names-Agree : All (λ a. All (Agree a) names) names
names-Agree = (
  (refl, (refl, (refl, (refl, (refl, (refl, (refl, tt))))))),
  (
    (refl, (refl, (refl, (refl, (refl, (refl, (refl, tt))))))),
    (
      (refl, (refl, (refl, (refl, (refl, (refl, (refl, tt))))))),
      (
        (refl, (refl, (refl, (refl, (refl, (refl, (refl, tt))))))),
        (
          (refl, (refl, (refl, (refl, (refl, (refl, (refl, tt))))))),
          (
            (refl, (refl, (refl, (refl, (refl, (refl, (refl, tt))))))),
            ((refl, (refl, (refl, (refl, (refl, (refl, (refl, tt))))))), tt),
          ),
        ),
      ),
    ),
  ),
)

canon-Agree : (a b : Str) → Agree a b
canon-Agree a b =
    by_name (λ a. Agree a b) a names
      (All-map names
        (λ a row. by_name (Agree a) b names row λ other.
          ap (λ t. canon a == t) (canon-other b other)
          ∙ (canon_on_left a b other ∙ sym (alike-other_right a b other)))
        names-Agree)
      λ other.
        ap (λ t. t == canon b) (canon-other a other)
        ∙ (canon_on_right a b other ∙ sym (alike-other_left a b other))

module _ {D G V E : Type 0} where
  -- After a factory is registered for a kind, it is the one that runs for every text that names the same
  -- backend, and every other text opens as before. Two texts name one backend if they are equal up to
  -- letter case and the space around, or are in this way two of the spellings in one row: docker or
  -- nothing; podman; vm or microvm; kubernetes or k8s.
  pub open_driver-register :
      (r : Registry D G V E) (kind asked : Str) (f : Result E D)
      → open_driver (register r kind f) asked ≡ (
          if same_kind kind asked
          then run_factory (OpenError.unknown_kind asked) (some f)
          else open_driver r asked)
  unfolding open_driver register normalize_kind
  open_driver-register r kind asked f =
      rw (find-insert, canon-Agree (lower (trim_space kind)) (lower (trim_space asked)))
        (ground (arith, Bool-cases (same_kind kind asked)))
