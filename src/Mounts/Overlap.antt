-- ===== src/Mounts/Overlap.antt =====
-- `pathsOverlap` on texts against the prefix order on lists of segments.
use mathlib.Core.Path.{ap₂}
use whaleshell_driver.Base.{
  Str, codes, ◌==◌, ==_iff, eqb_iff, has_prefix, Bool, true, false, ◌&&◌, ◌||◌, List, [], ◌∷◌, ◌++◌,
  ◌≡◌, ◌≢◌, refl, arith, All, append_assoc, ap, ◌∙◌,
}
use whaleshell_driver.GoPath.{render}
use whaleshell_driver.Mounts.{paths_overlap}

-- A path segment: not empty, and without a slash.
abbrev pub NoSlash : Str → Type 0
NoSlash = All (λ c. c ≢ b'/')

abbrev pub IsSegment : Str → Type 0
IsSegment s = (s ≢ []) × NoSlash s

abbrev pub Segments : List Str → Type 0
Segments = All IsSegment

-- The prefix order on segments: the directory `xs` holds `ys`, or is it.
unfoldable pub holds : List Str → List Str → Bool
holds [] ys = true
holds (x ∷ xs) [] = false
holds (x ∷ xs) (y ∷ ys) = y == x && holds xs ys

-- The directory `xs` holds `ys` further down.
holds_below : List Str → List Str → Bool
holds_below [] [] = false
holds_below [] (y ∷ ys) = true
holds_below (x ∷ xs) [] = false
holds_below (x ∷ xs) (y ∷ ys) = y == x && holds_below xs ys

-- A text that is empty or begins with a slash.
abbrev Slashed : Str → Type 0
Slashed [] = Unit {0}
Slashed (c ∷ r) = c ≡ b'/'

Slashed-render : (xs : List Str) → Slashed (render xs)
unfolding render
Slashed-render [] = tt
Slashed-render (x ∷ xs) = refl

-- A text that begins with a slash.
abbrev StartsSlashed : Str → Type 0
StartsSlashed [] = ⊥
StartsSlashed (c ∷ q) = c ≡ b'/'

has_prefix_segment :
    (s t r q : Str)
    → NoSlash s
    → NoSlash t
    → Slashed r
    → StartsSlashed q
    → has_prefix (s ++ r) (t ++ q) ≡ (s == t && has_prefix r q)
unfolding has_prefix
has_prefix_segment s t r [] hs ht hr hq = absurd hq
has_prefix_segment [] [] r (d ∷ q) hs ht hr hq = refl
has_prefix_segment [] (y ∷ t) [] (d ∷ q) hs ht hr hq = refl
has_prefix_segment [] (y ∷ t) (c ∷ r) (d ∷ q) hs ht hr hq = ground (arith, ht.0, eqb_iff c y)
has_prefix_segment (x ∷ s) [] r (d ∷ q) hs ht hr hq = ground (arith, hs.0, eqb_iff x d)
has_prefix_segment (x ∷ s) (y ∷ t) r (d ∷ q) hs ht hr hq =
    ground (arith, has_prefix_segment s t r (d ∷ q) hs.1 ht.1 hr hq)

StartsSlashed-render : (ys : List Str) → StartsSlashed (render ys ++ b'/' ∷ [])
unfolding render
StartsSlashed-render [] = refl
StartsSlashed-render (y ∷ ys) = refl

has_prefix-render :
    (xs ys : List Str)
    → Segments xs
    → Segments ys
    → has_prefix (render xs) (render ys ++ b'/' ∷ []) ≡ holds_below ys xs
unfolding render holds_below has_prefix
has_prefix-render [] [] hx hy = refl
has_prefix-render [] (y ∷ ys) hx hy = refl
has_prefix-render (x ∷ xs) [] hx hy = refl
has_prefix-render (x ∷ xs) (y ∷ ys) hx hy =
    ap (has_prefix (x ++ render xs)) (append_assoc y (render ys) (b'/' ∷ []))
    ∙ has_prefix_segment x y (render xs) (render ys ++ b'/' ∷ []) hx.0.1 hy.0.1 (Slashed-render xs)
        (StartsSlashed-render ys)
    ∙ ap (λ b. x == y && b) (has_prefix-render xs ys hx.1 hy.1)

same : List Str → List Str → Bool
same [] [] = true
same [] (y ∷ ys) = false
same (x ∷ xs) [] = false
same (x ∷ xs) (y ∷ ys) = x == y && same xs ys

eq_segment :
    (s t r q : Str)
    → NoSlash s
    → NoSlash t
    → Slashed r
    → Slashed q
    → (s ++ r == t ++ q) ≡ (s == t && r == q)
eq_segment [] [] r q hs ht hr hq = refl
eq_segment [] (y ∷ t) [] q hs ht hr hq = refl
eq_segment [] (y ∷ t) (c ∷ r) q hs ht hr hq = ground (arith, ht.0, eqb_iff c y)
eq_segment (x ∷ s) [] r [] hs ht hr hq = refl
eq_segment (x ∷ s) [] r (d ∷ q) hs ht hr hq = ground (arith, hs.0, eqb_iff x d)
eq_segment (x ∷ s) (y ∷ t) r q hs ht hr hq = ground (arith, eq_segment s t r q hs.1 ht.1 hr hq)

eq_render : (xs ys : List Str) → Segments xs → Segments ys → (render xs == render ys) ≡ same xs ys
unfolding render same
eq_render [] [] hx hy = refl
eq_render [] (y ∷ ys) hx hy = refl
eq_render (x ∷ xs) [] hx hy = refl
eq_render (x ∷ xs) (y ∷ ys) hx hy =
    eq_segment x y (render xs) (render ys) hx.0.1 hy.0.1 (Slashed-render xs) (Slashed-render ys)
    ∙ ap (λ b. x == y && b) (eq_render xs ys hx.1 hy.1)

==_sym : (s t : Str) → (s == t) ≡ (t == s)
==_sym s t = ground (arith, ==_iff s t, ==_iff t s)

holds_cases :
    (xs ys : List Str)
    → (same xs ys || (holds_below ys xs || holds_below xs ys)) ≡ (holds xs ys || holds ys xs)
unfolding same holds holds_below
holds_cases [] [] = refl
holds_cases [] (y ∷ ys) = refl
holds_cases (x ∷ xs) [] = refl
holds_cases (x ∷ xs) (y ∷ ys) = ground (arith, ==_sym x y, holds_cases xs ys)

not_root : (x : Str) (xs : List Str) → IsSegment x → (render (x ∷ xs) == codes "/") ≡ false
unfolding render
not_root [] xs h = absurd (h.0 refl)
not_root (c ∷ x) xs h = refl

-- On paths that are written as segments, the root aside, two paths overlap exactly where one is a
-- directory that holds the other, segment by segment: `/run/cauteum` and `/run/cauteum2` do not.
pub paths_overlap-render :
    (x y : Str) (xs ys : List Str)
    → Segments (x ∷ xs)
    → Segments (y ∷ ys)
    → paths_overlap (render (x ∷ xs)) (render (y ∷ ys))
      ≡ (holds (x ∷ xs) (y ∷ ys) || holds (y ∷ ys) (x ∷ xs))
unfolding paths_overlap
paths_overlap-render x y xs ys hx hy = ground (
  arith,
  eq_render (x ∷ xs) (y ∷ ys) hx hy,
  not_root x xs hx.0,
  not_root y ys hy.0,
  has_prefix-render (x ∷ xs) (y ∷ ys) hx hy,
  has_prefix-render (y ∷ ys) (x ∷ xs) hy hx,
  holds_cases (x ∷ xs) (y ∷ ys),
)

holds_split : (xs ys : List Str) → (same ys xs || holds_below xs ys) ≡ holds xs ys
unfolding same holds holds_below
holds_split [] [] = refl
holds_split [] (y ∷ ys) = refl
holds_split (x ∷ xs) [] = refl
holds_split (x ∷ xs) (y ∷ ys) = ground (arith, holds_split xs ys)

-- The test for a path at or below a directory.
pub within-render :
    (xs ys : List Str)
    → Segments xs
    → Segments ys
    → (render ys == render xs || has_prefix (render ys) (render xs ++ codes "/")) ≡ holds xs ys
within-render xs ys hx hy =
    ap₂ ◌||◌ (eq_render ys xs hy hx) (has_prefix-render ys xs hy hx) ∙ holds_split xs ys
