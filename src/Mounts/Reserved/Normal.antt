-- ===== src/Mounts/Reserved/Normal.antt =====
-- `normalizeAbsoluteContainerPath`: a path that it returns is written as plain segments.
use mathlib.Core.List.{reverse, reverse-cons}
use whaleshell_driver.Base.{
  ℕ, Str, codes, ◌==◌, eqb, eqb_iff, split, push_front, trim_right, trim_space, trim_prefix,
  has_prefix, drop_prefix?, is_nil, Bool, true, false, not, ◌&&◌, List, [], ◌∷◌, ◌++◌,
  if◌then◌else◌, ◌≡◌, refl, arith, All, Bool-cases, inl, inr, append_assoc, append-nil, sym, ap,
  ◌∙◌, ◌⊎◌, ok,
}
use whaleshell_driver.GoPath.{render, clean, resolve, step_segment}
use whaleshell_driver.Mounts.{check_segments, normalize_trimmed, normalize_absolute_container_path}
use whaleshell_driver.Mounts.Overlap.{IsSegment, NoSlash, Segments}

abbrev is_slash : ℕ → Bool
is_slash c = eqb c b'/'

-- A segment that is neither `.` nor `..`.
abbrev pub IsPlain : Str → Type 0
IsPlain s = IsSegment s × ((s == codes ".") ≡ false) × ((s == codes "..") ≡ false)

abbrev pub Plain : List Str → Type 0
Plain = All IsPlain

pub split-NoSlash : (s : Str) → All NoSlash (split s b'/')
unfolding split
split-NoSlash [] = (tt, tt)
split-NoSlash (c ∷ s) = step (split s b'/') (split-NoSlash s) (Bool-cases (eqb c b'/'))
  where
    step :
        (ps : List Str)
        → All NoSlash ps
        → (eqb c b'/' ≡ true) ⊎ (eqb c b'/' ≡ false)
        → All NoSlash (if eqb c b'/' then [] ∷ ps else push_front c ps)
    step ps h (inl hit) = rw hit (tt, h)
    step [] h (inr miss) = rw miss ((ground arith, tt), tt)
    step (p ∷ ps) h (inr miss) = rw miss ((ground arith, h.0), h.1)

-- The segments spell the text.
render-split : (s : Str) → render (split s b'/') ≡ b'/' ∷ s
unfolding render split
render-split [] = refl
render-split (c ∷ s) = step (split s b'/') (render-split s) (Bool-cases (eqb c b'/'))
  where
    step :
        (ps : List Str)
        → render ps ≡ b'/' ∷ s
        → (eqb c b'/' ≡ true) ⊎ (eqb c b'/' ≡ false)
        → render (if eqb c b'/' then [] ∷ ps else push_front c ps) ≡ b'/' ∷ c ∷ s
    step ps h (inl hit) = ground (arith, hit, h)
    step [] h (inr miss) = absurd (cc h)
    step (p ∷ ps) h (inr miss) = ground (arith, miss, h)

-- An empty segment at the end is dropped.
drop_empty_last : List Str → List Str
drop_empty_last [] = []
drop_empty_last (s ∷ []) = if is_nil s then [] else s ∷ []
drop_empty_last (s ∷ t ∷ segs) = s ∷ drop_empty_last (t ∷ segs)

trim_right-NoSlash :
    (s r : Str) → NoSlash s → trim_right is_slash (s ++ r) ≡ s ++ trim_right is_slash r
unfolding trim_right
trim_right-NoSlash [] r h = refl
trim_right-NoSlash (c ∷ s) r h = ground (arith, h.0, trim_right-NoSlash s r h.1)

check_segments_head :
    (s : Str) (segs : List Str)
    → check_segments (s ∷ segs) ≡ ok tt
    → ((s == codes ".") ≡ false)
      × ((s == codes "..") ≡ false)
      × ((is_nil s && not (is_nil segs)) ≡ false)
      × (check_segments segs ≡ ok tt)
unfolding check_segments
check_segments_head s segs h = ground arith

drop_empty_last-Plain :
    (segs : List Str)
    → All NoSlash segs
    → check_segments segs ≡ ok tt
    → Plain (drop_empty_last segs)
unfolding drop_empty_last
drop_empty_last-Plain [] hs h = tt
drop_empty_last-Plain ([] ∷ []) hs h = tt
drop_empty_last-Plain ((c ∷ s) ∷ []) hs h =
    let (a, b, _, _) = check_segments_head (c ∷ s) [] h in ((((λ e. cc), hs.0), a, b), tt)
drop_empty_last-Plain (s ∷ t ∷ segs) hs h =
    let (a, b, n, rest) = check_segments_head s (t ∷ segs) h in
    ((((λ e. ground (arith, e)), hs.0), a, b), drop_empty_last-Plain (t ∷ segs) hs.1 rest)

trim_right-render :
    (segs : List Str)
    → All NoSlash segs
    → check_segments segs ≡ ok tt
    → trim_right is_slash (render segs) ≡ render (drop_empty_last segs)
unfolding render drop_empty_last trim_right
trim_right-render [] hs h = refl
trim_right-render ([] ∷ []) hs h = refl
trim_right-render ((c ∷ s) ∷ []) hs h = ground (arith, trim_right-NoSlash (c ∷ s) [] hs.0)
trim_right-render ([] ∷ t ∷ segs) hs h =
    absurd (ground (arith, check_segments_head [] (t ∷ segs) h))
trim_right-render ((c ∷ s) ∷ t ∷ segs) hs h = ground (
  arith,
  trim_right-NoSlash (c ∷ s) (render (t ∷ segs)) hs.0,
  trim_right-render (t ∷ segs) hs.1 (check_segments_head (c ∷ s) (t ∷ segs) h).3,
)

trim_prefix_slash : (c : ℕ) (s : Str) → eqb c b'/' ≡ true → trim_prefix (c ∷ s) (codes "/") ≡ s
unfolding trim_prefix drop_prefix?
trim_prefix_slash c s h = rw h

-- What the checks of `normalizeAbsoluteContainerPath` leave.
normalize_trimmed_checks :
    (value n : Str)
    → normalize_trimmed value ≡ ok n
    → (has_prefix value (codes "/") ≡ true)
      × (check_segments (split (trim_prefix value (codes "/")) b'/') ≡ ok tt)
      × (is_nil (trim_right is_slash value) ≡ false)
      × (n ≡ trim_right is_slash value)
unfolding normalize_trimmed
normalize_trimmed_checks value n h = ground arith

-- The path is written as plain segments, at least one of them.
abbrev pub IsNormal : Str → Type 0
IsNormal n = (y : Str) × (ys : List Str) × Plain (y ∷ ys) × (n ≡ render (y ∷ ys))

Plain-IsNormal :
    (n : Str) (segs : List Str) → Plain segs → n ≡ render segs → is_nil n ≡ false → IsNormal n
unfolding render
Plain-IsNormal n [] h e f = absurd (cc)
Plain-IsNormal n (y ∷ ys) h e f = (y, ys, h, e)

pub normalize_trimmed-IsNormal : (value n : Str) → normalize_trimmed value ≡ ok n → IsNormal n
normalize_trimmed-IsNormal [] n h = absurd (unfold normalize_trimmed in cc h)
normalize_trimmed-IsNormal (c ∷ s) n h =
    let (slash, checked, some', e) = normalize_trimmed_checks (c ∷ s) n h in
    let at : eqb c b'/' ≡ true = unfold has_prefix in ground (arith, slash) in
    let checked' : check_segments (split s b'/') ≡ ok tt =
      rw (trim_prefix_slash c s at) at checked in
    let spelled : c ∷ s ≡ render (split s b'/') = ground (arith, render-split s, eqb_iff c b'/') in
    let n_eq : n ≡ render (drop_empty_last (split s b'/')) =
      e
      ∙ ap (trim_right is_slash) spelled
      ∙ trim_right-render (split s b'/') (split-NoSlash s) checked' in
    Plain-IsNormal n (drop_empty_last (split s b'/'))
      (drop_empty_last-Plain _ (split-NoSlash s) checked') n_eq (rw e some')

-- A path that is accepted is absolute and written as plain segments: no empty one, no `.`, no `..`,
-- no slash at the end.
pub normalize-IsNormal :
    (value n : Str) → normalize_absolute_container_path value ≡ ok n → IsNormal n
unfolding normalize_absolute_container_path
normalize-IsNormal value n h = normalize_trimmed-IsNormal (trim_space value) n h

pub IsNormal-Segments : (segs : List Str) → Plain segs → Segments segs
IsNormal-Segments [] h = tt
IsNormal-Segments (s ∷ segs) h = (h.0.0, IsNormal-Segments segs h.1)

pub split_segment : (s : Str) (r : Str) → NoSlash s → split (s ++ b'/' ∷ r) b'/' ≡ s ∷ split r b'/'
unfolding split
split_segment [] r h = refl
split_segment (c ∷ s) r h = ground (arith, h.0, split_segment s r h.1)

split_last : (s : Str) → NoSlash s → split s b'/' ≡ s ∷ []
unfolding split
split_last [] h = refl
split_last (c ∷ s) h = ground (arith, h.0, split_last s h.1)

pub split-render :
    (y : Str) (ys : List Str) → Segments (y ∷ ys) → split (y ++ render ys) b'/' ≡ y ∷ ys
unfolding render
split-render y [] h = rw append-nil (split_last y h.0.1)
split-render y (z ∷ ys) h =
    split_segment y (z ++ render ys) h.0.1 ∙ ap (λ (t : List Str). y ∷ t) (split-render z ys h.1)

step_plain : (s : Str) (stack : List Str) → IsPlain s → step_segment true stack s ≡ s ∷ stack
unfolding step_segment
step_plain [] stack h = absurd (h.0.0 refl)
step_plain (c ∷ s) [] h = rw (h.1, h.2)
step_plain (c ∷ s) (t ∷ stack) h = rw (h.1, h.2)

resolve-Plain :
    (segs stack : List Str) → Plain segs → resolve true stack segs ≡ reverse stack ++ segs
unfolding resolve
resolve-Plain [] stack h = sym (append-nil (reverse stack))
resolve-Plain (s ∷ segs) stack h = rw (step_plain s stack h.0) (
    resolve-Plain segs (s ∷ stack) h.1
    ∙ rw (reverse-cons s stack) (append_assoc (reverse stack) (s ∷ []) segs))

-- `path.Clean` leaves such a path as it is.
pub clean_normal :
    (y : Str) (ys : List Str) → Plain (y ∷ ys) → clean (render (y ∷ ys)) ≡ render (y ∷ ys)
unfolding clean render
clean_normal y ys h =
    rw (split-render y ys (IsNormal-Segments (y ∷ ys) h), resolve-Plain (y ∷ ys) [] h)
