-- ===== src/GoPath.antt =====
-- The functions of Go's `path` and `filepath` (on Unix) that the drivers call.
use mathlib.Core.List.{reverse}
use whaleshell_driver.Base.{
  Str, codes, ◌==◌, split, eqb, is_nil, trim_right, Bool, true, false, not, ◌||◌, List, [], ◌∷◌,
  ◌++◌, if◌then◌else◌,
}

-- `/` before every segment.
unfoldable pub render : List Str → Str
render [] = []
render (s ∷ segs) = b'/' ∷ (s ++ render segs)

-- A segment against the stack of those before it, the last on top.
unfoldable pub step_segment : Bool → List Str → Str → List Str
step_segment rooted [] s =
    if is_nil s || s == codes "."
    then []
    else if s == codes ".."
    then (if rooted then [] else s ∷ [])
    else s ∷ []
step_segment rooted (t ∷ stack) s =
    if is_nil s || s == codes "."
    then t ∷ stack
    else if s == codes ".."
    then (if t == codes ".." then s ∷ t ∷ stack else stack)
    else s ∷ t ∷ stack

unfoldable pub resolve : Bool → List Str → List Str → List Str
unfolding step_segment
resolve rooted stack [] = reverse stack
resolve rooted stack (s ∷ segs) = resolve rooted (step_segment rooted stack s) segs

abbrev rooted_text : List Str → Str
rooted_text [] = codes "/"
rooted_text (s ∷ segs) = render (s ∷ segs)

abbrev pub relative_text : List Str → Str
relative_text [] = codes "."
relative_text (s ∷ segs) = s ++ render segs

-- Clean
unfoldable pub clean : Str → Str
unfolding render resolve split
clean [] = codes "."
clean (c ∷ s) =
    if eqb c b'/'
    then rooted_text (resolve true [] (split s b'/'))
    else relative_text (resolve false [] (split (c ∷ s) b'/'))

-- IsAbs
unfoldable pub is_abs : Str → Bool
is_abs [] = false
is_abs (c ∷ s) = eqb c b'/'

-- The text up to and with its last slash, and the text behind that.
unfoldable pub dir_part : Str → Str
dir_part [] = []
dir_part (c ∷ s) = let rest = dir_part s in if eqb c b'/' || not (is_nil rest) then c ∷ rest else []

unfoldable pub base_part : Str → Str
base_part [] = []
base_part (c ∷ s) =
    let rest = base_part s in
    if eqb c b'/' then rest else if is_nil (dir_part (c ∷ s)) then c ∷ s else rest

-- Dir
unfoldable pub dir : Str → Str
unfolding dir_part clean
dir p = clean (dir_part p)

abbrev base_of : Str → Str
base_of [] = codes "/"
base_of (c ∷ s) = base_part (c ∷ s)

-- Base
unfoldable pub base : Str → Str
unfolding base_part dir_part trim_right
base [] = codes "."
base (c ∷ s) = base_of (trim_right (λ b. eqb b b'/') (c ∷ s))

join_from : Str → List Str → Str
join_from out [] = out
join_from out (p ∷ ps) =
    join_from (if is_nil out then p else if is_nil p then out else out ++ b'/' ∷ p) ps

abbrev clean_if_any : Str → Str
clean_if_any [] = []
clean_if_any (c ∷ s) = clean (c ∷ s)

-- Join
unfoldable pub join : List Str → Str
unfolding join_from clean
join ps = clean_if_any (join_from [] ps)
