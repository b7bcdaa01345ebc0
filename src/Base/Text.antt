-- ===== src/Base/Text.antt =====
-- Go strings as lists of code points, with the functions of `strings` that the program calls.
-- `lower` and `fold` are exact on ASCII and on the runes that are mapped into ASCII; they leave
-- every other rune as it is.
use Prim.Native.Char.{code}
use Prim.Native.String.{String}
use Prim.Native.Nat.{ℕ, ◌+◌}
use mathlib.Core.Path.{◌≡◌, refl}
use mathlib.Core.Logic.{◌↔◌}
use mathlib.Core.Bool.{Bool, true, false, ◌&&◌, ◌||◌}
use mathlib.Core.Option.{Option, none, some}
use mathlib.Core.List.{List, [], ◌∷◌, map}
use native.Mathlib.Omega.{arith}
use whaleshell_driver.Base.Tests.{leb, eqb, eqb_iff, if◌then◌else◌}
use whaleshell_driver.Base.Lists.{is_nil}

abbrev pub Str : Type 0
Str = List ℕ

abbrev pub codes : String → Str
codes String.[] = []
codes (String.◌∷◌ c s) = code c ∷ codes s

infix 50 ◌==◌
abbrev pub ◌==◌ : Str → Str → Bool
[] == [] = true
[] == (y ∷ ys) = false
(x ∷ xs) == [] = false
(x ∷ xs) == (y ∷ ys) = eqb x y && (xs == ys)

pub ==_iff : (s t : Str) → ((s == t) ≡ true) ↔ (s ≡ t)
==_iff [] [] = (λ _. refl, λ _. refl)
==_iff [] (y ∷ ys) = (λ h. cc, λ h. cc)
==_iff (x ∷ xs) [] = (λ h. cc, λ h. cc)
==_iff (x ∷ xs) (y ∷ ys) = ground (arith, ==_iff xs ys, eqb_iff x y)

-- unicode.IsSpace
unfoldable pub is_space : ℕ → Bool
is_space c =
    (leb 9 c && leb c 13)
    || eqb c 32
    || eqb c 0x85
    || eqb c 0xa0
    || eqb c 0x1680
    || (leb 0x2000 c && leb c 0x200a)
    || eqb c 0x2028
    || eqb c 0x2029
    || eqb c 0x202f
    || eqb c 0x205f
    || eqb c 0x3000

-- The characters of a text from the first that fails the test on, and up to the last that does.
unfoldable pub trim_left : (ℕ → Bool) → Str → Str
trim_left p [] = []
trim_left p (c ∷ s) = let rest = trim_left p s in if p c then rest else c ∷ s

unfoldable pub trim_right : (ℕ → Bool) → Str → Str
trim_right p [] = []
trim_right p (c ∷ s) = let rest = trim_right p s in if is_nil rest && p c then [] else c ∷ rest

-- strings.TrimSpace
unfoldable pub trim_space : Str → Str
unfolding trim_left trim_right is_space
trim_space s = trim_right is_space (trim_left is_space s)

unfoldable pub lower_rune : ℕ → ℕ
lower_rune c =
    if leb 65 c && leb c 90
    then c + 32
    else if eqb c 0x212a
    then 107
    else if eqb c 0x130
    then 105
    else c

-- strings.ToLower
unfoldable pub lower : Str → Str
unfolding lower_rune
lower s = map lower_rune s

unfoldable pub fold_rune : ℕ → ℕ
fold_rune c =
    if leb 65 c && leb c 90
    then c + 32
    else if eqb c 0x212a
    then 107
    else if eqb c 0x17f
    then 115
    else c

-- strings.EqualFold
unfoldable pub equal_fold : Str → Str → Bool
unfolding fold_rune
equal_fold s t = map fold_rune s == map fold_rune t

-- strings.HasPrefix
unfoldable pub has_prefix : Str → Str → Bool
has_prefix s [] = true
has_prefix [] (p ∷ ps) = false
has_prefix (c ∷ s) (p ∷ ps) = eqb c p && has_prefix s ps

-- strings.TrimPrefix
unfoldable pub drop_prefix? : Str → Str → Option Str
drop_prefix? s [] = some s
drop_prefix? [] (p ∷ ps) = none
drop_prefix? (c ∷ s) (p ∷ ps) = let rest = drop_prefix? s ps in if eqb c p then rest else none

abbrev or_else : Str → Option Str → Str
or_else s none = s
or_else s (some t) = t

unfoldable pub trim_prefix : Str → Str → Str
unfolding drop_prefix?
trim_prefix s p = or_else s (drop_prefix? s p)

-- strings.Contains
unfoldable pub contains : Str → Str → Bool
unfolding has_prefix
contains [] sub = has_prefix [] sub
contains (c ∷ s) sub = has_prefix (c ∷ s) sub || contains s sub

-- strings.Cut at one character; `none` where the character does not occur.
unfoldable pub cut : Str → ℕ → Option (Str × Str)
cut [] sep = none
cut (c ∷ s) sep =
    let rest = cut s sep in
    if eqb c sep then some ([], s) else elim rest [ none ↦ none | some (a, b) ↦ some (c ∷ a, b) ]

abbrev pub push_front : ℕ → List Str → List Str
push_front c [] = (c ∷ []) ∷ []
push_front c (p ∷ ps) = (c ∷ p) ∷ ps

-- strings.Split at one character
unfoldable pub split : Str → ℕ → List Str
split [] sep = [] ∷ []
split (c ∷ s) sep = let rest = split s sep in if eqb c sep then [] ∷ rest else push_front c rest
