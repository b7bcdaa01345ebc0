-- ===== src/Base/Decimal.antt =====
-- Decimal notation: `strconv.Itoa`, `%d`, `strconv.ParseInt` and `strconv.ParseUint` in base 10.
use whaleshell_driver.Base.Tests.{leb, ltb, eqb, if◌then◌else◌}
use whaleshell_driver.Base.Int.{ℤ, pos, negsuc}
use whaleshell_driver.Base.Text.{Str}
use Prim.Native.Nat.{ℕ, zero, suc, ◌+◌, ◌-◌, ◌*◌, ◌/◌, ◌%◌, ◌^◌}
use mathlib.Core.Bool.{◌&&◌, ◌||◌}
use mathlib.Core.Option.{Option, none, some}
use mathlib.Core.List.{[], ◌∷◌}

-- A number has at most as many digits as its value and one more, which is the fuel.
show_from : ℕ → ℕ → Str → Str
show_from zero n acc = acc
show_from (suc f) n acc =
    let acc' = (48 + n % 10) ∷ acc in
    let rest = show_from f (n / 10) acc' in if ltb n 10 then acc' else rest

-- strconv.Itoa of a number that is not negative
unfoldable pub show : ℕ → Str
unfolding show_from
show n = show_from (suc n) n []

-- The value of a run of digits, `none` at any other character.
digits_from : ℕ → Str → Option ℕ
digits_from acc [] = some acc
digits_from acc (c ∷ s) =
    let rest = digits_from (acc * 10 + (c - 48)) s in if leb 48 c && leb c 57 then rest else none

-- strconv.ParseUint(s, 10, bits)
unfoldable pub parse_uint : ℕ → Str → Option ℕ
unfolding digits_from
parse_uint bits [] = none
parse_uint bits (c ∷ s) = elim (digits_from 0 (c ∷ s)) [
  | none ↦ none
  | some n ↦ if ltb n (2 ^ bits) then some n else none
]

abbrev negate : ℕ → ℤ
negate zero = pos 0
negate (suc n) = negsuc n

signed : ℕ → Str → Option ℤ
unfolding digits_from
signed sign [] = none
signed sign (c ∷ s) = elim (digits_from 0 (c ∷ s)) [
  | none ↦ none
  | some n ↦
      if eqb sign b'-'
      then (if leb n (2 ^ 63) then some (negate n) else none)
      else if ltb n (2 ^ 63)
      then some (pos n)
      else none
]

-- strconv.ParseInt(s, 10, 64)
unfoldable pub parse_int : Str → Option ℤ
unfolding signed
parse_int [] = none
parse_int (c ∷ s) = if eqb c b'-' || eqb c b'+' then signed c s else signed b'+' (c ∷ s)

-- strconv.Itoa
unfoldable pub show_ℤ : ℤ → Str
unfolding show
show_ℤ (pos n) = show n
show_ℤ (negsuc n) = b'-' ∷ show (suc n)
