-- ===== src/Base/Assoc.antt =====
-- A Go map with string keys, as the list of its entries.
use mathlib.Core.Path.{◌≡◌, refl}
use mathlib.Core.Option.{Option, none, some}
use mathlib.Core.List.{List, [], ◌∷◌}
use native.Mathlib.Omega.{arith}
use whaleshell_driver.Base.Tests.{if◌then◌else◌}
use whaleshell_driver.Base.Text.{Str, ◌==◌, ==_iff}

module _ {ℓ} {F : Type ℓ} where
  -- m[k], where the key is there
  unfoldable pub find : Str → List (Str × F) → Option F
  find k [] = none
  find k ((j, f) ∷ m) = if j == k then some f else find k m

  -- m[k] = f
  unfoldable pub insert : Str → F → List (Str × F) → List (Str × F)
  insert k f [] = (k, f) ∷ []
  insert k f ((j, g) ∷ m) = if j == k then (k, f) ∷ m else (j, g) ∷ insert k f m

  pub find-insert :
      (k j : Str) (f : F) (m : List (Str × F))
      → find j (insert k f m) ≡ (if k == j then some f else find j m)
  unfolding find insert
  find-insert k j f [] = refl
  find-insert k j f ((i, g) ∷ m) =
      ground (arith, ==_iff k j, ==_iff i k, ==_iff i j, find-insert k j f m)

abbrev or_empty : Option Str → Str
or_empty none = []
or_empty (some s) = s

-- m[k] of a map to strings: empty where the key is missing
unfoldable pub get : Str → List (Str × Str) → Str
unfolding find
get k m = or_empty (find k m)
