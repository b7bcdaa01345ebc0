-- ===== src/Json.antt =====
-- JSON values, and what `encoding/json` of Go's library decodes from them into the types that
-- internal/docker/driver_config.go uses. A null leaves the variable at its zero value.
use whaleshell_driver.Base.{
  Str, ◌==◌, any, Bool, false, ◌||◌, List, [], ◌∷◌, if◌then◌else◌, Option, none, some, ℤ, pos,
}

-- A number is `some` where its literal is an int64. An object keeps its members in order, a repeated
-- key included.
mutual
  pub data Json : Type 0 where
    null : Json
    bool : Bool → Json
    number : Option ℤ → Json
    string : Str → Json
    array : Items → Json
    object : Members → Json

  pub data Items : Type 0 where
    nil : Items
    cons : Json → Items → Items

  pub data Members : Type 0 where
    end : Members
    member : Str → Json → Members → Members

-- An object as `map[string]json.RawMessage`; where keys are distinct, the first is the only one.
unfoldable pub field : Str → Members → Option Json
field k end = none
field k (member j v rest) = let later = field k rest in if j == k then some v else later

unfoldable pub keys : Members → List Str
keys end = []
keys (member j v rest) = j ∷ keys rest

abbrev has : Str → List Str → Bool
has k = any (λ j. j == k)

-- rejectDuplicateJSONKeys: a key stands twice in some object. `seen` are the keys before.
unfoldable mutual
  pub has_duplicates : Json → Bool
  has_duplicates null = false
  has_duplicates (bool b) = false
  has_duplicates (number n) = false
  has_duplicates (string s) = false
  has_duplicates (array xs) = items_have_duplicates xs
  has_duplicates (object ms) = members_have_duplicates [] ms

  pub items_have_duplicates : Items → Bool
  items_have_duplicates nil = false
  items_have_duplicates (cons x xs) = has_duplicates x || items_have_duplicates xs

  pub members_have_duplicates : List Str → Members → Bool
  members_have_duplicates seen end = false
  members_have_duplicates seen (member j v rest) =
      has j seen || (has_duplicates v || members_have_duplicates (j ∷ seen) rest)

-- json.Unmarshal into a string
unfoldable pub as_string : Json → Option Str
as_string null = some []
as_string (string s) = some s
as_string _ = none

-- into a bool
unfoldable pub as_bool : Json → Option Bool
as_bool null = some false
as_bool (bool b) = some b
as_bool _ = none

-- into an int64
unfoldable pub as_int64 : Json → Option ℤ
as_int64 null = some (pos 0)
as_int64 (number n) = n
as_int64 _ = none

strings : Items → Option (List Str)
unfolding as_string
strings nil = some []
strings (cons x xs) = elim (as_string x) [
  | none ↦ none
  | some s ↦ elim (strings xs) [ none ↦ none | some ss ↦ some (s ∷ ss) ]
]

-- into a []string
unfoldable pub as_strings : Json → Option (List Str)
unfolding strings
as_strings null = some []
as_strings (array xs) = strings xs
as_strings _ = none

abbrev as_members : Json → Option Members
as_members null = some end
as_members (object ms) = some ms
as_members _ = none

objects : Items → Option (List Members)
objects nil = some []
objects (cons x xs) = elim (as_members x) [
  | none ↦ none
  | some ms ↦ elim (objects xs) [ none ↦ none | some rest ↦ some (ms ∷ rest) ]
]

-- into a []map[string]json.RawMessage that is not nil
unfoldable pub as_objects : Json → Option (List Members)
unfolding objects
as_objects (array xs) = objects xs
as_objects _ = none
