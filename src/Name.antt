-- ===== src/Name.antt =====
-- `sanitizeName` of internal/docker/docker.go.
pub mod Shape
use whaleshell_driver.Base.{
  ℕ, Str, trim_space, trim_left, trim_right, lower, leb, eqb, take, Bool, ◌&&◌, ◌||◌, List, [], ◌∷◌,
  ◌++◌, if◌then◌else◌,
}

-- The switch on one rune: what is written for it.
sanitize_rune : ℕ → Str
sanitize_rune r =
    if (leb b'a' r && leb r b'z') || (leb b'0' r && leb r b'9')
    then r ∷ []
    else if eqb r b'-' || eqb r b'_'
    then b'-' ∷ []
    else []

sanitize_runes : Str → Str
unfolding sanitize_rune
sanitize_runes [] = []
sanitize_runes (r ∷ s) = sanitize_rune r ++ sanitize_runes s

abbrev is_dash : ℕ → Bool
is_dash c = eqb c b'-'

-- strings.Trim(s, "-")
trim_dashes : Str → Str
unfolding trim_left trim_right
trim_dashes s = trim_right is_dash (trim_left is_dash s)

-- What is written is ASCII, so `s[:63]` is 63 characters, and `take` does the test of the length.
unfoldable pub sanitize_name : Str → Str
unfolding trim_space lower sanitize_runes trim_dashes
sanitize_name name = take 63 (trim_dashes (sanitize_runes (lower (trim_space name))))
