-- ===== src/Runtime/Quote.antt =====
-- `shellQuote` of internal/docker/docker.go against the rules by which a POSIX shell reads a word.
use whaleshell_driver.Base.{
  ℕ, Str, ◌++◌, [], ◌∷◌, eqb, eqb_iff, Option, none, some, if◌then◌else◌, ◌≡◌, refl, arith,
  Bool-cases, inl, inr,
}
use whaleshell_driver.Runtime.{quote_body, shell_quote}

abbrev prepend : ℕ → Option Str → Option Str
prepend c none = none
prepend c (some s) = some (c ∷ s)

-- Where the shell is in a word.
pub data Quoting : Type 0 where
  plain quoted escaped : Quoting

-- The word that the shell reads: within single quotes each character stands for itself; outside a
-- backslash takes the next character as it is. `none` is an open quote, a backslash with nothing or a
-- newline after it, or an unquoted character, which might not stand for itself.
unfoldable pub shell_word : Quoting → Str → Option Str
shell_word plain [] = some []
shell_word quoted [] = none
shell_word escaped [] = none
shell_word plain (c ∷ s) =
    let quote = shell_word quoted s in
    let escape = shell_word escaped s in
    if eqb c b'\'' then quote else if eqb c b'\\' then escape else none
shell_word quoted (c ∷ s) =
    let out = shell_word plain s in
    let rest = shell_word quoted s in if eqb c b'\'' then out else prepend c rest
shell_word escaped (c ∷ s) =
    let rest = shell_word plain s in if eqb c 10 then none else prepend c rest

quoted_body : (s : Str) → shell_word quoted (quote_body s ++ b'\'' ∷ []) ≡ some s
unfolding shell_word quote_body
quoted_body [] = refl
quoted_body (c ∷ s) = elim (Bool-cases (eqb c b'\'')) [
  | inl quote ↦ ground (arith, quote, eqb_iff c b'\'', quoted_body s)
  | inr other ↦ ground (arith, other, quoted_body s)
]

-- A shell reads the quoted text of a value as one word, which is the value, whatever is in it.
pub shell_quote_lem : (value : Str) → shell_word plain (shell_quote value) ≡ some value
unfolding shell_word shell_quote
shell_quote_lem value = quoted_body value
