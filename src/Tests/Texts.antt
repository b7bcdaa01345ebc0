-- ===== src/Tests/Texts.antt =====
-- Environments, names and quoted texts.
use whaleshell_driver.Base.{
  Str, codes, List, [], ◌∷◌, ◌++◌, some, ◌≡◌, refl, trim_right, eqb, length, ◌≤◌, keep, not, true,
  false, ◌==◌, ◌&&◌,
}
use whaleshell_driver.Env.{merge_env, filter_identity_env}
use whaleshell_driver.Env.Merge.{entry_of, last_entry, entry_of-merge_env}
use whaleshell_driver.Env.Identity.{is_identity, filter_identity_env_lem}
use whaleshell_driver.Name.{sanitize_name}
use whaleshell_driver.Name.Shape.{
  NameRunes, StartsWell, ends_in_dash, sanitize_name_shape, sanitize_name_again,
}
use whaleshell_driver.Runtime.{shell_quote}
use whaleshell_driver.Runtime.Quote.{Quoting, shell_word, shell_quote_lem}

abbrev base_env : List Str
base_env = codes "PATH=/bin" ∷ codes "HOME=/root" ∷ codes "noise" ∷ []

abbrev extra_env : List Str
extra_env = codes "PATH=/usr/bin" ∷ codes "OPENSHELL_SANDBOX_UID=0" ∷ []

entry_of-merge_env_example :
    entry_of (codes "PATH") (merge_env base_env extra_env)
    ≡ last_entry (codes "PATH") (base_env ++ extra_env)
entry_of-merge_env_example = entry_of-merge_env base_env extra_env (codes "PATH")

abbrev given_env : List Str
given_env =
    codes "PATH=/bin"
    ∷ codes "OPENSHELL_SANDBOX_UID"
    ∷ codes "noise"
    ∷ codes "PATH=/usr/bin"
    ∷ extra_env

filter_identity_env_lem_example :
    filter_identity_env given_env ≡ keep (λ e. not (is_identity e)) given_env
filter_identity_env_lem_example = filter_identity_env_lem given_env

sanitize_name_shape_example :
    (length (sanitize_name (codes "My Box!")) ≤ 63)
    × NameRunes (sanitize_name (codes "My Box!"))
    × StartsWell (sanitize_name (codes "My Box!"))
sanitize_name_shape_example = sanitize_name_shape (codes "My Box!")

-- 64 characters, of which the 63rd is a dash.
abbrev long_name : Str
long_name = codes "aaaaaaaaaaaaaaaaaaaaaaaaaaaaaaaaaaaaaaaaaaaaaaaaaaaaaaaaaaaaaa-b"

sanitize_name_again_example :
    (sanitize_name (sanitize_name long_name)
      ≡ trim_right (λ c. eqb c b'-') (sanitize_name long_name))
    × ((sanitize_name (sanitize_name long_name) == sanitize_name long_name)
        ≡ not (ends_in_dash (sanitize_name long_name)))
    × ((ends_in_dash (sanitize_name long_name) && not (eqb (length (sanitize_name long_name)) 63))
        ≡ false)
sanitize_name_again_example = sanitize_name_again long_name

-- Here the cut leaves a dash, so the name is not stable.
long_name-ends_in_dash : ends_in_dash (sanitize_name long_name) ≡ true
unfolding sanitize_name
long_name-ends_in_dash = refl

shell_quote_lem_example :
    shell_word Quoting.plain (shell_quote (codes "it's")) ≡ some (codes "it's")
shell_quote_lem_example = shell_quote_lem (codes "it's")
