-- ===== src/Env/Keys.antt =====
-- Keys of a merged list that the later entries do not set.
use whaleshell_driver.Base.{Str, ==_iff, List, [], ◌∷◌, none, arith, ◌≡◌, refl, ◌∙◌, ap}
use whaleshell_driver.Env.{merge_env}
use whaleshell_driver.Env.Merge.{
  has_key, entry_of, last_entry, last_entry-append, entry_of-merge_env, IsProper, or,
}

pub last_entry-IsProper :
    (k : Str) (env : List Str) → IsProper env → last_entry k env ≡ entry_of k env
unfolding last_entry entry_of has_key
last_entry-IsProper k [] h = refl
last_entry-IsProper k (e ∷ env) ((j, je, once), rest) =
    ground (arith, je, once, ==_iff j k, last_entry-IsProper k env rest)

-- Entries that do not set the key leave it alone.
pub entry_of-merge_other :
    (k : Str) (env extra : List Str)
    → IsProper env
    → last_entry k extra ≡ none
    → entry_of k (merge_env env extra) ≡ entry_of k env
entry_of-merge_other k env extra h lacks =
    entry_of-merge_env env extra k
    ∙ (last_entry-append env extra k
        ∙ (ap (λ o. or o (last_entry k env)) lacks ∙ last_entry-IsProper k env h))
