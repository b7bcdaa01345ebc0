-- ===== src/Podman/Userns.antt =====
-- User namespaces: `canonicalUsernsMode` and `idMapListValue` of internal/podman/config.go, and
-- `validateIDMap` of internal/podman/libpod_create.go.
pub mod Modes
use whaleshell_driver.Base.{
  ℕ, Str, codes, ◌==◌, cut, split, lower, trim_space, is_nil, eqb, ltb, Bool, true, false, not,
  ◌&&◌, ◌||◌, List, [], ◌∷◌, ◌++◌, if◌then◌else◌, Option, none, some, Result, ok, err, reject_if,
  ◌>>◌, ◌+◌, ◌^◌,
}
use whaleshell_driver.Base.Decimal.{parse_uint}

pub record IdMapping : Type 0 where
  pub container_id : ℕ
  pub host_id : ℕ
  pub size : ℕ

pub data UsernsError : Type 0 where
  empty_parameters : UsernsError
  takes_no_parameters unsupported_mode : Str → UsernsError

-- A mode with its parameters, as `strings.Cut` at the first colon tells them apart.
abbrev pub mode_of : Str → Option (Str × Str) → Str
mode_of input none = input
mode_of input (some (mode, params)) = mode

abbrev pub params_of : Option (Str × Str) → Option Str
params_of none = none
params_of (some (mode, params)) = some params

abbrev pub is_set : Option Str → Bool
is_set none = false
is_set (some s) = true

abbrev pub is_blank : Option Str → Bool
is_blank none = false
is_blank (some s) = is_nil (trim_space s)

abbrev pub with_params : Str → Option Str → Str
with_params mode none = mode
with_params mode (some params) = mode ++ b':' ∷ params

unfoldable pub canonical_mode : Str → Option Str → Result UsernsError Str
unfolding trim_space
canonical_mode mode params =
    if mode == codes "auto" || mode == codes "keep-id"
    then (if is_blank params
        then err UsernsError.empty_parameters
        else ok (with_params mode params))
    else if mode == codes "host" || mode == codes "no-map" || mode == codes "private"
    then (if is_set params then err (UsernsError.takes_no_parameters mode) else ok mode)
    else if mode == codes "nomap"
    then (if is_set params then err (UsernsError.takes_no_parameters mode) else ok (codes "no-map"))
    else err (UsernsError.unsupported_mode mode)

-- canonicalUsernsMode
unfoldable pub canonical_userns_mode : Str → Result UsernsError Str
unfolding canonical_mode lower cut
canonical_userns_mode input =
    if is_nil input
    then ok []
    else let parts = cut input b':' in
      canonical_mode (lower (mode_of input parts)) (params_of parts)

-- What is wrong with an entry of an ID map.
pub data EntryError : Type 0 where
  not_three_parts invalid_integer zero_size : EntryError

abbrev sized_mapping : Option ℕ → Option ℕ → Option ℕ → Result EntryError IdMapping
sized_mapping (some c) (some h) (some n) =
    if eqb n 0
    then err EntryError.zero_size
    else ok (record { container_id = c; host_id = h; size = n })
sized_mapping _ _ _ = err EntryError.invalid_integer

abbrev mapping_of : List Str → Result EntryError IdMapping
mapping_of (a ∷ b ∷ c ∷ []) = sized_mapping (parse_uint 32 a) (parse_uint 32 b) (parse_uint 32 c)
mapping_of _ = err EntryError.not_three_parts

-- One entry, `container_id:host_id:size`.
unfoldable pub parse_entry : Str → Result EntryError IdMapping
unfolding split parse_uint
parse_entry entry = mapping_of (split entry b':')

abbrev cons_mapping :
    Result EntryError IdMapping
    → Result EntryError (List IdMapping)
    → Result EntryError (List IdMapping)
cons_mapping (err why) rest = err why
cons_mapping (ok m) (err why) = err why
cons_mapping (ok m) (ok ms) = ok (m ∷ ms)

-- The loop of idMapListValue
unfoldable pub parse_entries : List Str → Result EntryError (List IdMapping)
unfolding parse_entry
parse_entries [] = ok []
parse_entries (e ∷ rest) = cons_mapping (parse_entry e) (parse_entries rest)

pub data MapError : Type 0 where
  zero_size exceeds_range : MapError

-- validateIDMap: the sums are 64 bits wide, and cannot wrap.
unfoldable pub validate_id_map : List IdMapping → Result MapError (Unit {0})
validate_id_map [] = ok tt
validate_id_map (m ∷ rest) =
    let later = validate_id_map rest in
    if eqb m.size 0
    then err MapError.zero_size
    else if ltb (2 ^ 32) (m.container_id + m.size) || ltb (2 ^ 32) (m.host_id + m.size)
    then err MapError.exceeds_range
    else later
