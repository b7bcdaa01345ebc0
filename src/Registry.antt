-- ===== src/Registry.antt =====
-- driver/open.go: factories of the backends by kind. The write lock makes each registration one step.
pub mod Dispatch
use whaleshell_driver.Base.{
  Str, codes, ◌==◌, trim_space, lower, is_nil, Bool, true, false, ◌||◌, List, [], ◌∷◌,
  if◌then◌else◌, Option, none, some, Result, ok, err,
}
use whaleshell_driver.Base.Assoc.{find, insert}

pub data OpenError {ℓ} (E : Type ℓ) : Type ℓ where
  unknown_kind no_engine_api no_configuration : Str → OpenError E
  factory_failed : E → OpenError E

unfoldable pub normalize_kind : Str → Str
unfolding lower trim_space
normalize_kind kind =
    let k = lower (trim_space kind) in
    if k == codes "podman"
    then codes "podman"
    else if k == codes "vm" || k == codes "microvm"
    then codes "vm"
    else if k == codes "kubernetes" || k == codes "k8s"
    then codes "kubernetes"
    else if is_nil k || k == codes "docker"
    then codes "docker"
    else k

-- The three maps, over the types of a driver, of an engine, of a configuration's values and of a
-- factory's errors.
pub record Registry (D G V E : Type 0) : Type 0 where
  pub openers : List (Str × Result E D)
  pub engine_openers : List (Str × Result E G)
  pub engine_config_openers : List (Str × (List (Str × V) → Result E G))

abbrev pub run_factory {ℓ κ} :
    {A : Type ℓ} {E : Type κ} → OpenError E → Option (Result E A) → Result (OpenError E) A
run_factory e none = err e
run_factory e (some (ok a)) = ok a
run_factory e (some (err why)) = err (OpenError.factory_failed why)

module _ {D G V E : Type 0} where
  unfoldable pub register : Registry D G V E → Str → Result E D → Registry D G V E
  unfolding insert normalize_kind
  register r kind open_it = record r { openers = insert (normalize_kind kind) open_it r.openers }

  unfoldable pub register_engine : Registry D G V E → Str → Result E G → Registry D G V E
  unfolding insert normalize_kind
  register_engine r kind open_it = record r {
    engine_openers = insert (normalize_kind kind) open_it r.engine_openers;
  }

  unfoldable pub register_engine_with_config :
      Registry D G V E → Str → (List (Str × V) → Result E G) → Registry D G V E
  unfolding insert normalize_kind
  register_engine_with_config r kind open_it = record r {
    engine_config_openers = insert (normalize_kind kind) open_it r.engine_config_openers;
  }

  -- `Open`
  unfoldable pub open_driver : Registry D G V E → Str → Result (OpenError E) D
  unfolding find normalize_kind
  open_driver r kind =
      run_factory (OpenError.unknown_kind kind) (find (normalize_kind kind) r.openers)

  unfoldable pub open_engine : Registry D G V E → Str → Result (OpenError E) G
  unfolding find normalize_kind
  open_engine r kind =
      run_factory (OpenError.no_engine_api kind) (find (normalize_kind kind) r.engine_openers)

  open_configured :
      Registry D G V E
      → Str
      → List (Str × V)
      → Option (List (Str × V) → Result E G)
      → Result (OpenError E) G
  unfolding open_engine
  open_configured r kind config (some f) =
      run_factory (OpenError.unknown_kind kind) (some (f config))
  open_configured r kind config none =
      if is_nil config then open_engine r kind else err (OpenError.no_configuration kind)

  unfoldable pub open_engine_with_config :
      Registry D G V E → Str → List (Str × V) → Result (OpenError E) G
  unfolding open_configured find normalize_kind
  open_engine_with_config r kind config =
      open_configured r kind config (find (normalize_kind kind) r.engine_config_openers)
