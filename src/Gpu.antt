-- ===== src/Gpu.antt =====
-- internal/docker/gpu.go: GPU requests and their CDI devices.
pub mod Request
use mathlib.Core.List.{reverse}
use whaleshell_driver.Base.{
  ℕ, zero, suc, ◌+◌, ◌*◌, ◌-◌, Str, codes, ◌==◌, trim_space, trim_right, eqb, leb, ltb, split,
  is_nil, all, length, take, drop_prefix?, Bool, true, false, not, ◌&&◌, ◌||◌, List, [], ◌∷◌, ◌++◌,
  map, if◌then◌else◌, Option, none, some, Result, ok, err, reject_if, ◌>>=◌, ◌>>◌, ℤ, pos, negsuc,
  ltb_ℤ,
}
use whaleshell_driver.Defaults.{Host}
use whaleshell_driver.Spec.{Spec}

pub data GpuError : Type 0 where
  negative_count devices_without_request no_inventory count_exceeds_inventory : GpuError

abbrev pub default_cdi_device : Str
default_cdi_device = codes "nvidia.com/gpu=all"

unfoldable pub normalized_cdi_devices : List Str → List Str
normalized_cdi_devices [] = []
normalized_cdi_devices (id ∷ ids) =
    let rest = normalized_cdi_devices ids in
    if is_nil (trim_space id) then rest else trim_space id ∷ rest

unfoldable pub env_cdi_devices : Host → List Str
unfolding normalized_cdi_devices
env_cdi_devices host =
    normalized_cdi_devices (split (trim_space (host.getenv (codes "CAUTEUM_GPU_CDI"))) b',')

abbrev is_digit : ℕ → Bool
is_digit r = leb b'0' r && leb r b'9'

unfoldable pub all_digits : Str → Bool
all_digits value = all is_digit value && not (is_nil value)

digits_value : ℕ → Str → ℕ
digits_value result [] = result
digits_value result (r ∷ value) = digits_value (result * 10 + (r - b'0')) value

-- The result of Go's `int` wraps at 64 bits, for an index of 19 digits or more: not modelled.
unfoldable pub numeric_index : Str → ℕ
unfolding digits_value
numeric_index value = digits_value 0 value

-- The index in the name of a device node, where `strings.TrimPrefix` finds its prefix.
device_index : Option Str → List Str
unfolding all_digits
device_index none = []
device_index (some index) = if is_nil index || not (all_digits index) then [] else index ∷ []

device_indexes : List Str → List Str
unfolding device_index drop_prefix?
device_indexes [] = []
device_indexes (name ∷ names) =
    device_index (drop_prefix? name (codes "nvidia")) ++ device_indexes names

insert_index : Str → List Str → List Str
unfolding numeric_index
insert_index i [] = i ∷ []
insert_index i (j ∷ js) =
    if leb (numeric_index i) (numeric_index j) then i ∷ j ∷ js else j ∷ insert_index i js

-- sort.Slice by the numeric index, of names that all differ
sort_indexes : List Str → List Str
unfolding insert_index
sort_indexes [] = []
sort_indexes (i ∷ is) = insert_index i (sort_indexes is)

abbrev is_slash : ℕ → Bool
is_slash c = eqb c b'/'

abbrev aggregate_if_present : Host → Str → List Str
aggregate_if_present host dev_root =
    elim (host.stat (trim_right is_slash dev_root ++ codes "/dxg")) [
      | some info ↦ default_cdi_device ∷ []
      | none ↦ []
    ]

unfoldable pub local_cdi_devices : Host → Str → List Str
unfolding device_indexes sort_indexes
local_cdi_devices host dev_root = elim (host.read_dir dev_root) [
  | none ↦ []
  | some names ↦
      let devices = map (λ i. codes "nvidia.com/gpu=" ++ i) (sort_indexes (device_indexes names)) in
      if is_nil devices then aggregate_if_present host dev_root else devices
]

abbrev pub is_positive : ℤ → Bool
is_positive n = ltb_ℤ (pos 0) n

abbrev pub is_negative : ℤ → Bool
is_negative n = ltb_ℤ n (pos 0)

abbrev is_zero : ℤ → Bool
is_zero (pos n) = eqb n 0
is_zero (negsuc n) = false

-- What follows the test of a zero count, with the devices and whether they are explicit.
check_count : ℤ → List Str → Bool → Result GpuError (Unit {0})
check_count count devices explicit = do
  reject_if (is_nil devices) GpuError.no_inventory
  let n = pos (length devices)
  reject_if ((explicit && (ltb_ℤ n count || ltb_ℤ count n)) || (not explicit && ltb_ℤ n count))
      GpuError.count_exceeds_inventory
  ok tt

abbrev or_if_nil : List Str → List Str → List Str
or_if_nil [] ys = ys
or_if_nil (x ∷ xs) ys = x ∷ xs

unfoldable pub validate_gpu_request : Host → Spec → Result GpuError (Unit {0})
unfolding check_count
validate_gpu_request host spec = do
  reject_if (is_negative spec.gpu_count) GpuError.negative_count
  let listed = normalized_cdi_devices spec.cdi_devices
  let has_devices = not (is_nil listed) || not (is_nil (env_cdi_devices host))
  let requested = spec.gpu || is_positive spec.gpu_count
  reject_if (has_devices && not requested) GpuError.devices_without_request
  let given = or_if_nil listed (env_cdi_devices host)
  let checked =
      check_count spec.gpu_count (or_if_nil given (local_cdi_devices host (codes "/dev")))
        (not (is_nil given))
  (if is_zero spec.gpu_count then ok tt else checked)

pub record DeviceRequest : Type 0 where
  pub driver : Str
  pub device_ids : List Str

abbrev truncate : ℤ → List Str → List Str
truncate count ids =
    if is_positive count && ltb_ℤ count (pos (length ids)) then take (count_of count) ids else ids
  where
    count_of : ℤ → ℕ
    count_of (pos n) = n
    count_of (negsuc n) = 0

unfoldable pub device_requests_for_gpu : Host → Spec → List DeviceRequest
device_requests_for_gpu host spec =
    let listed = or_if_nil (normalized_cdi_devices spec.cdi_devices) (env_cdi_devices host) in
    let found =
      if is_positive spec.gpu_count && is_nil listed
      then local_cdi_devices host (codes "/dev")
      else listed in
    let ids = or_if_nil (truncate spec.gpu_count found) (default_cdi_device ∷ []) in
    if not spec.gpu && is_nil spec.cdi_devices
    then []
    else record { driver = codes "cdi"; device_ids = ids } ∷ []
