-- ===== src/Gpu/Request.antt =====
-- A validated GPU request against the devices that the container is given.
use whaleshell_driver.Base.{
  ℕ, suc, ◌+◌, ◌≤◌, Str, codes, is_nil, length, length-take_of_le, Bool, true, false, not, ◌&&◌,
  ◌||◌, List, [], ◌∷◌, if◌then◌else◌, ok, ◌≡◌, ◌≢◌, refl, arith, pos, ltb_ℤ, Bool-cases, inl, inr,
}
use whaleshell_driver.Defaults.{Host}
use whaleshell_driver.Spec.{Spec}
use whaleshell_driver.Gpu.{
  DeviceRequest, check_count, validate_gpu_request, device_requests_for_gpu, normalized_cdi_devices,
  env_cdi_devices, local_cdi_devices, or_if_nil, truncate, default_cdi_device, is_positive,
}

-- The devices of all requests.
abbrev pub device_count : List DeviceRequest → ℕ
device_count [] = 0
device_count (r ∷ rs) = length r.device_ids + device_count rs

check_count_bounds :
    (n : ℕ) (devices : List Str) (explicit : Bool)
    → check_count (pos (suc n)) devices explicit ≡ ok tt
    → (suc n ≤ length devices) × (explicit ≡ true → length devices ≡ suc n)
unfolding check_count
check_count_bounds n devices explicit h = (ground arith, λ e. ground arith)

length-truncate :
    (n : ℕ) (ids : List Str) → suc n ≤ length ids → length (truncate (pos (suc n)) ids) ≡ suc n
length-truncate n ids h = elim (Bool-cases (ltb_ℤ (pos (suc n)) (pos (length ids)))) [
  | inl more ↦ ground (arith, more, length-take_of_le (suc n) ids h)
  | inr exact ↦ ground (arith, exact)
]

or_if_nil_positive :
    (xs : List Str) (n : ℕ) → length xs ≡ suc n → or_if_nil xs (default_cdi_device ∷ []) ≡ xs
or_if_nil_positive [] n h = absurd (omega arith)
or_if_nil_positive (x ∷ xs) n h = refl

-- What `ValidateGPURequest` has checked of a positive count.
validated_devices :
    (host : Host) (spec : Spec) (n : ℕ)
    → spec.gpu_count ≡ pos (suc n)
    → validate_gpu_request host spec ≡ ok tt
    → let given = or_if_nil (normalized_cdi_devices spec.cdi_devices) (env_cdi_devices host) in
      check_count
        (pos (suc n))
        (or_if_nil given (local_cdi_devices host (codes "/dev")))
        (not (is_nil given))
      ≡ ok tt
unfolding validate_gpu_request
validated_devices host spec n e h = ground arith

or_default-length :
    (xs : List Str) (n : ℕ)
    → length xs ≡ suc n
    → length (or_if_nil xs (default_cdi_device ∷ [])) ≡ suc n
or_default-length [] n h = absurd (omega arith)
or_default-length (x ∷ xs) n h = h

-- The list that `DeviceRequestsForGPU` cuts to the count.
found_length :
    (n : ℕ) (given local : List Str)
    → check_count (pos (suc n)) (or_if_nil given local) (not (is_nil given)) ≡ ok tt
    → suc n ≤ length (if is_positive (pos (suc n)) && is_nil given then local else given)
found_length n [] local h = ground (arith, (check_count_bounds n local false h).0)
found_length n (x ∷ given) local h = ground (arith, (check_count_bounds n (x ∷ given) true h).0)

requested_count :
    (n : ℕ) (given local : List Str)
    → check_count (pos (suc n)) (or_if_nil given local) (not (is_nil given)) ≡ ok tt
    → length (
        or_if_nil
          (truncate
            (pos (suc n))
            (if is_positive (pos (suc n)) && is_nil given then local else given))
          (default_cdi_device ∷ []))
      ≡ suc n
requested_count n given local h =
    or_default-length _ n (length-truncate n _ (found_length n given local h))

-- A request that passes `ValidateGPURequest` with a positive count gives the container as many
-- devices as it asks for, if `GPU` is set or a device is listed; else it gives none.
pub device_count-validated :
    (host : Host) (spec : Spec) (n : ℕ)
    → spec.gpu_count ≡ pos (suc n)
    → validate_gpu_request host spec ≡ ok tt
    → device_count (device_requests_for_gpu host spec)
      ≡ (if spec.gpu || not (is_nil spec.cdi_devices) then suc n else 0)
unfolding device_requests_for_gpu
device_count-validated host spec n e h =
    elim (Bool-cases (not spec.gpu && is_nil spec.cdi_devices)) [
      | inl unasked ↦ rw (unasked) (ground (arith, unasked))
      | inr asked ↦
          rw (asked, e)
            (ground (
              arith,
              asked,
              requested_count n
                  (or_if_nil (normalized_cdi_devices spec.cdi_devices) (env_cdi_devices host))
                  (local_cdi_devices host (codes "/dev")) (validated_devices host spec n e h),
            ))
    ]

-- A list of blank device names passes `ValidateGPURequest` with no GPU request, a zero count and no
-- devices in the environment; the container is then given every GPU.
pub blank_devices_give_all :
    (host : Host) (spec : Spec)
    → spec.gpu ≡ false
    → spec.gpu_count ≡ pos 0
    → spec.cdi_devices ≢ []
    → normalized_cdi_devices spec.cdi_devices ≡ []
    → env_cdi_devices host ≡ []
    → (validate_gpu_request host spec ≡ ok tt)
      × (device_requests_for_gpu host spec
          ≡ record { driver = codes "cdi"; device_ids = default_cdi_device ∷ [] } ∷ [])
unfolding validate_gpu_request device_requests_for_gpu
blank_devices_give_all host spec off zero' listed blank none' =
    (rw (off, zero', blank, none'), rw (off, zero', blank, none') (ground arith))
