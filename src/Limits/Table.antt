-- ===== src/Limits/Table.antt =====
-- The value of each field after `sysm_resource_limit_get` of sysm-native/src/main/sysm.c.
use jni_demo_system_monitor.Base.{
  ℕ, ◌≡◌, refl, Option, none, some, sysm_ok, ◌≢◌, ◌⊎◌, inl, inr, ◌+◌, ◌*◌, ◌≤◌, ◌<◌, ◌==◌,
  Bool-cases, ==_iff, arith,
}
use native.Mathlib.Nat.{div-mul-le_self, lt-div-mul-add}
use jni_demo_system_monitor.Limits.{
  LimitField, cpu, file_size, pipe_size, data_size, stack, core, memory, processes, open_files,
  virtual_memory, ResourceLimit, rlim_infinity, rlimit_scale, scaled, rlimit_of, rlimit_set,
  set_limits, sysm_rlimits, resource_limit_get,
}

-- The limit of the kernel behind a field, and the size of its unit; the pipe has none.
pub kernel_limit : LimitField → Option (ℕ × ℕ)
kernel_limit cpu = some (0, 1)
kernel_limit file_size = some (1, 1024)
kernel_limit pipe_size = none
kernel_limit data_size = some (2, 1024)
kernel_limit stack = some (3, 1024)
kernel_limit core = some (4, 1024)
kernel_limit memory = some (5, 1024)
kernel_limit processes = some (6, 1)
kernel_limit open_files = some (7, 1)
kernel_limit virtual_memory = some (9, 1024)

-- A value is the number of whole units in a finite limit, and infinite for an infinite one.
pub IsScaled : ℕ → ℕ → ℕ → Type 0
IsScaled unit limit val =
    ((limit ≡ rlim_infinity) × (val ≡ rlim_infinity))
    ⊎ ((limit ≢ rlim_infinity) × (val * unit ≤ limit) × (limit < val * unit + unit))

-- Two values are those of a limit that `getrlimit` gives, and infinite if it gives none.
pub ArePair : ℕ → Option (ℕ × ℕ) → ℕ × ℕ → Type 0
ArePair unit none vals = vals ≡ (rlim_infinity, rlim_infinity)
ArePair unit (some (cur, max)) vals = IsScaled unit cur vals.0 × IsScaled unit max vals.1

-- The values of a field; eight blocks for the pipe.
pub AreInUnits : (ℕ → Option (ℕ × ℕ)) → Option (ℕ × ℕ) → ℕ × ℕ → Type 0
AreInUnits getrlimit none vals = vals ≡ (8, 8)
AreInUnits getrlimit (some (resource, unit)) vals = ArePair unit (getrlimit resource) vals

rlimit_scale-IsScaled : (unit limit : ℕ) → 0 < unit → IsScaled unit limit (rlimit_scale unit limit)
unfolding rlimit_scale IsScaled
rlimit_scale-IsScaled unit limit some_unit = elim (Bool-cases (limit == rlim_infinity)) [
  | inl infinite ↦
      let same = (==_iff limit rlim_infinity).0 infinite in rw infinite (inl (same, same))
  | inr finite ↦
      let differs : limit ≢ rlim_infinity = λ same. ground arith in
      rw finite (inr (differs, div-mul-le_self limit unit, lt-div-mul-add some_unit))
]

scaled-ArePair :
    (getrlimit : ℕ → Option (ℕ × ℕ)) (child_max unit : ℕ) (limit : Option (ℕ × ℕ))
    → 0 < unit
    → ArePair unit limit (scaled getrlimit child_max unit limit)
unfolding scaled ArePair
scaled-ArePair getrlimit child_max unit none some_unit = refl
scaled-ArePair getrlimit child_max unit (some (cur, max)) some_unit =
    (rlimit_scale-IsScaled unit cur some_unit, rlimit_scale-IsScaled unit max some_unit)

-- Whatever the record held, `sysm_resource_limit_get` succeeds, and each of its ten pairs of fields
-- has the limit of its own resource: the number of whole units of the field in each finite value,
-- infinity for an infinite one and for a limit that `getrlimit` does not give, and 8 for the pipe.
pub resource_limit_get-AreInUnits :
    (getrlimit : ℕ → Option (ℕ × ℕ)) (child_max : ℕ) (rlimit : ResourceLimit) (f : LimitField)
    → ((resource_limit_get getrlimit child_max rlimit).0 ≡ sysm_ok)
      × AreInUnits getrlimit (kernel_limit f) ((resource_limit_get getrlimit child_max rlimit).1 f)
unfolding resource_limit_get set_limits sysm_rlimits rlimit_of rlimit_set AreInUnits kernel_limit
resource_limit_get-AreInUnits getrlimit child_max rlimit cpu =
    (refl, scaled-ArePair getrlimit child_max 1 (getrlimit 0) (omega arith))
resource_limit_get-AreInUnits getrlimit child_max rlimit file_size =
    (refl, scaled-ArePair getrlimit child_max 1024 (getrlimit 1) (omega arith))
resource_limit_get-AreInUnits getrlimit child_max rlimit pipe_size = (refl, refl)
resource_limit_get-AreInUnits getrlimit child_max rlimit data_size =
    (refl, scaled-ArePair getrlimit child_max 1024 (getrlimit 2) (omega arith))
resource_limit_get-AreInUnits getrlimit child_max rlimit stack =
    (refl, scaled-ArePair getrlimit child_max 1024 (getrlimit 3) (omega arith))
resource_limit_get-AreInUnits getrlimit child_max rlimit core =
    (refl, scaled-ArePair getrlimit child_max 1024 (getrlimit 4) (omega arith))
resource_limit_get-AreInUnits getrlimit child_max rlimit memory =
    (refl, scaled-ArePair getrlimit child_max 1024 (getrlimit 5) (omega arith))
resource_limit_get-AreInUnits getrlimit child_max rlimit processes =
    (refl, scaled-ArePair getrlimit child_max 1 (getrlimit 6) (omega arith))
resource_limit_get-AreInUnits getrlimit child_max rlimit open_files =
    (refl, scaled-ArePair getrlimit child_max 1 (getrlimit 7) (omega arith))
resource_limit_get-AreInUnits getrlimit child_max rlimit virtual_memory =
    (refl, scaled-ArePair getrlimit child_max 1024 (getrlimit 9) (omega arith))
