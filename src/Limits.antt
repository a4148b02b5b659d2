-- ===== src/Limits.antt =====
-- Resource limits: `sysm_resource_limit_get` of sysm-native/src/main/sysm.c and its table. What
-- `getrlimit` and `sysconf` answer are parameters; the numbers of Linux's sys/resource.h are written
-- out.
pub mod Table
use jni_demo_system_monitor.Base.{
  ℕ, ◌+◌, ◌-◌, ◌*◌, ◌/◌, Bool, true, false, List, [], ◌∷◌, Option, none, some, ltb, ◌==◌,
  if◌then◌else◌, u64_mod, sysm_ok,
}

-- The pairs of fields of `sysm_resource_limit_t`.
pub data LimitField : Type 0 where
  cpu file_size pipe_size data_size stack core memory processes open_files virtual_memory :
      LimitField

-- An index of the fields, for the offsets.
abbrev offset : LimitField → ℕ
offset cpu = 0
offset file_size = 1
offset pipe_size = 2
offset data_size = 3
offset stack = 4
offset core = 5
offset memory = 6
offset processes = 7
offset open_files = 8
offset virtual_memory = 9

-- The current and the maximal value of each field.
abbrev pub ResourceLimit : Type 0
ResourceLimit = LimitField → ℕ × ℕ

abbrev pub rlim_infinity : ℕ
rlim_infinity = u64_mod - 1

abbrev pub rlim_nlimits : ℕ
rlim_nlimits = 16

abbrev pub pipe_buf : ℕ
pipe_buf = 4096

abbrev pub rlimit_psize : ℕ
rlimit_psize = rlim_nlimits + 3

abbrev pub rlimit_nproc : ℕ
rlimit_nproc = 6

-- `rlimit_field_t`.
pub record RlimitField : Type 0 where
  pub resource : ℕ
  pub factor : ℕ
  pub field : LimitField

abbrev row : ℕ → ℕ → LimitField → RlimitField
row resource factor field = record { resource = resource; factor = factor; field = field }

unfoldable pub sysm_rlimits : List RlimitField
sysm_rlimits =
    row 0 1 cpu
    ∷ row 1 1024 file_size
    ∷ row 2 1024 data_size
    ∷ row 3 1024 stack
    ∷ row rlimit_psize 512 pipe_size
    ∷ row 4 1024 core
    ∷ row 5 1024 memory
    ∷ row rlimit_nproc 1 processes
    ∷ row 7 1 open_files
    ∷ row 9 1024 virtual_memory
    ∷ []

-- `RlimitScale`.
unfoldable pub rlimit_scale : ℕ → ℕ → ℕ
rlimit_scale factor val = if val == rlim_infinity then val else val / factor

-- `RlimitSet`, for both fields.
unfoldable pub rlimit_set : LimitField → ℕ × ℕ → ResourceLimit → ResourceLimit
rlimit_set field val rlimit f = if offset f == offset field then val else rlimit f

module _ (getrlimit : ℕ → Option (ℕ × ℕ)) (child_max : ℕ) where
  unfoldable pub scaled : ℕ → Option (ℕ × ℕ) → ℕ × ℕ
  unfolding rlimit_scale
  scaled factor none = (rlim_infinity, rlim_infinity)
  scaled factor (some (cur, max)) = (rlimit_scale factor cur, rlimit_scale factor max)

  unfoldable pub rlimit_of : RlimitField → ℕ × ℕ
  unfolding scaled
  rlimit_of r =
      if ltb rlim_nlimits r.resource
      then (if r.resource == rlimit_nproc
          then (child_max, child_max)
          else if r.resource == rlimit_psize
          then (pipe_buf / 512, pipe_buf / 512)
          else (rlim_infinity, rlim_infinity))
      else scaled r.factor (getrlimit r.resource)

  -- The loop over the table.
  unfoldable pub set_limits : List RlimitField → ResourceLimit → ResourceLimit
  unfolding rlimit_of rlimit_set
  set_limits [] rlimit = rlimit
  set_limits (r ∷ rs) rlimit = set_limits rs (rlimit_set r.field (rlimit_of r) rlimit)

  unfoldable pub resource_limit_get : ResourceLimit → ℕ × ResourceLimit
  unfolding set_limits sysm_rlimits
  resource_limit_get rlimit = (sysm_ok, set_limits sysm_rlimits rlimit)
