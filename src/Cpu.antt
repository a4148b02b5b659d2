-- ===== src/Cpu.antt =====
-- The CPU times of /proc/stat: `sysm_cpu_core_count`, `sysm_cpu_core_rollup` and
-- `sysm_cpu_perc_cal` of sysm-native/src/main/sysm_util.c, `get_cpu_metrics`, `sysm_cpu_list_get` and
-- `sysm_cpu_get` of sysm-native/src/main/sysm.c. The `cpuid` instruction, the clock ticks per second,
-- the arithmetic on doubles and the files are parameters.
pub mod Line
pub mod Listing
pub mod Percent
use jni_demo_system_monitor.Base.{
  ℕ, ◌+◌, ◌-◌, ◌/◌, ◌%◌, ◌^◌, Bool, true, false, ◌&&◌, ◌||◌, not, List, [], ◌∷◌, ◌⊎◌, inl, inr,
  Option, none, some, ◌>>=◌, ltb, ◌==◌, if◌then◌else◌, set, get_elem?, Bytes, codes, u64_mod,
  sysm_ok,
}
use jni_demo_system_monitor.Double.{Double}
use jni_demo_system_monitor.File.{Opened, file2str}
use jni_demo_system_monitor.GrowList.{GrowList, store}
use jni_demo_system_monitor.GrowList.Kinds.{cpu_list_create, cpu_list_push}
use jni_demo_system_monitor.Text.{skip_token, starts_with, head_byte}
use jni_demo_system_monitor.Text.Number.{strtoul}

pub record Cpu : Type 0 where
  pub user : ℕ
  pub sys : ℕ
  pub nice : ℕ
  pub idle : ℕ
  pub wait : ℕ
  pub hi : ℕ
  pub si : ℕ
  pub steal : ℕ
  pub total : ℕ

abbrev pub zero_cpu : Cpu
zero_cpu = record {
  user = 0;
  sys = 0;
  nice = 0;
  idle = 0;
  wait = 0;
  hi = 0;
  si = 0;
  steal = 0;
  total = 0;
}

-- The registers of a `cpuid` request that are read: ebx and edx.
abbrev pub Cpuid : Type 0
Cpuid = ℕ → ℕ × ℕ

abbrev pub intel_id : ℕ
intel_id = 1970169159

abbrev pub amd_id : ℕ
amd_id = 1752462657

-- `lcpu`, which is -1 before the first count: `none`.
unfoldable pub cpu_core_count : Cpuid → Option ℕ → ℕ
cpu_core_count cpuid (some lcpu) = lcpu
cpu_core_count cpuid none =
    let vendor = (cpuid 0).0 in
    let (ebx, edx) = cpuid 1 in
    if vendor == intel_id || vendor == amd_id
    then (if (edx / 2 ^ 28) % 2 == 1 then (ebx / 65536) % 256 else 1)
    else 1

abbrev uncounted : Option ℕ → Bool
uncounted none = true
uncounted (some _) = false

-- Whether the logical processors are folded, and the new `lcpu`.
unfoldable pub cpu_core_rollup : Cpuid → Bool → Option ℕ → Bool × ℕ
unfolding cpu_core_count
cpu_core_rollup cpuid cpu_list_cores lcpu =
    let count = cpu_core_count cpuid lcpu in
    (not cpu_list_cores && (uncounted lcpu && ltb 1 count), count)

unfoldable pub sum_up : Cpu → Cpu
sum_up cpu = record cpu {
  total =
      (cpu.user + cpu.nice + cpu.sys + cpu.idle + cpu.wait + cpu.hi + cpu.si + cpu.steal) % u64_mod;
}

module _ (d : Double) (ticks : ℕ) where
  -- `x += SYSM_TICK2MSEC(s)`.
  unfoldable pub add_msec : ℕ → ℕ → ℕ
  add_msec x s =
      d.to_u64
        (d.add (d.from_u64 x) (d.mul (d.from_u64 s) (d.div (d.from_u64 1000) (d.from_u64 ticks))))

  unfoldable pub four_metrics : Cpu → Bytes → Cpu × Bytes
  unfolding add_msec
  four_metrics cpu ptr =
      let (user, p1) = strtoul 10 ptr in
      let (nice, p2) = strtoul 10 p1 in
      let (sys, p3) = strtoul 10 p2 in
      let (idle, p4) = strtoul 10 p3 in
      (
        record cpu {
          user = add_msec cpu.user user;
          nice = add_msec cpu.nice nice;
          sys = add_msec cpu.sys sys;
          idle = add_msec cpu.idle idle;
        },
        p4,
      )

  unfoldable pub three_metrics : Cpu → Bytes → Cpu × Bytes
  unfolding add_msec
  three_metrics cpu ptr =
      let (wait, p1) = strtoul 10 ptr in
      let (hi, p2) = strtoul 10 p1 in
      let (si, p3) = strtoul 10 p2 in
      (
        record cpu {
          wait = add_msec cpu.wait wait;
          hi = add_msec cpu.hi hi;
          si = add_msec cpu.si si;
        },
        p3,
      )

  -- The counters that only newer kernels write, each group behind a space.
  unfoldable pub and_three : Cpu × Bytes → Cpu × Bytes
  unfolding three_metrics
  and_three (cpu, ptr) = if head_byte ptr == b' ' then three_metrics cpu ptr else (cpu, ptr)

  unfoldable pub and_steal : Cpu × Bytes → Cpu
  unfolding add_msec
  and_steal (cpu, ptr) =
      if head_byte ptr == b' '
      then record cpu { steal = add_msec cpu.steal (strtoul 10 ptr).0 }
      else cpu

  unfoldable pub get_cpu_metrics : Cpu → Bytes → Cpu
  unfolding four_metrics and_three and_steal sum_up
  get_cpu_metrics cpu line = sum_up (and_steal (and_three (four_metrics cpu (skip_token line))))

  -- Reads the metrics into slot `i`, which holds what is given.
  unfoldable pub metrics_at : Bytes → GrowList Cpu → ℕ → Option (Option Cpu) → Option (GrowList Cpu)
  unfolding get_cpu_metrics
  metrics_at line l i (some (some cpu)) =
      some (record l { slots = set l.slots i (some (get_cpu_metrics cpu line)) })
  metrics_at line l i _ = none

  -- `cpu` points to the last item: the metrics are read into it. `none` is a read of a slot that
  -- was not written, or before the block.
  unfoldable pub metrics_last : Bytes → GrowList Cpu → Option (GrowList Cpu)
  unfolding metrics_at
  metrics_last line l = let i = l.number - 1 in metrics_at line l i (get_elem? l.slots i)

  -- The loop over the lines, the `i`th from here; a line that is not of a CPU ends it.
  unfoldable pub read_cpus : Bool → ℕ → ℕ → List Bytes → GrowList Cpu → Option (GrowList Cpu)
  unfolding metrics_last cpu_list_push
  read_cpus rollup lcpu i [] l = some l
  read_cpus rollup lcpu i (line ∷ lines) l =
      if starts_with (codes "cpu") line
      then (do
        l1 ← if rollup && not (i % lcpu == 0) then some l else cpu_list_push zero_cpu l
        l2 ← metrics_last line l1
        read_cpus rollup lcpu (i + 1) lines l2)
      else some l

  -- With no CPU of its own, the line of all CPUs stands for one.
  unfoldable pub or_total : Bytes → GrowList Cpu → Option (GrowList Cpu)
  unfolding metrics_last
  or_total cpu_total l =
      if l.number == 0 then store zero_cpu l >>= metrics_last cpu_total else some l

  -- The opened /proc/stat is an errno or its lines; an empty file leaves `cpu_total` without a
  -- text. The list is filled only when the status is SYSM_OK.
  unfoldable pub cpu_list_get :
      Cpuid → Bool → Option ℕ → ℕ ⊎ List Bytes → Option ((ℕ ⊎ GrowList Cpu) × ℕ)
  unfolding cpu_core_rollup read_cpus or_total cpu_list_create
  cpu_list_get cpuid cpu_list_cores lcpu (inl errno) =
      some (inl errno, (cpu_core_rollup cpuid cpu_list_cores lcpu).1)
  cpu_list_get cpuid cpu_list_cores lcpu (inr []) = none
  cpu_list_get cpuid cpu_list_cores lcpu (inr (cpu_total ∷ lines)) =
      let (rollup, count) = cpu_core_rollup cpuid cpu_list_cores lcpu in
      do
        l ← read_cpus rollup count 0 lines cpu_list_create
        l' ← or_total cpu_total l
        some (inr l', count)

  -- `sysm_cpu_get`, on a buffer of `bufsiz` bytes.
  unfoldable pub cpu_get : ℕ → Opened → Option (ℕ ⊎ Cpu)
  unfolding get_cpu_metrics
  cpu_get bufsiz file = elim (file2str bufsiz bufsiz file) [
    | none ↦ none
    | some (inl status) ↦ some (inl status)
    | some (inr buffer) ↦ some (inr (get_cpu_metrics zero_cpu buffer))
  ]
