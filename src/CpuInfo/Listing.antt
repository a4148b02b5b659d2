-- ===== src/CpuInfo/Listing.antt =====
-- `get_cpuinfo_max_freq`, `get_cpuinfo_mim_freq` and `sysm_cpu_info_list_get` of
-- sysm-native/src/main/sysm.c, and `sysm_cpu_socket_count` of sysm-native/include/main/sysm_util.h.
-- What `malloc` leaves in a slot of the list and what the files hold are parameters.
use jni_demo_system_monitor.Base.{
  ℕ, zero, suc, ◌+◌, ◌-◌, ◌/◌, ◌%◌, ◌^◌, Bool, not, ◌&&◌, List, ◌⊎◌, inl, inr, Option, none, some,
  ◌>>=◌, ltb, leb, ◌==◌, if◌then◌else◌, Bytes, length, u32_mod,
}
use jni_demo_system_monitor.Cpu.{Cpuid, cpu_core_rollup}
use jni_demo_system_monitor.CpuInfo.Model.{CpuInfo}
use jni_demo_system_monitor.CpuInfo.{get_cpu_info}
use jni_demo_system_monitor.File.{Opened, file2str}
use jni_demo_system_monitor.GrowList.Kinds.{cpu_info_list_create}
use jni_demo_system_monitor.GrowList.{GrowList, store, reserve, cpu_max}
use jni_demo_system_monitor.Text.Number.{atoi}

-- PATH_MAX
abbrev pub path_max : ℕ
path_max = 4096

-- An `int` divided by 1000, towards zero.
unfoldable pub thousandth : ℕ → ℕ
thousandth n = if leb (2 ^ 31) n then (u32_mod - (u32_mod - n) / 1000) % u32_mod else n / 1000

-- The value for a file of a frequency, -1 where it is not read.
abbrev pub freq_text : ℕ ⊎ Bytes → ℕ
freq_text (inl status) = u32_mod - 1
freq_text (inr text) = thousandth (atoi text)

unfoldable pub freq_of : Opened → Option ℕ
unfolding file2str
freq_of file = file2str path_max (path_max - 1) file >>= λ r. some (freq_text r)

unfoldable pub max_freq : CpuInfo → Opened → Option CpuInfo
unfolding freq_of
max_freq info file = freq_of file >>= λ f. some (record info { mhz_max = f })

unfoldable pub min_freq : CpuInfo → Opened → Option CpuInfo
unfolding freq_of
min_freq info file = freq_of file >>= λ f. some (record info { mhz_min = f })

-- `none` is a division by zero.
unfoldable pub socket_count : ℕ → ℕ → Option ℕ
socket_count ncpu lcpu =
    if ltb ncpu lcpu then some ncpu else if lcpu == 0 then none else some (ncpu / lcpu)

-- The files of a CPU's frequencies, the count of CPUs, and a slot as `malloc` leaves it.
pub record Machine : Type 0 where
  pub max_file : ℕ → Opened
  pub min_file : ℕ → Opened
  pub ncpu : ℕ
  pub fresh : ℕ → CpuInfo

-- What is stored besides the lines.
unfoldable pub complete : Machine → ℕ → ℕ → CpuInfo → Option CpuInfo
unfolding max_freq min_freq socket_count
complete m lcpu number info = max_freq info (m.max_file number) >>= λ i1.
    min_freq i1 (m.min_file number) >>= λ i2. socket_count m.ncpu lcpu >>= λ sockets.
    some (record i2 { total_cores = m.ncpu; cores_per_socket = lcpu; total_sockets = sockets })

-- The loop: `slot` is what `data[number]` holds, and a folded processor leaves it for the next one.
-- Each round but the last takes a line.
unfoldable pub read_infos :
    Machine → Bool → ℕ → ℕ → ℕ → List Bytes → CpuInfo → GrowList CpuInfo → Option (GrowList CpuInfo)
unfolding get_cpu_info complete store reserve
read_infos m rollup lcpu zero i lines slot l = none
read_infos m rollup lcpu (suc fuel) i lines slot l =
    get_cpu_info slot lines >>= λ (found, info, rest).
    let folded = read_infos m rollup lcpu fuel (i + 1) rest info l in
    let kept = complete m lcpu l.number info >>= λ whole. store whole l >>= λ stored.
    read_infos m rollup lcpu fuel (i + 1) rest (m.fresh stored.number) (reserve cpu_max stored) in
    if found then (if rollup && not (i % lcpu == 0) then folded else kept) else some l

-- The opened /proc/cpuinfo is an errno or its lines. `none` is undefined behaviour.
unfoldable pub cpu_info_list_get :
    Machine → Cpuid → Bool → Option ℕ → ℕ ⊎ List Bytes → Option (ℕ ⊎ GrowList CpuInfo)
unfolding read_infos cpu_core_rollup cpu_info_list_create
cpu_info_list_get m cpuid cpu_list_cores lcpu (inl errno) = some (inl errno)
cpu_info_list_get m cpuid cpu_list_cores lcpu (inr lines) =
    let (rollup, count) = cpu_core_rollup cpuid cpu_list_cores lcpu in
    read_infos m rollup count (suc (length lines)) 0 lines (m.fresh 0) cpu_info_list_create >>= λ l.
    some (inr l)
