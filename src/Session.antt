-- ===== src/Session.antt =====
-- Opening and closing: `sysm_boot_time_get`, `sysm_os_open`, `sysm_open`, `sysm_os_close` and
-- `sysm_close` of sysm-native/src/main/sysm.c. A pointer is its address, 0 for NULL, and what
-- `malloc` leaves in the block, the files and the answers of the system are parameters.
pub mod Opened
pub mod PageSize
use jni_demo_system_monitor.Base.{
  ℕ, zero, suc, ◌+◌, ◌-◌, ◌/◌, ◌^◌, Bool, true, false, ◌&&◌, List, [], ◌∷◌, ◌++◌, ◌⊎◌, inl, inr,
  ltb, leb, ◌==◌, if◌then◌else◌, drop, Bytes, codes, u32_mod, sysm_ok,
}
use jni_demo_system_monitor.Text.Number.{strtoul, atoi}
use jni_demo_system_monitor.Text.{starts_with, skip_token}

-- `linux_iostat_e`.
pub data IostatKind : Type 0 where
  iostat_none iostat_partitions iostat_diskstats iostat_sys : IostatKind

-- The fields of `sysm_t` that opening writes; those of `last_proc_stat` but `pid`, and `version`,
-- `ncpu` and `errbuf`, it leaves.
pub record Sysm : Type 0 where
  pub cpu_list_cores : ℕ
  pub lcpu : ℕ
  pub boot_time : ℕ
  pub ticks : ℕ
  pub pid : ℕ
  pub ifconf_buf : ℕ
  pub ifconf_len : ℕ
  pub self_path : ℕ
  pub pids : ℕ
  pub pagesize : ℕ
  pub mtrr : ℕ
  pub proc_signal_offset : ℕ
  pub last_pid : ℕ
  pub iostat : IostatKind
  pub proc_net : ℕ
  pub has_nptl : Bool
  pub proc_cpu : ℕ
  pub fsdev : ℕ
  pub net_listen : ℕ

pub record System : Type 0 where
  pub page_bytes : ℕ
  pub proc_stat : ℕ ⊎ List Bytes
  pub clk_tck : ℕ
  pub has_diskstats : Bool
  pub has_sys_block : Bool
  pub has_partitions : Bool
  pub release : Bytes

-- `while ((i >>= 1) > 0) pagesize++`: `i` rounds are enough.
unfoldable pub count_halves : ℕ → ℕ → ℕ
count_halves zero i = 0
count_halves (suc fuel) i =
    let more = count_halves fuel (i / 2) in if i / 2 == 0 then 0 else suc more

-- The loop reads one line: its `break` is not in the `if`.
unfoldable pub boot_time_in : List Bytes → ℕ
unfolding starts_with skip_token
boot_time_in [] = 0
boot_time_in (line ∷ lines) =
    if starts_with (codes "btime") line then (strtoul 10 (skip_token line)).0 else 0

abbrev minus_one : ℕ
minus_one = u32_mod - 1

unfoldable pub iostat_of : System → IostatKind
iostat_of sys =
    if sys.has_diskstats
    then iostat_diskstats
    else if sys.has_sys_block
    then iostat_sys
    else if sys.has_partitions
    then iostat_partitions
    else iostat_none

-- `kernel_rev`, an `int`, is the number behind the first two bytes of the release.
unfoldable pub nptl_of : Bytes → Bool
unfolding atoi
nptl_of release =
    let kernel_rev = atoi (drop 2 release) in leb 6 kernel_rev && ltb kernel_rev (2 ^ 31)

-- After the boot time is read.
unfoldable pub os_settings : System → Sysm → Sysm
unfolding iostat_of nptl_of
os_settings sys s = record s {
  ticks = sys.clk_tck;
  mtrr = minus_one;
  proc_signal_offset = minus_one;
  last_pid = minus_one;
  lcpu = minus_one;
  iostat = iostat_of sys;
  proc_net = 0;
  has_nptl = nptl_of sys.release;
}

unfoldable pub with_boot_time : System → ℕ ⊎ List Bytes → Sysm → ℕ × Sysm
unfolding os_settings boot_time_in
with_boot_time sys (inl errno) s = (errno, s)
with_boot_time sys (inr lines) s =
    (sysm_ok, os_settings sys (record s { boot_time = boot_time_in lines }))

-- `block` is what `malloc` delivers.
unfoldable pub os_open : System → Sysm → ℕ × Sysm
unfolding count_halves with_boot_time
os_open sys block =
    with_boot_time sys sys.proc_stat
      (record block { pagesize = count_halves sys.page_bytes sys.page_bytes })

unfoldable pub open_settings : Sysm → Sysm
open_settings s = record s {
  cpu_list_cores = 0;
  pid = 0;
  ifconf_buf = 0;
  ifconf_len = 0;
  self_path = 0;
  pids = 0;
  proc_cpu = 0;
  fsdev = 0;
  net_listen = 0;
}

unfoldable pub sysm_open : System → Sysm → ℕ × Sysm
unfolding os_open open_settings
sysm_open sys block =
    let (status, s) = os_open sys block in
    if status == sysm_ok then (status, open_settings s) else (status, s)

-- What is given back: a block, a list of processes with its block, or a cache.
pub data Release : Type 0 where
  free destroy_pids destroy_cache : ℕ → Release

unfoldable pub release_if : (ℕ → Release) → ℕ → List Release
release_if how zero = []
release_if how (suc address) = how (suc address) ∷ []

unfoldable pub os_close : ℕ → Sysm → List Release
unfolding release_if
os_close self s = release_if free s.proc_net ++ free self ∷ []

-- For the block at `self`.
unfoldable pub sysm_close : ℕ → Sysm → List Release
unfolding os_close
sysm_close self s =
    release_if free s.ifconf_buf
    ++ (release_if free s.self_path
        ++ (release_if destroy_pids s.pids
            ++ (release_if free s.pids
                ++ (release_if destroy_cache s.proc_cpu
                    ++ (release_if destroy_cache s.fsdev
                        ++ (release_if destroy_cache s.net_listen ++ os_close self s))))))
