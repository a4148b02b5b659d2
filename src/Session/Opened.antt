-- ===== src/Session/Opened.antt =====
-- What `sysm_open` of sysm-native/src/main/sysm.c leaves, and what `sysm_close` then gives back.
use jni_demo_system_monitor.Base.{
  ℕ, ◌≡◌, refl, false, List, [], ◌∷◌, ◌⊎◌, inl, inr, ◌==◌, if◌then◌else◌, Bytes, codes, sysm_ok,
}
use jni_demo_system_monitor.Session.{
  Sysm, System, Release, free, boot_time_in, count_halves, with_boot_time, os_open, os_settings,
  open_settings, sysm_open, release_if, os_close, sysm_close,
}
use jni_demo_system_monitor.Text.{starts_with}

-- The status of `sysm_open` and what `sysm_close` then gives back, by what opening /proc/stat
-- delivers.
pub opened_status : ℕ ⊎ List Bytes → ℕ
opened_status (inl errno) = errno
opened_status (inr lines) = sysm_ok

pub given_back : ℕ → Sysm → ℕ ⊎ List Bytes → List Release
given_back self block (inl errno) = sysm_close self block
given_back self block (inr lines) = free self ∷ []

-- An errno is not 0.
abbrev pub IsAnswer : ℕ ⊎ List Bytes → Type 0
IsAnswer (inl errno) = (errno == sysm_ok) ≡ false
IsAnswer (inr lines) = sysm_ok ≡ sysm_ok

with_boot_time-close :
    (sys : System) (s block : Sysm) (self : ℕ) (stat : ℕ ⊎ List Bytes)
    → IsAnswer stat
    → sysm_close self s ≡ sysm_close self block
    → let opened = with_boot_time sys stat s in
      let r = if opened.0 == sysm_ok then (opened.0, open_settings opened.1) else opened in
      (r.0 ≡ opened_status stat) × (sysm_close self r.1 ≡ given_back self block stat)
unfolding with_boot_time os_settings open_settings sysm_close os_close release_if opened_status
    given_back
with_boot_time-close sys s block self (inl errno) fails same = rw fails (refl, same)
with_boot_time-close sys s block self (inr lines) ok same = (refl, refl)

-- Whatever `malloc` left in the block: where /proc/stat opens, `sysm_open` succeeds, and `sysm_close`
-- then gives back the block and nothing else; where it does not, `sysm_open` fails with its errno,
-- and the pointers that `sysm_close` then gives back are still those that `malloc` left.
pub sysm_open-close :
    (sys : System) (block : Sysm) (self : ℕ)
    → IsAnswer sys.proc_stat
    → ((sysm_open sys block).0 ≡ opened_status sys.proc_stat)
      × (sysm_close self (sysm_open sys block).1 ≡ given_back self block sys.proc_stat)
sysm_open-close sys block self answer =
    let s = record block { pagesize = count_halves sys.page_bytes sys.page_bytes } in
    let same : sysm_close self s ≡ sysm_close self block = unfold sysm_close os_close in refl in
    unfold sysm_open os_open in with_boot_time-close sys s block self sys.proc_stat answer same

-- Where the first line of /proc/stat is not that of `btime`, `sysm_open` leaves the boot time 0,
-- whatever the other lines are.
pub sysm_open-boot_time :
    (sys : System) (block : Sysm) (line : Bytes) (lines : List Bytes)
    → sys.proc_stat ≡ inr (line ∷ lines)
    → starts_with (codes "btime") line ≡ false
    → ((sysm_open sys block).1).boot_time ≡ 0
sysm_open-boot_time sys block line lines e other =
    let opened : os_open sys block ≡ (
      sysm_ok,
      os_settings sys
          (record block { pagesize = count_halves sys.page_bytes sys.page_bytes; boot_time = 0 }),
    ) =
      unfold os_open with_boot_time boot_time_in in rw (e, other) refl in
    unfold sysm_open open_settings os_settings in rw opened refl
