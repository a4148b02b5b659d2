-- ===== src/Proc/Signal.antt =====
-- `sysm_proc_signal` and `sysm_pid_get` of sysm-native/src/main/sysm.c. `kill` is a parameter:
-- `none` where it succeeds, or the errno it sets.
use jni_demo_system_monitor.Base.{ℕ, Option, none, some, sysm_ok}

unfoldable pub proc_signal : (ℕ → ℕ → Option ℕ) → ℕ → ℕ → ℕ
proc_signal kill pid signum = elim (kill pid signum) [ none ↦ sysm_ok | some errno ↦ errno ]

-- What `getpid` gives is stored and returned.
abbrev pub pid_get {ℓ} : {S : Type ℓ} → (ℕ → S → S) → ℕ → S → ℕ × S
pid_get with_pid getpid sysm = (getpid, with_pid getpid sysm)
