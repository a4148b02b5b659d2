-- ===== src/Proc/Usage.antt =====
-- The share of a CPU that a process uses, from two readings of its times, the earlier of which a
-- cache keeps: `sysm_proc_cpu_get` of sysm-native/src/main/sysm.c. `none` is a fault of
-- `proc_stat_read`.
pub mod Kept
use jni_demo_system_monitor.Base.{
  ℕ, ◌+◌, ◌-◌, ◌*◌, ◌%◌, Bool, true, false, Option, none, some, ◌>>=◌, ltb, ◌==◌, if◌then◌else◌,
  u64_mod, sysm_ok,
}
use jni_demo_system_monitor.Cache.{Cache, expired_cache_new, cache_get, set_value}
use jni_demo_system_monitor.Cpu.Percent.{sub_u64}
use jni_demo_system_monitor.Double.{Double}
use jni_demo_system_monitor.File.{Opened}
use jni_demo_system_monitor.Proc.Query.{ProcTime, proc_time_get}
use jni_demo_system_monitor.Proc.Stat.{ProcStat, Host}

pub record ProcCpu (d : Double) : Type 0 where
  pub start_time : ℕ
  pub user : ℕ
  pub sys : ℕ
  pub total : ℕ
  pub last_time : ℕ
  pub percent : d.Carrier

abbrev pub pid_cache_cleanup_period : ℕ
pid_cache_cleanup_period = 1000 * 60 * 10

abbrev pub pid_cache_entry_expire_period : ℕ
pid_cache_entry_expire_period = 1000 * 60 * 20

module _ (h : Host) where
  abbrev pub Usage : Type 0
  Usage = ProcCpu h.double

  -- `SYSM_ZERO`.
  abbrev pub no_usage : Usage
  no_usage = record {
    start_time = 0;
    user = 0;
    sys = 0;
    total = 0;
    last_time = 0;
    percent = h.double.from_u64 0;
  }

  -- The fields that a `sysm_proc_cpu_t` shares with a `sysm_proc_time_t`.
  abbrev pub with_time : ProcTime → Usage → Usage
  with_time t u = record u {
    start_time = t.start_time;
    user = t.user;
    sys = t.sys;
    total = t.total;
  }

  abbrev pub time_part : Usage → ProcTime
  time_part u = record { start_time = u.start_time; user = u.user; sys = u.sys; total = u.total }

  -- The percentage since a reading of `total`, over `time_diff` milliseconds.
  unfoldable pub with_percent : ℕ → ℕ → Usage → Usage
  with_percent total time_diff u =
      let d = h.double in
      let otime = (if ltb u.total total then 0 else total) in
      if otime == 0
      then record u { percent = d.from_u64 0 }
      else record u { percent = d.div (d.from_u64 (u.total - otime)) (d.from_u64 time_diff) }

  -- After the times were read: the status, the line read, `*proc_cpu` and `*prev`.
  unfoldable pub conclude :
      Usage → Usage → ℕ → ℕ × ProcStat × ProcTime → ℕ × ProcStat × Usage × Usage
  unfolding with_percent
  conclude prev out time_diff (status, st, time) =
      if status == sysm_ok
      then (sysm_ok, st, with_percent prev.total time_diff (with_time time out), with_time time out)
      else (status, st, out, prev)

  module _ (timenow pid : ℕ) (file : Opened) (time_now : ℕ) where
    -- The call behind the cache, on the reading before, `*proc_cpu` and the line read last.
    unfoldable pub measure : Usage → Usage → ProcStat → Option (ℕ × ProcStat × Usage × Usage)
    unfolding conclude sub_u64
    measure prev out st =
        let time_diff = sub_u64 time_now prev.last_time in
        let prev' = record prev { last_time = time_now } in
        let out' = record out { last_time = time_now } in
        if time_diff == 0 then some (sysm_ok, st, prev', prev') else (do
          r ← proc_time_get h timenow pid file st (time_part out')
          some (conclude prev' out' time_diff r))

    abbrev pub prev_or_zero : Option Usage → Usage
    prev_or_zero none = no_usage
    prev_or_zero (some prev) = prev

    abbrev pub cache_or_new : ℕ → Option (Cache Usage) → Cache Usage
    cache_or_new now none =
        expired_cache_new 128 pid_cache_cleanup_period pid_cache_entry_expire_period now
    cache_or_new now (some cache) = cache

    -- `now` and `later` are the times that the cache reads. The writes through `prev` are one to the
    -- entry, with what it holds in the end.
    unfoldable pub proc_cpu_get :
        ℕ
        → ℕ
        → Option (Cache Usage)
        → ProcStat
        → Usage
        → Option (ℕ × Cache Usage × ProcStat × Usage)
    unfolding measure
    proc_cpu_get now later proc_cpu st out =
        let (effect, value) = cache_get now later (cache_or_new now proc_cpu) pid in
        do
          r ← measure (prev_or_zero value) out st
          some (r.0, set_value effect.cache pid r.3, r.1, r.2)
