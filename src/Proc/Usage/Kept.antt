-- ===== src/Proc/Usage/Kept.antt =====
-- `sysm_proc_cpu_get` against a map from processes to their last readings.
use jni_demo_system_monitor.Base.{
  ℕ, ◌+◌, ◌-◌, ◌%◌, ◌<◌, ◌≤◌, ◌≡◌, ◌≢◌, ◌⊎◌, inl, inr, refl, ◌∙◌, arith, Option, none, some, ◌==◌,
  if◌then◌else◌, false, ltb, u64_mod, sysm_ok, Bool-cases, ==_iff,
}
use jni_demo_system_monitor.Cache.{Cache, perform_cleanup_if_necessary, cache_get, set_value}
use jni_demo_system_monitor.Cache.Access.{cache_get-kept, kept_with, or_null, set_value_lem}
use jni_demo_system_monitor.Cache.Table.{IsValid, view}
use jni_demo_system_monitor.Cpu.Percent.{sub_u64}
use jni_demo_system_monitor.File.{Opened}
use jni_demo_system_monitor.Proc.Query.{ProcTime, proc_time_get}
use jni_demo_system_monitor.Proc.Stat.{ProcStat, Host}
use jni_demo_system_monitor.Proc.Usage.{
  Usage, time_part, with_time, with_percent, conclude, measure, prev_or_zero, cache_or_new,
  proc_cpu_get,
}

-- The map after a reading.
pub with_reading : {V : Type 0} → ℕ → V → (ℕ → Option (Option V)) → ℕ → Option (Option V)
with_reading pid v f q = if pid == q then some (some v) else f q

after_write :
    {V : Type 0} (pid : ℕ) (v : V) (f : ℕ → Option (Option V)) (q : ℕ) (held : Option (Option V))
    → held ≡ kept_with pid f q
    → (if pid == q then some (some v) else held) ≡ with_reading pid v f q
unfolding with_reading
after_write pid v f q held e = elim (Bool-cases (pid == q)) [
  | inl same ↦ rw same
  | inr other ↦ rw other (rw other at e)
]

module _ (h : Host) (timenow pid : ℕ) (file : Opened) (time_now : ℕ) where
  module _ (now later : ℕ) (proc_cpu : Option (Cache (Usage h))) where
    abbrev cleaned : Cache (Usage h)
    cleaned =
        (perform_cleanup_if_necessary now
          (cache_or_new h timenow pid file time_now now proc_cpu)).cache

    -- `sysm_proc_cpu_get` of a process that the cache knows after its cleanup, or for which it has
    -- room, is the measurement against that reading, zero for a new process. It leaves a well-formed
    -- cache that holds the new reading for that process, and for each other what it held.
    pub proc_cpu_get_refines :
        (st st' : ProcStat) (out out' prev' : Usage h) (status : ℕ)
        → IsValid cleaned
        → (view cleaned pid ≢ none) ⊎ (cleaned.count < cleaned.size)
        → measure h timenow pid file time_now
            (prev_or_zero h timenow pid file time_now (or_null (view cleaned pid)))
            out
            st
          ≡ some (status, st', out', prev')
        → (cache' : Cache (Usage h)) × (proc_cpu_get h timenow pid file time_now now later proc_cpu
              st out
            ≡ some (status, cache', st', out'))
          × IsValid cache'
          × ((q : ℕ) → view cache' q ≡ with_reading pid prev' (view cleaned) q)
    unfolding proc_cpu_get with_reading
    proc_cpu_get_refines st st' out out' prev' status valid room measured =
        let t = cache_or_new h timenow pid file time_now now proc_cpu in
        let (leaves, value) = cache_get-kept now later pid t valid room in
        let got = (cache_get now later t pid).0.cache in
        let there : view got pid ≢ none =
          λ e. let own = (==_iff pid pid).1 refl in cc (rw own at (leaves.holds pid), e) in
        let (valid', holds) = set_value_lem got pid prev' leaves.valid there in
        (
          set_value got pid prev',
          rw (value, measured) refl,
          valid',
          λ q. holds q ∙ after_write pid prev' (view cleaned) q (view got q) (leaves.holds q),
        )

  -- Two readings of a process whose time has gone on, with counters that have not gone back since a
  -- first one that is not zero, give the share of the time between them. The reading that is kept has
  -- the percentage that the caller's structure came with, and a further call at the same time
  -- answers with that.
  pub measure-percent :
      (st st' : ProcStat) (prev out out2 : Usage h) (time : ProcTime)
      → prev.last_time < time_now
      → time_now < u64_mod
      → 0 < prev.total
      → prev.total ≤ time.total
      → proc_time_get h timenow pid file st (time_part h out) ≡ some (sysm_ok, st', time)
      → let kept = with_time h time (record out { last_time = time_now }) in
        let d = h.double in
        (measure h timenow pid file time_now prev out st
          ≡ some (
            sysm_ok,
            st',
            record kept {
              percent =
                  d.div
                    (d.from_u64 (time.total - prev.total))
                    (d.from_u64 (time_now - prev.last_time));
            },
            kept,
          ))
        × (measure h timenow pid file time_now kept out2 st' ≡ some (sysm_ok, st', kept, kept))
  unfolding measure conclude with_percent sub_u64
  measure-percent st st' prev out out2 time later small pos grows read =
      let diff : (time_now + (u64_mod - prev.last_time)) % u64_mod ≡ time_now - prev.last_time =
        omega arith in
      let same : (time_now + (u64_mod - time_now)) % u64_mod ≡ 0 = omega arith in
      let moved : (time_now - prev.last_time == 0) ≡ false = ground arith in
      let forward : ltb time.total prev.total ≡ false = ground arith in
      let started : (prev.total == 0) ≡ false = ground arith in
      (rw (diff, moved, read, forward, started) refl, rw same refl)
