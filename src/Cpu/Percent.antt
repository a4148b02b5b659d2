-- ===== src/Cpu/Percent.antt =====
-- The shares of the CPU times between two readings: `sysm_cpu_perc_cal` of
-- sysm-native/src/main/sysm_util.c.
use jni_demo_system_monitor.Base.{
  ℕ, ◌+◌, ◌-◌, ◌%◌, ◌<◌, ◌≡◌, refl, arith, false, if◌then◌else◌, u64_mod, leb,
}
use jni_demo_system_monitor.Cpu.{Cpu}
use jni_demo_system_monitor.Double.{Double}

-- The subtraction of two `sysm_uint64_t`, which wraps.
unfoldable pub sub_u64 : ℕ → ℕ → ℕ
sub_u64 a b = (a + (u64_mod - b)) % u64_mod

module _ (d : Double) where
  pub record CpuPerc : Type 0 where
    pub user : d.Carrier
    pub sys : d.Carrier
    pub nice : d.Carrier
    pub idle : d.Carrier
    pub wait : d.Carrier
    pub hi : d.Carrier
    pub si : d.Carrier
    pub steal : d.Carrier
    pub combined : d.Carrier

  -- `diff = curr - prev; diff = diff < 0 ? 0 : diff`.
  unfoldable pub diff : ℕ → ℕ → d.Carrier
  unfolding sub_u64
  diff curr prev =
      let x = d.from_u64 (sub_u64 curr prev) in if d.is_negative x then d.from_u64 0 else x

  unfoldable pub diff_total : Cpu → Cpu → d.Carrier
  unfolding diff
  diff_total prev curr =
      d.add
        (d.add
          (d.add
            (d.add
              (d.add
                (d.add (d.add (diff curr.user prev.user) (diff curr.sys prev.sys))
                  (diff curr.nice prev.nice))
                (diff curr.idle prev.idle))
              (diff curr.wait prev.wait))
            (diff curr.hi prev.hi))
          (diff curr.si prev.si))
        (diff curr.steal prev.steal)

  unfoldable pub cpu_perc_cal : Cpu → Cpu → CpuPerc
  unfolding diff diff_total
  cpu_perc_cal prev curr =
      let total = diff_total prev curr in
      let user = d.div (diff curr.user prev.user) total in
      let sys = d.div (diff curr.sys prev.sys) total in
      let nice = d.div (diff curr.nice prev.nice) total in
      let wait = d.div (diff curr.wait prev.wait) total in
      record {
        user = user;
        sys = sys;
        nice = nice;
        idle = d.div (diff curr.idle prev.idle) total;
        wait = wait;
        hi = d.div (diff curr.hi prev.hi) total;
        si = d.div (diff curr.si prev.si) total;
        steal = d.div (diff curr.steal prev.steal) total;
        combined = d.add (d.add (d.add user sys) nice) wait;
      }

-- The difference of two counters, on doubles whose conversions from `sysm_uint64_t` are not
-- negative: that of the numbers, and for a counter that went back, 2^64 less the step back. The
-- replacement of a negative difference by 0 never happens.
pub diff_lem :
    (d : Double) (curr prev : ℕ)
    → ((a : ℕ) → d.is_negative (d.from_u64 a) ≡ false)
    → curr < u64_mod
    → prev < u64_mod
    → diff d curr prev ≡ d.from_u64 (if leb prev curr then curr - prev else u64_mod - (prev - curr))
unfolding diff sub_u64
diff_lem d curr prev sign hc hp =
    let wrapped : (curr + (u64_mod - prev)) % u64_mod
        ≡ (if leb prev curr then curr - prev else u64_mod - (prev - curr)) =
      ground arith in
    rw (sign ((curr + (u64_mod - prev)) % u64_mod), wrapped) refl
