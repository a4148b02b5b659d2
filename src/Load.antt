-- ===== src/Load.antt =====
-- The load averages and the uptime: `sysm_loadavg_get` and `sysm_uptime_get` of
-- sysm-native/src/main/sysm.c. `strtod` is a parameter; `none` is a store behind the buffer.
use jni_demo_system_monitor.Base.{ℕ, ◌⊎◌, inl, inr, Option, none, some, Bytes, sysm_ok}
use jni_demo_system_monitor.Double.{Double}
use jni_demo_system_monitor.File.{Opened, file2str}

pub record LoadAvg (d : Double) : Type 0 where
  pub one : d.Carrier
  pub five : d.Carrier
  pub fifteen : d.Carrier

module _ (d : Double) (strtod : Bytes → d.Carrier × Bytes) where
  -- Three numbers, each from where the one before ends.
  unfoldable pub three_loads : Bytes → LoadAvg d
  three_loads buffer =
      let (one, p1) = strtod buffer in
      let (five, p2) = strtod p1 in record { one = one; five = five; fifteen = (strtod p2).0 }

  unfoldable pub load_text : Option (ℕ ⊎ Bytes) → LoadAvg d → Option (ℕ × LoadAvg d)
  unfolding three_loads
  load_text none loadavg = none
  load_text (some (inl status)) loadavg = some (status, loadavg)
  load_text (some (inr buffer)) loadavg = some (sysm_ok, three_loads buffer)

  -- `bufsiz` is BUFSIZ.
  unfoldable pub loadavg_get : ℕ → Opened → LoadAvg d → Option (ℕ × LoadAvg d)
  unfolding load_text file2str
  loadavg_get bufsiz file loadavg = load_text (file2str bufsiz bufsiz file) loadavg

  unfoldable pub uptime_text : Option (ℕ ⊎ Bytes) → d.Carrier → Option (ℕ × d.Carrier)
  uptime_text none uptime = none
  uptime_text (some (inl status)) uptime = some (status, uptime)
  uptime_text (some (inr buffer)) uptime = some (sysm_ok, (strtod buffer).0)

  unfoldable pub uptime_get : ℕ → Opened → d.Carrier → Option (ℕ × d.Carrier)
  unfolding uptime_text file2str
  uptime_get bufsiz file uptime = uptime_text (file2str bufsiz bufsiz file) uptime
