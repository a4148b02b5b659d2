-- ===== src/Jni/Gather/Beans.antt =====
-- The gatherers of sysm-native/src/main/javasysm.c, a function each. The functions of the library
-- that they call are parameters.
use jni_demo_system_monitor.Base.{ℕ, ◌+◌, ◌%◌, List, Option, none, some, ◌>>=◌, Bytes, u32_mod}
use jni_demo_system_monitor.Jni.Fields.{Jvm, Struct, get_rows}
use jni_demo_system_monitor.Jni.Gather.{Getter, fill_bean, gather_body, gather}
use jni_demo_system_monitor.Jni.Handle.{Native, Outcome, JniSysm, World, with_sysm}
use jni_demo_system_monitor.Jni.Layout.Interface.{
  net_interface_config_layout, net_interface_stat_layout,
}
use jni_demo_system_monitor.Jni.Layout.Machine.{
  memory_layout, swap_layout, cpu_layout, cpu_gets, cpu_percentage_layout, uptime_layout,
}
use jni_demo_system_monitor.Jni.Layout.Network.{net_info_layout}
use jni_demo_system_monitor.Jni.Layout.Process.{
  process_cpu_layout, process_exe_layout, process_mem_layout, process_own_layout,
  process_owner_layout, process_stat_layout, process_state_layout, process_time_layout,
}
use jni_demo_system_monitor.Jni.Layout.Resource.{resource_limit_layout, disk_usage_layout}
use jni_demo_system_monitor.Jni.Layout.{Layout}

module _ (jvm : Jvm) (native : Native) where
  open jvm use {Class, Object, Value}
  open native use {Sysm}

  -- The functions of the library that take no handle give the same whatever it is.
  unfoldable pub swap_gather :
      ℕ
      → Class
      → ℕ × Struct jvm
      → Object
      → World jvm native
      → Option (Outcome (World jvm native) Object)
  unfolding gather
  swap_gather env cls got = gather jvm native swap_layout env cls (λ sysm. (got.0, got.1, sysm))

  unfoldable pub uptime_gather :
      ℕ
      → Class
      → ℕ × Struct jvm
      → Object
      → World jvm native
      → Option (Outcome (World jvm native) Object)
  unfolding gather
  uptime_gather env cls got = gather jvm native uptime_layout env cls (λ sysm. (got.0, got.1, sysm))

  -- Those that take the handle alone.
  unfoldable pub memory_gather :
      ℕ
      → Class
      → Getter jvm native
      → Object
      → World jvm native
      → Option (Outcome (World jvm native) Object)
  unfolding gather
  memory_gather = gather jvm native memory_layout

  unfoldable pub cpu_gather :
      ℕ
      → Class
      → Getter jvm native
      → Object
      → World jvm native
      → Option (Outcome (World jvm native) Object)
  unfolding gather
  cpu_gather = gather jvm native cpu_layout

  unfoldable pub process_stat_gather :
      ℕ
      → Class
      → Getter jvm native
      → Object
      → World jvm native
      → Option (Outcome (World jvm native) Object)
  unfolding gather
  process_stat_gather = gather jvm native process_stat_layout

  unfoldable pub resource_limit_gather :
      ℕ
      → Class
      → Getter jvm native
      → Object
      → World jvm native
      → Option (Outcome (World jvm native) Object)
  unfolding gather
  resource_limit_gather = gather jvm native resource_limit_layout

  unfoldable pub net_info_gather :
      ℕ
      → Class
      → Getter jvm native
      → Object
      → World jvm native
      → Option (Outcome (World jvm native) Object)
  unfolding gather
  net_info_gather = gather jvm native net_info_layout

  -- Those of a process: a `jlong` becomes a `pid_t`.
  unfoldable pub process_cpu_gather :
      ℕ
      → Class
      → (ℕ → Getter jvm native)
      → ℕ
      → Object
      → World jvm native
      → Option (Outcome (World jvm native) Object)
  unfolding gather
  process_cpu_gather env cls get pid =
      gather jvm native process_cpu_layout env cls (get (pid % u32_mod))

  unfoldable pub process_exe_gather :
      ℕ
      → Class
      → (ℕ → Getter jvm native)
      → ℕ
      → Object
      → World jvm native
      → Option (Outcome (World jvm native) Object)
  unfolding gather
  process_exe_gather env cls get pid =
      gather jvm native process_exe_layout env cls (get (pid % u32_mod))

  unfoldable pub process_mem_gather :
      ℕ
      → Class
      → (ℕ → Getter jvm native)
      → ℕ
      → Object
      → World jvm native
      → Option (Outcome (World jvm native) Object)
  unfolding gather
  process_mem_gather env cls get pid =
      gather jvm native process_mem_layout env cls (get (pid % u32_mod))

  unfoldable pub process_own_gather :
      ℕ
      → Class
      → (ℕ → Getter jvm native)
      → ℕ
      → Object
      → World jvm native
      → Option (Outcome (World jvm native) Object)
  unfolding gather
  process_own_gather env cls get pid =
      gather jvm native process_own_layout env cls (get (pid % u32_mod))

  unfoldable pub process_owner_gather :
      ℕ
      → Class
      → (ℕ → Getter jvm native)
      → ℕ
      → Object
      → World jvm native
      → Option (Outcome (World jvm native) Object)
  unfolding gather
  process_owner_gather env cls get pid =
      gather jvm native process_owner_layout env cls (get (pid % u32_mod))

  unfoldable pub process_state_gather :
      ℕ
      → Class
      → (ℕ → Getter jvm native)
      → ℕ
      → Object
      → World jvm native
      → Option (Outcome (World jvm native) Object)
  unfolding gather
  process_state_gather env cls get pid =
      gather jvm native process_state_layout env cls (get (pid % u32_mod))

  unfoldable pub process_time_gather :
      ℕ
      → Class
      → (ℕ → Getter jvm native)
      → ℕ
      → Object
      → World jvm native
      → Option (Outcome (World jvm native) Object)
  unfolding gather
  process_time_gather env cls get pid =
      gather jvm native process_time_layout env cls (get (pid % u32_mod))

  abbrev pub count_given : Option Bytes → ℕ
  count_given none = 0
  count_given (some name) = 1

  -- Those of a name, which may be NULL: `GetStringUTFChars` pins it, and nothing releases it.
  abbrev pub pin : Option Bytes → World jvm native → World jvm native
  pin name w = record w { pinned = w.pinned + count_given name }

  unfoldable pub gather_named :
      Layout
      → ℕ
      → Class
      → (Option Bytes → Getter jvm native)
      → Option Bytes
      → Object
      → World jvm native
      → Option (Outcome (World jvm native) Object)
  unfolding gather_body with_sysm
  gather_named layout env cls get name obj =
      with_sysm jvm native env obj
        (λ w jsysm. gather_body jvm native layout cls (get name) obj (pin name w) jsysm)

  unfoldable pub disk_usage_gather :
      ℕ
      → Class
      → (Option Bytes → Getter jvm native)
      → Option Bytes
      → Object
      → World jvm native
      → Option (Outcome (World jvm native) Object)
  unfolding gather_named
  disk_usage_gather = gather_named disk_usage_layout

  unfoldable pub net_interface_config_gather :
      ℕ
      → Class
      → (Option Bytes → Getter jvm native)
      → Option Bytes
      → Object
      → World jvm native
      → Option (Outcome (World jvm native) Object)
  unfolding gather_named
  net_interface_config_gather = gather_named net_interface_config_layout

  unfoldable pub net_interface_stat_gather :
      ℕ
      → Class
      → (Option Bytes → Getter jvm native)
      → Option Bytes
      → Object
      → World jvm native
      → Option (Outcome (World jvm native) Object)
  unfolding gather_named
  net_interface_stat_gather = gather_named net_interface_stat_layout

  -- `CpuPercentage_gather` reads two beans `Cpu` with the ids of `Cpu`, which it does not fetch, and
  -- computes with what they hold.
  unfoldable pub percentage_body :
      Class
      → (List (Bytes × Value) → List (Bytes × Value) → Struct jvm)
      → Object
      → Object
      → Object
      → World jvm native
      → JniSysm jvm native
      → Option (Outcome (World jvm native) Object)
  unfolding fill_bean get_rows
  percentage_body cls calc prev curr obj w jsysm =
      get_rows jvm cpu_layout jsysm.fields cpu_gets prev >>= λ before.
      get_rows jvm cpu_layout jsysm.fields cpu_gets curr >>= λ now.
      fill_bean jvm native cpu_percentage_layout cls (calc before now) w jsysm obj

  unfoldable pub cpu_percentage_gather :
      ℕ
      → Class
      → (List (Bytes × Value) → List (Bytes × Value) → Struct jvm)
      → Object
      → Object
      → Object
      → World jvm native
      → Option (Outcome (World jvm native) Object)
  unfolding percentage_body with_sysm
  cpu_percentage_gather env cls calc prev curr obj =
      with_sysm jvm native env obj (percentage_body cls calc prev curr obj)
