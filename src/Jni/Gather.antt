-- ===== src/Jni/Gather.antt =====
-- The native functions of sysm-native/src/main/javasysm.c that fill one Java bean. The functions of
-- the library that they call are parameters: each gives a status, the struct it has filled and the
-- `sysm_t` after it. A Java bean is filled in place: the value of a call is the object after it.
pub mod Beans
pub mod Filled
pub mod Tidy
pub mod Percentage
use jni_demo_system_monitor.Base.{
  ℕ, zero, suc, ◌+◌, ◌*◌, ◌%◌, List, [], ◌∷◌, Option, none, some, ◌>>=◌, ◌==◌, if◌then◌else◌, Bytes,
  get_elem?, sysm_ok, u32_mod,
}
use jni_demo_system_monitor.Jni.Fields.{Jvm, FieldCache, Fields, Struct, fill, get_rows}
use jni_demo_system_monitor.Jni.Handle.{
  Native, Outcome, JniSysm, World, fail, with_sysm, new_exception,
}
use jni_demo_system_monitor.Jni.Layout.Interface.{
  net_interface_config_layout, net_interface_stat_layout,
}
use jni_demo_system_monitor.Jni.Layout.Machine.{
  memory_layout, swap_layout, cpu_layout, cpu_gets, cpu_percentage_layout, uptime_layout,
}
use jni_demo_system_monitor.Jni.Layout.Network.{net_info_layout}
use jni_demo_system_monitor.Jni.Layout.Process.{
  process_cpu_layout, process_exe_layout, process_mem_layout, process_own_layout,
  process_owner_layout, process_stat_layout, process_state_layout, process_time_layout,
}
use jni_demo_system_monitor.Jni.Layout.Resource.{resource_limit_layout, disk_usage_layout}
use jni_demo_system_monitor.Jni.Layout.{Layout}

module _ (jvm : Jvm) (native : Native) where
  open jvm use {Class, Object, Value}
  open native use {Sysm}

  -- A function of the library that fills a struct.
  abbrev pub Getter : Type 0
  Getter = Sysm → ℕ × Struct jvm × Sysm

  -- The entries that `JAVA_SYSM_INIT_FIELDS` makes: one where the slot is NULL.
  abbrev pub new_entries : Option (Option (FieldCache jvm)) → ℕ
  new_entries (some none) = 1
  new_entries _ = 0

  -- The two macros at a handle: an entry is a global reference and two blocks.
  unfoldable pub fill_bean :
      Layout
      → Class
      → Struct jvm
      → World jvm native
      → JniSysm jvm native
      → Object
      → Option (Outcome (World jvm native) Object)
  unfolding fill
  fill_bean layout cls s w jsysm obj =
      let entries = new_entries (get_elem? jsysm.fields layout.index) in
      fill jvm layout cls s jsysm.fields obj >>= λ (fields, filled). some (record {
        world = record w {
          pointer = some (record jsysm { fields = fields });
          refs = w.refs + entries;
          blocks = w.blocks + 2 * entries;
        };
        value = filled;
        thrown = none;
      })

  -- What all of them do: fill the bean with a struct that is had, or throw its error.
  unfoldable pub gather_body :
      Layout
      → Class
      → Getter
      → Object
      → World jvm native
      → JniSysm jvm native
      → Option (Outcome (World jvm native) Object)
  unfolding fill_bean fail
  gather_body layout cls get obj w jsysm =
      let (status, s, sysm) = get jsysm.sysm in
      let after = record jsysm { sysm = sysm } in
      let world = record w { pointer = some after } in
      if status == sysm_ok
      then fill_bean layout cls s world after obj
      else fail jvm native world after status obj

  unfoldable pub gather :
      Layout
      → ℕ
      → Class
      → Getter
      → Object
      → World jvm native
      → Option (Outcome (World jvm native) Object)
  unfolding gather_body with_sysm
  gather layout env cls get obj = with_sysm jvm native env obj (gather_body layout cls get obj)
