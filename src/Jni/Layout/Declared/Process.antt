-- ===== src/Jni/Layout/Declared/Process.antt =====
-- The fields that the Java classes for processes declare, in
-- sysm-jni/src/main/java/edu/scut/cs/hbdc/sysm/bean.
use jni_demo_system_monitor.Base.{List, [], ◌∷◌}
use jni_demo_system_monitor.Jni.Layout.{char_type, double_type, int_type, long_type, string_type}
use jni_demo_system_monitor.Jni.Layout.Declared.{JavaField, field}

abbrev pub process_cpu_fields : List JavaField
process_cpu_fields =
    field "percent" double_type
    ∷ field "lastTime" long_type
    ∷ field "startTime" long_type
    ∷ field "user" long_type
    ∷ field "sys" long_type
    ∷ field "total" long_type
    ∷ []

abbrev pub process_exe_fields : List JavaField
process_exe_fields = field "name" string_type ∷ field "cwd" string_type ∷ []

abbrev pub process_mem_fields : List JavaField
process_mem_fields =
    field "size" long_type
    ∷ field "resident" long_type
    ∷ field "share" long_type
    ∷ field "minorFaults" long_type
    ∷ field "majorFaults" long_type
    ∷ field "pageFaults" long_type
    ∷ []

abbrev pub process_own_fields : List JavaField
process_own_fields =
    field "uid" long_type
    ∷ field "gid" long_type
    ∷ field "euid" long_type
    ∷ field "egid" long_type
    ∷ []

abbrev pub process_owner_fields : List JavaField
process_owner_fields = field "user" string_type ∷ field "group" string_type ∷ []

abbrev pub process_stat_fields : List JavaField
process_stat_fields =
    field "total" long_type
    ∷ field "idle" long_type
    ∷ field "running" long_type
    ∷ field "sleeping" long_type
    ∷ field "stopped" long_type
    ∷ field "zombie" long_type
    ∷ field "threads" long_type
    ∷ []

abbrev pub process_state_fields : List JavaField
process_state_fields =
    field "state" char_type
    ∷ field "name" string_type
    ∷ field "ppid" long_type
    ∷ field "tty" int_type
    ∷ field "nice" int_type
    ∷ field "priority" int_type
    ∷ field "threads" long_type
    ∷ field "processor" int_type
    ∷ []

abbrev pub process_time_fields : List JavaField
process_time_fields =
    field "startTime" long_type
    ∷ field "user" long_type
    ∷ field "sys" long_type
    ∷ field "total" long_type
    ∷ []
