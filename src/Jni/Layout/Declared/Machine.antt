-- ===== src/Jni/Layout/Declared/Machine.antt =====
-- The fields that the Java classes for the machine declare, in
-- sysm-jni/src/main/java/edu/scut/cs/hbdc/sysm/bean.
use jni_demo_system_monitor.Base.{List, [], ◌∷◌}
use jni_demo_system_monitor.Jni.Layout.{double_type, int_type, long_type, string_type}
use jni_demo_system_monitor.Jni.Layout.Declared.{JavaField, field}

abbrev pub memory_fields : List JavaField
memory_fields =
    field "total" long_type
    ∷ field "mtrr" long_type
    ∷ field "used" long_type
    ∷ field "free" long_type
    ∷ field "actualUsed" long_type
    ∷ field "actualFree" long_type
    ∷ field "usedPercent" double_type
    ∷ field "freePercent" double_type
    ∷ []

abbrev pub swap_fields : List JavaField
swap_fields =
    field "total" long_type
    ∷ field "used" long_type
    ∷ field "free" long_type
    ∷ field "pageIn" long_type
    ∷ field "pageOut" long_type
    ∷ []

abbrev pub cpu_fields : List JavaField
cpu_fields =
    field "user" long_type
    ∷ field "sys" long_type
    ∷ field "nice" long_type
    ∷ field "idle" long_type
    ∷ field "wait" long_type
    ∷ field "hi" long_type
    ∷ field "si" long_type
    ∷ field "steal" long_type
    ∷ field "total" long_type
    ∷ []

abbrev pub cpu_info_fields : List JavaField
cpu_info_fields =
    field "vendor" string_type
    ∷ field "model" string_type
    ∷ field "mhz" int_type
    ∷ field "mhzMax" int_type
    ∷ field "mhzMin" int_type
    ∷ field "cacheSize" long_type
    ∷ field "totalCores" int_type
    ∷ field "totalSockets" int_type
    ∷ field "coresPerSocket" int_type
    ∷ []

abbrev pub cpu_percentage_fields : List JavaField
cpu_percentage_fields =
    field "user" double_type
    ∷ field "sys" double_type
    ∷ field "nice" double_type
    ∷ field "idle" double_type
    ∷ field "wait" double_type
    ∷ field "hi" double_type
    ∷ field "si" double_type
    ∷ field "steal" double_type
    ∷ field "combined" double_type
    ∷ []

abbrev pub uptime_fields : List JavaField
uptime_fields = field "uptime" double_type ∷ []
