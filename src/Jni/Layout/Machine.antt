-- ===== src/Jni/Layout/Machine.antt =====
-- The beans for memory, swap, CPU times, CPU models, percentages and uptime:
-- the slots, the `JAVA_SYSM_INIT_FIELDS` and the `JAVA_SYSM_SET_FIELDS` rows of
-- sysm-native/include/main/javasysm.h, in the source's order.
use jni_demo_system_monitor.Base.{List, [], ◌∷◌}
use jni_demo_system_monitor.Jni.Layout.{
  Slot, IdRow, SetRow, Layout, slot, id_row, set_row, long_type, int_type, double_type, string_type,
  set_long, set_int, set_double, set_string,
}

abbrev pub memory_slots : List Slot
memory_slots =
    slot "TOTAL" 0
    ∷ slot "MTRR" 1
    ∷ slot "USED" 2
    ∷ slot "FREE" 3
    ∷ slot "ACTUAL_USED" 4
    ∷ slot "ACTUAL_FREE" 5
    ∷ slot "USED_PERCENT" 6
    ∷ slot "FREE_PERCENT" 7
    ∷ []

abbrev pub memory_ids : List IdRow
memory_ids =
    id_row "TOTAL" "total" long_type
    ∷ id_row "MTRR" "mtrr" long_type
    ∷ id_row "USED" "used" long_type
    ∷ id_row "FREE" "free" long_type
    ∷ id_row "ACTUAL_USED" "actualUsed" long_type
    ∷ id_row "ACTUAL_FREE" "actualFree" long_type
    ∷ id_row "USED_PERCENT" "usedPercent" double_type
    ∷ id_row "FREE_PERCENT" "freePercent" double_type
    ∷ []

abbrev pub memory_sets : List SetRow
memory_sets =
    set_row set_long "TOTAL" "total"
    ∷ set_row set_long "MTRR" "mtrr"
    ∷ set_row set_long "USED" "used"
    ∷ set_row set_long "FREE" "free"
    ∷ set_row set_long "ACTUAL_USED" "actual_used"
    ∷ set_row set_long "ACTUAL_FREE" "actual_free"
    ∷ set_row set_double "USED_PERCENT" "used_percent"
    ∷ set_row set_double "FREE_PERCENT" "free_percent"
    ∷ []

abbrev pub memory_layout : Layout
memory_layout = record {
  index = 0;
  slots = memory_slots;
  max = 8;
  ids = memory_ids;
  sets = memory_sets;
}

abbrev pub swap_slots : List Slot
swap_slots =
    slot "TOTAL" 0 ∷ slot "USED" 1 ∷ slot "FREE" 2 ∷ slot "PAGE_IN" 3 ∷ slot "PAGE_OUT" 4 ∷ []

abbrev pub swap_ids : List IdRow
swap_ids =
    id_row "TOTAL" "total" long_type
    ∷ id_row "USED" "used" long_type
    ∷ id_row "FREE" "free" long_type
    ∷ id_row "PAGE_IN" "pageIn" long_type
    ∷ id_row "PAGE_OUT" "pageOut" long_type
    ∷ []

abbrev pub swap_sets : List SetRow
swap_sets =
    set_row set_long "TOTAL" "total"
    ∷ set_row set_long "USED" "used"
    ∷ set_row set_long "FREE" "free"
    ∷ set_row set_long "PAGE_IN" "page_in"
    ∷ set_row set_long "PAGE_OUT" "page_out"
    ∷ []

abbrev pub swap_layout : Layout
swap_layout = record { index = 1; slots = swap_slots; max = 5; ids = swap_ids; sets = swap_sets }

abbrev pub cpu_slots : List Slot
cpu_slots =
    slot "USER" 0
    ∷ slot "SYS" 1
    ∷ slot "NICE" 2
    ∷ slot "IDLE" 3
    ∷ slot "WAIT" 4
    ∷ slot "HI" 5
    ∷ slot "SI" 6
    ∷ slot "STEAL" 7
    ∷ slot "TOTAL" 8
    ∷ []

abbrev pub cpu_ids : List IdRow
cpu_ids =
    id_row "USER" "user" long_type
    ∷ id_row "SYS" "sys" long_type
    ∷ id_row "NICE" "nice" long_type
    ∷ id_row "IDLE" "idle" long_type
    ∷ id_row "WAIT" "wait" long_type
    ∷ id_row "HI" "hi" long_type
    ∷ id_row "SI" "si" long_type
    ∷ id_row "STEAL" "steal" long_type
    ∷ id_row "TOTAL" "total" long_type
    ∷ []

abbrev pub cpu_sets : List SetRow
cpu_sets =
    set_row set_long "USER" "user"
    ∷ set_row set_long "SYS" "sys"
    ∷ set_row set_long "NICE" "nice"
    ∷ set_row set_long "IDLE" "idle"
    ∷ set_row set_long "WAIT" "wait"
    ∷ set_row set_long "HI" "hi"
    ∷ set_row set_long "SI" "si"
    ∷ set_row set_long "STEAL" "steal"
    ∷ set_row set_long "TOTAL" "total"
    ∷ []

abbrev pub cpu_layout : Layout
cpu_layout = record { index = 2; slots = cpu_slots; max = 9; ids = cpu_ids; sets = cpu_sets }

abbrev pub cpu_info_slots : List Slot
cpu_info_slots =
    slot "VENDOR" 0
    ∷ slot "MODEL" 1
    ∷ slot "MHZ" 2
    ∷ slot "MHZ_MAX" 3
    ∷ slot "MHZ_MIN" 4
    ∷ slot "CACHE_SIZE" 5
    ∷ slot "TOTAL_CORES" 6
    ∷ slot "TOTAL_SOCKETS" 7
    ∷ slot "CORES_PER_SOCKET" 8
    ∷ []

abbrev pub cpu_info_ids : List IdRow
cpu_info_ids =
    id_row "VENDOR" "vendor" string_type
    ∷ id_row "MODEL" "model" string_type
    ∷ id_row "MHZ" "mhz" int_type
    ∷ id_row "MHZ_MAX" "mhzMax" int_type
    ∷ id_row "MHZ_MIN" "mhzMin" int_type
    ∷ id_row "CACHE_SIZE" "cacheSize" long_type
    ∷ id_row "TOTAL_CORES" "totalCores" int_type
    ∷ id_row "TOTAL_SOCKETS" "totalSockets" int_type
    ∷ id_row "CORES_PER_SOCKET" "coresPerSocket" int_type
    ∷ []

abbrev pub cpu_info_sets : List SetRow
cpu_info_sets =
    set_row set_string "VENDOR" "vendor"
    ∷ set_row set_string "MODEL" "model"
    ∷ set_row set_int "MHZ" "mhz"
    ∷ set_row set_int "MHZ_MAX" "mhz_max"
    ∷ set_row set_int "MHZ_MIN" "mhz_min"
    ∷ set_row set_long "CACHE_SIZE" "cache_size"
    ∷ set_row set_int "TOTAL_CORES" "total_cores"
    ∷ set_row set_int "TOTAL_SOCKETS" "total_sockets"
    ∷ set_row set_int "CORES_PER_SOCKET" "cores_per_socket"
    ∷ []

abbrev pub cpu_info_layout : Layout
cpu_info_layout = record {
  index = 3;
  slots = cpu_info_slots;
  max = 9;
  ids = cpu_info_ids;
  sets = cpu_info_sets;
}

abbrev pub cpu_percentage_slots : List Slot
cpu_percentage_slots =
    slot "USER" 0
    ∷ slot "SYS" 1
    ∷ slot "NICE" 2
    ∷ slot "IDLE" 3
    ∷ slot "WAIT" 4
    ∷ slot "HI" 5
    ∷ slot "SI" 6
    ∷ slot "STEAL" 7
    ∷ slot "COMBINED" 8
    ∷ []

abbrev pub cpu_percentage_ids : List IdRow
cpu_percentage_ids =
    id_row "USER" "user" double_type
    ∷ id_row "SYS" "sys" double_type
    ∷ id_row "NICE" "nice" double_type
    ∷ id_row "IDLE" "idle" double_type
    ∷ id_row "WAIT" "wait" double_type
    ∷ id_row "HI" "hi" double_type
    ∷ id_row "SI" "si" double_type
    ∷ id_row "STEAL" "steal" double_type
    ∷ id_row "COMBINED" "combined" double_type
    ∷ []

abbrev pub cpu_percentage_sets : List SetRow
cpu_percentage_sets =
    set_row set_double "USER" "user"
    ∷ set_row set_double "SYS" "sys"
    ∷ set_row set_double "NICE" "nice"
    ∷ set_row set_double "IDLE" "idle"
    ∷ set_row set_double "WAIT" "wait"
    ∷ set_row set_double "HI" "hi"
    ∷ set_row set_double "SI" "si"
    ∷ set_row set_double "STEAL" "steal"
    ∷ set_row set_double "COMBINED" "combined"
    ∷ []

abbrev pub cpu_percentage_layout : Layout
cpu_percentage_layout = record {
  index = 4;
  slots = cpu_percentage_slots;
  max = 9;
  ids = cpu_percentage_ids;
  sets = cpu_percentage_sets;
}

abbrev pub uptime_slots : List Slot
uptime_slots = slot "UPTIME" 0 ∷ []

abbrev pub uptime_ids : List IdRow
uptime_ids = id_row "UPTIME" "uptime" double_type ∷ []

abbrev pub uptime_sets : List SetRow
uptime_sets = set_row set_double "UPTIME" "uptime" ∷ []

abbrev pub uptime_layout : Layout
uptime_layout = record {
  index = 5;
  slots = uptime_slots;
  max = 1;
  ids = uptime_ids;
  sets = uptime_sets;
}

abbrev pub cpu_gets : List SetRow
cpu_gets =
    set_row set_long "USER" "user"
    ∷ set_row set_long "SYS" "sys"
    ∷ set_row set_long "NICE" "nice"
    ∷ set_row set_long "IDLE" "idle"
    ∷ set_row set_long "WAIT" "wait"
    ∷ set_row set_long "HI" "hi"
    ∷ set_row set_long "SI" "si"
    ∷ set_row set_long "STEAL" "steal"
    ∷ set_row set_long "TOTAL" "total"
    ∷ []
