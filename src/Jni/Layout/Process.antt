-- ===== src/Jni/Layout/Process.antt =====
-- The beans for processes:
-- the slots, the `JAVA_SYSM_INIT_FIELDS` and the `JAVA_SYSM_SET_FIELDS` rows of
-- sysm-native/include/main/javasysm.h, in the source's order.
use jni_demo_system_monitor.Base.{List, [], ◌∷◌}
use jni_demo_system_monitor.Jni.Layout.{
  Slot, IdRow, SetRow, Layout, slot, id_row, set_row, long_type, int_type, double_type, char_type,
  string_type, set_long, set_int, set_double, set_char, set_string,
}

abbrev pub process_cpu_slots : List Slot
process_cpu_slots =
    slot "PERCENT" 0
    ∷ slot "LAST_TIME" 1
    ∷ slot "START_TIME" 2
    ∷ slot "USER" 3
    ∷ slot "SYS" 4
    ∷ slot "TOTAL" 5
    ∷ []

abbrev pub process_cpu_ids : List IdRow
process_cpu_ids =
    id_row "PERCENT" "percent" double_type
    ∷ id_row "LAST_TIME" "lastTime" long_type
    ∷ id_row "START_TIME" "startTime" long_type
    ∷ id_row "USER" "user" long_type
    ∷ id_row "SYS" "sys" long_type
    ∷ id_row "TOTAL" "total" long_type
    ∷ []

abbrev pub process_cpu_sets : List SetRow
process_cpu_sets =
    set_row set_double "PERCENT" "percent"
    ∷ set_row set_long "LAST_TIME" "last_time"
    ∷ set_row set_long "START_TIME" "start_time"
    ∷ set_row set_long "USER" "user"
    ∷ set_row set_long "SYS" "sys"
    ∷ set_row set_long "TOTAL" "total"
    ∷ []

abbrev pub process_cpu_layout : Layout
process_cpu_layout = record {
  index = 6;
  slots = process_cpu_slots;
  max = 6;
  ids = process_cpu_ids;
  sets = process_cpu_sets;
}

abbrev pub process_exe_slots : List Slot
process_exe_slots = slot "NAME" 0 ∷ slot "CWD" 1 ∷ []

abbrev pub process_exe_ids : List IdRow
process_exe_ids = id_row "NAME" "name" string_type ∷ id_row "CWD" "cwd" string_type ∷ []

abbrev pub process_exe_sets : List SetRow
process_exe_sets = set_row set_string "NAME" "name" ∷ set_row set_string "CWD" "cwd" ∷ []

abbrev pub process_exe_layout : Layout
process_exe_layout = record {
  index = 7;
  slots = process_exe_slots;
  max = 2;
  ids = process_exe_ids;
  sets = process_exe_sets;
}

abbrev pub process_mem_slots : List Slot
process_mem_slots =
    slot "SIZE" 0
    ∷ slot "RESIDENT" 1
    ∷ slot "SHARE" 2
    ∷ slot "MINOR_FAULTS" 3
    ∷ slot "MAJOR_FAULTS" 4
    ∷ slot "PAGE_FAULTS" 5
    ∷ []

abbrev pub process_mem_ids : List IdRow
process_mem_ids =
    id_row "SIZE" "size" long_type
    ∷ id_row "RESIDENT" "resident" long_type
    ∷ id_row "SHARE" "share" long_type
    ∷ id_row "MINOR_FAULTS" "minorFaults" long_type
    ∷ id_row "MAJOR_FAULTS" "majorFaults" long_type
    ∷ id_row "PAGE_FAULTS" "pageFaults" long_type
    ∷ []

abbrev pub process_mem_sets : List SetRow
process_mem_sets =
    set_row set_long "SIZE" "size"
    ∷ set_row set_long "RESIDENT" "resident"
    ∷ set_row set_long "SHARE" "share"
    ∷ set_row set_long "MINOR_FAULTS" "minor_faults"
    ∷ set_row set_long "MAJOR_FAULTS" "major_faults"
    ∷ set_row set_long "PAGE_FAULTS" "page_faults"
    ∷ []

abbrev pub process_mem_layout : Layout
process_mem_layout = record {
  index = 8;
  slots = process_mem_slots;
  max = 6;
  ids = process_mem_ids;
  sets = process_mem_sets;
}

abbrev pub process_own_slots : List Slot
process_own_slots = slot "UID" 0 ∷ slot "GID" 1 ∷ slot "EUID" 2 ∷ slot "EGID" 3 ∷ []

abbrev pub process_own_ids : List IdRow
process_own_ids =
    id_row "UID" "uid" long_type
    ∷ id_row "GID" "gid" long_type
    ∷ id_row "EUID" "euid" long_type
    ∷ id_row "EGID" "egid" long_type
    ∷ []

abbrev pub process_own_sets : List SetRow
process_own_sets =
    set_row set_long "UID" "uid"
    ∷ set_row set_long "GID" "gid"
    ∷ set_row set_long "EUID" "euid"
    ∷ set_row set_long "EGID" "egid"
    ∷ []

abbrev pub process_own_layout : Layout
process_own_layout = record {
  index = 9;
  slots = process_own_slots;
  max = 4;
  ids = process_own_ids;
  sets = process_own_sets;
}

abbrev pub process_owner_slots : List Slot
process_owner_slots = slot "USER" 0 ∷ slot "GROUP" 1 ∷ []

abbrev pub process_owner_ids : List IdRow
process_owner_ids = id_row "USER" "user" string_type ∷ id_row "GROUP" "group" string_type ∷ []

abbrev pub process_owner_sets : List SetRow
process_owner_sets = set_row set_string "USER" "user" ∷ set_row set_string "GROUP" "group" ∷ []

abbrev pub process_owner_layout : Layout
process_owner_layout = record {
  index = 10;
  slots = process_owner_slots;
  max = 2;
  ids = process_owner_ids;
  sets = process_owner_sets;
}

abbrev pub process_stat_slots : List Slot
process_stat_slots =
    slot "TOTAL" 0
    ∷ slot "IDLE" 1
    ∷ slot "RUNNING" 2
    ∷ slot "SLEEPING" 3
    ∷ slot "STOPPED" 4
    ∷ slot "ZOMBIE" 5
    ∷ slot "THREADS" 6
    ∷ []

abbrev pub process_stat_ids : List IdRow
process_stat_ids =
    id_row "TOTAL" "total" long_type
    ∷ id_row "IDLE" "idle" long_type
    ∷ id_row "RUNNING" "running" long_type
    ∷ id_row "SLEEPING" "sleeping" long_type
    ∷ id_row "STOPPED" "stopped" long_type
    ∷ id_row "ZOMBIE" "zombie" long_type
    ∷ id_row "THREADS" "threads" long_type
    ∷ []

abbrev pub process_stat_sets : List SetRow
process_stat_sets =
    set_row set_long "TOTAL" "total"
    ∷ set_row set_long "IDLE" "idle"
    ∷ set_row set_long "RUNNING" "running"
    ∷ set_row set_long "SLEEPING" "sleeping"
    ∷ set_row set_long "STOPPED" "stopped"
    ∷ set_row set_long "ZOMBIE" "zombie"
    ∷ set_row set_long "THREADS" "threads"
    ∷ []

abbrev pub process_stat_layout : Layout
process_stat_layout = record {
  index = 11;
  slots = process_stat_slots;
  max = 7;
  ids = process_stat_ids;
  sets = process_stat_sets;
}

abbrev pub process_state_slots : List Slot
process_state_slots =
    slot "STATE" 0
    ∷ slot "NAME" 1
    ∷ slot "PPID" 2
    ∷ slot "TTY" 3
    ∷ slot "NICE" 4
    ∷ slot "PRIORITY" 5
    ∷ slot "THREADS" 6
    ∷ slot "PROCESSOR" 7
    ∷ []

abbrev pub process_state_ids : List IdRow
process_state_ids =
    id_row "STATE" "state" char_type
    ∷ id_row "NAME" "name" string_type
    ∷ id_row "PPID" "ppid" long_type
    ∷ id_row "TTY" "tty" int_type
    ∷ id_row "NICE" "nice" int_type
    ∷ id_row "PRIORITY" "priority" int_type
    ∷ id_row "THREADS" "threads" long_type
    ∷ id_row "PROCESSOR" "processor" int_type
    ∷ []

abbrev pub process_state_sets : List SetRow
process_state_sets =
    set_row set_char "STATE" "state"
    ∷ set_row set_string "NAME" "name"
    ∷ set_row set_long "PPID" "ppid"
    ∷ set_row set_int "TTY" "tty"
    ∷ set_row set_int "NICE" "nice"
    ∷ set_row set_int "PRIORITY" "priority"
    ∷ set_row set_long "THREADS" "threads"
    ∷ set_row set_int "PROCESSOR" "processor"
    ∷ []

abbrev pub process_state_layout : Layout
process_state_layout = record {
  index = 12;
  slots = process_state_slots;
  max = 8;
  ids = process_state_ids;
  sets = process_state_sets;
}

abbrev pub process_time_slots : List Slot
process_time_slots = slot "START_TIME" 0 ∷ slot "USER" 1 ∷ slot "SYS" 2 ∷ slot "TOTAL" 3 ∷ []

abbrev pub process_time_ids : List IdRow
process_time_ids =
    id_row "START_TIME" "startTime" long_type
    ∷ id_row "USER" "user" long_type
    ∷ id_row "SYS" "sys" long_type
    ∷ id_row "TOTAL" "total" long_type
    ∷ []

abbrev pub process_time_sets : List SetRow
process_time_sets =
    set_row set_long "START_TIME" "start_time"
    ∷ set_row set_long "USER" "user"
    ∷ set_row set_long "SYS" "sys"
    ∷ set_row set_long "TOTAL" "total"
    ∷ []

abbrev pub process_time_layout : Layout
process_time_layout = record {
  index = 13;
  slots = process_time_slots;
  max = 4;
  ids = process_time_ids;
  sets = process_time_sets;
}
