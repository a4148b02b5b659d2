-- ===== src/Jni/Layout/Resource.antt =====
-- The beans for resource limits, disk usage and users:
-- the slots, the `JAVA_SYSM_INIT_FIELDS` and the `JAVA_SYSM_SET_FIELDS` rows of
-- sysm-native/include/main/javasysm.h, in the source's order.
use jni_demo_system_monitor.Base.{List, [], ◌∷◌}
use jni_demo_system_monitor.Jni.Layout.{
  Slot, IdRow, SetRow, Layout, slot, id_row, set_row, long_type, double_type, string_type, set_long,
  set_double, set_string,
}

abbrev pub resource_limit_slots : List Slot
resource_limit_slots =
    slot "CPU_CUR" 0
    ∷ slot "CPU_MAX" 1
    ∷ slot "FILE_SIZE_CUR" 2
    ∷ slot "FILE_SIZE_MAX" 3
    ∷ slot "PIPE_SIZE_MAX" 4
    ∷ slot "PIPE_SIZE_CUR" 5
    ∷ slot "DATA_CUR" 6
    ∷ slot "DATA_MAX" 7
    ∷ slot "STACK_CUR" 8
    ∷ slot "STACK_MAX" 9
    ∷ slot "CORE_CUR" 10
    ∷ slot "CORE_MAX" 11
    ∷ slot "MEMORY_CUR" 12
    ∷ slot "MEMORY_MAX" 13
    ∷ slot "PROCESSES_CUR" 14
    ∷ slot "PROCESSES_MAX" 15
    ∷ slot "OPEN_FILES_CUR" 16
    ∷ slot "OPEN_FILES_MAX" 17
    ∷ slot "VIRTUAL_MEMORY_CUR" 18
    ∷ slot "VIRTUAL_MEMORY_MAX" 19
    ∷ []

abbrev pub resource_limit_ids : List IdRow
resource_limit_ids =
    id_row "CPU_CUR" "cpuCur" long_type
    ∷ id_row "CPU_MAX" "cpuMax" long_type
    ∷ id_row "FILE_SIZE_CUR" "fileSizeCur" long_type
    ∷ id_row "FILE_SIZE_MAX" "fileSizeMax" long_type
    ∷ id_row "PIPE_SIZE_MAX" "pipeSizeMax" long_type
    ∷ id_row "PIPE_SIZE_CUR" "pipeSizeCur" long_type
    ∷ id_row "DATA_CUR" "dataCur" long_type
    ∷ id_row "DATA_MAX" "dataMax" long_type
    ∷ id_row "STACK_CUR" "stackCur" long_type
    ∷ id_row "STACK_MAX" "stackMax" long_type
    ∷ id_row "CORE_CUR" "coreCur" long_type
    ∷ id_row "CORE_MAX" "coreMax" long_type
    ∷ id_row "MEMORY_CUR" "memoryCur" long_type
    ∷ id_row "MEMORY_MAX" "memoryMax" long_type
    ∷ id_row "PROCESSES_CUR" "processesCur" long_type
    ∷ id_row "PROCESSES_MAX" "processesMax" long_type
    ∷ id_row "OPEN_FILES_CUR" "openFilesCur" long_type
    ∷ id_row "OPEN_FILES_MAX" "openFilesMax" long_type
    ∷ id_row "VIRTUAL_MEMORY_CUR" "virtualMemoryCur" long_type
    ∷ id_row "VIRTUAL_MEMORY_MAX" "virtualMemoryMax" long_type
    ∷ []

abbrev pub resource_limit_sets : List SetRow
resource_limit_sets =
    set_row set_long "CPU_CUR" "cpu_cur"
    ∷ set_row set_long "CPU_MAX" "cpu_max"
    ∷ set_row set_long "FILE_SIZE_CUR" "file_size_cur"
    ∷ set_row set_long "FILE_SIZE_MAX" "file_size_max"
    ∷ set_row set_long "PIPE_SIZE_MAX" "pipe_size_max"
    ∷ set_row set_long "PIPE_SIZE_CUR" "pipe_size_cur"
    ∷ set_row set_long "DATA_CUR" "data_cur"
    ∷ set_row set_long "DATA_MAX" "data_max"
    ∷ set_row set_long "STACK_CUR" "stack_cur"
    ∷ set_row set_long "STACK_MAX" "stack_max"
    ∷ set_row set_long "CORE_CUR" "core_cur"
    ∷ set_row set_long "CORE_MAX" "core_max"
    ∷ set_row set_long "MEMORY_CUR" "memory_cur"
    ∷ set_row set_long "MEMORY_MAX" "memory_max"
    ∷ set_row set_long "PROCESSES_CUR" "processes_cur"
    ∷ set_row set_long "PROCESSES_MAX" "processes_max"
    ∷ set_row set_long "OPEN_FILES_CUR" "open_files_cur"
    ∷ set_row set_long "OPEN_FILES_MAX" "open_files_max"
    ∷ set_row set_long "VIRTUAL_MEMORY_CUR" "virtual_memory_cur"
    ∷ set_row set_long "VIRTUAL_MEMORY_MAX" "virtual_memory_max"
    ∷ []

abbrev pub resource_limit_layout : Layout
resource_limit_layout = record {
  index = 14;
  slots = resource_limit_slots;
  max = 20;
  ids = resource_limit_ids;
  sets = resource_limit_sets;
}

abbrev pub disk_usage_slots : List Slot
disk_usage_slots =
    slot "READS" 0
    ∷ slot "WRITES" 1
    ∷ slot "READ_BYTES" 2
    ∷ slot "WRITE_BYTES" 3
    ∷ slot "UTIL" 4
    ∷ slot "SERVICE_TIME" 5
    ∷ []

abbrev pub disk_usage_ids : List IdRow
disk_usage_ids =
    id_row "READS" "reads" long_type
    ∷ id_row "WRITES" "writes" long_type
    ∷ id_row "READ_BYTES" "readBytes" long_type
    ∷ id_row "WRITE_BYTES" "writeBytes" long_type
    ∷ id_row "UTIL" "util" double_type
    ∷ id_row "SERVICE_TIME" "serviceTime" double_type
    ∷ []

abbrev pub disk_usage_sets : List SetRow
disk_usage_sets =
    set_row set_long "READS" "reads"
    ∷ set_row set_long "WRITES" "writes"
    ∷ set_row set_long "READ_BYTES" "read_bytes"
    ∷ set_row set_long "WRITE_BYTES" "write_bytes"
    ∷ set_row set_double "UTIL" "util"
    ∷ set_row set_double "SERVICE_TIME" "service_time"
    ∷ []

abbrev pub disk_usage_layout : Layout
disk_usage_layout = record {
  index = 15;
  slots = disk_usage_slots;
  max = 6;
  ids = disk_usage_ids;
  sets = disk_usage_sets;
}

abbrev pub who_slots : List Slot
who_slots = slot "USER" 0 ∷ slot "DEVICE" 1 ∷ slot "HOST" 2 ∷ slot "TIME" 3 ∷ []

abbrev pub who_ids : List IdRow
who_ids =
    id_row "USER" "user" string_type
    ∷ id_row "DEVICE" "device" string_type
    ∷ id_row "HOST" "host" string_type
    ∷ id_row "TIME" "time" long_type
    ∷ []

abbrev pub who_sets : List SetRow
who_sets =
    set_row set_string "USER" "user"
    ∷ set_row set_string "DEVICE" "device"
    ∷ set_row set_string "HOST" "host"
    ∷ set_row set_long "TIME" "time"
    ∷ []

abbrev pub who_layout : Layout
who_layout = record { index = 22; slots = who_slots; max = 4; ids = who_ids; sets = who_sets }
