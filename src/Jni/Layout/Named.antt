-- ===== src/Jni/Layout/Named.antt =====
-- The tables of all beans of sysm-native/include/main/javasysm.h, and the Java classes in
-- sysm-jni/src/main/java/edu/scut/cs/hbdc/sysm/bean.
use jni_demo_system_monitor.Jni.Layout.Declared.Resource.{
  resource_limit_fields, disk_usage_fields, net_stat_fields, net_info_fields,
  net_interface_config_fields, net_interface_stat_fields, net_route_fields, net_connection_fields,
  who_fields,
}
use jni_demo_system_monitor.Jni.Layout.Declared.Process.{
  process_cpu_fields, process_exe_fields, process_mem_fields, process_own_fields,
  process_owner_fields, process_stat_fields, process_state_fields, process_time_fields,
}
use jni_demo_system_monitor.Jni.Layout.Declared.Machine.{
  memory_fields, swap_fields, cpu_fields, cpu_info_fields, cpu_percentage_fields, uptime_fields,
}
use jni_demo_system_monitor.Jni.Layout.{IdRow, id_row, long_type}
use jni_demo_system_monitor.Jni.Layout.Declared.{JavaField, undeclared}
use mathlib.Core.Option.{some-injective}
use jni_demo_system_monitor.Base.{
  ℕ, ◌≡◌, refl, Option, some, Bytes, codes, if◌then◌else◌, true, sym, ap, ◌∙◌, get_elem?, List, [],
  ◌∷◌,
}
use jni_demo_system_monitor.Jni.Layout.Bean.{
  Bean, memory, swap, cpu, cpu_info, cpu_percentage, uptime, process_cpu, process_exe, process_mem,
  process_own, process_owner, process_stat, process_state, process_time, resource_limit, disk_usage,
  net_stat, net_info, net_interface_config, net_interface_stat, net_route, net_connection, who,
  layout_of,
}
use jni_demo_system_monitor.Jni.Layout.Matched.{
  camel_case, IsWellFormed, layout_test, layout_test_lem,
}
use jni_demo_system_monitor.Text.{str_eq}

-- The words of the connection's members that are short forms.
unfoldable pub connection_name : Bytes → Bytes
unfolding str_eq camel_case
connection_name member =
    if str_eq member (codes "lo_port")
    then codes "localPort"
    else if str_eq member (codes "lo_address")
    then codes "localAddress"
    else if str_eq member (codes "re_port")
    then codes "remotePort"
    else if str_eq member (codes "re_address")
    then codes "remoteAddress"
    else if str_eq member (codes "se_q")
    then codes "sendQueue"
    else if str_eq member (codes "re_q")
    then codes "receiveQueue"
    else camel_case member

-- The name under which the macros look up the field for a member: the member's name in camel case,
-- with the connection's short forms spelled out.
unfoldable pub field_name : Bean → Bytes → Bytes
unfolding connection_name camel_case
field_name net_connection member = connection_name member
field_name _ member = camel_case member

tables_pass : (b : Bean) → layout_test (field_name b) (layout_of b) ≡ true
unfolding layout_test field_name
tables_pass memory = refl
tables_pass swap = refl
tables_pass cpu = refl
tables_pass cpu_info = refl
tables_pass cpu_percentage = refl
tables_pass uptime = refl
tables_pass process_cpu = refl
tables_pass process_exe = refl
tables_pass process_mem = refl
tables_pass process_own = refl
tables_pass process_owner = refl
tables_pass process_stat = refl
tables_pass process_state = refl
tables_pass process_time = refl
tables_pass resource_limit = refl
tables_pass disk_usage = refl
tables_pass net_stat = refl
tables_pass net_info = refl
tables_pass net_interface_config = refl
tables_pass net_interface_stat = refl
tables_pass net_route = refl
tables_pass net_connection = refl
tables_pass who = refl

-- For every bean: its slot of `fields` is in the array; the macros store as many ids as they
-- allocate, in the slots of the bean's own numbers, each once; every setter goes through the id that
-- was fetched for the same slot, with the signature of the type it writes, and under the camel case
-- of the member it copies; and no two ids of a bean are of one name.
pub layout_of-IsWellFormed : (b : Bean) → IsWellFormed (field_name b) (layout_of b)
layout_of-IsWellFormed b = layout_test_lem (field_name b) (layout_of b) (tables_pass b)

-- The fields of the bean's Java class.
abbrev pub declared : Bean → List JavaField
declared memory = memory_fields
declared swap = swap_fields
declared cpu = cpu_fields
declared cpu_info = cpu_info_fields
declared cpu_percentage = cpu_percentage_fields
declared uptime = uptime_fields
declared process_cpu = process_cpu_fields
declared process_exe = process_exe_fields
declared process_mem = process_mem_fields
declared process_own = process_own_fields
declared process_owner = process_owner_fields
declared process_stat = process_stat_fields
declared process_state = process_state_fields
declared process_time = process_time_fields
declared resource_limit = resource_limit_fields
declared disk_usage = disk_usage_fields
declared net_stat = net_stat_fields
declared net_info = net_info_fields
declared net_interface_config = net_interface_config_fields
declared net_interface_stat = net_interface_stat_fields
declared net_route = net_route_fields
declared net_connection = net_connection_fields
declared who = who_fields

-- The rows of the ids that the Java class lacks: it has `OpenFilesMax` in their place.
abbrev pub lacking : Bean → List IdRow
lacking resource_limit = id_row "OPEN_FILES_MAX" "openFilesMax" long_type ∷ []
lacking _ = []

undeclared_ids : (b : Bean) → undeclared (declared b) (layout_of b).ids ≡ lacking b
unfolding undeclared
undeclared_ids memory = refl
undeclared_ids swap = refl
undeclared_ids cpu = refl
undeclared_ids cpu_info = refl
undeclared_ids cpu_percentage = refl
undeclared_ids uptime = refl
undeclared_ids process_cpu = refl
undeclared_ids process_exe = refl
undeclared_ids process_mem = refl
undeclared_ids process_own = refl
undeclared_ids process_owner = refl
undeclared_ids process_stat = refl
undeclared_ids process_state = refl
undeclared_ids process_time = refl
undeclared_ids resource_limit = refl
undeclared_ids disk_usage = refl
undeclared_ids net_stat = refl
undeclared_ids net_info = refl
undeclared_ids net_interface_config = refl
undeclared_ids net_interface_stat = refl
undeclared_ids net_route = refl
undeclared_ids net_connection = refl
undeclared_ids who = refl

-- For every bean: its slot of `fields` is in the array; the macros store as many ids as they
-- allocate, each in a slot of the bean's own; every setter goes through the id that was fetched for
-- the same slot, with the signature of the type it writes, under the camel case of the member it
-- copies, the connection's short forms spelled out; no two ids of a bean are of one name; and the
-- bean's Java class declares a field of the name and the signature of each id, but for
-- `openFilesMax`, which `ResourceLimit` lacks.
pub layout_of-undeclared :
    (b : Bean)
    → IsWellFormed (field_name b) (layout_of b)
      × (undeclared (declared b) (layout_of b).ids ≡ lacking b)
layout_of-undeclared b = (layout_of-IsWellFormed b, undeclared_ids b)

abbrev beans : List Bean
beans =
    memory ∷ swap ∷ cpu ∷ cpu_info ∷ cpu_percentage ∷ uptime ∷ process_cpu ∷ process_exe
    ∷ process_mem ∷ process_own ∷ process_owner ∷ process_stat ∷ process_state ∷ process_time
    ∷ resource_limit ∷ disk_usage ∷ net_stat ∷ net_info ∷ net_interface_config ∷ net_interface_stat
    ∷ net_route ∷ net_connection ∷ who ∷ []

abbrev bean_at : ℕ → Option Bean
bean_at = get_elem? beans

bean_at-index : (b : Bean) → bean_at (layout_of b).index ≡ some b
bean_at-index memory = refl
bean_at-index swap = refl
bean_at-index cpu = refl
bean_at-index cpu_info = refl
bean_at-index cpu_percentage = refl
bean_at-index uptime = refl
bean_at-index process_cpu = refl
bean_at-index process_exe = refl
bean_at-index process_mem = refl
bean_at-index process_own = refl
bean_at-index process_owner = refl
bean_at-index process_stat = refl
bean_at-index process_state = refl
bean_at-index process_time = refl
bean_at-index resource_limit = refl
bean_at-index disk_usage = refl
bean_at-index net_stat = refl
bean_at-index net_info = refl
bean_at-index net_interface_config = refl
bean_at-index net_interface_stat = refl
bean_at-index net_route = refl
bean_at-index net_connection = refl
bean_at-index who = refl

-- No two beans share a slot of `jsysm->fields`.
pub index-injective : (b c : Bean) → (layout_of b).index ≡ (layout_of c).index → b ≡ c
index-injective b c e = some-injective b c (sym (bean_at-index b) ∙ ap bean_at e ∙ bean_at-index c)
