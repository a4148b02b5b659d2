-- ===== src/Jni/Layout/Bean.antt =====
-- The beans of the package edu.scut.cs.sysm.bean that sysm-native/src/main/javasysm.c fills, and
-- their tables.
use jni_demo_system_monitor.Jni.Layout.{Layout}
use jni_demo_system_monitor.Jni.Layout.Machine.{
  memory_layout, swap_layout, cpu_layout, cpu_info_layout, cpu_percentage_layout, uptime_layout,
}
use jni_demo_system_monitor.Jni.Layout.Process.{
  process_cpu_layout, process_exe_layout, process_mem_layout, process_own_layout,
  process_owner_layout, process_stat_layout, process_state_layout, process_time_layout,
}
use jni_demo_system_monitor.Jni.Layout.Resource.{
  resource_limit_layout, disk_usage_layout, who_layout,
}
use jni_demo_system_monitor.Jni.Layout.Interface.{
  net_interface_config_layout, net_interface_stat_layout,
}
use jni_demo_system_monitor.Jni.Layout.Network.{
  net_stat_layout, net_info_layout, net_route_layout, net_connection_layout,
}

pub data Bean : Type 0 where
  memory swap cpu cpu_info cpu_percentage uptime : Bean
  process_cpu process_exe process_mem process_own : Bean
  process_owner process_stat process_state process_time : Bean
  resource_limit disk_usage net_stat net_info : Bean
  net_interface_config net_interface_stat net_route net_connection who : Bean

abbrev pub layout_of : Bean → Layout
layout_of memory = memory_layout
layout_of swap = swap_layout
layout_of cpu = cpu_layout
layout_of cpu_info = cpu_info_layout
layout_of cpu_percentage = cpu_percentage_layout
layout_of uptime = uptime_layout
layout_of process_cpu = process_cpu_layout
layout_of process_exe = process_exe_layout
layout_of process_mem = process_mem_layout
layout_of process_own = process_own_layout
layout_of process_owner = process_owner_layout
layout_of process_stat = process_stat_layout
layout_of process_state = process_state_layout
layout_of process_time = process_time_layout
layout_of resource_limit = resource_limit_layout
layout_of disk_usage = disk_usage_layout
layout_of net_stat = net_stat_layout
layout_of net_info = net_info_layout
layout_of net_interface_config = net_interface_config_layout
layout_of net_interface_stat = net_interface_stat_layout
layout_of net_route = net_route_layout
layout_of net_connection = net_connection_layout
layout_of who = who_layout
