-- ===== src/Jni/Layout/Declared/Resource.antt =====
-- The fields that the Java classes for limits, disks, the network and logins declare, in
-- sysm-jni/src/main/java/edu/scut/cs/hbdc/sysm/bean.
use jni_demo_system_monitor.Base.{List, [], ◌∷◌}
use jni_demo_system_monitor.Jni.Layout.{
  double_type, int_array_type, int_type, long_type, string_type,
}
use jni_demo_system_monitor.Jni.Layout.Declared.{JavaField, field}

abbrev pub resource_limit_fields : List JavaField
resource_limit_fields =
    field "cpuCur" long_type
    ∷ field "cpuMax" long_type
    ∷ field "fileSizeCur" long_type
    ∷ field "fileSizeMax" long_type
    ∷ field "pipeSizeCur" long_type
    ∷ field "pipeSizeMax" long_type
    ∷ field "dataCur" long_type
    ∷ field "dataMax" long_type
    ∷ field "stackCur" long_type
    ∷ field "stackMax" long_type
    ∷ field "coreCur" long_type
    ∷ field "coreMax" long_type
    ∷ field "memoryCur" long_type
    ∷ field "memoryMax" long_type
    ∷ field "processesCur" long_type
    ∷ field "processesMax" long_type
    ∷ field "openFilesCur" long_type
    ∷ field "OpenFilesMax" long_type
    ∷ field "virtualMemoryCur" long_type
    ∷ field "virtualMemoryMax" long_type
    ∷ []

abbrev pub disk_usage_fields : List JavaField
disk_usage_fields =
    field "reads" long_type
    ∷ field "writes" long_type
    ∷ field "readBytes" long_type
    ∷ field "writeBytes" long_type
    ∷ field "util" double_type
    ∷ field "serviceTime" double_type
    ∷ []

abbrev pub net_stat_fields : List JavaField
net_stat_fields =
    field "tcpStates" int_array_type
    ∷ field "tcpInboundTotal" int_type
    ∷ field "tcpOutboundTotal" int_type
    ∷ field "allInboundTotal" int_type
    ∷ field "allOutboundTotal" int_type
    ∷ []

abbrev pub net_info_fields : List JavaField
net_info_fields =
    field "defaultGateway" string_type
    ∷ field "defaultGatewayInterface" string_type
    ∷ field "hostName" string_type
    ∷ field "domainName" string_type
    ∷ field "primaryDns" string_type
    ∷ field "secondaryDns" string_type
    ∷ []

abbrev pub net_interface_config_fields : List JavaField
net_interface_config_fields =
    field "name" string_type
    ∷ field "hwaddr" string_type
    ∷ field "type" string_type
    ∷ field "description" string_type
    ∷ field "address" string_type
    ∷ field "address6" string_type
    ∷ field "prefix6Length" int_type
    ∷ field "scope6" int_type
    ∷ field "destination" string_type
    ∷ field "broadcast" string_type
    ∷ field "netmask" string_type
    ∷ field "flags" long_type
    ∷ field "mtu" long_type
    ∷ field "metric" long_type
    ∷ field "txQueueLen" int_type
    ∷ []

abbrev pub net_interface_stat_fields : List JavaField
net_interface_stat_fields =
    field "rxBytes" long_type
    ∷ field "rxPackets" long_type
    ∷ field "rxErrors" long_type
    ∷ field "rxDropped" long_type
    ∷ field "rxOverruns" long_type
    ∷ field "rxFrame" long_type
    ∷ field "txBytes" long_type
    ∷ field "txPackets" long_type
    ∷ field "txErrors" long_type
    ∷ field "txDropped" long_type
    ∷ field "txOverruns" long_type
    ∷ field "txCollisions" long_type
    ∷ field "txCarrier" long_type
    ∷ field "speed" long_type
    ∷ []

abbrev pub net_route_fields : List JavaField
net_route_fields =
    field "destination" string_type
    ∷ field "gateway" string_type
    ∷ field "mask" string_type
    ∷ field "flags" long_type
    ∷ field "metric" long_type
    ∷ field "refcnt" long_type
    ∷ field "use" long_type
    ∷ field "ifname" string_type
    ∷ field "mtu" long_type
    ∷ field "window" long_type
    ∷ field "irtt" long_type
    ∷ []

abbrev pub net_connection_fields : List JavaField
net_connection_fields =
    field "localPort" long_type
    ∷ field "localAddress" string_type
    ∷ field "remotePort" long_type
    ∷ field "remoteAddress" string_type
    ∷ field "type" int_type
    ∷ field "state" int_type
    ∷ field "sendQueue" long_type
    ∷ field "receiveQueue" long_type
    ∷ []

abbrev pub who_fields : List JavaField
who_fields =
    field "user" string_type
    ∷ field "device" string_type
    ∷ field "host" string_type
    ∷ field "time" long_type
    ∷ []
