-- ===== src/Jni/Layout/Network.antt =====
-- The beans for network statistics, routes and connections:
-- the slots, the `JAVA_SYSM_INIT_FIELDS` and the `JAVA_SYSM_SET_FIELDS` rows of
-- sysm-native/include/main/javasysm.h, in the source's order.
use jni_demo_system_monitor.Base.{List, [], ◌∷◌}
use jni_demo_system_monitor.Jni.Layout.{
  Slot, IdRow, SetRow, Layout, slot, id_row, set_row, long_type, int_type, string_type, set_long,
  set_int, set_string, set_net_address,
}

abbrev pub net_stat_slots : List Slot
net_stat_slots =
    slot "TCP_INBOUND_TOTAL" 0
    ∷ slot "TCP_OUTBOUND_TOTAL" 1
    ∷ slot "ALL_INBOUND_TOTAL" 2
    ∷ slot "ALL_OUTBOUND_TOTAL" 3
    ∷ []

abbrev pub net_stat_ids : List IdRow
net_stat_ids =
    id_row "TCP_INBOUND_TOTAL" "tcpInboundTotal" int_type
    ∷ id_row "TCP_OUTBOUND_TOTAL" "tcpOutboundTotal" int_type
    ∷ id_row "ALL_INBOUND_TOTAL" "allInboundTotal" int_type
    ∷ id_row "ALL_OUTBOUND_TOTAL" "allOutboundTotal" int_type
    ∷ []

abbrev pub net_stat_sets : List SetRow
net_stat_sets =
    set_row set_int "TCP_INBOUND_TOTAL" "tcp_inbound_total"
    ∷ set_row set_int "TCP_OUTBOUND_TOTAL" "tcp_outbound_total"
    ∷ set_row set_int "ALL_INBOUND_TOTAL" "all_inbound_total"
    ∷ set_row set_int "ALL_OUTBOUND_TOTAL" "all_outbound_total"
    ∷ []

abbrev pub net_stat_layout : Layout
net_stat_layout = record {
  index = 16;
  slots = net_stat_slots;
  max = 4;
  ids = net_stat_ids;
  sets = net_stat_sets;
}

abbrev pub net_info_slots : List Slot
net_info_slots =
    slot "DEFAULT_GATEWAY" 0
    ∷ slot "DEFAULT_GATEWAY_INTERFACE" 1
    ∷ slot "HOST_NAME" 2
    ∷ slot "DOMAIN_NAME" 3
    ∷ slot "PRIMARY_DNS" 4
    ∷ slot "SECONDARY_DNS" 5
    ∷ []

abbrev pub net_info_ids : List IdRow
net_info_ids =
    id_row "DEFAULT_GATEWAY" "defaultGateway" string_type
    ∷ id_row "DEFAULT_GATEWAY_INTERFACE" "defaultGatewayInterface" string_type
    ∷ id_row "HOST_NAME" "hostName" string_type
    ∷ id_row "DOMAIN_NAME" "domainName" string_type
    ∷ id_row "PRIMARY_DNS" "primaryDns" string_type
    ∷ id_row "SECONDARY_DNS" "secondaryDns" string_type
    ∷ []

abbrev pub net_info_sets : List SetRow
net_info_sets =
    set_row set_string "DEFAULT_GATEWAY" "default_gateway"
    ∷ set_row set_string "DEFAULT_GATEWAY_INTERFACE" "default_gateway_interface"
    ∷ set_row set_string "HOST_NAME" "host_name"
    ∷ set_row set_string "DOMAIN_NAME" "domain_name"
    ∷ set_row set_string "PRIMARY_DNS" "primary_dns"
    ∷ set_row set_string "SECONDARY_DNS" "secondary_dns"
    ∷ []

abbrev pub net_info_layout : Layout
net_info_layout = record {
  index = 17;
  slots = net_info_slots;
  max = 6;
  ids = net_info_ids;
  sets = net_info_sets;
}

abbrev pub net_route_slots : List Slot
net_route_slots =
    slot "DESTINATION" 0
    ∷ slot "GATEWAY" 1
    ∷ slot "FLAGS" 2
    ∷ slot "REFCNT" 3
    ∷ slot "USE" 4
    ∷ slot "METRIC" 5
    ∷ slot "MASK" 6
    ∷ slot "MTU" 7
    ∷ slot "WINDOW" 8
    ∷ slot "IRTT" 9
    ∷ slot "IFNAME" 10
    ∷ []

abbrev pub net_route_ids : List IdRow
net_route_ids =
    id_row "DESTINATION" "destination" string_type
    ∷ id_row "GATEWAY" "gateway" string_type
    ∷ id_row "FLAGS" "flags" long_type
    ∷ id_row "REFCNT" "refcnt" long_type
    ∷ id_row "USE" "use" long_type
    ∷ id_row "METRIC" "metric" long_type
    ∷ id_row "MASK" "mask" string_type
    ∷ id_row "MTU" "mtu" long_type
    ∷ id_row "WINDOW" "window" long_type
    ∷ id_row "IRTT" "irtt" long_type
    ∷ id_row "IFNAME" "ifname" string_type
    ∷ []

abbrev pub net_route_sets : List SetRow
net_route_sets =
    set_row set_net_address "DESTINATION" "destination"
    ∷ set_row set_net_address "GATEWAY" "gateway"
    ∷ set_row set_long "FLAGS" "flags"
    ∷ set_row set_long "REFCNT" "refcnt"
    ∷ set_row set_long "USE" "use"
    ∷ set_row set_long "METRIC" "metric"
    ∷ set_row set_net_address "MASK" "mask"
    ∷ set_row set_long "MTU" "mtu"
    ∷ set_row set_long "WINDOW" "window"
    ∷ set_row set_long "IRTT" "irtt"
    ∷ set_row set_string "IFNAME" "ifname"
    ∷ []

abbrev pub net_route_layout : Layout
net_route_layout = record {
  index = 20;
  slots = net_route_slots;
  max = 11;
  ids = net_route_ids;
  sets = net_route_sets;
}

abbrev pub net_connection_slots : List Slot
net_connection_slots =
    slot "LOCAL_PORT" 0
    ∷ slot "LOCAL_ADDRESS" 1
    ∷ slot "REMOTE_PORT" 2
    ∷ slot "REMOTE_ADDRESS" 3
    ∷ slot "TYPE" 4
    ∷ slot "STATE" 5
    ∷ slot "SEND_QUEUE" 6
    ∷ slot "RECEIVE_QUEUE" 7
    ∷ []

abbrev pub net_connection_ids : List IdRow
net_connection_ids =
    id_row "LOCAL_PORT" "localPort" long_type
    ∷ id_row "LOCAL_ADDRESS" "localAddress" string_type
    ∷ id_row "REMOTE_PORT" "remotePort" long_type
    ∷ id_row "REMOTE_ADDRESS" "remoteAddress" string_type
    ∷ id_row "TYPE" "type" int_type
    ∷ id_row "STATE" "state" int_type
    ∷ id_row "SEND_QUEUE" "sendQueue" long_type
    ∷ id_row "RECEIVE_QUEUE" "receiveQueue" long_type
    ∷ []

abbrev pub net_connection_sets : List SetRow
net_connection_sets =
    set_row set_long "LOCAL_PORT" "lo_port"
    ∷ set_row set_net_address "LOCAL_ADDRESS" "lo_address"
    ∷ set_row set_long "REMOTE_PORT" "re_port"
    ∷ set_row set_net_address "REMOTE_ADDRESS" "re_address"
    ∷ set_row set_int "TYPE" "type"
    ∷ set_row set_int "STATE" "state"
    ∷ set_row set_long "SEND_QUEUE" "se_q"
    ∷ set_row set_long "RECEIVE_QUEUE" "re_q"
    ∷ []

abbrev pub net_connection_layout : Layout
net_connection_layout = record {
  index = 21;
  slots = net_connection_slots;
  max = 8;
  ids = net_connection_ids;
  sets = net_connection_sets;
}
