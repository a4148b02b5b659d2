-- ===== src/Jni/Layout/Interface.antt =====
-- The beans for network interfaces:
-- the slots, the `JAVA_SYSM_INIT_FIELDS` and the `JAVA_SYSM_SET_FIELDS` rows of
-- sysm-native/include/main/javasysm.h, in the source's order.
use jni_demo_system_monitor.Base.{List, [], ◌∷◌}
use jni_demo_system_monitor.Jni.Layout.{
  Slot, IdRow, SetRow, Layout, slot, id_row, set_row, long_type, int_type, string_type, set_long,
  set_int, set_string, set_net_address,
}

abbrev pub net_interface_config_slots : List Slot
net_interface_config_slots =
    slot "NAME" 0
    ∷ slot "HWADDR" 1
    ∷ slot "TYPE" 2
    ∷ slot "DESCRIPTION" 3
    ∷ slot "ADDRESS" 4
    ∷ slot "ADDRESS6" 5
    ∷ slot "PREFIX6_LENGTH" 6
    ∷ slot "SCOPE6" 7
    ∷ slot "DESTINATION" 8
    ∷ slot "BROADCAST" 9
    ∷ slot "NETMASK" 10
    ∷ slot "FLAGS" 11
    ∷ slot "MTU" 12
    ∷ slot "METRIC" 13
    ∷ slot "TX_QUEUE_LEN" 14
    ∷ []

abbrev pub net_interface_config_ids : List IdRow
net_interface_config_ids =
    id_row "NAME" "name" string_type
    ∷ id_row "HWADDR" "hwaddr" string_type
    ∷ id_row "TYPE" "type" string_type
    ∷ id_row "DESCRIPTION" "description" string_type
    ∷ id_row "ADDRESS" "address" string_type
    ∷ id_row "ADDRESS6" "address6" string_type
    ∷ id_row "PREFIX6_LENGTH" "prefix6Length" int_type
    ∷ id_row "SCOPE6" "scope6" int_type
    ∷ id_row "DESTINATION" "destination" string_type
    ∷ id_row "BROADCAST" "broadcast" string_type
    ∷ id_row "NETMASK" "netmask" string_type
    ∷ id_row "FLAGS" "flags" long_type
    ∷ id_row "MTU" "mtu" long_type
    ∷ id_row "METRIC" "metric" long_type
    ∷ id_row "TX_QUEUE_LEN" "txQueueLen" int_type
    ∷ []

abbrev pub net_interface_config_sets : List SetRow
net_interface_config_sets =
    set_row set_string "NAME" "name"
    ∷ set_row set_net_address "HWADDR" "hwaddr"
    ∷ set_row set_string "TYPE" "type"
    ∷ set_row set_string "DESCRIPTION" "description"
    ∷ set_row set_net_address "ADDRESS" "address"
    ∷ set_row set_net_address "ADDRESS6" "address6"
    ∷ set_row set_int "PREFIX6_LENGTH" "prefix6_length"
    ∷ set_row set_int "SCOPE6" "scope6"
    ∷ set_row set_net_address "DESTINATION" "destination"
    ∷ set_row set_net_address "BROADCAST" "broadcast"
    ∷ set_row set_net_address "NETMASK" "netmask"
    ∷ set_row set_long "FLAGS" "flags"
    ∷ set_row set_long "MTU" "mtu"
    ∷ set_row set_long "METRIC" "metric"
    ∷ set_row set_int "TX_QUEUE_LEN" "tx_queue_len"
    ∷ []

abbrev pub net_interface_config_layout : Layout
net_interface_config_layout = record {
  index = 18;
  slots = net_interface_config_slots;
  max = 15;
  ids = net_interface_config_ids;
  sets = net_interface_config_sets;
}

abbrev pub net_interface_stat_slots : List Slot
net_interface_stat_slots =
    slot "RX_BYTES" 0
    ∷ slot "RX_PACKETS" 1
    ∷ slot "RX_ERRORS" 2
    ∷ slot "RX_DROPPED" 3
    ∷ slot "RX_OVERRUNS" 4
    ∷ slot "RX_FRAME" 5
    ∷ slot "TX_BYTES" 6
    ∷ slot "TX_PACKETS" 7
    ∷ slot "TX_ERRORS" 8
    ∷ slot "TX_DROPPED" 9
    ∷ slot "TX_OVERRUNS" 10
    ∷ slot "TX_COLLISIONS" 11
    ∷ slot "TX_CARRIER" 12
    ∷ slot "SPEED" 13
    ∷ []

abbrev pub net_interface_stat_ids : List IdRow
net_interface_stat_ids =
    id_row "RX_BYTES" "rxBytes" long_type
    ∷ id_row "RX_PACKETS" "rxPackets" long_type
    ∷ id_row "RX_ERRORS" "rxErrors" long_type
    ∷ id_row "RX_DROPPED" "rxDropped" long_type
    ∷ id_row "RX_OVERRUNS" "rxOverruns" long_type
    ∷ id_row "RX_FRAME" "rxFrame" long_type
    ∷ id_row "TX_BYTES" "txBytes" long_type
    ∷ id_row "TX_PACKETS" "txPackets" long_type
    ∷ id_row "TX_ERRORS" "txErrors" long_type
    ∷ id_row "TX_DROPPED" "txDropped" long_type
    ∷ id_row "TX_OVERRUNS" "txOverruns" long_type
    ∷ id_row "TX_COLLISIONS" "txCollisions" long_type
    ∷ id_row "TX_CARRIER" "txCarrier" long_type
    ∷ id_row "SPEED" "speed" long_type
    ∷ []

abbrev pub net_interface_stat_sets : List SetRow
net_interface_stat_sets =
    set_row set_long "RX_BYTES" "rx_bytes"
    ∷ set_row set_long "RX_PACKETS" "rx_packets"
    ∷ set_row set_long "RX_ERRORS" "rx_errors"
    ∷ set_row set_long "RX_DROPPED" "rx_dropped"
    ∷ set_row set_long "RX_OVERRUNS" "rx_overruns"
    ∷ set_row set_long "RX_FRAME" "rx_frame"
    ∷ set_row set_long "TX_BYTES" "tx_bytes"
    ∷ set_row set_long "TX_PACKETS" "tx_packets"
    ∷ set_row set_long "TX_ERRORS" "tx_errors"
    ∷ set_row set_long "TX_DROPPED" "tx_dropped"
    ∷ set_row set_long "TX_OVERRUNS" "tx_overruns"
    ∷ set_row set_long "TX_COLLISIONS" "tx_collisions"
    ∷ set_row set_long "TX_CARRIER" "tx_carrier"
    ∷ set_row set_long "SPEED" "speed"
    ∷ []

abbrev pub net_interface_stat_layout : Layout
net_interface_stat_layout = record {
  index = 19;
  slots = net_interface_stat_slots;
  max = 14;
  ids = net_interface_stat_ids;
  sets = net_interface_stat_sets;
}
