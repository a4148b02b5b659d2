-- ===== src/Interface/Traffic.antt =====
-- What went over an interface: `sysm_net_interface_stat_get` of sysm-native/src/main/sysm.c. The
-- lines that `fgets` delivers from /proc/net/dev, or the errno of `fopen`, are a parameter.
pub mod Rows
use jni_demo_system_monitor.Base.{
  ℕ, ◌-◌, Bool, true, false, List, [], ◌∷◌, ◌⊎◌, inl, inr, Option, none, some, if◌then◌else◌,
  length, take, drop, Bytes, u64_mod, sysm_ok, enxio,
}
use jni_demo_system_monitor.Text.Number.{strtoul}
use jni_demo_system_monitor.Text.{is_space, drop_while, strchr, str_eq, skip_multiple_token}

pub record InterfaceStat : Type 0 where
  pub rx_bytes : ℕ
  pub rx_packets : ℕ
  pub rx_errors : ℕ
  pub rx_dropped : ℕ
  pub rx_overruns : ℕ
  pub rx_frame : ℕ
  pub tx_bytes : ℕ
  pub tx_packets : ℕ
  pub tx_errors : ℕ
  pub tx_dropped : ℕ
  pub tx_overruns : ℕ
  pub tx_collisions : ℕ
  pub tx_carrier : ℕ
  pub speed : ℕ

-- The numbers behind the colon.
unfoldable pub read_traffic : Bytes → InterfaceStat
read_traffic ptr =
    let (rx_bytes, p1) = strtoul 10 ptr in
    let (rx_packets, p2) = strtoul 10 p1 in
    let (rx_errors, p3) = strtoul 10 p2 in
    let (rx_dropped, p4) = strtoul 10 p3 in
    let (rx_overruns, p5) = strtoul 10 p4 in
    let (rx_frame, p6) = strtoul 10 p5 in
    let (tx_bytes, p7) = strtoul 10 (skip_multiple_token 2 p6) in
    let (tx_packets, p8) = strtoul 10 p7 in
    let (tx_errors, p9) = strtoul 10 p8 in
    let (tx_dropped, p10) = strtoul 10 p9 in
    let (tx_overruns, p11) = strtoul 10 p10 in
    let (tx_collisions, p12) = strtoul 10 p11 in
    let (tx_carrier, p13) = strtoul 10 p12 in
    record {
      rx_bytes = rx_bytes;
      rx_packets = rx_packets;
      rx_errors = rx_errors;
      rx_dropped = rx_dropped;
      rx_overruns = rx_overruns;
      rx_frame = rx_frame;
      tx_bytes = tx_bytes;
      tx_packets = tx_packets;
      tx_errors = tx_errors;
      tx_dropped = tx_dropped;
      tx_overruns = tx_overruns;
      tx_collisions = tx_collisions;
      tx_carrier = tx_carrier;
      speed = u64_mod - 1;
    }

-- The text behind the name and its colon; `dev` is the line from the name on, and `ptr` what `strchr`
-- finds in it.
unfoldable pub after_name : Bytes → Bytes → Option Bytes → Option Bytes
unfolding str_eq
after_name name dev none = none
after_name name dev (some ptr) =
    if str_eq (take (length dev - length ptr) dev) name then some (drop 1 ptr) else none

unfoldable pub of_interface : Bytes → Bytes → Option Bytes
unfolding after_name drop_while is_space strchr
of_interface name line = let dev = drop_while is_space line in after_name name dev (strchr b':' dev)

unfoldable pub traffic_or : Option Bytes → ℕ × InterfaceStat → ℕ × InterfaceStat
unfolding read_traffic
traffic_or none later = later
traffic_or (some ptr) later = (sysm_ok, read_traffic ptr)

-- The loop over the lines behind the header: ENXIO where none is of the interface.
unfoldable pub find_traffic : Bytes → List Bytes → InterfaceStat → ℕ × InterfaceStat
unfolding of_interface traffic_or
find_traffic name [] ifstat = (enxio, ifstat)
find_traffic name (line ∷ lines) ifstat =
    traffic_or (of_interface name line) (find_traffic name lines ifstat)

-- `sysm_net_interface_stat_get`: the status, and what is left in `ifstat`.
unfoldable pub net_interface_stat_get : ℕ ⊎ List Bytes → Bytes → InterfaceStat → ℕ × InterfaceStat
unfolding find_traffic
net_interface_stat_get (inl errno) name ifstat = (errno, ifstat)
net_interface_stat_get (inr lines) name ifstat = find_traffic name (drop 2 lines) ifstat
