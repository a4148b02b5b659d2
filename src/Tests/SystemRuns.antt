-- ===== src/Tests/SystemRuns.antt =====
-- Interfaces, routes, disks, limits and opening on concrete inputs.
use jni_demo_system_monitor.Base.{
  ℕ, ◌+◌, ◌-◌, ◌*◌, ◌/◌, ◌≡◌, refl, arith, true, false, List, [], ◌∷◌, inl, inr, Option, none, some,
  length, drop, Bytes, codes, sysm_ok, u32_mod, u64_mod, ◌==◌, if◌then◌else◌,
}
use jni_demo_system_monitor.Disk.Rows as DiskRows
use jni_demo_system_monitor.Disk.{DiskUsage, disk_stats_init}
use jni_demo_system_monitor.Double.{Double}
use jni_demo_system_monitor.GrowList.Push.{IsValid, create-IsValid}
use jni_demo_system_monitor.GrowList.{GrowList, create, items, net_iflist_max}
use jni_demo_system_monitor.Interface.Config.Primary.{
  Surveyed, names_of, first_primary, first_candidate, last_asked, choice, config_primary_get-choice,
}
use jni_demo_system_monitor.Interface.Config
use jni_demo_system_monitor.Interface.Config.{
  Kernel, InterfaceConfig, zero_config, config_get, config_primary_get,
}
use jni_demo_system_monitor.Interface.Kind.{convert_flags, get_interface_type, type_in}
use jni_demo_system_monitor.Interface.Listing.Complete.{
  AreDistinct, AllListed, with_interfaces, proc_net_interface_list_get-with_interfaces,
}
use jni_demo_system_monitor.Interface.Listing.{proc_net_interface_list_get}
use jni_demo_system_monitor.Interface.Traffic.Rows
use jni_demo_system_monitor.Interface.Traffic.Rows.{first_row, report, net_interface_stat_get-rows}
use jni_demo_system_monitor.Interface.Traffic.{InterfaceStat, net_interface_stat_get}
use jni_demo_system_monitor.Limits.Table.{AreInUnits, kernel_limit, resource_limit_get-AreInUnits}
use jni_demo_system_monitor.Limits.{stack, resource_limit_get}
use jni_demo_system_monitor.Net.Address.Hex.{hex8}
use jni_demo_system_monitor.Net.Address.{NetAddress, inet, inet6, link}
use jni_demo_system_monitor.Route.Gateway.{
  KernelRoute, rows_of, first_default, gateway_of, get_default_gateway-first,
}
use jni_demo_system_monitor.Route.{get_default_gateway}
use jni_demo_system_monitor.Session.Opened.{opened_status, given_back, sysm_open-close}
use jni_demo_system_monitor.Session.{Sysm, System, iostat_none, sysm_open, sysm_close}
use jni_demo_system_monitor.Text.Number.{is_digit_of}
use jni_demo_system_monitor.Text.Spaced.{IsNumber}
use jni_demo_system_monitor.Text.Token.{IsWord}
use jni_demo_system_monitor.Text.{is_digit, is_space}

one_IsNumber : IsNumber (codes "1")
unfolding is_digit
one_IsNumber = (cc, (refl, tt), omega arith)

one_IsWord : IsWord (codes "1")
unfolding is_space
one_IsWord = (cc, (refl, tt))

abbrev lo_row : Rows.Row
lo_row = record {
  pad = codes "    ";
  name = codes "lo";
  bytes = codes "1";
  packets = codes "1";
  errs = codes "1";
  drops = codes "1";
  fifo = codes "1";
  frame = codes "1";
  compressed = codes "1";
  multicast = codes "1";
  sent_bytes = codes "1";
  sent_packets = codes "1";
  sent_errs = codes "1";
  sent_drops = codes "1";
  sent_fifo = codes "1";
  colls = codes "1";
  carrier = codes "1";
  rest = codes " 0\n";
}

abbrev no_traffic : InterfaceStat
no_traffic = record {
  rx_bytes = 0;
  rx_packets = 0;
  rx_errors = 0;
  rx_dropped = 0;
  rx_overruns = 0;
  rx_frame = 0;
  tx_bytes = 0;
  tx_packets = 0;
  tx_errors = 0;
  tx_dropped = 0;
  tx_overruns = 0;
  tx_collisions = 0;
  tx_carrier = 0;
  speed = 0;
}

lo_row-IsRow : Rows.IsRow lo_row
unfolding is_space is_digit_of Rows.columns Rows.from_sent
lo_row-IsRow =
    let n = one_IsNumber in
    (
      (refl, (refl, (refl, (refl, tt)))),
      (cc, (refl, (refl, tt))),
      (refl, (refl, tt)),
      (n, (n, (n, (n, (n, (n, (n, (n, (n, (n, (n, (n, (n, (n, (n, tt))))))))))))))),
      (one_IsWord, (one_IsWord, tt)),
      (refl, refl),
    )

net_interface_stat_get-rows_example :
    net_interface_stat_get
      (inr (codes "Inter-\n" ∷ codes " face\n" ∷ Rows.row_lines (lo_row ∷ [])))
      (codes "lo")
      no_traffic
    ≡ report (first_row (codes "lo") (lo_row ∷ [])) no_traffic
net_interface_stat_get-rows_example =
    net_interface_stat_get-rows (codes "Inter-\n") (codes " face\n") (codes "lo") (lo_row ∷ [])
      no_traffic (lo_row-IsRow, tt)

proc_net_interface_list_get-with_interfaces_example :
    let lines =
      codes "Inter-\n"
      ∷ codes " face\n"
      ∷ codes "  lo: 1 2\n"
      ∷ codes "eth0: 3 4\n"
      ∷ codes "  lo: 5\n"
      ∷ [] in
    (l' : GrowList Bytes) × (proc_net_interface_list_get (inr lines) (create net_iflist_max)
      ≡ some (sysm_ok, l'))
    × IsValid l'
    × (items l' ≡ with_interfaces (items (create net_iflist_max)) (drop 2 lines))
    × AreDistinct (items l')
    × AllListed (items l') (drop 2 lines)
proc_net_interface_list_get-with_interfaces_example =
    let (valid, empty) = create-IsValid {A = Bytes} net_iflist_max in
    proc_net_interface_list_get-with_interfaces
      (codes "Inter-\n"
        ∷ codes " face\n"
        ∷ codes "  lo: 1 2\n"
        ∷ codes "eth0: 3 4\n"
        ∷ codes "  lo: 5\n"
        ∷ [])
      (create net_iflist_max) valid (rw empty (unfold AreDistinct in tt))

abbrev limits : ℕ → Option (ℕ × ℕ)
limits resource = if resource == 3 then some (8388608, u64_mod - 1) else none

resource_limit_get-AreInUnits_example :
    ((resource_limit_get limits 99 (λ _. (0, 0))).0 ≡ sysm_ok)
    × AreInUnits limits (kernel_limit stack) ((resource_limit_get limits 99 (λ _. (0, 0))).1 stack)
resource_limit_get-AreInUnits_example = resource_limit_get-AreInUnits limits 99 (λ _. (0, 0)) stack

abbrev garbage : Sysm
garbage = record {
  cpu_list_cores = 5;
  lcpu = 5;
  boot_time = 5;
  ticks = 5;
  pid = 5;
  ifconf_buf = 5;
  ifconf_len = 5;
  self_path = 5;
  pids = 5;
  pagesize = 5;
  mtrr = 5;
  proc_signal_offset = 5;
  last_pid = 5;
  iostat = iostat_none;
  proc_net = 5;
  has_nptl = false;
  proc_cpu = 5;
  fsdev = 5;
  net_listen = 5;
}

abbrev closed_system : System
closed_system = record {
  page_bytes = 4096;
  proc_stat = inl 13;
  clk_tck = 100;
  has_diskstats = true;
  has_sys_block = true;
  has_partitions = true;
  release = codes "5.4.0";
}

sysm_open-close_example :
    ((sysm_open closed_system garbage).0 ≡ opened_status closed_system.proc_stat)
    × (sysm_close 4096 (sysm_open closed_system garbage).1
        ≡ given_back 4096 garbage closed_system.proc_stat)
sysm_open-close_example = sysm_open-close closed_system garbage 4096 refl

abbrev whole_numbers : Double
whole_numbers = record {
  Carrier = ℕ;
  from_u64 = λ n. n;
  to_u64 = λ n. n;
  add = λ a b. a + b;
  mul = λ a b. a * b;
  div = λ a b. a / b;
  is_negative = λ _. false;
}

abbrev eleven : List Bytes
eleven =
    codes "1"
    ∷ codes "1"
    ∷ codes "1"
    ∷ codes "1"
    ∷ codes "1"
    ∷ codes "1"
    ∷ codes "1"
    ∷ codes "1"
    ∷ codes "1"
    ∷ codes "1"
    ∷ codes "1"
    ∷ []

abbrev disk_row : Bytes → Bytes → Bytes → DiskRows.Row
disk_row major minor name = record {
  major = major;
  minor = minor;
  name = name;
  columns = eleven;
  rest = codes "\n";
}

abbrev no_disk : DiskUsage whole_numbers
no_disk = disk_stats_init whole_numbers 7

abbrev default_row : KernelRoute
default_row = record {
  row = record {
    num = 11;
    ifname = codes "eth0";
    net_addr = hex8 0;
    gate_addr = hex8 16951488;
    flags = 3;
    refcnt = 0;
    use_count = 0;
    metric = 0;
    mask_addr = hex8 0;
    mtu = 0;
    window = 0;
    irtt = 0;
  };
  destination = 0;
  gateway = 16951488;
  mask = 0;
}

abbrev no_address : NetAddress
no_address = record { family = inet; word0 = 0; word1 = 0; word2 = 0; word3 = 0 }

get_default_gateway-first_example :
    get_default_gateway no_address (λ _. inr 28) (inr (rows_of (default_row ∷ []))) ([], [])
    ≡ some (
      sysm_ok,
      (gateway_of no_address (first_default no_address (default_row ∷ [])) ([], [])).0,
      (gateway_of no_address (first_default no_address (default_row ∷ [])) ([], [])).1,
    )
get_default_gateway-first_example =
    get_default_gateway-first no_address (λ _. inr 28) (default_row ∷ []) ([], [])
      ((refl, refl, refl, omega arith, omega arith, omega arith), tt)

-- Of the two interfaces, one has no flags to be had.
abbrev two_interfaces : Kernel
two_interfaces = record {
  no_socket = none;
  answers = λ name. record {
    address = some 16777343;
    netmask = none;
    flags = if length name == 2 then inl 19 else inr 67;
    destination = none;
    broadcast = none;
    hwaddr = some (1, 77, 88);
    mtu = some 1500;
    metric = some 0;
    qlen = none;
  };
  if_inet6 = inl 2;
}

abbrev eth0_config : InterfaceConfig
eth0_config = record {
  name = codes "eth0";
  type = codes "Ethernet";
  description = codes "eth0";
  hwaddr = record { family = link; word0 = 77; word1 = 88; word2 = 0; word3 = 0 };
  address = record { family = inet; word0 = 16777343; word1 = 0; word2 = 0; word3 = 0 };
  destination = Config.no_address;
  broadcast = Config.no_address;
  netmask = Config.no_address;
  address6 = record { family = inet6; word0 = 0; word1 = 0; word2 = 0; word3 = 0 };
  prefix6_length = 0;
  scope6 = 0;
  flags = 67;
  mtu = 1500;
  metric = 1;
  tx_queue_len = u32_mod - 1;
}

abbrev survey : Surveyed
survey =
    (
      codes "lo",
      19,
      record zero_config {
        name = codes "lo";
        address = record { family = inet; word0 = 16777343; word1 = 0; word2 = 0; word3 = 0 };
      },
    )
    ∷ (codes "eth0", sysm_ok, eth0_config)
    ∷ []

config_primary_get-choice_example :
    config_primary_get two_interfaces (inr (names_of survey)) zero_config
    ≡ some (choice (first_primary survey) (first_candidate survey) (last_asked zero_config survey))
unfolding config_get Config.with_socket Config.with_flags convert_flags Config.set_ends
    Config.set_numbers Config.ipv6_config_init Config.net_interface_ipv6_config_get zero_config
    Config.no_address Config.net_address_set Config.set_hwaddr get_interface_type type_in
config_primary_get-choice_example =
    config_primary_get-choice two_interfaces survey zero_config (refl, (refl, tt))
