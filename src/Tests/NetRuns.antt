-- ===== src/Tests/NetRuns.antt =====
-- The connections of sysm-native/src/main/sysm.c on a /proc/net/tcp of one listener.
use jni_demo_system_monitor.Text.Number.{
  strtoul, read_sign, read_base, has_hex_prefix, drop_two, starts_number, scan_digits, is_digit_of,
  digit_value, clamp_ulong,
}
use jni_demo_system_monitor.Text.{drop_while, is_space, is_digit}
use jni_demo_system_monitor.Base.{
  ◌+◌, [], ◌∷◌, ◌≡◌, inr, some, none, refl, arith, Bytes, codes, sysm_ok, ◌++◌,
}
use jni_demo_system_monitor.Cache.{cache_new}
use jni_demo_system_monitor.GrowList.Push.{create-IsValid}
use jni_demo_system_monitor.GrowList.{GrowList, items, create, net_connlist_max}
use jni_demo_system_monitor.Net.Address.{
  NetAddress, inet, unspec, hex2int, hex_loop, hex_digit, convert_hex_address,
}
use jni_demo_system_monitor.Net.Connection.{
  NetConnection, netconn_tcp, netconn_server, read_line, skip_while, skip_past, span_to, advance,
}
use jni_demo_system_monitor.Net.Stat.Totals.{Balanced, read_lines-Balanced, zero_stat-Balanced}
use jni_demo_system_monitor.Net.Stat.{StatState, zero_stat, net_stat_walker}
use jni_demo_system_monitor.Net.Walk.Collect.{
  ReadsAs, none_left, taken, IsReady, proc_net_read-collect,
}
use jni_demo_system_monitor.Net.Walk.{Files, open_proc, proc_net_read, collect_walker, read_lines}

abbrev stale : NetAddress
stale = record { family = unspec; word0 = 0; word1 = 0; word2 = 0; word3 = 0 }

abbrev header : Bytes
header = codes "  sl  local_address rem_address   st tx_queue rx_queue"

abbrev line : Bytes
line =
    codes
      "   0: 0100007F:0016 00000000:0000 0A 00000000:00000000 00:00000000 00000000     0        0 12345 1\n"

abbrev one_line : Files
one_line = record {
  fopen = λ _. inr (header ∷ line ∷ []);
  xproc_open = λ _. none;
  proc_net = none;
  stale_lo = stale;
  stale_re = stale;
}

abbrev listener : NetConnection
listener = record {
  lo_port = 22;
  lo_address = record stale { family = inet; word0 = 16777343 };
  re_port = 0;
  re_address = record stale { family = inet };
  uid = 0;
  inode = 12345;
  type = netconn_tcp;
  state = 10;
  se_q = 0;
  re_q = 0;
}

line_read : read_line stale stale netconn_server netconn_tcp line ≡ some (some listener)
unfolding read_line skip_while skip_past span_to advance drop_while strtoul read_sign read_base
    has_hex_prefix drop_two starts_number scan_digits is_digit_of digit_value clamp_ulong hex2int
    hex_loop hex_digit convert_hex_address is_space is_digit
line_read = refl

reads : ReadsAs one_line netconn_server netconn_tcp (line ∷ []) (listener ∷ [])
reads = taken line_read none_left

opened : open_proc one_line (codes "/proc/net/tcp") ≡ inr (header ∷ line ∷ [])
unfolding open_proc
opened = refl

fresh : IsReady (create net_connlist_max)
unfolding create
fresh = ((create-IsValid net_connlist_max).0, omega arith)

proc_net_read-collect_example :
    (l' : GrowList NetConnection) × (proc_net_read one_line collect_walker netconn_server
        (codes "/proc/net/tcp")
        netconn_tcp
        (create net_connlist_max)
      ≡ some (sysm_ok, l'))
    × IsReady l'
    × (items l' ≡ items (create net_connlist_max) ++ listener ∷ [])
proc_net_read-collect_example =
    proc_net_read-collect one_line netconn_server netconn_tcp (codes "/proc/net/tcp") header
      (create net_connlist_max) opened reads fresh

abbrev no_counts : StatState
no_counts = record { netstat = zero_stat; net_listen = cache_new 32 5 }

read_lines-Balanced_example :
    (s' : StatState) × (read_lines one_line
        (net_stat_walker 5)
        netconn_server
        netconn_tcp
        (line ∷ [])
        no_counts
      ≡ some s')
    × Balanced (0 + 1) s'.netstat
read_lines-Balanced_example =
    read_lines-Balanced one_line 5 netconn_server netconn_tcp 0 reads ((refl, omega arith), tt)
      no_counts zero_stat-Balanced (omega arith)
