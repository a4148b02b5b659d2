-- ===== src/Net/Stat.antt =====
-- Connection statistics: `net_stat_walker`, `sysm_net_listen_address_add`, `net_stat_port_walker`,
-- `sysm_net_stat_get`, `sysm_net_stat_port_get` and `sysm_net_listen_address_get` of
-- sysm-native/src/main/sysm.c. `none` is a write outside `tcp_states`, a count that an `int` cannot
-- hold, a copy from NULL, or a fault of the walk. The cache of listeners is never cleaned, so
-- the time at which it is used, `now`, matters to nothing but the access times.
pub mod Totals
use jni_demo_system_monitor.Base.{
  ℕ, ◌+◌, ◌%◌, Bool, true, false, List, [], ◌∷◌, Option, none, some, ◌>>=◌, ltb, ◌==◌,
  if◌then◌else◌, length, get_or, set, replicate, sysm_ok, u32_mod, enoent, ◌^◌, ◌&&◌,
}
use jni_demo_system_monitor.Cache.{Cache, cache_new, cache_get, cache_find, set_value}
use jni_demo_system_monitor.Net.Address.{NetAddress, Family, inet6, family_code, net_address_equals}
use jni_demo_system_monitor.Net.Connection.{NetConnection, netconn_tcp, netconn_server}
use jni_demo_system_monitor.Net.Walk.{Files, Walker, net_connection_walk}

-- `SYSM_TCP_LISTEN`, and `SYSM_TCP_UNKNOWN`, the length of `tcp_states`.
abbrev pub tcp_listen : ℕ
tcp_listen = 10

abbrev pub tcp_unknown : ℕ
tcp_unknown = 14

pub record NetStat : Type 0 where
  pub tcp_states : List ℕ
  pub tcp_inbound_total : ℕ
  pub tcp_outbound_total : ℕ
  pub all_inbound_total : ℕ
  pub all_outbound_total : ℕ

unfoldable pub zero_stat : NetStat
zero_stat = record {
  tcp_states = replicate tcp_unknown 0;
  tcp_inbound_total = 0;
  tcp_outbound_total = 0;
  all_inbound_total = 0;
  all_outbound_total = 0;
}

-- `tcp_states[state]++`, on an `int`, whose overflow is undefined.
unfoldable pub count_state : ℕ → NetStat → Option NetStat
count_state state st =
    let count = get_or st.tcp_states state 0 + 1 in
    if ltb state (length st.tcp_states) && ltb count (2 ^ 31)
    then some (record st { tcp_states = set st.tcp_states state count })
    else none

abbrev pub increment : ℕ → ℕ
increment n = (n + 1) % u32_mod

-- The statistics and the listeners that the walker works on.
pub record StatState : Type 0 where
  pub netstat : NetStat
  pub net_listen : Cache NetAddress

unfoldable pub keeps_address : Option NetAddress → NetAddress → Bool
keeps_address none address = false
keeps_address (some old) address = family_code address.family == family_code inet6

unfoldable pub count_end : Option (Option NetAddress) → NetStat → NetStat
count_end (some _) st = record st { tcp_inbound_total = increment st.tcp_inbound_total }
count_end none st = record st { tcp_outbound_total = increment st.tcp_outbound_total }

abbrev pub copy_totals : StatState → StatState
copy_totals s =
    let st = s.netstat in
    record s {
      netstat = record st {
        all_inbound_total = st.tcp_inbound_total;
        all_outbound_total = st.tcp_outbound_total;
      };
    }

module _ (now : ℕ) where
  unfoldable pub net_listen_address_add : Cache NetAddress → NetConnection → Cache NetAddress
  unfolding keeps_address
  net_listen_address_add cache conn =
      let (effect, value) = cache_get now now cache conn.lo_port in
      if keeps_address value conn.lo_address
      then effect.cache
      else set_value effect.cache conn.lo_port conn.lo_address

  -- A TCP connection whose state has been counted.
  unfoldable pub listen_or_count : NetConnection → NetStat → Cache NetAddress → StatState
  unfolding count_end
  listen_or_count conn st cache =
      if conn.state == tcp_listen
      then record { netstat = st; net_listen = net_listen_address_add cache conn }
      else (let (effect, found) = cache_find now now cache conn.lo_port in
          record { netstat = count_end found st; net_listen = effect.cache })

  unfoldable pub net_stat_walker : Walker StatState
  net_stat_walker s conn =
      if conn.type == netconn_tcp
      then (do
        st ← count_state conn.state s.netstat
        some (sysm_ok, copy_totals (listen_or_count conn st s.net_listen)))
      else some (sysm_ok, copy_totals s)

  unfoldable pub net_stat_get : Files → Option (Cache NetAddress) → ℕ → Option (ℕ × StatState)
  net_stat_get files net_listen flags =
      let cache : Cache NetAddress = elim net_listen [ none ↦ cache_new 32 now | some c ↦ c ] in
      net_connection_walk files net_stat_walker flags
        (record { netstat = zero_stat; net_listen = cache })

unfoldable pub count_and_go : ℕ → NetStat → Option (ℕ × NetStat)
count_and_go state st = do st' ← count_state state st; some (sysm_ok, st')

abbrev matches : NetAddress → NetAddress → Bool
matches a b = elim (net_address_equals a b) [ none ↦ false | some same ↦ same ]

-- The walker of `sysm_net_stat_port_get`.
unfoldable pub net_stat_port_walker : NetAddress → ℕ → Walker NetStat
unfolding count_and_go
net_stat_port_walker address port st conn =
    let inbound = record st {
      all_inbound_total = increment st.all_inbound_total;
      tcp_inbound_total =
          if matches address conn.lo_address
          then increment st.tcp_inbound_total
          else st.tcp_inbound_total;
    } in
    let outbound = record st {
      all_outbound_total = increment st.all_outbound_total;
      tcp_outbound_total =
          if matches address conn.re_address
          then increment st.tcp_outbound_total
          else st.tcp_outbound_total;
    } in
    if conn.type == netconn_tcp
    then (if conn.lo_port == port
        then count_and_go conn.state inbound
        else if conn.re_port == port
        then count_and_go conn.state outbound
        else some (sysm_ok, st))
    else some (sysm_ok, st)

unfoldable pub net_stat_port_get : Files → ℕ → NetAddress → ℕ → Option (ℕ × NetStat)
net_stat_port_get files flags address port =
    net_connection_walk files (net_stat_port_walker address port) flags zero_stat

-- Whether the cache has the port, and the cache behind the search; `none` is NULL.
unfoldable pub has_port : ℕ → Option (Cache NetAddress) → ℕ → Bool × Option (Cache NetAddress)
unfolding cache_find
has_port now none port = (false, none)
has_port now (some cache) port =
    let (effect, found) = cache_find now now cache port in
    (elim found [ none ↦ false | some _ ↦ true ], some effect.cache)

-- The walk of `sysm_net_stat_get`, where the port is not known.
unfoldable pub learn_ports :
    Files → ℕ → Bool → Option (Cache NetAddress) → Option (ℕ × Option (Cache NetAddress))
unfolding net_stat_get
learn_ports files now true net_listen = some (sysm_ok, net_listen)
learn_ports files now false net_listen = do
  r ← net_stat_get now files net_listen (netconn_server + netconn_tcp)
  some (r.0, some (r.1).net_listen)

-- `memcpy` of the value that the cache has for the port: `none` is a copy from NULL.
unfoldable pub copy_address :
    ℕ
    → ℕ
    → Bool × Option (Cache NetAddress)
    → NetAddress
    → Option (ℕ × Option (Cache NetAddress) × NetAddress)
unfolding cache_get
copy_address now port (true, some cache) address = do
  value ← (cache_get now now cache port).1
  some (sysm_ok, some ((cache_get now now cache port).0).cache, value)
copy_address now port (_, net_listen) address = some (enoent, net_listen, address)

-- The status, `sysm->net_listen` and `*address`.
unfoldable pub net_listen_address_get :
    Files
    → ℕ
    → Option (Cache NetAddress)
    → ℕ
    → NetAddress
    → Option (ℕ × Option (Cache NetAddress) × NetAddress)
unfolding has_port learn_ports copy_address
net_listen_address_get files now net_listen port address =
    let (known, net_listen') = has_port now net_listen port in
    do
      r ← learn_ports files now known net_listen'
      (if r.0 == sysm_ok
          then copy_address now port (has_port now r.1 port) address
          else some (r.0, r.1, address))
