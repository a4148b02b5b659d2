-- ===== src/Net/Stat/Totals.antt =====
-- `net_stat_walker` of sysm-native/src/main/sysm.c over the lines of a file: the totals and the states.
use native.Mathlib.Nat.{add-zero}
use jni_demo_system_monitor.Net.Walk.Collect.{ReadsAs, none_left, unwanted, taken}
use jni_demo_system_monitor.Net.Walk.{Files, read_lines}
use jni_demo_system_monitor.Base.{
  ℕ, zero, suc, ◌+◌, ◌<◌, true, false, List, [], ◌∷◌, Option, none, some, ◌≡◌, refl, ◌∙◌, arith,
  lt→ltb, ◌==◌, ==_iff, if◌then◌else◌, length, length-set, get_or, get_or-set, set, replicate,
  sysm_ok, u32_mod, Bool-cases, inl, inr, All, Bytes, ◌^◌,
}
use jni_demo_system_monitor.Cache.{Cache, cache_find}
use jni_demo_system_monitor.Net.Address.{NetAddress}
use jni_demo_system_monitor.Net.Connection.{NetConnection, netconn_tcp}
use jni_demo_system_monitor.Net.Stat.{
  NetStat, StatState, zero_stat, count_state, tcp_listen, tcp_unknown, count_end, listen_or_count,
  copy_totals, net_stat_walker, net_listen_address_add,
}

pub sum : List ℕ → ℕ
sum [] = 0
sum (x ∷ xs) = x + sum xs

sum-set : (xs : List ℕ) (i v : ℕ) → i < length xs → sum (set xs i v) + get_or xs i 0 ≡ sum xs + v
unfolding sum
sum-set [] i v h = absurd (omega arith)
sum-set (x ∷ xs) zero v h = omega arith
sum-set (x ∷ xs) (suc i) v h = omega (arith, sum-set xs i v (omega arith))

-- `n` TCP connections have been counted: each in its state, and each that does not listen as
-- inbound or outbound.
pub record Balanced (n : ℕ) (st : NetStat) : Type 0 where
  pub width : length st.tcp_states ≡ tcp_unknown
  pub states : sum st.tcp_states ≡ n
  pub totals : st.tcp_inbound_total + st.tcp_outbound_total + get_or st.tcp_states tcp_listen 0 ≡ n
  pub inbound : st.all_inbound_total ≡ st.tcp_inbound_total
  pub outbound : st.all_outbound_total ≡ st.tcp_outbound_total

abbrev pub IsTcp : NetConnection → Type 0
IsTcp conn = conn.type ≡ netconn_tcp

pub zero_stat-Balanced : Balanced 0 zero_stat
unfolding zero_stat sum replicate
zero_stat-Balanced = record {
  width = refl;
  states = refl;
  totals = refl;
  inbound = refl;
  outbound = refl;
}

-- The statistics with one more connection in its state.
abbrev with_state : ℕ → NetStat → NetStat
with_state state st = record st {
  tcp_states = set st.tcp_states state (get_or st.tcp_states state 0 + 1);
}

module _ (n : ℕ) (st : NetStat) (b : Balanced n st) (state : ℕ) (known : state < tcp_unknown) where
  count_state-some : n + 1 < 2 ^ 31 → count_state state st ≡ some (with_state state st)
  unfolding count_state
  count_state-some fits =
      let count = get_or st.tcp_states state 0 + 1 in
      let holds : count < 2 ^ 31 =
        omega (arith, sum-set st.tcp_states state 0 (omega (arith, b.width)), b.states) in
      rw (b.width, lt→ltb state tcp_unknown known, lt→ltb count (2 ^ 31) holds)

  with_state-sum : sum (with_state state st).tcp_states ≡ n + 1
  with_state-sum = omega (
    arith,
    sum-set st.tcp_states state (get_or st.tcp_states state 0 + 1) (omega (arith, b.width)),
    b.states,
  )

  with_state_listen : get_or (with_state state st).tcp_states tcp_listen 0 ≡ (
      if state == tcp_listen
      then get_or st.tcp_states state 0 + 1
      else get_or st.tcp_states tcp_listen 0)
  with_state_listen =
      get_or-set st.tcp_states state tcp_listen (get_or st.tcp_states state 0 + 1) 0
        (omega (arith, b.width))

  listen-Balanced :
      (cache : Cache NetAddress)
      → (state == tcp_listen) ≡ true
      → Balanced
          (n + 1)
          (copy_totals (record { netstat = with_state state st; net_listen = cache })).netstat
  listen-Balanced cache e =
      let same : state ≡ tcp_listen = (==_iff state tcp_listen).0 e in
      record {
        width = length-set st.tcp_states state _ ∙ b.width;
        states = with_state-sum;
        totals = rw (with_state_listen, e, same) (omega (arith, b.totals));
        inbound = refl;
        outbound = refl;
      }

  count_end-Balanced :
      (found : Option (Option NetAddress)) (cache : Cache NetAddress)
      → (state == tcp_listen) ≡ false
      → n + 1 < u32_mod
      → Balanced
          (n + 1)
          (copy_totals (record {
            netstat = count_end found (with_state state st);
            net_listen = cache;
          })).netstat
  unfolding count_end
  count_end-Balanced (some v) cache e fits = record {
    width = length-set st.tcp_states state _ ∙ b.width;
    states = with_state-sum;
    totals = rw (with_state_listen, e) (omega (arith, b.totals));
    inbound = refl;
    outbound = refl;
  }
  count_end-Balanced none cache e fits = record {
    width = length-set st.tcp_states state _ ∙ b.width;
    states = with_state-sum;
    totals = rw (with_state_listen, e) (omega (arith, b.totals));
    inbound = refl;
    outbound = refl;
  }

listen_or_count-Balanced :
    (now n : ℕ) (st : NetStat) (cache : Cache NetAddress) (conn : NetConnection)
    → Balanced n st
    → conn.state < tcp_unknown
    → n + 1 < 2 ^ 31
    → Balanced
        (n + 1)
        (copy_totals (listen_or_count now conn (with_state conn.state st) cache)).netstat
unfolding listen_or_count
listen_or_count-Balanced now n st cache conn b known fits =
    elim (Bool-cases (conn.state == tcp_listen)) [
      | inl e ↦
          rw e (listen-Balanced n st b conn.state known (net_listen_address_add now cache conn) e)
      | inr e ↦
          let found = cache_find now now cache conn.lo_port in
          rw e (count_end-Balanced n st b conn.state known found.1 found.0.cache e (omega arith))
    ]

net_stat_walker-Balanced :
    (now n : ℕ) (s : StatState) (conn : NetConnection)
    → Balanced n s.netstat
    → conn.type ≡ netconn_tcp
    → conn.state < tcp_unknown
    → n + 1 < 2 ^ 31
    → (s' : StatState) × (net_stat_walker now s conn ≡ some (sysm_ok, s'))
      × Balanced (n + 1) s'.netstat
unfolding net_stat_walker
net_stat_walker-Balanced now n s conn b tcp known fits = (
  copy_totals (listen_or_count now conn (with_state conn.state s.netstat) s.net_listen),
  rw (tcp, count_state-some n s.netstat b conn.state known fits),
  listen_or_count-Balanced now n s.netstat s.net_listen conn b known fits,
)

-- Reading the lines of a file whose wanted connections are TCP connections in known states, on
-- statistics that are balanced, where there are fewer than 2^31 connections in all, so that no `int`
-- overflows, succeeds, and keeps the statistics balanced: the states' counts sum up to the
-- connections walked over, and so do the inbound, the outbound and the listening ones together; the overall totals
-- equal those of TCP.
pub read_lines-Balanced :
    (files : Files) (now flags type n : ℕ) {lines : List Bytes} {cs : List NetConnection}
    → ReadsAs files flags type lines cs
    → All (λ c. (c.type ≡ netconn_tcp) × (c.state < tcp_unknown)) cs
    → (s : StatState) → Balanced n s.netstat
    → n + length cs < 2 ^ 31
    → (s' : StatState) × (read_lines files (net_stat_walker now) flags type lines s ≡ some s')
      × Balanced (n + length cs) s'.netstat
unfolding read_lines
read_lines-Balanced files now flags type n none_left ok s b fits = (s, refl, rw add-zero b)
read_lines-Balanced files now flags type n (unwanted h rest) ok s b fits =
    let (s', runs, b') = read_lines-Balanced files now flags type n rest ok s b fits in
    (s', rw h runs, b')
read_lines-Balanced files now flags type n (taken {conn = conn} {cs = cs} h rest) ((tcp, known), ok)
      s b fits =
    let (s1, step, b1) = net_stat_walker-Balanced now n s conn b tcp known (omega arith) in
    let (s2, runs, b2) =
      read_lines-Balanced files now flags type (n + 1) rest ok s1 b1 (omega arith) in
    let total : n + 1 + length cs ≡ n + suc (length cs) = omega arith in
    (s2, rw (h, step) runs, rw total at b2)
