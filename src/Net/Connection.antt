-- ===== src/Net/Connection.antt =====
-- One line of /proc/net/tcp and its siblings: the body of the loop of `proc_net_read` in
-- sysm-native/src/main/sysm.c, up to the call of the walker.
use jni_demo_system_monitor.Base.{
  ℕ, ◌+◌, ◌%◌, ◌^◌, Bool, not, ◌&&◌, ◌||◌, [], ◌∷◌, Option, none, some, ◌>>=◌, ltb, ◌==◌,
  if◌then◌else◌, length, drop, Bytes, u32_mod,
}
use jni_demo_system_monitor.Base.Bits.{bit_and}
use jni_demo_system_monitor.Net.Address.{NetAddress, hex_ent_len, hex2int, convert_hex_address}
use jni_demo_system_monitor.Text.Number.{strtoul}
use jni_demo_system_monitor.Text.{drop_while}

pub record NetConnection : Type 0 where
  pub lo_port : ℕ
  pub lo_address : NetAddress
  pub re_port : ℕ
  pub re_address : NetAddress
  pub uid : ℕ
  pub inode : ℕ
  pub type : ℕ
  pub state : ℕ
  pub se_q : ℕ
  pub re_q : ℕ

abbrev pub netconn_client : ℕ
netconn_client = 1

abbrev pub netconn_server : ℕ
netconn_server = 2

abbrev pub netconn_tcp : ℕ
netconn_tcp = 16

abbrev pub netconn_udp : ℕ
netconn_udp = 32

abbrev pub netconn_raw : ℕ
netconn_raw = 64

-- `flags & bit`, as a test.
abbrev pub has_flag : ℕ → ℕ → Bool
has_flag flags bit = not (bit_and flags bit == 0)

-- `SKIP_WHILE` and `SKIP_PAST`.
unfoldable pub skip_while : ℕ → Bytes → Bytes
skip_while c = drop_while (λ x. x == c)

unfoldable pub skip_past : ℕ → Bytes → Bytes
unfolding skip_while
skip_past c s = skip_while c (drop_while (λ x. not (x == c)) s)

-- The loop that measures an address and leaves `ptr` at the colon or at the end.
unfoldable pub span_to : ℕ → ℕ → Bytes → ℕ × Bytes
span_to c n [] = (n, [])
span_to c n (x ∷ s) = let rest = span_to c (n + 1) s in if x == c then (n, x ∷ s) else rest

-- `ptr += n`; `none` where that leaves the text.
unfoldable pub advance : ℕ → Bytes → Option Bytes
advance n s = if ltb (length s) n then none else some (drop n s)

-- The two addresses with their ports, and the text behind them.
pub record Ends : Type 0 where
  pub laddr : Bytes
  pub laddr_len : ℕ
  pub lo_port : ℕ
  pub raddr : Bytes
  pub raddr_len : ℕ
  pub re_port : ℕ
  pub rest : Bytes

unfoldable pub read_ends : Bytes → Ends
read_ends line =
    let laddr = skip_past b' ' (skip_while b' ' line) in
    let (laddr_len, p1) = span_to b':' 0 laddr in
    let (lo_port, p2) = strtoul 16 (skip_while b':' p1) in
    let raddr = skip_while b' ' p2 in
    let (raddr_len, p3) = span_to b':' 0 raddr in
    let (re_port, p4) = strtoul 16 (skip_while b':' p3) in
    record {
      laddr = laddr;
      laddr_len = laddr_len;
      lo_port = lo_port % 2 ^ 16;
      raddr = raddr;
      raddr_len = raddr_len;
      re_port = re_port % 2 ^ 16;
      rest = skip_while b' ' p4;
    }

-- The test behind which the line is left out.
unfoldable pub wanted : ℕ → ℕ → Bool
wanted flags re_port =
    (not (re_port == 0) && has_flag flags netconn_client)
    || (re_port == 0 && has_flag flags netconn_server)

-- The rest of a line that is wanted. `lo` and `re` are what the uninitialised `conn` holds in its
-- addresses; `none` is a read behind the end of the line.
unfoldable pub read_rest : NetAddress → NetAddress → ℕ → Ends → Option NetConnection
read_rest lo re type e = do
  lo_address ← convert_hex_address lo e.laddr e.laddr_len
  re_address ← convert_hex_address re e.raddr e.raddr_len
  state ← hex2int e.rest 2
  p1 ← advance 2 e.rest
  se_q ← hex2int (skip_while b' ' p1) hex_ent_len
  p2 ← advance (hex_ent_len + 1) (skip_while b' ' p1)
  re_q ← hex2int p2 hex_ent_len
  p3 ← advance hex_ent_len p2
  let (uid, p4) = strtoul 10 (skip_past b' ' (skip_past b' ' (skip_while b' ' p3)))
  let (inode, p5) = strtoul 10 (skip_past b' ' (skip_while b' ' p4))
  some (record {
    lo_port = e.lo_port;
    lo_address = lo_address;
    re_port = e.re_port;
    re_address = re_address;
    uid = uid % u32_mod;
    inode = inode;
    type = type;
    state = state;
    se_q = se_q;
    re_q = re_q;
  })

-- `some none` is `continue`.
unfoldable pub read_line : NetAddress → NetAddress → ℕ → ℕ → Bytes → Option (Option NetConnection)
unfolding read_ends read_rest wanted
read_line lo re flags type line =
    let e = read_ends line in
    if wanted flags e.re_port
    then (do conn ← read_rest lo re type e; some (some conn))
    else some none
