-- ===== src/Net/Walk.antt =====
-- The walk over the connections: `proc_net_read`, `sysm_net_connection_walk`, `proc_net_walker`,
-- `sysm_net_connection_list_get` and `sysm_net_connection_get` of sysm-native/src/main/sysm.c. The
-- files are a parameter, an errno or the lines that `fgets` delivers; a walker is a function on its
-- own state; `none` is a read behind the end of a line or a store behind a block.
pub mod Collect
use jni_demo_system_monitor.Base.{
  ℕ, zero, suc, ◌+◌, Bool, true, false, not, ◌&&◌, ◌||◌, List, [], ◌∷◌, ◌++◌, ◌⊎◌, inl, inr, Option,
  none, some, ◌>>=◌, ◌==◌, if◌then◌else◌, drop, Bytes, codes, sysm_ok, enoent,
}
use jni_demo_system_monitor.GrowList.Kinds.{
  net_connection_list_create, net_connection_list_push, net_connection_list_destroy,
}
use jni_demo_system_monitor.GrowList.{GrowList}
use jni_demo_system_monitor.Net.Address.{NetAddress}
use jni_demo_system_monitor.Net.Connection.{
  NetConnection, netconn_tcp, netconn_udp, netconn_raw, netconn_server, has_flag, read_line,
}

-- What the walk takes from outside: the opened files, the command or file behind another root of
-- /proc/net, and the bytes of uninitialised addresses.
pub record Files : Type 0 where
  pub fopen : Bytes → ℕ ⊎ List Bytes
  pub xproc_open : Bytes → Option (List Bytes)
  pub proc_net : Option Bytes
  pub stale_lo : NetAddress
  pub stale_re : NetAddress

-- `add_connection` on the walker's state: a status that is not SYSM_OK stops the file.
abbrev pub Walker : Type 0 → Type 0
Walker S = S → NetConnection → Option (ℕ × S)

-- The file itself, unless there is another root of /proc/net that has one of its name.
unfoldable pub open_proc : Files → Bytes → ℕ ⊎ List Bytes
open_proc files fname = elim files.proc_net [
  | none ↦ files.fopen fname
  | some root ↦ elim (files.xproc_open (root ++ b'/' ∷ drop 6 fname)) [
    | none ↦ files.fopen fname
    | some lines ↦ inr lines
  ]
]

module _ {S : Type 0} (files : Files) (add : Walker S) where
  -- After the walker's answer, `rest` is the loop over the lines that follow.
  unfoldable pub after_add : (S → Option S) → ℕ × S → Option S
  after_add rest (more, s) = if more == sysm_ok then rest s else some s

  unfoldable pub step_line : (S → Option S) → S → Option NetConnection → Option S
  unfolding after_add
  step_line rest s none = rest s
  step_line rest s (some conn) = do r ← add s conn; after_add rest r

  unfoldable pub read_lines : ℕ → ℕ → List Bytes → S → Option S
  unfolding step_line
  read_lines flags type [] s = some s
  read_lines flags type (line ∷ lines) s = do
    conn ← read_line files.stale_lo files.stale_re flags type line
    step_line (read_lines flags type lines) s conn

  -- The first line is a header.
  unfoldable pub read_opened : ℕ → ℕ → List Bytes → S → Option (ℕ × S)
  unfolding read_lines
  read_opened flags type lines s = do
    s' ← read_lines flags type (drop 1 lines) s
    some (sysm_ok, s')

  -- The status, and the walker's state.
  unfoldable pub proc_net_read : ℕ → Bytes → ℕ → S → Option (ℕ × S)
  unfolding read_opened
  proc_net_read flags fname type s = elim (open_proc files fname) [
    | inl errno ↦ some (errno, s)
    | inr lines ↦ read_opened flags type lines s
  ]

  -- The status of the second file of a protocol, which may be missing.
  unfoldable pub second_read : ℕ × S → ℕ × S
  second_read (status, s) =
      if status == sysm_ok || status == enoent then (sysm_ok, s) else (status, s)

  abbrev pub and_then : Option (ℕ × S) → (S → Option (ℕ × S)) → Option (ℕ × S)
  and_then m k = do r ← m; (if r.0 == sysm_ok then k r.1 else some r)

  -- One protocol of `sysm_net_connection_walk`: a file that must be there, and then that of IPv6.
  unfoldable pub walk_both : ℕ → ℕ → Bytes → Bytes → S → Option (ℕ × S)
  unfolding second_read
  walk_both flags type fname fname6 s =
      and_then (proc_net_read flags fname type s)
        λ s'. do r ← proc_net_read flags fname6 type s'; some (second_read r)

  unfoldable pub walk_protocol : ℕ → ℕ → Bytes → Bytes → S → Option (ℕ × S)
  unfolding walk_both
  walk_protocol flags type fname fname6 s =
      if has_flag flags type then walk_both flags type fname fname6 s else some (sysm_ok, s)

  unfoldable pub net_connection_walk : ℕ → S → Option (ℕ × S)
  unfolding walk_protocol
  net_connection_walk flags s =
      and_then (walk_protocol flags netconn_tcp (codes "/proc/net/tcp") (codes "/proc/net/tcp6") s)
        λ s1.
          and_then
            (walk_protocol flags netconn_udp (codes "/proc/net/udp") (codes "/proc/net/udp6") s1)
            λ s2.
              walk_protocol flags netconn_raw (codes "/proc/net/raw") (codes "/proc/net/raw6") s2

-- `proc_net_walker` with a list in its getter: each connection is appended.
unfoldable pub collect_walker : Walker (GrowList NetConnection)
collect_walker l conn = do l' ← net_connection_list_push conn l; some (sysm_ok, l')

-- `proc_net_walker` with no list: the first server on the port is copied, and stops the file.
unfoldable pub port_walker : ℕ → Walker NetConnection
port_walker port found conn =
    if port == conn.lo_port && conn.re_port == 0 then some (1, conn) else some (sysm_ok, found)

unfoldable pub net_connection_list_get : Files → ℕ → Option (ℕ × GrowList NetConnection)
net_connection_list_get files flags = do
  r ← net_connection_walk files collect_walker flags net_connection_list_create
  some (if r.0 == sysm_ok then r else (r.0, net_connection_list_destroy r.1))

unfoldable pub net_connection_get : Files → NetConnection → ℕ → ℕ → Option (ℕ × NetConnection)
net_connection_get files netconn port flags =
    net_connection_walk files (port_walker port) flags netconn
