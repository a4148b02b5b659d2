-- ===== src/Proc/Port.antt =====
-- The process behind a port: `sysm_proc_port_get` of sysm-native/src/main/sysm.c. The directories and
-- what `stat` finds are parameters; the names fit their buffers.
use jni_demo_system_monitor.Base.{
  ℕ, ◌%◌, Bool, true, false, not, ◌&&◌, List, [], ◌∷◌, ◌⊎◌, inl, inr, Option, none, some, ◌>>=◌,
  ◌==◌, if◌then◌else◌, Bytes, u32_mod, sysm_ok,
}
use jni_demo_system_monitor.Net.Connection.{NetConnection}
use jni_demo_system_monitor.Net.Walk.{Files, net_connection_get}
use jni_demo_system_monitor.Text.Number.{strtoul}
use jni_demo_system_monitor.Text.{is_digit, head_byte}

-- An entry of /proc: its name, the user that `stat` finds, and the inodes of the entries of its
-- directory fd, where that opens; `none` is a `stat` that fails.
pub record ProcEntry : Type 0 where
  pub name : Bytes
  pub owner : Option ℕ
  pub fds : Option (List (Option ℕ))

unfoldable pub is_socket : ℕ → Option ℕ → Bool
is_socket inode none = false
is_socket inode (some st_ino) = st_ino == inode

-- The inner loop. Its test of the name is on the entry of /proc, and passes here.
unfoldable pub has_socket : ℕ → List (Option ℕ) → Bool
unfolding is_socket
has_socket inode [] = false
has_socket inode (fd ∷ fds) =
    let later = has_socket inode fds in if is_socket inode fd then true else later

unfoldable pub is_owner : ℕ → Option ℕ → Bool
is_owner uid none = false
is_owner uid (some st_uid) = st_uid == uid

unfoldable pub fd_socket : ℕ → Option (List (Option ℕ)) → Bool
unfolding has_socket
fd_socket inode none = false
fd_socket inode (some fds) = has_socket inode fds

-- The outer loop: the pid, 0 where no process is found.
unfoldable pub port_owner : NetConnection → List ProcEntry → ℕ
unfolding is_owner fd_socket is_digit head_byte
port_owner conn [] = 0
port_owner conn (entry ∷ entries) =
    let later = port_owner conn entries in
    if is_digit (head_byte entry.name)
      && (is_owner conn.uid entry.owner && fd_socket conn.inode entry.fds)
    then (strtoul 10 entry.name).0 % u32_mod
    else later

unfoldable pub owner_in : ℕ ⊎ List ProcEntry → NetConnection → ℕ × ℕ
unfolding port_owner
owner_in (inl errno) conn = (errno, 0)
owner_in (inr entries) conn = (sysm_ok, port_owner conn entries)

-- The status and `*pid`; `zeroed` is a connection after `SYSM_ZERO`, and `flags` are those of the
-- protocol with SYSM_NETCONN_SERVER.
unfoldable pub proc_port_get : Files → NetConnection → ℕ ⊎ List ProcEntry → ℕ → ℕ → Option (ℕ × ℕ)
unfolding owner_in net_connection_get
proc_port_get files zeroed opened flags port = do
  r ← net_connection_get files zeroed port flags
  let (status, conn) = r
  some (
      if not (status == sysm_ok)
      then (status, 0)
      else if not (conn.lo_port == port)
      then (sysm_ok, 0)
      else owner_in opened conn)
