-- ===== src/Proc/Stat.antt =====
-- The status line of a process, /proc/PID/stat, of which the last one read is kept for two seconds:
-- `proc_stat_read` of sysm-native/src/main/sysm.c and `linux_proc_stat_t` of
-- sysm-native/include/main/sysm.h.
pub mod Columns
pub mod Fields
pub mod Stale
use jni_demo_system_monitor.Base.{
  ℕ, ◌+◌, ◌-◌, ◌*◌, ◌/◌, ◌%◌, ◌^◌, [], ◌∷◌, ◌⊎◌, inl, inr, Option, none, some, ◌>>=◌, length, take,
  ltb, leb, ◌==◌, ◌&&◌, if◌then◌else◌, Bytes, u32_mod, u64_mod, sysm_ok, einval, Bool,
}
use jni_demo_system_monitor.Double.{Double}
use jni_demo_system_monitor.File.{Opened, proc_file2str}
use jni_demo_system_monitor.Text.{
  is_space, drop_while, strchr, strrchr, skip_token, skip_multiple_token,
}
use jni_demo_system_monitor.Text.Number.{strtoul}

pub record ProcStat : Type 0 where
  pub pid : ℕ
  pub ppid : ℕ
  pub mtime : ℕ
  pub vsize : ℕ
  pub rss : ℕ
  pub minor_faults : ℕ
  pub major_faults : ℕ
  pub tty : ℕ
  pub pri : ℕ
  pub ni : ℕ
  pub start_time : ℕ
  pub utime : ℕ
  pub stime : ℕ
  pub name : Bytes
  pub state : ℕ
  pub processor : ℕ

abbrev pub last_proc_expire : ℕ
last_proc_expire = 2

abbrev pub proc_name_len : ℕ
proc_name_len = 128

-- What the readings take from `sysm_t` and the system: clock ticks per second, the shift of a page,
-- the time of the boot, BUFSIZ, and the arithmetic on doubles.
pub record Host : Type 1 where
  pub double : Double
  pub ticks : ℕ
  pub pagesize : ℕ
  pub boot_time : ℕ
  pub bufsiz : ℕ

-- The name between the parentheses, cut to its buffer.
abbrev pub cut_name : ℕ → Bytes → Bytes
cut_name len ptr = take (if leb proc_name_len len then proc_name_len - 1 else len) ptr

unfoldable pub is_fresh : ℕ → ℕ → ProcStat → Bool
is_fresh timenow pid st = st.pid == pid && ltb (timenow - st.mtime) last_proc_expire

module _ (h : Host) where
  -- `(sysm_uint64_t) SYSM_TICK2MSEC(s)`.
  unfoldable pub tick2msec : ℕ → ℕ
  tick2msec s =
      let d = h.double in
      d.to_u64 (d.mul (d.from_u64 s) (d.div (d.from_u64 1000) (d.from_u64 h.ticks)))

  abbrev pub pageshift : ℕ → ℕ
  pageshift x = (x * 2 ^ h.pagesize) % u64_mod

  -- The lines that end in (4) to (12).
  unfoldable pub read_faults : ProcStat → Bytes → ProcStat × Bytes
  read_faults st ptr =
      let (ppid, p1) = strtoul 10 ptr in
      let (tty, p2) = strtoul 10 (skip_multiple_token 2 p1) in
      let (minor_faults, p3) = strtoul 10 (skip_multiple_token 2 p2) in
      let (major_faults, p4) = strtoul 10 (skip_token p3) in
      (
        record st {
          ppid = ppid % u32_mod;
          tty = tty % u32_mod;
          minor_faults = minor_faults;
          major_faults = major_faults;
        },
        skip_token p4,
      )

  -- The lines from (14) to (24).
  unfoldable pub read_times : ProcStat → Bytes → ProcStat × Bytes
  unfolding tick2msec
  read_times st ptr =
      let (utime, p1) = strtoul 10 ptr in
      let (stime, p2) = strtoul 10 p1 in
      let (start_time, p3) = strtoul 10 (skip_multiple_token 2 p2) in
      let (vsize, p4) = strtoul 10 p3 in
      let (rss, p5) = strtoul 10 p4 in
      (
        record st {
          utime = tick2msec utime;
          stime = tick2msec stime;
          start_time = ((start_time / h.ticks + h.boot_time) % u64_mod) * 1000 % u64_mod;
          vsize = vsize;
          rss = pageshift rss;
        },
        p5,
      )

  unfoldable pub read_processor : ProcStat × Bytes → ProcStat
  read_processor (st, ptr) = record st {
    processor = (strtoul 10 (skip_multiple_token 14 ptr)).0 % u32_mod;
  }

  unfoldable pub read_numbers : ProcStat → Bytes → ProcStat
  unfolding read_faults read_times read_processor
  read_numbers st ptr = let (st1, p1) = read_faults st ptr in read_processor (read_times st1 p1)

  -- From the state on: `none` is a text that ends before it.
  unfoldable pub read_visible : ProcStat → Bytes → Option ProcStat
  unfolding read_numbers drop_while is_space
  read_visible st [] = none
  read_visible st (state ∷ p) =
      some (read_numbers (record st { state = state }) (drop_while is_space p))

  -- What follows the name's `)`.
  unfoldable pub read_state : ProcStat → Bytes → Option ProcStat
  unfolding read_visible
  read_state st ptr = read_visible st (drop_while is_space ptr)

  unfoldable pub read_named : ProcStat → Bytes → Option Bytes → Option (ℕ × ProcStat)
  unfolding read_state
  read_named st ptr (some (c ∷ p)) = do
    st' ← read_state (record st { name = cut_name (length ptr - length (c ∷ p)) ptr }) p
    some (sysm_ok, st')
  read_named st ptr _ = some (einval, st)

  unfoldable pub read_stat_text : ProcStat → Option Bytes → Option (ℕ × ProcStat)
  unfolding read_named strrchr
  read_stat_text st (some (c ∷ ptr)) = read_named st ptr (strrchr b')' ptr)
  read_stat_text st _ = some (einval, st)

  -- The status and `sysm->last_proc_stat`; `file` is /proc/PID/stat.
  unfoldable pub proc_stat_read : ℕ → ℕ → Opened → ProcStat → Option (ℕ × ProcStat)
  unfolding is_fresh proc_file2str read_stat_text strchr
  proc_stat_read timenow pid file st =
      let st' = record st { pid = pid; mtime = timenow } in
      if is_fresh timenow pid st
      then some (sysm_ok, st)
      else elim (proc_file2str h.bufsiz h.bufsiz file) [
        | none ↦ none
        | some (inl status) ↦ some (status, st')
        | some (inr buffer) ↦ read_stat_text st' (strchr b'(' buffer)
      ]
