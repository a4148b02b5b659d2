-- ===== src/Proc/Query.antt =====
-- What is asked of one process: `sysm_proc_time_get`, `sysm_proc_mem_get`, `sysm_proc_own_get`,
-- `sysm_proc_owner_get`, `proc_status_get` and `sysm_proc_state_get` of
-- sysm-native/src/main/sysm.c. Each takes the last status line read, and returns it.

use jni_demo_system_monitor.Base.{
  ℕ, zero, suc, ◌+◌, ◌-◌, ◌/◌, ◌%◌, Bool, ◌⊎◌, inl, inr, Option, none, some, ◌>>=◌, ◌==◌,
  if◌then◌else◌, Bytes, codes, u32_mod, u64_mod, sysm_ok, enoent,
}
use jni_demo_system_monitor.File.{Opened, proc_file2str}
use jni_demo_system_monitor.Proc.Stat.{ProcStat, Host, pageshift, proc_stat_read}
use jni_demo_system_monitor.Text.{strstr, skip_token}
use jni_demo_system_monitor.Text.Number.{strtoul}

pub record ProcTime : Type 0 where
  pub start_time : ℕ
  pub user : ℕ
  pub sys : ℕ
  pub total : ℕ

unfoldable pub time_of : ProcStat → ProcTime
time_of st = record {
  start_time = st.start_time;
  user = st.utime;
  sys = st.stime;
  total = (st.utime + st.stime) % u64_mod;
}

pub record ProcMem : Type 0 where
  pub size : ℕ
  pub resident : ℕ
  pub share : ℕ
  pub minor_faults : ℕ
  pub major_faults : ℕ
  pub page_faults : ℕ

pub record ProcOwn : Type 0 where
  pub uid : ℕ
  pub gid : ℕ
  pub euid : ℕ
  pub egid : ℕ

pub record ProcState : Type 0 where
  pub name : Bytes
  pub state : ℕ
  pub ppid : ℕ
  pub tty : ℕ
  pub priority : ℕ
  pub nice : ℕ
  pub processor : ℕ
  pub threads : ℕ

-- `ptr` at a line of two numbers behind a token.
unfoldable pub two_numbers : Bytes → ℕ × ℕ × Bytes
two_numbers ptr =
    let (a, p1) = strtoul 10 (skip_token ptr) in
    let (b, p2) = strtoul 10 p1 in (a % u32_mod, b % u32_mod, p2)

-- The groups, in the text behind the user ids.
unfoldable pub own_groups : ℕ → ℕ → Option Bytes → ProcOwn → ℕ × ProcOwn
own_groups uid euid none own = (enoent, record own { uid = uid; euid = euid })
own_groups uid euid (some ptr) own =
    let (gid, egid, _) = two_numbers ptr in
    (sysm_ok, record { uid = uid; gid = gid; euid = euid; egid = egid })

unfoldable pub own_text : Option Bytes → ProcOwn → ℕ × ProcOwn
unfolding own_groups
own_text none own = (enoent, own)
own_text (some ptr) own =
    let (uid, euid, p) = two_numbers ptr in own_groups uid euid (strstr (codes "\nGid:") p) own

unfoldable pub threads_of : Option Bytes → ℕ
threads_of none = u64_mod - 1
threads_of (some ptr) = (strtoul 10 (skip_token ptr)).0

-- What `proc_status_get` finds in the text of /proc/PID/status.
unfoldable pub status_text : Option (ℕ ⊎ Bytes) → ProcState → Option (ℕ × ProcState)
unfolding threads_of
status_text none state = none
status_text (some (inl status)) state = some (status, state)
status_text (some (inr buffer)) state =
    some (sysm_ok, record state { threads = threads_of (strstr (codes "\nThread:") buffer) })

-- What `sysm_proc_state_get` copies; `rollup` and `lcpu` are those of the CPUs.
unfoldable pub state_of : ProcStat → Bool × ℕ → ProcState → ProcState
state_of st (rollup, lcpu) state = record state {
  name = st.name;
  state = st.state;
  ppid = st.ppid;
  tty = st.tty;
  priority = st.pri;
  nice = st.ni;
  processor = if rollup then st.processor / lcpu else st.processor;
}

module _ (h : Host) where
  -- `sysm_proc_own_get`; `file` is /proc/PID/status.
  unfoldable pub proc_own_get : Opened → ProcOwn → Option (ℕ × ProcOwn)
  unfolding proc_file2str own_text
  proc_own_get file own = elim (proc_file2str h.bufsiz h.bufsiz file) [
    | none ↦ none
    | some (inl status) ↦ some (status, own)
    | some (inr buffer) ↦ some (own_text (strstr (codes "\nUid:") buffer) own)
  ]

  -- `sysm_proc_owner_get`: the names of the user and the group, which the C library looks up.
  unfoldable pub proc_owner_get :
      (ℕ → ℕ ⊎ Bytes) → (ℕ → ℕ ⊎ Bytes) → Opened → ProcOwn → Option (ℕ ⊎ (Bytes × Bytes))
  unfolding proc_own_get
  proc_owner_get user_name group_name file own = do
    r ← proc_own_get file own
    (if r.0 == sysm_ok
        then elim (user_name (r.1).uid) [
          | inl status ↦ some (inl status)
          | inr user ↦ elim (group_name (r.1).gid) [
            | inl status ↦ some (inl status)
            | inr group ↦ some (inr (user, group))
          ]
        ]
        else some (inl r.0))

  -- `proc_status_get`.
  unfoldable pub proc_status_get : Opened → ProcState → Option (ℕ × ProcState)
  unfolding proc_file2str status_text
  proc_status_get status_file state =
      status_text (proc_file2str h.bufsiz h.bufsiz status_file) state

  -- The sizes from /proc/PID/statm.
  unfoldable pub read_statm : Bytes → ProcMem → ProcMem
  read_statm buffer mem =
      let (size, p1) = strtoul 10 buffer in
      let (resident, p2) = strtoul 10 p1 in
      record mem {
        size = pageshift h size;
        resident = pageshift h resident;
        share = pageshift h (strtoul 10 p2).0;
      }

  -- What follows the reading, with its status.
  unfoldable pub state_after :
      Bool × ℕ → Opened → ℕ × ProcStat → ProcState → Option (ℕ × ProcStat × ProcState)
  unfolding proc_status_get state_of
  state_after rollup status_file (zero, st) state = do
    q ← proc_status_get status_file (state_of st rollup state)
    some (q.0, st, q.1)
  state_after rollup status_file (suc status, st) state = some (suc status, st, state)

  module _ (timenow pid : ℕ) (file : Opened) where
    -- `sysm_proc_time_get`.
    unfoldable pub proc_time_get : ProcStat → ProcTime → Option (ℕ × ProcStat × ProcTime)
    unfolding time_of
    proc_time_get st time = do
      r ← proc_stat_read h timenow pid file st
      some (if r.0 == sysm_ok then (sysm_ok, r.1, time_of r.1) else (r.0, r.1, time))

    -- `sysm_proc_mem_get`: the status of the first reading is not looked at.
    unfoldable pub proc_mem_get : Opened → ProcStat → ProcMem → Option (ℕ × ProcStat × ProcMem)
    unfolding read_statm proc_file2str
    proc_mem_get statm st mem = do
      r ← proc_stat_read h timenow pid file st
      let st' = r.1
      let mem' = record mem {
        minor_faults = st'.minor_faults;
        major_faults = st'.major_faults;
        page_faults = (st'.minor_faults + st'.major_faults) % u64_mod;
      }
      elim (proc_file2str h.bufsiz h.bufsiz statm) [
        | none ↦ none
        | some (inl status) ↦ some (status, st', mem')
        | some (inr buffer) ↦ some (sysm_ok, st', read_statm buffer mem')
      ]

    unfoldable pub proc_state_get :
        Bool × ℕ → Opened → ProcStat → ProcState → Option (ℕ × ProcStat × ProcState)
    unfolding state_after
    proc_state_get rollup status_file st state = do
      r ← proc_stat_read h timenow pid file st
      state_after rollup status_file r state
