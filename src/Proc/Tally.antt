-- ===== src/Proc/Tally.antt =====
-- The states of all processes: `sysm_proc_stat_get` of sysm-native/src/main/sysm.c. Each process is
-- asked with `sysm_proc_state_get`; the files of a process and the clock are parameters.
pub mod Sums
pub mod Threads
use jni_demo_system_monitor.Base.{
  ℕ, ◌+◌, ◌-◌, ◌%◌, ◌≤◌, ◌≡◌, refl, ap, arith, Bool, true, false, List, [], ◌∷◌, ◌⊎◌, inl, inr,
  Option, none, some, ◌>>=◌, ◌==◌, if◌then◌else◌, length, Bytes, u64_mod, sysm_ok,
}
use jni_demo_system_monitor.File.{Opened}
use jni_demo_system_monitor.GrowList.{GrowList, items, read_slots}
use jni_demo_system_monitor.Proc.Listing.{ProcDir, proc_list_get}
use jni_demo_system_monitor.Proc.Query.{ProcState, proc_state_get}
use jni_demo_system_monitor.Proc.Stat.{ProcStat, Host}

pub record StateCounts : Type 0 where
  pub total : ℕ
  pub sleeping : ℕ
  pub running : ℕ
  pub zombie : ℕ
  pub stopped : ℕ
  pub idle : ℕ
  pub threads : ℕ

-- After `SYSM_ZERO` and the initialisation of `threads`.
unfoldable pub no_counts : StateCounts
no_counts = record {
  total = 0;
  sleeping = 0;
  running = 0;
  zombie = 0;
  stopped = 0;
  idle = 0;
  threads = u64_mod - 1;
}

abbrev pub up : ℕ → ℕ
up n = (n + 1) % u64_mod

-- `threads` is not added where it is the bits of -1.
unfoldable pub count_threads : ℕ → StateCounts → StateCounts
count_threads threads p =
    if threads == u64_mod - 1 then p else record p { threads = (p.threads + threads) % u64_mod }

-- The switch on the letter of the state.
unfoldable pub count_state : ℕ → StateCounts → StateCounts
count_state state p =
    if state == b'D'
    then record p { idle = up p.idle }
    else if state == b'R'
    then record p { running = up p.running }
    else if state == b'S'
    then record p { sleeping = up p.sleeping }
    else if state == b'T'
    then record p { stopped = up p.stopped }
    else if state == b'Z'
    then record p { zombie = up p.zombie }
    else p

-- What one round of the loop does with the answer of `sysm_proc_state_get`.
unfoldable pub count_process : ℕ → ProcState → StateCounts → StateCounts
unfolding count_threads count_state
count_process status state p =
    if status == sysm_ok then count_state state.state (count_threads state.threads p) else p

module _ (h : Host) (clock : ℕ → ℕ) (stat_of status_of : ℕ → Opened) (rollup : Bool × ℕ) where
  -- The loop over `pids->data`, of which `round` rounds are done; `state` is what the stack holds.
  unfoldable pub count_all :
      ℕ → List ℕ → ProcStat → ProcState → StateCounts → Option (ProcStat × StateCounts)
  unfolding count_process proc_state_get
  count_all round [] st state p = some (st, p)
  count_all round (pid ∷ pids) st state p = do
    r ← proc_state_get h (clock round) pid (stat_of pid) rollup (status_of pid) st state
    let (status, st', state') = r
    count_all (round + 1) pids st' state' (count_process status state' p)

  -- What follows the listing: `status` is its status and `l` is `sysm->pids`.
  unfoldable pub count_listed :
      ℕ → GrowList ℕ → ProcStat → ProcState → Option (ℕ × ProcStat × StateCounts)
  unfolding count_all no_counts items
  count_listed status l st state =
      if status == sysm_ok
      then (do
        q ← count_all 0 (items l) st state (record no_counts { total = l.number })
        some (sysm_ok, q.0, q.1))
      else some (status, st, no_counts)

  -- The status, what is kept, and the counts.
  unfoldable pub proc_stat_get :
      ProcDir
      → ℕ
      → ℕ ⊎ List Bytes
      → Option (GrowList ℕ)
      → ProcStat
      → ProcState
      → Option (ℕ × ProcStat × StateCounts)
  unfolding count_listed proc_list_get
  proc_stat_get dir offset opened pids st state = do
    r ← proc_list_get dir offset opened pids
    count_listed r.0 r.2 st state
