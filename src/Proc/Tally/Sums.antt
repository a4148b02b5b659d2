-- ===== src/Proc/Tally/Sums.antt =====
-- The counts that `sysm_proc_stat_get` of sysm-native/src/main/sysm.c ends with.
use mathlib.Core.Path.{subst}
use jni_demo_system_monitor.Base.{
  ℕ, zero, suc, ◌+◌, ◌≤◌, ◌≡◌, sym, ap, ◌∙◌, arith, Bool, List, [], ◌∷◌, ◌⊎◌, inl, inr, Option,
  none, some, ◌==◌, length, Bytes, sysm_ok, Bool-cases, bind-some,
}
use jni_demo_system_monitor.File.{Opened}
use jni_demo_system_monitor.GrowList.{GrowList, items, read_slots}
use jni_demo_system_monitor.Proc.Listing.{ProcDir, proc_list_get}
use jni_demo_system_monitor.Proc.Query.{ProcState, proc_state_get}
use jni_demo_system_monitor.Proc.Stat.{ProcStat, Host}
use jni_demo_system_monitor.Proc.Tally.{
  StateCounts, no_counts, count_threads, count_state, count_process, count_all, count_listed,
  proc_stat_get,
}

-- The processes that are counted in some state.
abbrev pub counted : StateCounts → ℕ
counted p = p.idle + p.running + p.sleeping + p.stopped + p.zombie

length-read_slots : {A : Type 0} (n : ℕ) (slots : List (Option A)) → length (read_slots n slots) ≤ n
unfolding read_slots
length-read_slots zero slots = omega arith
length-read_slots (suc n) [] = omega arith
length-read_slots (suc n) (none ∷ slots) = omega (arith, length-read_slots n slots)
length-read_slots (suc n) (some x ∷ slots) = omega (arith, length-read_slots n slots)

counted-count_state : (s : ℕ) (p : StateCounts) → counted (count_state s p) ≤ suc (counted p)
unfolding count_state
counted-count_state s p = ground arith

counted-count_threads : (t : ℕ) (p : StateCounts) → counted (count_threads t p) ≡ counted p
unfolding count_threads
counted-count_threads t p = ground arith

counted-count_process :
    (status : ℕ) (state : ProcState) (p : StateCounts)
    → counted (count_process status state p) ≤ suc (counted p)
unfolding count_process
counted-count_process status state p = elim (Bool-cases (status == sysm_ok)) [
  | inl e ↦ rw e (
      omega (
        arith,
        counted-count_state state.state (count_threads state.threads p),
        counted-count_threads state.threads p,
      ))
  | inr e ↦ rw e (omega arith)
]

total-count_process :
    (status : ℕ) (state : ProcState) (p : StateCounts)
    → (count_process status state p).total ≡ p.total
unfolding count_process count_threads count_state
total-count_process status state p = ground arith

module _ (h : Host) (clock : ℕ → ℕ) (stat_of status_of : ℕ → Opened) (rollup : Bool × ℕ) where
  count_all-counted :
      (round : ℕ) (pids : List ℕ) (st : ProcStat) (state : ProcState) (p : StateCounts)
      (st' : ProcStat) (p' : StateCounts)
      → count_all h clock stat_of status_of rollup round pids st state p ≡ some (st', p')
      → counted p' ≤ counted p + length pids
  unfolding count_all
  count_all-counted round [] st state p st' p' e =
      let same : p ≡ p' = cc in omega (arith, ap counted same)
  count_all-counted round (pid ∷ pids) st state p st' p' e =
      let ((status, st1, state1), asked, more) =
        bind-some (proc_state_get h (clock round) pid (stat_of pid) rollup (status_of pid) st state)
          _ (st', p') e in
      omega (
        arith,
        count_all-counted (round + 1) pids st1 state1 (count_process status state1 p) st' p' more,
        counted-count_process status state1 p,
      )

  count_all-total :
      (round : ℕ) (pids : List ℕ) (st : ProcStat) (state : ProcState) (p : StateCounts)
      (st' : ProcStat) (p' : StateCounts)
      → count_all h clock stat_of status_of rollup round pids st state p ≡ some (st', p')
      → p'.total ≡ p.total
  unfolding count_all
  count_all-total round [] st state p st' p' e =
      let same : p ≡ p' = cc in ap (λ (q : StateCounts). q.total) (sym same)
  count_all-total round (pid ∷ pids) st state p st' p' e =
      let ((status, st1, state1), asked, more) =
        bind-some (proc_state_get h (clock round) pid (stat_of pid) rollup (status_of pid) st state)
          _ (st', p') e in
      count_all-total (round + 1) pids st1 state1 (count_process status state1 p) st' p' more
      ∙ total-count_process status state1 p

  count_listed-counted :
      (status : ℕ) (l : GrowList ℕ) (st : ProcStat) (state : ProcState) (st' : ProcStat)
      (p' : StateCounts)
      → count_listed h clock stat_of status_of rollup status l st state ≡ some (sysm_ok, st', p')
      → counted p' ≤ p'.total
  unfolding count_listed no_counts items
  count_listed-counted zero l st state st' p' e =
      let start = record no_counts { total = l.number } in
      let ((st1, p1), ran, ends) =
        bind-some (count_all h clock stat_of status_of rollup 0 (items l) st state start) _
          (sysm_ok, st', p') e in
      let same : p1 ≡ p' = cc in
      subst (λ (q : StateCounts). counted q ≤ q.total) same
        (omega (
          arith,
          count_all-counted 0 (items l) st state start st1 p1 ran,
          count_all-total 0 (items l) st state start st1 p1 ran,
          length-read_slots l.number l.slots,
        ))
  count_listed-counted (suc status) l st state st' p' e = absurd (ground arith)

  -- Whenever `sysm_proc_stat_get` succeeds, the processes that it counts as idle, running, sleeping,
  -- stopped or zombie are together at most the total.
  pub proc_stat_get-counted :
      (dir : ProcDir) (offset : ℕ) (opened : ℕ ⊎ List Bytes) (pids : Option (GrowList ℕ))
      (st : ProcStat) (state : ProcState) (st' : ProcStat) (p' : StateCounts)
      → proc_stat_get h clock stat_of status_of rollup dir offset opened pids st state
        ≡ some (sysm_ok, st', p')
      → counted p' ≤ p'.total
  unfolding proc_stat_get
  proc_stat_get-counted dir offset opened pids st state st' p' e =
      let ((status, offset', l), listed, more) =
        bind-some (proc_list_get dir offset opened pids) _ (sysm_ok, st', p') e in
      count_listed-counted status l st state st' p' more
