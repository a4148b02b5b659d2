-- ===== src/Proc/Tally/Threads.antt =====
-- The number of threads that `sysm_proc_stat_get` of sysm-native/src/main/sysm.c ends with.
use jni_demo_system_monitor.Base.{
  ℕ, zero, suc, ◌+◌, ◌-◌, ◌≡◌, refl, sym, ap, ◌∙◌, arith, Bool, true, false, List, [], ◌∷◌, ◌⊎◌,
  inl, inr, Option, none, some, ◌==◌, codes, Bytes, u64_mod, sysm_ok, bind-some,
}
use jni_demo_system_monitor.File.{Opened, proc_file2str}
use jni_demo_system_monitor.GrowList.{GrowList, items}
use jni_demo_system_monitor.Proc.Listing.{ProcDir, proc_list_get}
use jni_demo_system_monitor.Proc.Query.{
  ProcState, proc_state_get, state_of, state_after, status_text, proc_status_get, threads_of,
}
use jni_demo_system_monitor.Proc.Stat.{ProcStat, Host, proc_stat_read}
use jni_demo_system_monitor.Proc.Tally.{
  StateCounts, no_counts, count_threads, count_state, count_process, count_all, count_listed,
  proc_stat_get,
}
use jni_demo_system_monitor.Text.{strstr}
use mathlib.Core.Option.{some-injective}

-- A failure has a status other than 0, and no line of a text begins with `Thread:`.
abbrev pub HasNoThreadLine : Option (ℕ ⊎ Bytes) → Type 0
HasNoThreadLine none = sysm_ok ≡ sysm_ok
HasNoThreadLine (some (inl status)) = (status == sysm_ok) ≡ false
HasNoThreadLine (some (inr text)) = strstr (codes "\nThread:") text ≡ none

threads-status_text :
    (read : Option (ℕ ⊎ Bytes)) (state state' : ProcState)
    → HasNoThreadLine read
    → status_text read state ≡ some (sysm_ok, state')
    → state'.threads ≡ u64_mod - 1
unfolding status_text threads_of
threads-status_text none state state' no_line e = absurd (ground arith)
threads-status_text (some (inl status)) state state' no_line e =
    let status_is : status ≡ sysm_ok =
      ap (λ (r : ℕ × ProcState). r.0) (some-injective (status, state) (sysm_ok, state') e) in
    absurd (ground arith)
threads-status_text (some (inr text)) state state' no_line e =
    sym (
      ap (λ (r : ℕ × ProcState). (r.1).threads)
        (some-injective
          (sysm_ok, record state { threads = threads_of (strstr (codes "\nThread:") text) })
          (sysm_ok, state') e))
    ∙ ap threads_of no_line

threads-state_after :
    (h : Host) (status_file : Opened) (rollup : Bool × ℕ) (r : ℕ × ProcStat) (state : ProcState)
    (st' : ProcStat) (state' : ProcState)
    → HasNoThreadLine (proc_file2str h.bufsiz h.bufsiz status_file)
    → state_after h rollup status_file r state ≡ some (sysm_ok, st', state')
    → state'.threads ≡ u64_mod - 1
unfolding state_after proc_status_get
threads-state_after h status_file rollup (zero, st) state st' state' no_line e =
    let ((status, state1), found, more) =
      bind-some (proc_status_get h status_file (state_of st rollup state)) _ (sysm_ok, st', state')
        e in
    let same : (status, st, state1) ≡ (sysm_ok, st', state') =
      some-injective (status, st, state1) (sysm_ok, st', state') more in
    threads-status_text (proc_file2str h.bufsiz h.bufsiz status_file) (state_of st rollup state)
      state' no_line (found ∙ ap (λ (t : ℕ × ProcStat × ProcState). some (t.0, t.2)) same)
threads-state_after h status_file rollup (suc status, st) state st' state' no_line e =
    absurd (ground arith)

threads-proc_state_get :
    (h : Host) (now pid : ℕ) (file status_file : Opened) (rollup : Bool × ℕ) (st : ProcStat)
    (state : ProcState) (st' : ProcStat) (state' : ProcState)
    → HasNoThreadLine (proc_file2str h.bufsiz h.bufsiz status_file)
    → proc_state_get h now pid file rollup status_file st state ≡ some (sysm_ok, st', state')
    → state'.threads ≡ u64_mod - 1
unfolding proc_state_get
threads-proc_state_get h now pid file status_file rollup st state st' state' no_line e =
    let (r, found, more) =
      bind-some (proc_stat_read h now pid file st) _ (sysm_ok, st', state') e in
    threads-state_after h status_file rollup r state st' state' no_line more

threads-count_process :
    (status : ℕ) (state : ProcState) (p : StateCounts)
    → (status ≡ sysm_ok → state.threads ≡ u64_mod - 1)
    → (count_process status state p).threads ≡ p.threads
unfolding count_process count_threads count_state
threads-count_process zero state p uncounted =
    let t : (state.threads == u64_mod - 1) ≡ true = ground (arith, uncounted refl) in
    rw t (ground arith)
threads-count_process (suc status) state p uncounted = ground arith

module _ (h : Host) (clock : ℕ → ℕ) (stat_of status_of : ℕ → Opened) (rollup : Bool × ℕ)
    (no_line : (pid : ℕ) → HasNoThreadLine (proc_file2str h.bufsiz h.bufsiz (status_of pid))) where
  count_all-threads :
      (round : ℕ) (pids : List ℕ) (st : ProcStat) (state : ProcState) (p : StateCounts)
      (st' : ProcStat) (p' : StateCounts)
      → count_all h clock stat_of status_of rollup round pids st state p ≡ some (st', p')
      → p'.threads ≡ p.threads
  unfolding count_all
  count_all-threads round [] st state p st' p' e =
      sym (ap (λ (r : ProcStat × StateCounts). (r.1).threads) (some-injective (st, p) (st', p') e))
  count_all-threads round (pid ∷ pids) st state p st' p' e =
      let ((status, st1, state1), asked, more) =
        bind-some (proc_state_get h (clock round) pid (stat_of pid) rollup (status_of pid) st state)
          _ (st', p') e in
      count_all-threads (round + 1) pids st1 state1 (count_process status state1 p) st' p' more
      ∙ threads-count_process status state1 p (λ ok.
        threads-proc_state_get h (clock round) pid (stat_of pid) (status_of pid) rollup st state st1
          state1 (no_line pid) (asked ∙ ap (λ s. some (s, st1, state1)) ok))

  count_listed-threads :
      (status : ℕ) (l : GrowList ℕ) (st : ProcStat) (state : ProcState) (st' : ProcStat)
      (p' : StateCounts)
      → count_listed h clock stat_of status_of rollup status l st state ≡ some (sysm_ok, st', p')
      → p'.threads ≡ u64_mod - 1
  unfolding count_listed no_counts
  count_listed-threads zero l st state st' p' e =
      let start = record no_counts { total = l.number } in
      let ((st1, p1), ran, ends) =
        bind-some (count_all h clock stat_of status_of rollup 0 (items l) st state start) _
          (sysm_ok, st', p') e in
      sym (
        ap (λ (r : ℕ × ProcStat × StateCounts). (r.2).threads)
          (some-injective (sysm_ok, st1, p1) (sysm_ok, st', p') ends))
      ∙ count_all-threads 0 (items l) st state start st1 p1 ran
  count_listed-threads (suc status) l st state st' p' e = absurd (ground arith)

  -- Where no status file has a line that begins with `Thread:`, the number of threads that
  -- `sysm_proc_stat_get` succeeds with is still the -1 that it begins with.
  pub proc_stat_get-threads :
      (dir : ProcDir) (offset : ℕ) (opened : ℕ ⊎ List Bytes) (pids : Option (GrowList ℕ))
      (st : ProcStat) (state : ProcState) (st' : ProcStat) (p' : StateCounts)
      → proc_stat_get h clock stat_of status_of rollup dir offset opened pids st state
        ≡ some (sysm_ok, st', p')
      → p'.threads ≡ u64_mod - 1
  unfolding proc_stat_get
  proc_stat_get-threads dir offset opened pids st state st' p' e =
      let ((status, offset', l), listed, more) =
        bind-some (proc_list_get dir offset opened pids) _ (sysm_ok, st', p') e in
      count_listed-threads status l st state st' p' more
