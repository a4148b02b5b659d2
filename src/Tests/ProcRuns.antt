-- ===== src/Tests/ProcRuns.antt =====
-- Processes on concrete inputs.
use jni_demo_system_monitor.GrowList.Kinds.{proc_list_push, proc_list_create}
use jni_demo_system_monitor.Base.{
  ℕ, ◌+◌, ◌-◌, ◌*◌, ◌/◌, ◌≤◌, ◌≡◌, refl, arith, true, false, [], ◌∷◌, inr, none, some, Bytes, codes,
  sysm_ok, u32_mod, u64_mod, ◌==◌, if◌then◌else◌, replicate,
}
use jni_demo_system_monitor.Double.{Double}
use jni_demo_system_monitor.File.{Opened, contents, missing}
use jni_demo_system_monitor.GrowList.{GrowList, items, create, push, reserve, store, read_slots}
use jni_demo_system_monitor.GrowList.Push.{IsValid}
use jni_demo_system_monitor.Proc.Args.Split.{proc_args_get-join_nul, join_nul}
use jni_demo_system_monitor.Proc.Args.{proc_args_get}
use jni_demo_system_monitor.Proc.Env.Visit.{Variables, proc_env_get-offer, entries, offer}
use jni_demo_system_monitor.Proc.Env.{env_all, proc_env_get, bytes}
use jni_demo_system_monitor.Proc.Listing.Refill.{proc_list_get-pids_in, pids_in}
use jni_demo_system_monitor.Proc.Listing.{
  ProcDir, proc_list_get, os_proc_list_get, list_pids, reuse, signal_offset, skips,
}
use jni_demo_system_monitor.Proc.Stat.Fields.{
  Columns, IsPrinted, stat_line, taken_from, proc_stat_read-columns,
}
use jni_demo_system_monitor.Proc.Stat.{ProcStat, Host, proc_stat_read, is_fresh}
use jni_demo_system_monitor.Cache.Chain.{value_of}
use jni_demo_system_monitor.Cache.Life.{expired_cache_new_lem}
use jni_demo_system_monitor.Cache.Table
use jni_demo_system_monitor.Cache.Table.{view}
use jni_demo_system_monitor.Cache.{Cache, expired_cache_new, perform_cleanup_if_necessary, due}
use jni_demo_system_monitor.Proc.Query.{
  ProcState, time_of, proc_time_get, proc_state_get, state_after, state_of,
}
use jni_demo_system_monitor.Proc.Tally.Sums.{counted, proc_stat_get-counted}
use jni_demo_system_monitor.Proc.Tally.{StateCounts, count_listed, count_all, proc_stat_get}
use jni_demo_system_monitor.Proc.Usage.Kept.{with_reading, proc_cpu_get_refines}
use jni_demo_system_monitor.Proc.Usage.{
  Usage, no_usage, with_time, with_percent, conclude, measure, proc_cpu_get,
  pid_cache_cleanup_period, pid_cache_entry_expire_period,
}
use jni_demo_system_monitor.Text.Number.{
  is_digit_of, strtoul, starts_number, read_base, read_sign, clamp_ulong, scan_digits,
}
use jni_demo_system_monitor.Text.Spaced.{IsNumber, spaced}
use jni_demo_system_monitor.Text.Token.{IsWord}
use jni_demo_system_monitor.Text.{is_digit, is_space, strrchr, strstr, drop_while}

-- Whole numbers in place of doubles.
abbrev whole_numbers : Double
whole_numbers = record {
  Carrier = ℕ;
  from_u64 = λ n. n;
  to_u64 = λ n. n;
  add = λ a b. a + b;
  mul = λ a b. a * b;
  div = λ a b. a / b;
  is_negative = λ _. false;
}

abbrev host : Host
host = record { double = whole_numbers; ticks = 100; pagesize = 12; boot_time = 0; bufsiz = 8192 }

abbrev nothing_read : ProcStat
nothing_read = record {
  pid = u32_mod - 1;
  ppid = 0;
  mtime = 0;
  vsize = 0;
  rss = 0;
  minor_faults = 0;
  major_faults = 0;
  tty = 0;
  pri = 0;
  ni = 0;
  start_time = 0;
  utime = 0;
  stime = 0;
  name = [];
  state = 0;
  processor = 0;
}

one_IsNumber : IsNumber (codes "1")
unfolding is_digit
one_IsNumber = (cc, (refl, tt), omega arith)

one_IsWord : IsWord (codes "1")
unfolding is_space
one_IsWord = (cc, (refl, tt))

abbrev shell : Columns
shell = record {
  pid = codes "1 ";
  comm = codes "a) sh";
  state = b'S';
  ppid = codes "1";
  pgrp = codes "1";
  session = codes "1";
  tty_nr = codes "1";
  tpgid = codes "1";
  flags = codes "1";
  minflt = codes "1";
  cminflt = codes "1";
  majflt = codes "1";
  cmajflt = codes "1";
  utime = codes "1";
  stime = codes "1";
  cutime = codes "1";
  cstime = codes "1";
  priority = codes "1";
  nice = codes "1";
  num_threads = codes "1";
  itrealvalue_to_sigcatch =
      codes "1"
      ∷ codes "1"
      ∷ codes "1"
      ∷ codes "1"
      ∷ codes "1"
      ∷ codes "1"
      ∷ codes "1"
      ∷ codes "1"
      ∷ codes "1"
      ∷ codes "1"
      ∷ codes "1"
      ∷ codes "1"
      ∷ codes "1"
      ∷ codes "1"
      ∷ [];
  wchan = codes "1";
  rest = codes "\n";
}

shell-IsPrinted : IsPrinted shell
unfolding is_space is_digit is_digit_of spaced strrchr
shell-IsPrinted =
    let n = one_IsNumber in
    let w = one_IsWord in
    record {
      before = (refl, (refl, tt));
      last_bracket = refl;
      short = omega arith;
      visible = refl;
      ends = (refl, refl);
      first_numbers = (n, (n, (n, (n, tt))));
      first_words = (w, (w, (w, (w, (w, (w, tt))))));
      times = (n, (n, (n, (n, (n, tt)))));
      child_times = (w, (w, tt));
      skipped = (w, (w, (w, (w, (w, (w, (w, (w, (w, (w, (w, (w, (w, (w, tt))))))))))))));
      fourteen = refl;
      last_number = n;
    }

proc_stat_read-columns_example :
    proc_stat_read host 5 1 (contents (stat_line shell)) nothing_read
    ≡ some (
      sysm_ok,
      taken_from host shell shell-IsPrinted (record nothing_read { pid = 1; mtime = 5 }),
    )
proc_stat_read-columns_example =
    proc_stat_read-columns host shell shell-IsPrinted nothing_read 1 5 (unfold is_fresh in refl)
      (unfold spaced in omega arith)

abbrev proc_dir : ProcDir
proc_dir = record { stat_file = λ _. missing; self_stat = missing; has_nptl = true; bufsiz = 8192 }

proc_list_get-pids_in_example :
    let names = codes "self" ∷ codes "17" ∷ codes "204" ∷ [] in
    (l' : GrowList ℕ) × (proc_list_get proc_dir 3 (inr names) none ≡ some (sysm_ok, 3, l'))
    × IsValid l'
    × (items l' ≡ pids_in proc_dir names)
proc_list_get-pids_in_example =
    proc_list_get-pids_in proc_dir refl 3 (codes "self" ∷ codes "17" ∷ codes "204" ∷ []) none tt

proc_args_get-join_nul_example :
    let args = codes "ls" ∷ [] ∷ codes "-l" ∷ [] in
    (l : GrowList Bytes) × (proc_args_get (inr (join_nul args)) ≡ some (sysm_ok, l))
    × (items l ≡ args)
proc_args_get-join_nul_example =
    proc_args_get-join_nul (codes "ls" ∷ [] ∷ codes "-l" ∷ [])
      ((refl, (refl, tt)), (tt, ((refl, (refl, tt)), tt)))

-- A getter that counts, and asks for two variables.
abbrev count_two : ℕ → Bytes → Bytes → ℕ × ℕ
count_two seen key val = (if seen == 1 then 1 else sysm_ok, seen + 1)

abbrev variables : Variables
variables = (codes "H", codes "/") ∷ (codes "A", []) ∷ (codes "B", codes "c") ∷ []

proc_env_get-offer_example :
    proc_env_get count_two (λ _. none) env_all [] false (bytes (join_nul (entries variables))) 0
    ≡ some (sysm_ok, offer count_two variables 0)
proc_env_get-offer_example =
    proc_env_get-offer count_two (λ _. none) variables 0
      (
        ((refl, tt), (refl, (refl, (refl, tt)))),
        (((refl, tt), (refl, (refl, tt))), (((refl, tt), (refl, (refl, (refl, tt)))), tt)),
      )
      (omega arith, (omega arith, (omega arith, tt))) (unfold entries join_nul in omega arith)

abbrev shell_read : ProcStat
shell_read = taken_from host shell shell-IsPrinted (record nothing_read { pid = 1; mtime = 5 })

abbrev first_usage : Usage host
first_usage = with_time host (time_of shell_read) (record (no_usage host) { last_time = 5000 })

abbrev first_cache : Cache (Usage host)
first_cache = expired_cache_new 128 pid_cache_cleanup_period pid_cache_entry_expire_period 5000

first_measured :
    measure host 5 1 (contents (stat_line shell)) 5000 (no_usage host) (no_usage host) nothing_read
    ≡ some (sysm_ok, shell_read, with_percent host 0 5000 first_usage, first_usage)
unfolding measure conclude proc_time_get
first_measured =
    rw
      (proc_stat_read-columns host shell shell-IsPrinted nothing_read 1 5 (unfold is_fresh in refl)
        (unfold spaced in omega arith))
      refl

proc_cpu_get_refines_example :
    (cache' : Cache (Usage host)) × (proc_cpu_get host 5 1
        (contents (stat_line shell))
        5000
        5000
        5000
        none
        nothing_read
        (no_usage host)
      ≡ some (sysm_ok, cache', shell_read, with_percent host 0 5000 first_usage))
    × Table.IsValid cache'
    × ((q : ℕ)
        → view cache' q
          ≡ with_reading 1 first_usage
              (view (perform_cleanup_if_necessary 5000 first_cache).cache)
              q)
unfolding value_of replicate
proc_cpu_get_refines_example =
    proc_cpu_get_refines host 5 1 (contents (stat_line shell)) 5000 5000 5000 none nothing_read
      shell_read (no_usage host) (with_percent host 0 5000 first_usage) first_usage sysm_ok
      (unfold perform_cleanup_if_necessary due expired_cache_new in
        (expired_cache_new_lem 128 pid_cache_cleanup_period pid_cache_entry_expire_period 5000
          (omega arith) (omega arith)).0)
      (inr (unfold perform_cleanup_if_necessary due expired_cache_new in omega arith))
      (unfold view expired_cache_new perform_cleanup_if_necessary due in first_measured)

abbrev no_state : ProcState
no_state = record {
  name = [];
  state = 0;
  ppid = 0;
  tty = 0;
  priority = 0;
  nice = 0;
  processor = 0;
  threads = 0;
}

abbrev status_text_of : ℕ → Opened
status_text_of pid = contents (codes "Name:\tsh\n")

abbrev one_sleeps : StateCounts
one_sleeps = record {
  total = 1;
  sleeping = 1;
  running = 0;
  zombie = 0;
  stopped = 0;
  idle = 0;
  threads = u64_mod - 1;
}

abbrev shell_17 : ProcStat
shell_17 = taken_from host shell shell-IsPrinted (record nothing_read { pid = 17; mtime = 5 })

abbrev one_listed : GrowList ℕ
one_listed = record { number = 1; size = 256; slots = some 17 ∷ replicate 255 none }

listed_17 :
    proc_list_get proc_dir 3 (inr (codes "self" ∷ codes "17" ∷ [])) none
    ≡ some (sysm_ok, 3, one_listed)
unfolding proc_list_get os_proc_list_get list_pids reuse signal_offset skips proc_list_push
    proc_list_create create replicate push reserve store strtoul starts_number read_base read_sign
    drop_while is_space clamp_ulong scan_digits
listed_17 = refl

abbrev shell_state : ProcState
shell_state = record (state_of shell_17 (false, 1) no_state) { threads = u64_mod - 1 }

asked_17 :
    proc_state_get host 5 17
      (contents (stat_line shell))
      (false, 1)
      (status_text_of 17)
      nothing_read
      no_state
    ≡ some (sysm_ok, shell_17, shell_state)
unfolding proc_state_get state_after strstr
asked_17 =
    rw
      (proc_stat_read-columns host shell shell-IsPrinted nothing_read 17 5 (unfold is_fresh in refl)
        (unfold spaced in omega arith))
      refl

one_process :
    proc_stat_get host
      (λ _. 5)
      (λ _. contents (stat_line shell))
      status_text_of
      (false, 1)
      proc_dir
      3
      (inr (codes "self" ∷ codes "17" ∷ []))
      none
      nothing_read
      no_state
    ≡ some (sysm_ok, shell_17, one_sleeps)
unfolding proc_stat_get count_listed count_all items read_slots
one_process = rw (listed_17, asked_17) refl

proc_stat_get-counted_example : counted one_sleeps ≤ one_sleeps.total
proc_stat_get-counted_example =
    proc_stat_get-counted host (λ _. 5) (λ _. contents (stat_line shell)) status_text_of (false, 1)
      proc_dir 3 (inr (codes "self" ∷ codes "17" ∷ [])) none nothing_read no_state shell_17
      one_sleeps one_process
