-- ===== src/Proc/Stat/Fields.antt =====
-- Which columns of the kernel's line the fields of `linux_proc_stat_t` come from.
use jni_demo_system_monitor.Text.Search.{strchr-append, strrchr-append}
use jni_demo_system_monitor.Base.{
  ℕ, ◌+◌, ◌-◌, ◌*◌, ◌/◌, ◌%◌, ◌<◌, ◌≡◌, refl, ap, ◌∙◌, arith, false, List, [], ◌∷◌, ◌++◌, none,
  some, ◌==◌, length, length-append, All, Bytes, u32_mod, u64_mod, sysm_ok, inr, lt→ltb,
}
use jni_demo_system_monitor.File.{contents, proc_file2str, file2str, file2str_lem}
use jni_demo_system_monitor.Proc.Stat.{
  ProcStat, Host, tick2msec, pageshift, read_times, read_processor, read_numbers, read_state,
  proc_name_len, read_named, read_stat_text, is_fresh, proc_stat_read, read_visible,
}
use jni_demo_system_monitor.Text.{is_space, is_digit, drop_while, strchr, strrchr}
use jni_demo_system_monitor.Text.Spaced.{spaced, IsNumber, Ends}
use jni_demo_system_monitor.Text.Token.{IsWord, value, drop_while_stop}
use jni_demo_system_monitor.Proc.Stat.Columns.{
  cut_name_short, read_faults-spaced, read_times-spaced, read_processor-spaced,
}

-- The columns of the kernel's line, by their names in proc(5): the numbers 1 to 20, then 21 to 34
-- together, and 35.
pub record Columns : Type 0 where
  pub pid : Bytes
  pub comm : Bytes
  pub state : ℕ
  pub ppid : Bytes
  pub pgrp : Bytes
  pub session : Bytes
  pub tty_nr : Bytes
  pub tpgid : Bytes
  pub flags : Bytes
  pub minflt : Bytes
  pub cminflt : Bytes
  pub majflt : Bytes
  pub cmajflt : Bytes
  pub utime : Bytes
  pub stime : Bytes
  pub cutime : Bytes
  pub cstime : Bytes
  pub priority : Bytes
  pub nice : Bytes
  pub num_threads : Bytes
  pub itrealvalue_to_sigcatch : List Bytes
  pub wchan : Bytes
  pub rest : Bytes

abbrev pub from_itrealvalue : Columns → List Bytes
from_itrealvalue c = c.itrealvalue_to_sigcatch ++ c.wchan ∷ []

abbrev pub from_utime : Columns → List Bytes
from_utime c =
    c.utime
    ∷ c.stime
    ∷ c.cutime
    ∷ c.cstime
    ∷ c.priority
    ∷ c.nice
    ∷ c.num_threads
    ∷ from_itrealvalue c

abbrev pub from_pgrp : Columns → List Bytes
from_pgrp c =
    c.pgrp
    ∷ c.session
    ∷ c.tty_nr
    ∷ c.tpgid
    ∷ c.flags
    ∷ c.minflt
    ∷ c.cminflt
    ∷ c.majflt
    ∷ c.cmajflt
    ∷ from_utime c

abbrev pub behind_name : Columns → Bytes
behind_name c = b' ' ∷ c.state ∷ b' ' ∷ (c.ppid ++ spaced (from_pgrp c) c.rest)

abbrev pub stat_line : Columns → Bytes
stat_line c = c.pid ++ b'(' ∷ (c.comm ++ b')' ∷ behind_name c)

-- The line is one that the kernel prints, with any name of at most 127 bytes, and its columns are
-- numbers without a sign where they are read.
pub record IsPrinted (c : Columns) : Type 0 where
  pub before : All (λ x. (x == b'(') ≡ false) c.pid
  pub last_bracket : strrchr b')' (behind_name c) ≡ none
  pub short : length c.comm < proc_name_len
  pub visible : is_space c.state ≡ false
  pub ends : Ends c.rest
  pub first_numbers : All IsNumber (c.ppid ∷ c.tty_nr ∷ c.minflt ∷ c.majflt ∷ [])
  pub first_words : All IsWord (c.pgrp ∷ c.session ∷ c.tpgid ∷ c.flags ∷ c.cminflt ∷ c.cmajflt ∷ [])
  pub times : All IsNumber (c.utime ∷ c.stime ∷ c.priority ∷ c.nice ∷ c.num_threads ∷ [])
  pub child_times : All IsWord (c.cutime ∷ c.cstime ∷ [])
  pub skipped : All IsWord c.itrealvalue_to_sigcatch
  pub fourteen : length c.itrealvalue_to_sigcatch ≡ 14
  pub last_number : IsNumber c.wchan

word_visible : (w : Bytes) (s : Bytes) → IsNumber w → drop_while is_space (w ++ s) ≡ w ++ s
unfolding drop_while is_space is_digit
word_visible [] s (ne, _, _) = absurd (ne refl)
word_visible (c ∷ w) s (ne, (hc, _), _) = ground arith

module _ (h : Host) (c : Columns) (p : IsPrinted c) where
  -- The values that `proc_stat_read` takes from a line.
  abbrev pub taken_from : ProcStat → ProcStat
  taken_from st = record st {
    name = c.comm;
    state = c.state;
    ppid = value 0 c.ppid % u32_mod;
    tty = value 0 c.tty_nr % u32_mod;
    minor_faults = value 0 c.minflt;
    major_faults = value 0 c.majflt;
    utime = tick2msec h (value 0 c.utime);
    stime = tick2msec h (value 0 c.stime);
    start_time = ((value 0 c.priority / h.ticks + h.boot_time) % u64_mod) * 1000 % u64_mod;
    vsize = value 0 c.nice;
    rss = pageshift h (value 0 c.num_threads);
    processor = value 0 c.wchan % u32_mod;
  }

  abbrev after_faults : ProcStat → ProcStat
  after_faults st = record st {
    ppid = value 0 c.ppid % u32_mod;
    tty = value 0 c.tty_nr % u32_mod;
    minor_faults = value 0 c.minflt;
    major_faults = value 0 c.majflt;
  }

  read_numbers-columns :
      (st : ProcStat)
      → read_numbers h st (c.ppid ++ spaced (from_pgrp c) c.rest)
        ≡ record (taken_from st) { name = st.name; state = st.state }
  unfolding read_numbers
  read_numbers-columns st =
      ap (λ (r : ProcStat × Bytes). read_processor h (read_times h r.0 r.1))
        (read_faults-spaced h st c.rest p.ends c.ppid c.pgrp c.session c.tty_nr c.tpgid c.flags
          c.minflt c.cminflt c.majflt c.cmajflt (from_utime c) p.first_numbers p.first_words)
      ∙ ap (read_processor h) (
          read_times-spaced h (after_faults st) c.rest p.ends c.utime c.stime c.cutime c.cstime
            c.priority c.nice c.num_threads (from_itrealvalue c) p.times p.child_times)
      ∙ read_processor-spaced h
          (record (taken_from st) { name = st.name; state = st.state; processor = st.processor })
          c.rest p.ends c.itrealvalue_to_sigcatch c.wchan p.skipped p.fourteen p.last_number

  behind_name-visible :
      drop_while is_space (behind_name c) ≡ c.state ∷ b' ' ∷ (c.ppid ++ spaced (from_pgrp c) c.rest)
  unfolding drop_while is_space
  behind_name-visible = drop_while_stop is_space (c.state ∷ _) p.visible

  read_state-columns :
      (st : ProcStat)
      → read_state h st (behind_name c) ≡ some (record (taken_from st) { name = st.name })
  unfolding read_state read_visible
  read_state-columns st =
      let gap : drop_while is_space (b' ' ∷ (c.ppid ++ spaced (from_pgrp c) c.rest))
          ≡ c.ppid ++ spaced (from_pgrp c) c.rest =
        unfold drop_while is_space in
        word_visible c.ppid (spaced (from_pgrp c) c.rest) p.first_numbers.0 in
      rw (behind_name-visible, gap) (ap some (read_numbers-columns (record st { state = c.state })))

  name_length :
      length (c.comm ++ b')' ∷ behind_name c) - length (b')' ∷ behind_name c) ≡ length c.comm
  name_length = omega (arith, length-append c.comm (b')' ∷ behind_name c))

  read_stat_text-columns :
      (st : ProcStat)
      → read_stat_text h st (strchr b'(' (stat_line c)) ≡ some (sysm_ok, taken_from st)
  unfolding read_stat_text read_named
  read_stat_text-columns st =
      let ptr = c.comm ++ b')' ∷ behind_name c in
      rw
        (
          strchr-append b'(' c.pid ptr p.before,
          strrchr-append b')' c.comm (behind_name c) p.last_bracket,
          name_length,
          cut_name_short c.comm (b')' ∷ behind_name c) p.short,
          read_state-columns (record st { name = c.comm }),
        )
        refl

  -- Where the process was not read within the time that a reading is kept, a line of plain numbers
  -- that fits the buffer, with any name of at most 127 bytes, read into `linux_proc_stat_t`: the name,
  -- the state and the columns up to `stime` are right, but the start time is taken from the column of the
  -- priority, the size from that of the nice value, the resident size from that of the number of
  -- threads, and the processor from `wchan`.
  pub proc_stat_read-columns :
      (st : ProcStat) (pid now : ℕ)
      → is_fresh now pid st ≡ false
      → length (stat_line c) < h.bufsiz
      → proc_stat_read h now pid (contents (stat_line c)) st
        ≡ some (sysm_ok, taken_from (record st { pid = pid; mtime = now }))
  unfolding proc_stat_read proc_file2str
  proc_stat_read-columns st pid now old fits =
      let whole : file2str h.bufsiz h.bufsiz (contents (stat_line c)) ≡ some (inr (stat_line c)) =
        (file2str_lem h.bufsiz (stat_line c)).0
        ∙ rw (lt→ltb (length (stat_line c)) h.bufsiz fits) refl in
      rw (old, whole) (read_stat_text-columns (record st { pid = pid; mtime = now }))
