-- ===== src/Proc/Stat/Columns.antt =====
-- How `proc_stat_read` of sysm-native/src/main/sysm.c reads a row of columns.
use jni_demo_system_monitor.Base.{
  ◌+◌, ◌*◌, ◌/◌, ◌%◌, ◌<◌, ◌≡◌, refl, arith, false, List, [], ◌∷◌, ◌++◌, leb, length, take-append,
  All, Bytes, u32_mod, u64_mod,
}
use jni_demo_system_monitor.Proc.Stat.{
  ProcStat, Host, tick2msec, pageshift, read_faults, read_times, read_processor, cut_name,
  proc_name_len,
}
use jni_demo_system_monitor.Text.Number.{strtoul}
use jni_demo_system_monitor.Text.Spaced.{
  spaced, IsNumber, Ends, strtoul-spaced, skip_token-spaced, skip_multiple_token-spaced,
  spaced-NoDigit,
}
use jni_demo_system_monitor.Text.Token.{IsWord, NoDigit, value, strtoul_digits}

strtoul-word :
    (w : Bytes) (ws : List Bytes) (rest : Bytes)
    → IsNumber w
    → NoDigit rest
    → strtoul 10 (w ++ spaced ws rest) ≡ (value 0 w, spaced ws rest)
strtoul-word w ws rest (ne, digits, fits) h =
    strtoul_digits [] w (spaced ws rest) tt ne digits (spaced-NoDigit ws rest h) fits

pub cut_name_short :
    (name rest : Bytes) → length name < proc_name_len → cut_name (length name) (name ++ rest) ≡ name
cut_name_short name rest h =
    let short : leb proc_name_len (length name) ≡ false = ground arith in
    rw short (take-append name rest)

module _ (h : Host) (st : ProcStat) (rest : Bytes) (ends : Ends rest) where
  pub read_faults-spaced :
      (ppid pgrp session tty tpgid flags minflt cminflt majflt cmajflt : Bytes) (ws : List Bytes)
      → All IsNumber (ppid ∷ tty ∷ minflt ∷ majflt ∷ [])
      → All IsWord (pgrp ∷ session ∷ tpgid ∷ flags ∷ cminflt ∷ cmajflt ∷ [])
      → read_faults h st (
          ppid
          ++ spaced
              (pgrp ∷ session ∷ tty ∷ tpgid ∷ flags ∷ minflt ∷ cminflt ∷ majflt ∷ cmajflt ∷ ws)
              rest)
        ≡ (
          record st {
            ppid = value 0 ppid % u32_mod;
            tty = value 0 tty % u32_mod;
            minor_faults = value 0 minflt;
            major_faults = value 0 majflt;
          },
          spaced ws rest,
        )
  unfolding read_faults
  read_faults-spaced ppid pgrp session tty tpgid flags minflt cminflt majflt cmajflt ws
        (n1, (n2, (n3, (n4, _)))) (w1, (w2, (w3, (w4, (w5, (w6, _)))))) =
      let (break, stop) = ends in
      rw
        (
          strtoul-word ppid
              (pgrp ∷ session ∷ tty ∷ tpgid ∷ flags ∷ minflt ∷ cminflt ∷ majflt ∷ cmajflt ∷ ws) rest
              n1 stop,
          skip_multiple_token-spaced (pgrp ∷ session ∷ [])
              (tty ∷ tpgid ∷ flags ∷ minflt ∷ cminflt ∷ majflt ∷ cmajflt ∷ ws) rest (w1, (w2, tt))
              break,
          strtoul-spaced tty (tpgid ∷ flags ∷ minflt ∷ cminflt ∷ majflt ∷ cmajflt ∷ ws) rest n2
              stop,
          skip_multiple_token-spaced (tpgid ∷ flags ∷ []) (minflt ∷ cminflt ∷ majflt ∷ cmajflt ∷ ws)
              rest (w3, (w4, tt)) break,
          strtoul-spaced minflt (cminflt ∷ majflt ∷ cmajflt ∷ ws) rest n3 stop,
          skip_token-spaced cminflt (majflt ∷ cmajflt ∷ ws) rest w5 break,
          strtoul-spaced majflt (cmajflt ∷ ws) rest n4 stop,
          skip_token-spaced cmajflt ws rest w6 break,
        )
        refl

  pub read_times-spaced :
      (utime stime cutime cstime priority nice threads : Bytes) (ws : List Bytes)
      → All IsNumber (utime ∷ stime ∷ priority ∷ nice ∷ threads ∷ [])
      → All IsWord (cutime ∷ cstime ∷ [])
      → read_times h st
          (spaced (utime ∷ stime ∷ cutime ∷ cstime ∷ priority ∷ nice ∷ threads ∷ ws) rest)
        ≡ (
          record st {
            utime = tick2msec h (value 0 utime);
            stime = tick2msec h (value 0 stime);
            start_time = ((value 0 priority / h.ticks + h.boot_time) % u64_mod) * 1000 % u64_mod;
            vsize = value 0 nice;
            rss = pageshift h (value 0 threads);
          },
          spaced ws rest,
        )
  unfolding read_times
  read_times-spaced utime stime cutime cstime priority nice threads ws
        (n1, (n2, (n3, (n4, (n5, _))))) (w1, (w2, _)) =
      let (break, stop) = ends in
      rw
        (
          strtoul-spaced utime (stime ∷ cutime ∷ cstime ∷ priority ∷ nice ∷ threads ∷ ws) rest n1
              stop,
          strtoul-spaced stime (cutime ∷ cstime ∷ priority ∷ nice ∷ threads ∷ ws) rest n2 stop,
          skip_multiple_token-spaced (cutime ∷ cstime ∷ []) (priority ∷ nice ∷ threads ∷ ws) rest
              (w1, (w2, tt)) break,
          strtoul-spaced priority (nice ∷ threads ∷ ws) rest n3 stop,
          strtoul-spaced nice (threads ∷ ws) rest n4 stop,
          strtoul-spaced threads ws rest n5 stop,
        )
        refl

  pub read_processor-spaced :
      (skipped : List Bytes) (wchan : Bytes)
      → All IsWord skipped
      → length skipped ≡ 14
      → IsNumber wchan
      → read_processor h (st, spaced (skipped ++ wchan ∷ []) rest)
        ≡ record st { processor = value 0 wchan % u32_mod }
  unfolding read_processor
  read_processor-spaced skipped wchan ws count n =
      let (break, stop) = ends in
      rw
        (
          ← count,
          skip_multiple_token-spaced skipped (wchan ∷ []) rest ws break,
          strtoul-spaced wchan [] rest n stop,
        )
        refl
