-- ===== src/Proc/Stat/Stale.antt =====
-- What `proc_stat_read` keeps after a reading that failed.
use jni_demo_system_monitor.Base.{ℕ, ◌+◌, ◌<◌, ◌≡◌, refl, arith, true, false, some, sysm_ok, esrch}
use jni_demo_system_monitor.File.{Opened, missing, file2str, proc_status}
use jni_demo_system_monitor.Proc.Stat.{ProcStat, Host, last_proc_expire, is_fresh, proc_stat_read}

-- If the file of a process that is not fresh is missing, `proc_stat_read` fails with ESRCH, but it
-- has filed the values of the process read before under the new pid: within the next two seconds a
-- call for that pid succeeds with them, whatever the file is then.
pub proc_stat_read-stale :
    (h : Host) (st : ProcStat) (pid now later : ℕ) (file : Opened)
    → is_fresh now pid st ≡ false
    → later < now + last_proc_expire
    → let st' = record st { pid = pid; mtime = now } in
      (proc_stat_read h now pid missing st ≡ some (esrch, st'))
      × (proc_stat_read h later pid file st' ≡ some (sysm_ok, st'))
unfolding proc_stat_read file2str proc_status
proc_stat_read-stale h st pid now later file old soon =
    let again : is_fresh later pid (record st { pid = pid; mtime = now }) ≡ true =
      unfold is_fresh in ground arith in
    (rw old refl, rw again refl)
