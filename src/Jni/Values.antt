-- ===== src/Jni/Values.antt =====
-- The native functions of sysm-native/src/main/javasysm.c that return nothing, a number, a string or
-- three numbers. The library's functions are parameters, but for `sysm_proc_signal`.
use jni_demo_system_monitor.Base.{
  ℕ, ◌%◌, ◌-◌, Bool, List, Option, none, some, ◌==◌, if◌then◌else◌, Bytes, sysm_ok, u32_mod,
  u64_mod,
}
use jni_demo_system_monitor.Jni.Fields.{Jvm}
use jni_demo_system_monitor.Jni.Handle.{
  Native, Outcome, JniSysm, World, fail, with_sysm, jvm_exception,
}
use jni_demo_system_monitor.Proc.Signal.{proc_signal, pid_get}

module _ (jvm : Jvm) (native : Native) where
  open native use {Sysm}

  -- A value that is had, or one for an error with its exception.
  unfoldable pub value_or_error :
      {A : Type 0}
      → (Sysm → ℕ × A × Sysm)
      → A
      → World jvm native
      → JniSysm jvm native
      → Option (Outcome (World jvm native) A)
  unfolding fail
  value_or_error get failed w jsysm =
      let (status, value, sysm) = get jsysm.sysm in
      let after = record jsysm { sysm = sysm } in
      let world = record w { pointer = some after } in
      if status == sysm_ok
      then some (record { world = world; value = value; thrown = none })
      else fail jvm native world after status failed

  -- A `jlong` becomes a `pid_t`.
  unfoldable pub kill :
      ℕ
      → (ℕ → ℕ → Option ℕ)
      → ℕ
      → ℕ
      → World jvm native
      → Option (Outcome (World jvm native) (Unit {0}))
  unfolding value_or_error with_sysm proc_signal
  kill env sys_kill pid signum =
      with_sysm jvm native env tt
        (value_or_error (λ sysm. (proc_signal sys_kill (pid % u32_mod) signum, tt, sysm)) tt)

  unfoldable pub get_pid :
      ℕ → (ℕ → Sysm → Sysm) → ℕ → World jvm native → Option (Outcome (World jvm native) ℕ)
  unfolding with_sysm
  get_pid env with_pid getpid = with_sysm jvm native env 0 (λ w jsysm.
      let (pid, sysm) = pid_get with_pid getpid jsysm.sysm in
      some (record {
        world = record w { pointer = some (record jsysm { sysm = sysm }) };
        value = pid;
        thrown = none;
      }))

  -- 0 where the handle fails, and -1 where the library does.
  unfoldable pub get_process_port :
      ℕ
      → (ℕ → ℕ → Sysm → ℕ × ℕ × Sysm)
      → ℕ
      → ℕ
      → World jvm native
      → Option (Outcome (World jvm native) ℕ)
  unfolding value_or_error with_sysm
  get_process_port env get protocol port =
      with_sysm jvm native env 0 (value_or_error (get protocol port) (u64_mod - 1))

  unfoldable pub get_net_listen_address :
      {Address : Type 0}
      → ℕ
      → (Address → Bytes)
      → (ℕ → Sysm → ℕ × Address × Sysm)
      → ℕ
      → World jvm native
      → Option (Outcome (World jvm native) (Option Bytes))
  unfolding value_or_error with_sysm
  get_net_listen_address env to_string get port = with_sysm jvm native env none (
      value_or_error
        (λ sysm.
          let (status, address, after) = get port sysm in (status, some (to_string address), after))
        none)

  -- Three numbers go into an array of Java, which may not be had.
  unfoldable pub load_body :
      {D : Type 0}
      → Bool
      → (Sysm → ℕ × List D × Sysm)
      → World jvm native
      → JniSysm jvm native
      → Option (Outcome (World jvm native) (Option (List D)))
  unfolding fail
  load_body has_array get w jsysm =
      let (status, loads, sysm) = get jsysm.sysm in
      let after = record jsysm { sysm = sysm } in
      let world = record w { pointer = some after } in
      if status == sysm_ok
      then (if has_array
          then some (record { world = world; value = some loads; thrown = none })
          else some (record { world = world; value = none; thrown = some jvm_exception }))
      else fail jvm native world after status none

  unfoldable pub get_load_average :
      {D : Type 0}
      → ℕ
      → Bool
      → (Sysm → ℕ × List D × Sysm)
      → World jvm native
      → Option (Outcome (World jvm native) (Option (List D)))
  unfolding load_body with_sysm
  get_load_average env has_array get = with_sysm jvm native env none (load_body has_array get)
