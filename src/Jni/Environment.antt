-- ===== src/Jni/Environment.antt =====
-- `jni_env_getvalue`, `ProcessEnv_getValue`, `jni_env_getall` and `ProcessEnv_getAll` of
-- sysm-native/src/main/javasysm.c, over `sysm_proc_env_get`. The Java map is a parameter.
pub mod Looked
use jni_demo_system_monitor.Base.{
  ℕ, Bool, true, false, ◌&&◌, Option, none, some, ◌>>=◌, ◌==◌, if◌then◌else◌, Bytes, length,
  sysm_ok, [],
}
use jni_demo_system_monitor.Jni.Fields.{Jvm}
use jni_demo_system_monitor.Jni.Handle.{
  Native, Outcome, JniSysm, World, Thrown, with_sysm, fail, jvm_exception,
}
use jni_demo_system_monitor.Proc.Env.{Getter, EnvType, env_all, env_key, Environ, proc_env_get}
use jni_demo_system_monitor.Text.{str_eq}

-- `!SYSM_OK`
abbrev pub not_ok : ℕ
not_ok = 1

-- `get->val` is `none` for NULL.
unfoldable pub env_getvalue : Bytes → Getter (Option Bytes)
unfolding str_eq
env_getvalue wanted found key val =
    if (length wanted == length key) && str_eq wanted key
    then (not_ok, some val)
    else (sysm_ok, found)

-- A `HashMap`: what `put` makes of it, and whether an exception is pending then.
pub record JavaMap : Type 1 where
  pub Map : Type 0
  pub empty : Map
  pub put : Map → Bytes → Bytes → Map × Bool

module _ (java : JavaMap) where
  -- The map, and whether an exception is pending.
  unfoldable pub env_getall : Getter (java.Map × Bool)
  env_getall (map, pending) key val =
      let (after, raised) = java.put map key val in
      (if raised then not_ok else sysm_ok, (after, raised))

-- What a call finds of a process: what `getenv` finds, whether the process is this one, and its
-- file.
pub record Process : Type 0 where
  pub getenv : Bytes → Option Bytes
  pub own : Bool
  pub file : Environ

module _ (jvm : Jvm) (native : Native) where
  unfoldable pub value_body :
      Process
      → Bytes
      → World jvm native
      → JniSysm jvm native
      → Option (Outcome (World jvm native) (Option Bytes))
  unfolding env_getvalue proc_env_get fail
  value_body process key w jsysm =
      proc_env_get (env_getvalue key) process.getenv env_key key process.own process.file none
      >>= λ (status, found).
          if status == sysm_ok
          then some (record { world = w; value = found; thrown = none })
          else fail jvm native w jsysm status none

  unfoldable pub get_value :
      ℕ → Process → Bytes → World jvm native → Option (Outcome (World jvm native) (Option Bytes))
  unfolding value_body with_sysm
  get_value env process key = with_sysm jvm native env none (value_body process key)

  abbrev raised_by : Bool → Option Thrown
  raised_by true = some jvm_exception
  raised_by false = none

  unfoldable pub all_body :
      (java : JavaMap)
      → Process
      → World jvm native
      → JniSysm jvm native
      → Option (Outcome (World jvm native) (Option java.Map))
  unfolding env_getall proc_env_get fail
  all_body java process w jsysm =
      proc_env_get (env_getall java) process.getenv env_all [] process.own process.file
        (java.empty, false)
      >>= λ (status, filled).
          if status == sysm_ok
          then some (record { world = w; value = some filled.0; thrown = raised_by filled.1 })
          else fail jvm native w jsysm status none

  unfoldable pub get_all :
      (java : JavaMap)
      → ℕ
      → Process
      → World jvm native
      → Option (Outcome (World jvm native) (Option java.Map))
  unfolding all_body with_sysm
  get_all java env process = with_sysm jvm native env none (all_body java process)
