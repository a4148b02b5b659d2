-- ===== src/Proc/Env.antt =====
-- The environment of a process: `sysm_proc_env_get` of sysm-native/src/main/sysm.c. What `getenv`
-- and the reading of /proc/PID/environ deliver are parameters; the getter is a function on its own
-- state. `none` is a store outside the buffers.
pub mod Visit
use jni_demo_system_monitor.Base.{
  ℕ, zero, suc, Bool, true, false, ◌&&◌, [], ◌∷◌, ◌⊎◌, inl, inr, Option, none, some, length, ltb,
  leb, ◌-◌, ◌==◌, if◌then◌else◌, take, drop, Bytes, sysm_ok,
}
use jni_demo_system_monitor.Proc.Args.{span_nul, open_status}
use jni_demo_system_monitor.Text.{strchr}

abbrev pub key_size : ℕ
key_size = 128

abbrev pub arg_max : ℕ
arg_max = 131072

pub data EnvType : Type 0 where
  env_all env_key : EnvType

-- The file: an errno of `open`, a `read` that fails, or the bytes read, with their NULs.
pub data Environ : Type 0 where
  unopened : ℕ → Environ
  unread : Environ
  bytes : Bytes → Environ

abbrev pub Getter : Type 0 → Type 0
Getter S = S → Bytes → Bytes → ℕ × S

module _ {S : Type 0} (getter : Getter S) where
  -- What the loop does with `ptr` at an entry; `rest` is the loop from the next one.
  unfoldable pub visit_entry : (S → Option S) → Bytes → Option Bytes → S → Option S
  visit_entry rest entry none s = some s
  visit_entry rest entry (some val) s =
      let klen = length entry - length val in
      let (status, s') = getter s (take klen entry) (drop 1 val) in
      let next = rest s' in
      if leb key_size klen then none else if status == sysm_ok then next else some s'

  -- Each round takes a byte at least: the length of the buffer is enough fuel.
  unfoldable pub visit_all : ℕ → Bytes → S → Option S
  unfolding visit_entry span_nul strchr
  visit_all fuel [] s = some s
  visit_all zero (c ∷ b) s = none
  visit_all (suc fuel) (c ∷ b) s =
      let (entry, next) = span_nul (c ∷ b) in
      visit_entry (visit_all fuel next) entry (strchr b'=' entry) s

  unfoldable pub read_environ : Environ → S → Option (ℕ × S)
  unfolding visit_all open_status
  read_environ (unopened errno) s = some (open_status errno, s)
  read_environ unread s = none
  read_environ (bytes buffer) s =
      if ltb (length buffer) arg_max
      then elim (visit_all (length buffer) buffer s) [ none ↦ none | some s' ↦ some (sysm_ok, s') ]
      else none

  -- What `getenv` finds is given to the getter, whose status is not looked at.
  unfoldable pub env_lookup : (Bytes → Option Bytes) → Bytes → S → S
  env_lookup getenv key s = elim (getenv key) [ none ↦ s | some value ↦ (getter s key value).1 ]

  -- `own` says whether the process is this one.
  unfoldable pub proc_env_get :
      (Bytes → Option Bytes) → EnvType → Bytes → Bool → Environ → S → Option (ℕ × S)
  unfolding read_environ env_lookup
  proc_env_get getenv env_key key true file s = some (sysm_ok, env_lookup getenv key s)
  proc_env_get getenv env_key key false file s = read_environ file s
  proc_env_get getenv env_all key own file s = read_environ file s
