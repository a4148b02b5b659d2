-- ===== src/Jni/Environment/Looked.antt =====
-- What `ProcessEnv_getValue` and `ProcessEnv_getAll` of sysm-native/src/main/javasysm.c return.
use jni_demo_system_monitor.Base.{
  ℕ, ◌<◌, ◌≡◌, refl, ap, ◌∙◌, true, false, [], ◌∷◌, Option, none, some, ◌==◌, ==_iff, if◌then◌else◌,
  Bytes, length, sysm_ok, All, arith, Bool-cases, inl, inr,
}
use jni_demo_system_monitor.Jni.Environment.{
  JavaMap, Process, env_getvalue, env_getall, value_body, get_value, all_body, get_all,
}
use jni_demo_system_monitor.Jni.Fields.{Jvm}
use jni_demo_system_monitor.Jni.Handle.{Native, JniSysm, World, with_sysm, with_pointer}
use jni_demo_system_monitor.Jni.Layout.Matched.{str_eq→≡}
use jni_demo_system_monitor.Proc.Args.Split.{join_nul}
use jni_demo_system_monitor.Proc.Env.Visit.{
  Variables, entries, IsVariable, offer, proc_env_get-offer,
}
use jni_demo_system_monitor.Proc.Env.{
  Environ, Getter, bytes, env_all, env_key, proc_env_get, key_size, arg_max,
}
use jni_demo_system_monitor.Text.{str_eq}

-- The first variable of a name.
pub lookup : Bytes → Variables → Option Bytes
lookup wanted [] = none
lookup wanted ((key, val) ∷ vars) =
    let rest = lookup wanted vars in if str_eq wanted key then some val else rest

same_length : (s t : Bytes) → str_eq s t ≡ true → (length s == length t) ≡ true
same_length s t e = (==_iff (length s) (length t)).1 (ap length (str_eq→≡ s t e))

getvalue-key :
    (wanted key val : Bytes) (found : Option Bytes)
    → env_getvalue wanted found key val
      ≡ (if str_eq wanted key then (1, some val) else (sysm_ok, found))
unfolding env_getvalue
getvalue-key wanted key val found = elim (Bool-cases (str_eq wanted key)) [
  | inl same ↦ rw (same, same_length wanted key same) refl
  | inr other ↦ rw other (ground arith)
]

offer-lookup :
    (wanted : Bytes) (vars : Variables) → offer (env_getvalue wanted) vars none ≡ lookup wanted vars
unfolding offer lookup
offer-lookup wanted [] = refl
offer-lookup wanted ((key, val) ∷ vars) = elim (Bool-cases (str_eq wanted key)) [
  | inl same ↦ rw (getvalue-key wanted key val none, same) refl
  | inr other ↦ rw (getvalue-key wanted key val none, other) (offer-lookup wanted vars)
]

-- The environment of another process, as the kernel gives it, with keys that fit `key` and a text
-- that leaves room for a NUL in `buffer`.
pub record IsEnvironment (process : Process) (vars : Variables) : Type 0 where
  pub other : process.own ≡ false
  pub text : process.file ≡ bytes (join_nul (entries vars))
  pub variables : All IsVariable vars
  pub short : All (λ kv. length kv.0 < key_size) vars
  pub fits : length (join_nul (entries vars)) < arg_max

module _ {S : Type 0} (getter : Getter S) where
  one_read :
      (process : Process) (key : Bytes) (file : Environ) (s : S)
      → proc_env_get getter process.getenv env_key key false file s
        ≡ proc_env_get getter process.getenv env_all [] false file s
  unfolding proc_env_get
  one_read process key file s = refl

  read_offer :
      (process : Process) (vars : Variables) (key : Bytes) (s : S)
      → IsEnvironment process vars
      → (proc_env_get getter process.getenv env_key key process.own process.file s
          ≡ some (sysm_ok, offer getter vars s))
        × (proc_env_get getter process.getenv env_all [] process.own process.file s
            ≡ some (sysm_ok, offer getter vars s))
  read_offer process vars key s is =
      let all = proc_env_get-offer getter process.getenv vars s is.variables is.short is.fits in
      (
        rw (is.other, is.text) (one_read process key (bytes (join_nul (entries vars))) s ∙ all),
        rw (is.other, is.text) all,
      )

-- A `put` for each variable.
pub put_all : (java : JavaMap) → Variables → java.Map → java.Map
put_all java [] map = map
put_all java ((key, val) ∷ vars) map = put_all java vars (java.put map key val).0

offer-puts :
    (java : JavaMap) (vars : Variables) (map : java.Map)
    → ((map : java.Map) (key val : Bytes) → (java.put map key val).1 ≡ false)
    → offer (env_getall java) vars (map, false) ≡ (put_all java vars map, false)
unfolding offer put_all env_getall
offer-puts java [] map calm = refl
offer-puts java ((key, val) ∷ vars) map calm =
    rw (calm map key val) (offer-puts java vars (java.put map key val).0 calm)

module _ (jvm : Jvm) (native : Native) where
  -- At an open handle, for another process whose environment has keys of at most 127 bytes, and fewer
  -- than 131072 bytes (ARG_MAX) in all: `ProcessEnv_getValue` returns the value of the first variable of the name, and NULL where there
  -- is none, and throws nothing.
  pub get_value-lookup :
      (env : ℕ) (process : Process) (key : Bytes) (vars : Variables) (w : World jvm native)
      (jsysm : JniSysm jvm native)
      → w.pointer ≡ some jsysm
      → (jsysm.open_status == sysm_ok) ≡ true
      → IsEnvironment process vars
      → get_value jvm native env process key w
        ≡ some (record {
          world = record w { pointer = some (record jsysm { env = env }) };
          value = lookup key vars;
          thrown = none;
        })
  unfolding get_value with_sysm with_pointer value_body
  get_value-lookup env process key vars w jsysm at opened is =
      rw
        (
          at,
          opened,
          (read_offer (env_getvalue key) process vars key none is).0,
          offer-lookup key vars,
        )
        refl

  -- At such a handle and for such a process, `ProcessEnv_getAll` returns the map of as many `put`s as
  -- there are variables, in order, where none of them raises an exception.
  pub get_all-puts :
      (java : JavaMap) (env : ℕ) (process : Process) (vars : Variables) (w : World jvm native)
      (jsysm : JniSysm jvm native)
      → w.pointer ≡ some jsysm
      → (jsysm.open_status == sysm_ok) ≡ true
      → IsEnvironment process vars
      → ((map : java.Map) (key val : Bytes) → (java.put map key val).1 ≡ false)
      → get_all jvm native java env process w
        ≡ some (record {
          world = record w { pointer = some (record jsysm { env = env }) };
          value = some (put_all java vars java.empty);
          thrown = none;
        })
  unfolding get_all with_sysm with_pointer all_body
  get_all-puts java env process vars w jsysm at opened is calm =
      rw
        (
          at,
          opened,
          (read_offer (env_getall java) process vars [] (java.empty, false) is).1,
          offer-puts java vars java.empty calm,
        )
        refl
