-- ===== src/Jni/NetStat.antt =====
-- `jbyteArray_to_sysm_net_address` and `NetStat_stat` of sysm-native/src/main/javasysm.c. The
-- library's two functions are parameters.
pub mod Faults
use jni_demo_system_monitor.Base.{
  ℕ, ◌+◌, ◌*◌, ◌-◌, ◌^◌, ◌<◌, ◌≡◌, refl, ap, Bool, true, false, List, [], ◌∷◌, Option, none, some,
  ◌>>=◌, ◌==◌, ltb, if◌then◌else◌, length, sysm_ok, einval, u64_mod, All, arith, Bytes, codes,
  get_or,
}
use jni_demo_system_monitor.Jni.Fields.{Jvm, Struct}
use jni_demo_system_monitor.Jni.Gather.{fill_bean}
use jni_demo_system_monitor.Jni.Handle.{
  Native, Outcome, JniSysm, World, with_sysm, with_pointer, fail,
}
use jni_demo_system_monitor.Jni.Layout.Network.{net_stat_layout}
use jni_demo_system_monitor.Jni.Layout.{int_array_type}
use jni_demo_system_monitor.Jni.Life.Failed.{IsThrowable, error_of, fail-throws}
use jni_demo_system_monitor.Net.Address.{NetAddress, inet, inet6, octets}

-- The word that four bytes of memory make.
abbrev pub word_at : List ℕ → ℕ → ℕ
word_at bytes i =
    get_or bytes i 0
    + 2 ^ 8 * get_or bytes (i + 1) 0
    + 2 ^ 16 * get_or bytes (i + 2) 0
    + 2 ^ 24 * get_or bytes (i + 3) 0

-- The bytes go into the union of 16: a longer array is stored behind it. What EINVAL leaves in the
-- union is not kept, since nothing reads it.
unfoldable pub to_net_address : List ℕ → NetAddress → Option (ℕ × NetAddress)
to_net_address bytes address =
    let first = record address { word0 = word_at bytes 0 } in
    let all = record first {
      word1 = word_at bytes 4;
      word2 = word_at bytes 8;
      word3 = word_at bytes 12;
    } in
    if ltb 16 (length bytes)
    then none
    else if length bytes == 4
    then some (sysm_ok, record first { family = inet })
    else if length bytes == 16
    then some (sysm_ok, record all { family = inet6 })
    else some (einval, address)

module _ (jvm : Jvm) (native : Native) where
  open jvm use {Class, Object, Value, get_field_id, set_field}
  open native use {Sysm}

  -- `sysm_net_stat_get` and `sysm_net_stat_port_get`, what the struct holds before them, its states as
  -- an array of Java, and whether the function table of the JNI has `ExceptionCheck`.
  pub record NetStats : Type 0 where
    pub stat_get : ℕ → Sysm → ℕ × Struct jvm × Sysm
    pub stat_port_get : ℕ → NetAddress → ℕ → Sysm → ℕ × Struct jvm × Sysm
    pub unset : Struct jvm
    pub tcp_states : Struct jvm → Value
    pub has_exception_check : Bool

  -- `jport != -1`
  unfoldable pub port_stat :
      NetStats → ℕ → List ℕ → NetAddress → ℕ → Sysm → Option (ℕ × Struct jvm × Sysm)
  unfolding to_net_address
  port_stat lib flags bytes address port sysm =
      if port == u64_mod - 1
      then some (lib.stat_get flags sysm)
      else (to_net_address bytes address >>= λ (status, filled).
          if status == sysm_ok
          then some (lib.stat_port_get flags filled port sysm)
          else some (status, lib.unset, sysm))

  abbrev store_states :
      NetStats
      → Class
      → Struct jvm
      → Outcome (World jvm native) Object
      → Option (Outcome (World jvm native) Object)
  store_states lib cls s o = get_field_id cls (codes "tcpStates") int_array_type >>= λ id.
      some (record o { value = set_field o.value id (lib.tcp_states s) })

  -- `if (JENV->ExceptionCheck) return;` tests the function, and does not call it.
  unfoldable pub stat_done :
      NetStats
      → ℕ
      → Class
      → Object
      → World jvm native
      → JniSysm jvm native
      → ℕ × Struct jvm × Sysm
      → Option (Outcome (World jvm native) Object)
  unfolding fill_bean fail
  stat_done lib flags cls obj w jsysm (status, s, sysm) =
      let after = record jsysm { sysm = sysm } in
      let world = record w { pointer = some after } in
      if status == sysm_ok
      then (fill_bean jvm native net_stat_layout cls s world after obj >>= λ o.
          if lib.has_exception_check then some o else store_states lib cls s o)
      else fail jvm native world after flags obj

  unfoldable pub net_stat_stat :
      NetStats
      → ℕ
      → Class
      → ℕ
      → List ℕ
      → NetAddress
      → ℕ
      → Object
      → World jvm native
      → Option (Outcome (World jvm native) Object)
  unfolding port_stat stat_done with_sysm
  net_stat_stat lib env cls flags bytes address port obj = with_sysm jvm native env obj (λ w jsysm.
      port_stat lib flags bytes address port jsysm.sysm >>= stat_done lib flags cls obj w jsysm)
