-- ===== src/Jni/NetStat/Faults.antt =====
-- What `NetStat_stat` of sysm-native/src/main/javasysm.c throws and what it drops, and the bytes of
-- an address that it takes.
use jni_demo_system_monitor.Base.{
  ℕ, ◌^◌, ◌<◌, ◌≡◌, refl, sym, true, false, List, [], ◌∷◌, some, ◌==◌, sysm_ok, arith, ◌%◌, ◌/◌,
}
use jni_demo_system_monitor.Jni.Fields.{Jvm, Struct}
use jni_demo_system_monitor.Jni.Handle.{Native, JniSysm, World, with_sysm, with_pointer}
use jni_demo_system_monitor.Jni.Life.Failed.{IsThrowable, error_of, fail-throws}
use jni_demo_system_monitor.Jni.NetStat.{
  NetStats, to_net_address, port_stat, stat_done, net_stat_stat, word_at,
}
use jni_demo_system_monitor.Net.Address.{NetAddress, inet, octets}
use mathlib.Core.Path.{subst}

module _ (jvm : Jvm) (native : Native) where
  open jvm use {Class, Object, Value}
  open native use {Sysm}

  -- Where the function table has `ExceptionCheck`, as it always has: whatever array is made of the
  -- counts of the states, the call ends the same, so no Java bean ever gets them.
  pub net_stat_stat-states :
      (lib : NetStats jvm native) (other : Struct jvm → Value) (env : ℕ) (cls : Class) (flags : ℕ)
      (bytes : List ℕ) (address : NetAddress) (port : ℕ) (obj : Object) (w : World jvm native)
      → lib.has_exception_check ≡ true
      → net_stat_stat jvm native lib env cls flags bytes address port obj w
        ≡ net_stat_stat jvm native
            (record lib { tcp_states = other })
            env
            cls
            flags
            bytes
            address
            port
            obj
            w
  unfolding net_stat_stat port_stat stat_done
  net_stat_stat-states lib other env cls flags bytes address port obj w present =
      subst
        (λ b.
          net_stat_stat jvm native (record lib { has_exception_check = b }) env cls flags bytes
            address port obj w
          ≡ net_stat_stat jvm native (record lib { has_exception_check = b; tcp_states = other })
              env cls flags bytes address port obj w)
        (sym present) refl

  -- Where the library fails, or the bytes are no address, with a handle that is open: the exception
  -- is that of the flags, as if they were the error, whatever the error is.
  pub net_stat_stat-failed :
      (lib : NetStats jvm native) (env : ℕ) (cls : Class) (flags : ℕ) (bytes : List ℕ)
      (address : NetAddress) (port : ℕ) (obj : Object) (w : World jvm native)
      (jsysm : JniSysm jvm native) (status : ℕ) (s : Struct jvm) (sysm : Sysm)
      → w.pointer ≡ some jsysm
      → (jsysm.open_status == sysm_ok) ≡ true
      → port_stat jvm native lib flags bytes address port jsysm.sysm ≡ some (status, s, sysm)
      → (status == sysm_ok) ≡ false
      → IsThrowable jvm native flags
      → net_stat_stat jvm native lib env cls flags bytes address port obj w
        ≡ some (record {
          world = record w { pointer = some (record jsysm { env = env; sysm = sysm }) };
          value = obj;
          thrown = some (error_of jvm native sysm flags);
        })
  unfolding net_stat_stat stat_done with_sysm with_pointer
  net_stat_stat-failed lib env cls flags bytes address port obj w jsysm status s sysm at opened
        answer failed throwable =
      rw (at, opened, answer, failed) (fail-throws jvm native _ _ flags obj throwable)

-- The bytes of a Java address of four bytes are those of the word it becomes.
pub to_net_address-octets :
    (a b c d : ℕ) (address : NetAddress)
    → a < 256
    → b < 256
    → c < 256
    → d < 256
    → (filled : NetAddress) × (to_net_address (a ∷ b ∷ c ∷ d ∷ []) address ≡ some (sysm_ok, filled))
      × (filled.family ≡ inet)
      × (octets filled.word0 ≡ a ∷ b ∷ c ∷ d ∷ [])
unfolding to_net_address
to_net_address-octets a b c d address ha hb hc hd =
    let w = word_at (a ∷ b ∷ c ∷ d ∷ []) 0 in
    let e0 : w % 256 ≡ a = omega arith in
    let e1 : w / 256 % 256 ≡ b = omega arith in
    let e2 : w / 2 ^ 16 % 256 ≡ c = omega arith in
    let e3 : w / 2 ^ 24 % 256 ≡ d = omega arith in
    (record address { word0 = w; family = inet }, refl, refl, rw (e0, e1, e2, e3) refl)
