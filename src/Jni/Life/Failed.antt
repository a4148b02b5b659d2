-- ===== src/Jni/Life/Failed.antt =====
-- The calls at a handle of sysm-native/src/main/javasysm.c that could not be opened.
use jni_demo_system_monitor.Jni.Layout.{Layout}
use jni_demo_system_monitor.Jni.Gather.{Getter, gather, gather_body}
use jni_demo_system_monitor.Base.{ℕ, suc, ◌≡◌, refl, true, false, some, ◌==◌, sysm_ok}
use jni_demo_system_monitor.Jni.Fields.{Jvm}
use jni_demo_system_monitor.Jni.Handle.{
  Native, JniSysm, World, Thrown, native_open, native_close, with_sysm, with_pointer, fail,
  throw_error, enotimpl, error_class, new_exception, new_block, throw_new,
}

module _ (jvm : Jvm) (native : Native) where
  open jvm use {Class, Object}
  open native use {Sysm, strerror, has_class}

  -- The class of an error that is not SYSM_ENOTIMPL is found.
  abbrev pub IsThrowable : ℕ → Type 0
  IsThrowable err = ((err == enotimpl) ≡ false) × (has_class (error_class jvm native err) ≡ true)

  abbrev pub error_of : Sysm → ℕ → Thrown
  error_of sysm err = new_exception (error_class jvm native err) (strerror sysm err)

  pub fail-throws :
      {A : Type 0} (w : World jvm native) (jsysm : JniSysm jvm native) (err : ℕ) (value : A)
      → IsThrowable err
      → fail jvm native w jsysm err value
        ≡ some (record { world = w; value = value; thrown = some (error_of jsysm.sysm err) })
  unfolding fail throw_error throw_new
  fail-throws w jsysm err value (other, found) = rw (other, found) refl

  -- Where `sysm_open` fails with another error than SYSM_ENOTIMPL, whose class of exceptions is found:
  -- `nativeOpen` throws that error and leaves its block at the pointer; `nativeClose` then throws the
  -- error again and returns 0, and the block stays.
  pub native_open-failed :
      (status env : ℕ) (sysm : Sysm) (w : World jvm native)
      → (status == sysm_ok) ≡ false
      → IsThrowable status
      → let after = record w {
        pointer = some (new_block jvm native (status, sysm));
        blocks = suc w.blocks;
      } in
        (native_open jvm native (status, sysm) w
          ≡ some (record { world = after; value = tt; thrown = some (error_of sysm status) }))
        × (native_close jvm native env after
            ≡ some (record { world = after; value = 0; thrown = some (error_of sysm status) }))
  unfolding native_open native_close with_sysm with_pointer
  native_open-failed status env sysm w failed throwable =
      let block = new_block jvm native (status, sysm) in
      let after = record w { pointer = some block; blocks = suc w.blocks } in
      (
        rw failed (fail-throws after block status tt throwable),
        rw failed (fail-throws after block status 0 throwable),
      )

  -- Where the library returns an error that is not SYSM_ENOTIMPL, whose class of exceptions is found, a
  -- gatherer at an open handle leaves its bean and the ids alone, keeps the library's state, and throws the exception of the error's
  -- class with its text.
  pub gather-failed :
      (layout : Layout) (env : ℕ) (cls : Class) (get : Getter jvm native) (obj : Object)
      (w : World jvm native) (jsysm : JniSysm jvm native)
      → w.pointer ≡ some jsysm
      → (jsysm.open_status == sysm_ok) ≡ true
      → ((get jsysm.sysm).0 == sysm_ok) ≡ false
      → IsThrowable (get jsysm.sysm).0
      → gather jvm native layout env cls get obj w
        ≡ some (record {
          world = record w {
            pointer = some (record jsysm { env = env; sysm = (get jsysm.sysm).2 });
          };
          value = obj;
          thrown = some (error_of (get jsysm.sysm).2 (get jsysm.sysm).0);
        })
  unfolding gather with_sysm with_pointer gather_body
  gather-failed layout env cls get obj w jsysm at opened failed throwable =
      rw (at, opened, failed) (fail-throws _ _ (get jsysm.sysm).0 _ throwable)
