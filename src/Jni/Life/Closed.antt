-- ===== src/Jni/Life/Closed.antt =====
-- Closing a handle of sysm-native/src/main/javasysm.c, and the calls after it.
use jni_demo_system_monitor.Base.{ℕ, none}
use jni_demo_system_monitor.Jni.Fields.{Jvm}
use jni_demo_system_monitor.Jni.Handle.{Native, World}
use jni_demo_system_monitor.Jni.Layout.{Layout}

module _ (jvm : Jvm) (native : Native) where
  open jvm use {Class, Object}

  -- The world after closing: nothing is held, and only pinned strings may be left.
  abbrev pub is_closed : ℕ → World jvm native
  is_closed pinned = record { pointer = none; refs = 0; blocks = 0; pinned = pinned }
