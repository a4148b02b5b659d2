-- ===== src/Jni/Life.antt =====
-- The life of a handle of sysm-native/src/main/javasysm.c: any sequence of `nativeOpen`, where the
-- pointer is NULL, `nativeClose` and gatherers, of which any may fail.
pub mod Closed
pub mod Failed
use jni_demo_system_monitor.Jni.Gather.Tidy.{
  gather-EndsTidy, gather_named-EndsTidy, cpu_percentage-EndsTidy,
}
use jni_demo_system_monitor.Jni.Layout.Machine.{cpu_layout, cpu_gets, cpu_percentage_layout}
use jni_demo_system_monitor.Base.{
  ℕ, zero, suc, ◌+◌, ◌*◌, ◌-◌, ◌≡◌, refl, sym, ap, ◌∙◌, Bool, true, false, List, [], ◌∷◌, Option,
  none, some, ◌>>=◌, bind-some, if-both, Option-cases, inl, inr, if◌then◌else◌, ◌==◌, arith,
  sysm_ok, Bytes, codes, get_elem?, set, ltb, length,
}
use jni_demo_system_monitor.Jni.Fields.{
  Jvm, FieldCache, Fields, Struct, fill, init_fields, init_at, set_fields, fetch_ids, store,
  get_rows,
}
use jni_demo_system_monitor.Jni.Gather.Beans.{gather_named, cpu_percentage_gather}
use jni_demo_system_monitor.Jni.Gather.{Getter, new_entries, fill_bean, gather_body, gather}
use jni_demo_system_monitor.Jni.Handle.Tidy.{
  IsTidy, EndsTidy, bind-EndsTidy, fail-EndsTidy, with_sysm-EndsTidy, native_open-EndsTidy,
  native_close-EndsTidy, held_refs, held_blocks,
}
use jni_demo_system_monitor.Jni.Handle.{
  Native, Outcome, JniSysm, World, native_open, native_close, count_cached, fail, count_ref,
}
use jni_demo_system_monitor.Jni.Layout.{Layout}
use mathlib.Core.Option.{some-injective}
use mathlib.Core.Path.{subst}

module _ (jvm : Jvm) (native : Native) where
  open jvm use {Class, Object, Value}
  open native use {Sysm}

  -- A call at a handle: the world before it and the one after it.
  pub data Step : World jvm native → World jvm native → Type 0 where
    opened :
        (got : ℕ × Sysm) (w : World jvm native) (o : Outcome (World jvm native) (Unit {0}))
        → w.pointer ≡ none
        → native_open jvm native got w ≡ some o
        → Step w o.world
    closed :
        (env : ℕ) (w : World jvm native) (o : Outcome (World jvm native) ℕ)
        → native_close jvm native env w ≡ some o
        → Step w o.world
    gathered :
        (layout : Layout) (env : ℕ) (cls : Class) (get : Getter jvm native) (obj : Object)
        (w : World jvm native) (o : Outcome (World jvm native) Object)
        → gather jvm native layout env cls get obj w ≡ some o
        → Step w o.world
    gathered_named :
        (layout : Layout) (env : ℕ) (cls : Class) (get : Option Bytes → Getter jvm native)
        (name : Option Bytes) (obj : Object) (w : World jvm native)
        (o : Outcome (World jvm native) Object)
        → gather_named jvm native layout env cls get name obj w ≡ some o
        → Step w o.world
    gathered_percentage :
        (env : ℕ) (cls : Class) (calc : List (Bytes × Value) → List (Bytes × Value) → Struct jvm)
        (prev curr obj : Object) (w : World jvm native) (o : Outcome (World jvm native) Object)
        → cpu_percentage_gather jvm native env cls calc prev curr obj w ≡ some o
        → Step w o.world

  -- Before the first call.
  abbrev pub unopened : World jvm native
  unopened = record { pointer = none; refs = 0; blocks = 0; pinned = 0 }

  pub data Reach : World jvm native → Type 0 where
    start : Reach unopened
    next : {w after : World jvm native} → Reach w → Step w after → Reach after

  step-IsTidy :
      (w after : World jvm native) → Step w after → IsTidy jvm native w → IsTidy jvm native after
  step-IsTidy _ _ (opened got w o null e) tidy = native_open-EndsTidy jvm native got w null tidy o e
  step-IsTidy _ _ (closed env w o e) tidy = native_close-EndsTidy jvm native env w tidy o e
  step-IsTidy _ _ (gathered layout env cls get obj w o e) tidy =
      gather-EndsTidy jvm native layout env cls get obj w tidy o e
  step-IsTidy _ _ (gathered_named layout env cls get name obj w o e) tidy =
      gather_named-EndsTidy jvm native layout env cls get name obj w tidy o e
  step-IsTidy _ _ (gathered_percentage env cls calc prev curr obj w o e) tidy =
      cpu_percentage-EndsTidy jvm native env cls calc prev curr obj w tidy o e

  -- Whatever calls were made, in whatever order, and whichever of them failed, as long as `nativeOpen`
  -- is called at a NULL pointer: the blocks and the global references that have not been given back
  -- are those of the handle that the pointer leads to.
  pub Reach-IsTidy : (w : World jvm native) → Reach w → IsTidy jvm native w
  Reach-IsTidy w start = record { refs_held = refl; blocks_held = refl }
  Reach-IsTidy after (next {w} reached step) = step-IsTidy w after step (Reach-IsTidy w reached)
