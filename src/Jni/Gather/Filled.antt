-- ===== src/Jni/Gather/Filled.antt =====
-- What a gatherer of sysm-native/src/main/javasysm.c leaves in the bean and in the handle.
use jni_demo_system_monitor.Base.{
  ℕ, ◌+◌, ◌*◌, ◌≡◌, refl, List, none, some, Bytes, ◌==◌, get_elem?, sysm_ok, true,
}
use jni_demo_system_monitor.Jni.Fields.{Jvm, Fields, Struct}
use jni_demo_system_monitor.Jni.Fields.Copied.{IsFilled, fill-IsFilled}
use jni_demo_system_monitor.Jni.Fields.Filled.{IsJvm, HasIds, IsReady}
use jni_demo_system_monitor.Jni.Gather.{Getter, new_entries, fill_bean, gather_body, gather}
use jni_demo_system_monitor.Jni.Handle.{Native, Outcome, JniSysm, World, with_sysm, with_pointer}
use jni_demo_system_monitor.Jni.Layout.Matched.{IsWellFormed}
use jni_demo_system_monitor.Jni.Layout.{Layout}

module _ (jvm : Jvm) (native : Native) where
  open jvm use {Class, Object, FieldId}
  open native use {Sysm}

  -- The handle after the call.
  pub record IsGathered (layout : Layout) (cls : Class) (name : Bytes → Bytes) (is : List FieldId)
      (s : Struct jvm) (sysm : Sysm) (before : JniSysm jvm native)
      (o : Outcome (World jvm native) Object) : Type 0 where
    pub fields : Fields jvm
    pub kept : o.world.pointer ≡ some (record before { fields = fields; sysm = sysm })
    pub filled : IsFilled jvm cls name layout is before.fields s (fields, o.value)
    pub quiet : o.thrown ≡ none

  -- On a Java machine that keeps what is stored, with an open handle, where the library fills its
  -- struct and the bean's slot is NULL or has the ids of the class: the gatherer of a bean with well
  -- formed tables, for a class that has their fields, ends without an exception; it has copied every member,
  -- fetched the ids where the bean's slot was NULL, and kept the library's state.
  pub gather-IsGathered :
      (laws : IsJvm jvm) (layout : Layout) (env : ℕ) (cls : Class) (name : Bytes → Bytes)
      (is : List FieldId) (get : Getter jvm native) (obj : Object) (w : World jvm native)
      (jsysm : JniSysm jvm native)
      → w.pointer ≡ some jsysm
      → (jsysm.open_status == sysm_ok) ≡ true
      → ((get jsysm.sysm).0 == sysm_ok) ≡ true
      → IsWellFormed name layout
      → HasIds jvm cls layout.ids is
      → IsReady jvm cls layout is jsysm.fields
      → (o : Outcome (World jvm native) Object) × (gather jvm native layout env cls get obj w
          ≡ some o)
        × IsGathered layout cls name is
            (get jsysm.sysm).1
            (get jsysm.sysm).2
            (record jsysm { env = env })
            o
  unfolding gather with_sysm with_pointer gather_body fill_bean
  gather-IsGathered laws layout env cls name is get obj w jsysm at opened ok formed has ready =
      let (result, ran, filled) =
        fill-IsFilled jvm laws cls name layout is jsysm.fields (get jsysm.sysm).1 obj formed has
          ready in
      let entries = new_entries jvm native (get_elem? jsysm.fields layout.index) in
      (
        record {
          world = record w {
            pointer =
                some (record jsysm { env = env; sysm = (get jsysm.sysm).2; fields = result.0 });
            refs = w.refs + entries;
            blocks = w.blocks + 2 * entries;
          };
          value = result.1;
          thrown = none;
        },
        rw (at, opened, ok, ran) refl,
        record { fields = result.0; kept = refl; filled = filled; quiet = refl },
      )
