-- ===== src/Jni/Gather/Percentage.antt =====
-- What `CpuPercentage_gather` of sysm-native/src/main/javasysm.c reads.
use jni_demo_system_monitor.Jni.Gather.{new_entries, fill_bean}
use jni_demo_system_monitor.Base.{
  ℕ, suc, ◌+◌, ◌*◌, ◌≡◌, refl, sym, ap, ◌∙◌, true, List, [], ◌∷◌, ◌++◌, Option, none, some, ◌>>=◌,
  Bytes, All, arith, length, length-append, append_assoc, get_elem?, ◌==◌, sysm_ok,
}
use jni_demo_system_monitor.Jni.Fields.Copied.{IsCopied, fill-IsFilled}
use jni_demo_system_monitor.Jni.Fields.Filled.{
  IsJvm, HasIds, IsReady, somes, cache_of, get_elem?-append,
}
use jni_demo_system_monitor.Jni.Fields.{Jvm, FieldCache, Fields, Struct, cached_id, get_rows}
use jni_demo_system_monitor.Jni.Gather.Beans.{percentage_body, cpu_percentage_gather}
use jni_demo_system_monitor.Jni.Handle.{Native, Outcome, JniSysm, World, with_sysm, with_pointer}
use jni_demo_system_monitor.Jni.Layout.Machine.{cpu_layout, cpu_gets, cpu_percentage_layout}
use jni_demo_system_monitor.Jni.Layout.Bean.{cpu, cpu_percentage}
use jni_demo_system_monitor.Jni.Layout.Named.{field_name, layout_of-IsWellFormed}
use jni_demo_system_monitor.Jni.Layout.Matched.{TablesMatch}
use jni_demo_system_monitor.Jni.Layout.{IdRow, SetRow, Layout, type_of}
use mathlib.Core.Option.{some-injective}

bound :
    {A B : Type 0} (o : Option A) (f : A → B) (i : A) (v : B)
    → o ≡ some i
    → (o >>= λ i. some (f i)) ≡ some v
    → f i ≡ v
bound o f i v fetched held =
    some-injective (f i) v (sym (ap (λ o. o >>= λ i. some (f i)) fetched) ∙ held)

module _ (jvm : Jvm) where
  open jvm use {Class, Object, FieldId, Value, get_field_id, get_field}

  -- The members of the rows, with a struct's values.
  pub members : Struct jvm → List SetRow → List (Bytes × Value)
  members s [] = []
  members s (r ∷ rs) = (r.member, s r.setter r.member) ∷ members s rs

  get_rows-copied :
      (layout : Layout) (name : Bytes → Bytes) (fields : Fields jvm) (cache : FieldCache jvm)
      (s : Struct jvm) (k : ℕ) (ds : List IdRow) (rs : List SetRow) (done : List (Option FieldId))
      (is : List FieldId) (cls : Class) (obj : Object)
      → get_elem? fields layout.index ≡ some (some cache)
      → cache.ids ≡ done ++ somes is
      → TablesMatch layout.slots name k ds rs
      → HasIds jvm cls ds is
      → All (IsCopied jvm cls name s obj) rs
      → length done ≡ k
      → get_rows jvm layout fields rs obj ≡ some (members s rs)
  unfolding get_rows cached_id members
  get_rows-copied layout name fields cache s k [] [] done [] cls obj slot ids match has copied at =
      refl
  get_rows-copied layout name fields cache s k (d ∷ ds) (r ∷ rs) done (i ∷ is) cls obj slot ids
        match has copied at =
      let row = match.0 in
      let fetched : get_field_id cls (name r.member) (type_of r.setter) ≡ some i =
        rw (sym row.one_name, sym row.one_type) has.0 in
      let held : get_field obj i ≡ s r.setter r.member =
        bound (get_field_id cls (name r.member) (type_of r.setter)) (get_field obj) i
          (s r.setter r.member) fetched copied.0 in
      rw
        (
          slot,
          match.0.set_slot,
          ids,
          sym at,
          get_elem?-append done (somes is) (some i),
          get_rows-copied layout name fields cache s (suc k) ds rs (done ++ some i ∷ []) is cls obj
              slot (ids ∙ sym (append_assoc done (some i ∷ []) (somes is))) match.2 has.1 copied.1
              (omega (arith, length-append done (some i ∷ []))),
          held,
        )
        refl
  get_rows-copied layout name fields cache s k [] (r ∷ rs) done is cls obj slot ids match has copied
        at =
      absurd (ground arith)
  get_rows-copied layout name fields cache s k (d ∷ ds) [] done is cls obj slot ids match has copied
        at =
      absurd (ground arith)
  get_rows-copied layout name fields cache s k [] [] done (i ∷ is) cls obj slot ids match has copied
        at =
      absurd (ground arith)
  get_rows-copied layout name fields cache s k (d ∷ ds) (r ∷ rs) done [] cls obj slot ids match has
        copied at =
      absurd (ground arith)

module _ (jvm : Jvm) (native : Native) where
  open jvm use {Class, Object, FieldId, Value}

  -- With an open handle that has never fetched the ids of `Cpu`, the call goes through a NULL pointer,
  -- whatever the two beans hold.
  pub cpu_percentage-unfetched :
      (env : ℕ) (cls : Class) (calc : List (Bytes × Value) → List (Bytes × Value) → Struct jvm)
      (prev curr obj : Object) (w : World jvm native) (jsysm : JniSysm jvm native)
      → w.pointer ≡ some jsysm
      → (jsysm.open_status == sysm_ok) ≡ true
      → get_elem? jsysm.fields cpu_layout.index ≡ some none
      → cpu_percentage_gather jvm native env cls calc prev curr obj w ≡ none
  unfolding cpu_percentage_gather with_sysm with_pointer percentage_body get_rows cached_id
  cpu_percentage-unfetched env cls calc prev curr obj w jsysm at opened null =
      rw (at, opened, null) refl

  reads_cpu :
      (fields : Fields jvm) (cpu_cls : Class) (cpu_is : List FieldId) (s : Struct jvm)
      (obj : Object)
      → get_elem? fields cpu_layout.index ≡ some (some (cache_of jvm cpu_cls cpu_is))
      → HasIds jvm cpu_cls cpu_layout.ids cpu_is
      → All (IsCopied jvm cpu_cls (field_name cpu) s obj) cpu_gets
      → get_rows jvm cpu_layout fields cpu_gets obj ≡ some (members jvm s cpu_gets)
  reads_cpu fields cpu_cls cpu_is s obj slot has copied =
      get_rows-copied jvm cpu_layout (field_name cpu) fields (cache_of jvm cpu_cls cpu_is) s 0
        cpu_layout.ids cpu_gets [] cpu_is cpu_cls obj slot refl (layout_of-IsWellFormed cpu).tables
        has copied refl

  -- With an open handle that has fetched the ids of `Cpu`, and two beans that hold the members of two
  -- structs: the call computes with these members, and fills the percentages' bean with what it
  -- computes.
  pub cpu_percentage-read :
      (laws : IsJvm jvm) (env : ℕ) (cls cpu_cls : Class) (is cpu_is : List FieldId)
      (calc : List (Bytes × Value) → List (Bytes × Value) → Struct jvm) (p c : Struct jvm)
      (prev curr obj : Object) (w : World jvm native) (jsysm : JniSysm jvm native)
      → w.pointer ≡ some jsysm
      → (jsysm.open_status == sysm_ok) ≡ true
      → get_elem? jsysm.fields cpu_layout.index ≡ some (some (cache_of jvm cpu_cls cpu_is))
      → HasIds jvm cpu_cls cpu_layout.ids cpu_is
      → All (IsCopied jvm cpu_cls (field_name cpu) p prev) cpu_gets
      → All (IsCopied jvm cpu_cls (field_name cpu) c curr) cpu_gets
      → HasIds jvm cls cpu_percentage_layout.ids is
      → IsReady jvm cls cpu_percentage_layout is jsysm.fields
      → (o : Outcome (World jvm native) Object) × (cpu_percentage_gather jvm native env cls calc
            prev curr obj w
          ≡ some o)
        × (o.thrown ≡ none)
        × All
            (IsCopied jvm cls
              (field_name cpu_percentage)
              (calc (members jvm p cpu_gets) (members jvm c cpu_gets))
              o.value)
            cpu_percentage_layout.sets
  unfolding cpu_percentage_gather with_sysm with_pointer percentage_body fill_bean
  cpu_percentage-read laws env cls cpu_cls is cpu_is calc p c prev curr obj w jsysm at opened slot
        cpu_has prev_is curr_is has ready =
      let (result, ran, filled) =
        fill-IsFilled jvm laws cls (field_name cpu_percentage) cpu_percentage_layout is jsysm.fields
          (calc (members jvm p cpu_gets) (members jvm c cpu_gets)) obj
          (layout_of-IsWellFormed cpu_percentage) has ready in
      let entries = new_entries jvm native (get_elem? jsysm.fields cpu_percentage_layout.index) in
      (
        record {
          world = record w {
            pointer = some (record jsysm { env = env; fields = result.0 });
            refs = w.refs + entries;
            blocks = w.blocks + 2 * entries;
          };
          value = result.1;
          thrown = none;
        },
        rw
            (
              at,
              opened,
              reads_cpu jsysm.fields cpu_cls cpu_is p prev slot cpu_has prev_is,
              reads_cpu jsysm.fields cpu_cls cpu_is c curr slot cpu_has curr_is,
              ran,
            )
            refl,
        refl,
        filled.copied,
      )
