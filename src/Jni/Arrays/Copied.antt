-- ===== src/Jni/Arrays/Copied.antt =====
-- The arrays of beans that sysm-native/src/main/javasysm.c returns, and the lists it loses.
use jni_demo_system_monitor.Base.{
  ℕ, zero, suc, ◌+◌, ◌*◌, ◌≡◌, refl, sym, ◌∙◌, true, List, [], ◌∷◌, Option, none, some, ◌>>=◌,
  bind-some, if-both, ◌==◌, Bytes, All, arith, get_elem?, set, length, sysm_ok,
}
use jni_demo_system_monitor.Jni.Arrays.{
  Heap, fill_array, bean_element, array_done, array_from, beans_body, beans_get, put_bean,
}
use jni_demo_system_monitor.Jni.Fields.{Jvm, Fields, Struct, init_fields}
use jni_demo_system_monitor.Jni.Fields.Copied.{IsCopied, set_fields-IsCopied, slot_of_IsReady}
use jni_demo_system_monitor.Jni.Fields.Filled.{
  IsJvm, HasIds, IsReady, cache_of, init_fields-IsReady, get_elem?-set,
}
use jni_demo_system_monitor.Jni.Gather.{new_entries}
use jni_demo_system_monitor.Jni.Handle.{Native, Outcome, JniSysm, World, with_sysm, with_pointer}
use jni_demo_system_monitor.Jni.Layout.Matched.{IsWellFormed}
use jni_demo_system_monitor.Jni.Layout.{Layout}
use mathlib.Core.Option.{some-injective}
use mathlib.Core.Path.{subst}

module _ (jvm : Jvm) (native : Native) (heap : Heap jvm) where
  open jvm use {Class, Object, FieldId}
  open native use {Sysm}

  -- The Java machine makes every array and every object, and stores every element.
  pub record IsAmple : Type 0 where
    pub arrays : (n : ℕ) → heap.new_array n ≡ true
    pub objects : (i : ℕ) → (obj : Object) × (heap.new_object i ≡ some obj)
    pub puts : (i : ℕ) → heap.put i ≡ true

  -- A bean for each struct, in order, with its members.
  abbrev pub EachCopied :
      Class → (Bytes → Bytes) → Layout → List Object → List (Struct jvm) → Type 0
  EachCopied cls name layout (o ∷ os) (s ∷ ss) =
      All (IsCopied jvm cls name s o) layout.sets × EachCopied cls name layout os ss
  EachCopied cls name layout [] [] = Unit
  EachCopied cls name layout _ _ = zero ≡ 1

  fill_array-copied :
      (laws : IsJvm jvm) (ample : IsAmple) (cls : Class) (name : Bytes → Bytes) (layout : Layout)
      (is : List FieldId) (fields : Fields jvm) (i : ℕ) (list : List (Struct jvm))
      → IsWellFormed name layout
      → HasIds jvm cls layout.ids is
      → get_elem? fields layout.index ≡ some (some (cache_of jvm cls is))
      → (objs : List Object) × (fill_array (bean_element jvm native heap layout fields) i list
          ≡ some (some objs))
        × EachCopied cls name layout objs list
  unfolding fill_array bean_element put_bean
  fill_array-copied laws ample cls name layout is fields i [] formed has slot = ([], refl, tt)
  fill_array-copied laws ample cls name layout is fields i (s ∷ list) formed has slot =
      let (obj, made) = ample.objects i in
      let (filled, ran, copied) =
        set_fields-IsCopied jvm laws cls name layout is fields s obj formed has slot in
      let (objs, later, each) =
        fill_array-copied laws ample cls name layout is fields (suc i) list formed has slot in
      (filled ∷ objs, rw (made, ran, ample.puts i, later) refl, (copied, each))

  -- On a Java machine that keeps what is stored and has the memory, with an open handle, where the
  -- library lists its structs and the bean's tables are well formed, with the fields in its class and
  -- a slot that is NULL or has their ids: the call returns a bean for each struct, in the list's order, with every member copied, throws
  -- nothing, and destroys the list.
  pub beans_get-copied :
      (laws : IsJvm jvm) (ample : IsAmple) (layout : Layout) (env : ℕ) (cls : Class)
      (name : Bytes → Bytes) (is : List FieldId) (get : Sysm → ℕ × List (Struct jvm) × Sysm)
      (w : World jvm native) (jsysm : JniSysm jvm native)
      → w.pointer ≡ some jsysm
      → (jsysm.open_status == sysm_ok) ≡ true
      → ((get jsysm.sysm).0 == sysm_ok) ≡ true
      → IsWellFormed name layout
      → HasIds jvm cls layout.ids is
      → IsReady jvm cls layout is jsysm.fields
      → (objs : List Object) × (o : Outcome (World jvm native) (Option (List Object))) × (beans_get
            jvm native heap layout env cls get w
          ≡ some o)
        × (o.value ≡ some objs)
        × (o.thrown ≡ none)
        × (o.world.blocks
            ≡ w.blocks + 2 * new_entries jvm native (get_elem? jsysm.fields layout.index))
        × EachCopied cls name layout objs (get jsysm.sysm).1
  unfolding beans_get with_sysm with_pointer beans_body array_from
  beans_get-copied laws ample layout env cls name is get w jsysm at opened ok formed has ready =
      let held = slot_of_IsReady jvm cls layout is jsysm.fields ready in
      let cache = some (cache_of jvm cls is) in
      let fields = set jsysm.fields layout.index cache in
      let (objs, filled, each) =
        fill_array-copied laws ample cls name layout is fields 0 (get jsysm.sysm).1 formed has
          (get_elem?-set jsysm.fields layout.index held.0 cache held.1) in
      let entries = new_entries jvm native (get_elem? jsysm.fields layout.index) in
      (
        objs,
        array_done jvm native heap
            (record w {
              pointer =
                  some (record jsysm { env = env; sysm = (get jsysm.sysm).2; fields = fields });
              refs = w.refs + entries;
              blocks = suc (w.blocks + 2 * entries);
            })
            (some objs),
        rw
            (
              at,
              opened,
              ok,
              init_fields-IsReady jvm cls name layout is jsysm.fields formed has ready,
              ample.arrays (length (get jsysm.sysm).1),
              filled,
            )
            refl,
        refl,
        refl,
        omega arith,
        each,
      )

  abbrev pub lost : Option (List Object) → ℕ
  lost none = 1
  lost (some objs) = 0

  abbrev LeavesLost : ℕ → Option (Outcome (World jvm native) (Option (List Object))) → Type 0
  LeavesLost blocks call =
      (o : Outcome (World jvm native) (Option (List Object)))
      → call ≡ some o
      → o.world.blocks ≡ blocks + lost o.value

  array_done-lost :
      (w : World jvm native) (made : Option (List Object)) (blocks : ℕ)
      → w.blocks ≡ suc blocks
      → (array_done jvm native heap w made).world.blocks
        ≡ blocks + lost (array_done jvm native heap w made).value
  array_done-lost w none blocks e = omega (arith, e)
  array_done-lost w (some objs) blocks e = omega (arith, e)

  array_from-lost :
      (element : ℕ → Struct jvm → Option (Option Object)) (w : World jvm native)
      (list : List (Struct jvm)) (blocks : ℕ)
      → w.blocks ≡ suc blocks
      → LeavesLost blocks (array_from jvm native heap element w list)
  unfolding array_from
  array_from-lost element w list blocks held =
      if-both (LeavesLost blocks) (heap.new_array (length list)) _ _
        (λ _ o e.
          let (made, _, last) =
            bind-some (fill_array element 0 list) (λ made. some (array_done jvm native heap w made))
              o e in
          subst (λ o. o.world.blocks ≡ blocks + lost o.value)
            (some-injective (array_done jvm native heap w made) o last)
            (array_done-lost w made blocks held))
        (λ _ o e.
          subst (λ o. o.world.blocks ≡ blocks + lost o.value)
            (some-injective (array_done jvm native heap w none) o e)
            (array_done-lost w none blocks held))

  -- With an open handle, where the library lists its structs: however the call ends, one block more
  -- than the ids' is left when the call returns NULL, since the list is then never destroyed, and
  -- none when it returns an array.
  pub beans_get-lost :
      (layout : Layout) (env : ℕ) (cls : Class) (get : Sysm → ℕ × List (Struct jvm) × Sysm)
      (w : World jvm native) (jsysm : JniSysm jvm native)
      (o : Outcome (World jvm native) (Option (List Object)))
      → w.pointer ≡ some jsysm
      → (jsysm.open_status == sysm_ok) ≡ true
      → ((get jsysm.sysm).0 == sysm_ok) ≡ true
      → beans_get jvm native heap layout env cls get w ≡ some o
      → o.world.blocks
        ≡ w.blocks + 2 * new_entries jvm native (get_elem? jsysm.fields layout.index) + lost o.value
  unfolding beans_get with_sysm with_pointer beans_body
  beans_get-lost layout env cls get w jsysm o at opened ok e =
      let entries = new_entries jvm native (get_elem? jsysm.fields layout.index) in
      let filled : Fields jvm → Option (Outcome (World jvm native) (Option (List Object))) =
        λ fields.
          array_from jvm native heap (bean_element jvm native heap layout fields)
            (record w {
              pointer =
                  some (record jsysm { env = env; sysm = (get jsysm.sysm).2; fields = fields });
              refs = w.refs + entries;
              blocks = suc (w.blocks + 2 * entries);
            })
            (get jsysm.sysm).1 in
      let reached : beans_get jvm native heap layout env cls get w
          ≡ (init_fields jvm layout cls jsysm.fields >>= filled) =
        rw (at, opened, ok) refl in
      let (fields, _, last) =
        bind-some (init_fields jvm layout cls jsysm.fields) filled o (sym reached ∙ e) in
      array_from-lost (bean_element jvm native heap layout fields) _ (get jsysm.sysm).1
        (w.blocks + 2 * entries) refl o last
