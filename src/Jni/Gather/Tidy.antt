-- ===== src/Jni/Gather/Tidy.antt =====
-- The gatherers of sysm-native/src/main/javasysm.c keep count of what the handle holds.
use jni_demo_system_monitor.Jni.Layout.Machine.{cpu_layout, cpu_gets, cpu_percentage_layout}
use jni_demo_system_monitor.Base.{
  ℕ, zero, suc, ◌+◌, ◌≡◌, refl, sym, ap, ◌∙◌, List, [], ◌∷◌, Option, none, some, ◌>>=◌, bind-some,
  if-both, ◌==◌, arith, sysm_ok, Bytes, get_elem?, set, ltb, length,
}
use jni_demo_system_monitor.Jni.Fields.{
  Jvm, FieldCache, Fields, Struct, fill, init_fields, init_at, set_fields, fetch_ids, store,
  get_rows,
}
use jni_demo_system_monitor.Jni.Gather.Beans.{
  gather_named, cpu_percentage_gather, pin, percentage_body,
}
use jni_demo_system_monitor.Jni.Gather.{Getter, new_entries, fill_bean, gather_body, gather}
use jni_demo_system_monitor.Jni.Handle.Tidy.{
  IsTidy, EndsTidy, bind-EndsTidy, fail-EndsTidy, with_sysm-EndsTidy, held_refs, held_blocks,
}
use jni_demo_system_monitor.Jni.Handle.{Native, Outcome, JniSysm, World, count_cached}
use jni_demo_system_monitor.Jni.Layout.{Layout}
use mathlib.Core.Option.{some-injective}

module _ (jvm : Jvm) (native : Native) where
  open jvm use {Class, Object, Value}
  open native use {Sysm}

  count_cached-set :
      (fields : Fields jvm) (i : ℕ) (cache : FieldCache jvm)
      → get_elem? fields i ≡ some none
      → count_cached jvm native (set fields i (some cache)) ≡ suc (count_cached jvm native fields)
  unfolding count_cached
  count_cached-set [] i cache null = absurd (ground arith)
  count_cached-set (none ∷ fields) zero cache null = refl
  count_cached-set (some c ∷ fields) zero cache null = absurd (ground arith)
  count_cached-set (none ∷ fields) (suc i) cache null = count_cached-set fields i cache null
  count_cached-set (some c ∷ fields) (suc i) cache null =
      ap suc (count_cached-set fields i cache null)

  store-set :
      (fields ready : Fields jvm) (i : ℕ) (x : Option (FieldCache jvm))
      → store jvm fields i x ≡ some ready
      → set fields i x ≡ ready
  unfolding store
  store-set fields ready i x =
      if-both (λ stored. stored ≡ some ready → set fields i x ≡ ready) (ltb i (length fields)) _ _
        (λ _ e. some-injective (set fields i x) ready e) (λ _ e. absurd (ground arith))

  init_at-count :
      (layout : Layout) (cls : Class) (fields : Fields jvm) (slot : Option (FieldCache jvm))
      (ready : Fields jvm)
      → get_elem? fields layout.index ≡ some slot
      → init_at jvm layout cls fields slot ≡ some ready
      → count_cached jvm native ready
        ≡ count_cached jvm native fields + new_entries jvm native (some slot)
  unfolding init_at store
  init_at-count layout cls fields (some cache) ready at e =
      omega (arith, ap (count_cached jvm native) (some-injective fields ready e))
  init_at-count layout cls fields none ready at e =
      let (cache, _, stored) =
        bind-some (fetch_ids jvm layout cls) (λ cache. store jvm fields layout.index (some cache))
          ready e in
      omega (
        arith,
        ap (count_cached jvm native) (store-set fields ready layout.index (some cache) stored),
        count_cached-set fields layout.index cache at,
      )

  -- The entries that a filled bean adds.
  fill-count :
      (layout : Layout) (cls : Class) (s : Struct jvm) (fields : Fields jvm) (obj : Object)
      (r : Fields jvm × Object)
      → fill jvm layout cls s fields obj ≡ some r
      → count_cached jvm native r.0
        ≡ count_cached jvm native fields + new_entries jvm native (get_elem? fields layout.index)
  unfolding fill init_fields
  fill-count layout cls s fields obj r e =
      let (ready, began, rest) =
        bind-some (init_fields jvm layout cls fields)
          (λ ready. set_fields jvm layout ready s obj >>= λ filled. some (ready, filled)) r e in
      let (filled, _, last) =
        bind-some (set_fields jvm layout ready s obj) (λ filled. some (ready, filled)) r rest in
      let (slot, at, stored) =
        bind-some (get_elem? fields layout.index) (init_at jvm layout cls fields) ready began in
      ap (λ r. count_cached jvm native r.0) (sym (some-injective (ready, filled) r last))
      ∙ init_at-count layout cls fields slot ready at stored
      ∙ ap (λ slot. count_cached jvm native fields + new_entries jvm native slot) (sym at)

  fill_bean-EndsTidy :
      (layout : Layout) (cls : Class) (s : Struct jvm) (w : World jvm native)
      (jsysm : JniSysm jvm native) (obj : Object)
      → w.pointer ≡ some jsysm
      → IsTidy jvm native w
      → EndsTidy jvm native (fill_bean jvm native layout cls s w jsysm obj)
  unfolding fill_bean
  fill_bean-EndsTidy layout cls s w jsysm obj at tidy =
      bind-EndsTidy jvm native (fill jvm layout cls s jsysm.fields obj) _ (λ r e.
        let more = fill-count layout cls s jsysm.fields obj r e in
        record {
          refs_held = omega (arith, tidy.refs_held ∙ ap (held_refs jvm native) at, more);
          blocks_held = omega (arith, tidy.blocks_held ∙ ap (held_blocks jvm native) at, more);
        })

  gather_body-EndsTidy :
      (layout : Layout) (cls : Class) (get : Getter jvm native) (obj : Object)
      (w : World jvm native) (jsysm : JniSysm jvm native)
      → w.pointer ≡ some jsysm
      → IsTidy jvm native w
      → EndsTidy jvm native (gather_body jvm native layout cls get obj w jsysm)
  unfolding gather_body
  gather_body-EndsTidy layout cls get obj w jsysm at tidy =
      let after = record jsysm { sysm = (get jsysm.sysm).2 } in
      let world = record w { pointer = some after } in
      let same : IsTidy jvm native world = record {
        refs_held = tidy.refs_held ∙ ap (held_refs jvm native) at;
        blocks_held = tidy.blocks_held ∙ ap (held_blocks jvm native) at;
      } in
      if-both (EndsTidy jvm native) ((get jsysm.sysm).0 == sysm_ok) _ _
        (λ _. fill_bean-EndsTidy layout cls (get jsysm.sysm).1 world after obj refl same)
        (λ _. fail-EndsTidy jvm native world after (get jsysm.sysm).0 obj refl same)

  pub gather_named-EndsTidy :
      (layout : Layout) (env : ℕ) (cls : Class) (get : Option Bytes → Getter jvm native)
      (name : Option Bytes) (obj : Object) (w : World jvm native)
      → IsTidy jvm native w
      → EndsTidy jvm native (gather_named jvm native layout env cls get name obj w)
  unfolding gather_named
  gather_named-EndsTidy layout env cls get name obj w =
      with_sysm-EndsTidy jvm native env obj
        (λ after jsysm.
          gather_body jvm native layout cls (get name) obj (pin jvm native name after) jsysm)
        w
        (λ after jsysm at held.
          gather_body-EndsTidy layout cls (get name) obj (pin jvm native name after) jsysm at
            (record { refs_held = held.refs_held; blocks_held = held.blocks_held }))

  abbrev fill_with :
      Class
      → (List (Bytes × Value) → List (Bytes × Value) → Struct jvm)
      → World jvm native
      → JniSysm jvm native
      → Object
      → List (Bytes × Value)
      → List (Bytes × Value)
      → Option (Outcome (World jvm native) Object)
  fill_with cls calc w jsysm obj before now =
      fill_bean jvm native cpu_percentage_layout cls (calc before now) w jsysm obj

  percentage_body-EndsTidy :
      (cls : Class) (calc : List (Bytes × Value) → List (Bytes × Value) → Struct jvm)
      (prev curr obj : Object) (w : World jvm native) (jsysm : JniSysm jvm native)
      → w.pointer ≡ some jsysm
      → IsTidy jvm native w
      → EndsTidy jvm native (percentage_body jvm native cls calc prev curr obj w jsysm)
  unfolding percentage_body
  percentage_body-EndsTidy cls calc prev curr obj w jsysm at held o e =
      let reading = get_rows jvm cpu_layout jsysm.fields cpu_gets in
      let (before, _, rest) =
        bind-some (reading prev) (λ before. reading curr >>= fill_with cls calc w jsysm obj before)
          o e in
      let (now, _, filled) =
        bind-some (reading curr) (fill_with cls calc w jsysm obj before) o rest in
      fill_bean-EndsTidy cpu_percentage_layout cls (calc before now) w jsysm obj at held o filled

  pub cpu_percentage-EndsTidy :
      (env : ℕ) (cls : Class) (calc : List (Bytes × Value) → List (Bytes × Value) → Struct jvm)
      (prev curr obj : Object) (w : World jvm native)
      → IsTidy jvm native w
      → EndsTidy jvm native (cpu_percentage_gather jvm native env cls calc prev curr obj w)
  unfolding cpu_percentage_gather
  cpu_percentage-EndsTidy env cls calc prev curr obj w =
      with_sysm-EndsTidy jvm native env obj (percentage_body jvm native cls calc prev curr obj) w
        (percentage_body-EndsTidy cls calc prev curr obj)

  pub gather-EndsTidy :
      (layout : Layout) (env : ℕ) (cls : Class) (get : Getter jvm native) (obj : Object)
      (w : World jvm native)
      → IsTidy jvm native w
      → EndsTidy jvm native (gather jvm native layout env cls get obj w)
  unfolding gather
  gather-EndsTidy layout env cls get obj w =
      with_sysm-EndsTidy jvm native env obj (gather_body jvm native layout cls get obj) w
        (gather_body-EndsTidy layout cls get obj)
