-- ===== src/Jni/Fields/Copied.antt =====
-- The members that `JAVA_SYSM_SET_FIELDS` of sysm-native/include/main/javasysm.h copies.
use jni_demo_system_monitor.Base.{
  ℕ, suc, ◌≡◌, refl, sym, ap, ◌∙◌, List, [], ◌∷◌, ◌++◌, Option, none, some, ◌>>=◌, Bytes, All,
  arith, length, length-append, append_assoc, get_elem?, set, inl, inr,
}
use jni_demo_system_monitor.Jni.Fields.{
  Jvm, FieldCache, Fields, Struct, cached_id, set_rows, set_fields, fill,
}
use jni_demo_system_monitor.Jni.Fields.Filled.{
  IsJvm, somes, HasIds, IsReady, init_fields-IsReady, get_elem?-append, get_elem?-set, cache_of,
}
use jni_demo_system_monitor.Jni.Layout.{type_of, IdRow, SetRow, Layout, Slot}
use jni_demo_system_monitor.Jni.Layout.Matched.{IsFresh, TablesMatch, IsWellFormed}

module _ (jvm : Jvm) where
  open jvm use {Class, Object, FieldId, Value, get_field_id, set_field, get_field}

  -- The object after the stores of the rows.
  abbrev writes : Struct jvm → List SetRow → List FieldId → Object → Object
  writes s (r ∷ rs) (i ∷ is) obj = writes s rs is (set_field obj i (s r.setter r.member))
  writes s (r ∷ rs) [] obj = obj
  writes s [] is obj = obj

  -- The Java field of the member's name and type has the member's value.
  abbrev pub IsCopied : Class → (Bytes → Bytes) → Struct jvm → Object → SetRow → Type 0
  IsCopied cls name s obj r =
      (get_field_id cls (name r.member) (type_of r.setter) >>= λ i. some (get_field obj i))
      ≡ some (s r.setter r.member)

  set_rows-writes :
      (layout : Layout) (name : Bytes → Bytes) (fields : Fields jvm) (cache : FieldCache jvm)
      (s : Struct jvm) (k : ℕ) (ds : List IdRow) (rs : List SetRow) (done : List (Option FieldId))
      (is : List FieldId) (cls : Class) (obj : Object)
      → get_elem? fields layout.index ≡ some (some cache)
      → cache.ids ≡ done ++ somes is
      → TablesMatch layout.slots name k ds rs
      → HasIds jvm cls ds is
      → length done ≡ k
      → set_rows jvm layout fields s rs obj ≡ some (writes s rs is obj)
  unfolding set_rows cached_id
  set_rows-writes layout name fields cache s k [] [] done [] cls obj slot ids match has at = refl
  set_rows-writes layout name fields cache s k (d ∷ ds) (r ∷ rs) done (i ∷ is) cls obj slot ids
        match has at =
      rw (slot, match.0.set_slot, ids, sym at, get_elem?-append done (somes is) (some i))
        (set_rows-writes layout name fields cache s (suc k) ds rs (done ++ some i ∷ []) is cls
          (set_field obj i (s r.setter r.member)) slot
          (ids ∙ sym (append_assoc done (some i ∷ []) (somes is))) match.2 has.1
          (omega (arith, length-append done (some i ∷ []))))
  set_rows-writes layout name fields cache s k [] (r ∷ rs) done is cls obj slot ids match has at =
      absurd (ground arith)
  set_rows-writes layout name fields cache s k (d ∷ ds) [] done is cls obj slot ids match has at =
      absurd (ground arith)
  set_rows-writes layout name fields cache s k [] [] done (i ∷ is) cls obj slot ids match has at =
      absurd (ground arith)
  set_rows-writes layout name fields cache s k (d ∷ ds) (r ∷ rs) done [] cls obj slot ids match has
        at =
      absurd (ground arith)

  -- The later stores leave a field whose name is none of theirs.
  writes-other :
      (laws : IsJvm jvm) (cls : Class) (s : Struct jvm) (d : IdRow) (i : FieldId) (ds : List IdRow)
      (rs : List SetRow) (is : List FieldId) (obj : Object)
      → get_field_id cls d.name d.signature ≡ some i
      → IsFresh d.name ds
      → HasIds jvm cls ds is
      → get_field (writes s rs is obj) i ≡ get_field obj i
  writes-other laws cls s d i [] [] [] obj id fresh has = refl
  writes-other laws cls s d i [] (r ∷ rs) [] obj id fresh has = refl
  writes-other laws cls s d i (e ∷ ds) [] (j ∷ is) obj id fresh has = refl
  writes-other laws cls s d i (e ∷ ds) (r ∷ rs) (j ∷ is) obj id fresh has =
      writes-other laws cls s d i ds rs is (set_field obj j (s r.setter r.member)) id fresh.1 has.1
      ∙ laws.get_set_other obj j i (s r.setter r.member)
          (λ same. laws.ids_differ cls d e i j id has.0 fresh.0 (sym same))
  writes-other laws cls s d i [] rs (j ∷ is) obj id fresh has = absurd (ground arith)
  writes-other laws cls s d i (e ∷ ds) rs [] obj id fresh has = absurd (ground arith)

  IsCopied-writes :
      (laws : IsJvm jvm) (cls : Class) (slots : List Slot) (name : Bytes → Bytes) (s : Struct jvm)
      (k : ℕ) (ds : List IdRow) (rs : List SetRow) (is : List FieldId) (obj : Object)
      → TablesMatch slots name k ds rs
      → HasIds jvm cls ds is
      → All (IsCopied cls name s (writes s rs is obj)) rs
  IsCopied-writes laws cls slots name s k [] [] is obj match has = tt
  IsCopied-writes laws cls slots name s k (d ∷ ds) (r ∷ rs) (i ∷ is) obj match has =
      let row = match.0 in
      let next = set_field obj i (s r.setter r.member) in
      (
        rw
            (
              sym row.one_name,
              sym row.one_type,
              has.0,
              writes-other laws cls s d i ds rs is next has.0 match.1 has.1,
            )
            (ap some (laws.get_set obj i (s r.setter r.member))),
        IsCopied-writes laws cls slots name s (suc k) ds rs is next match.2 has.1,
      )
  IsCopied-writes laws cls slots name s k [] (r ∷ rs) is obj match has = absurd (ground arith)
  IsCopied-writes laws cls slots name s k (d ∷ ds) [] is obj match has = absurd (ground arith)
  IsCopied-writes laws cls slots name s k (d ∷ ds) (r ∷ rs) [] obj match has = absurd (ground arith)

  -- Where the ids are in the bean's slot, the setters run and every member is copied.
  pub set_fields-IsCopied :
      (laws : IsJvm jvm) (cls : Class) (name : Bytes → Bytes) (layout : Layout) (is : List FieldId)
      (fields : Fields jvm) (s : Struct jvm) (obj : Object)
      → IsWellFormed name layout
      → HasIds jvm cls layout.ids is
      → get_elem? fields layout.index ≡ some (some (cache_of jvm cls is))
      → (filled : Object) × (set_fields jvm layout fields s obj ≡ some filled)
        × All (IsCopied cls name s filled) layout.sets
  unfolding set_fields
  set_fields-IsCopied laws cls name layout is fields s obj formed has slot = (
    writes s layout.sets is obj,
    set_rows-writes layout name fields (cache_of jvm cls is) s 0 layout.ids layout.sets [] is cls
        obj slot refl formed.tables has refl,
    IsCopied-writes laws cls layout.slots name s 0 layout.ids layout.sets is obj formed.tables has,
  )

  pub slot_of_IsReady :
      (cls : Class) (layout : Layout) (is : List FieldId) (fields : Fields jvm)
      → IsReady jvm cls layout is fields
      → (slot : Option (FieldCache jvm)) × (get_elem? fields layout.index ≡ some slot)
  slot_of_IsReady cls layout is fields (inl null) = (none, null)
  slot_of_IsReady cls layout is fields (inr kept) = (some (cache_of jvm cls is), kept)

  -- What a filled bean is: the bean's slot alone has changed, to the class' ids, and every member
  -- of the tables has been copied.
  pub record IsFilled (cls : Class) (name : Bytes → Bytes) (layout : Layout) (is : List FieldId)
      (fields : Fields jvm) (s : Struct jvm) (result : Fields jvm × Object) : Type 0 where
    pub kept : result.0 ≡ set fields layout.index (some (cache_of jvm cls is))
    pub copied : All (IsCopied cls name s result.1) layout.sets

  -- With well formed tables, a class that has the fields and a slot that is NULL or has its ids, the
  -- two macros run without undefined behaviour, and the bean is filled.
  pub fill-IsFilled :
      (laws : IsJvm jvm) (cls : Class) (name : Bytes → Bytes) (layout : Layout) (is : List FieldId)
      (fields : Fields jvm) (s : Struct jvm) (obj : Object)
      → IsWellFormed name layout
      → HasIds jvm cls layout.ids is
      → IsReady jvm cls layout is fields
      → (result : Fields jvm × Object) × (fill jvm layout cls s fields obj ≡ some result)
        × IsFilled cls name layout is fields s result
  unfolding fill set_fields
  fill-IsFilled laws cls name layout is fields s obj formed has ready =
      let cache = cache_of jvm cls is in
      let after = set fields layout.index (some cache) in
      let held = slot_of_IsReady cls layout is fields ready in
      (
        (after, writes s layout.sets is obj),
        rw
            (
              init_fields-IsReady jvm cls name layout is fields formed has ready,
              set_rows-writes layout name after cache s 0 layout.ids layout.sets [] is cls obj
                  (get_elem?-set fields layout.index held.0 (some cache) held.1) refl formed.tables
                  has refl,
            )
            refl,
        record {
          kept = refl;
          copied =
              IsCopied-writes laws cls layout.slots name s 0 layout.ids layout.sets is obj
                formed.tables has;
        },
      )
