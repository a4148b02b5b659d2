-- ===== src/Jni/Fields/Filled.antt =====
-- What the macros of sysm-native/include/main/javasysm.h leave in a Java bean.
use mathlib.Core.Option.{some-injective}
use jni_demo_system_monitor.Base.{
  ℕ, zero, suc, ◌≡◌, ◌≢◌, ◌<◌, refl, sym, ap, ◌∙◌, List, [], ◌∷◌, ◌++◌, Option, none, some, Bytes,
  arith, length, length-append, lt→ltb, get_elem?, set, replicate, false, ◌⊎◌, inl, inr,
  append_assoc,
}
use jni_demo_system_monitor.Jni.Fields.{
  Jvm, FieldCache, Fields, store, init_row, init_rows, fetch_ids, init_at, init_fields, slot_number,
}
use jni_demo_system_monitor.Jni.Layout.{Slot, IdRow, SetRow, Layout}
use jni_demo_system_monitor.Jni.Layout.Matched.{TablesMatch, IsWellFormed}
use jni_demo_system_monitor.Text.{str_eq}

-- What the JNI promises: a field keeps what was stored last, its id is its own, and a class has one
-- id for a name.
pub record IsJvm (jvm : Jvm) : Type 0 where
  pub get_set :
      (o : jvm.Object) (i : jvm.FieldId) (v : jvm.Value) → jvm.get_field (jvm.set_field o i v) i ≡ v
  pub get_set_other :
      (o : jvm.Object) (i j : jvm.FieldId) (v : jvm.Value)
      → i ≢ j
      → jvm.get_field (jvm.set_field o i v) j ≡ jvm.get_field o j
  pub ids_differ :
      (cls : jvm.Class) (d e : IdRow) (i j : jvm.FieldId)
      → jvm.get_field_id cls d.name d.signature ≡ some i
      → jvm.get_field_id cls e.name e.signature ≡ some j
      → str_eq d.name e.name ≡ false
      → i ≢ j

module _ {ℓ} {A : Type ℓ} where
  abbrev pub somes : List A → List (Option A)
  somes [] = []
  somes (x ∷ xs) = some x ∷ somes xs

  set-append : (xs ys : List A) (y v : A) → set (xs ++ y ∷ ys) (length xs) v ≡ xs ++ v ∷ ys
  set-append [] ys y v = refl
  set-append (x ∷ xs) ys y v = ap (◌∷◌ x) (set-append xs ys y v)

  pub get_elem?-append : (xs ys : List A) (y : A) → get_elem? (xs ++ y ∷ ys) (length xs) ≡ some y
  get_elem?-append [] ys y = refl
  get_elem?-append (x ∷ xs) ys y = get_elem?-append xs ys y

  get_elem?-bound : (xs : List A) (i : ℕ) (x : A) → get_elem? xs i ≡ some x → i < length xs
  get_elem?-bound [] i x e = absurd (ground arith)
  get_elem?-bound (y ∷ xs) zero x e = omega arith
  get_elem?-bound (y ∷ xs) (suc i) x e = omega (arith, get_elem?-bound xs i x e)

  set-same : (xs : List A) (i : ℕ) (x : A) → get_elem? xs i ≡ some x → set xs i x ≡ xs
  set-same [] i x e = refl
  set-same (y ∷ xs) zero x e = ap (λ z. z ∷ xs) (sym (some-injective y x e))
  set-same (y ∷ xs) (suc i) x e = ap (◌∷◌ y) (set-same xs i x e)

  pub get_elem?-set :
      (xs : List A) (i : ℕ) (x y : A) → get_elem? xs i ≡ some x → get_elem? (set xs i y) i ≡ some y
  get_elem?-set [] i x y e = absurd (ground arith)
  get_elem?-set (z ∷ xs) zero x y e = refl
  get_elem?-set (z ∷ xs) (suc i) x y e = get_elem?-set xs i x y e

module _ (jvm : Jvm) where
  open jvm use {Class, Object, FieldId, Value, get_field_id, set_field, get_field}

  -- A class that has a field for each row has these ids for them.
  abbrev pub HasIds : Class → List IdRow → List FieldId → Type 0
  HasIds cls (d ∷ ds) (i ∷ is) = (get_field_id cls d.name d.signature ≡ some i) × HasIds cls ds is
  HasIds cls [] [] = Unit
  HasIds cls _ _ = zero ≡ 1

  store-append :
      (xs ys : List (Option FieldId)) (y v : Option FieldId)
      → store jvm (xs ++ y ∷ ys) (length xs) v ≡ some (xs ++ v ∷ ys)
  unfolding store
  store-append xs ys y v =
      rw (lt→ltb (length xs) (length (xs ++ y ∷ ys)) (omega (arith, length-append xs (y ∷ ys))))
        (ap some (set-append xs ys y v))

  init_row-next :
      (cls : Class) (slots : List Slot) (d : IdRow) (i : FieldId) (k : ℕ)
      (xs ys : List (Option FieldId)) (y : Option FieldId)
      → get_field_id cls d.name d.signature ≡ some i
      → slot_number slots d.label ≡ some k
      → length xs ≡ k
      → init_row jvm cls slots d (xs ++ y ∷ ys) ≡ some (xs ++ some i ∷ ys)
  unfolding init_row
  init_row-next cls slots d i k xs ys y has slot at =
      rw (has, slot, sym at) (store-append xs ys y (some i))

  init_rows-HasIds :
      (cls : Class) (slots : List Slot) (name : Bytes → Bytes) (k : ℕ) (ds : List IdRow)
      (rs : List SetRow) (done : List (Option FieldId)) (is : List FieldId)
      → TablesMatch slots name k ds rs
      → HasIds cls ds is
      → length done ≡ k
      → init_rows jvm cls slots ds (done ++ replicate (length ds) none) ≡ some (done ++ somes is)
  unfolding init_rows replicate
  init_rows-HasIds cls slots name k [] [] done [] match has at = refl
  init_rows-HasIds cls slots name k (d ∷ ds) (r ∷ rs) done (i ∷ is) match has at =
      rw
        (init_row-next cls slots d i k done (replicate (length ds) none) none has.0 match.0.id_slot
          at)
        (rw (sym (append_assoc done (some i ∷ []) (replicate (length ds) none))) (
          init_rows-HasIds cls slots name (suc k) ds rs (done ++ some i ∷ []) is match.2 has.1
            (omega (arith, length-append done (some i ∷ [])))
          ∙ ap some (append_assoc done (some i ∷ []) (somes is))))
  init_rows-HasIds cls slots name k [] (r ∷ rs) done is match has at = absurd (ground arith)
  init_rows-HasIds cls slots name k (d ∷ ds) [] done is match has at = absurd (ground arith)
  init_rows-HasIds cls slots name k [] [] done (i ∷ is) match has at = absurd (ground arith)
  init_rows-HasIds cls slots name k (d ∷ ds) (r ∷ rs) done [] match has at = absurd (ground arith)

  abbrev pub cache_of : Class → List FieldId → FieldCache jvm
  cache_of cls is = record { classref = cls; ids = somes is }

  -- `fetch_ids` of well formed tables finds the ids.
  pub fetch_ids-HasIds :
      (cls : Class) (name : Bytes → Bytes) (layout : Layout) (is : List FieldId)
      → IsWellFormed name layout
      → HasIds cls layout.ids is
      → fetch_ids jvm layout cls ≡ some (cache_of cls is)
  unfolding fetch_ids
  fetch_ids-HasIds cls name layout is formed has =
      rw
        (
          sym formed.id_for_each,
          init_rows-HasIds cls layout.slots name 0 layout.ids layout.sets [] is formed.tables has
              refl,
        )
        refl

  -- The slot of `fields` is NULL, or has the ids of the class.
  abbrev pub IsReady : Class → Layout → List FieldId → Fields jvm → Type 0
  IsReady cls layout is fields =
      (get_elem? fields layout.index ≡ some none)
      ⊎ (get_elem? fields layout.index ≡ some (some (cache_of cls is)))

  store-some :
      {A : Type 0} (xs : List A) (i : ℕ) (x y : A)
      → get_elem? xs i ≡ some x
      → store jvm xs i y ≡ some (set xs i y)
  unfolding store
  store-some xs i x y e = rw (lt→ltb i (length xs) (get_elem?-bound xs i x e)) refl

  -- `JAVA_SYSM_INIT_FIELDS` leaves the ids in the bean's slot, and the others as they were.
  pub init_fields-IsReady :
      (cls : Class) (name : Bytes → Bytes) (layout : Layout) (is : List FieldId)
      (fields : Fields jvm)
      → IsWellFormed name layout
      → HasIds cls layout.ids is
      → IsReady cls layout is fields
      → init_fields jvm layout cls fields ≡ some (set fields layout.index (some (cache_of cls is)))
  unfolding init_fields init_at
  init_fields-IsReady cls name layout is fields formed has (inl null) =
      rw (null, fetch_ids-HasIds cls name layout is formed has)
        (store-some fields layout.index none (some (cache_of cls is)) null)
  init_fields-IsReady cls name layout is fields formed has (inr kept) =
      rw kept (ap some (sym (set-same fields layout.index (some (cache_of cls is)) kept)))
