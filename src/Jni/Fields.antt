-- ===== src/Jni/Fields.antt =====
-- The macros `JAVA_SYSM_INIT_FIELDS_*`, `JAVA_SYSM_SET_FIELDS_*` and `JAVA_SYSM_GET_FIELDS_CPU` of
-- sysm-native/include/main/javasysm.h, which fetch the ids of a bean's Java fields once for each
-- handle, and fill a bean through them. The Java machine is a parameter. `none` is undefined
-- behaviour of C: a store outside an array, or the use of a pointer or an id that is not set.
pub mod Filled
pub mod Copied
use jni_demo_system_monitor.Base.{
  ℕ, List, [], ◌∷◌, Option, none, some, ◌>>=◌, Bytes, if◌then◌else◌, ltb, ◌==◌, length, get_elem?,
  set, replicate,
}
use jni_demo_system_monitor.Jni.Layout.{JavaType, Setter, Slot, IdRow, SetRow, Layout, fields_max}
use jni_demo_system_monitor.Text.{str_eq}

-- The calls of the JNI that these macros make. `get_field_id` is `none` where the class has no such
-- field, which leaves an exception behind.
pub record Jvm : Type 1 where
  pub Class : Type 0
  pub Object : Type 0
  pub FieldId : Type 0
  pub Value : Type 0
  pub get_field_id : Class → Bytes → JavaType → Option FieldId
  pub set_field : Object → FieldId → Value → Object
  pub get_field : Object → FieldId → Value

unfoldable pub slot_number : List Slot → Bytes → Option ℕ
unfolding str_eq
slot_number [] label = none
slot_number (s ∷ slots) label =
    let rest = slot_number slots label in if str_eq s.label label then some s.number else rest

module _ (jvm : Jvm) where
  open jvm use {Class, Object, FieldId, Value, get_field_id, set_field, get_field}

  -- `jsysm_field_cache_t`. An id that no store has reached is `none`.
  pub record FieldCache : Type 0 where
    pub classref : Class
    pub ids : List (Option FieldId)

  -- `jsysm->fields`, where `none` is NULL.
  abbrev pub Fields : Type 0
  Fields = List (Option FieldCache)

  -- The member of a C struct, as the argument that a setter gets.
  abbrev pub Struct : Type 0
  Struct = Setter → Bytes → Value

  -- A store into an array.
  unfoldable pub store {ℓ} : {A : Type ℓ} → List A → ℕ → A → Option (List A)
  store xs i a = if ltb i (length xs) then some (set xs i a) else none

  unfoldable pub init_row :
      Class → List Slot → IdRow → List (Option FieldId) → Option (List (Option FieldId))
  unfolding slot_number store
  init_row cls slots r ids = get_field_id cls r.name r.signature >>= λ id.
      slot_number slots r.label >>= λ i. store ids i (some id)

  unfoldable pub init_rows :
      Class → List Slot → List IdRow → List (Option FieldId) → Option (List (Option FieldId))
  unfolding init_row
  init_rows cls slots [] ids = some ids
  init_rows cls slots (r ∷ rows) ids = init_row cls slots r ids >>= init_rows cls slots rows

  -- The body of `JAVA_SYSM_INIT_FIELDS`' `if`. `malloc` is taken to succeed, as the source does.
  unfoldable pub fetch_ids : Layout → Class → Option FieldCache
  unfolding init_rows
  fetch_ids layout cls =
      init_rows cls layout.slots layout.ids (replicate layout.max none) >>= λ ids.
      some (record { classref = cls; ids = ids })

  unfoldable pub init_at : Layout → Class → Fields → Option FieldCache → Option Fields
  unfolding fetch_ids store
  init_at layout cls fields (some cache) = some fields
  init_at layout cls fields none =
      fetch_ids layout cls >>= λ cache. store fields layout.index (some cache)

  -- `JAVA_SYSM_INIT_FIELDS`
  unfoldable pub init_fields : Layout → Class → Fields → Option Fields
  unfolding init_at
  init_fields layout cls fields = get_elem? fields layout.index >>= init_at layout cls fields

  -- `jsysm->fields[<index>]->ids[<label>]`
  unfoldable pub cached_id : Layout → Fields → Bytes → Option FieldId
  unfolding slot_number
  cached_id layout fields label = get_elem? fields layout.index >>= λ slot.
      slot >>= λ cache. slot_number layout.slots label >>= λ i. get_elem? cache.ids i >>= λ id. id

  -- `JAVA_SYSM_SET_FIELDS`: a row after the other.
  unfoldable pub set_rows : Layout → Fields → Struct → List SetRow → Object → Option Object
  unfolding cached_id
  set_rows layout fields s [] obj = some obj
  set_rows layout fields s (r ∷ rows) obj = cached_id layout fields r.label >>= λ id.
      set_rows layout fields s rows (set_field obj id (s r.setter r.member))

  unfoldable pub set_fields : Layout → Fields → Struct → Object → Option Object
  unfolding set_rows
  set_fields layout fields s obj = set_rows layout fields s layout.sets obj

  -- `JAVA_SYSM_GET_FIELDS_CPU`: the members that the rows read, with their values.
  unfoldable pub get_rows : Layout → Fields → List SetRow → Object → Option (List (Bytes × Value))
  unfolding cached_id
  get_rows layout fields [] obj = some []
  get_rows layout fields (r ∷ rows) obj = cached_id layout fields r.label >>= λ id.
      get_rows layout fields rows obj >>= λ rest. some ((r.member, get_field obj id) ∷ rest)

  -- What every gatherer does with a struct it has filled.
  unfoldable pub fill : Layout → Class → Struct → Fields → Object → Option (Fields × Object)
  unfolding init_fields set_fields
  fill layout cls s fields obj = init_fields layout cls fields >>= λ ready.
      set_fields layout ready s obj >>= λ filled. some (ready, filled)
