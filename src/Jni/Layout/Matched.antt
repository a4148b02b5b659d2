-- ===== src/Jni/Layout/Matched.antt =====
-- What joins the rows of a bean's tables in sysm-native/include/main/javasysm.h: the rows of the
-- ids and those of the setters take the slots in turn, with one type and one name for each.
use jni_demo_system_monitor.Base.{
  ℕ, zero, suc, ◌-◌, ◌≡◌, ◌<◌, refl, ap, Bool, true, false, ◌&&◌, List, [], ◌∷◌, Option, none, some,
  Bytes, if◌then◌else◌, ltb, leb, ◌==◌, length, All, arith, ltb→lt, ==_iff, Bool-cases, inl, inr,
}
use jni_demo_system_monitor.Jni.Layout.{
  JavaType, long_type, int_type, double_type, char_type, string_type, type_of, Slot, IdRow, SetRow,
  Layout, fields_max, int_array_type,
}
use jni_demo_system_monitor.Jni.Fields.{slot_number}
use jni_demo_system_monitor.Text.{str_eq}

abbrev underscore : ℕ
underscore = 95

unfoldable pub capital : Bytes → Bytes
capital [] = []
capital (c ∷ t) = (if leb 97 c then c - 32 else c) ∷ t

-- The camel case of a name: `used_percent` becomes `usedPercent`.
unfoldable pub camel_case : Bytes → Bytes
unfolding capital
camel_case [] = []
camel_case (c ∷ t) = let rest = camel_case t in if c == underscore then capital rest else c ∷ rest

-- The tables' rows match where, from slot `k` on, every id and every setter has the next slot, the
-- field's signature is the setter's type, and its name is that of the member.
pub record RowsMatch (slots : List Slot) (name : Bytes → Bytes) (k : ℕ) (d : IdRow) (r : SetRow)
    : Type 0 where
  pub id_slot : slot_number slots d.label ≡ some k
  pub set_slot : slot_number slots r.label ≡ some k
  pub one_type : d.signature ≡ type_of r.setter
  pub one_name : d.name ≡ name r.member

-- No row of the ids has the name.
abbrev pub IsFresh : Bytes → List IdRow → Type 0
IsFresh name ds = All (λ e. str_eq name e.name ≡ false) ds

abbrev pub TablesMatch : List Slot → (Bytes → Bytes) → ℕ → List IdRow → List SetRow → Type 0
TablesMatch slots name k (d ∷ ds) (r ∷ rs) =
    RowsMatch slots name k d r × IsFresh d.name ds × TablesMatch slots name (suc k) ds rs
TablesMatch slots name k [] [] = Unit
TablesMatch slots name k _ _ = zero ≡ 1

-- The slot of `fields` and those of the ids are in their arrays.
pub record IsWellFormed (name : Bytes → Bytes) (layout : Layout) : Type 0 where
  pub index_bound : layout.index < fields_max
  pub id_for_each : length layout.ids ≡ layout.max
  pub tables : TablesMatch layout.slots name 0 layout.ids layout.sets

-- The same, as tests.
unfoldable pub same_type : JavaType → JavaType → Bool
same_type long_type long_type = true
same_type int_type int_type = true
same_type double_type double_type = true
same_type char_type char_type = true
same_type string_type string_type = true
same_type int_array_type int_array_type = true
same_type _ _ = false

unfoldable is_slot : ℕ → Option ℕ → Bool
is_slot k none = false
is_slot k (some n) = n == k

unfoldable rows_test : List Slot → (Bytes → Bytes) → ℕ → IdRow → SetRow → Bool
unfolding is_slot same_type slot_number str_eq
rows_test slots name k d r =
    is_slot k (slot_number slots d.label)
    && (is_slot k (slot_number slots r.label)
        && (same_type d.signature (type_of r.setter) && str_eq d.name (name r.member)))

unfoldable fresh_test : Bytes → List IdRow → Bool
unfolding str_eq
fresh_test name [] = true
fresh_test name (e ∷ ds) =
    let rest = fresh_test name ds in if str_eq name e.name then false else rest

unfoldable tables_test : List Slot → (Bytes → Bytes) → ℕ → List IdRow → List SetRow → Bool
unfolding rows_test fresh_test
tables_test slots name k (d ∷ ds) (r ∷ rs) =
    rows_test slots name k d r && (fresh_test d.name ds && tables_test slots name (suc k) ds rs)
tables_test slots name k [] [] = true
tables_test slots name k _ _ = false

unfoldable pub layout_test : (Bytes → Bytes) → Layout → Bool
unfolding tables_test
layout_test name layout =
    ltb layout.index fields_max
    && ((length layout.ids == layout.max) && tables_test layout.slots name 0 layout.ids layout.sets)

both-true : (a b : Bool) → (a && b) ≡ true → (a ≡ true) × (b ≡ true)
both-true true b e = (refl, e)
both-true false b e = absurd (ground arith)

pub str_eq→≡ : (s t : Bytes) → str_eq s t ≡ true → s ≡ t
unfolding str_eq
str_eq→≡ [] [] e = refl
str_eq→≡ (x ∷ s) (y ∷ t) e =
    let (head, tail) = both-true (x == y) (str_eq s t) e in
    rw ((==_iff x y).0 head) (ap (◌∷◌ y) (str_eq→≡ s t tail))
str_eq→≡ [] (y ∷ t) e = absurd (ground arith)
str_eq→≡ (x ∷ s) [] e = absurd (ground arith)

same_type→≡ : (a b : JavaType) → same_type a b ≡ true → a ≡ b
unfolding same_type
same_type→≡ a b e = ground arith

is_slot→≡ : (k : ℕ) (o : Option ℕ) → is_slot k o ≡ true → o ≡ some k
unfolding is_slot
is_slot→≡ k o e = ground arith

rows_test_lem :
    (slots : List Slot) (name : Bytes → Bytes) (k : ℕ) (d : IdRow) (r : SetRow)
    → rows_test slots name k d r ≡ true
    → RowsMatch slots name k d r
unfolding rows_test
rows_test_lem slots name k d r e =
    let id = is_slot k (slot_number slots d.label) in
    let set = is_slot k (slot_number slots r.label) in
    let type = same_type d.signature (type_of r.setter) in
    let names = str_eq d.name (name r.member) in
    let (first, rest) = both-true id (set && (type && names)) e in
    let (second, rest') = both-true set (type && names) rest in
    let (third, fourth) = both-true type names rest' in
    record {
      id_slot = is_slot→≡ k (slot_number slots d.label) first;
      set_slot = is_slot→≡ k (slot_number slots r.label) second;
      one_type = same_type→≡ d.signature (type_of r.setter) third;
      one_name = str_eq→≡ d.name (name r.member) fourth;
    }

fresh_test_lem : (name : Bytes) (ds : List IdRow) → fresh_test name ds ≡ true → IsFresh name ds
unfolding fresh_test
fresh_test_lem name [] e = tt
fresh_test_lem name (d ∷ ds) e = elim (Bool-cases (str_eq name d.name)) [
  | inl same ↦ absurd (ground arith)
  | inr other ↦ (other, fresh_test_lem name ds (ground arith))
]

tables_test_lem :
    (slots : List Slot) (name : Bytes → Bytes) (k : ℕ) (ds : List IdRow) (rs : List SetRow)
    → tables_test slots name k ds rs ≡ true
    → TablesMatch slots name k ds rs
unfolding tables_test
tables_test_lem slots name k [] [] e = tt
tables_test_lem slots name k (d ∷ ds) (r ∷ rs) e =
    let later = tables_test slots name (suc k) ds rs in
    let (row, rest) = both-true (rows_test slots name k d r) (fresh_test d.name ds && later) e in
    let (fresh, tail) = both-true (fresh_test d.name ds) later rest in
    (
      rows_test_lem slots name k d r row,
      fresh_test_lem d.name ds fresh,
      tables_test_lem slots name (suc k) ds rs tail,
    )
tables_test_lem slots name k [] (r ∷ rs) e = absurd (ground arith)
tables_test_lem slots name k (d ∷ ds) [] e = absurd (ground arith)

-- Tables that pass the tests are well formed.
pub layout_test_lem :
    (name : Bytes → Bytes) (layout : Layout)
    → layout_test name layout ≡ true
    → IsWellFormed name layout
unfolding layout_test
layout_test_lem name layout e =
    let tables = tables_test layout.slots name 0 layout.ids layout.sets in
    let counts = length layout.ids == layout.max in
    let (bound, rest) = both-true (ltb layout.index fields_max) (counts && tables) e in
    let (count, match) = both-true counts tables rest in
    record {
      index_bound = ltb→lt layout.index fields_max bound;
      id_for_each = (==_iff (length layout.ids) layout.max).0 count;
      tables = tables_test_lem layout.slots name 0 layout.ids layout.sets match;
    }
