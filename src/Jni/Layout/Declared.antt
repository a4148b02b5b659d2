-- ===== src/Jni/Layout/Declared.antt =====
-- What a Java class of sysm-jni/src/main/java/edu/scut/cs/hbdc/sysm/bean declares: the names and
-- types of its fields, but for the static ones, which `GetFieldID` does not find.
pub mod Machine
pub mod Process
pub mod Resource
use Prim.Native.String.{String}
use jni_demo_system_monitor.Base.{
  Bool, true, false, ◌&&◌, List, [], ◌∷◌, Bytes, codes, if◌then◌else◌,
}
use jni_demo_system_monitor.Jni.Layout.{JavaType, IdRow}
use jni_demo_system_monitor.Jni.Layout.Matched.{same_type}
use jni_demo_system_monitor.Text.{str_eq}

pub record JavaField : Type 0 where
  pub name : Bytes
  pub type : JavaType

abbrev pub field : String → JavaType → JavaField
field name type = record { name = codes name; type = type }

-- Whether `GetFieldID` finds the field of a row.
unfoldable pub is_declared : List JavaField → IdRow → Bool
unfolding str_eq same_type
is_declared [] d = false
is_declared (f ∷ fs) d =
    let rest = is_declared fs d in
    if str_eq f.name d.name && same_type f.type d.signature then true else rest

-- The rows that it does not find.
unfoldable pub undeclared : List JavaField → List IdRow → List IdRow
unfolding is_declared
undeclared fs [] = []
undeclared fs (d ∷ ds) = let rest = undeclared fs ds in if is_declared fs d then rest else d ∷ rest
