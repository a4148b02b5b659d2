-- ===== src/Jni/Layout.antt =====
-- The tables of sysm-native/include/main/javasysm.h that join the fields of a Java bean with the
-- members of a C struct: a bean has a slot of `jsysm->fields`, and each of its Java fields a slot
-- of the bean's `ids`. A label is a macro's name behind JSYSM_FIELDS_, without the bean's own part.
pub mod Machine
pub mod Process
pub mod Resource
pub mod Interface
pub mod Network
pub mod Bean
pub mod Matched
pub mod Declared
pub mod Named
use Prim.Native.String.{String}
use jni_demo_system_monitor.Base.{ℕ, List, Bytes, codes}

-- The signatures "J", "I", "D", "C", "Ljava/lang/String;" and "[I".
pub data JavaType : Type 0 where
  long_type int_type double_type char_type string_type int_array_type : JavaType

-- The JNI's `SetLongField` to `SetCharField`, and the two macros above them, which make a Java
-- string of a C string or of an address.
pub data Setter : Type 0 where
  set_long set_int set_double set_char set_string set_net_address : Setter

-- The type of field that a setter writes.
abbrev pub type_of : Setter → JavaType
type_of set_long = long_type
type_of set_int = int_type
type_of set_double = double_type
type_of set_char = char_type
type_of set_string = string_type
type_of set_net_address = string_type

-- `#define JSYSM_FIELDS_<BEAN>_<LABEL> <number>`
pub record Slot : Type 0 where
  pub label : Bytes
  pub number : ℕ

-- `ids[<label>] = JENV->GetFieldID(env, cls, <name>, <signature>)`
pub record IdRow : Type 0 where
  pub label : Bytes
  pub name : Bytes
  pub signature : JavaType

-- `JENV-><setter>(env, obj, ids[<label>], s.<member>)`
pub record SetRow : Type 0 where
  pub setter : Setter
  pub label : Bytes
  pub member : Bytes

pub record Layout : Type 0 where
  pub index : ℕ
  pub slots : List Slot
  pub max : ℕ
  pub ids : List IdRow
  pub sets : List SetRow

abbrev pub slot : String → ℕ → Slot
slot label number = record { label = codes label; number = number }

abbrev pub id_row : String → String → JavaType → IdRow
id_row label name signature = record {
  label = codes label;
  name = codes name;
  signature = signature;
}

abbrev pub set_row : Setter → String → String → SetRow
set_row setter label member = record { setter = setter; label = codes label; member = codes member }

-- JSYSM_FIELDS_MAX
abbrev pub fields_max : ℕ
fields_max = 40
