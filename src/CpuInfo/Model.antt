-- ===== src/CpuInfo/Model.antt =====
-- `sysm_cpu_info_t` of sysm-native/include/main/sysm.h and `sysm_cpu_model_adjust` of
-- sysm-native/src/main/sysm_util.c.
pub mod Fitted
use jni_demo_system_monitor.Base.{
  ℕ, ◌==◌, Bool, true, false, ◌&&◌, List, [], ◌∷◌, Option, none, some, ◌>>=◌, if◌then◌else◌, Bytes,
  codes, drop, length,
}
use jni_demo_system_monitor.Text.{drop_while, starts_with, head_byte}

pub record CpuInfo : Type 0 where
  pub vendor : Bytes
  pub model : Bytes
  pub mhz : ℕ
  pub mhz_max : ℕ
  pub mhz_min : ℕ
  pub cache_size : ℕ
  pub total_sockets : ℕ
  pub total_cores : ℕ
  pub cores_per_socket : ℕ

-- `cpu_models`: a name and what replaces it.
abbrev pub cpu_models : List (Bytes × Bytes)
cpu_models =
    (codes "Xeon", codes "Xeon")
    ∷ (codes "XEON", codes "Xeon")
    ∷ (codes "Pentium III", codes "Pentium III")
    ∷ (codes "Pentium II", codes "Pentium II")
    ∷ (codes "Pentium(R) III", codes "Pentium III")
    ∷ (codes "Pentium(R) 4", codes "Pentium 4")
    ∷ (codes "Pentium(R) M", codes "Pentium M")
    ∷ (codes "Pentium Pro", codes "Pentium Pro")
    ∷ (codes "Celeron", codes "Celeron")
    ∷ (codes "Opteron", codes "Opteron")
    ∷ (codes "Athlon", codes "Athlon")
    ∷ (codes "Duron", codes "Duron")
    ∷ (codes "K6(tm)-III", codes "K6 III")
    ∷ (codes "K6(tm) 3D+", codes "K6 3D+")
    ∷ []

abbrev pub is_blank : ℕ → Bool
is_blank c = c == b' '

abbrev pub keep_byte : ℕ → Option Bytes → Option Bytes
keep_byte c none = if is_blank c then none else some (c ∷ [])
keep_byte c (some t) = some (c ∷ t)

-- `while (*end == ' ') *end-- = '\0';`: an empty text, or one of spaces only, is left at its start.
unfoldable pub trim_end : Bytes → Option Bytes
trim_end [] = none
trim_end (c ∷ s) = keep_byte c (trim_end s)

-- The vendor in front, with an "(R)", and the spaces behind it.
unfoldable pub drop_vendor : Bytes → Bytes → Bytes
unfolding starts_with drop_while
drop_vendor vendor ptr =
    let behind = drop (length vendor) ptr in
    let unmarked = if starts_with (codes "(R)") behind then drop 3 behind else behind in
    if starts_with vendor ptr then drop_while is_blank unmarked else ptr

unfoldable pub drop_dash : Bytes → Bytes
unfolding head_byte
drop_dash ptr = if head_byte ptr == b'-' then drop 1 ptr else ptr

-- The first entry that the text starts with, or the text.
unfoldable pub replace_model : List (Bytes × Bytes) → Bytes → Bytes
unfolding starts_with
replace_model [] ptr = ptr
replace_model ((name, rname) ∷ models) ptr =
    let rest = replace_model models ptr in if starts_with name ptr then rname else rest

-- What is left of a trimmed model.
unfoldable pub name_of : CpuInfo → Bytes → Bytes
unfolding drop_vendor drop_dash replace_model drop_while
name_of info model =
    replace_model cpu_models (drop_dash (drop_vendor info.vendor (drop_while is_blank model)))

unfoldable pub cpu_model_adjust : CpuInfo → Option CpuInfo
unfolding trim_end name_of
cpu_model_adjust info =
    trim_end info.model >>= λ model. some (record info { model = name_of info model })
