-- ===== src/CpuInfo.antt =====
-- The models of the CPUs in /proc/cpuinfo: `cpu_info_strval` to `sysm_cpu_info_list_get` of
-- sysm-native/src/main/sysm.c. A `char` array is the text that it holds up to its NUL; a text that
-- fills its array is taken as undefined behaviour, as its NUL stands in the next field. An `int` is
-- its 32 bits. `none` is a store outside the struct, a read of NULL, or such a text.
pub mod Model
pub mod Listing
pub mod Fuel
use jni_demo_system_monitor.Base.{
  ℕ, ◌+◌, ◌-◌, ◌*◌, ◌/◌, Bool, true, false, List, [], ◌∷◌, Option, none, some, ◌>>=◌, ltb, ◌==◌,
  if◌then◌else◌, Bytes, codes, take, length,
}
use jni_demo_system_monitor.CpuInfo.Model.{CpuInfo, cpu_model_adjust}
use jni_demo_system_monitor.Text.Number.{read_sign, scan_digits, clamp_long, atoi}
use jni_demo_system_monitor.Text.{strchr, drop_while, is_space, starts_with, str_eq, head_byte}

-- `sizeof(info->vendor)` and `sizeof(info->model)`
abbrev pub field_size : ℕ
field_size = 128

abbrev pub after_colon : Option Bytes → Option Bytes
after_colon none = none
after_colon (some []) = none
after_colon (some (c ∷ t)) = some (drop_while is_space t)

unfoldable pub cpu_info_strval : Bytes → Option Bytes
unfolding strchr drop_while is_space
cpu_info_strval ptr = after_colon (strchr b':' ptr)

-- The text without its last byte; an empty one would lose the byte before the field.
unfoldable pub chomp : Bytes → ℕ → Option Bytes
chomp ptr len =
    let slen = length ptr in
    if slen == 0 then none else if ltb slen len then some (take (slen - 1) ptr) else none

-- What is copied, `none` inside where there is no colon and nothing is.
abbrev pub strcpy_of : Option Bytes → ℕ → Option (Option Bytes)
strcpy_of none len = some none
strcpy_of (some ptr) len = chomp ptr len >>= λ t. some (some t)

unfoldable pub cpu_info_strcpy : Bytes → ℕ → Option (Option Bytes)
unfolding cpu_info_strval chomp
cpu_info_strcpy ptr len = strcpy_of (cpu_info_strval ptr) len

-- `buf[len] = '\0'` behind the vendor is the first byte of the model.
abbrev pub put_vendor : CpuInfo → Option Bytes → CpuInfo
put_vendor info none = info
put_vendor info (some t) = record info { vendor = t; model = [] }

unfoldable pub short_vendor : CpuInfo → CpuInfo
unfolding str_eq
short_vendor info =
    if str_eq info.vendor (codes "GenuineIntel")
    then record info { vendor = codes "Intel"; model = [] }
    else if str_eq info.vendor (codes "AuthenticAMD")
    then record info { vendor = codes "AMD"; model = [] }
    else info

unfoldable pub vendor_line : CpuInfo → Bytes → Option CpuInfo
unfolding cpu_info_strcpy short_vendor
vendor_line info ptr =
    cpu_info_strcpy ptr field_size >>= λ copied. some (short_vendor (put_vendor info copied))

-- `buf[len] = '\0'` behind the model is the low byte of `mhz`.
abbrev pub put_model : CpuInfo → Option Bytes → CpuInfo
put_model info none = info
put_model info (some t) = record info { model = t; mhz = info.mhz / 256 * 256 }

unfoldable pub model_line : CpuInfo → Bytes → Option CpuInfo
unfolding cpu_info_strcpy cpu_model_adjust
model_line info ptr =
    cpu_info_strcpy ptr field_size >>= λ copied. cpu_model_adjust (put_model info copied)

-- `strtol` in base 10, as 64 bits.
unfoldable pub strtol : Bytes → ℕ
unfolding read_sign scan_digits clamp_long
strtol s =
    let (negative, u) = read_sign (drop_while is_space s) in
    clamp_long negative (scan_digits 10 0 u).0

unfoldable pub number_line : CpuInfo → Bytes → Option CpuInfo
unfolding starts_with cpu_info_strval atoi strtol
number_line info ptr =
    if starts_with (codes "cpu MHz") ptr
    then (cpu_info_strval ptr >>= λ p. some (record info { mhz = atoi p }))
    else if starts_with (codes "cache size") ptr
    then (cpu_info_strval ptr >>= λ p. some (record info { cache_size = strtol p }))
    else some info

-- The switch over the first byte of a line that is not a lone newline.
unfoldable pub info_line : CpuInfo → Bytes → Option CpuInfo
unfolding starts_with vendor_line model_line number_line head_byte
info_line info ptr =
    if head_byte ptr == b'v'
    then (if starts_with (codes "vendor") ptr then vendor_line info ptr else some info)
    else if head_byte ptr == b'f'
    then (if starts_with (codes "family") ptr then model_line info ptr else some info)
    else if head_byte ptr == b'm'
    then (if starts_with (codes "model name") ptr then model_line info ptr else some info)
    else if head_byte ptr == b'c'
    then number_line info ptr
    else some info

-- The loop over the lines that `fgets` delivers, with `found`: whether there is a processor, the
-- struct, and the lines that are left.
unfoldable pub info_lines : Bool → CpuInfo → List Bytes → Option (Bool × CpuInfo × List Bytes)
unfolding info_line starts_with head_byte
info_lines found info [] = some (found, info, [])
info_lines found info (line ∷ lines) =
    let found' = if starts_with (codes "processor") line then true else found in
    let next = info_line info line >>= λ info'. info_lines found' info' lines in
    if head_byte line == 10 then some (found, info, lines) else next

unfoldable pub get_cpu_info : CpuInfo → List Bytes → Option (Bool × CpuInfo × List Bytes)
unfolding info_lines
get_cpu_info info lines = info_lines false (record info { mhz = 0; cache_size = 0 }) lines
