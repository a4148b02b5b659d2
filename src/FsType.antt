-- ===== src/FsType.antt =====
-- The kind of a file system from its type's name: `sysm_os_fs_type_get`, `sysm_common_fs_type_get`
-- and `sysm_fs_type_get` of sysm-native/src/main/sysm.c.
pub mod Names
pub mod Mounts
use jni_demo_system_monitor.Base.{
  ℕ, Bool, true, false, ◌||◌, [], ◌∷◌, leb, ◌==◌, if◌then◌else◌, Bytes, codes,
}
use jni_demo_system_monitor.Text.{starts_with, str_eq, head_byte}

pub data FsKind : Type 0 where
  unknown none_kind local_disk network ram_disk cdrom swap : FsKind

-- The value of the enumeration; SYSM_FSTYPE_MAX is 7.
abbrev pub kind_code : FsKind → ℕ
kind_code unknown = 0
kind_code none_kind = 1
kind_code local_disk = 2
kind_code network = 3
kind_code ram_disk = 4
kind_code cdrom = 5
kind_code swap = 6

abbrev pub fstype_max : ℕ
fstype_max = 7

-- `fstype_names`.
unfoldable pub kind_name : FsKind → Bytes
kind_name unknown = codes "unknown"
kind_name none_kind = codes "none"
kind_name local_disk = codes "local"
kind_name network = codes "remote"
kind_name ram_disk = codes "ram"
kind_name cdrom = codes "cdrom"
kind_name swap = codes "swap"

pub record FileSystem : Type 0 where
  pub type : FsKind
  pub type_name : Bytes
  pub sys_type_name : Bytes

-- What a function leaves in `fsp->type`, which it also returns.
unfoldable pub common_fs_type_get : Bytes → FsKind → FsKind
common_fs_type_get type old =
    let c = head_byte type in
    if c == b'n'
    then (if starts_with (codes "nfs") type then network else old)
    else if c == b's'
    then (if str_eq (codes "smbfs") type
        then network
        else if str_eq (codes "swap") type
        then swap
        else old)
    else if c == b'a'
    then (if str_eq (codes "afs") type then network else old)
    else if c == b'i'
    then (if str_eq (codes "iso9660") type then cdrom else old)
    else if c == b'c'
    then (if str_eq (codes "cvfs") type
        then local_disk
        else if str_eq (codes "cifs") type
        then network
        else old)
    else if c == b'm'
    then (if str_eq (codes "msdos") type || str_eq (codes "minix") type then local_disk else old)
    else if c == b'h'
    then (if str_eq (codes "hpfs") type then local_disk else old)
    else if c == b'v'
    then (if str_eq (codes "vxfs") type
        then local_disk
        else if str_eq (codes "vfat") type
        then local_disk
        else old)
    else if c == b'z'
    then (if str_eq (codes "zfs") type then local_disk else old)
    else old

unfoldable pub os_fs_type_get : Bytes → FsKind → FsKind
os_fs_type_get type old =
    let c = head_byte type in
    if c == b'e'
    then (if starts_with (codes "ext") type then local_disk else old)
    else if c == b'g'
    then (if str_eq (codes "gfs") type then local_disk else old)
    else if c == b'h'
    then (if str_eq (codes "hpfs") type then local_disk else old)
    else if c == b'j'
    then (if starts_with (codes "jfs") type then local_disk else old)
    else if c == b'o'
    then (if starts_with (codes "ocfs") type then local_disk else old)
    else if c == b'p'
    then (if starts_with (codes "psfs") type then local_disk else old)
    else if c == b'r'
    then (if str_eq (codes "reiserfs") type then local_disk else old)
    else if c == b'v'
    then (if str_eq (codes "vzfs") type then local_disk else old)
    else if c == b'x'
    then (if str_eq (codes "xfs") type || str_eq (codes "xiafs") type then local_disk else old)
    else old

abbrev is_set : FsKind → Bool
is_set k = if kind_code k == 0 then false else true

-- The type that the condition of `sysm_fs_type_get`, and the assignment under it, leave.
unfoldable pub settled : Bytes → FsKind → FsKind
settled type old =
    if is_set old
    then old
    else (let os = os_fs_type_get type old in
        if is_set os
        then os
        else (let common = common_fs_type_get type os in
            if is_set common then common else none_kind))

unfoldable pub fs_type_get : FileSystem → FileSystem
unfolding settled kind_name
fs_type_get fsp =
    let kind = settled fsp.sys_type_name fsp.type in
    let kind' = if leb fstype_max (kind_code kind) then none_kind else kind in
    record fsp { type = kind'; type_name = kind_name kind' }
