-- ===== src/FsType/Names.antt =====
-- Which names of file systems are of which kind.
use jni_demo_system_monitor.Base.{
  ℕ, Bool, true, false, ◌||◌, List, [], ◌∷◌, ◌≡◌, refl, arith, ap, ◌∙◌, leb, ◌==◌, if◌then◌else◌,
  Bytes, codes, ◌<◌, ltb, ltb→lt,
}
use jni_demo_system_monitor.FsType.{
  FsKind, unknown, none_kind, local_disk, network, ram_disk, cdrom, swap, kind_code, fstype_max,
  kind_name, FileSystem, common_fs_type_get, os_fs_type_get, settled, fs_type_get,
}
use jni_demo_system_monitor.Text.{starts_with, str_eq, head_byte}

-- The test of a whole list of names, or of prefixes.
pub any_eq : List Bytes → Bytes → Bool
any_eq [] t = false
any_eq (n ∷ ns) t = str_eq n t || any_eq ns t

pub any_prefix : List Bytes → Bytes → Bool
any_prefix [] t = false
any_prefix (n ∷ ns) t = starts_with n t || any_prefix ns t

abbrev pub local_prefixes : List Bytes
local_prefixes = codes "ext" ∷ codes "jfs" ∷ codes "ocfs" ∷ codes "psfs" ∷ []

abbrev pub local_names : List Bytes
local_names =
    codes "gfs"
    ∷ codes "hpfs"
    ∷ codes "reiserfs"
    ∷ codes "vzfs"
    ∷ codes "xfs"
    ∷ codes "xiafs"
    ∷ codes "cvfs"
    ∷ codes "msdos"
    ∷ codes "minix"
    ∷ codes "vxfs"
    ∷ codes "vfat"
    ∷ codes "zfs"
    ∷ []

abbrev pub network_names : List Bytes
network_names = codes "smbfs" ∷ codes "afs" ∷ codes "cifs" ∷ []

-- The kind by one look at all names, with no regard to their first bytes.
pub classify : Bytes → FsKind
classify t =
    if any_prefix local_prefixes t || any_eq local_names t
    then local_disk
    else if starts_with (codes "nfs") t || any_eq network_names t
    then network
    else if str_eq (codes "iso9660") t
    then cdrom
    else if str_eq (codes "swap") t
    then swap
    else none_kind

str_eq-head : (x : ℕ) (s t : Bytes) → (head_byte t == x) ≡ false → str_eq (x ∷ s) t ≡ false
unfolding str_eq head_byte
str_eq-head x s [] h = refl
str_eq-head x s (c ∷ t) h = ground arith

starts_with-head :
    (x : ℕ) (s t : Bytes) → (head_byte t == x) ≡ false → starts_with (x ∷ s) t ≡ false
unfolding starts_with head_byte
starts_with-head x s [] h = refl
starts_with-head x s (c ∷ t) h = ground arith

-- A file system of unknown type gets the kind that `classify` gives its type's name.
pub settled-classify : (t : Bytes) → settled t unknown ≡ classify t
unfolding settled os_fs_type_get common_fs_type_get classify any_eq any_prefix
settled-classify t = ground (
  arith,
  starts_with-head b'e' (codes "xt") t,
  starts_with-head b'j' (codes "fs") t,
  starts_with-head b'o' (codes "cfs") t,
  starts_with-head b'p' (codes "sfs") t,
  starts_with-head b'n' (codes "fs") t,
  str_eq-head b'g' (codes "fs") t,
  str_eq-head b'h' (codes "pfs") t,
  str_eq-head b'r' (codes "eiserfs") t,
  str_eq-head b'v' (codes "zfs") t,
  str_eq-head b'x' (codes "fs") t,
  str_eq-head b'x' (codes "iafs") t,
  str_eq-head b'c' (codes "vfs") t,
  str_eq-head b'c' (codes "ifs") t,
  str_eq-head b'm' (codes "sdos") t,
  str_eq-head b'm' (codes "inix") t,
  str_eq-head b'v' (codes "xfs") t,
  str_eq-head b'v' (codes "fat") t,
  str_eq-head b'z' (codes "fs") t,
  str_eq-head b's' (codes "mbfs") t,
  str_eq-head b's' (codes "wap") t,
  str_eq-head b'a' (codes "fs") t,
  str_eq-head b'i' (codes "so9660") t,
)

-- The kind that a file system ends with: the one it has, or the one of its name.
pub resolved : FsKind → Bytes → FsKind
resolved unknown t = classify t
resolved none_kind t = none_kind
resolved local_disk t = local_disk
resolved network t = network
resolved ram_disk t = ram_disk
resolved cdrom t = cdrom
resolved swap t = swap

settled-resolved : (t : Bytes) (k : FsKind) → settled t k ≡ resolved k t
unfolding settled resolved
settled-resolved t unknown = settled-classify t
settled-resolved t none_kind = refl
settled-resolved t local_disk = refl
settled-resolved t network = refl
settled-resolved t ram_disk = refl
settled-resolved t cdrom = refl
settled-resolved t swap = refl

capped : (k : FsKind) → (if leb fstype_max (kind_code k) then none_kind else k) ≡ k
capped unknown = refl
capped none_kind = refl
capped local_disk = refl
capped network = refl
capped ram_disk = refl
capped cdrom = refl
capped swap = refl

classify-is_known : (t : Bytes) → ltb 0 (kind_code (classify t)) ≡ true
unfolding classify
classify-is_known t = ground arith

resolved-is_known : (k : FsKind) (t : Bytes) → ltb 0 (kind_code (resolved k t)) ≡ true
unfolding resolved
resolved-is_known unknown t = classify-is_known t
resolved-is_known none_kind t = refl
resolved-is_known local_disk t = refl
resolved-is_known network t = refl
resolved-is_known ram_disk t = refl
resolved-is_known cdrom t = refl
resolved-is_known swap t = refl

-- `sysm_fs_type_get` keeps a type that is set already, gives a file system of unknown type the one
-- that `classify` reads off its type's name (by whole lists of names, with no switch on the first
-- byte), never leaves it unknown, and writes the name of the type that it leaves.
pub fs_type_get_lem :
    (fsp : FileSystem)
    → ((fs_type_get fsp).type ≡ resolved fsp.type fsp.sys_type_name)
      × ((0 < kind_code ((fs_type_get fsp).type))
          × ((fs_type_get fsp).type_name ≡ kind_name (resolved fsp.type fsp.sys_type_name)))
unfolding fs_type_get
fs_type_get_lem fsp =
    let e =
      ap (λ k. if leb fstype_max (kind_code k) then none_kind else k)
        (settled-resolved fsp.sys_type_name fsp.type)
      ∙ capped (resolved fsp.type fsp.sys_type_name) in
    let known = ltb→lt 0 _ (resolved-is_known fsp.type fsp.sys_type_name) in
    (e, (rw e known, ap kind_name e))
