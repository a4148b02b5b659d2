-- ===== src/FsType/Mounts.antt =====
-- `sysm_file_system_list_get` of sysm-native/src/main/sysm.c. What `getmntent_r` delivers is a
-- parameter; `none` is a store behind an array.
pub mod Listed
use jni_demo_system_monitor.Base.{
  ℕ, List, [], ◌∷◌, ◌⊎◌, inl, inr, Option, none, some, ◌>>=◌, ltb, if◌then◌else◌, Bytes, length,
  sysm_ok,
}
use jni_demo_system_monitor.FsType.{FileSystem, unknown, fs_type_get}
use jni_demo_system_monitor.GrowList.Kinds.{file_system_list_create, file_system_list_push}
use jni_demo_system_monitor.GrowList.{GrowList}

-- `struct mntent`
pub record Mntent : Type 0 where
  pub fsname : Bytes
  pub dir : Bytes
  pub kind : Bytes
  pub opts : Bytes

-- `sysm_file_system_t`; `system` has its three fields of the type.
pub record Mounted : Type 0 where
  pub dir_name : Bytes
  pub dev_name : Bytes
  pub options : Bytes
  pub system : FileSystem

-- SYSM_FS_NAME_LEN and SYSM_FS_INFO_LEN
abbrev pub fs_name_len : ℕ
fs_name_len = 4096

abbrev pub fs_info_len : ℕ
fs_info_len = 256

-- `strcpy` into an array of that size.
unfoldable pub strcpy_to : ℕ → Bytes → Option Bytes
strcpy_to size text = if ltb (length text) size then some text else none

-- What is stored for an entry; `sysm_fs_type_get` sets the name of the type.
unfoldable pub to_mounted : Mntent → Option Mounted
unfolding strcpy_to fs_type_get
to_mounted ent = strcpy_to fs_name_len ent.dir >>= λ dir.
    strcpy_to fs_name_len ent.fsname >>= λ dev. strcpy_to fs_info_len ent.kind >>= λ kind.
    strcpy_to fs_info_len ent.opts >>= λ opts. some (record {
      dir_name = dir;
      dev_name = dev;
      options = opts;
      system = fs_type_get (record { type = unknown; type_name = []; sys_type_name = kind });
    })

unfoldable pub mount_loop : List Mntent → GrowList Mounted → Option (GrowList Mounted)
unfolding to_mounted file_system_list_push
mount_loop [] l = some l
mount_loop (ent ∷ ents) l = to_mounted ent >>= λ m. file_system_list_push m l >>= mount_loop ents

-- The opened table of mounts is an errno or its entries.
unfoldable pub file_system_list_get : ℕ ⊎ List Mntent → Option (ℕ ⊎ GrowList Mounted)
unfolding mount_loop file_system_list_create
file_system_list_get (inl errno) = some (inl errno)
file_system_list_get (inr ents) = mount_loop ents file_system_list_create >>= λ l. some (inr l)
