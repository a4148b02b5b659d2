-- ===== src/FsType/Mounts/Listed.antt =====
-- What `sysm_file_system_list_get` of sysm-native/src/main/sysm.c lists.
use jni_demo_system_monitor.Base.{
  ◌<◌, ◌≡◌, refl, List, [], ◌∷◌, inr, some, bind-cong, lt→ltb, length, All, arith,
}
use jni_demo_system_monitor.FsType.Mounts.{
  Mntent, Mounted, fs_name_len, fs_info_len, strcpy_to, to_mounted, mount_loop,
  file_system_list_get,
}
use jni_demo_system_monitor.FsType.{unknown, fs_type_get}
use jni_demo_system_monitor.GrowList.Kinds.{file_system_list_create, file_system_list_push}
use jni_demo_system_monitor.GrowList.Push.{push_all, push_all-create}
use jni_demo_system_monitor.GrowList.{GrowList, items, create, push, fs_max}

-- The texts of an entry fit the arrays.
abbrev pub IsShort : Mntent → Type 0
IsShort ent =
    (length ent.dir < fs_name_len)
    × (length ent.fsname < fs_name_len)
    × (length ent.kind < fs_info_len)
    × (length ent.opts < fs_info_len)

pub mounted_of : Mntent → Mounted
mounted_of ent = record {
  dir_name = ent.dir;
  dev_name = ent.fsname;
  options = ent.opts;
  system = fs_type_get (record { type = unknown; type_name = []; sys_type_name = ent.kind });
}

pub mounted_all : List Mntent → List Mounted
mounted_all [] = []
mounted_all (ent ∷ ents) = mounted_of ent ∷ mounted_all ents

to_mounted-IsShort : (ent : Mntent) → IsShort ent → to_mounted ent ≡ some (mounted_of ent)
unfolding to_mounted strcpy_to mounted_of
to_mounted-IsShort ent (dir, dev, kind, opts) =
    rw
      (
        lt→ltb (length ent.dir) fs_name_len dir,
        lt→ltb (length ent.fsname) fs_name_len dev,
        lt→ltb (length ent.kind) fs_info_len kind,
        lt→ltb (length ent.opts) fs_info_len opts,
      )
      refl

mount_loop-push_all :
    (ents : List Mntent) (l : GrowList Mounted)
    → All IsShort ents
    → mount_loop ents l ≡ push_all fs_max (mounted_all ents) l
unfolding mount_loop mounted_all push_all file_system_list_push
mount_loop-push_all [] l short = refl
mount_loop-push_all (ent ∷ ents) l (one, others) =
    rw (to_mounted-IsShort ent one)
      (bind-cong (push fs_max (mounted_of ent) l) _ _ (λ l' _. mount_loop-push_all ents l' others))

-- For entries whose texts fit: `sysm_file_system_list_get` stores nothing outside its block, and
-- lists the entries in order, each with its names and with the kind that `sysm_fs_type_get` finds for
-- the name of its type.
pub file_system_list_get-mounted :
    (ents : List Mntent)
    → All IsShort ents
    → (l : GrowList Mounted) × (file_system_list_get (inr ents) ≡ some (inr l))
      × (items l ≡ mounted_all ents)
unfolding file_system_list_get file_system_list_create
file_system_list_get-mounted ents short =
    let (l, runs, all, _, _, _) = push_all-create fs_max (mounted_all ents) (omega arith) in
    (l, rw (mount_loop-push_all ents (create fs_max) short, runs) refl, all)
