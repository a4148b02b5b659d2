-- ===== src/Disk/Devices.antt =====
-- `sysm_iodev_get` of sysm-native/src/main/sysm_util.c: the device of a directory or of a name, kept
-- in the cache `sysm->fsdev`. `stat` is a parameter: the id that SYSM_FSDEV_ID makes of what it finds.
-- The values of the cache are blocks, which the callers change in place: here their first state.
-- `none` is a store behind an array.
use jni_demo_system_monitor.Base.{
  ℕ, ◌-◌, Bool, true, false, List, [], ◌∷◌, ◌++◌, ◌⊎◌, inl, inr, Option, none, some, ◌>>=◌, ◌==◌,
  if◌then◌else◌, Bytes, codes, take, length,
}
use jni_demo_system_monitor.Cache.Chain.{value_of}
use jni_demo_system_monitor.Cache.Table.{view}
use jni_demo_system_monitor.Cache.{Cache, Effect, cache_new, cache_get, set_value}
use jni_demo_system_monitor.FsType.Mounts.{
  Mntent, Mounted, file_system_list_get, strcpy_to, fs_name_len,
}
use jni_demo_system_monitor.FsType.{local_disk, kind_code}
use jni_demo_system_monitor.GrowList.{items}
use jni_demo_system_monitor.Text.{starts_with, head_byte}

-- The fields of a new `sysm_iodev_t` that are not 0.
pub record Device : Type 0 where
  pub name : Bytes
  pub is_partition : Bool

-- `sizeof(iodev->name)`
abbrev pub device_name_size : ℕ
device_name_size = 256

abbrev pub name_is_dev : Bytes → Bool
name_is_dev name = starts_with (codes "/dev/") name

-- The path that is looked up, cut by `snprintf`, and whether it is a device's.
unfoldable pub device_path : Bytes → Bytes × Bool
unfolding starts_with head_byte
device_path dirname =
    let prefixed = take (fs_name_len - 1) (codes "/dev/" ++ dirname) in
    if head_byte dirname == b'/' then (dirname, name_is_dev dirname) else (prefixed, true)

-- The cache, and the pointer `entry`: it leads to the entry of its id in the table, or to one that a
-- rehash has lost, with its value.
pub record Found : Type 0 where
  pub cache : Cache Device
  pub stray : Option (Option Device)

-- Whether a call of the cache has lost the entry of `id`.
abbrev pub after_get : ℕ → Found → Effect Device → Found
after_get id f effect = elim f.stray [
  | none ↦ record { cache = effect.cache; stray = value_of id effect.lost }
  | some value ↦ record { cache = effect.cache; stray = some value }
]

module _ (now : ℕ) (stat : Bytes → Option ℕ) where
  -- `ent->value = iodev`, for a device's name.
  unfoldable pub put_device : ℕ → Bytes → Found → Option Found
  unfolding strcpy_to set_value
  put_device key name f = strcpy_to device_name_size name >>= λ copied.
      some
        (record f { cache = set_value f.cache key (record { name = copied; is_partition = true }) })

  -- The body of the loop for a file system on a local disk that `stat` finds.
  unfoldable pub cache_mount : ℕ → Bytes → ℕ → Found → Option Found
  unfolding cache_get put_device starts_with
  cache_mount id dev_name key f =
      let (effect, value) = cache_get now now f.cache key in
      let found = after_get id f effect in
      elim value [
        | some device ↦ some found
        | none ↦ if name_is_dev dev_name then put_device key dev_name found else some found
      ]

  unfoldable pub mounted_step : ℕ → Mounted → Found → Option Found
  unfolding cache_mount
  mounted_step id m f =
      let local = kind_code m.system.type == kind_code local_disk in
      elim (stat m.dir_name) [
        | none ↦ some f
        | some key ↦ if local then cache_mount id m.dev_name key f else some f
      ]

  unfoldable pub mounted_steps : ℕ → List Mounted → Found → Option Found
  unfolding mounted_step
  mounted_steps id [] f = some f
  mounted_steps id (m ∷ ms) f = mounted_step id m f >>= mounted_steps id ms

  -- `entry->value`
  abbrev pub entry_value : ℕ → Found → Option Device
  entry_value id f = elim f.stray [
    | some value ↦ value
    | none ↦ elim (view f.cache id) [ some value ↦ value | none ↦ none ]
  ]

  abbrev pub with_name : Option Device → Option Device
  with_name none = none
  with_name (some device) = if length device.name == 0 then none else some device

  -- A directory: all mounts are looked at.
  unfoldable pub directory_device :
      ℕ ⊎ List Mntent → ℕ → Found → Option (Cache Device × Option Device)
  unfolding mounted_steps file_system_list_get items
  directory_device mounts id f = file_system_list_get mounts >>= λ listed. elim listed [
    | inl errno ↦ some (f.cache, none)
    | inr l ↦ mounted_steps id (items l) f >>= λ g. some (g.cache, with_name (entry_value id g))
  ]

  -- A device: its entry gets a block of its own.
  unfoldable pub own_device : ℕ → Bytes → Found → Option (Cache Device × Option Device)
  unfolding strcpy_to set_value
  own_device id path f = strcpy_to device_name_size path >>= λ copied.
      let device : Device = record { name = copied; is_partition = false } in
      some (set_value f.cache id device, some device)

  -- The new `sysm->fsdev` and the device that is returned, `none` for NULL.
  unfoldable pub iodev_get :
      ℕ ⊎ List Mntent → Option (Cache Device) → Bytes → Option (Cache Device × Option Device)
  unfolding device_path cache_get directory_device own_device
  iodev_get mounts fsdev dirname =
      let cache : Cache Device = elim fsdev [ none ↦ cache_new 15 now | some c ↦ c ] in
      let (path, is_dev) = device_path dirname in
      elim (stat path) [
        | none ↦ some (cache, none)
        | some id ↦
            let (effect, value) = cache_get now now cache id in
            let found : Found = record { cache = effect.cache; stray = none } in
            elim value [
              | some device ↦ some (effect.cache, some device)
              | none ↦ if is_dev then own_device id path found else directory_device mounts id found
            ]
      ]
