-- ===== src/Disk/Sys.antt =====
-- Disk counts from /sys/block: `get_iostat_sys` of sysm-native/src/main/sysm.c. The file system and
-- the text that `snprintf` makes of an `int` are parameters; `none` is a read behind the name.
use jni_demo_system_monitor.Base.{
  ℕ, ◌%◌, ◌≡◌, refl, true, false, [], ◌∷◌, ◌++◌, ◌⊎◌, inl, inr, Option, none, some, if◌then◌else◌,
  take, drop, All, Bytes, codes, u32_mod, sysm_ok,
}
use jni_demo_system_monitor.Disk.{DiskUsage, Iodev, unknown}
use jni_demo_system_monitor.Double.{Double}
use jni_demo_system_monitor.File.{Opened, file2str}
use jni_demo_system_monitor.Text.Number.{strtoul}
use jni_demo_system_monitor.Text.{is_digit, starts_with, skip_token}

unfoldable pub prepend : ℕ → Option (Bytes × Bytes) → Option (Bytes × Bytes)
prepend c none = none
prepend c (some (stem, digits)) = some (c ∷ stem, digits)

-- `while (!isdigit(*fsdev)) fsdev++`: what stands before the first digit, and the text from it on.
unfoldable pub split_digit : Bytes → Option (Bytes × Bytes)
unfolding is_digit prepend
split_digit [] = none
split_digit (c ∷ s) =
    let later = split_digit s in if is_digit c then some ([], c ∷ s) else prepend c later

abbrev pub skip_dev : Bytes → Bytes
skip_dev name = if starts_with (codes "/dev/") name then drop 5 name else name

-- The name of the file, cut to its buffer.
unfoldable pub sys_path : (ℕ → Bytes) → Bytes → ℕ → Bytes
unfolding starts_with
sys_path itoa stem partition =
    let name = skip_dev stem in
    take 1024
      (codes "/sys/block/" ++ (name ++ (codes "/" ++ (name ++ (itoa partition ++ codes "/stat")))))

module _ {d : Double} (itoa : ℕ → Bytes) (open_file : Bytes → Opened) (minus_one : d.Carrier) where
  unfoldable pub read_sys : Bytes → DiskUsage d → DiskUsage d
  unfolding skip_token
  read_sys buffer disk =
      let (reads, p1) = strtoul 10 (skip_token buffer) in
      let (writes, p2) = strtoul 10 (skip_token p1) in
      record disk {
        reads = reads;
        writes = writes;
        read_bytes = unknown;
        write_bytes = unknown;
        util = minus_one;
      }

  unfoldable pub with_stat :
      Iodev d → DiskUsage d → Option (ℕ ⊎ Bytes) → Option (ℕ × Iodev d × DiskUsage d)
  unfolding read_sys
  with_stat iodev disk none = none
  with_stat iodev disk (some (inl status)) = some (status, iodev, disk)
  with_stat iodev disk (some (inr buffer)) = some (sysm_ok, iodev, read_sys buffer disk)

  unfoldable pub from_split :
      Iodev d → DiskUsage d → Option (Bytes × Bytes) → Option (ℕ × Iodev d × DiskUsage d)
  unfolding sys_path with_stat file2str
  from_split iodev disk none = none
  from_split iodev disk (some (stem, digits)) =
      let partition = (strtoul 0 digits).0 % u32_mod in
      with_stat (record iodev { name = stem }) disk
        (file2str 1025 1025 (open_file (sys_path itoa stem partition)))

  -- Once the device is found; its name is cut at the digit, in the cache.
  unfoldable pub get_iostat_sys : Iodev d → DiskUsage d → Option (ℕ × Iodev d × DiskUsage d)
  unfolding from_split split_digit
  get_iostat_sys iodev disk = from_split iodev disk (split_digit iodev.name)

split_digit-append :
    (stem digits : Bytes) (x : ℕ)
    → All (λ c. is_digit c ≡ false) stem
    → is_digit x ≡ true
    → split_digit (stem ++ x ∷ digits) ≡ some (stem, x ∷ digits)
unfolding split_digit prepend
split_digit-append [] digits x h d = rw d refl
split_digit-append (c ∷ stem) digits x (hc, hs) d =
    rw (hc, split_digit-append stem digits x hs d) refl

split_digit-none : (stem : Bytes) → All (λ c. is_digit c ≡ false) stem → split_digit stem ≡ none
unfolding split_digit prepend
split_digit-none [] h = refl
split_digit-none (c ∷ stem) (hc, hs) = rw (hc, split_digit-none stem hs) refl

module _ {d : Double} (itoa : ℕ → Bytes) (open_file : Bytes → Opened) (minus_one : d.Carrier) where
  -- Where the file of a device with a digit in its name can be read into the buffer or not at all,
  -- `get_iostat_sys` ends, and cuts the name that the cache keeps at its first digit: the next call
  -- for the device reads behind the end of that name.
  pub get_iostat_sys-twice :
      (iodev : Iodev d) (disk disk2 : DiskUsage d) (stem digits : Bytes) (x : ℕ) (r : ℕ ⊎ Bytes)
      → iodev.name ≡ stem ++ x ∷ digits
      → All (λ c. is_digit c ≡ false) stem
      → is_digit x ≡ true
      → file2str 1025 1025 (open_file (sys_path itoa stem ((strtoul 0 (x ∷ digits)).0 % u32_mod)))
        ≡ some r
      → (status : ℕ) × (disk' : DiskUsage d) × (get_iostat_sys itoa open_file minus_one iodev disk
          ≡ some (status, record iodev { name = stem }, disk'))
        × (get_iostat_sys itoa open_file minus_one (record iodev { name = stem }) disk2 ≡ none)
  unfolding get_iostat_sys from_split with_stat
  get_iostat_sys-twice iodev disk disk2 stem digits x (inl status) named h d file = (
    status,
    disk,
    rw (named, split_digit-append stem digits x h d, file) refl,
    rw (split_digit-none stem h) refl,
  )
  get_iostat_sys-twice iodev disk disk2 stem digits x (inr buffer) named h d file = (
    sysm_ok,
    read_sys itoa open_file minus_one buffer disk,
    rw (named, split_digit-append stem digits x h d, file) refl,
    rw (split_digit-none stem h) refl,
  )
