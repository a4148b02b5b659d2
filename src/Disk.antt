-- ===== src/Disk.antt =====
-- Disk usage: `get_iostat_proc_dstat`, `get_iostat_procp` and `sysm_disk_usage_get` of
-- sysm-native/src/main/sysm.c, on the device that `sysm_iodev_get` finds for a name. What `stat`,
-- `fopen` and `fgets` deliver, the uptime, HZ and the stack are parameters.

pub mod Sys
pub mod Usage
pub mod Rows
pub mod Devices
use jni_demo_system_monitor.Base.{
  ℕ, zero, suc, ◌+◌, ◌-◌, ◌*◌, ◌%◌, Bool, true, false, ◌&&◌, ◌||◌, List, [], ◌∷◌, ◌⊎◌, inl, inr,
  Option, none, some, ◌==◌, if◌then◌else◌, length, get_or, drop, replicate, Bytes, u64_mod, sysm_ok,
  enoent, enxio,
}
use jni_demo_system_monitor.Double.{Double}
use jni_demo_system_monitor.Text.Number.{strtoul}
use jni_demo_system_monitor.Text.{is_space, is_digit, head_byte, drop_while, skip_token}

-- `sscanf` with one `%lu`: white space, a sign, and one digit at least.
unfoldable pub scan_ulong : Bytes → Option (ℕ × Bytes)
unfolding drop_while is_space is_digit head_byte
scan_ulong s =
    let p = drop_while is_space s in
    let signed = (head_byte p == b'+') || (head_byte p == b'-') in
    if is_digit (head_byte (if signed then drop 1 p else p)) then some (strtoul 10 p) else none

-- `rest` reads the variables behind the first of `olds`.
unfoldable pub after_scan : List ℕ → (Bytes → ℕ × List ℕ) → Option (ℕ × Bytes) → ℕ × List ℕ
after_scan olds rest none = (0, olds)
after_scan olds rest (some (value, p)) = let (num, values) = rest p in (suc num, value ∷ values)

-- `sscanf` with a `%lu` for each variable: how many are read, and what the variables then hold.
unfoldable pub scan_ulongs : List ℕ → Bytes → ℕ × List ℕ
unfolding scan_ulong after_scan
scan_ulongs [] s = (0, [])
scan_ulongs (old ∷ olds) s = after_scan (old ∷ olds) (scan_ulongs olds) (scan_ulong s)

pub record DiskUsage (d : Double) : Type 0 where
  pub reads : ℕ
  pub writes : ℕ
  pub write_bytes : ℕ
  pub read_bytes : ℕ
  pub rtime : ℕ
  pub wtime : ℕ
  pub qtime : ℕ
  pub time : ℕ
  pub snaptime : ℕ
  pub service_time : d.Carrier
  pub util : d.Carrier

-- A device of the cache `fsdev`.
pub record Iodev (d : Double) : Type 0 where
  pub name : Bytes
  pub is_partition : Bool
  pub disk : DiskUsage d

-- The bits of -1.
abbrev pub unknown : ℕ
unknown = u64_mod - 1

abbrev sectors : ℕ → ℕ
sectors n = n * 512 % u64_mod

-- `rio` to `aveq`, in the order of the columns.
pub record IoColumns : Type 0 where
  pub rio : ℕ
  pub rmerge : ℕ
  pub rsect : ℕ
  pub ruse : ℕ
  pub wio : ℕ
  pub wmerge : ℕ
  pub wsect : ℕ
  pub wuse : ℕ
  pub running : ℕ
  pub use_time : ℕ
  pub aveq : ℕ

unfoldable pub list_columns : IoColumns → List ℕ
list_columns c =
    c.rio ∷ c.rmerge ∷ c.rsect ∷ c.ruse ∷ c.wio ∷ c.wmerge ∷ c.wsect ∷ c.wuse ∷ c.running
    ∷ c.use_time ∷ c.aveq ∷ []

unfoldable pub to_columns : List ℕ → IoColumns
to_columns v = record {
  rio = get_or v 0 0;
  rmerge = get_or v 1 0;
  rsect = get_or v 2 0;
  ruse = get_or v 3 0;
  wio = get_or v 4 0;
  wmerge = get_or v 5 0;
  wsect = get_or v 6 0;
  wuse = get_or v 7 0;
  running = get_or v 8 0;
  use_time = get_or v 9 0;
  aveq = get_or v 10 0;
}

-- With four columns, as in the kernels' partition rows.
unfoldable pub shift_columns : IoColumns → IoColumns
shift_columns c = record c { wio = c.rsect; rsect = c.rmerge; wsect = c.ruse }

module _ (d : Double) (minus_one : d.Carrier) where
  -- `SYSM_DISK_STATS_INIT`: the -1 of the integers comes through the `double` `util`.
  unfoldable pub disk_stats_init : DiskUsage d
  disk_stats_init =
      let bits = d.to_u64 minus_one in
      record {
        reads = bits;
        writes = bits;
        write_bytes = bits;
        read_bytes = bits;
        rtime = bits;
        wtime = bits;
        qtime = bits;
        time = bits;
        snaptime = 0;
        service_time = minus_one;
        util = minus_one;
      }

-- The variables of the loop over /proc/diskstats.
pub record Scan (d : Double) : Type 0 where
  pub vars : IoColumns
  pub disk : DiskUsage d
  pub device : DiskUsage d
  pub status : ℕ

module _ {d : Double} where
  unfoldable pub with_times : ℕ → IoColumns → DiskUsage d → DiskUsage d
  with_times num c disk =
      if num == 11
      then record disk { rtime = c.ruse; wtime = c.wuse; time = c.use_time; qtime = c.aveq }
      else if num == 4
      then record disk { time = unknown; qtime = unknown }
      else disk

  unfoldable pub with_counts : IoColumns → DiskUsage d → DiskUsage d
  with_counts c disk = record disk {
    reads = c.rio;
    writes = c.wio;
    read_bytes = sectors c.rsect;
    write_bytes = sectors c.wsect;
  }

  -- A row of the device or of its whole disk, from the columns on.
  unfoldable pub read_columns : Bytes → Scan d → Scan d
  unfolding scan_ulongs list_columns to_columns shift_columns with_times with_counts
  read_columns ptr s =
      let (num, values) = scan_ulongs (list_columns s.vars) ptr in
      let read = to_columns values in
      let c = (if num == 4 then shift_columns read else read) in
      record s {
        vars = c;
        disk = with_counts c (with_times num read s.disk);
        status = if num == 11 || num == 4 then s.status else enoent;
      }

  -- What the loop does with a row whose columns make `s'` of `s`; `next` is the loop from the next
  -- row.
  unfoldable pub take_row : ℕ → ℕ → (Scan d → Scan d) → ℕ → ℕ → Scan d → Scan d → Scan d
  take_row st_major st_minor next major minor s' s =
      let whole = next (record s' { device = s'.disk }) in
      let other = next s in
      if (major == st_major) && ((minor == st_minor) || (minor == 0))
      then (if minor == st_minor then record s' { status = sysm_ok } else whole)
      else other

  -- The loop, for the numbers of the device that `stat` finds.
  unfoldable pub scan_diskstats : ℕ → ℕ → List Bytes → Scan d → Scan d
  unfolding take_row read_columns skip_token
  scan_diskstats st_major st_minor [] s = s
  scan_diskstats st_major st_minor (line ∷ lines) s =
      let (major, p1) = strtoul 10 line in
      let (minor, p2) = strtoul 10 p1 in
      take_row st_major st_minor (scan_diskstats st_major st_minor lines) major minor
        (read_columns (skip_token p2) s) s

  -- A row of /proc/partitions, from behind the two numbers.
  unfoldable pub read_partition : Bytes → DiskUsage d → DiskUsage d
  read_partition ptr disk =
      let (reads, p1) = strtoul 10 (skip_token (skip_token ptr)) in
      let (rsect, p2) = strtoul 10 (skip_token p1) in
      let (rtime, p3) = strtoul 10 p2 in
      let (writes, p4) = strtoul 10 p3 in
      let (wsect, p5) = strtoul 10 (skip_token p4) in
      let (wtime, p6) = strtoul 10 p5 in
      let (time, p7) = strtoul 10 (skip_token p6) in
      let (qtime, p8) = strtoul 10 p7 in
      record disk {
        reads = reads;
        read_bytes = sectors rsect;
        rtime = rtime;
        writes = writes;
        write_bytes = sectors wsect;
        wtime = wtime;
        time = time;
        qtime = qtime;
      }

  unfoldable pub scan_partitions : ℕ → ℕ → List Bytes → DiskUsage d → ℕ × DiskUsage d
  unfolding read_partition
  scan_partitions st_major st_minor [] disk = (enoent, disk)
  scan_partitions st_major st_minor (line ∷ lines) disk =
      let (major, p1) = strtoul 10 line in
      let (minor, p2) = strtoul 10 p1 in
      let later = scan_partitions st_major st_minor lines disk in
      if (major == st_major) && (minor == st_minor)
      then (sysm_ok, read_partition p2 disk)
      else later

-- `stat` of the device: its numbers, and the lines of the file.
pub record DeviceFiles : Type 0 where
  pub device : ℕ ⊎ (ℕ × ℕ)
  pub diskstats : ℕ ⊎ List Bytes
  pub partitions : ℕ ⊎ List Bytes

module _ (d : Double) (minus_one : d.Carrier) where
  -- `get_iostat_proc_dstat`, once the device is found.
  unfoldable pub get_iostat_proc_dstat :
      ℕ ⊎ (ℕ × ℕ) → ℕ ⊎ List Bytes → IoColumns → DiskUsage d → Scan d
  unfolding scan_diskstats disk_stats_init
  get_iostat_proc_dstat (inl errno) file stack disk = record {
    vars = stack;
    disk = disk;
    device = disk_stats_init d minus_one;
    status = errno;
  }
  get_iostat_proc_dstat (inr _) (inl errno) stack disk = record {
    vars = stack;
    disk = disk;
    device = disk_stats_init d minus_one;
    status = errno;
  }
  get_iostat_proc_dstat (inr (major, minor)) (inr lines) stack disk =
      scan_diskstats major minor lines (record {
        vars = stack;
        disk = disk;
        device = disk_stats_init d minus_one;
        status = enoent;
      })

  -- `get_iostat_procp`, once the device is found.
  unfoldable pub get_iostat_procp : ℕ ⊎ (ℕ × ℕ) → ℕ ⊎ List Bytes → DiskUsage d → ℕ × DiskUsage d
  unfolding scan_partitions
  get_iostat_procp (inl errno) file disk = (errno, disk)
  get_iostat_procp (inr _) (inl errno) disk = (errno, disk)
  get_iostat_procp (inr (major, minor)) (inr lines) disk =
      scan_partitions major minor (drop 1 lines) disk
