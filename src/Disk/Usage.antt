-- ===== src/Disk/Usage.antt =====
-- `sysm_disk_usage_get` of sysm-native/src/main/sysm.c, on the device that `sysm_iodev_get` finds.
use jni_demo_system_monitor.Base.{
  ℕ, ◌+◌, ◌%◌, Bool, true, false, ◌&&◌, Option, none, some, ◌>>=◌, ◌==◌, if◌then◌else◌, Bytes,
  u64_mod, sysm_ok, enoent, enxio,
}
use jni_demo_system_monitor.Cpu.Percent.{sub_u64}
use jni_demo_system_monitor.Disk.Sys.{get_iostat_sys}
use jni_demo_system_monitor.Disk.{
  DiskUsage, Iodev, IoColumns, DeviceFiles, unknown, disk_stats_init, get_iostat_proc_dstat,
  get_iostat_procp,
}
use jni_demo_system_monitor.Double.{Double}
use jni_demo_system_monitor.File.{Opened}

-- `linux_iostat_e`.
pub data Iostat : Type 0 where
  no_iostat in_partitions in_diskstats in_sys : Iostat

-- What comes from outside.
pub record Outside (d : Double) : Type 0 where
  pub minus_one : d.Carrier
  pub is_zero : d.Carrier → Bool
  pub hz : ℕ
  pub uptime : d.Carrier
  pub files : DeviceFiles
  pub open_file : Bytes → Opened
  pub itoa : ℕ → Bytes
  pub stack : IoColumns

module _ {d : Double} (out : Outside d) where
  -- The rates of `disk` since the snapshot `prev`, and the time of the new snapshot.
  unfoldable pub with_rates : DiskUsage d → DiskUsage d → DiskUsage d
  unfolding sub_u64
  with_rates prev disk =
      let snaptime = d.to_u64 out.uptime in
      let interval = (if prev.snaptime == 0 then snaptime else sub_u64 snaptime prev.snaptime) in
      let ios = (sub_u64 disk.reads prev.reads + sub_u64 disk.writes prev.writes) % u64_mod in
      let spent = d.div (d.from_u64 (sub_u64 disk.time prev.time)) (d.from_u64 interval) in
      let tput = d.div (d.mul (d.from_u64 ios) (d.from_u64 out.hz)) (d.from_u64 interval) in
      let service_time =
        if out.is_zero tput then d.from_u64 0 else d.div (d.mul spent (d.from_u64 out.hz)) tput in
      record disk {
        snaptime = snaptime;
        service_time = if disk.time == unknown then out.minus_one else service_time;
        util = if disk.qtime == unknown then out.minus_one else d.div spent (d.from_u64 1000);
      }

  -- Where a status is SYSM_OK: the device with its new snapshot, and what the caller is given, for
  -- the counts of the device's row and those of the whole disk.
  unfoldable pub snapshot : Bool → Iodev d → DiskUsage d → DiskUsage d → Iodev d × DiskUsage d
  unfolding with_rates
  snapshot true iodev disk device =
      let whole = with_rates iodev.disk device in
      (
        record iodev { disk = whole },
        record disk { service_time = whole.service_time; util = whole.util },
      )
  snapshot false iodev disk device =
      let rated = with_rates iodev.disk disk in (record iodev { disk = rated }, rated)

  unfoldable pub finish :
      Bool → ℕ → Iodev d → DiskUsage d → DiskUsage d → ℕ × Option (Iodev d) × DiskUsage d
  unfolding snapshot
  finish partitioned status iodev disk device =
      let (iodev', disk') = snapshot (iodev.is_partition && partitioned) iodev disk device in
      if status == sysm_ok then (status, some iodev', disk') else (status, some iodev, disk)

  -- `none` for the device is a name that `sysm_iodev_get` does not know.
  unfoldable pub disk_usage_get :
      Iostat → Option (Iodev d) → Option (ℕ × Option (Iodev d) × DiskUsage d)
  unfolding finish disk_stats_init get_iostat_proc_dstat get_iostat_procp get_iostat_sys
  disk_usage_get no_iostat iodev = some (enoent, iodev, disk_stats_init d out.minus_one)
  disk_usage_get _ none = some (enxio, none, disk_stats_init d out.minus_one)
  disk_usage_get in_diskstats (some iodev) =
      let disk = disk_stats_init d out.minus_one in
      let s =
        get_iostat_proc_dstat d out.minus_one (out.files).device (out.files).diskstats out.stack
          disk in
      some (finish true s.status iodev s.disk s.device)
  disk_usage_get in_partitions (some iodev) =
      let disk = disk_stats_init d out.minus_one in
      let (status, disk') =
        get_iostat_procp d out.minus_one (out.files).device (out.files).partitions disk in
      some (finish false status iodev disk' disk)
  disk_usage_get in_sys (some iodev) = do
    r ← get_iostat_sys out.itoa out.open_file out.minus_one iodev (disk_stats_init d out.minus_one)
    let (status, iodev', disk) = r
    some (finish false status iodev' disk disk)
