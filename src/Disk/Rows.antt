-- ===== src/Disk/Rows.antt =====
-- The rows of /proc/diskstats that `get_iostat_proc_dstat` of sysm-native/src/main/sysm.c reads.
use jni_demo_system_monitor.Base.{
  ℕ, ◌*◌, ◌%◌, ◌≡◌, Bool, not, ◌&&◌, List, [], ◌∷◌, ◌==◌, if◌then◌else◌, length, All, Bytes,
  u64_mod,
}
use jni_demo_system_monitor.Disk.{DiskUsage, IoColumns, to_columns}
use jni_demo_system_monitor.Double.{Double}
use jni_demo_system_monitor.Text.Spaced.{spaced, IsNumber, Ends}
use jni_demo_system_monitor.Text.Token.{IsWord, value}

pub values : List Bytes → List ℕ
values [] = []
values (w ∷ ws) = value 0 w ∷ values ws

-- A row: the numbers of the device, its name and the columns from the reads on.
pub record Row : Type 0 where
  pub major : Bytes
  pub minor : Bytes
  pub name : Bytes
  pub columns : List Bytes
  pub rest : Bytes

pub row_line : Row → Bytes
row_line r = spaced (r.major ∷ r.minor ∷ r.name ∷ r.columns) r.rest

pub row_lines : List Row → List Bytes
row_lines [] = []
row_lines (r ∷ rs) = row_line r ∷ row_lines rs

-- Numbers of 64 bits, eleven of them behind the name.
abbrev pub IsRow : Row → Type 0
IsRow r =
    IsNumber r.major
    × IsNumber r.minor
    × IsWord r.name
    × All IsNumber r.columns
    × (length r.columns ≡ 11)
    × Ends r.rest

abbrev pub row_columns : Row → IoColumns
row_columns r = to_columns (values r.columns)

-- The row is of the device, or of the whole disk that it is a part of.
abbrev pub of_device : ℕ → ℕ → Row → Bool
of_device st_major st_minor r = value 0 r.major == st_major && value 0 r.minor == st_minor

abbrev pub of_whole : ℕ → ℕ → Row → Bool
of_whole st_major st_minor r =
    value 0 r.major == st_major && (not (value 0 r.minor == st_minor) && value 0 r.minor == 0)

module _ {d : Double} where
  -- What a row makes of the counts of a device.
  pub row_usage : Row → DiskUsage d → DiskUsage d
  row_usage r disk =
      let c = row_columns r in
      record disk {
        reads = c.rio;
        writes = c.wio;
        read_bytes = c.rsect * 512 % u64_mod;
        write_bytes = c.wsect * 512 % u64_mod;
        rtime = c.ruse;
        wtime = c.wuse;
        time = c.use_time;
        qtime = c.aveq;
      }

  -- The counts of the last row of the whole disk.
  pub last_whole : ℕ → ℕ → List Row → DiskUsage d → DiskUsage d → DiskUsage d
  last_whole st_major st_minor [] disk device = device
  last_whole st_major st_minor (r ∷ rows) disk device =
      last_whole st_major st_minor rows disk
        (if of_whole st_major st_minor r then row_usage r disk else device)
