-- ===== src/Tests/ListRuns.antt =====
-- Growable lists, file systems, files and the numbers of /proc on concrete inputs.
use jni_demo_system_monitor.Memory.Registers.{
  Register, IsPrinted, print_all, total, counted, write_back, uncachable,
}
use jni_demo_system_monitor.Text.Spaced.{spaced}
use jni_demo_system_monitor.Cpu.Listing.{cpu_lines, read_cpus-lines}
use jni_demo_system_monitor.Text.Number.{is_digit_of}
use jni_demo_system_monitor.Text.{is_digit, is_space}
use mathlib.Core.List.{map}
use jni_demo_system_monitor.Base.{
  ℕ, ◌+◌, ◌-◌, ◌*◌, ◌≤◌, ◌<◌, [], ◌∷◌, ◌++◌, ◌≡◌, ◌⊎◌, inl, inr, some, refl, arith, length, Bytes,
  codes, sysm_ok, enoent, false, if◌then◌else◌, ◌==◌, ◌/◌, List, All,
}
use jni_demo_system_monitor.Cpu.Line.{get_cpu_metrics-line}
use jni_demo_system_monitor.Cpu.{zero_cpu, get_cpu_metrics, read_cpus, Cpu}
use jni_demo_system_monitor.Double.{Double, IsExact}
use jni_demo_system_monitor.File.{Opened, contents, file2str, file2str_lem}
use jni_demo_system_monitor.FsType.Names.{resolved, fs_type_get_lem}
use jni_demo_system_monitor.FsType.{FileSystem, unknown, kind_code, kind_name, fs_type_get}
use jni_demo_system_monitor.GrowList.Push.{push_all, push_all-create, IsValid, create-IsValid}
use jni_demo_system_monitor.GrowList.{GrowList, create, items, cpu_max}
use jni_demo_system_monitor.Memory.Mtrr.{get_mtrr-again}
use jni_demo_system_monitor.Memory.{get_mtrr, mtrr_unread}

push_all-create_example :
    (l : GrowList ℕ) × (push_all 2 (7 ∷ 8 ∷ 9 ∷ []) (create 2) ≡ some l)
    × (items l ≡ 7 ∷ 8 ∷ 9 ∷ [])
    × (l.number ≡ 3)
    × (length l.slots ≡ l.size)
    × (l.size ≤ 3 + 2)
push_all-create_example = push_all-create 2 (7 ∷ 8 ∷ 9 ∷ []) (omega arith)

abbrev root_fs : FileSystem
root_fs = record { type = unknown; type_name = []; sys_type_name = codes "ext4" }

fs_type_get_example :
    ((fs_type_get root_fs).type ≡ resolved unknown (codes "ext4"))
    × ((0 < kind_code ((fs_type_get root_fs).type))
        × ((fs_type_get root_fs).type_name ≡ kind_name (resolved unknown (codes "ext4"))))
fs_type_get_example = fs_type_get_lem root_fs

file2str_example :
    (file2str 4 4 (contents (codes "abc")) ≡ some (inr (codes "abc")))
    × ((file : Opened) → 0 < 4 → (r : ℕ ⊎ Bytes) × (file2str 4 (4 - 1) file ≡ some r))
file2str_example = file2str_lem 4 (codes "abc")

-- 2048 megabytes of write-back memory, and a hole that is not cached.
abbrev registers : List Register
registers =
    record {
      start = codes "reg00: ";
      place = codes "0x0";
      blanks = codes " ";
      size = codes "2048";
      unit = b'M';
      middle = codes "B: ";
      type = write_back;
      behind = codes "\n";
    }
    ∷ record {
      start = codes "reg01: ";
      place = codes "0x8";
      blanks = codes "  ";
      size = codes "512";
      unit = b'M';
      middle = codes "B: ";
      type = uncachable;
      behind = codes "\n";
    }
    ∷ []

registers-ArePrinted : All IsPrinted registers
unfolding is_space is_digit_of is_digit
registers-ArePrinted = (
  record {
    start_lacks = (refl, (refl, (refl, (refl, (refl, (refl, (refl, tt)))))));
    place_lacks = (refl, (refl, (refl, tt)));
    blank = (refl, tt);
    blanks_lack = (refl, tt);
    sized = λ same. ground arith;
    digits = (refl, (refl, (refl, (refl, tt))));
    unit_other = refl;
    unit_lacks = refl;
    middle_lacks = (refl, (refl, (refl, tt)));
    behind_lacks = (refl, tt);
  },
  (
    record {
      start_lacks = (refl, (refl, (refl, (refl, (refl, (refl, (refl, tt)))))));
      place_lacks = (refl, (refl, (refl, tt)));
      blank = (refl, (refl, tt));
      blanks_lack = (refl, (refl, tt));
      sized = λ same. ground arith;
      digits = (refl, (refl, (refl, tt)));
      unit_other = refl;
      unit_lacks = refl;
      middle_lacks = (refl, (refl, (refl, tt)));
      behind_lacks = (refl, tt);
    },
    tt,
  ),
)

get_mtrr-again_example :
    let (status, cached, mtrr) = get_mtrr mtrr_unread 0 (inr (print_all registers)) in
    (status ≡ sysm_ok)
    × (mtrr ≡ total registers)
    × (get_mtrr cached 1 (inl enoent) ≡ (
        if total registers == 0 then (enoent, cached, 1) else (sysm_ok, cached, total registers)))
unfolding total counted
get_mtrr-again_example =
    get_mtrr-again 0 1 registers (inl enoent) registers-ArePrinted (omega arith)

-- Whole numbers in place of doubles.
abbrev whole_numbers : Double
whole_numbers = record {
  Carrier = ℕ;
  from_u64 = λ n. n;
  to_u64 = λ n. n;
  add = λ a b. a + b;
  mul = λ a b. a * b;
  div = λ a b. a / b;
  is_negative = λ _. false;
}

whole_numbers-IsExact : IsExact whole_numbers
whole_numbers-IsExact = record {
  to_u64-from_u64 = λ a h. refl;
  add-from_u64 = λ a b h. refl;
  mul-from_u64 = λ a b h. refl;
  div-from_u64 = λ a b pos h. grind arith;
}

get_cpu_metrics-line_example :
    get_cpu_metrics whole_numbers 100 zero_cpu (
      codes "cpu0"
      ++ spaced
          (codes "12"
            ∷ codes "0"
            ∷ codes "7"
            ∷ codes "3"
            ∷ codes "1"
            ∷ codes "0"
            ∷ codes "0"
            ∷ codes "2"
            ∷ [])
          (codes "\n"))
    ≡ record {
      user = 120;
      nice = 0;
      sys = 70;
      idle = 30;
      wait = 10;
      hi = 0;
      si = 0;
      steal = 20;
      total = 250;
    }
unfolding is_digit_of is_digit is_space
get_cpu_metrics-line_example =
    get_cpu_metrics-line whole_numbers whole_numbers-IsExact 100 10 (omega arith) refl
      (codes "cpu0") (codes "12") (codes "0") (codes "7") (codes "3") (codes "1") (codes "0")
      (codes "0") (codes "2") (codes "\n") (cc, (refl, (refl, (refl, (refl, tt)))))
      (
        (cc, (refl, (refl, tt)), omega arith, omega arith),
        (
          (cc, (refl, tt), omega arith, omega arith),
          (
            (cc, (refl, tt), omega arith, omega arith),
            (
              (cc, (refl, tt), omega arith, omega arith),
              (
                (cc, (refl, tt), omega arith, omega arith),
                (
                  (cc, (refl, tt), omega arith, omega arith),
                  (
                    (cc, (refl, tt), omega arith, omega arith),
                    ((cc, (refl, tt), omega arith, omega arith), tt),
                  ),
                ),
              ),
            ),
          ),
        ),
      )
      refl

read_cpus-lines_example :
    let lines = codes "cpu0 1 2 3 4 5 6 7 8\n" ∷ codes "intr 5\n" ∷ [] in
    (l' : GrowList Cpu) × (read_cpus whole_numbers 100 false 1 0 lines (create cpu_max) ≡ some l')
    × IsValid l'
    × (items l'
        ≡ items (create cpu_max)
          ++ map (get_cpu_metrics whole_numbers 100 zero_cpu) (cpu_lines lines))
read_cpus-lines_example =
    read_cpus-lines whole_numbers 100 1 0 (codes "cpu0 1 2 3 4 5 6 7 8\n" ∷ codes "intr 5\n" ∷ [])
      (create cpu_max) (create-IsValid cpu_max).0 (unfold create in omega arith)
