-- ===== src/CpuInfo/Fuel.antt =====
-- The loop of `sysm_cpu_info_list_get` of sysm-native/src/main/sysm.c ends.
use jni_demo_system_monitor.Base.{
  ℕ, zero, suc, ◌+◌, ◌≤◌, ◌<◌, ◌≡◌, refl, ap, Bool, true, false, not, ◌&&◌, List, [], ◌∷◌, Option,
  some, bind-some, if-both, if◌then◌else◌, ◌==◌, ◌%◌, Bytes, codes, length, arith, bind-cong,
  if-cong,
}
use jni_demo_system_monitor.CpuInfo.Listing.{Machine, complete, read_infos}
use jni_demo_system_monitor.CpuInfo.Model.{CpuInfo}
use jni_demo_system_monitor.CpuInfo.{info_line, info_lines, get_cpu_info}
use jni_demo_system_monitor.GrowList.{GrowList, store, reserve, cpu_max}
use jni_demo_system_monitor.Text.{head_byte, starts_with}
use mathlib.Core.Option.{some-injective}

abbrev Read : Type 0
Read = Bool × CpuInfo × List Bytes

info_lines-left :
    (found : Bool) (info : CpuInfo) (lines : List Bytes) (r : Read)
    → info_lines found info lines ≡ some r
    → length r.2 ≤ length lines
unfolding info_lines
info_lines-left found info [] r e =
    omega (arith, ap (λ (r : Read). length r.2) (some-injective (found, info, []) r e))
info_lines-left found info (line ∷ lines) r e =
    let found' = if starts_with (codes "processor") line then true else found in
    if-both (λ (o : Option Read). o ≡ some r → length r.2 ≤ suc (length lines))
      (head_byte line == 10) _ _
      (λ _ e.
        omega (arith, ap (λ (r : Read). length r.2) (some-injective (found, info, lines) r e)))
      (λ _ e.
        let (info', _, next) =
          bind-some (info_line info line) (λ info'. info_lines found' info' lines) r e in
        omega (arith, info_lines-left found' info' lines r next))
      e

abbrev started : CpuInfo → CpuInfo
started info = record info { mhz = 0; cache_size = 0 }

-- A call that finds a processor takes a line.
get_cpu_info-takes :
    (info : CpuInfo) (lines : List Bytes) (r : Read)
    → get_cpu_info info lines ≡ some r
    → r.0 ≡ true
    → length r.2 < length lines
unfolding get_cpu_info info_lines
get_cpu_info-takes info [] r e found =
    let not_found : false ≡ r.0 =
      ap (λ (r : Read). r.0) (some-injective (false, started info, []) r e) in
    absurd (ground arith)
get_cpu_info-takes info (line ∷ lines) r e found =
    let found' = if starts_with (codes "processor") line then true else false in
    if-both (λ (o : Option Read). o ≡ some r → length r.2 < suc (length lines))
      (head_byte line == 10) _ _
      (λ _ e.
        let not_found : false ≡ r.0 =
          ap (λ (r : Read). r.0) (some-injective (false, started info, lines) r e) in
        absurd (ground arith))
      (λ _ e.
        let (info', _, next) =
          bind-some (info_line (started info) line) (λ info'. info_lines found' info' lines) r e in
        omega (arith, info_lines-left found' info' lines r next))
      e

-- With more fuel than there are lines, `read_infos` gives the same however much more: its fuel does
-- not end the loop of `sysm_cpu_info_list_get`.
pub read_infos-enough :
    (m : Machine) (rollup : Bool) (lcpu fuel more i : ℕ) (lines : List Bytes) (slot : CpuInfo)
    (l : GrowList CpuInfo)
    → length lines < fuel
    → length lines < more
    → read_infos m rollup lcpu fuel i lines slot l ≡ read_infos m rollup lcpu more i lines slot l
unfolding read_infos
read_infos-enough m rollup lcpu zero more i lines slot l h k = absurd (omega arith)
read_infos-enough m rollup lcpu (suc fuel) zero i lines slot l h k = absurd (omega arith)
read_infos-enough m rollup lcpu (suc fuel) (suc more) i lines slot l h k =
    bind-cong (get_cpu_info slot lines) _ _ (λ (found, info, rest) e.
      if-cong found _ _ (some l) (some l)
        (λ is_found.
          let shorter = get_cpu_info-takes slot lines (found, info, rest) e is_found in
          if-cong (rollup && not (i % lcpu == 0)) _ _ _ _
            (λ _.
              read_infos-enough m rollup lcpu fuel more (i + 1) rest info l (omega arith)
                (omega arith))
            (λ _. bind-cong (complete m lcpu l.number info) _ _ (λ whole _.
              bind-cong (store whole l) _ _ (λ stored _.
                read_infos-enough m rollup lcpu fuel more (i + 1) rest (m.fresh stored.number)
                  (reserve cpu_max stored) (omega arith) (omega arith)))))
        (λ _. refl))
