-- ===== src/Session/PageSize.antt =====
-- The shift of the page size that `sysm_os_open` of sysm-native/src/main/sysm.c computes.
use jni_demo_system_monitor.Base.{
  ℕ, zero, suc, List, Bytes, ◌⊎◌, ◌*◌, ◌/◌, ◌^◌, ◌≤◌, ◌<◌, ◌≡◌, refl, arith, inl, inr,
}
use jni_demo_system_monitor.Session.{
  Sysm, System, count_halves, os_open, os_settings, with_boot_time,
}
use native.Mathlib.Nat.{pow-suc}
use native.Mathlib.Decide.{dec_lt}

count_halves_last : (fuel i : ℕ) → i / 2 ≡ 0 → count_halves (suc fuel) i ≡ 0
unfolding count_halves
count_halves_last fuel i h = ground arith

count_halves_more :
    (fuel i : ℕ) → 0 < i / 2 → count_halves (suc fuel) i ≡ suc (count_halves fuel (i / 2))
unfolding count_halves
count_halves_more fuel i h = ground arith

-- As many rounds as the size are enough.
count_halves_lem :
    (fuel i : ℕ)
    → i ≤ fuel
    → 0 < i
    → (2 ^ count_halves fuel i ≤ i) × (i < 2 * 2 ^ count_halves fuel i)
count_halves_lem zero i enough pos = absurd (omega arith)
count_halves_lem (suc fuel) i enough pos = elim (dec_lt 0 (i / 2)) [
  | no last ↦ rw (count_halves_last fuel i (omega arith)) (omega arith, omega arith)
  | yes half ↦
      let (low, high) = count_halves_lem fuel (i / 2) (omega arith) half in
      let twice = pow-suc 2 (count_halves fuel (i / 2)) in
      rw (count_halves_more fuel i half) (omega (arith, low, twice), omega (arith, high, twice))
]

kept :
    (sys : System) (stat : ℕ ⊎ List Bytes) (s : Sysm)
    → ((with_boot_time sys stat s).1).pagesize ≡ s.pagesize
unfolding with_boot_time os_settings
kept sys (inl errno) s = refl
kept sys (inr lines) s = refl

shift_is :
    (sys : System) (block : Sysm)
    → ((os_open sys block).1).pagesize ≡ count_halves sys.page_bytes sys.page_bytes
unfolding os_open
shift_is sys block =
    kept sys sys.proc_stat (record block { pagesize = count_halves sys.page_bytes sys.page_bytes })

-- For a page of one byte or more, `sysm_os_open` stores the shift of the largest power of two that
-- is not above the size of the page, whatever becomes of the rest; the loop ends by itself.
pub os_open-pagesize :
    (sys : System) (block : Sysm)
    → 0 < sys.page_bytes
    → let shift = ((os_open sys block).1).pagesize in
      (2 ^ shift ≤ sys.page_bytes) × (sys.page_bytes < 2 * 2 ^ shift)
os_open-pagesize sys block pos =
    rw (shift_is sys block) (count_halves_lem sys.page_bytes sys.page_bytes (omega arith) pos)
