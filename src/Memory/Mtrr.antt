-- ===== src/Memory/Mtrr.antt =====
-- How `sysm->mtrr` caches the sum of the memory type range registers between calls.
use jni_demo_system_monitor.Base.{
  ℕ, ◌<◌, ◌^◌, ◌≡◌, ◌⊎◌, inr, arith, List, Bytes, All, ◌==◌, sysm_ok, enoent, if◌then◌else◌, ◌∙◌,
  refl,
}
use jni_demo_system_monitor.Memory.{get_mtrr, sum_mtrr, sign_extend, mtrr_unread}
use jni_demo_system_monitor.Memory.Registers.{
  Register, IsPrinted, print_all, total, sum_mtrr-print_all,
}

again :
    (old old' : ℕ) (lines : List Bytes) (file : ℕ ⊎ List Bytes)
    → sum_mtrr 0 lines < 2 ^ 31
    → let (status, cached, mtrr) = get_mtrr mtrr_unread old (inr lines) in
      (status ≡ sysm_ok)
      × (mtrr ≡ sum_mtrr 0 lines)
      × (get_mtrr cached old' file
          ≡ (if sum_mtrr 0 lines == 0 then (enoent, cached, old') else (sysm_ok, cached, mtrr)))
unfolding get_mtrr sign_extend
again old old' lines file h = ground arith

-- Where the file opens, and has the lines that the kernel prints for registers, the write-back ones
-- of which have sizes that sum up to less than 2^31: the first call of `get_mtrr` succeeds and gives
-- that sum, of the numbers in front of the units. Any later call gives the sum again, without another
-- look at the file, whatever it has become, if the sum is positive, but fails with ENOENT, and leaves
-- what it is given, if it is zero.
pub get_mtrr-again :
    (old old' : ℕ) (rs : List Register) (file : ℕ ⊎ List Bytes)
    → All IsPrinted rs
    → total rs < 2 ^ 31
    → let (status, cached, mtrr) = get_mtrr mtrr_unread old (inr (print_all rs)) in
      (status ≡ sysm_ok)
      × (mtrr ≡ total rs)
      × (get_mtrr cached old' file
          ≡ (if total rs == 0 then (enoent, cached, old') else (sysm_ok, cached, total rs)))
get_mtrr-again old old' rs file are fits =
    let sum : sum_mtrr 0 (print_all rs) ≡ total rs =
      sum_mtrr-print_all 0 rs are (omega (arith, fits)) ∙ omega arith in
    let (ok, first, later) = again old old' (print_all rs) file (rw sum fits) in
    let given = first ∙ sum in (ok, given, later ∙ rw (sum, given) refl)
