-- ===== src/Double.antt =====
-- The floating-point arithmetic that the sources use, as an interface.
use jni_demo_system_monitor.Base.{ℕ, ◌+◌, ◌*◌, ◌^◌, ◌<◌, ◌≡◌, Bool}

-- `double`: the conversions from and to `sysm_uint64_t`, and the operations.
pub record Double : Type 1 where
  pub Carrier : Type 0
  pub from_u64 : ℕ → Carrier
  pub to_u64 : Carrier → ℕ
  pub add : Carrier → Carrier → Carrier
  pub mul : Carrier → Carrier → Carrier
  pub div : Carrier → Carrier → Carrier
  pub is_negative : Carrier → Bool

-- The largest integers are exact up to this bound, that of a significand of 53 bits.
abbrev pub exact_bound : ℕ
exact_bound = 2 ^ 53

-- IEEE arithmetic on integers is exact as long as the results are below the bound.
pub record IsExact (d : Double) : Type 0 where
  pub to_u64-from_u64 : (a : ℕ) → a < exact_bound → d.to_u64 (d.from_u64 a) ≡ a
  pub add-from_u64 :
      (a b : ℕ) → a + b < exact_bound → d.add (d.from_u64 a) (d.from_u64 b) ≡ d.from_u64 (a + b)
  pub mul-from_u64 :
      (a b : ℕ) → a * b < exact_bound → d.mul (d.from_u64 a) (d.from_u64 b) ≡ d.from_u64 (a * b)
  pub div-from_u64 :
      (a b : ℕ)
      → 0 < b
      → a * b < exact_bound
      → d.div (d.from_u64 (a * b)) (d.from_u64 b) ≡ d.from_u64 a
