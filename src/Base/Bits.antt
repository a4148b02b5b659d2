-- ===== src/Base/Bits.antt =====
-- `bit_and` and `bit_or` at variables, for the masks and shifts of the sources.
use Prim.Native.Nat.{ℕ, zero, suc, ◌+◌, ◌*◌, ◌/◌, ◌%◌, ◌≤◌, ◌<◌, max, digits, bit_or-bitwise}
pub use Prim.Native.Nat.{bit_and, bit_or}
use mathlib.Core.Path.{◌≡◌, refl, ap, sym, ◌∙◌}
use native.Mathlib.Omega.{arith}

-- What `bit_or a b` stands for, with `fuel` in place of `a`.
abbrev or_with : ℕ → ℕ → ℕ → ℕ
or_with fuel = digits (λ rest. rest) max fuel

or_with-zero : (fuel b : ℕ) → or_with fuel 0 b ≡ b
or_with-zero zero b = refl
or_with-zero (suc fuel) b = refl

-- Any two fuels that are enough agree.
or_with_same : (a b fuel other : ℕ) → a ≤ fuel → a ≤ other → or_with fuel a b ≡ or_with other a b
or_with_same zero b fuel other h h' = or_with-zero fuel b ∙ sym (or_with-zero other b)
or_with_same (suc a) b zero other h h' = absurd (omega arith)
or_with_same (suc a) b (suc fuel) zero h h' = absurd (omega arith)
or_with_same (suc a) b (suc fuel) (suc other) h h' =
    let half = (suc a) / 2 in
    ap (λ (t : ℕ). t * 2 + max (suc a % 2) (b % 2))
      (or_with_same half (b / 2) fuel other (omega arith) (omega arith))

or_with-nil : (fuel a : ℕ) → a ≤ fuel → or_with fuel a 0 ≡ a
or_with-nil fuel zero h = or_with-zero fuel 0
or_with-nil zero (suc a) h = absurd (omega arith)
or_with-nil (suc fuel) (suc a) h = omega (arith, or_with-nil fuel (suc a / 2) (omega arith))

bit_or-nil : (a : ℕ) → bit_or a 0 ≡ a
bit_or-nil a = bit_or-bitwise a 0 ∙ or_with-nil a a (omega arith)

bit_or-suc : (a d : ℕ) → bit_or (suc a) d ≡ bit_or (suc a / 2) (d / 2) * 2 + max (suc a % 2) (d % 2)
bit_or-suc a d =
    let half = (suc a) / 2 in
    bit_or-bitwise (suc a) d
    ∙ ap (λ (t : ℕ). t * 2 + max (suc a % 2) (d % 2))
        (or_with_same half (d / 2) a half (omega arith) (omega arith)
          ∙ sym (bit_or-bitwise half (d / 2)))

-- The binary digits of an even number stand one place above those of its half.
bit_or_even : (j d : ℕ) → bit_or (j * 2) d ≡ bit_or j (d / 2) * 2 + d % 2
bit_or_even zero d = omega (arith, bit_or-bitwise 0 d, bit_or-bitwise 0 (d / 2))
bit_or_even (suc j) d =
    let double : suc j * 2 ≡ suc (j * 2 + 1) = omega arith in
    let half : suc (j * 2 + 1) / 2 ≡ suc j = omega arith in
    omega (
      arith,
      ap (λ (t : ℕ). bit_or t d) double,
      bit_or-suc (j * 2 + 1) d,
      ap (λ (t : ℕ). bit_or t (d / 2)) half,
    )

-- A digit below 16 goes into the four low bits that a shift has cleared.
pub bit_or_nibble : (j d : ℕ) → d < 16 → bit_or (j * 16) d ≡ j * 16 + d
bit_or_nibble j d h =
    let shifted : j * 16 ≡ j * 2 * 2 * 2 * 2 = omega arith in
    let low : d / 2 / 2 / 2 / 2 ≡ 0 = omega arith in
    omega (
      arith,
      ap (λ (t : ℕ). bit_or t d) shifted,
      bit_or_even (j * 2 * 2 * 2) d,
      bit_or_even (j * 2 * 2) (d / 2),
      bit_or_even (j * 2) (d / 2 / 2),
      bit_or_even j (d / 2 / 2 / 2),
      ap (λ (t : ℕ). bit_or j t) low,
      bit_or-nil j,
    )
