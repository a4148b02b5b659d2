-- ===== src/Text/Number.antt =====
-- `strtoul` and `strtoull` of <stdlib.h>, on a 64-bit `unsigned long`: spaces, a sign, a prefix of
-- the base, digits; a number out of range is ULONG_MAX, and with no digit the text is not moved.
use jni_demo_system_monitor.Base.{
  ℕ, ◌+◌, ◌-◌, ◌*◌, ◌%◌, Bool, true, false, ◌&&◌, ◌||◌, [], ◌∷◌, ltb, leb, ◌==◌, if◌then◌else◌,
  Bytes, u64_mod, u32_mod, ◌^◌,
}
use jni_demo_system_monitor.Text.{is_space, drop_while}

-- The value of a digit in the bases up to 36; 36 for no digit.
unfoldable pub digit_value : ℕ → ℕ
digit_value c =
    if leb b'0' c && leb c b'9'
    then c - b'0'
    else if leb b'a' c && leb c b'z'
    then c - 87
    else if leb b'A' c && leb c b'Z'
    then c - 55
    else 36

unfoldable pub is_digit_of : ℕ → ℕ → Bool
unfolding digit_value
is_digit_of base c = ltb (digit_value c) base

unfoldable pub starts_number : ℕ → Bytes → Bool
unfolding is_digit_of
starts_number base [] = false
starts_number base (c ∷ s) = is_digit_of base c

-- The digits read onto `n`, and the text behind them.
unfoldable pub scan_digits : ℕ → ℕ → Bytes → ℕ × Bytes
unfolding is_digit_of
scan_digits base n [] = (n, [])
scan_digits base n (c ∷ s) =
    let rest = scan_digits base (n * base + digit_value c) s in
    if is_digit_of base c then rest else (n, c ∷ s)

unfoldable pub read_sign : Bytes → Bool × Bytes
read_sign [] = (false, [])
read_sign (c ∷ s) =
    if c == b'-' then (true, s) else if c == b'+' then (false, s) else (false, c ∷ s)

-- `0x` before a hexadecimal digit.
unfoldable pub has_hex_prefix : Bytes → Bool
unfolding is_digit_of
has_hex_prefix (a ∷ b ∷ c ∷ s) = a == b'0' && (b == b'x' || b == b'X') && is_digit_of 16 c
has_hex_prefix _ = false

unfoldable pub drop_two : Bytes → Bytes
drop_two (a ∷ b ∷ s) = s
drop_two s = s

unfoldable pub read_base : ℕ → Bytes → ℕ × Bytes
unfolding has_hex_prefix drop_two
read_base base s =
    if (base == 0 || base == 16) && has_hex_prefix s
    then (16, drop_two s)
    else if base == 0
    then (elim s [ [] ↦ 10 | c ∷ _ ↦ if c == b'0' then 8 else 10 ], s)
    else (base, s)

unfoldable pub clamp_ulong : Bool → ℕ → ℕ
clamp_ulong negative n =
    if ltb n u64_mod then (if negative then (u64_mod - n) % u64_mod else n) else u64_mod - 1

unfoldable pub strtoul : ℕ → Bytes → ℕ × Bytes
strtoul base s =
    let (negative, u) = read_sign (drop_while is_space s) in
    let (b, v) = read_base base u in
    let (n, rest) = scan_digits b 0 v in
    if starts_number b v then (clamp_ulong negative n, rest) else (0, s)

-- `strtol` in base 10, by the 64 bits of a `long`, and `atoi`, its low 32 bits.
unfoldable pub clamp_long : Bool → ℕ → ℕ
clamp_long negative n =
    if negative
    then (if ltb n (2 ^ 63) then (u64_mod - n) % u64_mod else 2 ^ 63)
    else if ltb n (2 ^ 63)
    then n
    else 2 ^ 63 - 1

unfoldable pub atoi : Bytes → ℕ
unfolding read_sign scan_digits clamp_long
atoi s =
    let (negative, u) = read_sign (drop_while is_space s) in
    clamp_long negative (scan_digits 10 0 u).0 % u32_mod
