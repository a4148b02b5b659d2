-- ===== src/Net/Address/Hex.antt =====
-- `hex2int` and `convert_hex_address` on the hexadecimal numbers of /proc/net, which the kernel
-- writes with `%08X`.
use jni_demo_system_monitor.Text.Token.{drop_while_stop}
use jni_demo_system_monitor.Text.{is_space}
use jni_demo_system_monitor.Base.{
  ℕ, ◌+◌, ◌*◌, ◌/◌, ◌%◌, ◌^◌, ◌<◌, true, [], ◌∷◌, ◌++◌, some, ◌≡◌, refl, ap, ◌∙◌, arith, length,
  All, Bytes, u32_mod, ◌==◌, ◌||◌, false,
}
use jni_demo_system_monitor.Base.Bits.{bit_or, bit_or_nibble}
use jni_demo_system_monitor.Net.Address.{
  inet, inet6, NetAddress, hex_digit, hex_loop, hex2int, convert_hex_address, upper_digit,
}
use jni_demo_system_monitor.Text.Number.{
  digit_value, is_digit_of, scan_digits, strtoul, read_sign, read_base, starts_number, clamp_ulong,
  has_hex_prefix,
}

-- Hexadecimal digits in either case, as `strtoul` takes them, and the number that they spell.
abbrev pub IsHex : Bytes → Type 0
IsHex = All (λ c. is_digit_of 16 c ≡ true)

abbrev pub hex_value : ℕ → Bytes → ℕ
hex_value n [] = n
hex_value n (c ∷ s) = hex_value (n * 16 + digit_value c) s

hex_digit_value : (c : ℕ) → is_digit_of 16 c ≡ true → hex_digit c ≡ digit_value c
unfolding hex_digit is_digit_of
hex_digit_value c h = ground arith

digit_value-lt : (c : ℕ) → is_digit_of 16 c ≡ true → digit_value c < 16
unfolding is_digit_of
digit_value-lt c h = ground arith

-- One round keeps the low 32 bits of the number read so far.
shift_in : (n d : ℕ) → d < 16 → bit_or (n % u32_mod * 16 % u32_mod) d ≡ (n * 16 + d) % u32_mod
shift_in n d h =
    let shifted : n % u32_mod * 16 % u32_mod ≡ n % 2 ^ 28 * 16 = omega arith in
    ap (λ (t : ℕ). bit_or t d) shifted ∙ bit_or_nibble (n % 2 ^ 28) d h ∙ omega arith

hex_loop-append :
    (s rest : Bytes) (n : ℕ)
    → IsHex s
    → hex_loop (length s) (s ++ rest) (n % u32_mod) ≡ some (hex_value n s % u32_mod)
unfolding hex_loop
hex_loop-append [] rest n h = refl
hex_loop-append (c ∷ s) rest n (hc, hs) =
    rw (hex_digit_value c hc, shift_in n (digit_value c) (digit_value-lt c hc))
      (hex_loop-append s rest (n * 16 + digit_value c) hs)

-- On hexadecimal digits, whatever follows them, `hex2int` computes the number that they spell,
-- reduced to 32 bits.
pub hex2int_value :
    (s rest : Bytes) → IsHex s → hex2int (s ++ rest) (length s) ≡ some (hex_value 0 s % u32_mod)
unfolding hex2int
hex2int_value s rest h = hex_loop-append s rest 0 h

abbrev NoHexDigit : Bytes → Type 0
NoHexDigit [] = Unit
NoHexDigit (c ∷ s) = is_digit_of 16 c ≡ false

scan_hex :
    (n : ℕ) (s rest : Bytes)
    → IsHex s
    → NoHexDigit rest
    → scan_digits 16 n (s ++ rest) ≡ (hex_value n s, rest)
unfolding scan_digits
scan_hex n [] [] h b = refl
scan_hex n [] (c ∷ rest) h b = rw b
scan_hex n (c ∷ s) rest (hc, hs) b = rw hc (scan_hex (n * 16 + digit_value c) s rest hs b)

hex_not_x : (c : ℕ) → is_digit_of 16 c ≡ true → (c == b'x' || c == b'X') ≡ false
unfolding is_digit_of
hex_not_x c h = ground arith

digit-not-space : (c : ℕ) → is_digit_of 16 c ≡ true → is_space c ≡ false
unfolding is_digit_of is_space
digit-not-space c h = ground arith

read_sign_hex : (c : ℕ) (s : Bytes) → is_digit_of 16 c ≡ true → read_sign (c ∷ s) ≡ (false, c ∷ s)
unfolding read_sign is_digit_of
read_sign_hex c s h = ground arith

read_base_hex :
    (a b : ℕ) (s : Bytes) → is_digit_of 16 b ≡ true → read_base 16 (a ∷ b ∷ s) ≡ (16, a ∷ b ∷ s)
unfolding read_base has_hex_prefix
read_base_hex a b [] h = refl
read_base_hex a b (c ∷ s) h = rw (hex_not_x b h) (ground arith)

-- On two or more hexadecimal digits that spell a number of at most 32 bits, followed by no further
-- such digit, `hex2int` and the C library's `strtoul` in base 16 read the same number, and
-- `strtoul` stops behind them.
pub hex2int-strtoul :
    (a b : ℕ) (s rest : Bytes)
    → IsHex (a ∷ b ∷ s)
    → NoHexDigit rest
    → hex_value 0 (a ∷ b ∷ s) < u32_mod
    → (n : ℕ) × (hex2int ((a ∷ b ∷ s) ++ rest) (length (a ∷ b ∷ s)) ≡ some n)
      × (strtoul 16 ((a ∷ b ∷ s) ++ rest) ≡ (n, rest))
unfolding strtoul starts_number clamp_ulong
hex2int-strtoul a b s rest h nd fits = (
  hex_value 0 (a ∷ b ∷ s),
  hex2int_value (a ∷ b ∷ s) rest h ∙ ap some (omega arith),
  rw
      (
        drop_while_stop is_space ((a ∷ b ∷ s) ++ rest) (digit-not-space a h.0),
        read_sign_hex a (b ∷ (s ++ rest)) h.0,
        read_base_hex a b (s ++ rest) h.1.0,
        scan_hex 0 (a ∷ b ∷ s) rest h nd,
        h.0,
      )
      (ground arith),
)

-- The text of eight uppercase digits, as the kernel prints it with `%08X`
abbrev pub hex8 : ℕ → Bytes
hex8 w =
    upper_digit (w / 2 ^ 28 % 16)
    ∷ upper_digit (w / 2 ^ 24 % 16)
    ∷ upper_digit (w / 2 ^ 20 % 16)
    ∷ upper_digit (w / 2 ^ 16 % 16)
    ∷ upper_digit (w / 2 ^ 12 % 16)
    ∷ upper_digit (w / 2 ^ 8 % 16)
    ∷ upper_digit (w / 16 % 16)
    ∷ upper_digit (w % 16)
    ∷ []

pub digit_value-upper_digit :
    (d : ℕ) → d < 16 → (digit_value (upper_digit d) ≡ d) × (is_digit_of 16 (upper_digit d) ≡ true)
unfolding is_digit_of
digit_value-upper_digit d h = ground arith

upper_IsHex : (w : ℕ) → is_digit_of 16 (upper_digit (w % 16)) ≡ true
upper_IsHex w = (digit_value-upper_digit (w % 16) (omega arith)).1

upper_value : (w : ℕ) → digit_value (upper_digit (w % 16)) ≡ w % 16
upper_value w = (digit_value-upper_digit (w % 16) (omega arith)).0

hex8-IsHex : (w : ℕ) → IsHex (hex8 w)
hex8-IsHex w = search (upper_IsHex, tt) depth 12

hex_value-hex8 : (w : ℕ) → w < u32_mod → hex_value 0 (hex8 w) ≡ w
hex_value-hex8 w h = simp upper_value (omega arith)

pub hex2int-hex8 : (w : ℕ) (rest : Bytes) → w < u32_mod → hex2int (hex8 w ++ rest) 8 ≡ some w
hex2int-hex8 w rest h =
    hex2int_value (hex8 w) rest (hex8-IsHex w)
    ∙ ap some (ap (λ (t : ℕ). t % u32_mod) (hex_value-hex8 w h) ∙ omega arith)

-- The text that the kernel writes for an IPv4 address is converted to that address, whatever
-- follows it, and the other words of the union stay.
pub convert-hex8 :
    (a : NetAddress) (w : ℕ) (rest : Bytes)
    → w < u32_mod
    → convert_hex_address a (hex8 w ++ rest) 8 ≡ some (record a { word0 = w; family = inet })
unfolding convert_hex_address
convert-hex8 a w rest h = rw (hex2int-hex8 w rest h)

-- The text of 32 digits that the kernel writes for an IPv6 address is converted to its four words.
pub convert-hex32 :
    (a : NetAddress) (w0 w1 w2 w3 : ℕ) (rest : Bytes)
    → w0 < u32_mod
    → w1 < u32_mod
    → w2 < u32_mod
    → w3 < u32_mod
    → convert_hex_address a (hex8 w0 ++ (hex8 w1 ++ (hex8 w2 ++ (hex8 w3 ++ rest)))) 32
      ≡ some (record { family = inet6; word0 = w0; word1 = w1; word2 = w2; word3 = w3 })
unfolding convert_hex_address
convert-hex32 a w0 w1 w2 w3 rest h0 h1 h2 h3 = rw (
  hex2int-hex8 w0 (hex8 w1 ++ (hex8 w2 ++ (hex8 w3 ++ rest))) h0,
  hex2int-hex8 w1 (hex8 w2 ++ (hex8 w3 ++ rest)) h1,
  hex2int-hex8 w2 (hex8 w3 ++ rest) h2,
  hex2int-hex8 w3 rest h3,
)
