-- ===== src/Text/Token.antt =====
-- What `sysm_skip_token` and `strtoul` do on a row of fields, the shape of the lines of /proc.
use jni_demo_system_monitor.Base.{
  ℕ, ◌+◌, ◌-◌, ◌*◌, ◌<◌, Bool, true, false, not, List, [], ◌∷◌, ◌++◌, ◌≡◌, ◌≢◌, refl, arith, length,
  All, Bytes, u64_mod,
}
use jni_demo_system_monitor.Text.{is_space, is_digit, drop_while, skip_token, skip_multiple_token}
use jni_demo_system_monitor.Text.Number.{
  is_digit_of, starts_number, scan_digits, strtoul, read_sign, read_base, clamp_ulong,
}

-- White space, and a word without white space or NUL.
abbrev pub IsGap : Bytes → Type 0
IsGap s = (s ≢ []) × All (λ c. is_space c ≡ true) s

abbrev pub IsWord : Bytes → Type 0
IsWord s = (s ≢ []) × All (λ c. is_space c ≡ false) s

-- The text ends or goes on with white space.
abbrev pub AtBreak : Bytes → Type 0
AtBreak [] = Unit
AtBreak (c ∷ s) = is_space c ≡ true

module _ (test : ℕ → Bool) where
  abbrev pub Stops : Bytes → Type 0
  Stops [] = Unit
  Stops (c ∷ s) = test c ≡ false

  pub drop_while-append :
      (s rest : Bytes)
      → All (λ c. test c ≡ true) s
      → drop_while test (s ++ rest) ≡ drop_while test rest
  unfolding drop_while
  drop_while-append [] rest h = refl
  drop_while-append (c ∷ s) rest (hc, hs) = rw hc (drop_while-append s rest hs)

  pub drop_while_stop : (s : Bytes) → Stops s → drop_while test s ≡ s
  unfolding drop_while
  drop_while_stop [] h = refl
  drop_while_stop (c ∷ s) h = rw h

-- A field: its white space and its word.
abbrev pub Fields : Type 0
Fields = List (Bytes × Bytes)

unfoldable pub row : Fields → Bytes → Bytes
row [] rest = rest
row ((gap, word) ∷ fs) rest = gap ++ (word ++ row fs rest)

abbrev pub AreFields : Fields → Type 0
AreFields = All (λ f. IsGap f.0 × IsWord f.1)

gap-AtBreak : (s rest : Bytes) → IsGap s → AtBreak (s ++ rest)
gap-AtBreak [] rest (h, _) = absurd (h refl)
gap-AtBreak (c ∷ s) rest (_, (hc, _)) = hc

row-AtBreak : (fs : Fields) (rest : Bytes) → AreFields fs → AtBreak rest → AtBreak (row fs rest)
unfolding row
row-AtBreak [] rest h b = b
row-AtBreak ((gap, word) ∷ fs) rest ((hg, _), _) b = gap-AtBreak gap (word ++ row fs rest) hg

word-Stops : (s rest : Bytes) → IsWord s → Stops is_space (s ++ rest)
word-Stops [] rest (h, _) = absurd (h refl)
word-Stops (c ∷ s) rest (_, (hc, _)) = hc

break-Stops : (rest : Bytes) → AtBreak rest → Stops (λ c. not (is_space c)) rest
break-Stops [] b = tt
break-Stops (c ∷ rest) b = rw b

All-not : (s : Bytes) → All (λ c. is_space c ≡ false) s → All (λ c. not (is_space c) ≡ true) s
All-not [] h = tt
All-not (c ∷ s) (hc, hs) = (rw hc, All-not s hs)

pub skip_token-append :
    (gap word rest : Bytes)
    → IsGap gap
    → IsWord word
    → AtBreak rest
    → skip_token (gap ++ (word ++ rest)) ≡ rest
unfolding skip_token
skip_token-append gap word rest (_, hg) hw b =
    rw
      (
        drop_while-append is_space gap (word ++ rest) hg,
        drop_while_stop is_space (word ++ rest) (word-Stops word rest hw),
        drop_while-append (λ c. not (is_space c)) word rest (All-not word hw.1),
      )
      (drop_while_stop (λ c. not (is_space c)) rest (break-Stops rest b))

pub skip_token-word :
    (word rest : Bytes) → IsWord word → AtBreak rest → skip_token (word ++ rest) ≡ rest
unfolding skip_token
skip_token-word word rest hw b =
    rw
      (
        drop_while_stop is_space (word ++ rest) (word-Stops word rest hw),
        drop_while-append (λ c. not (is_space c)) word rest (All-not word hw.1),
      )
      (drop_while_stop (λ c. not (is_space c)) rest (break-Stops rest b))

-- Skipping as many tokens as there are fields in front leaves exactly the text behind them, which
-- ends or goes on with white space.
pub skip_multiple_token-row :
    (fs : Fields) (rest : Bytes)
    → AreFields fs
    → AtBreak rest
    → skip_multiple_token (length fs) (row fs rest) ≡ rest
unfolding skip_multiple_token row
skip_multiple_token-row [] rest h b = refl
skip_multiple_token-row ((gap, word) ∷ fs) rest ((hg, hw), hfs) b =
    rw
      (
        skip_token-append gap word (row fs rest) hg hw (row-AtBreak fs rest hfs b),
        skip_multiple_token,
      )
      (skip_multiple_token-row fs rest hfs b)

-- Decimal digits, and the number that they spell behind `n`.
abbrev pub IsDigits : Bytes → Type 0
IsDigits = All (λ c. is_digit c ≡ true)

abbrev pub value : ℕ → Bytes → ℕ
value n [] = n
value n (c ∷ s) = value (n * 10 + (c - b'0')) s

abbrev pub NoDigit : Bytes → Type 0
NoDigit [] = Unit
NoDigit (c ∷ s) = is_digit_of 10 c ≡ false

pub scan_digits-append :
    (n : ℕ) (s rest : Bytes)
    → IsDigits s
    → NoDigit rest
    → scan_digits 10 n (s ++ rest) ≡ (value n s, rest)
unfolding scan_digits is_digit
scan_digits-append n [] [] h b = refl
scan_digits-append n [] (c ∷ rest) h b = ground arith
scan_digits-append n (c ∷ s) rest (hc, hs) b =
    ground (arith, scan_digits-append (n * 10 + (c - b'0')) s rest hs b)

pub digits-Stops : (s rest : Bytes) → s ≢ [] → IsDigits s → Stops is_space (s ++ rest)
unfolding is_space is_digit
digits-Stops [] rest h _ = absurd (h refl)
digits-Stops (c ∷ s) rest _ (hc, _) = ground arith

-- `strtoul` behind white space reads a decimal number that fits, and stops at its end.
pub strtoul_digits :
    (gap s rest : Bytes)
    → All (λ c. is_space c ≡ true) gap
    → s ≢ []
    → IsDigits s
    → NoDigit rest
    → value 0 s < u64_mod
    → strtoul 10 (gap ++ (s ++ rest)) ≡ (value 0 s, rest)
unfolding strtoul read_sign read_base starts_number clamp_ulong is_digit
strtoul_digits gap [] rest hg h hs b fits = absurd (h refl)
strtoul_digits gap (c ∷ s) rest hg h hs b fits =
    rw
      (
        drop_while-append is_space gap ((c ∷ s) ++ rest) hg,
        drop_while_stop is_space ((c ∷ s) ++ rest) (digits-Stops (c ∷ s) rest h hs),
      )
      (ground (arith, scan_digits-append 0 (c ∷ s) rest hs b))
