-- ===== src/Text/Spaced.antt =====
-- Rows of words behind one space each, as the kernel prints them, and how they are read.
use jni_demo_system_monitor.Base.{
  ◌<◌, ◌≡◌, ◌≢◌, refl, List, [], ◌∷◌, ◌++◌, All, Bytes, u64_mod, length,
}
use jni_demo_system_monitor.Text.{is_space, skip_token, skip_multiple_token}
use jni_demo_system_monitor.Text.Number.{strtoul, is_digit_of}
use jni_demo_system_monitor.Text.Token.{
  IsWord, IsDigits, NoDigit, value, strtoul_digits, AtBreak, skip_token-append,
}

-- Each word behind one space.
unfoldable pub spaced : List Bytes → Bytes → Bytes
spaced [] rest = rest
spaced (w ∷ ws) rest = b' ' ∷ (w ++ spaced ws rest)

-- A decimal number that fits 64 bits.
abbrev pub IsNumber : Bytes → Type 0
IsNumber w = (w ≢ []) × IsDigits w × (value 0 w < u64_mod)

-- What may follow a row: nothing that would make its last word longer.
abbrev pub Ends : Bytes → Type 0
Ends rest = AtBreak rest × NoDigit rest

pub spaced-NoDigit : (ws : List Bytes) (rest : Bytes) → NoDigit rest → NoDigit (spaced ws rest)
unfolding spaced is_digit_of
spaced-NoDigit [] rest h = h
spaced-NoDigit (w ∷ ws) rest h = refl

all_spaced-AtBreak : (ws : List Bytes) (rest : Bytes) → AtBreak rest → AtBreak (spaced ws rest)
unfolding spaced is_space
all_spaced-AtBreak [] rest h = h
all_spaced-AtBreak (w ∷ ws) rest h = refl

pub spaced-AtBreak : (w : Bytes) (ws : List Bytes) (rest : Bytes) → AtBreak (spaced (w ∷ ws) rest)
unfolding spaced is_space
spaced-AtBreak w ws rest = refl

pub strtoul-spaced :
    (w : Bytes) (ws : List Bytes) (rest : Bytes)
    → IsNumber w
    → NoDigit rest
    → strtoul 10 (spaced (w ∷ ws) rest) ≡ (value 0 w, spaced ws rest)
unfolding spaced is_space
strtoul-spaced w ws rest (ne, digits, fits) h =
    strtoul_digits (b' ' ∷ []) w (spaced ws rest) (refl, tt) ne digits (spaced-NoDigit ws rest h)
      fits

pub skip_token-spaced :
    (w : Bytes) (ws : List Bytes) (rest : Bytes)
    → IsWord w
    → AtBreak rest
    → skip_token (spaced (w ∷ ws) rest) ≡ spaced ws rest
unfolding spaced is_space
skip_token-spaced w ws rest hw h =
    skip_token-append (b' ' ∷ []) w (spaced ws rest) (cc, (refl, tt)) hw
      (all_spaced-AtBreak ws rest h)

pub skip_multiple_token-spaced :
    (ws vs : List Bytes) (rest : Bytes)
    → All IsWord ws
    → AtBreak rest
    → skip_multiple_token (length ws) (spaced (ws ++ vs) rest) ≡ spaced vs rest
unfolding skip_multiple_token
skip_multiple_token-spaced [] vs rest hs h = refl
skip_multiple_token-spaced (w ∷ ws) vs rest (hw, hs) h =
    rw (skip_token-spaced w (ws ++ vs) rest hw h, skip_multiple_token)
      (skip_multiple_token-spaced ws vs rest hs h)
