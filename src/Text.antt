-- ===== src/Text.antt =====
-- C text: the calls of <ctype.h> and <string.h> that the sources make, and `sysm_skip_token` and
-- `sysm_skip_multiple_token` of sysm-native/src/main/sysm_util.c. `*p` at the end of a text is NUL,
-- which no test below accepts.
pub mod Number
pub mod Token
pub mod Spaced
pub mod Search
pub mod Decimal
use jni_demo_system_monitor.Base.{
  ℕ, zero, suc, Bool, true, false, not, ◌&&◌, ◌||◌, List, [], ◌∷◌, Option, none, some, ltb, leb,
  ◌==◌, if◌then◌else◌, Bytes,
}

-- `isspace` in the C locale.
unfoldable pub is_space : ℕ → Bool
is_space c = c == 32 || (leb 9 c && leb c 13)

-- `isdigit`.
unfoldable pub is_digit : ℕ → Bool
is_digit c = leb b'0' c && leb c b'9'

-- `while (test(*p)) p++`, for a test that refuses NUL.
unfoldable pub drop_while : (ℕ → Bool) → Bytes → Bytes
drop_while test [] = []
drop_while test (c ∷ s) = let rest = drop_while test s in if test c then rest else c ∷ s

-- `strncmp(s, prefix, strlen(prefix)) == 0`.
unfoldable pub starts_with : Bytes → Bytes → Bool
starts_with [] s = true
starts_with (x ∷ prefix) [] = false
starts_with (x ∷ prefix) (c ∷ s) = x == c && starts_with prefix s

-- `strcmp(s, t) == 0`.
unfoldable pub str_eq : Bytes → Bytes → Bool
str_eq [] [] = true
str_eq (x ∷ s) (y ∷ t) = x == y && str_eq s t
str_eq _ _ = false

-- `strchr`: the text from the first such byte.
unfoldable pub strchr : ℕ → Bytes → Option Bytes
strchr c [] = none
strchr c (x ∷ s) = let rest = strchr c s in if x == c then some (x ∷ s) else rest

-- `strstr`: the text from the first place where the pattern, which is not empty, stands.
unfoldable pub strstr : Bytes → Bytes → Option Bytes
unfolding starts_with
strstr pattern [] = none
strstr pattern (c ∷ s) =
    let rest = strstr pattern s in if starts_with pattern (c ∷ s) then some (c ∷ s) else rest

-- The first byte, NUL at the end.
unfoldable pub head_byte : Bytes → ℕ
head_byte [] = 0
head_byte (c ∷ s) = c

unfoldable pub skip_token : Bytes → Bytes
unfolding drop_while is_space
skip_token p = drop_while (λ c. not (is_space c)) (drop_while is_space p)

unfoldable pub skip_multiple_token : ℕ → Bytes → Bytes
unfolding skip_token
skip_multiple_token zero p = p
skip_multiple_token (suc i) p = skip_multiple_token i (skip_token p)

-- `strrchr`: the text from the last such byte.
unfoldable pub strrchr : ℕ → Bytes → Option Bytes
strrchr c [] = none
strrchr c (x ∷ s) = elim (strrchr c s) [
  | some t ↦ some t
  | none ↦ if x == c then some (x ∷ s) else none
]
