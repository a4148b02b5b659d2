-- ===== src/Text/Search.antt =====
-- Where `strchr`, `strrchr` and `strstr` stop.
use jni_demo_system_monitor.Base.{
  ℕ, ◌≡◌, arith, false, [], ◌∷◌, ◌++◌, none, some, ◌==◌, All, Bytes, refl,
}
use jni_demo_system_monitor.Text.{strchr, strrchr, strstr, starts_with}

pub strchr-append :
    (x : ℕ) (s t : Bytes) → All (λ c. (c == x) ≡ false) s → strchr x (s ++ x ∷ t) ≡ some (x ∷ t)
unfolding strchr
strchr-append x [] t h = ground arith
strchr-append x (c ∷ s) t (hc, hs) = rw hc (strchr-append x s t hs)

pub strrchr-append :
    (x : ℕ) (s t : Bytes) → strrchr x t ≡ none → strrchr x (s ++ x ∷ t) ≡ some (x ∷ t)
unfolding strrchr
strrchr-append x [] t h = rw h (ground arith)
strrchr-append x (c ∷ s) t h = rw (strrchr-append x s t h)

-- A text without the first byte of the pattern is passed over.
pub strstr-append :
    (x : ℕ) (p s t : Bytes)
    → All (λ c. (c == x) ≡ false) s
    → strstr (x ∷ p) (s ++ t) ≡ strstr (x ∷ p) t
unfolding strstr starts_with
strstr-append x p [] t h = refl
strstr-append x p (c ∷ s) t (hc, hs) =
    let other : (x == c) ≡ false = ground arith in rw other (strstr-append x p s t hs)

pub strstr-none : (x : ℕ) (p s : Bytes) → All (λ c. (c == x) ≡ false) s → strstr (x ∷ p) s ≡ none
unfolding strstr starts_with
strstr-none x p [] h = refl
strstr-none x p (c ∷ s) (hc, hs) =
    let other : (x == c) ≡ false = ground arith in rw other (strstr-none x p s hs)
