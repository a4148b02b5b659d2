-- ===== src/Memory/Registers.antt =====
-- The lines of /proc/mtrr, and what `get_mtrr` of sysm-native/src/main/sysm.c reads from them.
use jni_demo_system_monitor.Base.{
  ℕ, ◌+◌, ◌<◌, ◌^◌, ◌%◌, ◌≡◌, ◌≢◌, refl, ◌∙◌, true, false, List, [], ◌∷◌, ◌++◌, Option, none, some,
  ◌==◌, All, Bytes, codes, arith, u32_mod,
}
use jni_demo_system_monitor.Memory.{mtrr_line, sum_mtrr}
use jni_demo_system_monitor.Text.Number.{atoi, is_digit_of, read_sign, clamp_long}
use jni_demo_system_monitor.Text.Search.{strstr-append, strstr-none}
use jni_demo_system_monitor.Text.Token.{
  IsDigits, NoDigit, value, scan_digits-append, digits-Stops, drop_while-append, drop_while_stop,
}
use jni_demo_system_monitor.Text.{is_space, is_digit, drop_while, strstr, starts_with}

-- The types of memory, and the kernel's names for them.
pub data MtrrType : Type 0 where
  uncachable write_combining write_through write_protect write_back : MtrrType

pub type_name : MtrrType → Bytes
type_name uncachable = codes "uncachable"
type_name write_combining = codes "write-combining"
type_name write_through = codes "write-through"
type_name write_protect = codes "write-protect"
type_name write_back = codes "write-back"

-- A register, by the texts of its line, such as "reg00: base=0x000000000 (    0MB), size= 2048MB,
-- count=1: write-back": `unit` is the byte behind the digits of the size.
pub record Register : Type 0 where
  pub start : Bytes
  pub place : Bytes
  pub blanks : Bytes
  pub size : Bytes
  pub unit : ℕ
  pub middle : Bytes
  pub type : MtrrType
  pub behind : Bytes

-- The line from the size on.
pub size_on : Register → Bytes
size_on r = r.blanks ++ (r.size ++ (r.unit ∷ (r.middle ++ (type_name r.type ++ r.behind))))

pub print_register : Register → Bytes
print_register r = r.start ++ (codes "base=" ++ (r.place ++ (codes "size=" ++ size_on r)))

abbrev Lacks : ℕ → Bytes → Type 0
Lacks x s = All (λ c. (c == x) ≡ false) s

-- No `s` but those of "base" and "size", no `w` but the type's, and a size of decimal digits.
pub record IsPrinted (r : Register) : Type 0 where
  pub start_lacks : Lacks b's' r.start
  pub place_lacks : Lacks b's' r.place
  pub blank : All (λ c. is_space c ≡ true) r.blanks
  pub blanks_lack : Lacks b'w' r.blanks
  pub sized : r.size ≢ []
  pub digits : IsDigits r.size
  pub unit_other : is_digit_of 10 r.unit ≡ false
  pub unit_lacks : (r.unit == b'w') ≡ false
  pub middle_lacks : Lacks b'w' r.middle
  pub behind_lacks : Lacks b'w' r.behind

-- What a register counts: the number in front of its unit, if it is write-back.
unfoldable pub counted : MtrrType → Bytes → ℕ
counted write_back size = value 0 size
counted _ size = 0

unfoldable pub total : List Register → ℕ
unfolding counted
total [] = 0
total (r ∷ rs) = counted r.type r.size + total rs

pub print_all : List Register → List Bytes
print_all [] = []
print_all (r ∷ rs) = print_register r ∷ print_all rs

digits-Lacks : (s : Bytes) → IsDigits s → Lacks b'w' s
unfolding is_digit
digits-Lacks [] h = tt
digits-Lacks (c ∷ s) (hc, hs) = (ground arith, digits-Lacks s hs)

atoi_digits :
    (s rest : Bytes)
    → s ≢ []
    → IsDigits s
    → NoDigit rest
    → value 0 s < 2 ^ 31
    → atoi (s ++ rest) ≡ value 0 s
unfolding atoi read_sign clamp_long is_digit
atoi_digits [] rest h hs b fits = absurd (h refl)
atoi_digits (c ∷ s) rest h hs b fits =
    rw (drop_while_stop is_space ((c ∷ s) ++ rest) (digits-Stops (c ∷ s) rest h hs))
      (ground (arith, scan_digits-append 0 (c ∷ s) rest hs b))

finds_size :
    (r : Register)
    → IsPrinted r
    → strstr (codes "size=") (print_register r) ≡ some (codes "size=" ++ size_on r)
unfolding print_register strstr starts_with
finds_size r is =
    strstr-append b's' (codes "ize=") r.start
      (codes "base=" ++ (r.place ++ (codes "size=" ++ size_on r))) is.start_lacks
    ∙ strstr-append b's' (codes "ize=") r.place (codes "size=" ++ size_on r) is.place_lacks

finds_type :
    (r : Register)
    → IsPrinted r
    → strstr (codes "write-back") (codes "size=" ++ size_on r)
      ≡ strstr (codes "write-back") (type_name r.type ++ r.behind)
unfolding size_on strstr starts_with
finds_type r is =
    strstr-append b'w' (codes "rite-back") r.blanks
      (r.size ++ (r.unit ∷ (r.middle ++ (type_name r.type ++ r.behind)))) is.blanks_lack
    ∙ strstr-append b'w' (codes "rite-back") r.size
        (r.unit ∷ (r.middle ++ (type_name r.type ++ r.behind))) (digits-Lacks r.size is.digits)
    ∙ strstr-append b'w' (codes "rite-back") (r.unit ∷ r.middle) (type_name r.type ++ r.behind)
        (is.unit_lacks, is.middle_lacks)

type_found : MtrrType → Bytes → Option Bytes
type_found write_back behind = some (codes "write-back" ++ behind)
type_found _ behind = none

type_found_lem :
    (type : MtrrType) (behind : Bytes)
    → Lacks b'w' behind
    → strstr (codes "write-back") (type_name type ++ behind) ≡ type_found type behind
unfolding type_name type_found strstr starts_with
type_found_lem uncachable behind h = strstr-none b'w' (codes "rite-back") behind h
type_found_lem write_combining behind h = strstr-none b'w' (codes "rite-back") behind h
type_found_lem write_through behind h = strstr-none b'w' (codes "rite-back") behind h
type_found_lem write_protect behind h = strstr-none b'w' (codes "rite-back") behind h
type_found_lem write_back behind h = refl

size_read :
    (r : Register)
    → IsPrinted r
    → value 0 r.size < 2 ^ 31
    → atoi (drop_while is_space (size_on r)) ≡ value 0 r.size
unfolding size_on
size_read r is fits =
    let rest = r.unit ∷ (r.middle ++ (type_name r.type ++ r.behind)) in
    rw
      (
        drop_while-append is_space r.blanks (r.size ++ rest) is.blank,
        drop_while_stop is_space (r.size ++ rest) (digits-Stops r.size rest is.sized is.digits),
      )
      (atoi_digits r.size rest is.sized is.digits is.unit_other fits)

counts_type :
    (type : MtrrType) (behind size : Bytes) (number : ℕ)
    → (counted type size < 2 ^ 31 → type ≡ write_back → number ≡ value 0 size)
    → counted type size < 2 ^ 31
    → (elim (type_found type behind) [ none ↦ 0 | some _ ↦ number ]) ≡ counted type size
unfolding type_found counted
counts_type uncachable behind size number read fits = refl
counts_type write_combining behind size number read fits = refl
counts_type write_through behind size number read fits = refl
counts_type write_protect behind size number read fits = refl
counts_type write_back behind size number read fits = read fits refl

counted_write_back :
    (type : MtrrType) (size : Bytes) → type ≡ write_back → counted type size ≡ value 0 size
unfolding counted
counted_write_back type size same = rw same refl

mtrr_line-print_register :
    (r : Register)
    → IsPrinted r
    → counted r.type r.size < 2 ^ 31
    → mtrr_line (print_register r) ≡ counted r.type r.size
unfolding mtrr_line
mtrr_line-print_register r is fits =
    rw (finds_size r is, finds_type r is, type_found_lem r.type r.behind is.behind_lacks, mtrr_line)
      (counts_type r.type r.behind r.size (atoi (drop_while is_space (size_on r)))
        (λ small same. size_read r is (omega (arith, small, counted_write_back r.type r.size same)))
        fits)

-- The lines of registers whose counts fit an `int` are summed up without wrapping.
pub sum_mtrr-print_all :
    (m : ℕ) (rs : List Register)
    → All IsPrinted rs
    → m + total rs < 2 ^ 31
    → sum_mtrr m (print_all rs) ≡ m + total rs
unfolding sum_mtrr print_all total
sum_mtrr-print_all m [] is fits = omega arith
sum_mtrr-print_all m (r ∷ rs) (is, are) fits =
    let line = mtrr_line-print_register r is (omega (arith, fits)) in
    let more = counted r.type r.size in
    let small : (m + more) % u32_mod ≡ m + more = omega (arith, fits) in
    rw (line, small, sum_mtrr)
      (sum_mtrr-print_all (m + more) rs are (omega (arith, fits)) ∙ omega arith)
