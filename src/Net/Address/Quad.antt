-- ===== src/Net/Address/Quad.antt =====
-- `sysm_inet_ntoa` and `sysm_ether_ntoa` of sysm-native/src/main/sysm_util.c, and readers of their texts.
use jni_demo_system_monitor.Base.{
  ℕ, zero, suc, ◌+◌, ◌*◌, ◌/◌, ◌%◌, ◌^◌, ◌<◌, ◌≤◌, List, [], ◌∷◌, ◌++◌, append-nil, append_assoc,
  Option, none, some, ◌>>=◌, ◌≡◌, ◌≢◌, refl, ap, ◌∙◌, sym, arith, length, length-append, All, drop,
  ◌==◌, if◌then◌else◌, Bytes, u32_mod,
}
use jni_demo_system_monitor.Net.Address.{
  octet_text, inet_loop, drop_last, inet_ntoa, hex_byte, ether_text, ether_ntoa, hex2int,
}
use jni_demo_system_monitor.Net.Address.Hex.{hex2int_value, digit_value-upper_digit}
use jni_demo_system_monitor.Text.Number.{strtoul, is_digit_of}
use jni_demo_system_monitor.Text.Token.{IsDigits, NoDigit, value, strtoul_digits}
use jni_demo_system_monitor.Text.{is_digit}

-- A reader of dotted quads, made of `strtoul`: numbers with a point between them, to the end.
after_point : Bytes → Option Bytes
after_point [] = none
after_point (c ∷ s) = if c == b'.' then some s else none

at_end : List ℕ → Bytes → Option (List ℕ)
at_end ns [] = some ns
at_end ns (c ∷ s) = none

read_octets : ℕ → Bytes → Option (List ℕ)
read_octets zero s = let (n, rest) = strtoul 10 s in at_end (n ∷ []) rest
read_octets (suc k) s = do
  t ← after_point (strtoul 10 s).1
  ns ← read_octets k t
  some ((strtoul 10 s).0 ∷ ns)

of_octets : List ℕ → ℕ
of_octets [] = 0
of_octets (b ∷ bs) = b + 256 * of_octets bs

pub inet_aton : Bytes → Option ℕ
inet_aton s = do ns ← read_octets 3 s; some (of_octets ns)

-- The bytes with a point between them.
abbrev quad_text : ℕ → List ℕ → Bytes
quad_text u [] = octet_text u
quad_text u (v ∷ bs) = octet_text u ++ b'.' ∷ quad_text v bs

drop_last-append : (s t : Bytes) → t ≢ [] → drop_last (s ++ t) ≡ s ++ drop_last t
unfolding drop_last
drop_last-append [] t h = refl
drop_last-append (c ∷ s) [] h = absurd (h refl)
drop_last-append (c ∷ []) (d ∷ t) h = refl
drop_last-append (c ∷ e ∷ s) (d ∷ t) h = ap (◌∷◌ c) (drop_last-append (e ∷ s) (d ∷ t) h)

octet_text-ne-nil : (u : ℕ) (t : Bytes) → octet_text u ++ t ≢ []
unfolding octet_text
octet_text-ne-nil u t = ground arith

drop_last-inet_loop : (u : ℕ) (bs : List ℕ) → drop_last (inet_loop (u ∷ bs)) ≡ quad_text u bs
unfolding inet_loop
drop_last-inet_loop u [] =
    drop_last-append (octet_text u) (b'.' ∷ []) (cc) ∙ unfold drop_last in append-nil (octet_text u)
drop_last-inet_loop u (v ∷ bs) =
    let rest = inet_loop (v ∷ bs) in
    ap drop_last (sym (append_assoc (octet_text u) (b'.' ∷ []) rest))
    ∙ drop_last-append (octet_text u ++ b'.' ∷ []) rest (octet_text-ne-nil v (b'.' ∷ inet_loop bs))
    ∙ append_assoc (octet_text u) (b'.' ∷ []) (drop_last rest)
    ∙ ap (λ t. octet_text u ++ b'.' ∷ t) (drop_last-inet_loop v bs)

octet_text-IsDigits :
    (u : ℕ) → u < 256 → (octet_text u ≢ []) × IsDigits (octet_text u) × (value 0 (octet_text u) ≡ u)
unfolding octet_text is_digit
octet_text-IsDigits u h = ground arith

strtoul-octet_text :
    (u : ℕ) (rest : Bytes) → u < 256 → NoDigit rest → strtoul 10 (octet_text u ++ rest) ≡ (u, rest)
strtoul-octet_text u rest h b =
    let (some_digit, digits, exact) = octet_text-IsDigits u h in
    rw exact at
      (strtoul_digits [] (octet_text u) rest tt some_digit digits b (rw exact (omega arith)))

read_octets-quad_text :
    (u : ℕ) (bs : List ℕ)
    → u < 256
    → All (λ b. b < 256) bs
    → read_octets (length bs) (quad_text u bs) ≡ some (u ∷ bs)
unfolding read_octets at_end after_point
read_octets-quad_text u [] h hs = rw (rw append-nil at (strtoul-octet_text u [] h tt))
read_octets-quad_text u (v ∷ bs) h (hv, hs) = rw (
  strtoul-octet_text u (b'.' ∷ quad_text v bs) h (unfold is_digit_of in refl),
  read_octets-quad_text v bs hv hs,
)

octet_text-length : (u : ℕ) → length (octet_text u) ≤ 3
unfolding octet_text
octet_text-length u = ground arith

quad_text-length : (u : ℕ) (bs : List ℕ) → length (quad_text u bs) ≤ 3 + 4 * length bs
quad_text-length u [] = omega (arith, octet_text-length u)
quad_text-length u (v ∷ bs) = omega (
  arith,
  length-append (octet_text u) (b'.' ∷ quad_text v bs),
  octet_text-length u,
  quad_text-length v bs,
)

-- Every IPv4 address is read back from the text that `sysm_inet_ntoa` writes for it, and that text
-- is at most 15 bytes long, so that it fits SYSM_INET6_ADDRSTRLEN.
pub inet_aton-inet_ntoa :
    (a : ℕ) → a < u32_mod → (inet_aton (inet_ntoa a) ≡ some a) × (length (inet_ntoa a) ≤ 15)
unfolding inet_aton inet_ntoa
inet_aton-inet_ntoa a h =
    let bs = (a / 256 % 256) ∷ (a / 2 ^ 16 % 256) ∷ (a / 2 ^ 24 % 256) ∷ [] in
    let text = drop_last-inet_loop (a % 256) bs in
    (
      rw (text, read_octets-quad_text (a % 256) bs (omega arith) (omega arith))
          (unfold of_octets in ap some (omega arith)),
      rw text (quad_text-length (a % 256) bs),
    )

-- Reads the pairs of digits, three bytes apart.
pub read_mac : ℕ → Bytes → Option (List ℕ)
read_mac zero s = some []
read_mac (suc k) s = do b ← hex2int s 2; bs ← read_mac k (drop 3 s); some (b ∷ bs)

hex2int-hex_byte : (b : ℕ) (rest : Bytes) → b < 256 → hex2int (hex_byte b ++ rest) 2 ≡ some b
hex2int-hex_byte b rest h =
    let hi = digit_value-upper_digit (b / 16) (omega arith) in
    let lo = digit_value-upper_digit (b % 16) (omega arith) in
    rw (hex2int_value (hex_byte b) rest (hi.1, (lo.1, tt)), hi.0, lo.0) (ap some (omega arith))

-- The bytes of a link address are read back, by `hex2int`, from the text that `sysm_ether_ntoa`
-- writes for them.
pub read_mac-ether_ntoa :
    (bs : List ℕ) → All (λ b. b < 256) bs → read_mac (length bs) (ether_ntoa bs) ≡ some bs
unfolding read_mac ether_ntoa
read_mac-ether_ntoa [] h = refl
read_mac-ether_ntoa (b ∷ []) (h, _) = rw (hex2int-hex_byte b [] h)
read_mac-ether_ntoa (b ∷ c ∷ bs) (h, hs) =
    rw (hex2int-hex_byte b (b':' ∷ ether_text (c ∷ bs)) h, read_mac-ether_ntoa (c ∷ bs) hs)
