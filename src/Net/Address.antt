-- ===== src/Net/Address.antt =====
-- `sysm_net_address_t` of sysm-native/include/main/sysm.h, `hex2int` and `convert_hex_address` of
-- sysm-native/src/main/sysm.c, and the address functions of sysm-native/src/main/sysm_util.c.
pub mod Hex
pub mod Quad
use jni_demo_system_monitor.Base.{
  ℕ, zero, suc, ◌+◌, ◌-◌, ◌*◌, ◌/◌, ◌%◌, ◌^◌, Bool, true, false, ◌&&◌, List, [], ◌∷◌, ◌++◌, Option,
  none, some, ltb, leb, ◌==◌, if◌then◌else◌, drop, Bytes, u32_mod, einval, sysm_ok, ◌⊎◌, inl, inr,
  ◌>>=◌, not,
}
use jni_demo_system_monitor.Base.Bits.{bit_or}
use jni_demo_system_monitor.Text.{is_digit}

pub data Family : Type 0 where
  unspec inet inet6 link : Family

-- The union `addr` is four 32-bit words: `in6`. `in` is the first of them, and `mac` the bytes of
-- the first two, low byte first.
pub record NetAddress : Type 0 where
  pub family : Family
  pub word0 : ℕ
  pub word1 : ℕ
  pub word2 : ℕ
  pub word3 : ℕ

abbrev pub hex_ent_len : ℕ
hex_ent_len = 8

-- A `char` as the `unsigned int` that it is converted to: bytes from 128 are negative.
abbrev sign_extend : ℕ → ℕ
sign_extend c = if ltb c 128 then c else c + u32_mod - 256

-- What one round of `hex2int` puts in by `|=`.
unfoldable pub hex_digit : ℕ → ℕ
unfolding is_digit
hex_digit c =
    if is_digit c
    then c - b'0'
    else if leb b'A' c && leb c b'Z'
    then c - 55
    else (sign_extend c + u32_mod - 87) % u32_mod

-- `none` is a read at the end of the text, or past it.
unfoldable pub hex_loop : ℕ → Bytes → ℕ → Option ℕ
unfolding hex_digit
hex_loop zero x j = some j
hex_loop (suc left) [] j = none
hex_loop (suc left) (ch ∷ x) j = hex_loop left x (bit_or (j * 16 % u32_mod) (hex_digit ch))

unfoldable pub hex2int : Bytes → ℕ → Option ℕ
unfolding hex_loop
hex2int x len = hex_loop len x 0

-- `len` is the length of the address's text at `ptr`.
unfoldable pub convert_hex_address : NetAddress → Bytes → ℕ → Option NetAddress
convert_hex_address address ptr len =
    let six = do
      w0 ← hex2int ptr hex_ent_len
      w1 ← hex2int (drop 8 ptr) hex_ent_len
      w2 ← hex2int (drop 16 ptr) hex_ent_len
      w3 ← hex2int (drop 24 ptr) hex_ent_len
      some (record { family = inet6; word0 = w0; word1 = w1; word2 = w2; word3 = w3 })
    in let four = do
      w0 ← (if len == hex_ent_len then hex2int ptr hex_ent_len else some 0)
      some (record address { word0 = w0; family = inet })
      in if ltb hex_ent_len len then six else four

-- The bytes of a word in memory.
abbrev pub octets : ℕ → List ℕ
octets w = (w % 256) ∷ (w / 256 % 256) ∷ (w / 2 ^ 16 % 256) ∷ (w / 2 ^ 24 % 256) ∷ []

-- One round of `sysm_inet_ntoa`, without the point.
unfoldable pub octet_text : ℕ → Bytes
octet_text u =
    if ltb 99 u
    then (b'0' + u / 100) ∷ (b'0' + u % 100 / 10) ∷ (b'0' + u % 100 % 10) ∷ []
    else if ltb 9 u
    then (b'0' + u / 10) ∷ (b'0' + u % 10) ∷ []
    else (b'0' + u) ∷ []

-- The loop over the bytes of the word, each with its point.
unfoldable pub inet_loop : List ℕ → Bytes
unfolding octet_text
inet_loop [] = []
inet_loop (u ∷ src) = octet_text u ++ b'.' ∷ inet_loop src

-- `*--next = 0`.
unfoldable pub drop_last : Bytes → Bytes
drop_last [] = []
drop_last (c ∷ []) = []
drop_last (c ∷ d ∷ s) = c ∷ drop_last (d ∷ s)

unfoldable pub inet_ntoa : ℕ → Bytes
unfolding inet_loop drop_last
inet_ntoa address = drop_last (inet_loop (octets address))

-- `%02X` of one byte.
abbrev pub upper_digit : ℕ → ℕ
upper_digit d = if ltb d 10 then b'0' + d else 55 + d

abbrev pub hex_byte : ℕ → Bytes
hex_byte b = upper_digit (b / 16) ∷ upper_digit (b % 16) ∷ []

unfoldable pub ether_text : List ℕ → Bytes
ether_text [] = []
ether_text (b ∷ []) = hex_byte b
ether_text (b ∷ c ∷ bs) = hex_byte b ++ b':' ∷ ether_text (c ∷ bs)

-- The six bytes of `mac` that are printed.
abbrev pub mac_octets : NetAddress → List ℕ
mac_octets a = octets a.word0 ++ (a.word1 % 256) ∷ (a.word1 / 256 % 256) ∷ []

unfoldable pub ether_ntoa : List ℕ → Bytes
unfolding ether_text
ether_ntoa bytes = ether_text bytes

-- The `switch` on the common family.
unfoldable pub compare_addr : Family → NetAddress → NetAddress → Option Bool
compare_addr inet a b = some (a.word0 == b.word0)
compare_addr inet6 a b =
    some (a.word0 == b.word0 && a.word1 == b.word1 && a.word2 == b.word2 && a.word3 == b.word3)
compare_addr link a b = some (a.word0 == b.word0 && a.word1 == b.word1)
compare_addr unspec a b = none

abbrev pub family_code : Family → ℕ
family_code unspec = 0
family_code inet = 1
family_code inet6 = 2
family_code link = 3

-- Whether the `memcmp` of the branch is 0; `none` is EINVAL.
unfoldable pub net_address_equals : NetAddress → NetAddress → Option Bool
unfolding compare_addr
net_address_equals a b =
    if not (family_code a.family == family_code b.family) then none else compare_addr a.family a b

unfoldable pub address_text : (NetAddress → Bytes ⊎ ℕ) → Family → NetAddress → Bytes × ℕ
address_text inet_ntop inet6 a = elim (inet_ntop a) [ inl text ↦ (text, sysm_ok) | inr e ↦ ([], e) ]
address_text inet_ntop inet a = (inet_ntoa a.word0, sysm_ok)
address_text inet_ntop unspec a = (inet_ntoa 0, sysm_ok)
address_text inet_ntop link a = (ether_ntoa (mac_octets a), sysm_ok)

-- The text and the status. `inet_ntop` is the C library's, and answers with a text or an errno.
unfoldable pub net_address_to_string : (NetAddress → Bytes ⊎ ℕ) → NetAddress → Bytes × ℕ
unfolding address_text
net_address_to_string inet_ntop a = address_text inet_ntop a.family a
