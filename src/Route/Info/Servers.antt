-- ===== src/Route/Info/Servers.antt =====
-- The name servers that `sysm_net_info_get` of sysm-native/src/main/sysm.c finds.
use jni_demo_system_monitor.Base.{
  ◌-◌, ◌<◌, ◌≡◌, refl, ap, ◌∙◌, true, false, List, [], ◌∷◌, ◌++◌, Option, some, ltb, lt→ltb, ◌==◌,
  Bytes, codes, take-append, length, length-append, All, arith, zero,
}
use jni_demo_system_monitor.Route.Info.{
  NetInfo, addrstrlen, server_of, copy_dns, put_server, read_servers, no_info,
}
use jni_demo_system_monitor.Text.{strstr, starts_with, drop_while, is_space, head_byte}

-- The line of a server.
abbrev pub server_line : Bytes → Bytes
server_line address = codes "nameserver " ++ (address ++ 10 ∷ [])

pub server_lines : List Bytes → List Bytes
server_lines [] = []
server_lines (address ∷ more) = server_line address ∷ server_lines more

-- A text that is not empty, fits, and does not begin with white space.
abbrev pub IsAddress : Bytes → Type 0
IsAddress [] = zero ≡ 1
IsAddress (c ∷ t) = (is_space c ≡ false) × (length (c ∷ t) < addrstrlen)

server_of-line :
    (address : Bytes) → IsAddress address → server_of (server_line address) ≡ some address
unfolding server_of strstr starts_with drop_while is_space head_byte
server_of-line [] is = absurd (ground arith)
server_of-line (c ∷ t) (solid, _) =
    let counted : length ((c ∷ t) ++ 10 ∷ []) - 1 ≡ length (c ∷ t) =
      omega (arith, length-append (c ∷ t) (10 ∷ [])) in
    rw (solid, counted) (ap some (take-append (c ∷ t) (10 ∷ [])))

read_servers-full :
    (more : List Bytes) (info : NetInfo)
    → All IsAddress more
    → (length info.primary_dns == 0) ≡ false
    → (length info.secondary_dns == 0) ≡ false
    → read_servers (server_lines more) info ≡ some info
unfolding read_servers put_server server_lines
read_servers-full [] info are one two = refl
read_servers-full (address ∷ more) info (is, are) one two =
    rw (server_of-line address is, one, two) refl

-- The first two servers.
pub with_servers : List Bytes → NetInfo
with_servers [] = no_info
with_servers (first ∷ []) = record no_info { primary_dns = first }
with_servers (first ∷ second ∷ more) = record no_info {
  primary_dns = first;
  secondary_dns = second;
}

nonempty : (address : Bytes) → IsAddress address → (length address == 0) ≡ false
nonempty [] is = absurd (ground arith)
nonempty (c ∷ t) is = ground arith

fits : (address : Bytes) → IsAddress address → ltb (length address) addrstrlen ≡ true
fits [] is = absurd (ground arith)
fits (c ∷ t) (_, short) = lt→ltb (length (c ∷ t)) addrstrlen short

read_step :
    (address : Bytes) (lines : List Bytes) (info : NetInfo)
    → IsAddress address
    → read_servers (server_line address ∷ lines) info
      ≡ put_server (read_servers lines) info (some address)
unfolding read_servers
read_step address lines info is =
    ap (put_server (read_servers lines) info) (server_of-line address is)

put_first :
    (first : Bytes) (rest : NetInfo → Option NetInfo)
    → IsAddress first
    → put_server rest no_info (some first) ≡ rest (record no_info { primary_dns = first })
unfolding put_server copy_dns
put_first first rest is = rw (fits first is) refl

put_second :
    (first second : Bytes) (rest : NetInfo → Option NetInfo)
    → IsAddress first
    → IsAddress second
    → put_server rest (record no_info { primary_dns = first }) (some second)
      ≡ rest (record no_info { primary_dns = first; secondary_dns = second })
unfolding put_server copy_dns
put_second first second rest is also = rw (fits second also, nonempty first is) refl

last : (info : NetInfo) → read_servers [] info ≡ some info
unfolding read_servers
last info = refl

-- For a file of server lines, each with an address that is not empty and fits: the call stores
-- nothing outside its arrays, and the first address is the primary server, the second the secondary
-- one, and the others are left.
pub read_servers-first_two :
    (addresses : List Bytes)
    → All IsAddress addresses
    → read_servers (server_lines addresses) no_info ≡ some (with_servers addresses)
unfolding server_lines with_servers
read_servers-first_two [] are = last no_info
read_servers-first_two (first ∷ []) (is, _) =
    read_step first [] no_info is
    ∙ put_first first (read_servers []) is
    ∙ last (record no_info { primary_dns = first })
read_servers-first_two (first ∷ second ∷ more) (is, (also, are)) =
    let info = record no_info { primary_dns = first; secondary_dns = second } in
    read_step first (server_line second ∷ server_lines more) no_info is
    ∙ put_first first (read_servers (server_line second ∷ server_lines more)) is
    ∙ read_step second (server_lines more) (record no_info { primary_dns = first }) also
    ∙ put_second first second (read_servers (server_lines more)) is also
    ∙ read_servers-full more info are (nonempty first is) (nonempty second also)
