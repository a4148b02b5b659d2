-- ===== src/Interface/Kind.antt =====
-- The flags and the types of interfaces: the conversion of the flags in
-- `sysm_net_interface_config_get`, and `get_interface_type`, of sysm-native/src/main/sysm.c. The
-- numbers of Linux's net/if.h and linux/if_arp.h are written out.
use jni_demo_system_monitor.Base.{
  ℕ, ◌+◌, ◌-◌, ◌^◌, Bool, true, false, List, [], ◌∷◌, ltb, ◌==◌, if◌then◌else◌, Bytes, codes,
  u64_mod,
}
use jni_demo_system_monitor.Base.Bits.{bit_and, bit_or}
use jni_demo_system_monitor.Net.Connection.{has_flag}

-- The bits of net/if.h, and those of SYSM_IFF_ that they become.
abbrev pub iff_loopback : ℕ
iff_loopback = 8

abbrev iff_master : ℕ
iff_master = 1024

abbrev iff_slave : ℕ
iff_slave = 2048

abbrev iff_multicast : ℕ
iff_multicast = 4096

abbrev iff_dynamic : ℕ
iff_dynamic = 32768

abbrev sysm_iff_multicast : ℕ
sysm_iff_multicast = 2048

abbrev sysm_iff_slave : ℕ
sysm_iff_slave = 4096

abbrev sysm_iff_master : ℕ
sysm_iff_master = 8192

abbrev sysm_iff_dynamic : ℕ
sysm_iff_dynamic = 16384

-- The `short` of `ifr_flags`, as 64 bits.
unfoldable pub sign_short : ℕ → ℕ
sign_short flags = if ltb flags (2 ^ 15) then flags else flags + u64_mod - 2 ^ 16

abbrev pub set_if : Bool → ℕ → ℕ → ℕ
set_if true bit flags = bit_or flags bit
set_if false bit flags = flags

unfoldable pub convert_flags : ℕ → ℕ
unfolding sign_short
convert_flags ifr_flags =
    let flags = sign_short ifr_flags in
    let cleared = bit_and flags (u64_mod - 1 - (iff_multicast + iff_slave + iff_master)) in
    set_if (has_flag flags iff_dynamic) sysm_iff_dynamic (
      set_if (has_flag flags iff_master) sysm_iff_master (
        set_if (has_flag flags iff_slave) sysm_iff_slave
          (set_if (has_flag flags iff_multicast) sysm_iff_multicast cleared)))

-- The cases of the switch, by their numbers in linux/if_arp.h.
abbrev interface_types : List (ℕ × Bytes)
interface_types =
    (256, codes "Serial Line IP")
    ∷ (257, codes "VJ Serial Line IP")
    ∷ (258, codes "6-bit Serial Line IP")
    ∷ (259, codes "VJ 6-bit Serial Line IP")
    ∷ (264, codes "Adaptive Serial Line IP")
    ∷ (1, codes "Ethernet")
    ∷ (781, codes "Ash")
    ∷ (774, codes "Fiber Distributed Data Interface")
    ∷ (780, codes "HIPPI")
    ∷ (3, codes "AMPR AX.25")
    ∷ (270, codes "AMPR ROSE")
    ∷ (0, codes "AMPR NET/ROM")
    ∷ (271, codes "generic X.25")
    ∷ (768, codes "IPIP Tunnel")
    ∷ (512, codes "Point-to-Point Protocol")
    ∷ (513, codes "(Cisco)-HDLC")
    ∷ (516, codes "LAPB")
    ∷ (7, codes "ARCnet")
    ∷ (15, codes "Frame Relay DLCI")
    ∷ (770, codes "Frame Relay Access Device")
    ∷ (776, codes "IPv6-in-IPv4")
    ∷ (783, codes "IrLAP")
    ∷ (782, codes "Econet")
    ∷ []

unfoldable pub type_in : List (ℕ × Bytes) → ℕ → Bytes
type_in [] family = codes "UNSPEC"
type_in ((number, type) ∷ types) family =
    let later = type_in types family in if number == family then type else later

unfoldable pub get_interface_type : ℕ → Bytes
unfolding type_in
get_interface_type family = type_in interface_types family
