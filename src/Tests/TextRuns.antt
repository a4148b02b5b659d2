-- ===== src/Tests/TextRuns.antt =====
-- The text functions of sysm-native/src/main/sysm_util.c and the addresses, on short inputs.
use jni_demo_system_monitor.Base.{
  ◌+◌, ◌<◌, ◌≤◌, [], ◌∷◌, ◌++◌, some, ◌≡◌, refl, arith, length, Bytes, codes,
}
use jni_demo_system_monitor.Net.Address.Hex.{IsHex}
use jni_demo_system_monitor.Net.Address.Quad.{inet_aton, inet_aton-inet_ntoa}
use jni_demo_system_monitor.Net.Address.{unspec, NetAddress, inet_ntoa}
use jni_demo_system_monitor.Text.Decimal.Bounds.{strtoul-uitoa, proc_filename_lem}
use jni_demo_system_monitor.Text.Decimal.{uitoa_buffer_size, uitoa, proc_fs_root, proc_filename}
use jni_demo_system_monitor.Text.Number.{
  strtoul, is_digit_of, starts_number, scan_digits, read_sign, read_base, clamp_ulong,
  has_hex_prefix,
}
use jni_demo_system_monitor.Text.Token.{Fields, AreFields}
use jni_demo_system_monitor.Text.{is_space, drop_while}

abbrev two_fields : Fields
two_fields = (codes " ", codes "ab") ∷ (codes "  ", codes "c") ∷ []

two_AreFields : AreFields two_fields
unfolding is_space
two_AreFields = (
  ((cc, (refl, tt)), (cc, (refl, (refl, tt)))),
  (((cc, (refl, (refl, tt))), (cc, (refl, tt))), tt),
)

strtoul-uitoa_example :
    (text : Bytes) × (uitoa 4093 2 ≡ some (text, 2 + length text))
    × (length text < uitoa_buffer_size)
    × (strtoul 10 (text ++ codes "/stat") ≡ (4093, codes "/stat"))
strtoul-uitoa_example =
    strtoul-uitoa 4093 2 (codes "/stat") (omega arith) (unfold is_digit_of in refl)

proc_filename_example :
    (pid_str : Bytes) × (proc_filename 64 71 (codes "/statm") (length (codes "/statm"))
      ≡ some (proc_fs_root ++ (pid_str ++ codes "/statm")))
    × (length (proc_fs_root ++ (pid_str ++ codes "/statm")) < 64)
    × (strtoul 10 pid_str ≡ (71, []))
proc_filename_example = proc_filename_lem 64 71 (codes "/statm") (omega arith) (omega arith)

proc_filename_run : proc_filename 64 71 (codes "/statm") 6 ≡ some (codes "/proc/71/statm")
unfolding proc_filename uitoa
proc_filename_run = refl

strtoul_runs :
    (strtoul 10 (codes "  42 kB") ≡ (42, codes " kB"))
    × (strtoul 0 (codes "0x1fz") ≡ (31, codes "z"))
    × (strtoul 10 (codes "-1") ≡ (18446744073709551615, []))
    × (strtoul 10 (codes " x") ≡ (0, codes " x"))
unfolding strtoul drop_while is_space read_sign read_base starts_number scan_digits clamp_ulong
    has_hex_prefix
strtoul_runs = (refl, refl, refl, refl)

IsHex-2f : IsHex (codes "2F")
unfolding is_digit_of
IsHex-2f = (refl, (refl, tt))

abbrev zero_address : NetAddress
zero_address = record { family = unspec; word0 = 0; word1 = 0; word2 = 0; word3 = 0 }

inet_aton-inet_ntoa_example :
    (inet_aton (inet_ntoa 0x0100007f) ≡ some 0x0100007f) × (length (inet_ntoa 0x0100007f) ≤ 15)
inet_aton-inet_ntoa_example = inet_aton-inet_ntoa 0x0100007f (omega arith)

loopback : inet_ntoa 0x0100007f ≡ codes "127.0.0.1"
unfolding inet_ntoa
loopback = refl
