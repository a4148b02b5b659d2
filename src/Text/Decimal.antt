-- ===== src/Text/Decimal.antt =====
-- `sysm_uitoa` and `sysm_proc_filename` of sysm-native/src/main/sysm_util.c. `sysm_uitoa` writes
-- backwards into a buffer of UITOA_BUFFER_SIZE bytes, whose last one is the NUL: `room` counts the
-- bytes in front of the text, and a write with no room is `none`.
pub mod Bounds
use jni_demo_system_monitor.Base.{
  ℕ, zero, suc, ◌+◌, ◌-◌, ◌/◌, ◌%◌, [], ◌∷◌, ◌++◌, Option, none, some, length, take, ltb, ◌==◌,
  if◌then◌else◌, Bytes, codes, u32_mod,
}

-- `sizeof(int) * 3 + 1`.
abbrev pub uitoa_buffer_size : ℕ
uitoa_buffer_size = 13

-- The `do … while (n)` loop: the text written and the count of `*len`.
unfoldable pub uitoa_loop : ℕ → ℕ → Bytes → ℕ → Option (Bytes × ℕ)
uitoa_loop zero n text len = none
uitoa_loop (suc room) n text len =
    let text' = (b'0' + n % 10) ∷ text in
    let rest = uitoa_loop room (n / 10) text' (len + 1) in
    if n / 10 == 0 then some (text', len + 1) else rest

unfoldable pub uitoa : ℕ → ℕ → Option (Bytes × ℕ)
unfolding uitoa_loop
uitoa n len = uitoa_loop (uitoa_buffer_size - 1) n [] len

abbrev pub proc_fs_root : Bytes
proc_fs_root = codes "/proc/"

-- `none` is a failed `assert`, or a text that does not fit its buffer with its NUL. `pid` is the
-- bit pattern of the `pid_t`, which the cast to `unsigned int` keeps.
unfoldable pub proc_filename : ℕ → ℕ → Bytes → ℕ → Option Bytes
proc_filename buflen pid fname fname_len =
    if ltb buflen (length proc_fs_root + uitoa_buffer_size + fname_len + 1)
    then none
    else elim (uitoa pid 0) [
      | none ↦ none
      | some (pid_str, len) ↦
          let name = proc_fs_root ++ (take len pid_str ++ take fname_len fname) in
          if ltb (length name) buflen then some name else none
    ]
