-- ===== src/Format.antt =====
-- sysm-native/src/main/sysm_format.c: the texts of errors and the names of users and groups.
-- `strerror_r`, `getpwuid_r` and `getgrgid_r` are parameters. A buffer is the text that it holds up
-- to its NUL; `none` is a store behind it. An `int` is its 32 bits.
pub mod Fitted
use jni_demo_system_monitor.Base.{
  ℕ, zero, suc, ◌+◌, ◌-◌, ◌/◌, ◌%◌, ◌^◌, ◌≤◌, Bool, true, false, List, [], ◌∷◌, ◌++◌, ◌⊎◌, inl, inr,
  Option, none, some, ltb, leb, ◌==◌, if◌then◌else◌, Bytes, codes, take, length, sysm_ok, enoent,
  u32_mod,
}

-- SYSM_START_ERROR
abbrev pub start_error : ℕ
start_error = 20000

-- `sizeof(sysm->errbuf)`
abbrev pub errbuf_size : ℕ
errbuf_size = 255

unfoldable pub error_str : ℕ → Bytes
error_str err =
    if err == start_error + 1
    then codes "This method has not been implemented yet"
    else codes "Error string not specified yet"

-- `strncpy(buf, text, buflen); buf[buflen - 1] = '\0';`
unfoldable pub copy_name : Bytes → ℕ → Bytes
copy_name text buflen = take (buflen - 1) text

-- What `strerror_r` returns, as 32 bits, and the text that it leaves.
abbrev pub Strerror : Type 0
Strerror = ℕ → ℕ → ℕ × Bytes

abbrev pub is_negative : ℕ → Bool
is_negative n = leb (2 ^ 31) n

-- `sysm_strerror_get`
unfoldable pub strerror_get : Strerror → ℕ → ℕ → Bytes
unfolding copy_name
strerror_get strerror_r err buflen =
    let (result, text) = strerror_r err buflen in
    if is_negative result then copy_name (codes "Unknown Error") buflen else text

-- `sysm_strerror`, where `errbuf` is what the handle holds.
unfoldable pub strerror : Strerror → Bytes → ℕ → Bytes
unfolding error_str strerror_get
strerror strerror_r errbuf err =
    if is_negative err
    then errbuf
    else if ltb start_error err
    then error_str err
    else strerror_get strerror_r err errbuf_size

-- What `getpwuid_r` or `getgrgid_r` returns, `errno` after it, and the name where there is one.
pub record Lookup : Type 0 where
  pub result : ℕ
  pub errno : ℕ
  pub name : Option Bytes

-- The status, and the buffer behind the call.
unfoldable pub user_name_get : Lookup → Bytes → ℕ → ℕ × Bytes
unfolding copy_name
user_name_get user buf buflen =
    let written : ℕ × Bytes = elim user.name [
      | none ↦ (enoent, buf)
      | some name ↦ (sysm_ok, copy_name name buflen)
    ] in
    if user.result == 0 then written else (user.errno, buf)

-- `sprintf` of "%d": a text that does not fit is stored behind the buffer.
unfoldable pub print_gid : Bytes → ℕ → Option (ℕ × Bytes)
unfolding copy_name
print_gid text buflen =
    if ltb (length text) buflen then some (sysm_ok, copy_name text buflen) else none

unfoldable pub group_name_get : (ℕ → Bytes) → ℕ → Lookup → Bytes → ℕ → Option (ℕ × Bytes)
unfolding copy_name print_gid
group_name_get sprintf gid group buf buflen =
    let written : Option (ℕ × Bytes) = elim group.name [
      | none ↦ print_gid (sprintf gid) buflen
      | some name ↦ some (sysm_ok, copy_name name buflen)
    ] in
    if group.result == 0 then written else some (group.errno, buf)
