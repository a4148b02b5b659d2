-- ===== src/Proc/Exe.antt =====
-- `sysm_proc_exe_get` of sysm-native/src/main/sysm.c. `readlink` is a parameter: an errno, or the
-- target, of which it stores what its length allows. The names of the links always fit.
use jni_demo_system_monitor.Base.{ℕ, ◌-◌, ◌⊎◌, inl, inr, Bytes, codes, take, sysm_ok}

-- `sysm_proc_exe_t`
pub record ProcExe : Type 0 where
  pub name : Bytes
  pub cwd : Bytes
  pub root : Bytes

-- The size of each of them: SYSM_PATH_MAX + 1.
abbrev pub path_size : ℕ
path_size = 4097

-- A link, cut to the size less one: an errno, or the text with its NUL.
unfoldable pub read_link : ℕ ⊎ Bytes → ℕ ⊎ Bytes
read_link (inl errno) = inl errno
read_link (inr target) = inr (take (path_size - 1) target)

abbrev put_root : ProcExe → ℕ ⊎ Bytes → ℕ × ProcExe
put_root exe (inl errno) = (errno, exe)
put_root exe (inr text) = (sysm_ok, record exe { root = text })

abbrev put_name : (Bytes → ℕ ⊎ Bytes) → ProcExe → ℕ ⊎ Bytes → ℕ × ProcExe
put_name readlink exe (inl errno) = (errno, exe)
put_name readlink exe (inr text) =
    put_root (record exe { name = text }) (read_link (readlink (codes "/root")))

abbrev put_cwd : (Bytes → ℕ ⊎ Bytes) → ProcExe → ℕ ⊎ Bytes → ℕ × ProcExe
put_cwd readlink exe (inl errno) = (errno, exe)
put_cwd readlink exe (inr text) =
    put_name readlink (record exe { cwd = text }) (read_link (readlink (codes "/exe")))

-- The links of one process, by their names below its directory; the fields that are read before one
-- that fails stay written.
unfoldable pub proc_exe_get : (Bytes → ℕ ⊎ Bytes) → ProcExe → ℕ × ProcExe
unfolding read_link
proc_exe_get readlink exe = put_cwd readlink exe (read_link (readlink (codes "/cwd")))
