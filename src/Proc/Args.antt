-- ===== src/Proc/Args.antt =====
-- The arguments of a process, from /proc/PID/cmdline: `sysm_proc_args_get` and
-- `sysm_os_proc_args_get` of sysm-native/src/main/sysm.c. The file is a parameter: an errno of `open`,
-- or all bytes that the calls of `read` deliver, with their NULs.
pub mod Split
use jni_demo_system_monitor.Base.{
  ℕ, zero, suc, [], ◌∷◌, ◌⊎◌, inl, inr, Option, none, some, ◌>>=◌, ◌==◌, if◌then◌else◌, length,
  Bytes, sysm_ok, enoent, esrch,
}
use jni_demo_system_monitor.GrowList.{GrowList}
use jni_demo_system_monitor.GrowList.Kinds.{proc_args_create, proc_args_push, proc_args_destroy}

-- The string at the start of a buffer, and what follows its NUL.
unfoldable pub span_nul : Bytes → Bytes × Bytes
span_nul [] = ([], [])
span_nul (c ∷ s) = let (word, rest) = span_nul s in if c == 0 then ([], s) else (c ∷ word, rest)

-- The loop over the buffer, as far as `total` says. Each round takes a byte at least, so that the
-- length of the buffer is enough fuel; without fuel, and for a store behind the block, it is `none`.
unfoldable pub read_args : ℕ → Bytes → GrowList Bytes → Option (GrowList Bytes)
unfolding span_nul proc_args_push
read_args fuel [] l = some l
read_args zero (c ∷ s) l = none
read_args (suc fuel) (c ∷ s) l =
    let (arg, rest) = span_nul (c ∷ s) in do l' ← proc_args_push arg l; read_args fuel rest l'

unfoldable pub open_status : ℕ → ℕ
open_status errno = if errno == enoent then esrch else errno

-- The status and the list.
unfoldable pub os_proc_args_get : ℕ ⊎ Bytes → GrowList Bytes → Option (ℕ × GrowList Bytes)
unfolding read_args open_status
os_proc_args_get (inl errno) l = some (open_status errno, l)
os_proc_args_get (inr []) l = some (sysm_ok, record l { number = 0 })
os_proc_args_get (inr (c ∷ s)) l = do l' ← read_args (length (c ∷ s)) (c ∷ s) l; some (sysm_ok, l')

unfoldable pub proc_args_get : ℕ ⊎ Bytes → Option (ℕ × GrowList Bytes)
unfolding os_proc_args_get proc_args_create proc_args_destroy
proc_args_get cmdline = do
  r ← os_proc_args_get cmdline proc_args_create
  some (if r.0 == sysm_ok then r else (r.0, (proc_args_destroy r.1).1))
