-- ===== src/Who.antt =====
-- The users that are logged in: `sysm_who_utmp` and `sysm_who_list_get` of
-- sysm-native/src/main/sysm.c. The records of the file are a parameter; the text of a field is what
-- `strcpy` reads from it on, up to a NUL. `none` is a store behind an array.
pub mod Listed
use jni_demo_system_monitor.Base.{
  ℕ, Bool, true, false, ◌&&◌, not, List, [], ◌∷◌, ◌⊎◌, inl, inr, Option, none, some, ◌>>=◌, ltb,
  ◌==◌, if◌then◌else◌, Bytes, length, sysm_ok,
}
use jni_demo_system_monitor.GrowList.Kinds.{who_list_create, who_list_push, who_list_destroy}
use jni_demo_system_monitor.GrowList.{GrowList}

-- `struct utmp`
pub record Utmp : Type 0 where
  pub kind : ℕ
  pub user : Bytes
  pub line : Bytes
  pub host : Bytes
  pub time : ℕ

-- USER_PROCESS
abbrev pub user_process : ℕ
user_process = 7

-- `sysm_who_t`
pub record Who : Type 0 where
  pub user : Bytes
  pub device : Bytes
  pub host : Bytes
  pub time : ℕ

-- `WHOCPY`: its test of the sizes is never true, since each array is as long as its source.
unfoldable pub whocpy : ℕ → Bytes → Option Bytes
whocpy size text = if ltb (length text) size then some text else none

unfoldable pub to_who : Utmp → Option Who
unfolding whocpy
to_who ut = whocpy 32 ut.user >>= λ user. whocpy 32 ut.line >>= λ device.
    whocpy 256 ut.host >>= λ host.
    some (record { user = user; device = device; host = host; time = ut.time })

-- A record that neither `continue` skips.
unfoldable pub is_login : Utmp → Bool
is_login ut = not (length ut.user == 0) && (ut.kind == user_process)

unfoldable pub who_loop : List Utmp → GrowList Who → Option (GrowList Who)
unfolding to_who is_login who_list_push
who_loop [] l = some l
who_loop (ut ∷ uts) l =
    let skipped = who_loop uts l in
    let kept = to_who ut >>= λ who. who_list_push who l >>= who_loop uts in
    if is_login ut then kept else skipped

-- The opened file is an errno or its records.
unfoldable pub who_utmp : ℕ ⊎ List Utmp → GrowList Who → Option (ℕ × GrowList Who)
unfolding who_loop
who_utmp (inl errno) l = some (errno, l)
who_utmp (inr uts) l = who_loop uts l >>= λ filled. some (sysm_ok, filled)

abbrev pub who_result : ℕ × GrowList Who → ℕ × GrowList Who
who_result (status, l) = (status, if status == sysm_ok then l else who_list_destroy l)

unfoldable pub who_list_get : ℕ ⊎ List Utmp → Option (ℕ × GrowList Who)
unfolding who_utmp who_list_create who_list_destroy
who_list_get file = who_utmp file who_list_create >>= λ r. some (who_result r)
