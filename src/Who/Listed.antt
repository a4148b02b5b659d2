-- ===== src/Who/Listed.antt =====
-- What `sysm_who_list_get` of sysm-native/src/main/sysm.c lists.
use jni_demo_system_monitor.Base.{
  ◌<◌, ◌≡◌, refl, List, [], ◌∷◌, inl, inr, some, lt→ltb, if◌then◌else◌, Bool-cases, length, All,
  arith, sysm_ok, bind-cong,
}
use jni_demo_system_monitor.GrowList.Kinds.{who_list_create, who_list_push}
use jni_demo_system_monitor.GrowList.Push.{push_all, push_all-create}
use jni_demo_system_monitor.GrowList.{GrowList, items, create, push, who_list_max}
use jni_demo_system_monitor.Who.{
  Utmp, Who, whocpy, to_who, is_login, who_loop, who_utmp, who_list_get,
}

-- The texts of a record that are terminated in their arrays.
abbrev pub IsTerminated : Utmp → Type 0
IsTerminated ut = (length ut.user < 32) × (length ut.line < 32) × (length ut.host < 256)

abbrev pub who_of : Utmp → Who
who_of ut = record { user = ut.user; device = ut.line; host = ut.host; time = ut.time }

-- The logins, in order.
pub logins : List Utmp → List Who
logins [] = []
logins (ut ∷ uts) = let rest = logins uts in if is_login ut then who_of ut ∷ rest else rest

to_who-IsTerminated : (ut : Utmp) → IsTerminated ut → to_who ut ≡ some (who_of ut)
unfolding to_who whocpy
to_who-IsTerminated ut (user, line, host) =
    rw
      (
        lt→ltb (length ut.user) 32 user,
        lt→ltb (length ut.line) 32 line,
        lt→ltb (length ut.host) 256 host,
      )
      refl

who_loop-push_all :
    (uts : List Utmp) (l : GrowList Who)
    → All IsTerminated uts
    → who_loop uts l ≡ push_all who_list_max (logins uts) l
unfolding who_loop logins push_all who_list_push
who_loop-push_all [] l fits = refl
who_loop-push_all (ut ∷ uts) l (fit, fits) = elim (Bool-cases (is_login ut)) [
  | inl login ↦
      rw (login, to_who-IsTerminated ut fit)
        (bind-cong (push who_list_max (who_of ut) l) _ _ (λ l' _. who_loop-push_all uts l' fits))
  | inr other ↦ rw other (who_loop-push_all uts l fits)
]

-- For a file whose records have terminated texts, `sysm_who_list_get` succeeds and stores nothing
-- outside its block, and the list then holds the records of user processes with a name, in the order
-- of the file, with their texts and times.
pub who_list_get-logins :
    (uts : List Utmp)
    → All IsTerminated uts
    → (l : GrowList Who) × (who_list_get (inr uts) ≡ some (sysm_ok, l)) × (items l ≡ logins uts)
unfolding who_list_get who_utmp who_list_create
who_list_get-logins uts fits =
    let (l, runs, all, _, _, _) = push_all-create who_list_max (logins uts) (omega arith) in
    (l, rw (who_loop-push_all uts (create who_list_max) fits, runs) refl, all)
