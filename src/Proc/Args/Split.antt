-- ===== src/Proc/Args/Split.antt =====
-- The arguments that `sysm_proc_args_get` finds in the bytes of /proc/PID/cmdline.
use jni_demo_system_monitor.Base.{
  ℕ, zero, suc, ◌≤◌, ◌≡◌, refl, sym, ap, ◌∙◌, arith, false, List, [], ◌∷◌, ◌++◌, append-nil,
  append_assoc, inr, inl, some, ◌==◌, if◌then◌else◌, length, All, Bytes, sysm_ok, Bool-cases,
}
use jni_demo_system_monitor.GrowList.Kinds.{proc_args_create, proc_args_push}
use jni_demo_system_monitor.GrowList.Push.{IsValid, push-IsValid, create-IsValid}
use jni_demo_system_monitor.GrowList.{GrowList, items, read_slots, proc_args_max, create}
use jni_demo_system_monitor.Proc.Args.{span_nul, read_args, os_proc_args_get, proc_args_get}

-- The strings of a buffer: each ends at a NUL, the last one at the latest at the end.
pub onto_first : ℕ → List Bytes → List Bytes
onto_first c [] = (c ∷ []) ∷ []
onto_first c (w ∷ ws) = (c ∷ w) ∷ ws

pub split_nul : Bytes → List Bytes
split_nul [] = []
split_nul (c ∷ s) = let more = split_nul s in if c == 0 then [] ∷ more else onto_first c more

-- Strings, each with its NUL.
unfoldable pub join_nul : List Bytes → Bytes
join_nul [] = []
join_nul (w ∷ ws) = w ++ 0 ∷ join_nul ws

length-span_nul : (s : Bytes) → length (span_nul s).1 ≤ length s
unfolding span_nul
length-span_nul [] = omega arith
length-span_nul (c ∷ s) = ground (arith, length-span_nul s)

-- One round of the loop takes the first string.
split_nul_span :
    (c : ℕ) (s : Bytes) → split_nul (c ∷ s) ≡ (span_nul (c ∷ s)).0 ∷ split_nul (span_nul (c ∷ s)).1
unfolding split_nul span_nul onto_first
split_nul_span c [] = ground arith
split_nul_span c (x ∷ s) = elim (Bool-cases (c == 0)) [
  | inl e ↦ rw e
  | inr e ↦ rw (e, split_nul_span x s)
]

span_nul_shorter : (c : ℕ) (s : Bytes) → length (span_nul (c ∷ s)).1 ≤ length s
unfolding span_nul
span_nul_shorter c s = ground (arith, length-span_nul s)

read_args-split_nul :
    (fuel : ℕ) (s : Bytes) (l : GrowList Bytes)
    → length s ≤ fuel
    → IsValid l
    → (l' : GrowList Bytes) × (read_args fuel s l ≡ some l')
      × IsValid l'
      × (items l' ≡ items l ++ split_nul s)
unfolding read_args split_nul proc_args_push
read_args-split_nul fuel [] l enough v = (l, refl, v, sym (append-nil (items l)))
read_args-split_nul zero (c ∷ s) l enough v = absurd (omega arith)
read_args-split_nul (suc fuel) (c ∷ s) l enough v =
    let (arg, left) = span_nul (c ∷ s) in
    let (l1, pushed, v1, more) = push-IsValid proc_args_max arg l (omega arith) v in
    let (l2, runs, v2, all) =
      read_args-split_nul fuel left l1 (omega (arith, span_nul_shorter c s)) v1 in
    (
      l2,
      rw (pushed, read_args) runs,
      v2,
      all
          ∙ ap (λ (xs : List Bytes). xs ++ split_nul left) more
          ∙ append_assoc (items l) (arg ∷ []) (split_nul left)
          ∙ ap (λ (xs : List Bytes). items l ++ xs) (sym (split_nul_span c s)),
    )

-- `sysm_proc_args_get` ends on whatever bytes the file has, without a store outside the list, and
-- the list then holds exactly the strings that end at a NUL or at the end, in order.
pub proc_args_get-split_nul :
    (s : Bytes)
    → (l : GrowList Bytes) × (proc_args_get (inr s) ≡ some (sysm_ok, l)) × (items l ≡ split_nul s)
unfolding proc_args_get os_proc_args_get proc_args_create split_nul
proc_args_get-split_nul [] =
    (record (create proc_args_max) { number = 0 }, refl, unfold items read_slots in refl)
proc_args_get-split_nul (c ∷ s) =
    let (v, empty) = create-IsValid {A = Bytes} proc_args_max in
    let (l, runs, v', all) =
      read_args-split_nul (length (c ∷ s)) (c ∷ s) (create proc_args_max) (omega arith) v in
    (l, rw runs refl, all ∙ ap (λ (xs : List Bytes). xs ++ split_nul (c ∷ s)) empty)

split_nul-word :
    (w s : Bytes) → All (λ c. (c == 0) ≡ false) w → split_nul (w ++ 0 ∷ s) ≡ w ∷ split_nul s
unfolding split_nul onto_first
split_nul-word [] s h = refl
split_nul-word (c ∷ w) s (hc, hw) = rw (hc, split_nul-word w s hw)

split_nul-join_nul :
    (ws : List Bytes) → All (All (λ c. (c == 0) ≡ false)) ws → split_nul (join_nul ws) ≡ ws
unfolding split_nul join_nul
split_nul-join_nul [] h = refl
split_nul-join_nul (w ∷ ws) (hw, hs) =
    split_nul-word w (join_nul ws) hw ∙ ap (◌∷◌ w) (split_nul-join_nul ws hs)

-- The arguments that a process was started with, none of which has a NUL in it, are read back from
-- the file in which the kernel writes each with a NUL behind it.
pub proc_args_get-join_nul :
    (ws : List Bytes)
    → All (All (λ c. (c == 0) ≡ false)) ws
    → (l : GrowList Bytes) × (proc_args_get (inr (join_nul ws)) ≡ some (sysm_ok, l))
      × (items l ≡ ws)
proc_args_get-join_nul ws h =
    let (l, runs, all) = proc_args_get-split_nul (join_nul ws) in
    (l, runs, all ∙ split_nul-join_nul ws h)
