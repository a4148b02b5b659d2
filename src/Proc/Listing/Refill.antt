-- ===== src/Proc/Listing/Refill.antt =====
-- What `sysm_proc_list_get` lists where threads are not processes.
use jni_demo_system_monitor.Base.{
  ℕ, ◌≡◌, refl, sym, ap, ◌∙◌, arith, true, List, [], ◌∷◌, ◌++◌, append-nil, append_assoc, inr, inl,
  Option, none, some, if◌then◌else◌, Bytes, sysm_ok, Bool-cases,
}
use jni_demo_system_monitor.GrowList.Kinds.{proc_list_push}
use jni_demo_system_monitor.GrowList.Push.{IsValid, rest, push-IsValid, create-IsValid}
use jni_demo_system_monitor.GrowList.{GrowList, items, read_slots, proc_list_max}
use jni_demo_system_monitor.Proc.Listing.{
  ProcDir, skips, pid_of, list_pids, signal_offset, os_proc_list_get, reuse, proc_list_get,
}
use jni_demo_system_monitor.Text.{is_digit, head_byte}

-- A list of process ids kept from a call before, if there was one.
abbrev pub WasValid : Option (GrowList ℕ) → Type 0
WasValid none = Unit
WasValid (some l) = IsValid l

reuse_lem :
    (dir : ProcDir) (pids : Option (GrowList ℕ))
    → WasValid pids
    → IsValid (reuse dir pids) × (items (reuse dir pids) ≡ [])
unfolding reuse items read_slots
reuse_lem dir none w = create-IsValid proc_list_max
reuse_lem dir (some l) w = (record { block = w.block; filled = rest }, refl)

module _ (dir : ProcDir) where
  -- The numbers of the entries whose names start with a digit, in order.
  pub pids_in : List Bytes → List ℕ
  pids_in [] = []
  pids_in (name ∷ names) =
      let more = pids_in names in if is_digit (head_byte name) then pid_of dir name ∷ more else more

  module _ (nptl : dir.has_nptl ≡ true) where
    list_pids-pids_in :
        (offset : ℕ) (names : List Bytes) (l : GrowList ℕ)
        → IsValid l
        → (l' : GrowList ℕ) × (list_pids dir offset names l ≡ some l')
          × IsValid l'
          × (items l' ≡ items l ++ pids_in names)
    unfolding list_pids skips pids_in proc_list_push
    list_pids-pids_in offset [] l v = (l, refl, v, sym (append-nil (items l)))
    list_pids-pids_in offset (name ∷ names) l v = elim (Bool-cases (is_digit (head_byte name))) [
      | inl e ↦
          let (l1, pushed, v1, more) =
            push-IsValid proc_list_max (pid_of dir name) l (omega arith) v in
          let (l2, runs, v2, all) = list_pids-pids_in offset names l1 v1 in
          (
            l2,
            rw (e, nptl, pushed) runs,
            v2,
            rw e (
                all
                ∙ ap (λ (xs : List ℕ). xs ++ pids_in names) more
                ∙ append_assoc (items l) (pid_of dir name ∷ []) (pids_in names)),
          )
      | inr e ↦
          let (l2, runs, v2, all) = list_pids-pids_in offset names l v in
          (l2, rw e runs, v2, rw e all)
    ]

    known : (offset : ℕ) → signal_offset dir offset ≡ some offset
    unfolding signal_offset
    known offset = rw nptl refl

    -- Where threads are not processes, `sysm_proc_list_get` succeeds on a directory that opens,
    -- and lists exactly the entries whose names start with a digit, in order, by the numbers in their
    -- names, whatever the list that is used again held, and without a store outside its block.
    pub proc_list_get-pids_in :
        (offset : ℕ) (names : List Bytes) (pids : Option (GrowList ℕ))
        → WasValid pids
        → (l' : GrowList ℕ) × (proc_list_get dir offset (inr names) pids
            ≡ some (sysm_ok, offset, l'))
          × IsValid l'
          × (items l' ≡ pids_in names)
    unfolding proc_list_get os_proc_list_get
    proc_list_get-pids_in offset names pids was =
        let (v, empty) = reuse_lem dir pids was in
        let (l', runs, v', all) = list_pids-pids_in offset names (reuse dir pids) v in
        (
          l',
          rw (known offset, runs) refl,
          v',
          all ∙ ap (λ (xs : List ℕ). xs ++ pids_in names) empty,
        )
