-- ===== src/Cache/Cleanup.antt =====
-- `sysm_perform_cleanup_if_necessary` on a well-formed table: which entries go, which values are
-- freed, and what the shrinking at its end does.
use mathlib.Core.List.{flatten, map}
use jni_demo_system_monitor.Base.{
  ℕ, zero, suc, ◌-◌, ◌/◌, ◌≤◌, ◌<◌, true, false, List, [], ◌∷◌, ◌++◌, append_assoc, Option, none,
  some, ◌≡◌, refl, ap, ◌∙◌, arith, length, length-append, get_or, ◌==◌, if◌then◌else◌, u32_mod, ltb,
  Bool-cases, inl, inr,
}
use jni_demo_system_monitor.Cache.Access.{Leaves}
use jni_demo_system_monitor.Cache.Chain.{
  value_of, occurs, live, dead, sweep_chain_lem, length-live-dead, live-InBucket, occurs-live,
}
use jni_demo_system_monitor.Cache.Rehash.{rehash_lem, emptied-IsValid, emptied-view}
use jni_demo_system_monitor.Cache.Table.{bucket, view, IsValid}
use jni_demo_system_monitor.Cache.{
  Chain, Cache, ix, expired, due, sweep_all, shrink, destroy_chain, perform_cleanup_if_necessary,
}

module _ {V : Type 0} (now period : ℕ) where
  live-append : (a b : Chain V) → live now period (a ++ b) ≡ live now period a ++ live now period b
  unfolding live
  live-append [] b = refl
  live-append (e ∷ a) b = elim (Bool-cases (expired now period e)) [
    | inl x ↦ rw (x, live-append a b)
    | inr x ↦ rw (x, live-append a b)
  ]

  dead-append : (a b : Chain V) → dead now period (a ++ b) ≡ dead now period a ++ dead now period b
  unfolding dead
  dead-append [] b = refl
  dead-append (e ∷ a) b = elim (Bool-cases (expired now period e)) [
    | inl x ↦ rw (x, dead-append a b)
    | inr x ↦ rw (x, dead-append a b)
  ]

  flatten-live :
      (cs : List (Chain V)) → flatten (map (live now period) cs) ≡ live now period (flatten cs)
  unfolding flatten
  flatten-live [] = unfold live in refl
  flatten-live (c ∷ cs) = rw (flatten-live cs, live-append c (flatten cs))

  destroy-append : (a b : Chain V) → destroy_chain (a ++ b) ≡ destroy_chain a ++ destroy_chain b
  unfolding destroy_chain
  destroy-append [] b = refl
  destroy-append (e ∷ a) b = rw (destroy-append a b, append_assoc)

  -- The loop over all chains: the live entries stay, the values of the dead are freed, and the
  -- dead are counted off.
  sweep_all_lem :
      (cs : List (Chain V)) (count : ℕ)
      → length (flatten cs) ≤ count
      → count < u32_mod
      → sweep_all now period cs count ≡ (
        map (live now period) cs,
        destroy_chain (dead now period (flatten cs)),
        count - length (dead now period (flatten cs)),
      )
  unfolding sweep_all flatten
  sweep_all_lem [] count h fits = unfold dead destroy_chain in ground arith
  sweep_all_lem (c ∷ cs) count h fits =
      let split = length-live-dead now period c in
      let total = length-append c (flatten cs) in
      rw
        (
          sweep_chain_lem now period c count (omega arith) fits,
          sweep_all_lem cs (count - length (dead now period c)) (omega arith) (omega arith),
          dead-append c (flatten cs),
          destroy-append (dead now period c) (dead now period (flatten cs)),
        )
        (ap
          (λ (k : ℕ). (
            live now period c ∷ map (live now period) cs,
            destroy_chain (dead now period c) ++ destroy_chain (dead now period (flatten cs)),
            k,
          ))
          (omega (arith, length-append (dead now period c) (dead now period (flatten cs)))))

  get_or-live :
      (cs : List (Chain V)) (i : ℕ)
      → get_or (map (live now period) cs) i [] ≡ live now period (get_or cs i [])
  get_or-live [] i = unfold live in refl
  get_or-live (c ∷ cs) zero = refl
  get_or-live (c ∷ cs) (suc i) = get_or-live cs i

  length-map : (cs : List (Chain V)) → length (map (live now period) cs) ≡ length cs
  length-map [] = refl
  length-map (c ∷ cs) = ap suc (length-map cs)

  -- The value of the key's entry, unless that has expired.
  pub unexpired : ℕ → Chain V → Option (Option V)
  unexpired q [] = none
  unexpired q (e ∷ c) =
      let rest = unexpired q c in
      if e.id == q then (if expired now period e then none else some e.value) else rest

  occurs-live_zero : (q : ℕ) (c : Chain V) → occurs q c ≡ 0 → value_of q (live now period c) ≡ none
  unfolding occurs live value_of
  occurs-live_zero q [] h = refl
  occurs-live_zero q (e ∷ c) h = ground (arith, occurs-live_zero q c)

  value_of-live :
      (q : ℕ) (c : Chain V) → occurs q c ≤ 1 → value_of q (live now period c) ≡ unexpired q c
  unfolding occurs live value_of unexpired
  value_of-live q [] h = refl
  value_of-live q (e ∷ c) h = ground (arith, value_of-live q c, occurs-live_zero q c)

module _ {V : Type 0} (now : ℕ) (t : Cache V) (valid : IsValid t) where
  abbrev all : Chain V
  all = flatten t.entries

  -- The table after the loops of the cleanup, before the test for shrinking.
  abbrev pub cleaned : Cache V
  cleaned = record t {
    entries = map (live now t.entry_expire_period) t.entries;
    count = t.count - length (dead now t.entry_expire_period all);
    last_cleanup_time = now;
  }

  abbrev freed_values : List V
  freed_values = destroy_chain (dead now t.entry_expire_period all)

  cleaned-IsValid : IsValid cleaned
  cleaned-IsValid =
      let p = t.entry_expire_period in
      let split = length-live-dead now p all in
      record {
        size_pos = valid.size_pos;
        size_fits = valid.size_fits;
        count_fits = omega (arith, valid.count_fits);
        width = length-map now p t.entries ∙ valid.width;
        counted = rw (flatten-live now p t.entries) (omega (arith, valid.counted));
        placed = λ i.
            rw (get_or-live now p t.entries i)
              (live-InBucket now p t.size i (get_or t.entries i []) (valid.placed i));
        unique = λ i q.
            rw (get_or-live now p t.entries i)
              (omega (arith, occurs-live now p q (get_or t.entries i []), valid.unique i q));
      }

  cleaned-view : (q : ℕ) → view cleaned q ≡ unexpired now t.entry_expire_period q (bucket t q)
  unfolding view
  cleaned-view q =
      rw (get_or-live now t.entry_expire_period t.entries (ix t q))
        (value_of-live now t.entry_expire_period q (bucket t q) (valid.unique (ix t q) q))

  perform-due : due now t ≡ true → perform_cleanup_if_necessary now t ≡ shrink cleaned freed_values
  unfolding perform_cleanup_if_necessary
  perform-due h = rw (
    h,
    sweep_all_lem now t.entry_expire_period t.entries t.count valid.counted
        (omega (arith, valid.count_fits, valid.size_fits)),
  )

  -- A cleanup that is not due does nothing.
  pub cleanup_not_due :
      due now t ≡ false → Leaves (view t) [] [] (perform_cleanup_if_necessary now t)
  unfolding perform_cleanup_if_necessary
  cleanup_not_due h =
      rw h (record { valid = valid; holds = λ q. refl; freed_are = refl; lost_are = refl })

  -- A cleanup that is due, and leaves at least a quarter of the size in the count, keeps the table
  -- well-formed, removes exactly the expired entries, frees exactly their values, in the order of
  -- the table, and loses nothing.
  pub cleanup_keeps_live :
      due now t ≡ true
      → t.size / 4 ≤ t.count - length (dead now t.entry_expire_period all)
      → Leaves
          (λ q. unexpired now t.entry_expire_period q (bucket t q))
          (destroy_chain (dead now t.entry_expire_period all))
          []
          (perform_cleanup_if_necessary now t)
  unfolding shrink
  cleanup_keeps_live h many =
      let wide : ltb (t.count - length (dead now t.entry_expire_period all)) (t.size / 4) ≡ false =
        ground arith in
      rw (perform-due h, wide)
        (record {
          valid = cleaned-IsValid;
          holds = cleaned-view;
          freed_are = refl;
          lost_are = refl;
        })

  -- A cleanup that is due, and leaves less than a quarter of the size in the count, frees the
  -- expired values too, but then rehashes: all live entries become unreachable, their values are
  -- not freed, and the table holds nothing.
  pub cleanup_loses_live :
      due now t ≡ true
      → t.count - length (dead now t.entry_expire_period all) < t.size / 4
      → Leaves
          (λ _. none)
          (destroy_chain (dead now t.entry_expire_period all))
          (live now t.entry_expire_period all)
          (perform_cleanup_if_necessary now t)
  unfolding shrink
  cleanup_loses_live h few =
      let small : ltb (t.count - length (dead now t.entry_expire_period all)) (t.size / 4) ≡ true =
        ground arith in
      rw (perform-due h, small, rehash_lem cleaned)
        (record {
          valid = emptied-IsValid cleaned (omega (arith, valid.size_fits));
          holds = emptied-view cleaned;
          freed_are = refl;
          lost_are = flatten-live now t.entry_expire_period t.entries;
        })
