-- ===== src/Cache/Access.antt =====
-- `sysm_cache_get`, `sysm_cache_find` and the write to an entry, on a well-formed table: validity,
-- what is returned, and what the table holds afterwards.
use mathlib.Core.List.{flatten}
use jni_demo_system_monitor.Base.{
  ℕ, ◌+◌, ◌*◌, ◌%◌, ◌≤◌, ◌<◌, true, false, List, [], ◌∷◌, ◌++◌, Option, none, some, ◌≡◌, ◌≢◌, refl,
  sym, ◌∙◌, arith, length, length-append, ◌==◌, if◌then◌else◌, u32_mod, ltb, ◌⊎◌, inl, inr, set,
  Bool-cases, ==_iff, Option-cases,
}
use jni_demo_system_monitor.Cache.Chain.{
  value_of, occurs, InBucket, Touched, TouchResult, touch_lem, occurs-eq-zero, value_of-append,
  occurs-append, value_of-assign, occurs-assign, length-assign, assign-InBucket,
}
use jni_demo_system_monitor.Cache.Rehash.{
  emptied, rehash_lem, emptied-IsValid, emptied-view, emptied_count,
}
use jni_demo_system_monitor.Cache.Table.{bucket, view, IsValid, set_bucket-IsValid, set_bucket-view}
use jni_demo_system_monitor.Cache.{
  Entry, Chain, Cache, Effect, ix, append_entry, insert, perform_cleanup_if_necessary, cache_get,
  cache_find, set_value, assign, get_step, find_step,
}

module _ {V : Type 0} where
  InBucket-append :
      (n i : ℕ) (c : Chain V) (e : Entry V)
      → InBucket n i c
      → e.id % n ≡ i
      → InBucket n i (c ++ e ∷ [])
  InBucket-append n i [] e h p = (p, tt)
  InBucket-append n i (x ∷ c) e (hx, hc) p = (hx, InBucket-append n i c e hc p)

  abbrev fresh : ℕ → ℕ → Entry V
  fresh now k = record { id = k; value = none; last_access_time = now }

  -- Appending an entry for an absent key, where the count has room for it.
  module _ (now k : ℕ) (t : Cache V) (valid : IsValid t) (absent : view t k ≡ none) where
    append_occurs : (q : ℕ) → occurs q (bucket t k ++ fresh now k ∷ []) ≤ 1
    unfolding occurs view
    append_occurs q =
        rw occurs-append
          (ground (arith, occurs-eq-zero k (bucket t k) absent, valid.unique (ix t k) q))

    append-IsValid :
        (count : ℕ)
        → length (flatten t.entries) < count
        → count ≤ t.size
        → IsValid (append_entry now k (record t { count = count }))
    unfolding append_entry
    append-IsValid count room fits =
        set_bucket-IsValid t valid k (bucket t k ++ fresh now k ∷ []) count
          (InBucket-append t.size (ix t k) (bucket t k) (fresh now k) (valid.placed (ix t k)) refl)
          append_occurs (omega (arith, length-append (bucket t k) (fresh now k ∷ []))) fits

    append_value :
        (q : ℕ)
        → (if ix t k == ix t q then value_of q (bucket t k ++ fresh now k ∷ []) else view t q)
          ≡ (if k == q then some none else view t q)
    unfolding view
    append_value q = rw value_of-append (ground arith)

    append-view :
        (count q : ℕ)
        → view (append_entry now k (record t { count = count })) q
          ≡ (if k == q then some none else view t q)
    unfolding append_entry
    append-view count q =
        set_bucket-view t valid k (bucket t k ++ fresh now k ∷ []) count q ∙ append_value q

  -- After a call the table is well-formed and holds `f`; the call freed and lost these.
  pub record Leaves (f : ℕ → Option (Option V)) (freed : List V) (lost : Chain V) (r : Effect V)
      : Type 0 where
    pub valid : IsValid r.cache
    pub holds : (q : ℕ) → view r.cache q ≡ f q
    pub freed_are : r.freed ≡ freed
    pub lost_are : r.lost ≡ lost

  -- The table holds a new entry for `k` besides, or nothing else.
  abbrev pub with_key : ℕ → (ℕ → Option (Option V)) → ℕ → Option (Option V)
  with_key k f q = if k == q then some none else f q

  module _ (now k : ℕ) (t : Cache V) (valid : IsValid t) (absent : view t k ≡ none) (freed : List V)
      (lost : Chain V) where
    insert-roomy :
        t.count < t.size → Leaves (with_key k (view t)) freed lost (insert now k t freed lost)
    unfolding insert
    insert-roomy room =
        let counted : (t.count + 1) % u32_mod ≡ t.count + 1 = omega (arith, valid.size_fits) in
        let fits : ltb t.size (t.count + 1) ≡ false = ground arith in
        rw (counted, fits)
          (record {
            valid =
                append-IsValid now k t valid absent (t.count + 1) (omega (arith, valid.counted))
                  (omega arith);
            holds = append-view now k t valid absent (t.count + 1);
            freed_are = refl;
            lost_are = refl;
          })

    insert-full :
        t.count ≡ t.size
        → (t.count + 1) * 2 + 1 < u32_mod
        → Leaves
            (with_key k (λ _. none))
            freed
            (lost ++ flatten t.entries)
            (insert now k t freed lost)
    unfolding insert
    insert-full full small =
        let counted : (t.count + 1) % u32_mod ≡ t.count + 1 = omega (arith, valid.size_fits) in
        let over : ltb t.size (t.count + 1) ≡ true = ground arith in
        let grown = record t { count = t.count + 1 } in
        let wide = emptied grown in
        let wide_valid = emptied-IsValid grown small in
        let wide_absent = emptied-view grown k in
        let (same, size, none_left) = emptied_count grown small in
        rw (counted, over, rehash_lem grown)
          (record {
            valid =
                append-IsValid now k wide wide_valid wide_absent wide.count
                  (rw none_left (omega arith)) (omega arith);
            holds = λ q.
                append-view now k wide wide_valid wide_absent wide.count q
                ∙ rw (emptied-view grown q);
            freed_are = refl;
            lost_are = refl;
          })

  -- Touching an entry changes nothing that the table holds.
  Touched-Leaves :
      (now k : ℕ) (t : Cache V) (c : Chain V) (v : Option V) (freed : List V) (lost : Chain V)
      → IsValid t
      → Touched now k (bucket t k) c v
      → Leaves (view t) freed lost (record {
        cache = record t { entries = set t.entries (ix t k) c };
        freed = freed;
        lost = lost;
      })
  unfolding view
  Touched-Leaves now k t c v freed lost valid touched = record {
    valid =
        set_bucket-IsValid t valid k c t.count
          (touched.placed t.size (ix t k) (valid.placed (ix t k)))
          (λ q. rw (touched.occurs_same q) (valid.unique (ix t k) q))
          (rw (touched.length_same) (omega (arith, valid.counted))) valid.count_fits;
    holds = λ q. set_bucket-view t valid k c t.count q ∙ ground (arith, touched.same q);
    freed_are = refl;
    lost_are = refl;
  }

  abbrev pub or_null : Option (Option V) → Option V
  or_null none = none
  or_null (some v) = v

  -- The table holds an entry for `k`, new unless it was there.
  abbrev pub kept_with : ℕ → (ℕ → Option (Option V)) → ℕ → Option (Option V)
  kept_with k f q = if k == q then some (or_null (f k)) else f q

  Leaves-congr :
      {f g : ℕ → Option (Option V)} {freed : List V} {lost : Chain V} {r : Effect V}
      → ((q : ℕ) → f q ≡ g q)
      → Leaves f freed lost r
      → Leaves g freed lost r
  Leaves-congr h l = record {
    valid = l.valid;
    holds = λ q. l.holds q ∙ h q;
    freed_are = l.freed_are;
    lost_are = l.lost_are;
  }

  kept_with_found :
      (k : ℕ) (f : ℕ → Option (Option V)) (v : Option V)
      → f k ≡ some v
      → (q : ℕ) → f q ≡ kept_with k f q
  kept_with_found k f v h q = elim (Bool-cases (k == q)) [
    | inl e ↦ rw (e, h) (rw (← (==_iff k q).0 e) h)
    | inr e ↦ rw e
  ]

  kept_with_new :
      (k : ℕ) (f : ℕ → Option (Option V)) → f k ≡ none → (q : ℕ) → with_key k f q ≡ kept_with k f q
  kept_with_new k f h q = rw h

  module _ (now k : ℕ) (swept : Effect V) (valid : IsValid swept.cache) where
    get_step-kept :
        (r : Option (Chain V × Option V))
        → TouchResult now k (bucket swept.cache k) r
        → (view swept.cache k ≢ none) ⊎ (swept.cache.count < swept.cache.size)
        → Leaves (kept_with k (view swept.cache)) swept.freed swept.lost (get_step now k swept r).0
          × ((get_step now k swept r).1 ≡ or_null (view swept.cache k))
    unfolding get_step view
    get_step-kept (some (c, v)) h room = (
      Leaves-congr (kept_with_found k (view swept.cache) v h.found)
          (Touched-Leaves now k swept.cache c v swept.freed swept.lost valid h),
      rw h.found,
    )
    get_step-kept none h (inl there) = absurd (there h)
    get_step-kept none h (inr room) = (
      Leaves-congr (kept_with_new k (view swept.cache) h)
          (insert-roomy now k swept.cache valid h swept.freed swept.lost room),
      rw h,
    )

    get_step-full :
        (r : Option (Chain V × Option V))
        → TouchResult now k (bucket swept.cache k) r
        → view swept.cache k ≡ none
        → swept.cache.count ≡ swept.cache.size
        → (swept.cache.count + 1) * 2 + 1 < u32_mod
        → Leaves
            (with_key k (λ _. none))
            swept.freed
            (swept.lost ++ flatten swept.cache.entries)
            (get_step now k swept r).0
          × ((get_step now k swept r).1 ≡ none)
    unfolding get_step view
    get_step-full (some (c, v)) h absent full small = absurd (cc (h.found))
    get_step-full none h absent full small =
        (insert-full now k swept.cache valid h swept.freed swept.lost full small, refl)

    find_step_lem :
        (r : Option (Chain V × Option V))
        → TouchResult now k (bucket swept.cache k) r
        → Leaves (view swept.cache) swept.freed swept.lost (find_step k swept r).0
          × ((find_step k swept r).1 ≡ view swept.cache k)
    unfolding find_step view
    find_step_lem (some (c, v)) h =
        (Touched-Leaves now k swept.cache c v swept.freed swept.lost valid h, sym h.found)
    find_step_lem none h =
        (record { valid = valid; holds = λ q. refl; freed_are = refl; lost_are = refl }, sym h)

  module _ (now later k : ℕ) (t : Cache V) where
    abbrev swept : Effect V
    swept = perform_cleanup_if_necessary now t

    -- `sysm_cache_get` of a key that is there after the cleanup, or of a new key while the count
    -- is below the size, returns the key's value, NULL for a new one. The table then holds that
    -- entry, and for every other key what the cleanup left; nothing further is freed or lost.
    pub cache_get-kept :
        IsValid swept.cache
        → (view swept.cache k ≢ none) ⊎ (swept.cache.count < swept.cache.size)
        → Leaves (kept_with k (view swept.cache)) swept.freed swept.lost (cache_get now later t k).0
          × ((cache_get now later t k).1 ≡ or_null (view swept.cache k))
    unfolding cache_get
    cache_get-kept valid room =
        get_step-kept later k swept valid _ (touch_lem later k (bucket swept.cache k)) room

    -- `sysm_cache_get` of a new key while the count has reached the size rehashes the table: all
    -- entries that the cleanup left become unreachable, none of their values is freed, and the
    -- table holds nothing but the new entry.
    pub cache_get-full :
        IsValid swept.cache
        → view swept.cache k ≡ none
        → swept.cache.count ≡ swept.cache.size
        → (swept.cache.count + 1) * 2 + 1 < u32_mod
        → Leaves
            (with_key k (λ _. none))
            swept.freed
            (swept.lost ++ flatten swept.cache.entries)
            (cache_get now later t k).0
          × ((cache_get now later t k).1 ≡ none)
    unfolding cache_get
    cache_get-full valid absent full small =
        get_step-full later k swept valid _ (touch_lem later k (bucket swept.cache k)) absent full
          small

    -- `sysm_cache_find` returns what the table holds for the key after the cleanup, NULL if it has
    -- no entry, and changes nothing that the table holds.
    pub cache_find_lem :
        IsValid swept.cache
        → Leaves (view swept.cache) swept.freed swept.lost (cache_find now later t k).0
          × ((cache_find now later t k).1 ≡ view swept.cache k)
    unfolding cache_find
    cache_find_lem valid =
        find_step_lem later k swept valid _ (touch_lem later k (bucket swept.cache k))

  assign_value :
      (t : Cache V) (k q : ℕ) (v : V)
      → view t k ≢ none
      → (if ix t k == ix t q then value_of q (assign k v (bucket t k)) else view t q)
        ≡ (if k == q then some (some v) else view t q)
  unfolding view
  assign_value t k q v there = elim (Option-cases (value_of k (bucket t k))) [
    | inl e ↦ absurd (there e)
    | inr (old, e) ↦ rw value_of-assign (ground arith)
  ]

  -- Writing an entry's value keeps the table well-formed; the table then holds that value for the
  -- key, if it has an entry for it, and for every other key what it held.
  pub set_value_lem :
      (t : Cache V) (k : ℕ) (v : V)
      → IsValid t
      → view t k ≢ none
      → IsValid (set_value t k v)
        × ((q : ℕ) → view (set_value t k v) q ≡ (if k == q then some (some v) else view t q))
  unfolding set_value view
  set_value_lem t k v valid there = (
    set_bucket-IsValid t valid k (assign k v (bucket t k)) t.count
        (assign-InBucket t.size (ix t k) k v (bucket t k) (valid.placed (ix t k)))
        (λ q. rw (occurs-assign q k v (bucket t k)) (valid.unique (ix t k) q))
        (rw (length-assign k v (bucket t k)) (omega (arith, valid.counted))) valid.count_fits,
    λ q. set_bucket-view t valid k (assign k v (bucket t k)) t.count q ∙ assign_value t k q v there,
  )
