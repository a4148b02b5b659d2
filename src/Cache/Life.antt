-- ===== src/Cache/Life.antt =====
-- A cache from `sysm_cache_new` to `sysm_cache_destroy`.
use mathlib.Core.List.{flatten}
use jni_demo_system_monitor.Base.{
  ℕ, zero, suc, ◌+◌, ◌*◌, ◌%◌, ◌<◌, true, false, List, [], ◌∷◌, ◌++◌, append_assoc, none, ◌≡◌, refl,
  arith, set, replicate, get_or-replicate, u32_mod, ltb, Option, some,
}
use jni_demo_system_monitor.Cache.Chain.{TouchResult, touch_lem}
use jni_demo_system_monitor.Cache.Rehash.{emptied, rehash_lem}
use jni_demo_system_monitor.Cache.Table.{bucket, view, IsValid, replicate-IsValid, replicate-view}
use jni_demo_system_monitor.Cache.{
  Chain, Cache, Effect, due, expired_cache_new, cache_new, append_entry, insert, get_step,
  cache_get, perform_cleanup_if_necessary, destroy_chain, destroy_all, cache_destroy,
}

module _ {V : Type 0} where
  -- A new cache of a positive size is well-formed and holds nothing, whatever its periods; one
  -- made by `sysm_cache_new` is never due for a cleanup.
  pub expired_cache_new_lem :
      (size period expire now : ℕ)
      → 0 < size
      → size < u32_mod
      → IsValid {V = V} (expired_cache_new size period expire now)
        × ((q : ℕ) → view {V = V} (expired_cache_new size period expire now) q ≡ none)
        × ((later : ℕ) → due {V = V} later (cache_new size now) ≡ false)
  unfolding expired_cache_new cache_new due
  expired_cache_new_lem size period expire now pos small =
      let t : Cache V = expired_cache_new size period expire now in
      (
        replicate-IsValid t pos small (omega arith) refl,
        λ q. replicate-view t q refl,
        λ later. refl,
      )

  -- `sysm_cache_destroy` frees the values of the entries that the table still reaches.
  pub cache_destroy-flatten : (t : Cache V) → cache_destroy t ≡ destroy_chain (flatten t.entries)
  unfolding cache_destroy flatten
  cache_destroy-flatten t = go t.entries
    where
      append : (a b : Chain V) → destroy_chain (a ++ b) ≡ destroy_chain a ++ destroy_chain b
      append [] b = refl
      append (e ∷ a) b = rw (append a b, append_assoc)

      go : (cs : List (Chain V)) → destroy_all cs ≡ destroy_chain (flatten cs)
      go [] = refl
      go (c ∷ cs) = rw (go cs, append c (flatten cs))

  destroy_fresh :
      (n i now k : ℕ)
      → destroy_all {V = V}
          (set (replicate n []) i (record { id = k; value = none; last_access_time = now } ∷ []))
        ≡ []
  unfolding destroy_all replicate
  destroy_fresh zero i now k = refl
  destroy_fresh (suc n) zero now k = destroy_nothing n
    where
      destroy_nothing : (n : ℕ) → destroy_all {V = V} (replicate n []) ≡ []
      destroy_nothing zero = refl
      destroy_nothing (suc n) = destroy_nothing n
  destroy_fresh (suc n) (suc i) now k = destroy_fresh n i now k

  insert_leak :
      (now k : ℕ) (t : Cache V) (freed : List V) (lost : Chain V)
      → t.count ≡ t.size
      → t.count + 1 < u32_mod
      → cache_destroy (insert now k t freed lost).cache ≡ []
  unfolding insert append_entry cache_destroy emptied
  insert_leak now k t freed lost full small =
      let counted : (t.count + 1) % u32_mod ≡ t.count + 1 = omega arith in
      let over : ltb t.size (t.count + 1) ≡ true = ground arith in
      let n = ((t.count + 1) * 2 + 1) % u32_mod in
      rw
        (
          counted,
          over,
          rehash_lem (record t { count = t.count + 1 }),
          get_or-replicate {A = Chain V} n (k % n) [],
        )
        (destroy_fresh n (k % n) now k)

  get_step_leak :
      (now k : ℕ) (swept : Effect V) (r : Option (Chain V × Option V))
      → TouchResult now k (bucket swept.cache k) r
      → view swept.cache k ≡ none
      → swept.cache.count ≡ swept.cache.size
      → swept.cache.count + 1 < u32_mod
      → cache_destroy (get_step now k swept r).0.cache ≡ []
  unfolding get_step view
  get_step_leak now k swept (some (c, v)) h absent full small = absurd (cc (h.found))
  get_step_leak now k swept none h absent full small =
      insert_leak now k swept.cache swept.freed swept.lost full small

  -- After a `sysm_cache_get` of a new key on a table whose count has reached its size,
  -- `sysm_cache_destroy` frees nothing: the values of all earlier entries are leaked.
  pub cache_destroy-cache_get_full :
      (now later k : ℕ) (t : Cache V)
      → view (perform_cleanup_if_necessary now t).cache k ≡ none
      → (perform_cleanup_if_necessary now t).cache.count
        ≡ (perform_cleanup_if_necessary now t).cache.size
      → (perform_cleanup_if_necessary now t).cache.count + 1 < u32_mod
      → cache_destroy (cache_get now later t k).0.cache ≡ []
  unfolding cache_get
  cache_destroy-cache_get_full now later k t absent full small =
      let swept = perform_cleanup_if_necessary now t in
      get_step_leak later k swept _ (touch_lem later k (bucket swept.cache k)) absent full small
