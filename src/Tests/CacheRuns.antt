-- ===== src/Tests/CacheRuns.antt =====
-- The cache of sysm-native/src/main/sysm_util.c on a table of two buckets.
use mathlib.Core.List.{flatten}
use jni_demo_system_monitor.Base.{
  ℕ, zero, suc, ◌<◌, [], ◌∷◌, none, some, inl, ◌≡◌, ◌≢◌, refl, arith, length, get_or, ◌++◌, false,
  true, replicate, get_or-replicate,
}
use jni_demo_system_monitor.Cache.Access.{
  Leaves, kept_with, with_key, cache_get-kept, cache_get-full, or_null,
}
use jni_demo_system_monitor.Cache.Chain.{InBucket, occurs, dead, live, value_of}
use jni_demo_system_monitor.Cache.Cleanup.{
  unexpired, cleanup_not_due, cleanup_keeps_live, cleanup_loses_live,
}
use jni_demo_system_monitor.Cache.Table.{bucket, view, IsValid}
use jni_demo_system_monitor.Cache.{
  Cache, Effect, never, due, expired, perform_cleanup_if_necessary, cache_get, cache_find,
  destroy_chain, touch, rehash, rehash_all, sweep_all, sweep_chain, shrink, Chain,
}

-- Two entries in two buckets: the table is full. `period` is that of the cleanups.
abbrev two : ℕ → Cache ℕ
two period = record {
  entries =
      (record { id = 8; value = some 80; last_access_time = 5 } ∷ [])
      ∷ (record { id = 3; value = some 30; last_access_time = 50 } ∷ [])
      ∷ [];
  count = 2;
  size = 2;
  entry_expire_period = 20;
  cleanup_period_millis = period;
  last_cleanup_time = 0;
}

two_placed : (period i : ℕ) → InBucket 2 i (get_or (two period).entries i [])
two_placed period zero = omega arith
two_placed period (suc zero) = omega arith
two_placed period (suc (suc i)) = tt

two_unique : (period i q : ℕ) → occurs q (get_or (two period).entries i []) < 2
unfolding occurs
two_unique period zero q = ground arith
two_unique period (suc zero) q = ground arith
two_unique period (suc (suc i)) q = omega arith

two-IsValid : (period : ℕ) → IsValid (two period)
unfolding flatten
two-IsValid period = record {
  size_pos = omega arith;
  size_fits = omega arith;
  count_fits = omega arith;
  width = refl;
  counted = omega arith;
  placed = two_placed period;
  unique = λ i q. let h = two_unique period i q in omega arith;
}

abbrev unswept : Effect ℕ
unswept = perform_cleanup_if_necessary 60 (two never)

not_due : due 60 (two never) ≡ false
unfolding due
not_due = refl

unswept-IsValid : IsValid unswept.cache
unswept-IsValid = (cleanup_not_due 60 (two never) (two-IsValid never) not_due).valid

unswept_lacks : view unswept.cache 5 ≡ none
unfolding perform_cleanup_if_necessary due view value_of
unswept_lacks = refl

unswept_has : view unswept.cache 3 ≢ none
unfolding perform_cleanup_if_necessary due view value_of
unswept_has = cc

unswept_full : unswept.cache.count ≡ unswept.cache.size
unfolding perform_cleanup_if_necessary due
unswept_full = refl

unswept_count : unswept.cache.count ≡ 2
unfolding perform_cleanup_if_necessary due
unswept_count = refl

cache_get-kept_example :
    Leaves
      (kept_with 3 (view unswept.cache))
      unswept.freed
      unswept.lost
      (cache_get 60 61 (two never) 3).0
    × ((cache_get 60 61 (two never) 3).1 ≡ or_null (view unswept.cache 3))
cache_get-kept_example = cache_get-kept 60 61 3 (two never) unswept-IsValid (inl unswept_has)

cache_get-full_example :
    Leaves
      (with_key 5 (λ _. none))
      unswept.freed
      (unswept.lost ++ flatten unswept.cache.entries)
      (cache_get 60 61 (two never) 5).0
    × ((cache_get 60 61 (two never) 5).1 ≡ none)
cache_get-full_example =
    cache_get-full 60 61 5 (two never) unswept-IsValid unswept_lacks unswept_full
      (omega (arith, unswept_count))

has_three : view (two never) 3 ≢ none
unfolding view value_of
has_three = cc

-- A cleanup of the table at time 60 drops the entry of id 8, which was last used at 5.
due_sixty : due 60 (two 10) ≡ true
unfolding due
due_sixty = refl

one_dead : length (dead 60 20 (flatten (two 10).entries)) ≡ 1
unfolding dead expired flatten
one_dead = refl

cleanup_keeps_live_example :
    Leaves
      (λ q. unexpired 60 20 q (bucket (two 10) q))
      (destroy_chain (dead 60 20 (flatten (two 10).entries)))
      []
      (perform_cleanup_if_necessary 60 (two 10))
cleanup_keeps_live_example =
    cleanup_keeps_live 60 (two 10) (two-IsValid 10) due_sixty (omega (arith, one_dead))

-- The same entries in a table of 8 buckets, which is sparse after that cleanup.
abbrev eight : Cache ℕ
eight = record {
  entries =
      (record { id = 8; value = some 80; last_access_time = 5 } ∷ [])
      ∷ []
      ∷ []
      ∷ (record { id = 3; value = some 30; last_access_time = 50 } ∷ [])
      ∷ replicate 4 [];
  count = 2;
  size = 8;
  entry_expire_period = 20;
  cleanup_period_millis = 10;
  last_cleanup_time = 0;
}

eight_placed : (i : ℕ) → InBucket 8 i (get_or eight.entries i [])
eight_placed zero = omega arith
eight_placed (suc zero) = tt
eight_placed (suc (suc zero)) = tt
eight_placed (suc (suc (suc zero))) = omega arith
eight_placed (suc (suc (suc (suc i)))) = rw (get_or-replicate {A = Chain ℕ} 4 i []) tt

eight_unique : (i q : ℕ) → occurs q (get_or eight.entries i []) < 2
unfolding occurs
eight_unique zero q = ground arith
eight_unique (suc zero) q = omega arith
eight_unique (suc (suc zero)) q = omega arith
eight_unique (suc (suc (suc zero))) q = ground arith
eight_unique (suc (suc (suc (suc i)))) q = rw (get_or-replicate {A = Chain ℕ} 4 i []) (omega arith)

eight-IsValid : IsValid eight
unfolding flatten replicate
eight-IsValid = record {
  size_pos = omega arith;
  size_fits = omega arith;
  count_fits = omega arith;
  width = refl;
  counted = omega arith;
  placed = eight_placed;
  unique = λ i q. let h = eight_unique i q in omega arith;
}

due-eight : due 60 eight ≡ true
unfolding due
due-eight = refl

one_of_eight : length (dead 60 20 (flatten eight.entries)) ≡ 1
unfolding dead expired flatten replicate
one_of_eight = refl

cleanup_loses_live_example :
    Leaves
      (λ _. none)
      (destroy_chain (dead 60 20 (flatten eight.entries)))
      (live 60 20 (flatten eight.entries))
      (perform_cleanup_if_necessary 60 eight)
cleanup_loses_live_example =
    cleanup_loses_live 60 eight eight-IsValid due-eight (omega (arith, one_of_eight))

-- The live entry of id 3 is lost there: it was found before and is not found after.
lost_three : ((cache_find 5 5 eight 3).1 ≡ some (some 30)) × ((cache_find 60 60 eight 3).1 ≡ none)
unfolding cache_find perform_cleanup_if_necessary due touch sweep_all sweep_chain expired shrink
    rehash rehash_all replicate
lost_three = (refl, refl)
