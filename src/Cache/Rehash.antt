-- ===== src/Cache/Rehash.antt =====
-- What `sysm_cache_rehash` leaves of a table.
use mathlib.Core.List.{flatten}
use jni_demo_system_monitor.Base.{
  ℕ, ◌+◌, ◌*◌, ◌%◌, ◌<◌, List, [], ◌∷◌, none, ◌≡◌, refl, arith, replicate, u32_mod,
}
use jni_demo_system_monitor.Cache.Table.{
  view, IsValid, replicate-IsValid, replicate-view, flatten-replicate,
}
use jni_demo_system_monitor.Cache.{Chain, Cache, rehash_chain, rehash_all, rehash}

module _ {V : Type 0} where
  rehash_chain_lem :
      (n : ℕ) (fresh : List (Chain V)) (c : Chain V) → rehash_chain n fresh c ≡ (fresh, c)
  unfolding rehash_chain
  rehash_chain_lem n fresh [] = refl
  rehash_chain_lem n fresh (e ∷ c) = rw (rehash_chain_lem n fresh c)

  rehash_all_lem :
      (n : ℕ) (fresh : List (Chain V)) (cs : List (Chain V))
      → rehash_all n fresh cs ≡ (fresh, flatten cs)
  unfolding rehash_all flatten
  rehash_all_lem n fresh [] = refl
  rehash_all_lem n fresh (c ∷ cs) = rw (rehash_chain_lem n fresh c, rehash_all_lem n fresh cs)

  -- The table after a rehash, and the entries lost.
  unfoldable pub emptied : Cache V → Cache V
  emptied t = let n = (t.count * 2 + 1) % u32_mod in record t { entries = replicate n []; size = n }

  pub rehash_lem : (t : Cache V) → rehash t ≡ (emptied t, flatten t.entries)
  unfolding rehash emptied
  rehash_lem t = rw (rehash_all_lem _ (replicate ((t.count * 2 + 1) % u32_mod) []) t.entries)

  pub emptied-IsValid : (t : Cache V) → t.count * 2 + 1 < u32_mod → IsValid (emptied t)
  unfolding emptied
  emptied-IsValid t h = replicate-IsValid (emptied t) (omega arith) (omega arith) (omega arith) refl

  pub emptied-view : (t : Cache V) (q : ℕ) → view (emptied t) q ≡ none
  unfolding emptied
  emptied-view t q = replicate-view (emptied t) q refl

  pub emptied_count :
      (t : Cache V)
      → t.count * 2 + 1 < u32_mod
      → ((emptied t).count ≡ t.count)
        × ((emptied t).size ≡ t.count * 2 + 1)
        × (flatten (emptied t).entries ≡ [])
  unfolding emptied
  emptied_count t h = (refl, omega arith, flatten-replicate _)

  -- A rehash loses every entry of the table, frees no value, and leaves the count as it was: the
  -- new table holds nothing for any key.
  pub rehash_loses_all :
      (t : Cache V) (q : ℕ)
      → (view (rehash t).0 q ≡ none)
        × ((rehash t).1 ≡ flatten t.entries)
        × ((rehash t).0.count ≡ t.count)
  rehash_loses_all t q = rw (rehash_lem t) (emptied-view t q, refl, unfold emptied in refl)
