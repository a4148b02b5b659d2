-- ===== src/Cache.antt =====
-- The cache of sysm-native/src/main/sysm_util.c: a hash table of chains from a 64-bit id to a value,
-- whose entries expire. A chain is a list in the order of its `next` pointers; the pointer to an
-- entry that a call returns is the entry's id, through which `set_value` writes. What a call frees,
-- and the entries that it leaves unreachable without freeing them, are outputs of the call.
pub mod Chain
pub mod Table
pub mod Access
pub mod Rehash
pub mod Cleanup
pub mod Life
use mathlib.Core.List.{flatten}
use jni_demo_system_monitor.Base.{
  ℕ, ◌+◌, ◌-◌, ◌*◌, ◌/◌, ◌%◌, Bool, true, false, List, [], ◌∷◌, ◌++◌, Option, none, some, length,
  get_or, set, replicate, ltb, ◌==◌, if◌then◌else◌, u32_mod, u64_mod,
}

pub record Entry {ℓ} (V : Type ℓ) : Type ℓ where
  pub id : ℕ
  pub value : Option V
  pub last_access_time : ℕ

abbrev pub Chain {ℓ} : Type ℓ → Type ℓ
Chain V = List (Entry V)

pub record Cache {ℓ} (V : Type ℓ) : Type ℓ where
  pub entries : List (Chain V)
  pub count : ℕ
  pub size : ℕ
  pub entry_expire_period : ℕ
  pub cleanup_period_millis : ℕ
  pub last_cleanup_time : ℕ

-- The table after a call, the values given to `free_value`, and the entries that are allocated but
-- no longer reachable from the table.
pub record Effect {ℓ} (V : Type ℓ) : Type ℓ where
  pub cache : Cache V
  pub freed : List V
  pub lost : Chain V

-- `(sysm_uint64_t) -1`, the period of a cache that is never cleaned.
abbrev pub never : ℕ
never = u64_mod - 1

module _ {ℓ} {V : Type ℓ} where
  unfoldable pub expired_cache_new : ℕ → ℕ → ℕ → ℕ → Cache V
  expired_cache_new size clean_up_period_millis entry_expire_period now = record {
    entries = replicate size [];
    count = 0;
    size = size;
    entry_expire_period = entry_expire_period;
    cleanup_period_millis = clean_up_period_millis;
    last_cleanup_time = now;
  }

  unfoldable pub cache_new : ℕ → ℕ → Cache V
  unfolding expired_cache_new
  cache_new size now = expired_cache_new size never never now

  -- The `while (entry)` loop of `sysm_cache_rehash`: `entry->next` becomes the head of the new
  -- chain, and the new chain's head is left as it is. So the new array comes out as it went in,
  -- and each entry, now in front of that chain, is reachable from nowhere.
  unfoldable pub rehash_chain : ℕ → List (Chain V) → Chain V → List (Chain V) × Chain V
  rehash_chain new_size new_entries [] = (new_entries, [])
  rehash_chain new_size new_entries (entry ∷ next) =
      let (new_entries', lost) = rehash_chain new_size new_entries next in
      (new_entries', entry ∷ lost)

  unfoldable pub rehash_all : ℕ → List (Chain V) → List (Chain V) → List (Chain V) × Chain V
  unfolding rehash_chain
  rehash_all new_size new_entries [] = (new_entries, [])
  rehash_all new_size new_entries (chain ∷ chains) =
      let (new_entries', lost) = rehash_chain new_size new_entries chain in
      let (new_entries'', lost') = rehash_all new_size new_entries' chains in
      (new_entries'', lost ++ lost')

  unfoldable pub rehash : Cache V → Cache V × Chain V
  rehash table =
      let new_size = (table.count * 2 + 1) % u32_mod in
      let (new_entries, lost) = rehash_all new_size (replicate new_size []) table.entries in
      (record table { entries = new_entries; size = new_size }, lost)

  -- Whether the entry has not been used for longer than the period.
  unfoldable pub expired : ℕ → ℕ → Entry V → Bool
  expired now period e = ltb period ((now + u64_mod - e.last_access_time) % u64_mod)

  abbrev pub free_value : Option V → List V
  free_value none = []
  free_value (some v) = v ∷ []

  -- The loop of the cleanup over one chain: what stays linked, the values freed, and the count.
  unfoldable pub sweep_chain : ℕ → ℕ → Chain V → ℕ → Chain V × List V × ℕ
  sweep_chain now period [] count = ([], [], count)
  sweep_chain now period (e ∷ next) count =
      let gone = expired now period e in
      let (kept, freed, count') =
        sweep_chain now period next (if gone then (count + u32_mod - 1) % u32_mod else count) in
      if gone then (kept, free_value e.value ++ freed, count') else (e ∷ kept, freed, count')

  unfoldable pub sweep_all : ℕ → ℕ → List (Chain V) → ℕ → List (Chain V) × List V × ℕ
  sweep_all now period [] count = ([], [], count)
  sweep_all now period (chain ∷ chains) count =
      let (kept, freed, count') = sweep_chain now period chain count in
      let (kepts, freeds, count'') = sweep_all now period chains count' in
      (kept ∷ kepts, freed ++ freeds, count'')

  -- The test at the end of the cleanup.
  unfoldable pub shrink : Cache V → List V → Effect V
  shrink table freed =
      if ltb table.count (table.size / 4)
      then (let (table', lost) = rehash table in
          record { cache = table'; freed = freed; lost = lost })
      else record { cache = table; freed = freed; lost = [] }

  unfoldable pub due : ℕ → Cache V → Bool
  due now table =
      if table.cleanup_period_millis == never
      then false
      else if ltb ((now + u64_mod - table.last_cleanup_time) % u64_mod) table.cleanup_period_millis
      then false
      else true

  unfoldable pub perform_cleanup_if_necessary : ℕ → Cache V → Effect V
  perform_cleanup_if_necessary now table =
      if due now table
      then (let (kept, freed, count) =
            sweep_all now table.entry_expire_period table.entries table.count in
          shrink (record table { entries = kept; count = count; last_cleanup_time = now }) freed)
      else record { cache = table; freed = []; lost = [] }

  -- `SYSM_CACHE_IX`.
  abbrev pub ix : Cache V → ℕ → ℕ
  ix table key = key % table.size

  -- The loop over a chain: the chain with the entry's access time set, and the entry's value.
  unfoldable pub touch : ℕ → ℕ → Chain V → Option (Chain V × Option V)
  touch now key [] = none
  touch now key (e ∷ next) =
      let rest = touch now key next in
      if e.id == key
      then some (record e { last_access_time = now } ∷ next, e.value)
      else elim rest [ none ↦ none | some (next', v) ↦ some (e ∷ next', v) ]

  -- `*ptr = entry = malloc(...)` at the end of the key's chain.
  unfoldable pub append_entry : ℕ → ℕ → Cache V → Cache V
  append_entry now key table = record table {
    entries = set table.entries (ix table key) (
        get_or table.entries (ix table key) []
        ++ record { id = key; value = none; last_access_time = now } ∷ []);
  }

  -- The part of `sysm_cache_get` for a key that is not there.
  unfoldable pub insert : ℕ → ℕ → Cache V → List V → Chain V → Effect V
  insert now key table freed lost =
      let grown = record table { count = (table.count + 1) % u32_mod } in
      if ltb grown.size grown.count
      then (let (wide, lost') = rehash grown in
          record { cache = append_entry now key wide; freed = freed; lost = lost ++ lost' })
      else record { cache = append_entry now key grown; freed = freed; lost = lost }

  -- What follows the loop over the key's chain, by what the loop found.
  unfoldable pub get_step : ℕ → ℕ → Effect V → Option (Chain V × Option V) → Effect V × Option V
  get_step now key swept (some (chain, v)) =
      let t = swept.cache in
      (record swept { cache = record t { entries = set t.entries (ix t key) chain } }, v)
  get_step now key swept none = (insert now key swept.cache swept.freed swept.lost, none)

  -- The effect, and the value of the entry that is returned. `now` is the time that the cleanup
  -- reads, `later` the time of the access.
  unfoldable pub cache_get : ℕ → ℕ → Cache V → ℕ → Effect V × Option V
  unfolding get_step
  cache_get now later table key =
      let swept = perform_cleanup_if_necessary now table in
      let t = swept.cache in
      get_step later key swept (touch later key (get_or t.entries (ix t key) []))

  unfoldable pub find_step :
      ℕ → Effect V → Option (Chain V × Option V) → Effect V × Option (Option V)
  find_step key swept (some (chain, v)) =
      let t = swept.cache in
      (record swept { cache = record t { entries = set t.entries (ix t key) chain } }, some v)
  find_step key swept none = (swept, none)

  -- `none` is NULL.
  unfoldable pub cache_find : ℕ → ℕ → Cache V → ℕ → Effect V × Option (Option V)
  unfolding find_step
  cache_find now later table key =
      let swept = perform_cleanup_if_necessary now table in
      let t = swept.cache in find_step key swept (touch later key (get_or t.entries (ix t key) []))

  -- `entry->value = v` by the caller of `sysm_cache_get`, on the entry of that id.
  unfoldable pub assign : ℕ → V → Chain V → Chain V
  assign key v [] = []
  assign key v (e ∷ next) =
      let rest = assign key v next in
      if e.id == key then record e { value = some v } ∷ next else e ∷ rest

  unfoldable pub set_value : Cache V → ℕ → V → Cache V
  unfolding assign
  set_value table key v = record table {
    entries =
        set table.entries (ix table key) (assign key v (get_or table.entries (ix table key) []));
  }

  -- The values freed by `sysm_cache_destroy`, in order.
  unfoldable pub destroy_chain : Chain V → List V
  destroy_chain [] = []
  destroy_chain (e ∷ next) = free_value e.value ++ destroy_chain next

  unfoldable pub destroy_all : List (Chain V) → List V
  unfolding destroy_chain
  destroy_all [] = []
  destroy_all (chain ∷ chains) = destroy_chain chain ++ destroy_all chains

  unfoldable pub cache_destroy : Cache V → List V
  unfolding destroy_all
  cache_destroy table = destroy_all table.entries
