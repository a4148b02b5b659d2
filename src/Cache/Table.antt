-- ===== src/Cache/Table.antt =====
-- The well-formed tables, what a table holds, and a write to one bucket.
use mathlib.Core.List.{flatten}
use jni_demo_system_monitor.Base.{
  ℕ, zero, suc, ◌+◌, ◌≤◌, ◌<◌, List, [], ◌∷◌, Option, none, ◌≡◌, refl, arith, length, get_or, set,
  replicate, length-append, length-set, length-replicate, get_or-replicate, get_or-set, ◌==◌,
  if◌then◌else◌, u32_mod, ◌∙◌, if-both, ==_iff, sym,
}
use jni_demo_system_monitor.Cache.Chain.{value_of, occurs, InBucket}
use jni_demo_system_monitor.Cache.{Chain, Cache, ix}

module _ {ℓ} {A : Type ℓ} where
  -- A write to one chain changes the number of entries by what the chain gains or loses.
  pub flatten-set-length :
      (chains : List (List A)) (at : ℕ) (new : List A)
      → at < length chains
      → length new + length (flatten chains)
        ≡ length (get_or chains at []) + length (flatten (set chains at new))
  unfolding flatten
  flatten-set-length (old ∷ chains) zero new inside =
      let before = length-append old (flatten chains) in
      let after = length-append new (flatten chains) in omega (arith, before, after)
  flatten-set-length (first ∷ chains) (suc at) new inside =
      let rest = flatten-set-length chains at new (omega arith) in
      let before = length-append first (flatten chains) in
      let after = length-append first (flatten (set chains at new)) in
      omega (arith, before, after, rest)
  flatten-set-length [] at new inside = absurd (omega arith)

  pub flatten-replicate : (n : ℕ) → flatten (replicate {A = List A} n []) ≡ []
  unfolding flatten replicate
  flatten-replicate zero = refl
  flatten-replicate (suc n) = flatten-replicate n

module _ {V : Type 0} where
  -- The chain that a key belongs into, and the value that the table holds for it: `none` where it
  -- has no entry, `some none` where the entry's value is NULL.
  abbrev pub bucket : Cache V → ℕ → Chain V
  bucket t q = get_or t.entries (ix t q) []

  unfoldable pub view : Cache V → ℕ → Option (Option V)
  view t q = value_of q (bucket t q)

  -- As many chains as the size says, at most `count` entries, each in the bucket of its id, and at
  -- most one for an id.
  pub record IsValid (t : Cache V) : Type 0 where
    pub size_pos : 0 < t.size
    pub size_fits : t.size < u32_mod
    pub count_fits : t.count ≤ t.size
    pub width : length t.entries ≡ t.size
    pub counted : length (flatten t.entries) ≤ t.count
    pub placed : (i : ℕ) → InBucket t.size i (get_or t.entries i [])
    pub unique : (i q : ℕ) → occurs q (get_or t.entries i []) ≤ 1

  pub replicate-IsValid :
      (t : Cache V)
      → 0 < t.size
      → t.size < u32_mod
      → t.count ≤ t.size
      → t.entries ≡ replicate t.size []
      → IsValid t
  unfolding occurs
  replicate-IsValid t pos small fits e = record {
    size_pos = pos;
    size_fits = small;
    count_fits = fits;
    width = rw e (length-replicate t.size []);
    counted = rw (e, flatten-replicate t.size) (omega arith);
    placed = λ i. rw (e, get_or-replicate {A = Chain V} t.size i []) tt;
    unique = λ i q. rw (e, get_or-replicate {A = Chain V} t.size i []) (omega arith);
  }

  pub replicate-view : (t : Cache V) (q : ℕ) → t.entries ≡ replicate t.size [] → view t q ≡ none
  unfolding view value_of
  replicate-view t q e = rw (e, get_or-replicate {A = Chain V} t.size (ix t q) [])

  -- The table with the key's chain replaced, and a new count.
  abbrev pub set_bucket : Cache V → ℕ → Chain V → ℕ → Cache V
  set_bucket t k c count = record t { entries = set t.entries (ix t k) c; count = count }

  module _ (t : Cache V) (valid : IsValid t) (k : ℕ) (c : Chain V) (count : ℕ) where
    ix-lt : ix t k < length t.entries
    ix-lt = rw valid.width (let pos = valid.size_pos in grind arith)

    pub set_bucket-IsValid :
        InBucket t.size (ix t k) c
        → ((q : ℕ) → occurs q c ≤ 1)
        → length (flatten t.entries) + length c ≤ count + length (bucket t k)
        → count ≤ t.size
        → IsValid (set_bucket t k c count)
    set_bucket-IsValid placed unique counted fits = record {
      size_pos = valid.size_pos;
      size_fits = valid.size_fits;
      count_fits = fits;
      width = length-set t.entries (ix t k) c ∙ valid.width;
      counted = omega (arith, flatten-set-length t.entries (ix t k) c ix-lt);
      placed = λ i. rw (get_or-set t.entries (ix t k) i c [] ix-lt) (
          if-both (InBucket t.size i) (ix t k == i) c (get_or t.entries i [])
            (λ e. rw (sym ((==_iff (ix t k) i).0 e)) placed) (λ _. valid.placed i));
      unique = λ i q. rw (get_or-set t.entries (ix t k) i c [] ix-lt) (
          if-both (λ b. occurs q b ≤ 1) (ix t k == i) c (get_or t.entries i []) (λ _. unique q)
            (λ _. valid.unique i q));
    }

    pub set_bucket-view :
        (q : ℕ)
        → view (set_bucket t k c count) q ≡ (if ix t k == ix t q then value_of q c else view t q)
    unfolding view
    set_bucket-view q = rw (get_or-set t.entries (ix t k) (ix t q) c [] ix-lt) (
        if-both (λ b. value_of q b ≡ (if ix t k == ix t q then value_of q c else view t q))
          (ix t k == ix t q) c _ (λ e. rw e) (λ e. rw e))
