-- ===== src/Cache/Chain.antt =====
-- One chain of the cache: what it holds, and what touching, appending, assigning and sweeping do.
use jni_demo_system_monitor.Base.{
  ℕ, ◌+◌, ◌-◌, ◌%◌, ◌≤◌, ◌<◌, true, false, [], ◌∷◌, ◌++◌, Option, none, some, ◌≡◌, refl, arith,
  length, All, ◌==◌, if◌then◌else◌, u32_mod, inl, inr, Bool-cases, suc, ap,
}
use jni_demo_system_monitor.Cache.{Entry, Chain, expired, touch, assign, sweep_chain, destroy_chain}

module _ {ℓ} {V : Type ℓ} where
  -- The value of the first entry of that id.
  unfoldable pub value_of : ℕ → Chain V → Option (Option V)
  value_of q [] = none
  value_of q (e ∷ c) = let rest = value_of q c in if e.id == q then some e.value else rest

  unfoldable pub occurs : ℕ → Chain V → ℕ
  occurs q [] = 0
  occurs q (e ∷ c) = (if e.id == q then 1 else 0) + occurs q c

  -- Every entry of the chain belongs into bucket `i` of `n`.
  abbrev pub InBucket : ℕ → ℕ → Chain V → Type 0
  InBucket n i = All (λ e. e.id % n ≡ i)

  -- The chain's live entries, at a time and a period.
  unfoldable pub live : ℕ → ℕ → Chain V → Chain V
  live now period [] = []
  live now period (e ∷ c) =
      let rest = live now period c in if expired now period e then rest else e ∷ rest

  unfoldable pub dead : ℕ → ℕ → Chain V → Chain V
  dead now period [] = []
  dead now period (e ∷ c) =
      let rest = dead now period c in if expired now period e then e ∷ rest else rest

  -- What `touch` leaves of a chain, as a record of equations.
  pub record Touched (now q : ℕ) (c c' : Chain V) (v : Option V) : Type ℓ where
    pub found : value_of q c ≡ some v
    pub same : (k : ℕ) → value_of k c' ≡ value_of k c
    pub occurs_same : (k : ℕ) → occurs k c' ≡ occurs k c
    pub length_same : length c' ≡ length c
    pub placed : (n i : ℕ) → InBucket n i c → InBucket n i c'

  pub occurs-eq-zero : (q : ℕ) (c : Chain V) → value_of q c ≡ none → occurs q c ≡ 0
  unfolding occurs value_of
  occurs-eq-zero q [] h = refl
  occurs-eq-zero q (e ∷ c) h = ground (arith, occurs-eq-zero q c)

  pub value_of-eq-none : (q : ℕ) (c : Chain V) → occurs q c ≡ 0 → value_of q c ≡ none
  unfolding occurs value_of
  value_of-eq-none q [] h = refl
  value_of-eq-none q (e ∷ c) h = ground (arith, value_of-eq-none q c)

  pub value_of-append :
      (q : ℕ) (c : Chain V) (e : Entry V)
      → value_of q (c ++ e ∷ [])
        ≡ elim (value_of q c) [ some v ↦ some v | none ↦ if e.id == q then some e.value else none ]
  unfolding value_of
  value_of-append q [] e = refl
  value_of-append q (x ∷ c) e = rw (value_of-append q c e) (ground arith)

  pub occurs-append : (q : ℕ) (b c : Chain V) → occurs q (b ++ c) ≡ occurs q b + occurs q c
  unfolding occurs
  occurs-append q [] c = omega arith
  occurs-append q (e ∷ b) c = omega (arith, occurs-append q b c)

  pub value_of-assign :
      (q k : ℕ) (v : V) (c : Chain V)
      → value_of q (assign k v c)
        ≡ elim (value_of q c) [ some old ↦ some (if k == q then some v else old) | none ↦ none ]
  unfolding value_of assign
  value_of-assign q k v [] = refl
  value_of-assign q k v (e ∷ c) = ground (arith, value_of-assign q k v c)

  pub occurs-assign : (q k : ℕ) (v : V) (c : Chain V) → occurs q (assign k v c) ≡ occurs q c
  unfolding occurs assign
  occurs-assign q k v [] = refl
  occurs-assign q k v (e ∷ c) = ground (arith, occurs-assign q k v c)

  pub length-assign : (k : ℕ) (v : V) (c : Chain V) → length (assign k v c) ≡ length c
  unfolding assign
  length-assign k v [] = refl
  length-assign k v (e ∷ c) = ground (arith, length-assign k v c)

  pub assign-InBucket :
      (n i k : ℕ) (v : V) (c : Chain V) → InBucket n i c → InBucket n i (assign k v c)
  unfolding assign
  assign-InBucket n i k v [] h = tt
  assign-InBucket n i k v (e ∷ c) h = ground (arith, assign-InBucket n i k v c)

  Touched-cons :
      {now q : ℕ} {c c' : Chain V} {v : Option V} (e : Entry V)
      → (e.id == q) ≡ false
      → Touched now q c c' v
      → Touched now q (e ∷ c) (e ∷ c') v
  unfolding value_of occurs
  Touched-cons e other t = record {
    found = rw other t.found;
    same = λ k. rw (t.same k);
    occurs_same = λ k. rw (t.occurs_same k);
    length_same = rw t.length_same;
    placed = λ n i h. (h.0, t.placed n i h.1);
  }

  Touched-here :
      (now q : ℕ) (e : Entry V) (c : Chain V)
      → (e.id == q) ≡ true
      → Touched now q (e ∷ c) (record e { last_access_time = now } ∷ c) e.value
  unfolding value_of occurs
  Touched-here now q e c hit = record {
    found = rw hit;
    same = λ k. refl;
    occurs_same = λ k. refl;
    length_same = refl;
    placed = λ n i h. h;
  }

  -- The loop finds the entry or proves that there is none.
  abbrev pub TouchResult : ℕ → ℕ → Chain V → Option (Chain V × Option V) → Type ℓ
  TouchResult now q c none = value_of q c ≡ none
  TouchResult now q c (some (c', v)) = Touched now q c c' v

  touch_rest :
      (now q : ℕ) (e : Entry V) (c : Chain V) (r : Option (Chain V × Option V))
      → (e.id == q) ≡ false
      → TouchResult now q c r
      → TouchResult now q (e ∷ c) (elim r [ none ↦ none | some (c', v) ↦ some (e ∷ c', v) ])
  unfolding value_of
  touch_rest now q e c none miss h = rw miss h
  touch_rest now q e c (some (c', v)) miss h = Touched-cons e miss h

  pub touch_lem : (now q : ℕ) (c : Chain V) → TouchResult now q c (touch now q c)
  unfolding touch
  touch_lem now q [] = unfold value_of in refl
  touch_lem now q (e ∷ c) = elim (Bool-cases (e.id == q)) [
    | inl hit ↦ rw hit (Touched-here now q e c hit)
    | inr miss ↦ rw miss (touch_rest now q e c (touch now q c) miss (touch_lem now q c))
  ]

  -- A sweep keeps the live entries in order, frees the values of the dead ones, and counts them
  -- off, if the count covers them.
  pub sweep_chain_lem :
      (now period : ℕ) (c : Chain V) (count : ℕ)
      → length (dead now period c) ≤ count
      → count < u32_mod
      → sweep_chain now period c count
        ≡ (live now period c, destroy_chain (dead now period c), count - length (dead now period c))
  unfolding sweep_chain live dead destroy_chain
  sweep_chain_lem now period [] count h fits = ground arith
  sweep_chain_lem now period (e ∷ c) count h fits =
      let gone_or_kept = Bool-cases (expired now period e) in
      elim gone_or_kept [
        | inl gone ↦
            let room : suc (length (dead now period c)) ≤ count = rw gone at h in
            rw
              (
                gone,
                sweep_chain_lem now period c ((count + u32_mod - 1) % u32_mod) (omega arith)
                    (omega arith),
              )
              (ap (λ (k : ℕ). (live now period c, destroy_chain (e ∷ dead now period c), k))
                (omega arith))
        | inr kept ↦
            let room : length (dead now period c) ≤ count = rw kept at h in
            rw (kept, sweep_chain_lem now period c count room fits)
      ]

  pub length-live-dead :
      (now period : ℕ) (c : Chain V)
      → length (live now period c) + length (dead now period c) ≡ length c
  unfolding live dead
  length-live-dead now period [] = omega arith
  length-live-dead now period (e ∷ c) = ground (arith, length-live-dead now period c)

  pub live-InBucket :
      (now period n i : ℕ) (c : Chain V) → InBucket n i c → InBucket n i (live now period c)
  unfolding live
  live-InBucket now period n i [] h = tt
  live-InBucket now period n i (e ∷ c) h = ground (arith, live-InBucket now period n i c)

  pub occurs-live : (now period q : ℕ) (c : Chain V) → occurs q (live now period c) ≤ occurs q c
  unfolding live occurs
  occurs-live now period q [] = omega arith
  occurs-live now period q (e ∷ c) = ground (arith, occurs-live now period q c)
