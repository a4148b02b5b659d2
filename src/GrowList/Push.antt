-- ===== src/GrowList/Push.antt =====
-- The growable lists of sysm-native/src/main/sysm.c when they are filled.
use native.Mathlib.Numerals.{add-one}
use jni_demo_system_monitor.Base.{
  ℕ, zero, suc, ◌+◌, ◌≤◌, ◌<◌, List, [], ◌∷◌, ◌++◌, append_assoc, append-nil, Option, none, some,
  ◌>>=◌, ◌≡◌, refl, ap, sym, ◌∙◌, arith, length, length-append, length-set, length-replicate, set,
  replicate, leb, Bool-cases, inl, inr, lt→ltb,
}
use jni_demo_system_monitor.GrowList.{
  GrowList, create, grow, reserve, store, push, read_slots, items,
}

module _ {A : Type 0} where
  -- The block has `size` slots, of which the first `number` are written.
  pub data Filled : ℕ → List (Option A) → Type 0 where
    rest : {slots : List (Option A)} → Filled zero slots
    item :
        {n : ℕ} {x : A} {slots : List (Option A)} → Filled n slots → Filled (suc n) (some x ∷ slots)

  pub record IsValid (l : GrowList A) : Type 0 where
    pub block : length l.slots ≡ l.size
    pub filled : Filled l.number l.slots

  Filled-le : {n : ℕ} {slots : List (Option A)} → Filled n slots → n ≤ length slots
  Filled-le rest = omega arith
  Filled-le (item f) = omega (arith, Filled-le f)

  Filled-append :
      {n : ℕ} {slots : List (Option A)} (more : List (Option A))
      → Filled n slots
      → Filled n (slots ++ more)
  Filled-append more rest = rest
  Filled-append more (item f) = item (Filled-append more f)

  read_slots-append :
      {n : ℕ} {slots : List (Option A)} (more : List (Option A))
      → Filled n slots
      → read_slots n (slots ++ more) ≡ read_slots n slots
  unfolding read_slots
  read_slots-append {n = zero} more f = refl
  read_slots-append more (item {x = x} f) = ap (◌∷◌ x) (read_slots-append more f)

  pub Filled-set :
      {n : ℕ} {slots : List (Option A)} (x : A)
      → Filled n slots
      → n < length slots
      → Filled (suc n) (set slots n (some x))
  Filled-set {slots = []} x rest h = absurd (omega arith)
  Filled-set {slots = s ∷ slots} x rest h = item rest
  Filled-set x (item f) h = item (Filled-set x f (omega arith))

  pub read_slots-set :
      {n : ℕ} {slots : List (Option A)} (x : A)
      → Filled n slots
      → n < length slots
      → read_slots (suc n) (set slots n (some x)) ≡ read_slots n slots ++ x ∷ []
  unfolding read_slots
  read_slots-set {slots = []} x rest h = absurd (omega arith)
  read_slots-set {slots = s ∷ slots} x rest h = refl
  read_slots-set x (item {x = y} f) h = ap (◌∷◌ y) (read_slots-set x f (omega arith))

  Filled-length :
      {n : ℕ} {slots : List (Option A)} → Filled n slots → length (read_slots n slots) ≡ n
  unfolding read_slots
  Filled-length rest = refl
  Filled-length (item f) = ap suc (Filled-length f)

  -- A new list is well-formed and empty.
  pub create-IsValid : (max : ℕ) → IsValid (create {A = A} max) × (items (create {A = A} max) ≡ [])
  unfolding create items read_slots
  create-IsValid max = (record { block = length-replicate max none; filled = rest }, refl)

  grow-IsValid :
      (max : ℕ) (l : GrowList A) → IsValid l → IsValid (grow max l) × (items (grow max l) ≡ items l)
  unfolding grow items
  grow-IsValid max l v = (
    record {
      block = omega (
        arith,
        length-append l.slots (replicate max none),
        v.block,
        length-replicate {A = Option A} max none,
      );
      filled = Filled-append (replicate max none) v.filled;
    },
    read_slots-append (replicate max none) v.filled,
  )

  -- A store that was reserved for.
  pub store_lem :
      (x : A) (l : GrowList A)
      → IsValid l
      → l.number < l.size
      → (l' : GrowList A) × (store x l ≡ some l')
        × IsValid l'
        × (items l' ≡ items l ++ x ∷ [])
        × (l'.size ≡ l.size)
  unfolding store items
  store_lem x l v room =
      let fits : l.number < length l.slots = omega (arith, v.block) in
      (
        record l { slots = set l.slots l.number (some x); number = suc l.number },
        rw (lt→ltb l.number (length l.slots) fits, add-one),
        record {
          block = length-set l.slots l.number (some x) ∙ v.block;
          filled = Filled-set x v.filled fits;
        },
        read_slots-set x v.filled fits,
        refl,
      )

  Filled-number : (l : GrowList A) → IsValid l → length (items l) ≡ l.number
  unfolding items
  Filled-number l v = Filled-length v.filled

  pub reserve_room :
      (max : ℕ) (l : GrowList A)
      → 0 < max
      → IsValid l
      → IsValid (reserve max l)
        × ((reserve max l).number < (reserve max l).size)
        × (items (reserve max l) ≡ items l)
  unfolding reserve
  reserve_room max l pos v =
      let bound = Filled-le v.filled in
      let (grown, same) = grow-IsValid max l v in
      elim (Bool-cases (leb l.size l.number)) [
        | inl full ↦
            let h : l.size ≤ l.number = ground arith in
            rw full (grown, omega (arith, v.block), same)
        | inr space ↦ let h : l.number < l.size = ground arith in rw space (v, h, refl)
      ]

  reserve_lem :
      (max : ℕ) (l : GrowList A)
      → 0 < max
      → IsValid l
      → l.size ≤ l.number + max
      → IsValid (reserve max l)
        × ((reserve max l).number < (reserve max l).size)
        × (items (reserve max l) ≡ items l)
        × ((reserve max l).size ≤ l.number + 1 + max)
  unfolding reserve
  reserve_lem max l pos v tight =
      let (valid, room, same) = reserve_room max l pos v in
      let bound = Filled-le v.filled in (valid, room, same, ground (arith, v.block))

  -- Pushing onto a well-formed list, whatever its size, never stores outside the block, and appends
  -- the item.
  pub push-IsValid :
      (max : ℕ) (x : A) (l : GrowList A)
      → 0 < max
      → IsValid l
      → (l' : GrowList A) × (push max x l ≡ some l') × IsValid l' × (items l' ≡ items l ++ x ∷ [])
  unfolding push
  push-IsValid max x l pos v =
      let (v1, room, same) = reserve_room max l pos v in
      let (l', runs, v2, more, size) = store_lem x (reserve max l) v1 room in
      (l', runs, v2, more ∙ ap (λ (xs : List A). xs ++ x ∷ []) same)

  -- Pushing onto a well-formed list never stores outside the block, and appends the item. The size
  -- stays within `max` slots of the number.
  pub push_lem :
      (max : ℕ) (x : A) (l : GrowList A)
      → 0 < max
      → IsValid l
      → l.size ≤ l.number + max
      → (l' : GrowList A) × (push max x l ≡ some l')
        × IsValid l'
        × (items l' ≡ items l ++ x ∷ [])
        × (l'.number ≡ l.number + 1)
        × (l'.size ≤ l'.number + max)
  unfolding push
  push_lem max x l pos v tight =
      let (v1, room, same, close) = reserve_lem max l pos v tight in
      let (l', runs, v2, more, size) = store_lem x (reserve max l) v1 room in
      let all : items l' ≡ items l ++ x ∷ [] = more ∙ ap (λ (xs : List A). xs ++ x ∷ []) same in
      let counted : l'.number ≡ l.number + 1 = omega (
        arith,
        Filled-number l' v2,
        Filled-number l v,
        ap (length {A = A}) all,
        length-append (items l) (x ∷ []),
      ) in
      (l', runs, v2, all, counted, omega arith)

  -- A loop that pushes each item.
  unfoldable pub push_all : ℕ → List A → GrowList A → Option (GrowList A)
  push_all max [] l = some l
  push_all max (x ∷ xs) l = push max x l >>= push_all max xs

  push_all_lem :
      (max : ℕ) (xs : List A) (l : GrowList A)
      → 0 < max
      → IsValid l
      → l.size ≤ l.number + max
      → (l' : GrowList A) × (push_all max xs l ≡ some l')
        × IsValid l'
        × (items l' ≡ items l ++ xs)
        × (l'.size ≤ l'.number + max)
  unfolding push_all
  push_all_lem max [] l pos v tight = (l, refl, v, sym (append-nil (items l)), tight)
  push_all_lem max (x ∷ xs) l pos v tight =
      let (l1, runs, v1, more, counted, tight1) = push_lem max x l pos v tight in
      let (l2, runs2, v2, more2, tight2) = push_all_lem max xs l1 pos v1 tight1 in
      (
        l2,
        rw runs runs2,
        v2,
        more2 ∙ ap (λ (ys : List A). ys ++ xs) more ∙ append_assoc (items l) (x ∷ []) xs,
        tight2,
      )

  -- Filling a new list, whatever its step of growth: no store is outside the block, the list then
  -- holds exactly the items in order, and at most one step more slots than items.
  pub push_all-create :
      (max : ℕ) (xs : List A)
      → 0 < max
      → (l : GrowList A) × (push_all max xs (create max) ≡ some l)
        × (items l ≡ xs)
        × (l.number ≡ length xs)
        × (length l.slots ≡ l.size)
        × (l.size ≤ length xs + max)
  push_all-create max xs pos =
      let (v, empty) = create-IsValid max in
      let tight : (create {A = A} max).size ≤ (create {A = A} max).number + max =
        unfold create in omega arith in
      let (l, runs, valid, all, close) = push_all_lem max xs (create max) pos v tight in
      let same : items l ≡ xs = all ∙ ap (λ (ys : List A). ys ++ xs) empty in
      let counted : l.number ≡ length xs = sym (Filled-number l valid) ∙ ap (length {A = A}) same in
      (l, runs, same, counted, valid.block, omega arith)
