-- ===== src/Cpu/Listing.antt =====
-- The loop of `sysm_cpu_list_get` over the lines of /proc/stat, without folding.
use jni_demo_system_monitor.Base.{
  ℕ, zero, suc, ◌+◌, ◌-◌, ◌≤◌, ◌<◌, false, List, [], ◌∷◌, ◌++◌, append-nil, append_assoc, Option,
  some, ◌≡◌, refl, ap, sym, ◌∙◌, arith, length, get_elem?, set, if◌then◌else◌, Bytes, codes,
  Bool-cases, inl, inr, length-set,
}
use jni_demo_system_monitor.Cpu.{
  Cpu, zero_cpu, get_cpu_metrics, metrics_last, read_cpus, metrics_at,
}
use jni_demo_system_monitor.Double.{Double}
use jni_demo_system_monitor.GrowList.Kinds.{cpu_list_push}
use jni_demo_system_monitor.GrowList.Push.{
  IsValid, Filled, item, rest, push_lem, Filled-set, read_slots-set,
}
use jni_demo_system_monitor.GrowList.{GrowList, items, read_slots, cpu_max}
use jni_demo_system_monitor.Text.{starts_with}
use mathlib.Core.List.{map}

module _ {A : Type 0} where
  snoc-injective : (xs ys : List A) (x y : A) → xs ++ x ∷ [] ≡ ys ++ y ∷ [] → (xs ≡ ys) × (x ≡ y)
  snoc-injective [] [] x y e = (refl, cc e)
  snoc-injective [] (b ∷ []) x y e = absurd (cc e)
  snoc-injective [] (b ∷ c ∷ ys) x y e = absurd (cc e)
  snoc-injective (a ∷ []) [] x y e = absurd (cc e)
  snoc-injective (a ∷ b ∷ xs) [] x y e = absurd (cc e)
  snoc-injective (a ∷ xs) (b ∷ ys) x y e =
      let (same, last) = snoc-injective xs ys x y (cc e) in (cc (e, same), last)

  -- The item in the last written slot.
  last_slot :
      {n : ℕ} {slots : List (Option A)}
      → Filled (suc n) slots
      → (y : A) × (get_elem? slots n ≡ some (some y))
        × (read_slots (suc n) slots ≡ read_slots n slots ++ y ∷ [])
        × (n < length slots)
        × Filled n slots
  unfolding read_slots
  last_slot {n = zero} (item {x = x} f) = (x, refl, refl, omega arith, rest)
  last_slot {n = suc n} (item {x = x} f) =
      let (y, found, read, inside, written) = last_slot f in
      (y, found, ap (◌∷◌ x) read, omega (arith, inside), item written)

-- The lines in front of the first that is not of a CPU.
pub cpu_lines : List Bytes → List Bytes
cpu_lines [] = []
cpu_lines (line ∷ lines) =
    let more = cpu_lines lines in if starts_with (codes "cpu") line then line ∷ more else []

module _ (d : Double) (ticks : ℕ) where
  -- Reading a line into the item that was pushed last.
  metrics_last_lem :
      (line : Bytes) (l : GrowList Cpu) (n : ℕ) (xs : List Cpu) (x : Cpu)
      → l.number ≡ suc n
      → IsValid l
      → items l ≡ xs ++ x ∷ []
      → (l' : GrowList Cpu) × (metrics_last d ticks line l ≡ some l')
        × IsValid l'
        × (items l' ≡ xs ++ get_cpu_metrics d ticks x line ∷ [])
        × (l'.number ≡ l.number)
        × (l'.size ≡ l.size)
  unfolding metrics_last metrics_at items
  metrics_last_lem line l n xs x counted valid all =
      let (y, found, read, inside, written) = last_slot {n = n} (rw counted at valid.filled) in
      let (same, last) =
        snoc-injective (read_slots n l.slots) xs y x (sym read ∙ rw counted at all) in
      let new = get_cpu_metrics d ticks x line in
      let before : l.number - 1 ≡ n = omega (arith, counted) in
      (
        record l { slots = set l.slots n (some new) },
        ap (λ (i : ℕ). metrics_at d ticks line l i (get_elem? l.slots i)) before
            ∙ ap (metrics_at d ticks line l n) found
            ∙ ap (λ (c : Cpu). metrics_at d ticks line l n (some (some c))) last,
        record {
          block = length-set l.slots n (some new) ∙ valid.block;
          filled = rw counted (Filled-set new written inside);
        },
        rw counted
            (read_slots-set new written inside ∙ ap (λ (zs : List Cpu). zs ++ new ∷ []) same),
        refl,
        refl,
      )

  -- Without folding, the loop succeeds on a well-formed list, without a store outside its block, and
  -- appends one item for each line of a CPU, in order, with the metrics of that line alone.
  pub read_cpus-lines :
      (lcpu i : ℕ) (lines : List Bytes) (l : GrowList Cpu)
      → IsValid l
      → l.size ≤ l.number + cpu_max
      → (l' : GrowList Cpu) × (read_cpus d ticks false lcpu i lines l ≡ some l')
        × IsValid l'
        × (items l' ≡ items l ++ map (get_cpu_metrics d ticks zero_cpu) (cpu_lines lines))
  unfolding read_cpus cpu_lines cpu_list_push
  read_cpus-lines lcpu i [] l valid tight = (l, refl, valid, sym (append-nil (items l)))
  read_cpus-lines lcpu i (line ∷ lines) l valid tight =
      let (l1, pushed, valid1, more, counted, tight1) =
        push_lem cpu_max zero_cpu l (omega arith) valid tight in
      let (l2, read, valid2, all, number2, size2) =
        metrics_last_lem line l1 l.number (items l) zero_cpu (omega (arith, counted)) valid1 more in
      let (l3, runs, valid3, others) =
        read_cpus-lines lcpu (i + 1) lines l2 valid2 (omega (arith, number2, size2, tight1)) in
      elim (Bool-cases (starts_with (codes "cpu") line)) [
        | inl e ↦ (
          l3,
          rw (e, pushed, read) runs,
          valid3,
          rw e (
              others
              ∙ ap
                  (λ (xs : List Cpu).
                    xs ++ map (get_cpu_metrics d ticks zero_cpu) (cpu_lines lines))
                  all
              ∙ append_assoc (items l) _ _),
        )
        | inr e ↦ (l, rw e refl, valid, rw e (sym (append-nil (items l))))
      ]
