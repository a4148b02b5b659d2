-- ===== src/CpuInfo/Model/Fitted.antt =====
-- The model that `sysm_cpu_model_adjust` of sysm-native/src/main/sysm_util.c stores fits its array.
use mathlib.Core.Path.{subst}
use jni_demo_system_monitor.Base.{
  ℕ, suc, ◌≤◌, ◌≡◌, refl, ap, Bool, true, List, [], ◌∷◌, Option, none, some, bind-some, if-both,
  ◌==◌, Bytes, codes, drop, length, length-drop, All, arith, leb, ◌++◌, false,
}
use jni_demo_system_monitor.CpuInfo.Model.{
  CpuInfo, cpu_models, is_blank, trim_end, drop_vendor, drop_dash, replace_model, cpu_model_adjust,
  keep_byte, name_of,
}
use jni_demo_system_monitor.Text.{drop_while, starts_with, head_byte}
use mathlib.Core.Option.{some-injective}

length-drop_while : (test : ℕ → Bool) (s : Bytes) → length (drop_while test s) ≤ length s
unfolding drop_while
length-drop_while test [] = omega arith
length-drop_while test (c ∷ s) =
    if-both (λ (t : Bytes). length t ≤ suc (length s)) (test c) _ _
      (λ _. omega (arith, length-drop_while test s)) (λ _. omega arith)

length-keep_byte :
    (c n : ℕ) (o : Option Bytes) (t : Bytes)
    → ((u : Bytes) → o ≡ some u → length u ≤ n)
    → keep_byte c o ≡ some t
    → length t ≤ suc n
length-keep_byte c n none t short e =
    if-both (λ (o : Option Bytes). o ≡ some t → length t ≤ suc n) (is_blank c) _ _
      (λ _ e. absurd (ground arith)) (λ _ e. omega (arith, ap length (some-injective (c ∷ []) t e)))
      e
length-keep_byte c n (some u) t short e =
    omega (arith, short u refl, ap length (some-injective (c ∷ u) t e))

length-trim_end : (s t : Bytes) → trim_end s ≡ some t → length t ≤ length s
unfolding trim_end
length-trim_end [] t e = absurd (ground arith)
length-trim_end (c ∷ s) t e = length-keep_byte c (length s) (trim_end s) t (length-trim_end s) e

length-drop_vendor : (vendor ptr : Bytes) → length (drop_vendor vendor ptr) ≤ length ptr
unfolding drop_vendor
length-drop_vendor vendor ptr =
    let behind = drop (length vendor) ptr in
    if-both (λ (t : Bytes). length t ≤ length ptr) (starts_with vendor ptr) _ _
      (λ _.
        if-both (λ (t : Bytes). length (drop_while is_blank t) ≤ length ptr)
          (starts_with (codes "(R)") behind) _ _
          (λ _. omega (
            arith,
            length-drop_while is_blank (drop 3 behind),
            length-drop 3 behind,
            length-drop (length vendor) ptr,
          ))
          (λ _. omega (arith, length-drop_while is_blank behind, length-drop (length vendor) ptr)))
      (λ _. omega arith)

length-drop_dash : (ptr : Bytes) → length (drop_dash ptr) ≤ length ptr
unfolding drop_dash
length-drop_dash ptr =
    if-both (λ (t : Bytes). length t ≤ length ptr) (head_byte ptr == b'-') _ _
      (λ _. omega (arith, length-drop 1 ptr)) (λ _. omega arith)

starts_with-length : (p s : Bytes) → starts_with p s ≡ true → length p ≤ length s
unfolding starts_with
starts_with-length [] s e = omega arith
starts_with-length (x ∷ p) [] e = absurd (ground arith)
starts_with-length (x ∷ p) (c ∷ s) e = ground (arith, starts_with-length p s)

-- No entry replaces a name by a longer one.
abbrev IsShorter : Bytes × Bytes → Type 0
IsShorter (name, rname) = leb (length rname) (length name) ≡ true

length-replace_model :
    (models : List (Bytes × Bytes)) (ptr : Bytes)
    → All IsShorter models
    → length (replace_model models ptr) ≤ length ptr
unfolding replace_model
length-replace_model [] ptr short = omega arith
length-replace_model ((name, rname) ∷ models) ptr (short, rest) =
    if-both (λ (t : Bytes). length t ≤ length ptr) (starts_with name ptr) _ _
      (λ e. let reaches = starts_with-length name ptr e in ground arith)
      (λ _. length-replace_model models ptr rest)

models-IsShorter : All IsShorter cpu_models
models-IsShorter = (
  refl,
  (
    refl,
    (
      refl,
      (refl, (refl, (refl, (refl, (refl, (refl, (refl, (refl, (refl, (refl, (refl, tt))))))))))),
    ),
  ),
)

length-name_of : (info : CpuInfo) (model : Bytes) → length (name_of info model) ≤ length model
unfolding name_of
length-name_of info model =
    let unspaced = drop_while is_blank model in
    let name = drop_vendor info.vendor unspaced in
    omega (
      arith,
      length-replace_model cpu_models (drop_dash name) models-IsShorter,
      length-drop_dash name,
      length-drop_vendor info.vendor unspaced,
      length-drop_while is_blank model,
    )

kept_byte : (c : ℕ) (o : Option Bytes) → is_blank c ≡ false → (t : Bytes) × (keep_byte c o ≡ some t)
kept_byte c none solid = (c ∷ [], rw solid refl)
kept_byte c (some t) solid = (c ∷ t, refl)

trim_end-solid :
    (xs ys : Bytes) (c : ℕ) → is_blank c ≡ false → (t : Bytes) × (trim_end (xs ++ c ∷ ys) ≡ some t)
unfolding trim_end
trim_end-solid [] ys c solid = kept_byte c (trim_end ys) solid
trim_end-solid (x ∷ xs) ys c solid =
    let (t, trimmed) = trim_end-solid xs ys c solid in (x ∷ t, rw trimmed refl)

adjust-bound :
    (info after : CpuInfo)
    → cpu_model_adjust info ≡ some after
    → (length after.model ≤ length info.model) × (after ≡ record info { model = after.model })
unfolding cpu_model_adjust
adjust-bound info after e =
    let (model, trimmed, last) =
      bind-some (trim_end info.model) (λ model. some (record info { model = name_of info model }))
        after e in
    let same = some-injective (record info { model = name_of info model }) after last in
    subst
      (λ (after : CpuInfo).
        (length after.model ≤ length info.model) × (after ≡ record info { model = after.model }))
      same
      (omega (arith, length-trim_end info.model model trimmed, length-name_of info model), refl)

-- On a model with a byte that is not a space, `sysm_cpu_model_adjust` reads and writes nothing in
-- front of the model, never makes it longer, so that what it copies back fits where the model stood,
-- and changes no other field.
pub cpu_model_adjust-bound :
    (info : CpuInfo) (xs ys : Bytes) (c : ℕ)
    → info.model ≡ xs ++ c ∷ ys
    → is_blank c ≡ false
    → (after : CpuInfo) × (cpu_model_adjust info ≡ some after)
      × (length after.model ≤ length info.model)
      × (after ≡ record info { model = after.model })
unfolding cpu_model_adjust
cpu_model_adjust-bound info xs ys c e solid =
    let (t, trimmed) = trim_end-solid xs ys c solid in
    let after = record info { model = name_of info t } in
    let ran : cpu_model_adjust info ≡ some after = rw (e, trimmed) refl in
    let (short, others) = adjust-bound info after ran in (after, ran, short, others)
