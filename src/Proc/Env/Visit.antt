-- ===== src/Proc/Env/Visit.antt =====
-- Which variables `sysm_proc_env_get` offers to its getter.
use jni_demo_system_monitor.Base.{
  ℕ, zero, suc, ◌-◌, ◌≤◌, ◌<◌, ◌≡◌, refl, ap, ◌∙◌, arith, true, false, List, [], ◌∷◌, ◌++◌, Option,
  some, none, ◌==◌, if◌then◌else◌, length, length-append, take-append, leb, lt→ltb, All, Bytes,
  sysm_ok, Bool-cases, inl, inr,
}
use jni_demo_system_monitor.Proc.Args.Split.{join_nul}
use jni_demo_system_monitor.Proc.Args.{span_nul}
use jni_demo_system_monitor.Proc.Env.{
  Getter, env_all, proc_env_get, visit_entry, visit_all, read_environ, bytes, key_size, arg_max,
}
use jni_demo_system_monitor.Text.Search.{strchr-append}
use jni_demo_system_monitor.Text.{strchr}

-- A variable, as the kernel writes it.
abbrev pub Variables : Type 0
Variables = List (Bytes × Bytes)

unfoldable pub entries : Variables → List Bytes
entries [] = []
entries ((key, val) ∷ vars) = (key ++ b'=' ∷ val) ∷ entries vars

-- No `=` and no NUL in the key, no NUL in the value, and a key that fits its buffer.
abbrev pub IsVariable : Bytes × Bytes → Type 0
IsVariable (key, val) =
    All (λ c. (c == b'=') ≡ false) key × All (λ c. (c == 0) ≡ false) (key ++ b'=' ∷ val)

span_nul-word : (w s : Bytes) → All (λ c. (c == 0) ≡ false) w → span_nul (w ++ 0 ∷ s) ≡ (w, s)
unfolding span_nul
span_nul-word [] s h = refl
span_nul-word (c ∷ w) s (hc, hw) = rw (hc, span_nul-word w s hw)

module _ {S : Type 0} (getter : Getter S) where
  -- Each variable is offered, until the getter answers with another status than SYSM_OK.
  unfoldable pub offer : Variables → S → S
  offer [] s = s
  offer ((key, val) ∷ vars) s =
      let (status, s') = getter s key val in
      let rest = offer vars s' in if status == sysm_ok then rest else s'

  -- The round of the loop for one variable.
  visit_entry-variable :
      (rest : S → Option S) (key val : Bytes) (s : S)
      → visit_entry getter rest (key ++ b'=' ∷ val) (some (b'=' ∷ val)) s ≡ (
          if leb key_size (length key)
          then none
          else (let (status, s') = getter s key val in
              if status == sysm_ok then rest s' else some s'))
  unfolding visit_entry
  visit_entry-variable rest key val s =
      let klen : length (key ++ b'=' ∷ val) - length (b'=' ∷ val) ≡ length key =
        omega (arith, length-append key (b'=' ∷ val)) in
      rw (klen, take-append key (b'=' ∷ val)) refl

  visit_all_span :
      (fuel c : ℕ) (b : Bytes) (s : S)
      → visit_all getter (suc fuel) (c ∷ b) s
        ≡ visit_entry getter
            (visit_all getter fuel (span_nul (c ∷ b)).1)
            (span_nul (c ∷ b)).0
            (strchr b'=' (span_nul (c ∷ b)).0)
            s
  unfolding visit_all
  visit_all_span fuel c b s = refl

  visit_all_word :
      (fuel x : ℕ) (w tail : Bytes) (s : S)
      → All (λ c. (c == 0) ≡ false) (x ∷ w)
      → visit_all getter (suc fuel) ((x ∷ w) ++ 0 ∷ tail) s
        ≡ visit_entry getter (visit_all getter fuel tail) (x ∷ w) (strchr b'=' (x ∷ w)) s
  visit_all_word fuel x w tail s no_nul =
      visit_all_span fuel x (w ++ 0 ∷ tail) s
      ∙ ap
          (λ (r : Bytes × Bytes).
            visit_entry getter (visit_all getter fuel r.1) r.0 (strchr b'=' r.0) s)
          (span_nul-word (x ∷ w) tail no_nul)

  visit_all_step :
      (fuel : ℕ) (key val tail : Bytes) (s : S)
      → IsVariable (key, val)
      → visit_all getter (suc fuel) ((key ++ b'=' ∷ val) ++ 0 ∷ tail) s ≡ (
          if leb key_size (length key)
          then none
          else (let (status, s') = getter s key val in
              if status == sysm_ok then visit_all getter fuel tail s' else some s'))
  visit_all_step fuel [] val tail s (no_eq, no_nul) =
      visit_all_word fuel b'=' val tail s no_nul
      ∙ ap (λ (r : Option Bytes). visit_entry getter (visit_all getter fuel tail) (b'=' ∷ val) r s)
          (strchr-append b'=' [] val no_eq)
      ∙ visit_entry-variable (visit_all getter fuel tail) [] val s
  visit_all_step fuel (c ∷ key) val tail s (no_eq, no_nul) =
      visit_all_word fuel c (key ++ b'=' ∷ val) tail s no_nul
      ∙ ap
          (λ (r : Option Bytes).
            visit_entry getter (visit_all getter fuel tail) ((c ∷ key) ++ b'=' ∷ val) r s)
          (strchr-append b'=' (c ∷ key) val no_eq)
      ∙ visit_entry-variable (visit_all getter fuel tail) (c ∷ key) val s

  visit_all-offer :
      (fuel : ℕ) (vars : Variables) (s : S)
      → All IsVariable vars
      → All (λ kv. length kv.0 < key_size) vars
      → length (join_nul (entries vars)) ≤ fuel
      → visit_all getter fuel (join_nul (entries vars)) s ≡ some (offer vars s)
  unfolding entries offer join_nul visit_all
  visit_all-offer fuel [] s h k enough = refl
  visit_all-offer zero ((key, val) ∷ vars) s h k enough =
      absurd (omega (arith, length-append (key ++ b'=' ∷ val) (0 ∷ join_nul (entries vars))))
  visit_all-offer (suc fuel) ((key, val) ∷ vars) s (h, hs) (k, ks) enough =
      let short : leb key_size (length key) ≡ false = ground arith in
      let (status, s') = getter s key val in
      let shorter : length (join_nul (entries vars)) ≤ fuel =
        omega (arith, enough, length-append (key ++ b'=' ∷ val) (0 ∷ join_nul (entries vars))) in
      let later = visit_all-offer fuel vars s' hs ks shorter in
      visit_all_step fuel key val (join_nul (entries vars)) s h
      ∙ rw (short, later) (elim (Bool-cases (status == sysm_ok)) [ inl e ↦ rw e | inr e ↦ rw e ])

  -- Where every variable has a key of at most 127 bytes, and the whole environment has fewer than
  -- 131072 bytes (ARG_MAX), so that its buffer has room for a NUL, `sysm_proc_env_get` ends, offers
  -- the variables of another process to the getter, in order, until it answers with another status
  -- than SYSM_OK, and succeeds.
  pub proc_env_get-offer :
      (getenv : Bytes → Option Bytes) (vars : Variables) (s : S)
      → All IsVariable vars
      → All (λ kv. length kv.0 < key_size) vars
      → length (join_nul (entries vars)) < arg_max
      → proc_env_get getter getenv env_all [] false (bytes (join_nul (entries vars))) s
        ≡ some (sysm_ok, offer vars s)
  unfolding proc_env_get read_environ
  proc_env_get-offer getenv vars s h k fits =
      let small = lt→ltb (length (join_nul (entries vars))) arg_max fits in
      rw (small, visit_all-offer (length (join_nul (entries vars))) vars s h k (omega arith)) refl

  visit_all-long_key :
      (key val tail : Bytes) (fuel : ℕ) (s : S)
      → IsVariable (key, val)
      → key_size ≤ length key
      → length ((key ++ b'=' ∷ val) ++ 0 ∷ tail) ≤ fuel
      → visit_all getter fuel ((key ++ b'=' ∷ val) ++ 0 ∷ tail) s ≡ none
  visit_all-long_key key val tail zero s h long enough =
      absurd (omega (arith, length-append (key ++ b'=' ∷ val) (0 ∷ tail)))
  visit_all-long_key key val tail (suc fuel) s h long enough =
      let beyond : leb key_size (length key) ≡ true = ground arith in
      visit_all_step fuel key val tail s h ∙ rw beyond

  -- A first variable whose key has 128 bytes or more makes `sysm_proc_env_get` store behind `key`.
  pub proc_env_get-long_key :
      (getenv : Bytes → Option Bytes) (key val : Bytes) (more : Variables) (s : S)
      → IsVariable (key, val)
      → key_size ≤ length key
      → length (join_nul (entries ((key, val) ∷ more))) < arg_max
      → proc_env_get getter getenv env_all [] false
          (bytes (join_nul (entries ((key, val) ∷ more))))
          s
        ≡ none
  unfolding proc_env_get read_environ entries join_nul
  proc_env_get-long_key getenv key val more s h long fits =
      let text = (key ++ b'=' ∷ val) ++ 0 ∷ join_nul (entries more) in
      let small = lt→ltb (length text) arg_max fits in
      rw
        (
          small,
          visit_all-long_key key val (join_nul (entries more)) (length text) s h long (omega arith),
        )
        refl
