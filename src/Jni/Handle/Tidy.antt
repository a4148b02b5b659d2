-- ===== src/Jni/Handle/Tidy.antt =====
-- What a handle of sysm-native/src/main/javasysm.c holds, and the calls that keep count of it.
use jni_demo_system_monitor.Base.{
  ℕ, zero, suc, ◌+◌, ◌*◌, ◌≡◌, refl, ap, ◌∙◌, true, false, Option, none, some, ◌>>=◌, bind-some,
  if-both, ◌==◌, arith, sysm_ok, codes, replicate,
}
use jni_demo_system_monitor.Jni.Fields.{Jvm}
use jni_demo_system_monitor.Jni.Handle.{
  Native, Outcome, JniSysm, World, Thrown, throw_new, throw_exception, throw_not_impl, throw_error,
  fail, with_pointer, with_sysm, new_block, native_open, count_cached, count_ref, native_close,
  error_class, enotimpl, in_package_ex, not_impl_instance, released, close_body,
}
use jni_demo_system_monitor.Jni.Layout.{fields_max}
use mathlib.Core.Option.{some-injective}
use mathlib.Core.Path.{subst}

module _ (jvm : Jvm) (native : Native) where
  open native use {Sysm}

  abbrev pub held_refs : Option (JniSysm jvm native) → ℕ
  held_refs none = 0
  held_refs (some jsysm) =
      count_ref jvm native jsysm.not_impl + count_cached jvm native jsysm.fields

  abbrev pub held_blocks : Option (JniSysm jvm native) → ℕ
  held_blocks none = 0
  held_blocks (some jsysm) = 2 * count_cached jvm native jsysm.fields + 1

  -- What has not been given back is what the pointer leads to.
  pub record IsTidy (w : World jvm native) : Type 0 where
    pub refs_held : w.refs ≡ held_refs w.pointer
    pub blocks_held : w.blocks ≡ held_blocks w.pointer

  -- A call whose every end is tidy.
  abbrev pub EndsTidy {ℓ} : {A : Type ℓ} → Option (Outcome (World jvm native) A) → Type ℓ
  EndsTidy {A = A} call = (o : Outcome (World jvm native) A) → call ≡ some o → IsTidy o.world

  -- A call that goes on from a step whose ends are tidy.
  pub bind-EndsTidy :
      {B A : Type 0} (step : Option B) (f : B → Outcome (World jvm native) A)
      → ((b : B) → step ≡ some b → IsTidy (f b).world)
      → EndsTidy (step >>= λ b. some (f b))
  bind-EndsTidy step f each o e =
      let (b, ran, last) = bind-some step (λ b. some (f b)) o e in
      subst (λ o. IsTidy o.world) (some-injective (f b) o last) (each b ran)

  one_more :
      (n : ℕ) (jsysm : JniSysm jvm native)
      → n ≡ held_refs (some jsysm)
      → jsysm.not_impl ≡ false
      → suc n ≡ held_refs (some (record jsysm { not_impl = true }))
  one_more n jsysm same unknown = omega (
    arith,
    same ∙ ap (λ b. count_ref jvm native b + count_cached jvm native jsysm.fields) unknown,
  )

  throw_not_impl-IsTidy :
      (w : World jvm native) (jsysm : JniSysm jvm native) (r : World jvm native × Thrown)
      → w.pointer ≡ some jsysm
      → IsTidy w
      → throw_not_impl jvm native w jsysm ≡ some r
      → IsTidy r.0
  unfolding throw_not_impl
  throw_not_impl-IsTidy w jsysm r at tidy =
      if-both (λ call. call ≡ some r → IsTidy r.0) jsysm.not_impl _ _
        (λ _ e. subst (λ r. IsTidy r.0) (some-injective (w, not_impl_instance) r e) tidy)
        (λ unknown.
          if-both (λ call. call ≡ some r → IsTidy r.0)
            (native.has_class (in_package_ex (codes "SysmNotImplException"))) _ _
            (λ _ e.
              subst (λ r. IsTidy r.0)
                (some-injective
                  (
                    record w {
                      pointer = some (record jsysm { not_impl = true });
                      refs = suc w.refs;
                    },
                    not_impl_instance,
                  )
                  r e)
                (record {
                  refs_held = one_more w.refs jsysm (tidy.refs_held ∙ ap held_refs at) unknown;
                  blocks_held = tidy.blocks_held ∙ ap held_blocks at;
                }))
            (λ _ e. absurd (ground arith)))

  throw_error-IsTidy :
      (w : World jvm native) (jsysm : JniSysm jvm native) (err : ℕ) (r : World jvm native × Thrown)
      → w.pointer ≡ some jsysm
      → IsTidy w
      → throw_error jvm native w jsysm err ≡ some r
      → IsTidy r.0
  unfolding throw_error
  throw_error-IsTidy w jsysm err r at tidy =
      if-both (λ call. call ≡ some r → IsTidy r.0) (err == enotimpl) _ _
        (λ _. throw_not_impl-IsTidy w jsysm r at tidy)
        (λ _ e.
          let (thrown, _, last) =
            bind-some
              (throw_new jvm native (error_class jvm native err) (native.strerror jsysm.sysm err)) _
              r e in
          subst (λ r. IsTidy r.0) (some-injective (w, thrown) r last) tidy)

  pub fail-EndsTidy :
      {A : Type 0} (w : World jvm native) (jsysm : JniSysm jvm native) (err : ℕ) (value : A)
      → w.pointer ≡ some jsysm
      → IsTidy w
      → EndsTidy (fail jvm native w jsysm err value)
  unfolding fail
  fail-EndsTidy w jsysm err value at tidy =
      bind-EndsTidy (throw_error jvm native w jsysm err)
        (λ (after, thrown). record { world = after; value = value; thrown = some thrown })
        (λ r e. throw_error-IsTidy w jsysm err r at tidy e)

  with_pointer-EndsTidy :
      {A : Type 0} (env : ℕ) (value : A)
      (body : World jvm native → JniSysm jvm native → Option (Outcome (World jvm native) A))
      (w : World jvm native) (pointer : Option (JniSysm jvm native))
      → w.pointer ≡ pointer
      → ((after : World jvm native) (jsysm : JniSysm jvm native)
          → after.pointer ≡ some jsysm
          → IsTidy after
          → EndsTidy (body after jsysm))
      → IsTidy w
      → EndsTidy (with_pointer jvm native env value body w pointer)
  unfolding with_pointer
  with_pointer-EndsTidy env value body w none at keeps tidy =
      bind-EndsTidy (throw_exception jvm native (codes "sysm has been closed"))
        (λ thrown. record { world = w; value = value; thrown = some thrown }) (λ _ _. tidy)
  with_pointer-EndsTidy env value body w (some jsysm) at keeps tidy =
      let ready = record jsysm { env = env } in
      if-both EndsTidy (jsysm.open_status == sysm_ok) _ _
        (λ _.
          keeps (record w { pointer = some ready }) ready refl
            (record {
              refs_held = tidy.refs_held ∙ ap held_refs at;
              blocks_held = tidy.blocks_held ∙ ap held_blocks at;
            }))
        (λ _. fail-EndsTidy w jsysm jsysm.open_status value at tidy)

  -- The macros `dSYSM` before a body that keeps the handle tidy.
  pub with_sysm-EndsTidy :
      {A : Type 0} (env : ℕ) (value : A)
      (body : World jvm native → JniSysm jvm native → Option (Outcome (World jvm native) A))
      (w : World jvm native)
      → ((after : World jvm native) (jsysm : JniSysm jvm native)
          → after.pointer ≡ some jsysm
          → IsTidy after
          → EndsTidy (body after jsysm))
      → IsTidy w
      → EndsTidy (with_sysm jvm native env value body w)
  unfolding with_sysm
  with_sysm-EndsTidy env value body w keeps tidy =
      with_pointer-EndsTidy env value body w w.pointer refl keeps tidy

  count_cached-replicate : (n : ℕ) → count_cached jvm native (replicate n none) ≡ 0
  unfolding count_cached replicate
  count_cached-replicate zero = refl
  count_cached-replicate (suc n) = count_cached-replicate n

  -- `nativeOpen` at a NULL pointer.
  pub native_open-EndsTidy :
      (got : ℕ × Sysm) (w : World jvm native)
      → w.pointer ≡ none
      → IsTidy w
      → EndsTidy (native_open jvm native got w)
  unfolding native_open
  native_open-EndsTidy got w null tidy =
      let opened = record w { pointer = some (new_block jvm native got); blocks = suc w.blocks } in
      let fresh = count_cached-replicate fields_max in
      let after : IsTidy opened = record {
        refs_held = omega (arith, tidy.refs_held ∙ ap held_refs null, fresh);
        blocks_held = omega (arith, tidy.blocks_held ∙ ap held_blocks null, fresh);
      } in
      if-both EndsTidy (got.0 == sysm_ok) _ _
        (λ _ o e. subst (λ o. IsTidy o.world) (some-injective _ o e) after)
        (λ _. fail-EndsTidy opened (new_block jvm native got) got.0 tt refl after)

  released-IsTidy :
      (w : World jvm native) (jsysm : JniSysm jvm native)
      → w.pointer ≡ some jsysm
      → IsTidy w
      → IsTidy (released jvm native w jsysm)
  unfolding released
  released-IsTidy w jsysm at tidy = record {
    refs_held = omega (arith, tidy.refs_held ∙ ap held_refs at);
    blocks_held = omega (arith, tidy.blocks_held ∙ ap held_blocks at);
  }

  -- `nativeClose` gives back all that the handle has.
  pub native_close-EndsTidy :
      (env : ℕ) (w : World jvm native) → IsTidy w → EndsTidy (native_close jvm native env w)
  unfolding native_close
  native_close-EndsTidy env w tidy =
      with_sysm-EndsTidy env 0 (close_body jvm native) w
        (λ after jsysm at held o e.
          subst (λ o. IsTidy o.world) (some-injective _ o e) (released-IsTidy after jsysm at held))
        tidy
