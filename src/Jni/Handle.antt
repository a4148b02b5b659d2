-- ===== src/Jni/Handle.antt =====
-- The handle of sysm-native/src/main/javasysm.c: the block that the Java object's pointer field
-- leads to, the exceptions that its functions throw, `nativeOpen` and `nativeClose`. The Java
-- machine and the library below are parameters. `none` is undefined behaviour: `ThrowNew` for a
-- class that `FindClass` did not find, or one of `Fields`.
pub mod Tidy
use jni_demo_system_monitor.Base.{
  ℕ, zero, suc, ◌+◌, ◌-◌, ◌*◌, Bool, true, false, List, [], ◌∷◌, ◌++◌, ◌⊎◌, inl, inr, Option, none,
  some, ◌>>=◌, ◌==◌, if◌then◌else◌, Bytes, codes, replicate, sysm_ok, enoent,
}
use jni_demo_system_monitor.Jni.Fields.{Jvm, FieldCache, Fields}
use jni_demo_system_monitor.Jni.Layout.{fields_max}

abbrev pub eacces : ℕ
eacces = 13

-- SYSM_ENOTIMPL
abbrev pub enotimpl : ℕ
enotimpl = 20001

-- `SYSM_PACKAGE` and `SYSM_PACKAGE_EX` before a name.
abbrev pub in_package : Bytes → Bytes
in_package name = codes "edu/scut/cs/sysm/" ++ name

abbrev pub in_package_ex : Bytes → Bytes
in_package_ex name = codes "edu/scut/cs/sysm/exception/" ++ name

-- An exception: a new one of a class with a message, the one instance of `SysmNotImplException`,
-- or one that the Java machine raised in a call of this layer.
pub data Thrown : Type 0 where
  new_exception : Bytes → Bytes → Thrown
  not_impl_instance : Thrown
  jvm_exception : Thrown

-- A call of a native function ends with a value, and perhaps with an exception.
pub record Outcome {ℓ} (W : Type 0) (A : Type ℓ) : Type ℓ where
  pub world : W
  pub value : A
  pub thrown : Option Thrown

-- `sysm_t` and what `sysm_open` and `sysm_close` make of it; `strerror` is `sysm_strerror`'s text.
pub record Native : Type 1 where
  pub Sysm : Type 0
  pub close : Sysm → ℕ
  pub strerror : Sysm → ℕ → Bytes
  pub has_class : Bytes → Bool

module _ (jvm : Jvm) (native : Native) where
  open native use {Sysm, close, strerror, has_class}

  -- `jni_sysm_t`. `env` is an address, which nothing reads; `not_impl` tells whether the global
  -- reference is there.
  pub record JniSysm : Type 0 where
    pub env : ℕ
    pub sysm : Sysm
    pub fields : Fields jvm
    pub open_status : ℕ
    pub not_impl : Bool

  -- The Java object's pointer, `none` for NULL, with the counts that nothing in the program keeps:
  -- the global references and the blocks of memory of this layer that have not been given back, and
  -- the Java strings that are still pinned.
  pub record World : Type 0 where
    pub pointer : Option JniSysm
    pub refs : ℕ
    pub blocks : ℕ
    pub pinned : ℕ

  -- `JENV->ThrowNew(env, JENV->FindClass(env, path), message)`
  unfoldable pub throw_new : Bytes → Bytes → Option Thrown
  throw_new path message = if has_class path then some (new_exception path message) else none

  -- `sysm_throw_exception`
  unfoldable pub throw_exception : Bytes → Option Thrown
  unfolding throw_new
  throw_exception message = throw_new (in_package_ex (codes "SysmException")) message

  -- The case of SYSM_ENOTIMPL: the instance is looked up once.
  unfoldable pub throw_not_impl : World → JniSysm → Option (World × Thrown)
  throw_not_impl w jsysm =
      if jsysm.not_impl
      then some (w, not_impl_instance)
      else if has_class (in_package_ex (codes "SysmNotImplException"))
      then (let known = record jsysm { not_impl = true } in
          some (record w { pointer = some known; refs = suc w.refs }, not_impl_instance))
      else none

  -- The class whose exception an error raises, but for SYSM_ENOTIMPL.
  unfoldable pub error_class : ℕ → Bytes
  error_class err =
      if err == enoent
      then in_package (codes "SysmFileNotFoundException")
      else if err == eacces
      then in_package (codes "SysmPermissionDeniedException")
      else in_package_ex (codes "SysmException")

  -- `sysm_throw_error`
  unfoldable pub throw_error : World → JniSysm → ℕ → Option (World × Thrown)
  unfolding throw_not_impl error_class throw_new
  throw_error w jsysm err =
      let not_impl = throw_not_impl w jsysm in
      if err == enotimpl
      then not_impl
      else (throw_new (error_class err) (strerror jsysm.sysm err) >>= λ thrown. some (w, thrown))

  -- A function that throws the error and returns.
  unfoldable pub fail {ℓ} : {A : Type ℓ} → World → JniSysm → ℕ → A → Option (Outcome World A)
  unfolding throw_error
  fail w jsysm err value = throw_error w jsysm err >>= λ (after, thrown).
      some (record { world = after; value = value; thrown = some thrown })

  -- `sysm_get_jpointer`, then what the macros `dSYSM` do: return `value` where it fails, or store
  -- `env` and go on.
  unfoldable pub with_pointer {ℓ} :
      {A : Type ℓ}
      → ℕ
      → A
      → (World → JniSysm → Option (Outcome World A))
      → World
      → Option JniSysm
      → Option (Outcome World A)
  unfolding throw_exception fail
  with_pointer env value body w none = throw_exception (codes "sysm has been closed") >>= λ thrown.
      some (record { world = w; value = value; thrown = some thrown })
  with_pointer env value body w (some jsysm) =
      if jsysm.open_status == sysm_ok
      then (let ready = record jsysm { env = env } in
          body (record w { pointer = some ready }) ready)
      else fail w jsysm jsysm.open_status value

  unfoldable pub with_sysm {ℓ} :
      {A : Type ℓ}
      → ℕ
      → A
      → (World → JniSysm → Option (Outcome World A))
      → World
      → Option (Outcome World A)
  unfolding with_pointer
  with_sysm env value body w = with_pointer env value body w w.pointer

  -- The block that `nativeOpen` allocates and clears, with what `sysm_open` stores.
  abbrev pub new_block : ℕ × Sysm → JniSysm
  new_block (status, sysm) = record {
    env = 0;
    sysm = sysm;
    fields = replicate fields_max none;
    open_status = status;
    not_impl = false;
  }

  -- `nativeOpen`, where `opened` is what `sysm_open` gives. A block that the pointer led to before is
  -- lost.
  unfoldable pub native_open : ℕ × Sysm → World → Option (Outcome World (Unit {0}))
  unfolding fail
  native_open (status, sysm) w =
      let block = new_block (status, sysm) in
      let opened = record w { pointer = some block; blocks = suc w.blocks } in
      if status == sysm_ok
      then some (record { world = opened; value = tt; thrown = none })
      else fail opened block status tt

  -- The entries of `fields` that are not NULL.
  unfoldable pub count_cached : Fields jvm → ℕ
  count_cached [] = 0
  count_cached (none ∷ fields) = count_cached fields
  count_cached (some cache ∷ fields) = suc (count_cached fields)

  abbrev pub count_ref : Bool → ℕ
  count_ref true = 1
  count_ref false = 0

  -- `nativeClose` gives back a global reference and two blocks for each entry, the reference to the
  -- exception, and the handle's own block.
  unfoldable pub released : World → JniSysm → World
  unfolding count_cached
  released w jsysm =
      let cached = count_cached jsysm.fields in
      record w {
        pointer = none;
        refs = w.refs - (count_ref jsysm.not_impl + cached);
        blocks = w.blocks - (2 * cached + 1);
      }

  abbrev pub close_body : World → JniSysm → Option (Outcome World ℕ)
  close_body w jsysm =
      some (record { world = released w jsysm; value = close jsysm.sysm; thrown = none })

  unfoldable pub native_close : ℕ → World → Option (Outcome World ℕ)
  unfolding with_sysm
  native_close env = with_sysm env 0 close_body
