-- ===== src/Jni/Arrays.antt =====
-- The native functions of sysm-native/src/main/javasysm.c that return an array: of beans, of strings
-- or of numbers. The library's functions are parameters: each gives a status, what it lists and the
-- `sysm_t` after it. The list that the library has made is one block until it is destroyed.
pub mod Copied
use jni_demo_system_monitor.Base.{
  ℕ, zero, suc, ◌+◌, ◌-◌, ◌*◌, Bool, true, false, List, [], ◌∷◌, Option, none, some, ◌>>=◌, ◌==◌,
  if◌then◌else◌, Bytes, get_elem?, length, sysm_ok, ◌%◌, u32_mod,
}
use jni_demo_system_monitor.Jni.Fields.{Jvm, FieldCache, Fields, Struct, init_fields, set_fields}
use jni_demo_system_monitor.Jni.Gather.{new_entries}
use jni_demo_system_monitor.Jni.Handle.{
  Native, Outcome, JniSysm, World, fail, with_sysm, jvm_exception,
}
use jni_demo_system_monitor.Jni.Layout.Machine.{cpu_info_layout, cpu_layout}
use jni_demo_system_monitor.Jni.Layout.Network.{net_route_layout, net_connection_layout}
use jni_demo_system_monitor.Jni.Layout.Resource.{who_layout}
use jni_demo_system_monitor.Jni.Layout.{Layout}

-- Whether the Java machine makes an array of a length, the object for an index, and stores an
-- element; where it does not, an exception is pending.
pub record Heap (jvm : Jvm) : Type 0 where
  pub new_array : ℕ → Bool
  pub new_object : ℕ → Option jvm.Object
  pub put : ℕ → Bool

abbrev pub join_element {κ} : {E : Type κ} → E → Option (List E) → Option (List E)
join_element e none = none
join_element e (some rest) = some (e ∷ rest)

-- An element is `none` where an exception ends the loop.
abbrev pub after_element {κ} :
    {E : Type κ} → Option (Option (List E)) → Option E → Option (Option (List E))
after_element rest none = some none
after_element rest (some e) = rest >>= λ es. some (join_element e es)

module _ {ℓ κ} {R : Type ℓ} {E : Type κ} where
  -- The loop over the list, from index `i`.
  unfoldable pub fill_array : (ℕ → R → Option (Option E)) → ℕ → List R → Option (Option (List E))
  fill_array element i [] = some (some [])
  fill_array element i (r ∷ rs) =
      let rest = fill_array element (suc i) rs in element i r >>= after_element rest

module _ (jvm : Jvm) (native : Native) (heap : Heap jvm) where
  open jvm use {Class, Object}
  open native use {Sysm}

  -- `AllocObject`, the setters, `SetObjectArrayElement`.
  unfoldable pub put_bean :
      Layout → Fields jvm → ℕ → Struct jvm → Option Object → Option (Option Object)
  unfolding set_fields
  put_bean layout fields i s none = some none
  put_bean layout fields i s (some obj) = set_fields jvm layout fields s obj >>= λ filled.
      if heap.put i then some (some filled) else some none

  unfoldable pub bean_element : Layout → Fields jvm → ℕ → Struct jvm → Option (Option Object)
  unfolding put_bean
  bean_element layout fields i s = put_bean layout fields i s (heap.new_object i)

  -- `NewStringUTF`, `SetObjectArrayElement`.
  unfoldable pub string_element : ℕ → Bytes → Option (Option Bytes)
  string_element i s = if heap.put i then some (some s) else some none

  -- The array is returned and the list destroyed, or NULL is returned and the list is lost.
  abbrev pub array_done :
      {E : Type 0}
      → World jvm native
      → Option (List E)
      → Outcome (World jvm native) (Option (List E))
  array_done w none = record { world = w; value = none; thrown = some jvm_exception }
  array_done w (some es) = record {
    world = record w { blocks = w.blocks - 1 };
    value = some es;
    thrown = none;
  }

  unfoldable pub array_from :
      {R E : Type 0}
      → (ℕ → R → Option (Option E))
      → World jvm native
      → List R
      → Option (Outcome (World jvm native) (Option (List E)))
  unfolding fill_array
  array_from element w list =
      if heap.new_array (length list)
      then (fill_array element 0 list >>= λ made. some (array_done w made))
      else some (array_done w none)

  -- An array of beans.
  unfoldable pub beans_body :
      Layout
      → Class
      → (Sysm → ℕ × List (Struct jvm) × Sysm)
      → World jvm native
      → JniSysm jvm native
      → Option (Outcome (World jvm native) (Option (List Object)))
  unfolding init_fields array_from bean_element fail
  beans_body layout cls get w jsysm =
      let (status, list, sysm) = get jsysm.sysm in
      let after = record jsysm { sysm = sysm } in
      let world = record w { pointer = some after } in
      let entries = new_entries jvm native (get_elem? jsysm.fields layout.index) in
      if status == sysm_ok
      then (init_fields jvm layout cls jsysm.fields >>= λ fields.
          array_from (bean_element layout fields)
            (record w {
              pointer = some (record after { fields = fields });
              refs = w.refs + entries;
              blocks = suc (w.blocks + 2 * entries);
            })
            list)
      else fail jvm native world after status none

  unfoldable pub beans_get :
      Layout
      → ℕ
      → Class
      → (Sysm → ℕ × List (Struct jvm) × Sysm)
      → World jvm native
      → Option (Outcome (World jvm native) (Option (List Object)))
  unfolding beans_body with_sysm
  beans_get layout env cls get = with_sysm jvm native env none (beans_body layout cls get)

  unfoldable pub get_cpu_infos :
      ℕ
      → Class
      → (Sysm → ℕ × List (Struct jvm) × Sysm)
      → World jvm native
      → Option (Outcome (World jvm native) (Option (List Object)))
  unfolding beans_get
  get_cpu_infos = beans_get cpu_info_layout

  unfoldable pub get_cpus_native :
      ℕ
      → Class
      → (Sysm → ℕ × List (Struct jvm) × Sysm)
      → World jvm native
      → Option (Outcome (World jvm native) (Option (List Object)))
  unfolding beans_get
  get_cpus_native = beans_get cpu_layout

  unfoldable pub get_net_routes :
      ℕ
      → Class
      → (Sysm → ℕ × List (Struct jvm) × Sysm)
      → World jvm native
      → Option (Outcome (World jvm native) (Option (List Object)))
  unfolding beans_get
  get_net_routes = beans_get net_route_layout

  unfoldable pub get_whos :
      ℕ
      → Class
      → (Sysm → ℕ × List (Struct jvm) × Sysm)
      → World jvm native
      → Option (Outcome (World jvm native) (Option (List Object)))
  unfolding beans_get
  get_whos = beans_get who_layout

  unfoldable pub get_net_connections :
      ℕ
      → Class
      → (ℕ → Sysm → ℕ × List (Struct jvm) × Sysm)
      → ℕ
      → World jvm native
      → Option (Outcome (World jvm native) (Option (List Object)))
  unfolding beans_get
  get_net_connections env cls get flags = beans_get net_connection_layout env cls (get flags)

  -- An array of strings.
  unfoldable pub strings_body :
      (Sysm → ℕ × List Bytes × Sysm)
      → World jvm native
      → JniSysm jvm native
      → Option (Outcome (World jvm native) (Option (List Bytes)))
  unfolding array_from string_element fail
  strings_body get w jsysm =
      let (status, list, sysm) = get jsysm.sysm in
      let after = record jsysm { sysm = sysm } in
      let world = record w { pointer = some after } in
      if status == sysm_ok
      then array_from string_element (record world { blocks = suc w.blocks }) list
      else fail jvm native world after status none

  unfoldable pub get_process_args :
      ℕ
      → (ℕ → Sysm → ℕ × List Bytes × Sysm)
      → ℕ
      → World jvm native
      → Option (Outcome (World jvm native) (Option (List Bytes)))
  unfolding strings_body with_sysm
  get_process_args env get pid = with_sysm jvm native env none (strings_body (get (pid % u32_mod)))

  unfoldable pub get_net_interfaces :
      ℕ
      → (Sysm → ℕ × List Bytes × Sysm)
      → World jvm native
      → Option (Outcome (World jvm native) (Option (List Bytes)))
  unfolding strings_body with_sysm
  get_net_interfaces env get = with_sysm jvm native env none (strings_body get)

  -- `getProcesses`: the ids go into the array at once, and none of that can fail but the array.
  unfoldable pub processes_body :
      (Sysm → ℕ × List ℕ × Sysm)
      → World jvm native
      → JniSysm jvm native
      → Option (Outcome (World jvm native) (Option (List ℕ)))
  unfolding fail
  processes_body get w jsysm =
      let (status, list, sysm) = get jsysm.sysm in
      let after = record jsysm { sysm = sysm } in
      let world = record w { pointer = some after } in
      let listed = record world { blocks = suc w.blocks } in
      if status == sysm_ok
      then some (array_done listed (if heap.new_array (length list) then some list else none))
      else fail jvm native world after status none

  unfoldable pub get_processes :
      ℕ
      → (Sysm → ℕ × List ℕ × Sysm)
      → World jvm native
      → Option (Outcome (World jvm native) (Option (List ℕ)))
  unfolding processes_body with_sysm
  get_processes env get = with_sysm jvm native env none (processes_body get)
