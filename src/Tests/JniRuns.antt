-- ===== src/Tests/JniRuns.antt =====
-- The handle and the beans of the JNI layer on concrete inputs.
use jni_demo_system_monitor.Jni.Layout.Declared.{undeclared}
use jni_demo_system_monitor.Proc.Env.{bytes}
use jni_demo_system_monitor.Proc.Env.Visit.{Variables, entries}
use jni_demo_system_monitor.Proc.Args.Split.{join_nul}
use jni_demo_system_monitor.Jni.Environment.Looked.{lookup, get_value-lookup}
use jni_demo_system_monitor.Jni.Environment.{Process, get_value}
use jni_demo_system_monitor.Base.{
  ℕ, ◌≡◌, ◌≢◌, refl, sym, ap, ◌∙◌, ◌+◌, ◌*◌, true, false, Bool-cases, inl, inr, List, [], ◌∷◌,
  Option, none, some, Bytes, codes, if◌then◌else◌, arith, replicate, suc, set,
}
use jni_demo_system_monitor.Interface.Listing.Complete.{str_eq_self}
use jni_demo_system_monitor.Jni.Arrays.Copied.{
  IsAmple, beans_get-copied, beans_get-lost, EachCopied,
}
use jni_demo_system_monitor.Jni.Arrays.{Heap, beans_get, array_from, beans_body}
use jni_demo_system_monitor.Jni.Fields.Filled.{IsJvm, cache_of}
use jni_demo_system_monitor.Jni.Fields.{
  Jvm, Struct, init_fields, init_at, fetch_ids, init_rows, init_row, slot_number, store,
}
use jni_demo_system_monitor.Jni.Gather.Filled.{IsGathered, gather-IsGathered}
use jni_demo_system_monitor.Jni.Gather.{gather}
use jni_demo_system_monitor.Jni.Handle.Tidy.{IsTidy}
use jni_demo_system_monitor.Jni.Handle.{
  Native, Outcome, JniSysm, World, new_block, native_open, native_close, jvm_exception, with_sysm,
  with_pointer,
}
use jni_demo_system_monitor.Jni.Layout.Bean.{layout_of, uptime, resource_limit}
use jni_demo_system_monitor.Jni.Layout.Machine.{uptime_layout}
use jni_demo_system_monitor.Jni.Layout.Matched.{IsWellFormed, str_eq→≡}
use jni_demo_system_monitor.Jni.Layout.Named.{
  field_name, layout_of-IsWellFormed, declared, lacking, layout_of-undeclared,
}
use jni_demo_system_monitor.Jni.Life.Failed.{native_open-failed, error_of}
use jni_demo_system_monitor.Jni.Life.{Reach, start, next, opened, unopened, Reach-IsTidy}
use jni_demo_system_monitor.Text.{str_eq}
use mathlib.Core.Option.{some-injective}

-- A machine whose objects are maps from the names of fields to numbers.
abbrev machine : Jvm
machine = record {
  Class = ℕ;
  Object = Bytes → ℕ;
  FieldId = Bytes;
  Value = ℕ;
  get_field_id = λ _ name _. some name;
  set_field = λ o i v j. if str_eq i j then v else o j;
  get_field = λ o i. o i;
}

other_field : (i j : Bytes) → i ≢ j → str_eq i j ≡ false
other_field i j differ = elim (Bool-cases (str_eq i j)) [
  | inl same ↦ absurd (differ (str_eq→≡ i j same))
  | inr other ↦ other
]

other_id : (d e i j : Bytes) → some d ≡ some i → some e ≡ some j → str_eq d e ≡ false → i ≢ j
other_id d e i j named also other same =
    let equal : d ≡ e = some-injective d i named ∙ same ∙ sym (some-injective e j also) in
    let self : str_eq d e ≡ true = ap (str_eq d) (sym equal) ∙ str_eq_self d in
    absurd (ground arith)

machine-IsJvm : IsJvm machine
machine-IsJvm = record {
  get_set = λ o i v. rw (str_eq_self i) refl;
  get_set_other = λ o i j v differ. rw (other_field i j differ) refl;
  ids_differ = λ cls d e i j. other_id d.name e.name i j;
}

-- A library whose state is a count of calls.
abbrev library : Native
library = record {
  Sysm = ℕ;
  close = λ _. 0;
  strerror = λ _ _. codes "No such file or directory";
  has_class = λ _. true;
}

abbrev block : JniSysm machine library
block = new_block machine library (0, 0)

abbrev opened_world : World machine library
opened_world = record { pointer = some block; refs = 0; blocks = 1; pinned = 0 }

abbrev empty_bean : Bytes → ℕ
empty_bean _ = 0

-- A struct of which each member is 7.
abbrev sevens : Struct machine
sevens _ _ = 7

opened_world-Reach : Reach machine library opened_world
unfolding native_open
opened_world-Reach = next start (
    opened (0, 0) (unopened machine library)
      (record { world = opened_world; value = tt; thrown = none }) refl refl)

layout_of-undeclared_example :
    IsWellFormed (field_name resource_limit) (layout_of resource_limit)
    × (undeclared (declared resource_limit) (layout_of resource_limit).ids ≡ lacking resource_limit)
layout_of-undeclared_example = layout_of-undeclared resource_limit

gather-IsGathered_example :
    (o : Outcome (World machine library) (Bytes → ℕ)) × (gather machine library uptime_layout 5 3
        (λ calls. (0, sevens, suc calls))
        empty_bean
        opened_world
      ≡ some o)
    × IsGathered machine library uptime_layout 3
        (field_name uptime)
        (codes "uptime" ∷ [])
        sevens
        1
        (record block { env = 5 })
        o
unfolding replicate
gather-IsGathered_example =
    gather-IsGathered machine library machine-IsJvm uptime_layout 5 3 (field_name uptime)
      (codes "uptime" ∷ []) (λ calls. (0, sevens, suc calls)) empty_bean opened_world block refl
      refl refl (layout_of-IsWellFormed uptime) (refl, tt) (inl refl)

Reach-IsTidy_example : IsTidy machine library opened_world
Reach-IsTidy_example = Reach-IsTidy machine library opened_world opened_world-Reach

-- A handle that /proc/stat could not be opened for.
abbrev failed_world : World machine library
failed_world = record (unopened machine library) {
  pointer = some (new_block machine library (2, 0));
  blocks = 1;
}

native_open-failed_example :
    (native_open machine library (2, 0) (unopened machine library)
      ≡ some (record {
        world = failed_world;
        value = tt;
        thrown = some (error_of machine library 0 2);
      }))
    × (native_close machine library 5 failed_world
        ≡ some (record {
          world = failed_world;
          value = 0;
          thrown = some (error_of machine library 0 2);
        }))
native_open-failed_example =
    native_open-failed machine library 2 5 0 (unopened machine library) refl (refl, refl)

abbrev ample_heap : Heap machine
ample_heap = record { new_array = λ _. true; new_object = λ _. some empty_bean; put = λ _. true }

abbrev ample : IsAmple machine library ample_heap
ample = record { arrays = λ _. refl; objects = λ _. (empty_bean, refl); puts = λ _. refl }

beans_get-copied_example :
    (objs : List (Bytes → ℕ)) × (o : Outcome (World machine library) (Option (List (Bytes → ℕ))))
    × (beans_get machine library ample_heap uptime_layout 5 3
          (λ calls. (0, sevens ∷ sevens ∷ [], suc calls))
          opened_world
        ≡ some o)
    × (o.value ≡ some objs)
    × (o.thrown ≡ none)
    × (o.world.blocks ≡ 3)
    × EachCopied machine library ample_heap 3
        (field_name uptime)
        uptime_layout
        objs
        (sevens ∷ sevens ∷ [])
unfolding replicate
beans_get-copied_example =
    beans_get-copied machine library ample_heap machine-IsJvm ample uptime_layout 5 3
      (field_name uptime) (codes "uptime" ∷ []) (λ calls. (0, sevens ∷ sevens ∷ [], suc calls))
      opened_world block refl refl refl (layout_of-IsWellFormed uptime) (refl, tt) (inl refl)

-- No memory for an array.
abbrev full_heap : Heap machine
full_heap = record ample_heap { new_array = λ _. false }

abbrev lost_list : Outcome (World machine library) (Option (List (Bytes → ℕ)))
lost_list = record {
  world = record {
    pointer = some (record block {
      env = 5;
      sysm = 1;
      fields = set block.fields 5 (some (cache_of machine 3 (codes "uptime" ∷ [])));
    });
    refs = 1;
    blocks = 4;
    pinned = 0;
  };
  value = none;
  thrown = some jvm_exception;
}

beans_get-lost_example : lost_list.world.blocks ≡ 1 + 2 * 1 + 1
unfolding beans_get with_sysm with_pointer beans_body array_from init_fields init_at fetch_ids
    init_rows init_row slot_number str_eq store replicate
beans_get-lost_example =
    beans_get-lost machine library full_heap uptime_layout 5 3
      (λ calls. (0, sevens ∷ [], suc calls)) opened_world block lost_list refl refl refl refl

-- Another process with two variables.
abbrev two_variables : Variables
two_variables = (codes "H", codes "/") ∷ (codes "A", codes "c") ∷ []

abbrev shell : Process
shell = record { getenv = λ _. none; own = false; file = bytes (join_nul (entries two_variables)) }

get_value-lookup_example :
    get_value machine library 5 shell (codes "A") opened_world
    ≡ some (record {
      world = record opened_world { pointer = some (record block { env = 5 }) };
      value = lookup (codes "A") two_variables;
      thrown = none;
    })
unfolding join_nul entries
get_value-lookup_example =
    get_value-lookup machine library 5 shell (codes "A") two_variables opened_world block refl refl
      (record {
        other = refl;
        text = refl;
        variables = (
          ((refl, tt), (refl, (refl, (refl, tt)))),
          (((refl, tt), (refl, (refl, (refl, tt)))), tt),
        );
        short = (omega arith, (omega arith, tt));
        fits = omega arith;
      })
