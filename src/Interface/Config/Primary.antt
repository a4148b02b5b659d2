-- ===== src/Interface/Config/Primary.antt =====
-- Which interface `sysm_net_interface_config_primary_get` of sysm-native/src/main/sysm.c chooses.
use jni_demo_system_monitor.Base.{
  ℕ, ◌≡◌, refl, ap, ◌∙◌, Bool, true, false, not, ◌&&◌, List, [], ◌∷◌, Option, none, some,
  if◌then◌else◌, ◌==◌, Bytes, sysm_ok, enxio, Bool-cases, All, inl, inr,
}
use jni_demo_system_monitor.Interface.Config.{
  InterfaceConfig, Kernel, zero_config, config_get, is_candidate, is_primary, save, primary_loop,
  conclude, config_primary_get,
}

-- The names of the interfaces, each with what `sysm_net_interface_config_get` answers for it.
abbrev pub Surveyed : Type 0
Surveyed = List (Bytes × ℕ × InterfaceConfig)

pub names_of : Surveyed → List Bytes
names_of [] = []
names_of ((name, status, c) ∷ more) = name ∷ names_of more

-- The first candidate that is no alias and has an address.
pub first_primary : Surveyed → Option InterfaceConfig
first_primary [] = none
first_primary ((name, status, c) ∷ more) =
    let later = first_primary more in
    if is_candidate status c && is_primary name c then some c else later

-- The first candidate with any flag set.
pub first_candidate : Surveyed → Option InterfaceConfig
first_candidate [] = none
first_candidate ((name, status, c) ∷ more) =
    let later = first_candidate more in
    if is_candidate status c && not (c.flags == 0) then some c else later

-- What is left in `ifconfig` by the last one.
pub last_asked : InterfaceConfig → Surveyed → InterfaceConfig
last_asked c [] = c
last_asked c ((name, status, c') ∷ more) = last_asked c' more

-- The one that is found, else the one that is kept for later, else ENXIO.
pub choice : Option InterfaceConfig → Option InterfaceConfig → InterfaceConfig → ℕ × InterfaceConfig
choice (some c) kept last = (sysm_ok, c)
choice none (some c) last = (sysm_ok, c)
choice none none last = (enxio, last)

-- What is kept, with `possible` from before.
pub held : InterfaceConfig → Option InterfaceConfig → Option InterfaceConfig
held possible kept = if possible.flags == 0 then kept else some possible

held-save :
    (possible c : InterfaceConfig) (later : Option InterfaceConfig)
    → held (save possible c) later ≡ held possible (if not (c.flags == 0) then some c else later)
unfolding held save
held-save possible c later = elim (Bool-cases (possible.flags == 0)) [
  | inl e ↦ elim (Bool-cases (c.flags == 0)) [ inl f ↦ rw (e, f) refl | inr f ↦ rw (e, f) refl ]
  | inr e ↦ rw (e, e) refl
]

abbrev pub IsSurvey : Kernel → Surveyed → Type 0
IsSurvey k more = All (λ r. config_get k r.0 ≡ some (r.1, r.2)) more

primary_loop-choice :
    (k : Kernel) (more : Surveyed) (c possible : InterfaceConfig)
    → IsSurvey k more
    → (r : Bool × InterfaceConfig × InterfaceConfig) × (primary_loop k (names_of more) c possible
        ≡ some r)
      × (conclude r
          ≡ choice (first_primary more) (held possible (first_candidate more)) (last_asked c more))
unfolding primary_loop conclude names_of first_primary first_candidate last_asked choice held
primary_loop-choice k [] c possible h = (
  (false, c, possible),
  refl,
  elim (Bool-cases (possible.flags == 0)) [ inl e ↦ rw e refl | inr e ↦ rw e refl ],
)
primary_loop-choice k ((name, status, c') ∷ more) c possible (h, hs) =
    elim (Bool-cases (is_candidate status c')) [
      | inl cand ↦ elim (Bool-cases (is_primary name c')) [
        | inl prim ↦ ((true, c', save possible c'), rw (h, cand, prim) refl, rw (cand, prim) refl)
        | inr other ↦
            let (r, runs, chosen) = primary_loop-choice k more c' (save possible c') hs in
            (
              r,
              rw (h, cand, other) runs,
              rw (cand, other)
                  (chosen
                    ∙ ap
                        (λ (o : Option InterfaceConfig).
                          choice (first_primary more) o (last_asked c' more))
                        (held-save possible c' (first_candidate more))),
            )
      ]
      | inr skip ↦
          let (r, runs, chosen) = primary_loop-choice k more c' possible hs in
          (r, rw (h, skip) runs, rw skip chosen)
    ]

-- Where `sysm_net_interface_config_get` ends for every interface that is listed,
-- `sysm_net_interface_config_primary_get` ends: it answers SYSM_OK with the first interface that has
-- no error, is not a loopback, has a hardware address and an address and is no alias; else with the
-- first one without an error that is not a loopback, has a hardware address and any flag set; else
-- ENXIO, and leaves what the last one wrote.
pub config_primary_get-choice :
    (k : Kernel) (more : Surveyed) (c : InterfaceConfig)
    → IsSurvey k more
    → config_primary_get k (inr (names_of more)) c
      ≡ some (choice (first_primary more) (first_candidate more) (last_asked c more))
unfolding config_primary_get zero_config held
config_primary_get-choice k more c h =
    let (r, runs, chosen) = primary_loop-choice k more c zero_config h in rw runs (ap some chosen)
