-- ===== src/Interface/Listing/Complete.antt =====
-- Which names `proc_net_interface_list_get` of sysm-native/src/main/sysm.c adds.
use jni_demo_system_monitor.Base.{
  ◌≡◌, refl, sym, ap, ◌∙◌, arith, true, false, ◌||◌, List, [], ◌∷◌, ◌++◌, inl, inr, Option, none,
  some, if◌then◌else◌, Bytes, sysm_ok, Bool-cases, drop, All,
}
use jni_demo_system_monitor.GrowList.Kinds.{net_interface_list_push}
use jni_demo_system_monitor.GrowList.Push.{IsValid, push-IsValid}
use jni_demo_system_monitor.GrowList.{GrowList, items, net_iflist_max}
use jni_demo_system_monitor.Interface.Listing.{
  has_interface, interface_name, add_interface, add_interfaces, proc_net_interface_list_get,
}
use jni_demo_system_monitor.Text.{str_eq}
use mathlib.Core.Path.{subst}

str_eq_comm : (s t : Bytes) → str_eq s t ≡ str_eq t s
unfolding str_eq
str_eq_comm [] [] = refl
str_eq_comm [] (y ∷ t) = refl
str_eq_comm (x ∷ s) [] = refl
str_eq_comm (x ∷ s) (y ∷ t) = rw (str_eq_comm s t) (ground arith)

pub str_eq_self : (s : Bytes) → str_eq s s ≡ true
unfolding str_eq
str_eq_self [] = refl
str_eq_self (x ∷ s) = rw (str_eq_self s) (ground arith)

has_interface-append :
    (xs ys : List Bytes) (name : Bytes)
    → has_interface (xs ++ ys) name ≡ (has_interface xs name || has_interface ys name)
unfolding has_interface
has_interface-append [] ys name = refl
has_interface-append (x ∷ xs) ys name = rw (has_interface-append xs ys name) (ground arith)

-- No name stands twice.
unfoldable pub AreDistinct : List Bytes → Type 0
AreDistinct [] = Unit
AreDistinct (x ∷ xs) = (has_interface xs x ≡ false) × AreDistinct xs

AreDistinct-append :
    (xs : List Bytes) (name : Bytes)
    → AreDistinct xs
    → has_interface xs name ≡ false
    → AreDistinct (xs ++ name ∷ [])
unfolding AreDistinct has_interface
AreDistinct-append [] name d new = (refl, tt)
AreDistinct-append (x ∷ xs) name (dx, ds) new = elim (Bool-cases (str_eq name x)) [
  | inl e ↦ absurd (ground (arith, e, new))
  | inr e ↦
      let fresh : has_interface xs name ≡ false = ground (arith, e, new) in
      (
        has_interface-append xs (name ∷ []) x ∙ rw (dx, str_eq_comm x name, e) refl,
        AreDistinct-append xs name ds fresh,
      )
]

-- What the lines add: each new name is behind the ones that are listed.
pub with_interface : List Bytes → Option Bytes → List Bytes
with_interface names none = names
with_interface names (some dev) = if has_interface names dev then names else names ++ dev ∷ []

pub with_interfaces : List Bytes → List Bytes → List Bytes
with_interfaces names [] = names
with_interfaces names (line ∷ lines) =
    with_interfaces (with_interface names (interface_name line)) lines

add_interface_lem :
    (dev : Option Bytes) (l : GrowList Bytes)
    → IsValid l
    → (l' : GrowList Bytes) × (add_interface dev l ≡ some l')
      × IsValid l'
      × (items l' ≡ with_interface (items l) dev)
unfolding add_interface with_interface net_interface_list_push
add_interface_lem none l v = (l, refl, v, refl)
add_interface_lem (some dev) l v = elim (Bool-cases (has_interface (items l) dev)) [
  | inl e ↦ (l, rw e refl, v, rw e refl)
  | inr e ↦
      let (l', pushed, v', more) = push-IsValid net_iflist_max dev l (omega arith) v in
      (l', rw (e, pushed) refl, v', rw e more)
]

add_interfaces_lem :
    (lines : List Bytes) (l : GrowList Bytes)
    → IsValid l
    → (l' : GrowList Bytes) × (add_interfaces lines l ≡ some l')
      × IsValid l'
      × (items l' ≡ with_interfaces (items l) lines)
unfolding add_interfaces with_interfaces
add_interfaces_lem [] l v = (l, refl, v, refl)
add_interfaces_lem (line ∷ lines) l v =
    let (l1, added, v1, one) = add_interface_lem (interface_name line) l v in
    let (l2, runs, v2, all) = add_interfaces_lem lines l1 v1 in
    (l2, rw (added) runs, v2, all ∙ ap (λ (xs : List Bytes). with_interfaces xs lines) one)

with_interface-AreDistinct :
    (names : List Bytes) (dev : Option Bytes)
    → AreDistinct names
    → AreDistinct (with_interface names dev)
unfolding with_interface
with_interface-AreDistinct names none d = d
with_interface-AreDistinct names (some dev) d = elim (Bool-cases (has_interface names dev)) [
  | inl e ↦ rw e d
  | inr e ↦ rw e (AreDistinct-append names dev d e)
]

with_interfaces-AreDistinct :
    (names lines : List Bytes) → AreDistinct names → AreDistinct (with_interfaces names lines)
unfolding with_interfaces
with_interfaces-AreDistinct names [] d = d
with_interfaces-AreDistinct names (line ∷ lines) d =
    with_interfaces-AreDistinct (with_interface names (interface_name line)) lines
      (with_interface-AreDistinct names (interface_name line) d)

with_interface_keeps :
    (names : List Bytes) (dev : Option Bytes) (name : Bytes)
    → has_interface names name ≡ true
    → has_interface (with_interface names dev) name ≡ true
unfolding with_interface has_interface
with_interface_keeps names none name h = h
with_interface_keeps names (some dev) name h = elim (Bool-cases (has_interface names dev)) [
  | inl e ↦ rw e h
  | inr e ↦ rw e (has_interface-append names (dev ∷ []) name ∙ rw h refl)
]

with_interfaces_keeps :
    (names lines : List Bytes) (name : Bytes)
    → has_interface names name ≡ true
    → has_interface (with_interfaces names lines) name ≡ true
unfolding with_interfaces
with_interfaces_keeps names [] name h = h
with_interfaces_keeps names (line ∷ lines) name h =
    with_interfaces_keeps (with_interface names (interface_name line)) lines name
      (with_interface_keeps names (interface_name line) name h)

with_interface_new :
    (names : List Bytes) (name : Bytes)
    → has_interface (with_interface names (some name)) name ≡ true
unfolding with_interface has_interface
with_interface_new names name = elim (Bool-cases (has_interface names name)) [
  | inl e ↦ rw e e
  | inr e ↦
      rw e (has_interface-append names (name ∷ []) name ∙ rw (str_eq_self name) (ground arith))
]

-- Every line with a name has it listed.
pub AllListed : List Bytes → List Bytes → Type 0
AllListed names lines =
    All (λ line. (name : Bytes) → interface_name line ≡ some name → has_interface names name ≡ true)
      lines

with_interfaces-AllListed :
    (names lines : List Bytes) → AllListed (with_interfaces names lines) lines
unfolding with_interfaces AllListed
with_interfaces-AllListed names [] = tt
with_interfaces-AllListed names (line ∷ lines) = (
  λ name e.
      with_interfaces_keeps (with_interface names (interface_name line)) lines name
        (rw e (with_interface_new names name)),
  with_interfaces-AllListed (with_interface names (interface_name line)) lines,
)

-- On a well-formed list without a name twice, `proc_net_interface_list_get` succeeds, never stores
-- outside the block, appends the names of the lines behind the header that are not listed yet, in
-- order, and ends with every such name listed, none of them twice.
pub proc_net_interface_list_get-with_interfaces :
    (lines : List Bytes) (l : GrowList Bytes)
    → IsValid l
    → AreDistinct (items l)
    → (l' : GrowList Bytes) × (proc_net_interface_list_get (inr lines) l ≡ some (sysm_ok, l'))
      × IsValid l'
      × (items l' ≡ with_interfaces (items l) (drop 2 lines))
      × AreDistinct (items l')
      × AllListed (items l') (drop 2 lines)
unfolding proc_net_interface_list_get
proc_net_interface_list_get-with_interfaces lines l v d =
    let (l', runs, v', all) = add_interfaces_lem (drop 2 lines) l v in
    (
      l',
      rw runs refl,
      v',
      all,
      subst AreDistinct (sym all) (with_interfaces-AreDistinct (items l) (drop 2 lines) d),
      subst (λ names. AllListed names (drop 2 lines)) (sym all)
          (with_interfaces-AllListed (items l) (drop 2 lines)),
    )
