-- ===== src/GrowList.antt =====
-- The growable lists of sysm-native/include/main/sysm.h and sysm-native/src/main/sysm.c: `number`
-- items in a block of `size` slots, made, grown, filled and destroyed by functions and macros that
-- are the same for every item type but for the step of growth. `malloc` and `realloc` succeed.
pub mod Push
pub mod Kinds
use jni_demo_system_monitor.Base.{
  ℕ, ◌+◌, ◌≤◌, List, [], ◌∷◌, ◌++◌, Option, none, some, ◌>>=◌, length, set, replicate, leb, ltb,
  ◌==◌, if◌then◌else◌, Bytes, zero, suc,
}

-- A slot that was never written is `none`; the block has as many slots as `slots` is long.
pub record GrowList {ℓ} (A : Type ℓ) : Type ℓ where
  pub number : ℕ
  pub size : ℕ
  pub slots : List (Option A)

abbrev pub proc_list_max : ℕ
proc_list_max = 256

abbrev pub proc_args_max : ℕ
proc_args_max = 12

abbrev pub cpu_max : ℕ
cpu_max = 4

abbrev pub fs_max : ℕ
fs_max = 10

abbrev pub net_route_list_max : ℕ
net_route_list_max = 6

abbrev pub net_iflist_max : ℕ
net_iflist_max = 20

abbrev pub net_connlist_max : ℕ
net_connlist_max = 20

abbrev pub who_list_max : ℕ
who_list_max = 12

module _ {ℓ} {A : Type ℓ} where
  unfoldable pub create : ℕ → GrowList A
  create max = record { number = 0; size = max; slots = replicate max none }

  unfoldable pub grow : ℕ → GrowList A → GrowList A
  grow max l = record l { slots = l.slots ++ replicate max none; size = l.size + max }

  -- The macro in front of every store: `if (number >= size) grow`.
  unfoldable pub reserve : ℕ → GrowList A → GrowList A
  unfolding grow
  reserve max l = if leb l.size l.number then grow max l else l

  -- `data[number++] = x`; `none` is a store behind the block.
  unfoldable pub store : A → GrowList A → Option (GrowList A)
  store x l =
      if ltb l.number (length l.slots)
      then some (record l { slots = set l.slots l.number (some x); number = l.number + 1 })
      else none

  unfoldable pub push : ℕ → A → GrowList A → Option (GrowList A)
  push max x l = store x (reserve max l)

  unfoldable pub destroy : GrowList A → GrowList A
  destroy l = if l.size == 0 then l else record { number = 0; size = 0; slots = [] }

  -- The items that a loop over `0 … number - 1` reads.
  unfoldable pub read_slots : ℕ → List (Option A) → List A
  read_slots zero slots = []
  read_slots (suc n) [] = []
  read_slots (suc n) (none ∷ slots) = read_slots n slots
  read_slots (suc n) (some x ∷ slots) = x ∷ read_slots n slots

  unfoldable pub items : GrowList A → List A
  unfolding read_slots
  items l = read_slots l.number l.slots

  -- What destroying a list of pointers frees besides the block.
  unfoldable pub destroy_items : GrowList A → List A × GrowList A
  unfolding destroy items
  destroy_items l = (if l.size == 0 then [] else items l, destroy l)
