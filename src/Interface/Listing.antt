-- ===== src/Interface/Listing.antt =====
-- The names of the interfaces: `has_interface` and `proc_net_interface_list_get` of
-- sysm-native/src/main/sysm.c, and the end of `sysm_net_interface_list_get`, which is given the names
-- that the ioctl SIOCGIFCONF delivers and the room there is for names, and the lines of
-- /proc/net/dev, or the errno of `fopen`. `none` is a store behind the block.
pub mod Complete
use jni_demo_system_monitor.Base.{
  ℕ, ◌-◌, Bool, true, false, ◌||◌, List, [], ◌∷◌, ◌⊎◌, inl, inr, Option, none, some, ◌>>=◌,
  if◌then◌else◌, length, take, drop, replicate, Bytes, sysm_ok,
}
use jni_demo_system_monitor.GrowList.Kinds.{net_interface_list_push}
use jni_demo_system_monitor.GrowList.{GrowList, items, store}
use jni_demo_system_monitor.Text.{is_space, drop_while, strchr, str_eq}

unfoldable pub has_interface : List Bytes → Bytes → Bool
unfolding str_eq
has_interface [] name = false
has_interface (x ∷ rest) name = str_eq name x || has_interface rest name

-- `ptr` is what `strchr` finds in `dev`.
unfoldable pub cut_dev : Bytes → Option Bytes → Option Bytes
cut_dev dev none = none
cut_dev dev (some ptr) = some (take (length dev - length ptr) dev)

-- The name at the head of a line of /proc/net/dev, if it has a colon.
unfoldable pub interface_name : Bytes → Option Bytes
unfolding cut_dev drop_while is_space strchr
interface_name line = let dev = drop_while is_space line in cut_dev dev (strchr b':' dev)

-- A round of the loop, from the name on.
unfoldable pub add_interface : Option Bytes → GrowList Bytes → Option (GrowList Bytes)
unfolding has_interface net_interface_list_push
add_interface none iflist = some iflist
add_interface (some dev) iflist =
    if has_interface (items iflist) dev then some iflist else net_interface_list_push dev iflist

unfoldable pub add_interfaces : List Bytes → GrowList Bytes → Option (GrowList Bytes)
unfolding interface_name add_interface
add_interfaces [] iflist = some iflist
add_interfaces (line ∷ lines) iflist = do
  iflist' ← add_interface (interface_name line) iflist
  add_interfaces lines iflist'

unfoldable pub proc_net_interface_list_get :
    ℕ ⊎ List Bytes → GrowList Bytes → Option (ℕ × GrowList Bytes)
unfolding add_interfaces
proc_net_interface_list_get (inl errno) iflist = some (errno, iflist)
proc_net_interface_list_get (inr lines) iflist = do
  iflist' ← add_interfaces (drop 2 lines) iflist
  some (sysm_ok, iflist')

-- The loop over the records of the ioctl, which does not look for room.
unfoldable pub copy_names : List Bytes → GrowList Bytes → Option (GrowList Bytes)
unfolding store
copy_names [] iflist = some iflist
copy_names (name ∷ names) iflist = do iflist' ← store name iflist; copy_names names iflist'

-- From the ioctl on; the status of the reading of /proc/net/dev is not looked at.
unfoldable pub net_interface_list_get :
    List Bytes → ℕ → ℕ ⊎ List Bytes → Option (ℕ × GrowList Bytes)
unfolding copy_names proc_net_interface_list_get
net_interface_list_get names size dev = do
  iflist ← copy_names names (record { number = 0; size = size; slots = replicate size none })
  r ← proc_net_interface_list_get dev iflist
  some (sysm_ok, r.1)
