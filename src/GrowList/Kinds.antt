-- ===== src/GrowList/Kinds.antt =====
-- The growable lists of sysm-native/src/main/sysm.c, one kind for each item type. An item of a type
-- that other modules model is a parameter here.
use jni_demo_system_monitor.Base.{ℕ, List, Option, Bytes}
use jni_demo_system_monitor.GrowList.{
  GrowList, create, grow, push, destroy, destroy_items, proc_list_max, proc_args_max, cpu_max,
  fs_max, net_route_list_max, net_iflist_max, net_connlist_max, who_list_max,
}

unfoldable pub proc_list_create : GrowList ℕ
unfolding create
proc_list_create = create proc_list_max

unfoldable pub proc_list_grow : GrowList ℕ → GrowList ℕ
unfolding grow
proc_list_grow = grow proc_list_max

unfoldable pub proc_list_push : ℕ → GrowList ℕ → Option (GrowList ℕ)
unfolding push
proc_list_push = push proc_list_max

unfoldable pub proc_list_destroy : GrowList ℕ → GrowList ℕ
unfolding destroy
proc_list_destroy = destroy

unfoldable pub proc_args_create : GrowList Bytes
unfolding create
proc_args_create = create proc_args_max

unfoldable pub proc_args_grow : GrowList Bytes → GrowList Bytes
unfolding grow
proc_args_grow = grow proc_args_max

unfoldable pub proc_args_push : Bytes → GrowList Bytes → Option (GrowList Bytes)
unfolding push
proc_args_push = push proc_args_max

unfoldable pub proc_args_destroy : GrowList Bytes → List Bytes × GrowList Bytes
unfolding destroy_items
proc_args_destroy = destroy_items

unfoldable pub cpu_info_list_create {ℓ} : {A : Type ℓ} → GrowList A
unfolding create
cpu_info_list_create = create cpu_max

unfoldable pub cpu_info_list_grow {ℓ} : {A : Type ℓ} → GrowList A → GrowList A
unfolding grow
cpu_info_list_grow = grow cpu_max

unfoldable pub cpu_info_list_push {ℓ} : {A : Type ℓ} → A → GrowList A → Option (GrowList A)
unfolding push
cpu_info_list_push = push cpu_max

unfoldable pub cpu_info_list_destroy {ℓ} : {A : Type ℓ} → GrowList A → GrowList A
unfolding destroy
cpu_info_list_destroy = destroy

unfoldable pub cpu_list_create {ℓ} : {A : Type ℓ} → GrowList A
unfolding create
cpu_list_create = create cpu_max

unfoldable pub cpu_list_grow {ℓ} : {A : Type ℓ} → GrowList A → GrowList A
unfolding grow
cpu_list_grow = grow cpu_max

unfoldable pub cpu_list_push {ℓ} : {A : Type ℓ} → A → GrowList A → Option (GrowList A)
unfolding push
cpu_list_push = push cpu_max

unfoldable pub cpu_list_destroy {ℓ} : {A : Type ℓ} → GrowList A → GrowList A
unfolding destroy
cpu_list_destroy = destroy

unfoldable pub file_system_list_create {ℓ} : {A : Type ℓ} → GrowList A
unfolding create
file_system_list_create = create fs_max

unfoldable pub file_system_list_grow {ℓ} : {A : Type ℓ} → GrowList A → GrowList A
unfolding grow
file_system_list_grow = grow fs_max

unfoldable pub file_system_list_push {ℓ} : {A : Type ℓ} → A → GrowList A → Option (GrowList A)
unfolding push
file_system_list_push = push fs_max

unfoldable pub file_system_list_destroy {ℓ} : {A : Type ℓ} → GrowList A → GrowList A
unfolding destroy
file_system_list_destroy = destroy

unfoldable pub net_route_list_create {ℓ} : {A : Type ℓ} → GrowList A
unfolding create
net_route_list_create = create net_route_list_max

unfoldable pub net_route_list_grow {ℓ} : {A : Type ℓ} → GrowList A → GrowList A
unfolding grow
net_route_list_grow = grow net_route_list_max

unfoldable pub net_route_list_push {ℓ} : {A : Type ℓ} → A → GrowList A → Option (GrowList A)
unfolding push
net_route_list_push = push net_route_list_max

unfoldable pub net_route_list_destroy {ℓ} : {A : Type ℓ} → GrowList A → GrowList A
unfolding destroy
net_route_list_destroy = destroy

unfoldable pub net_interface_list_create : GrowList Bytes
unfolding create
net_interface_list_create = create net_iflist_max

unfoldable pub net_interface_list_grow : GrowList Bytes → GrowList Bytes
unfolding grow
net_interface_list_grow = grow net_iflist_max

unfoldable pub net_interface_list_push : Bytes → GrowList Bytes → Option (GrowList Bytes)
unfolding push
net_interface_list_push = push net_iflist_max

unfoldable pub net_interface_list_destroy : GrowList Bytes → List Bytes × GrowList Bytes
unfolding destroy_items
net_interface_list_destroy = destroy_items

unfoldable pub net_connection_list_create {ℓ} : {A : Type ℓ} → GrowList A
unfolding create
net_connection_list_create = create net_connlist_max

unfoldable pub net_connection_list_grow {ℓ} : {A : Type ℓ} → GrowList A → GrowList A
unfolding grow
net_connection_list_grow = grow net_connlist_max

unfoldable pub net_connection_list_push {ℓ} : {A : Type ℓ} → A → GrowList A → Option (GrowList A)
unfolding push
net_connection_list_push = push net_connlist_max

unfoldable pub net_connection_list_destroy {ℓ} : {A : Type ℓ} → GrowList A → GrowList A
unfolding destroy
net_connection_list_destroy = destroy

unfoldable pub who_list_create {ℓ} : {A : Type ℓ} → GrowList A
unfolding create
who_list_create = create who_list_max

unfoldable pub who_list_grow {ℓ} : {A : Type ℓ} → GrowList A → GrowList A
unfolding grow
who_list_grow = grow who_list_max

unfoldable pub who_list_push {ℓ} : {A : Type ℓ} → A → GrowList A → Option (GrowList A)
unfolding push
who_list_push = push who_list_max

unfoldable pub who_list_destroy {ℓ} : {A : Type ℓ} → GrowList A → GrowList A
unfolding destroy
who_list_destroy = destroy
