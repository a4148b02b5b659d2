-- ===== src/Route.antt =====
-- Routes: `sysm_net_route_list_get` and `sysm_get_default_gateway` of sysm-native/src/main/sysm.c.
-- What `fopen` and `sscanf` deliver for the lines of /proc/net/route are parameters. `none` is a
-- store or a read behind a buffer.
pub mod Gateway
pub mod Info
use jni_demo_system_monitor.Base.{
  ℕ, ◌+◌, Bool, true, false, not, ◌&&◌, ◌||◌, List, [], ◌∷◌, ◌⊎◌, inl, inr, Option, none, some,
  ◌>>=◌, ltb, ◌==◌, if◌then◌else◌, take, drop, Bytes, sysm_ok,
}
use jni_demo_system_monitor.GrowList.Kinds.{net_route_list_create}
use jni_demo_system_monitor.GrowList.{GrowList, items, reserve, store, net_route_list_max}
use jni_demo_system_monitor.Net.Address.{
  NetAddress, inet, hex2int, hex_ent_len, net_address_to_string,
}
use jni_demo_system_monitor.Net.Connection.{has_flag}

pub record NetRoute : Type 0 where
  pub destination : NetAddress
  pub gateway : NetAddress
  pub mask : NetAddress
  pub flags : ℕ
  pub refcnt : ℕ
  pub use_count : ℕ
  pub metric : ℕ
  pub mtu : ℕ
  pub window : ℕ
  pub irtt : ℕ
  pub ifname : Bytes

-- What `sscanf` reads from a line, and how many fields it counts.
pub record ScannedRoute : Type 0 where
  pub num : ℕ
  pub ifname : Bytes
  pub net_addr : Bytes
  pub gate_addr : Bytes
  pub flags : ℕ
  pub refcnt : ℕ
  pub use_count : ℕ
  pub metric : ℕ
  pub mask_addr : Bytes
  pub mtu : ℕ
  pub window : ℕ
  pub irtt : ℕ

abbrev pub rtf_up : ℕ
rtf_up = 1

abbrev pub rtf_gateway : ℕ
rtf_gateway = 2

-- `sysm_net_address_set` on what `malloc` left.
abbrev pub set_word : NetAddress → ℕ → NetAddress
set_word left word = record left { family = inet; word0 = word }

module _ (left : NetAddress) where
  unfoldable pub to_route : ScannedRoute → Option NetRoute
  unfolding hex2int
  to_route r = do
    destination ← hex2int r.net_addr hex_ent_len
    gateway ← hex2int r.gate_addr hex_ent_len
    mask ← hex2int r.mask_addr hex_ent_len
    some (record {
      destination = set_word left destination;
      gateway = set_word left gateway;
      mask = set_word left mask;
      flags = r.flags;
      refcnt = r.refcnt;
      use_count = r.use_count;
      metric = r.metric;
      mtu = r.mtu;
      window = r.window;
      irtt = r.irtt;
      ifname = r.ifname;
    })

  abbrev pub is_dropped : ScannedRoute → Bool
  is_dropped r = ltb r.num 10 || not (has_flag r.flags rtf_up)

  -- A round of the loop: the room is made before the line is looked at.
  unfoldable pub add_route : ScannedRoute → GrowList NetRoute → Option (GrowList NetRoute)
  unfolding to_route reserve store
  add_route r l =
      let roomy = reserve net_route_list_max l in
      if is_dropped r then some roomy else (do route ← to_route r; store route roomy)

  unfoldable pub add_routes : List ScannedRoute → GrowList NetRoute → Option (GrowList NetRoute)
  unfolding add_route
  add_routes [] l = some l
  add_routes (r ∷ rs) l = do l' ← add_route r l; add_routes rs l'

  -- The rows are those behind the header line.
  unfoldable pub net_route_list_get : ℕ ⊎ List ScannedRoute → Option (ℕ × GrowList NetRoute)
  unfolding add_routes net_route_list_create
  net_route_list_get (inl errno) = some (errno, record { number = 0; size = 0; slots = [] })
  net_route_list_get (inr rows) = do l ← add_routes rows net_route_list_create; some (sysm_ok, l)

  -- The loop over the routes; `to_text` is `inet_ntop`.
  unfoldable pub gateway_in :
      (NetAddress → Bytes ⊎ ℕ) → List NetRoute → Bytes × Bytes → Bytes × Bytes
  unfolding net_address_to_string
  gateway_in to_text [] info = info
  gateway_in to_text (r ∷ rs) info =
      let later = gateway_in to_text rs info in
      if has_flag r.flags rtf_gateway && ((r.destination).word0 == 0)
      then ((net_address_to_string to_text r.gateway).0, take 256 r.ifname)
      else later

  -- The status, and the fields `default_gateway` and `default_gateway_interface`.
  unfoldable pub get_default_gateway :
      (NetAddress → Bytes ⊎ ℕ) → ℕ ⊎ List ScannedRoute → Bytes × Bytes → Option (ℕ × Bytes × Bytes)
  unfolding net_route_list_get gateway_in items
  get_default_gateway to_text rows info = do
    r ← net_route_list_get rows
    let (text, name) = gateway_in to_text (items r.1) info
    some (if r.0 == sysm_ok then (sysm_ok, text, name) else (r.0, info.0, info.1))
