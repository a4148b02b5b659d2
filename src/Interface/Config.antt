-- ===== src/Interface/Config.antt =====
-- The configuration of an interface: `sysm_net_interface_config_get`,
-- `sysm_net_interface_ipv6_config_get` and `sysm_net_interface_config_primary_get` of
-- sysm-native/src/main/sysm.c. What the ioctls and `fscanf` deliver for a name is a parameter. `none`
-- is a store behind a buffer.
pub mod Primary
use jni_demo_system_monitor.Base.{
  ℕ, zero, suc, ◌+◌, ◌-◌, ◌*◌, ◌%◌, ◌^◌, Bool, true, false, not, ◌||◌, List, [], ◌∷◌, ◌⊎◌, inl, inr,
  Option, none, some, ◌>>=◌, ltb, ◌==◌, if◌then◌else◌, length, get_or, drop, Bytes, codes, u32_mod,
  u64_mod, sysm_ok, enoent, enxio,
}
use jni_demo_system_monitor.Base.Bits.{bit_and, bit_or}
use jni_demo_system_monitor.Interface.Kind.{iff_loopback, convert_flags, get_interface_type}
use jni_demo_system_monitor.Net.Address.{NetAddress, Family, inet, inet6, link, unspec, hex2int}
use jni_demo_system_monitor.Net.Connection.{has_flag}
use jni_demo_system_monitor.Text.{str_eq, strchr}

pub record InterfaceConfig : Type 0 where
  pub name : Bytes
  pub type : Bytes
  pub description : Bytes
  pub hwaddr : NetAddress
  pub address : NetAddress
  pub destination : NetAddress
  pub broadcast : NetAddress
  pub netmask : NetAddress
  pub address6 : NetAddress
  pub prefix6_length : ℕ
  pub scope6 : ℕ
  pub flags : ℕ
  pub mtu : ℕ
  pub metric : ℕ
  pub tx_queue_len : ℕ

-- What the ioctls deliver for a name: `none` is a failure. `hwaddr` has the family and the first
-- two words of `sa_data`, cut to the six bytes of the address.
pub record Answers : Type 0 where
  pub address : Option ℕ
  pub netmask : Option ℕ
  pub flags : ℕ ⊎ ℕ
  pub destination : Option ℕ
  pub broadcast : Option ℕ
  pub hwaddr : Option (ℕ × ℕ × ℕ)
  pub mtu : Option ℕ
  pub metric : Option ℕ
  pub qlen : Option ℕ

-- A row that `fscanf` reads from /proc/net/if_inet6.
pub record Inet6Row : Type 0 where
  pub addr : Bytes
  pub prefix : ℕ
  pub scope : ℕ
  pub ifname : Bytes

-- The errno of a `socket` that fails, the ioctls by the name of the interface, and the rows of the
-- file, or the errno of `fopen`.
pub record Kernel : Type 0 where
  pub no_socket : Option ℕ
  pub answers : Bytes → Answers
  pub if_inet6 : ℕ ⊎ List Inet6Row

unfoldable pub no_address : NetAddress
no_address = record { family = unspec; word0 = 0; word1 = 0; word2 = 0; word3 = 0 }

-- After `SYSM_ZERO`.
unfoldable pub zero_config : InterfaceConfig
unfolding no_address
zero_config = record {
  name = [];
  type = [];
  description = [];
  hwaddr = no_address;
  address = no_address;
  destination = no_address;
  broadcast = no_address;
  netmask = no_address;
  address6 = no_address;
  prefix6_length = 0;
  scope6 = 0;
  flags = 0;
  mtu = 0;
  metric = 0;
  tx_queue_len = 0;
}

-- `sysm_net_address_set`, where the ioctl has succeeded.
unfoldable pub net_address_set : Option ℕ → NetAddress → NetAddress
net_address_set none a = a
net_address_set (some value) a = record a { family = inet; word0 = value }

unfoldable pub set_hwaddr : Option (ℕ × ℕ × ℕ) → InterfaceConfig → InterfaceConfig
unfolding get_interface_type no_address
set_hwaddr none c = c
set_hwaddr (some (family, word0, word1)) c = record c {
  type = get_interface_type family;
  hwaddr = record no_address { family = link; word0 = word0; word1 = word1 };
}

-- The addresses that depend on the loopback bit.
unfoldable pub set_ends : Answers → InterfaceConfig → InterfaceConfig
unfolding net_address_set set_hwaddr no_address
set_ends a c =
    if has_flag c.flags iff_loopback
    then record c {
      destination = net_address_set (some ((c.address).word0)) c.destination;
      broadcast = net_address_set (some 0) c.broadcast;
      hwaddr = record no_address { family = link };
      type = codes "Local Loopback";
    }
    else set_hwaddr a.hwaddr (record c {
      destination = net_address_set a.destination c.destination;
      broadcast = net_address_set a.broadcast c.broadcast;
    })

-- An `int` as 64 bits.
abbrev sign_int : ℕ → ℕ
sign_int v = if ltb v (2 ^ 31) then v else v + u64_mod - u32_mod

abbrev at_least_one : ℕ → ℕ
at_least_one metric = if metric == 0 then 1 else sign_int metric

unfoldable pub set_numbers : Answers → InterfaceConfig → InterfaceConfig
set_numbers a c = record c {
  mtu = elim a.mtu [ none ↦ 0 | some mtu ↦ sign_int mtu ];
  metric = elim a.metric [ none ↦ c.metric | some metric ↦ at_least_one metric ];
  tx_queue_len = elim a.qlen [ none ↦ u32_mod - 1 | some qlen ↦ qlen ];
  description = c.name;
}

-- Four bytes of two hexadecimal digits each, as a word of memory.
unfoldable pub hex_word : Bytes → Option ℕ
unfolding hex2int
hex_word ptr = do
  b0 ← hex2int ptr 2
  b1 ← hex2int (drop 2 ptr) 2
  b2 ← hex2int (drop 4 ptr) 2
  b3 ← hex2int (drop 6 ptr) 2
  some (b0 % 256 + b1 % 256 * 256 + b2 % 256 * 2 ^ 16 + b3 % 256 * 2 ^ 24)

unfoldable pub set_inet6 : Option Inet6Row → InterfaceConfig → Option (ℕ × InterfaceConfig)
unfolding hex_word
set_inet6 none c = some (enoent, c)
set_inet6 (some row) c = do
  w0 ← hex_word row.addr
  w1 ← hex_word (drop 8 row.addr)
  w2 ← hex_word (drop 16 row.addr)
  w3 ← hex_word (drop 24 row.addr)
  some (
    sysm_ok,
    record c {
      address6 = record {
        family = (c.address6).family;
        word0 = w0;
        word1 = w1;
        word2 = w2;
        word3 = w3;
      };
      prefix6_length = row.prefix;
      scope6 = row.scope;
    },
  )

-- The loop over the rows.
unfoldable pub inet6_row : Bytes → List Inet6Row → Option Inet6Row
unfolding str_eq
inet6_row name [] = none
inet6_row name (row ∷ rows) =
    let later = inet6_row name rows in if str_eq name row.ifname then some row else later

unfoldable pub net_interface_ipv6_config_get :
    ℕ ⊎ List Inet6Row → Bytes → InterfaceConfig → Option (ℕ × InterfaceConfig)
unfolding inet6_row set_inet6
net_interface_ipv6_config_get (inl errno) name c = some (errno, c)
net_interface_ipv6_config_get (inr rows) name c = set_inet6 (inet6_row name rows) c

-- `sysm_net_interface_ipv6_config_init`.
unfoldable pub ipv6_config_init : InterfaceConfig → InterfaceConfig
ipv6_config_init c = record c {
  address6 = record c.address6 { family = inet6 };
  prefix6_length = 0;
  scope6 = 0;
}

-- No `continue` of the first kind.
unfoldable pub is_candidate : ℕ → InterfaceConfig → Bool
is_candidate status c =
    not (not (status == sysm_ok) || (has_flag c.flags iff_loopback || (c.hwaddr).word0 == 0))

-- The interface has an address and is no alias.
unfoldable pub is_primary : Bytes → InterfaceConfig → Bool
unfolding strchr
is_primary name c =
    if (c.address).word0 == 0
    then false
    else elim (strchr b':' name) [ none ↦ true | some _ ↦ false ]

-- `possible_config`, whose flags say whether there is one.
unfoldable pub save : InterfaceConfig → InterfaceConfig → InterfaceConfig
save possible c = if possible.flags == 0 then c else possible

-- What follows the loop.
unfoldable pub conclude : Bool × InterfaceConfig × InterfaceConfig → ℕ × InterfaceConfig
conclude (true, c, possible) = (sysm_ok, c)
conclude (false, c, possible) = if possible.flags == 0 then (enxio, c) else (sysm_ok, possible)

module _ (k : Kernel) where
  -- From the flags on; the status of the reading of if_inet6 is not looked at.
  unfoldable pub with_flags : Bytes → ℕ ⊎ ℕ → InterfaceConfig → Option (ℕ × InterfaceConfig)
  unfolding convert_flags set_ends set_numbers ipv6_config_init net_interface_ipv6_config_get
  with_flags name (inl errno) c = some (errno, c)
  with_flags name (inr flags) c = do
    r ← net_interface_ipv6_config_get k.if_inet6 name (
        ipv6_config_init (
          set_numbers (k.answers name)
            (set_ends (k.answers name) (record c { flags = convert_flags flags }))))
    some (sysm_ok, r.1)

  unfoldable pub with_socket : Option ℕ → Bytes → Option (ℕ × InterfaceConfig)
  unfolding with_flags net_address_set zero_config
  with_socket (some errno) name = some (errno, zero_config)
  with_socket none name =
      let a = k.answers name in
      let c = record zero_config {
        name = name;
        address = net_address_set a.address no_address;
        netmask = net_address_set a.netmask no_address;
      } in
      if ltb (length name) 16 then with_flags name a.flags c else none

  -- `sysm_net_interface_config_get`, for a name.
  unfoldable pub config_get : Bytes → Option (ℕ × InterfaceConfig)
  unfolding with_socket
  config_get name = with_socket k.no_socket name

  -- The loop: whether one is found, `ifconfig` and `possible_config`.
  unfoldable pub primary_loop :
      List Bytes
      → InterfaceConfig
      → InterfaceConfig
      → Option (Bool × InterfaceConfig × InterfaceConfig)
  unfolding config_get is_candidate is_primary save
  primary_loop [] c possible = some (false, c, possible)
  primary_loop (name ∷ names) c possible = do
    r ← config_get name
    let (status, c') = r
    let possible' = save possible c'
    let skipped = primary_loop names c' possible
    let passed = primary_loop names c' possible'
    if is_candidate status c'
        then (if is_primary name c' then some (true, c', possible') else passed)
        else skipped

  -- `sysm_net_interface_config_primary_get`, from what `sysm_net_interface_list_get` lists.
  unfoldable pub config_primary_get :
      ℕ ⊎ List Bytes → InterfaceConfig → Option (ℕ × InterfaceConfig)
  unfolding primary_loop conclude zero_config
  config_primary_get (inl status) c = some (status, c)
  config_primary_get (inr names) c = do r ← primary_loop names c zero_config; some (conclude r)
