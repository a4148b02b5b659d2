-- ===== src/Route/Info.antt =====
-- `sysm_net_info_get` of sysm-native/src/main/sysm.c. The lines of /etc/resolv.conf and what
-- `gethostname` and `getdomainname` deliver are parameters; `none` is a store behind an array.
pub mod Servers
use jni_demo_system_monitor.Base.{
  ℕ, ◌-◌, Bool, true, false, ◌||◌, List, [], ◌∷◌, ◌⊎◌, inl, inr, Option, none, some, ◌>>=◌, ltb,
  ◌==◌, if◌then◌else◌, Bytes, codes, drop, take, length, sysm_ok,
}
use jni_demo_system_monitor.Net.Address.{NetAddress}
use jni_demo_system_monitor.Route.{ScannedRoute, get_default_gateway}
use jni_demo_system_monitor.Text.{strstr, drop_while, is_space, head_byte}

-- SYSM_INET6_ADDRSTRLEN
abbrev pub addrstrlen : ℕ
addrstrlen = 46

-- SYSM_MAXHOSTNAMELEN and SYSM_MAXDOMAINNAMELEN
abbrev pub name_size : ℕ
name_size = 256

-- `sysm_net_info_t`
pub record NetInfo : Type 0 where
  pub default_gateway : Bytes
  pub default_gateway_interface : Bytes
  pub host_name : Bytes
  pub domain_name : Bytes
  pub primary_dns : Bytes
  pub secondary_dns : Bytes

-- The text of a server, from where `strstr` has found the word; its last byte, which ought to be the
-- newline, goes. Of an empty text the byte before it, which is in the buffer, goes.
abbrev pub server_at : Option Bytes → Option Bytes
server_at none = none
server_at (some found) =
    let ptr = drop_while is_space (drop 10 found) in some (take (length ptr - 1) ptr)

unfoldable pub server_of : Bytes → Option Bytes
unfolding strstr drop_while is_space head_byte
server_of line =
    let ptr = drop_while is_space line in
    if head_byte ptr == b'#' then none else server_at (strstr (codes "nameserver") ptr)

-- `strcpy` into an array of that size.
unfoldable pub copy_dns : Bytes → Option Bytes
copy_dns text = if ltb (length text) addrstrlen then some text else none

abbrev is_empty : Bytes → Bool
is_empty text = length text == 0

-- A round with a server; `rest` is the loop over the other lines.
unfoldable pub put_server : (NetInfo → Option NetInfo) → NetInfo → Option Bytes → Option NetInfo
unfolding copy_dns
put_server rest info none = rest info
put_server rest info (some text) =
    let first = copy_dns text >>= λ t. rest (record info { primary_dns = t }) in
    let second = copy_dns text >>= λ t. rest (record info { secondary_dns = t }) in
    if is_empty info.primary_dns
    then first
    else if is_empty info.secondary_dns
    then second
    else some info

unfoldable pub read_servers : List Bytes → NetInfo → Option NetInfo
unfolding server_of put_server
read_servers [] info = some info
read_servers (line ∷ lines) info = put_server (read_servers lines) info (server_of line)

-- A name that was found, cut to its array, or an empty one.
abbrev pub name_or_empty : Option Bytes → Bytes
name_or_empty none = []
name_or_empty (some name) = take (name_size - 1) name

abbrev pub no_info : NetInfo
no_info = record {
  default_gateway = [];
  default_gateway_interface = [];
  host_name = [];
  domain_name = [];
  primary_dns = [];
  secondary_dns = [];
}

-- What the call finds: `none` for a file that does not open, or a name that is not had.
pub record Names : Type 0 where
  pub resolv : Option (List Bytes)
  pub host : Option Bytes
  pub domain : Option Bytes

abbrev pub servers_in : Option (List Bytes) → Option NetInfo
servers_in none = some no_info
servers_in (some lines) = read_servers lines no_info

-- The status of the search for the gateway is not looked at.
unfoldable pub net_info_get :
    Names → (Bytes × Bytes → Option (ℕ × Bytes × Bytes)) → Option (ℕ × NetInfo)
unfolding read_servers
net_info_get names gateway = servers_in names.resolv >>= λ info. gateway ([], []) >>= λ r. some (
  sysm_ok,
  record info {
    default_gateway = r.1;
    default_gateway_interface = r.2;
    host_name = name_or_empty names.host;
    domain_name = name_or_empty names.domain;
  },
)
