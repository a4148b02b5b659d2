-- ===== src/Interface/Conf.antt =====
-- The loop of `sysm_net_interface_list_get` of sysm-native/src/main/sysm.c that asks the kernel for
-- the configured interfaces. The ioctl SIOCGIFCONF is a parameter: for the length of the buffer, an
-- errno, or the length it has filled.
pub mod Ends
use jni_demo_system_monitor.Base.{
  ℕ, zero, suc, ◌+◌, ◌*◌, Bool, true, false, ◌&&◌, ◌||◌, not, ◌⊎◌, inl, inr, Option, none, some,
  ltb, ◌==◌, if◌then◌else◌, einval,
}

-- `sizeof(struct ifreq)`
abbrev pub ifreq_size : ℕ
ifreq_size = 40

-- `sizeof(struct ifreq) * SYSM_NET_IFLIST_MAX`
abbrev pub conf_step : ℕ
conf_step = ifreq_size * 20

-- `sysm->ifconf_buf`: NULL, a block, or the address of a block that was freed.
pub data ConfBuf : Type 0 where
  null held freed : ConfBuf

-- `sysm->ifconf_buf` and `sysm->ifconf_len`, and whether the socket is still open.
pub record Conf : Type 0 where
  pub buf : ConfBuf
  pub len : ℕ
  pub socket_open : Bool

-- The head of a round. Lengthening or filling a block that was freed is `none`.
unfoldable pub widen : Conf → ℕ → Option Conf
widen c lastlen =
    let longer = record c { buf = held; len = c.len + conf_step } in
    elim c.buf [
      | freed ↦ none
      | null ↦ some longer
      | held ↦ if lastlen == 0 then some (record c { buf = held }) else some longer
    ]

-- What is returned besides the state: an errno, or the length that the kernel has filled. The
-- length is what was asked for where the ioctl fails.
unfoldable pub conf_answer : ℕ ⊎ ℕ → ℕ → ℕ
conf_answer (inl errno) len = len
conf_answer (inr filled) len = filled

unfoldable pub fatal : ℕ ⊎ ℕ → ℕ → ℕ → Option ℕ
fatal (inl errno) lastlen len =
    if not (errno == einval) || (lastlen == len) then some errno else none
fatal (inr filled) lastlen len = none

-- The end of a round: `next` is the round for another `lastlen`.
unfoldable pub settle :
    (ℕ → Option (Conf × (ℕ ⊎ ℕ))) → Conf → ℕ → ℕ → Option ℕ → Option (Conf × (ℕ ⊎ ℕ))
settle next c lastlen filled (some errno) = some (record c { buf = freed }, inl errno)
settle next c lastlen filled none =
    let again = next filled in
    if ltb filled c.len
    then some (record c { socket_open = false }, inr filled)
    else if filled == lastlen
    then some (record c { socket_open = false }, inr filled)
    else again

module _ (ioctl : ℕ → ℕ ⊎ ℕ) where
  unfoldable pub ask :
      (Conf → ℕ → Option (Conf × (ℕ ⊎ ℕ))) → ℕ → Option Conf → Option (Conf × (ℕ ⊎ ℕ))
  unfolding conf_answer fatal settle
  ask next lastlen none = none
  ask next lastlen (some c) =
      let answer = ioctl c.len in
      settle (next c) c lastlen (conf_answer answer c.len) (fatal answer lastlen c.len)

  unfoldable pub conf_loop : ℕ → Conf → ℕ → Option (Conf × (ℕ ⊎ ℕ))
  unfolding widen ask
  conf_loop zero c lastlen = none
  conf_loop (suc fuel) c lastlen = ask (conf_loop fuel) lastlen (widen c lastlen)

  -- `fuel` rounds from a new socket.
  unfoldable pub net_interface_conf : ℕ → Conf → Option (Conf × (ℕ ⊎ ℕ))
  unfolding conf_loop
  net_interface_conf fuel c = conf_loop fuel (record c { socket_open = true }) 0
