-- ===== src/Interface/Conf/Ends.antt =====
-- The loop of `sysm_net_interface_list_get` of sysm-native/src/main/sysm.c ends with all interfaces.
use jni_demo_system_monitor.Base.{
  ℕ, suc, ◌<◌, ◌≡◌, refl, true, false, ◌⊎◌, inl, inr, Option, none, some, ◌==◌, einval,
}
use jni_demo_system_monitor.Interface.Conf.{
  held, freed, Conf, widen, conf_answer, fatal, settle, ask, conf_loop, net_interface_conf,
}
use Prim.Native.Nat.{min}

-- The kernel fills what it has, or the buffer.
abbrev pub kernel : ℕ → ℕ → ℕ ⊎ ℕ
kernel total len = inr (min total len)

abbrev asked : ℕ → Conf
asked len = record { buf = held; len = len; socket_open = true }

-- The loop has ended with all interfaces, a block that holds them with room to spare, and the socket
-- closed.
pub record IsComplete (total : ℕ) (r : Option (Conf × (ℕ ⊎ ℕ))) : Type 0 where
  pub final : Conf
  pub ended : r ≡ some (final, inr total)
  pub kept : final.buf ≡ held
  pub room : total < final.len
  pub closed : final.socket_open ≡ false

-- Where the ioctl fails with an errno other than EINVAL, with a block at hand: the call returns that
-- errno, leaves the address of the block it has freed and a socket that nobody closes, and the next
-- call fills or lengthens the freed block, whatever the ioctl then answers.
pub net_interface_conf-failed :
    (ioctl later : ℕ → ℕ ⊎ ℕ) (fuel more errno : ℕ) (c : Conf)
    → c.buf ≡ held
    → ioctl c.len ≡ inl errno
    → (errno == einval) ≡ false
    → let left = record c { buf = freed; socket_open = true } in
      (net_interface_conf ioctl (suc fuel) c ≡ some (left, inl errno))
      × (net_interface_conf later (suc more) left ≡ none)
unfolding net_interface_conf conf_loop widen ask conf_answer fatal settle
net_interface_conf-failed ioctl later fuel more errno c has_buf fails other =
    (rw (has_buf, fails, other) refl, refl)
