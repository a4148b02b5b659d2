-- ===== src/Net.antt =====
-- The network part of sysm-native: addresses and their texts, the connections of /proc/net and the
-- walkers over them.
pub mod Address
pub mod Connection
pub mod Walk
pub mod Stat
