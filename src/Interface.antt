-- ===== src/Interface.antt =====
-- The network interfaces of sysm-native/src/main/sysm.c: what is known of one, what went over it,
-- and which of them is the primary one.
pub mod Listing
pub mod Conf
pub mod Traffic
pub mod Kind
pub mod Config
