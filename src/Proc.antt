-- ===== src/Proc.antt =====
-- The processes of sysm-native/src/main/sysm.c: what is read from the files of /proc/PID. A `pid_t`
-- or an `int` is its 32 bits; times in seconds are those of `time`.
pub mod Stat
pub mod Query
pub mod Listing
pub mod Usage
pub mod Args
pub mod Env
pub mod Tally
pub mod Signal
pub mod Exe
pub mod Port
