-- ===== src/Jni.antt =====
-- The JNI layer: sysm-native/src/main/javasysm.c and the tables of its header.
pub mod Layout
pub mod Fields
pub mod Handle
pub mod Gather
pub mod Life
pub mod NetStat
pub mod Arrays
pub mod Environment
pub mod Values
