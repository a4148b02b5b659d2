-- ===== src/Lib.antt =====
-- The core of sysm-native, a C library that reads the state of a Linux system from /proc and hands
-- it to Java through the JNI. It is built from sysm.c, sysm_util.c, sysm_format.c and javasysm.c of
-- sysm-native/src/main and the headers sysm.h, sysm_util.h and javasysm.h of
-- sysm-native/include/main. The parts modelled here:
--
-- Cache: the hash table of sysm_util.c that keeps values between calls, with its cleanup of expired
-- entries, its rehash and its destruction. Time, the values freed and the entries that become
-- unreachable are explicit. Cache/Table has the abstract view, a map from keys to values, and
-- the well-formedness of a table; Cache/Chain, Rehash, Access, Cleanup and Life have the theorems.
-- GrowList: the lists that double as results, nine kinds with the same code (GrowList/Kinds);
-- GrowList/Push is about filling them. `malloc` and `realloc` succeed.
-- Text: `sysm_skip_token` and the parts of the C library that read text; Text/Number has
-- `strtoul` and `atoi`, Text/Decimal the printing of numbers and of the names of files in /proc.
-- File: `sysm_file2str`, with what `open` and `read` deliver as a parameter.
-- Net: addresses (Net/Address), a line of /proc/net/tcp (Net/Connection), the walk over the files
-- with a callback on each connection (Net/Walk), and the statistics (Net/Stat), which keep the
-- listening ports in a cache. Net/Walk uses GrowList for the list of connections.
-- Proc: the processes. Proc/Stat is `proc_stat_read`, which keeps the last line of /proc/PID/stat
-- that was read, Proc/Query the calls on it and on status and statm, Proc/Listing the list of
-- processes (on GrowList), Proc/Tally the counts of their states, Proc/Usage the share of a CPU,
-- which keeps the readings before in a Cache, Proc/Args and Proc/Env the arguments and environments,
-- Proc/Port the process behind a port, Proc/Exe the links to its program, Proc/Signal the signals.
-- Interface: the names of the interfaces, their traffic, their configuration and the primary one,
-- and the loop that asks the kernel for them (Interface/Conf); Route: the routes and the default
-- gateway, and what `sysm_net_info_get` adds to it (Route/Info). Disk: the counts of disks from
-- three sources and the rates since the last snapshot; Disk/Devices: the search for a path's device
-- in a Cache, which uses the list of mounted file systems (FsType/Mounts). Load: the load averages
-- and the uptime. Limits: the table of resource limits. Session: opening and closing.
-- FsType: the kind of a file system by its name. Who: the logins. Format: the texts of errors and the
-- names of users and groups. CpuInfo: the processors of /proc/cpuinfo (CpuInfo, CpuInfo/Listing) and
-- the short form of their model's name (CpuInfo/Model).
-- Cpu, Memory: the readings of /proc/stat, /proc/meminfo, /proc/vmstat and /proc/mtrr. The
-- arithmetic on doubles is an interface (Double), with the laws of exact integers below 2^53.
-- Memory/Registers has the lines of /proc/mtrr as the kernel prints them.
-- Jni: the glue of javasysm.c, over the library's functions as parameters. Jni/Layout has the
-- tables of the macros of javasysm.h, one for each Java bean, and Jni/Layout/Declared the fields
-- that the beans of sysm-jni/src/main/java/edu/scut/cs/hbdc/sysm/bean declare; Jni/Fields the
-- macros; Jni/Handle the block behind the Java object's pointer, the exceptions, `nativeOpen` and
-- `nativeClose`; Jni/Gather the functions that fill one bean; Jni/Arrays those that return an
-- array, Jni/Values those that return a number or a text, Jni/NetStat and Jni/Environment the two
-- that do more. Jni/Life has the sequences of calls at a handle. The Java machine is an interface
-- (`Jvm`), and its laws are a record of their own (`IsJvm`). A state counts the global references,
-- the blocks and the pinned strings that have not been given back, which nothing in the program
-- keeps.
--
-- The state of each part is a record with the fields of its struct, and each operation is a
-- function of the same name without the prefix `sysm_`; a failure is an errno. An `Option` around
-- the result of an operation is `none` where the C code would read or write outside a buffer or a
-- text, go through a pointer that is NULL or freed, divide by zero, or overflow a count of
-- `tcp_states`. Machine words are native numbers with their wrap-around written out. A C string is
-- the list of its bytes before the NUL, and a pointer into it is the text from there. All loops are
-- over a text, a list or a chain and recurse on it, but for these, which recurse on fuel:
-- `sysm_uitoa` on the room in its buffer, twelve digits, where an `unsigned int` has at most ten;
-- the loops over the strings of /proc/PID/cmdline and environ on the length of the buffer, of which
-- each round takes a byte at least; the shift of the page size on the size itself, which each round
-- halves; the loop over the processors of /proc/cpuinfo on one more than its lines, of which each
-- round but the last takes one; and the loop around SIOCGIFCONF on as many rounds as its caller
-- gives, which are enough when they are two more than the buffers that the interfaces fill. The
-- loop of `sysm_inet_ntoa` runs over the four bytes of the address.
--
-- What `open`, `fopen`, `read`, `stat`, `sscanf`, `inet_ntop`, `getenv`, `getrlimit`, the ioctls, the
-- `cpuid` instruction and the clock deliver are parameters, and so is what `malloc` or the stack
-- holds where the code reads it unset. So are `strerror_r`, `getpwuid_r`, `getmntent`, the records of
-- utmp and the calls of the JNI. Not modelled: `getNativeLibVersion` and version.c, which hold
-- constants of the build; `sysm_throw_notimpl`, which nothing calls; javasysm_generated.h, which javah
-- writes; and the Java classes but for the fields that their beans declare, which are of another
-- language. Tests has runs on concrete inputs.
pub mod Base
pub mod Text
pub mod Net
pub mod Cache
pub mod GrowList
pub mod FsType
pub mod Double
pub mod File
pub mod Cpu
pub mod Memory
pub mod Proc
pub mod Interface
pub mod Jni
pub mod Disk
pub mod Session
pub mod Limits
pub mod Route
pub mod Load
pub mod Format
pub mod CpuInfo
pub mod Who
pub mod Tests
