-- ===== src/Memory.antt =====
-- Memory and swap from /proc: `sysm_meminfo`, `get_mtrr`, `sysm_memory_get` and `sysm_swap_get` of
-- sysm-native/src/main/sysm.c. The files and the arithmetic on doubles are parameters.
pub mod Registers
pub mod Mtrr
use jni_demo_system_monitor.Base.{
  ℕ, ◌+◌, ◌-◌, ◌*◌, ◌/◌, ◌%◌, ◌^◌, Bool, true, false, ◌||◌, List, [], ◌∷◌, ◌⊎◌, inl, inr, Option,
  none, some, ltb, ◌==◌, if◌then◌else◌, length, drop, Bytes, codes, u32_mod, u64_mod, sysm_ok,
  enoent, ◌&&◌,
}
use jni_demo_system_monitor.Cpu.Percent.{sub_u64}
use jni_demo_system_monitor.Double.{Double}
use jni_demo_system_monitor.File.{Opened, file2str}
use jni_demo_system_monitor.Text.{skip_token, strstr, drop_while, is_space, head_byte}
use jni_demo_system_monitor.Text.Number.{strtoul, atoi}

unfoldable pub in_unit : ℕ → ℕ → ℕ
in_unit unit val =
    if unit == b'k' || unit == b'K'
    then val * 1024 % u64_mod
    else if unit == b'M' || unit == b'm'
    then val * (1024 * 1024) % u64_mod
    else val

-- `attr` has the colon of `MEMINFO_PARAM`, and `len` is its length.
unfoldable pub meminfo : Bytes → Bytes → ℕ
unfolding in_unit strtoul drop_while
meminfo buffer attr = elim (strstr attr buffer) [
  | none ↦ 0
  | some ptr ↦
      let (val, tok) = strtoul 0 (drop (length attr) ptr) in
      in_unit (head_byte (drop_while (λ c. c == b' ') tok)) val
]

-- `mtrr` is an `int`, by its 32 bits; -1 is for a file not yet read.
abbrev pub mtrr_unread : ℕ
mtrr_unread = u32_mod - 1

-- The value that the conversion of an `int` to `sysm_uint64_t` gives.
unfoldable pub sign_extend : ℕ → ℕ
sign_extend m = if ltb m (2 ^ 31) then m else m + (u64_mod - u32_mod)

-- What a line adds: its size, if it is of a write-back register.
unfoldable pub mtrr_line : Bytes → ℕ
unfolding atoi drop_while is_space
mtrr_line line = elim (strstr (codes "size=") line) [
  | none ↦ 0
  | some ptr ↦ elim (strstr (codes "write-back") ptr) [
    | none ↦ 0
    | some _ ↦ atoi (drop_while is_space (drop 5 ptr))
  ]
]

unfoldable pub sum_mtrr : ℕ → List Bytes → ℕ
unfolding mtrr_line
sum_mtrr mtrr [] = mtrr
sum_mtrr mtrr (line ∷ lines) = sum_mtrr ((mtrr + mtrr_line line) % u32_mod) lines

-- From `sysm->mtrr`, `memory->mtrr` and the opened /proc/mtrr, the status and the new values.
unfoldable pub get_mtrr : ℕ → ℕ → ℕ ⊎ List Bytes → ℕ × ℕ × ℕ
unfolding sign_extend sum_mtrr
get_mtrr cached old file =
    if ltb 0 cached && ltb cached (2 ^ 31)
    then (sysm_ok, cached, cached)
    else if cached == 0
    then (enoent, cached, old)
    else elim file [
      | inl errno ↦ (errno, cached, old)
      | inr lines ↦ let mtrr = sum_mtrr 0 lines in (sysm_ok, mtrr, sign_extend mtrr)
    ]

pub record Swap : Type 0 where
  pub total : ℕ
  pub used : ℕ
  pub free : ℕ
  pub page_in : ℕ
  pub page_out : ℕ

unfoldable pub read_pages : Bytes → Swap → Swap
unfolding strtoul skip_token
read_pages buffer swap = elim (strstr (codes "\npswpin") buffer) [
  | none ↦ swap
  | some ptr ↦
      let (page_in, p) = strtoul 10 (skip_token ptr) in
      record swap { page_in = page_in; page_out = (strtoul 10 (skip_token p)).0 }
]

unfoldable pub swap_total : Bytes → Swap
unfolding meminfo sub_u64
swap_total buffer =
    let total = meminfo buffer (codes "SwapTotal:") in
    let free = meminfo buffer (codes "SwapFree:") in
    record {
      total = total;
      used = sub_u64 total free;
      free = free;
      page_in = u64_mod - 1;
      page_out = u64_mod - 1;
    }

-- The status and the swap that is left; `none` is a store behind a buffer, of `bufsiz` bytes.
unfoldable pub swap_get : ℕ → Opened → Opened → Swap → Option (ℕ × Swap)
unfolding swap_total read_pages file2str
swap_get bufsiz proc_meminfo proc_vmstat swap = elim (file2str bufsiz bufsiz proc_meminfo) [
  | none ↦ none
  | some (inl status) ↦ some (status, swap)
  | some (inr buffer) ↦ elim (file2str bufsiz bufsiz proc_vmstat) [
    | none ↦ none
    | some (inl status) ↦ some (status, swap_total buffer)
    | some (inr pages) ↦ some (sysm_ok, read_pages pages (swap_total buffer))
  ]
]

module _ (d : Double) where
  pub record Memory : Type 0 where
    pub total : ℕ
    pub mtrr : ℕ
    pub used : ℕ
    pub free : ℕ
    pub actual_used : ℕ
    pub actual_free : ℕ
    pub used_percent : d.Carrier
    pub free_percent : d.Carrier

  -- `(double)(diff * 100) / total`.
  unfoldable pub percent : ℕ → ℕ → d.Carrier
  percent diff total = d.div (d.from_u64 (diff * 100 % u64_mod)) (d.from_u64 total)

  -- All that `sysm_memory_get` writes before the registers are read.
  unfoldable pub read_meminfo : Bytes → ℕ → Memory
  unfolding meminfo sub_u64 percent
  read_meminfo buffer mtrr =
      let total = meminfo buffer (codes "MemTotal:") in
      let free = meminfo buffer (codes "MemFree:") in
      let used = sub_u64 total free in
      let buffers = meminfo buffer (codes "Buffers:") in
      let cached = meminfo buffer (codes "Cached:") in
      let kern = (buffers + cached) % u64_mod in
      let actual_free = (free + kern) % u64_mod in
      let actual_used = sub_u64 used kern in
      let kilos = total / 1024 in
      record {
        total = total;
        mtrr = mtrr;
        used = used;
        free = free;
        actual_used = actual_used;
        actual_free = actual_free;
        used_percent = percent (sub_u64 kilos (actual_free / 1024)) kilos;
        free_percent = percent (sub_u64 kilos (actual_used / 1024)) kilos;
      }

  -- The status, `sysm->mtrr` and the memory that are left.
  unfoldable pub memory_get : ℕ → Opened → ℕ ⊎ List Bytes → ℕ → Memory → Option (ℕ × ℕ × Memory)
  unfolding read_meminfo get_mtrr file2str
  memory_get bufsiz proc_meminfo proc_mtrr cached memory =
      elim (file2str bufsiz bufsiz proc_meminfo) [
        | none ↦ none
        | some (inl status) ↦ some (status, cached, memory)
        | some (inr buffer) ↦
            let (status, cached', mtrr) = get_mtrr cached memory.mtrr proc_mtrr in
            some (status, cached', read_meminfo buffer mtrr)
      ]
