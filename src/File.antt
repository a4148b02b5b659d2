-- ===== src/File.antt =====
-- Whole files read into buffers: `sysm_file2str` and `sysm_proc_file2str` of
-- sysm-native/src/main/sysm_util.c. What `open` and `read` deliver is a parameter; `none` is a store
-- behind the buffer.
use jni_demo_system_monitor.Base.{
  ℕ, true, false, ◌⊎◌, inl, inr, Option, none, some, length, take, ltb, ◌==◌, if◌then◌else◌, Bytes,
  enoent, esrch, zero, suc, refl, ap, ◌≤◌, ◌<◌, ◌∷◌, [], arith, ◌≡◌, ◌-◌, length-take, Bool-cases,
  ltb→lt,
}

-- No open file, an errno of `read`, or the contents, which have no NUL.
pub data Opened : Type 0 where
  missing : Opened
  unreadable : ℕ → Opened
  contents : Bytes → Opened

-- At most `buflen` bytes are read into a buffer of `size` bytes, and a NUL is stored behind them: a
-- status other than SYSM_OK, or the text.
unfoldable pub file2str : ℕ → ℕ → Opened → Option (ℕ ⊎ Bytes)
file2str size buflen missing = some (inl enoent)
file2str size buflen (unreadable errno) = some (inl errno)
file2str size buflen (contents text) =
    let read = take buflen text in if ltb (length read) size then some (inr read) else none

unfoldable pub proc_status : ℕ → ℕ
proc_status retval = if retval == enoent then esrch else retval

-- `sysm_proc_file2str`, on the file that `sysm_proc_filename` names.
unfoldable pub proc_file2str : ℕ → ℕ → Opened → Option (ℕ ⊎ Bytes)
unfolding file2str proc_status
proc_file2str size buflen file = elim (file2str size buflen file) [
  | none ↦ none
  | some (inl retval) ↦ some (inl (proc_status retval))
  | some (inr text) ↦ some (inr text)
]

take_all : (n : ℕ) (s : Bytes) → length s ≤ n → take n s ≡ s
take_all zero [] h = refl
take_all (suc n) [] h = refl
take_all zero (c ∷ s) h = absurd (omega arith)
take_all (suc n) (c ∷ s) h = ap (◌∷◌ c) (take_all n s (omega arith))

file2str-fits :
    (size : ℕ) (text : Bytes)
    → file2str size size (contents text)
      ≡ (if ltb (length text) size then some (inr text) else none)
unfolding file2str
file2str-fits size text = elim (Bool-cases (ltb (length text) size)) [
  | inl fits ↦
      let short : length text < size = ltb→lt (length text) size fits in
      rw (take_all size text (omega arith)) refl
  | inr full ↦
      let size_read : ltb (length (take size text)) size ≡ false =
        ground (arith, length-take size text) in
      rw (full, size_read) refl
]

file2str-safe :
    (size : ℕ) (file : Opened)
    → 0 < size
    → (r : ℕ ⊎ Bytes) × (file2str size (size - 1) file ≡ some r)
unfolding file2str
file2str-safe size missing pos = (inl enoent, refl)
file2str-safe size (unreadable errno) pos = (inl errno, refl)
file2str-safe size (contents text) pos =
    let size_read : ltb (length (take (size - 1) text)) size ≡ true =
      ground (arith, length-take (size - 1) text) in
    (inr (take (size - 1) text), rw size_read refl)

-- With the size of the buffer as the length to read, as most callers pass it, the text is read whole
-- if it is shorter than the buffer, and the NUL is stored behind the buffer if it is not. With one
-- byte less, nothing is stored behind a buffer that is not empty, whatever the file is.
pub file2str_lem :
    (size : ℕ) (text : Bytes)
    → (file2str size size (contents text)
        ≡ (if ltb (length text) size then some (inr text) else none))
      × ((file : Opened) → 0 < size → (r : ℕ ⊎ Bytes) × (file2str size (size - 1) file ≡ some r))
file2str_lem size text = (file2str-fits size text, file2str-safe size)
