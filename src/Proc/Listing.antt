-- ===== src/Proc/Listing.antt =====
-- The list of processes: `sysm_proc_list_get`, `sysm_os_proc_list_get`, `get_proc_signal_offset` and
-- `proc_isthread` of sysm-native/src/main/sysm.c. The names in /proc, or the errno of `opendir`, and
-- the files are parameters; `none` is a store behind a buffer or a block.
pub mod Refill
use jni_demo_system_monitor.Base.{
  ℕ, zero, suc, ◌+◌, ◌-◌, ◌%◌, ◌^◌, Bool, true, false, not, ◌&&◌, List, [], ◌∷◌, ◌++◌, ◌⊎◌, inl,
  inr, Option, none, some, ◌>>=◌, length, take, drop, ltb, ◌==◌, if◌then◌else◌, Bytes, codes,
  u32_mod, sysm_ok,
}
use jni_demo_system_monitor.File.{Opened, missing, unreadable, contents, file2str}
use jni_demo_system_monitor.GrowList.{GrowList}
use jni_demo_system_monitor.GrowList.Kinds.{proc_list_create, proc_list_push}
use jni_demo_system_monitor.Text.{is_digit, head_byte, starts_with}
use jni_demo_system_monitor.Text.Number.{strtoul}
use mathlib.Core.List.{reverse}

-- `sysm->proc_signal_offset`, by the bits of an `int`: -1 before it is known.
abbrev pub offset_unread : ℕ
offset_unread = u32_mod - 1

unfoldable pub count_spaces : ℕ → Bytes → ℕ
count_spaces fields [] = fields
count_spaces fields (c ∷ s) = count_spaces (if c == b' ' then fields + 1 else fields) s

-- `(fields - PROC_SIGNAL_IX) + 1`, from /proc/self/stat.
unfoldable pub get_proc_signal_offset : ℕ → Opened → Option ℕ
unfolding file2str count_spaces
get_proc_signal_offset bufsiz self_stat = elim (file2str bufsiz bufsiz self_stat) [
  | none ↦ none
  | some (inl status) ↦ some 1
  | some (inr buffer) ↦ some ((count_spaces 0 buffer + u32_mod - 37) % u32_mod)
]

-- `while ((n > 0) && test(buffer[n--]));` on the bytes up to index `n`, the last one first.
unfoldable pub go_back : (ℕ → Bool) → Bytes → Bytes
go_back test [] = []
go_back test (c ∷ []) = c ∷ []
go_back test (c ∷ d ∷ r) = let rest = go_back test (d ∷ r) in if test c then rest else d ∷ r

abbrev pub not_digit : ℕ → Bool
not_digit c = not (is_digit c)

-- The rounds of `while (offset-- > 0)`.
unfoldable pub skip_fields : ℕ → Bytes → Bytes
unfolding go_back is_digit
skip_fields zero back = back
skip_fields (suc offset) back = skip_fields offset (go_back not_digit (go_back is_digit back))

abbrev rounds : ℕ → ℕ
rounds offset = if ltb offset (2 ^ 31) then offset else 0

-- Whether the text at the field that is reached is not of the signal SIGCHLD.
unfoldable pub is_thread_line : ℕ → Bytes → Bool
unfolding skip_fields go_back starts_with is_digit
is_thread_line offset buffer =
    let back = skip_fields (rounds offset) (go_back not_digit (reverse (buffer))) in
    if ltb (length back) 4
    then false
    else not (starts_with (codes "17 ") (drop (length back - 1) buffer))

-- `proc_isthread`, on the file /proc/PID/stat.
unfoldable pub proc_isthread : ℕ → ℕ → Opened → Option Bool
unfolding is_thread_line
proc_isthread bufsiz offset missing = some false
proc_isthread bufsiz offset (unreadable errno) = some false
proc_isthread bufsiz offset (contents text) =
    let buffer = take bufsiz text in
    if ltb (length buffer) bufsiz then some (is_thread_line offset buffer) else none

-- What the listing takes from outside, and from `sysm_t`.
pub record ProcDir : Type 0 where
  pub stat_file : Bytes → Opened
  pub self_stat : Opened
  pub has_nptl : Bool
  pub bufsiz : ℕ

module _ (dir : ProcDir) where
  unfoldable pub skips : ℕ → Bytes → Option Bool
  unfolding proc_isthread head_byte is_digit
  skips offset name =
      if is_digit (head_byte name)
      then (if dir.has_nptl
          then some false
          else proc_isthread dir.bufsiz offset (dir.stat_file name))
      else some true

  abbrev pub pid_of : Bytes → ℕ
  pid_of name = (strtoul 10 name).0 % u32_mod

  -- The loop over the entries.
  unfoldable pub list_pids : ℕ → List Bytes → GrowList ℕ → Option (GrowList ℕ)
  unfolding skips proc_list_push
  list_pids offset [] l = some l
  list_pids offset (name ∷ names) l = do
    skip ← skips offset name
    l' ← if skip then some l else proc_list_push (pid_of name) l
    list_pids offset names l'

  unfoldable pub signal_offset : ℕ → Option ℕ
  signal_offset offset =
      if not dir.has_nptl && offset == offset_unread
      then get_proc_signal_offset dir.bufsiz dir.self_stat
      else some offset

  -- The status, the signal offset and the list, from what `opendir` finds.
  unfoldable pub os_proc_list_get : ℕ → ℕ ⊎ List Bytes → GrowList ℕ → Option (ℕ × ℕ × GrowList ℕ)
  unfolding list_pids signal_offset
  os_proc_list_get offset (inl errno) l = some (errno, offset, l)
  os_proc_list_get offset (inr names) l = do
    offset' ← signal_offset offset
    l' ← list_pids offset' names l
    some (sysm_ok, offset', l')

  -- With NULL for the list: `sysm->pids`, made or emptied, is filled.
  unfoldable pub reuse : Option (GrowList ℕ) → GrowList ℕ
  unfolding proc_list_create
  reuse none = proc_list_create
  reuse (some pids) = record pids { number = 0 }

  unfoldable pub proc_list_get :
      ℕ → ℕ ⊎ List Bytes → Option (GrowList ℕ) → Option (ℕ × ℕ × GrowList ℕ)
  unfolding os_proc_list_get reuse
  proc_list_get offset opened pids = os_proc_list_get offset opened (reuse pids)
