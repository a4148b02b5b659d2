-- ===== src/Text/Decimal/Bounds.antt =====
-- The buffers of `sysm_uitoa` and `sysm_proc_filename`, and the numbers in their texts.
use jni_demo_system_monitor.Base.{
  ℕ, zero, suc, ◌+◌, ◌/◌, ◌%◌, ◌^◌, ◌<◌, ◌≤◌, [], ◌∷◌, ◌++◌, append-nil, some, ◌≡◌, ◌≢◌, refl,
  arith, length, take, length-append, take-append, Bytes, u32_mod, u64_mod, ap, All-append,
  append_assoc, sym, ◌∙◌,
}
use native.Mathlib.Decide.{dec_lt}
use native.Mathlib.Nat.{pow-suc}
use jni_demo_system_monitor.Text.Decimal.{
  uitoa_buffer_size, uitoa_loop, uitoa, proc_fs_root, proc_filename,
}
use jni_demo_system_monitor.Text.Number.{strtoul}
use jni_demo_system_monitor.Text.Token.{IsDigits, NoDigit, value, strtoul_digits}
use jni_demo_system_monitor.Text.{is_digit}

-- What the loop leaves: digits in front of `text`, at most `room` of them, that read as `n`.
record Printed (room n : ℕ) (text : Bytes) (len : ℕ) : Type 0 where
  pub digits : Bytes
  pub count : ℕ
  pub runs : uitoa_loop room n text len ≡ some (digits ++ text, len + count)
  pub counted : length digits ≡ count
  pub some_digit : 0 < count
  pub fits : count ≤ room
  pub are_digits : IsDigits digits
  pub reads : (s : Bytes) → value 0 (digits ++ s) ≡ value n s

Printed-last : (room n : ℕ) (text : Bytes) (len : ℕ) → n < 10 → Printed (suc room) n text len
unfolding uitoa_loop is_digit
Printed-last room n text len h = record {
  digits = (b'0' + n % 10) ∷ [];
  count = 1;
  runs = ground arith;
  counted = refl;
  some_digit = omega arith;
  fits = omega arith;
  are_digits = (ground arith, tt);
  reads = λ s. ap (λ (t : ℕ). value t s) (omega arith);
}

Printed-more :
    (room n : ℕ) (text : Bytes) (len : ℕ)
    → 10 ≤ n
    → Printed room (n / 10) ((b'0' + n % 10) ∷ text) (len + 1)
    → Printed (suc room) n text len
unfolding uitoa_loop is_digit
Printed-more room n text len h p = record {
  digits = p.digits ++ (b'0' + n % 10) ∷ [];
  count = p.count + 1;
  runs = ground (arith, p.runs, append_assoc p.digits ((b'0' + n % 10) ∷ []) text);
  counted = rw length-append (omega (arith, p.counted));
  some_digit = omega arith;
  fits = omega (arith, p.fits);
  are_digits = All-append _ p.digits _ p.are_digits (ground arith, tt);
  reads = λ s. rw (append_assoc, p.reads) (ap (λ (t : ℕ). value t s) (omega arith));
}

uitoa_loop-Printed :
    (room n : ℕ) (text : Bytes) (len : ℕ) → n < 10 ^ suc room → Printed (suc room) n text len
uitoa_loop-Printed zero n text len h = Printed-last zero n text len h
uitoa_loop-Printed (suc room) n text len h =
    let rest =
      uitoa_loop-Printed room (n / 10) ((b'0' + n % 10) ∷ text) (len + 1)
        (omega (arith, pow-suc 10 (suc room))) in
    elim (dec_lt n 10) [
      | yes small ↦ Printed-last (suc room) n text len small
      | no large ↦ Printed-more (suc room) n text len (omega arith) rest
    ]

uitoa-Printed : (n len : ℕ) → n < u32_mod → Printed 12 n [] len
uitoa-Printed n len h = uitoa_loop-Printed 11 n [] len (omega arith)

strtoul-Printed :
    {room n len : ℕ} {text : Bytes} (p : Printed room n text len) (rest : Bytes)
    → n < u64_mod
    → NoDigit rest
    → strtoul 10 (p.digits ++ rest) ≡ (n, rest)
strtoul-Printed {n = n} p rest h b =
    let exact : value 0 p.digits ≡ n = ap (value 0) (sym (append-nil p.digits)) ∙ p.reads [] in
    let not_nil : p.digits ≢ [] =
      λ e. absurd (omega (arith, ap length e, p.counted, p.some_digit)) in
    rw exact at (strtoul_digits [] p.digits rest tt not_nil p.are_digits b (rw exact h))

-- For every `unsigned int`, `sysm_uitoa` never writes in front of its buffer, the count that it
-- adds to `*len` is the length of its text, and `strtoul` reads the number back from that text,
-- whatever follows it, unless a digit does.
pub strtoul-uitoa :
    (n len : ℕ) (rest : Bytes)
    → n < u32_mod
    → NoDigit rest
    → (text : Bytes) × (uitoa n len ≡ some (text, len + length text))
      × (length text < uitoa_buffer_size)
      × (strtoul 10 (text ++ rest) ≡ (n, rest))
unfolding uitoa
strtoul-uitoa n len rest h b =
    let p = uitoa-Printed n len h in
    (
      p.digits,
      rw p.counted (p.runs ∙ ap (λ t. some (t, len + p.count)) (append-nil p.digits)),
      omega (arith, p.counted, p.fits),
      strtoul-Printed p rest (omega arith) b,
    )

-- In a buffer of the size that it asserts, `sysm_proc_filename` writes "/proc/", the decimal text
-- of the pid and the file's name, all within the buffer; the pid can be read back from the text.
pub proc_filename_lem :
    (buflen pid : ℕ) (fname : Bytes)
    → pid < u32_mod
    → length proc_fs_root + uitoa_buffer_size + length fname + 1 ≤ buflen
    → (pid_str : Bytes) × (proc_filename buflen pid fname (length fname)
        ≡ some (proc_fs_root ++ (pid_str ++ fname)))
      × (length (proc_fs_root ++ (pid_str ++ fname)) < buflen)
      × (strtoul 10 pid_str ≡ (pid, []))
unfolding proc_filename
proc_filename_lem buflen pid fname h room =
    let (text, runs, short, reads) = strtoul-uitoa pid 0 [] h tt in
    let whole : take (length fname) fname ≡ fname =
      ap (take (length fname)) (sym (append-nil fname)) ∙ take-append fname [] in
    let head : take (0 + length text) text ≡ text =
      ap (λ (k : ℕ). take k text) (omega arith)
      ∙ ap (take (length text)) (sym (append-nil text))
      ∙ take-append text [] in
    let fits : length (proc_fs_root ++ (text ++ fname)) < buflen =
      omega (arith, length-append text fname) in
    (text, ground (arith, runs, whole, head, fits), fits, rw append-nil at reads)
